-- ===== src/Api/Http.antt =====
-- What `fetch` answers, and how the helpers of the client turn it into a value or an exception.
-- `fetch` and the JSON parser are the browser's: an answer is a value of `Fetched`.
use mooring_line_management.Base.{
  ℕ, String, Bool, ◌&&◌, Option, none, some, leb, truthy, [], ◌∷◌, concat, show, not, if◌then◌else◌,
}

-- An error document of the API (RFC 9457).
pub record Problem : Type 0 where
  pub detail : Option String
  pub title : Option String

-- What a promise of the client is rejected with.
pub data Error : Type 0 where
  -- an `Error` with a message: the client's own, a failed `fetch`'s, or that of a body that is no JSON
  plain : (message : String) → Error
  -- the class `ForbiddenError`
  forbidden : Error
  -- a `MoveError`
  move_failed : (status : ℕ) → (message : String) → Error
  -- the error document itself, thrown as it is
  refused : Problem → Error

pub data Outcome {ℓ} (A : Type ℓ) : Type ℓ where
  resolved : A → Outcome A
  rejected : Error → Outcome A

infixl 5 ◌>>=◌ ◌>>◌
abbrev pub ◌>>=◌ {ℓ κ} : {A : Type ℓ} {B : Type κ} → Outcome A → (A → Outcome B) → Outcome B
resolved a >>= f = f a
rejected e >>= f = rejected e

abbrev pub ◌>>◌ {ℓ} : {B : Type ℓ} → Outcome (Unit {0}) → Outcome B → Outcome B
m >> k = m >>= λ _. k

abbrev pub throw_if : Bool → Error → Outcome (Unit {0})
throw_if b e = if b then rejected e else resolved tt

-- A response; `json` is what `res.json()` gives. `problem` is the body read as an error document, `none`
-- where it does not parse.
pub record Response (A : Type 0) : Type 0 where
  pub status : ℕ
  pub status_text : String
  pub json : Outcome A
  pub problem : Option Problem

-- `response.ok`
abbrev pub is_ok : ℕ → Bool
is_ok status = leb 200 status && leb status 299

abbrev pub Fetched : Type 0 → Type 0
Fetched A = Outcome (Response A)

-- `await res.json()`
abbrev pub read_json : {A : Type 0} → Response A → Outcome A
read_json res = res.json

-- `a || b` on an optional text.
abbrev pub or_text : Option String → String → String
or_text none b = b
or_text (some a) b = if truthy a then a else b

-- `jsonOrThrow` of web/src/features/files/api.ts: the error has the most specific text there is.
abbrev pub problem_text : Option Problem → String → String
problem_text none status_text = status_text
problem_text (some p) status_text = or_text p.detail (or_text p.title status_text)

unfoldable pub json_or_throw : {A : Type 0} → Fetched A → Outcome A
json_or_throw fetched = do
  res ← fetched
  throw_if (not (is_ok res.status)) (plain (problem_text res.problem res.status_text))
  read_json res

-- `getJSON` of web/src/features/inspections/api.ts.
unfoldable pub get_json : {A : Type 0} → Fetched A → Outcome A
get_json fetched = do
  res ← fetched
  throw_if (not (is_ok res.status)) (plain (concat ("request failed: " ∷ show res.status ∷ [])))
  read_json res

-- `getJSON` and `postJSON` of web/src/features/catalogue/api.ts.
unfoldable pub catalogue_json : {A : Type 0} → (verb path : String) → Fetched A → Outcome A
catalogue_json verb path fetched = do
  res ← fetched
  throw_if (not (is_ok res.status)) (
      plain
        (concat (verb ∷ " " ∷ path ∷ " failed: " ∷ show res.status ∷ " " ∷ res.status_text ∷ [])))
  read_json res
