-- ===== src/Base/Lists.antt =====
-- The array methods that the client calls: filter, find, some, sort, and a write to the found item.
use Prim.Native.Nat.{ℕ, zero, suc, ◌+◌}
use mathlib.Core.Path.{◌≡◌, refl, sym, ◌∙◌, subst}
use mathlib.Core.Logic.{◌≢◌, ◌↔◌, inl, inr}
use mathlib.Core.Bool.{Bool, true, false, ◌||◌}
use mathlib.Core.Option.{Option, none, some}
use mathlib.Core.List.{List, [], ◌∷◌, ◌++◌, map, Memᴰ}
use mathlib.Core.List.Memᴰ.{cases_cons}
use native.Mathlib.Omega.{arith}
use mooring_line_management.Base.Tests.{if◌then◌else◌, if_true, if_false, Bool-cases}

some_injective {ℓ} : {A : Type ℓ} {x y : A} → some x ≡ some y → x ≡ y
some_injective e = cc

module _ {ℓ} {A : Type ℓ} where
  abbrev pub length : List A → ℕ
  length [] = 0
  length (x ∷ xs) = suc (length xs)

  pub length-append : (xs ys : List A) → length (xs ++ ys) ≡ length xs + length ys
  length-append [] ys = omega arith
  length-append (x ∷ xs) ys = omega (arith, length-append xs ys)

  -- `xs.filter(p)`
  abbrev pub filter : (A → Bool) → List A → List A
  filter p [] = []
  filter p (x ∷ xs) = if p x then x ∷ filter p xs else filter p xs

  -- `xs.find(p)`
  abbrev pub find : (A → Bool) → List A → Option A
  find p [] = none
  find p (x ∷ xs) = if p x then some x else find p xs

  -- `xs.some(p)`
  abbrev pub any : (A → Bool) → List A → Bool
  any p [] = false
  any p (x ∷ xs) = p x || any p xs

  -- `const x = xs.find(p); if (x) { … }`, where the block writes to `x` in place.
  abbrev pub update_first : (A → Bool) → (A → A) → List A → List A
  update_first p f [] = []
  update_first p f (x ∷ xs) = if p x then f x ∷ xs else x ∷ update_first p f xs

  abbrev pub All {κ} : (A → Type κ) → List A → Type κ
  All P [] = Unit
  All P (x ∷ xs) = P x × All P xs

  pub All-append {κ} : (P : A → Type κ) (xs ys : List A) → All P xs → All P ys → All P (xs ++ ys)
  All-append P [] ys h k = k
  All-append P (x ∷ xs) ys h k = (h.0, All-append P xs ys h.1 k)

  pub All-imp {κ μ} :
      (P : A → Type κ) (Q : A → Type μ) (xs : List A) → ((x : A) → P x → Q x) → All P xs → All Q xs
  All-imp P Q [] f h = tt
  All-imp P Q (x ∷ xs) f h = (f x h.0, All-imp P Q xs f h.1)

  pub All-and {κ μ} :
      (P : A → Type κ) (Q : A → Type μ) (xs : List A)
      → All P xs
      → All Q xs
      → All (λ x. P x × Q x) xs
  All-and P Q [] h k = tt
  All-and P Q (x ∷ xs) h k = ((h.0, k.0), All-and P Q xs h.1 k.1)

  pub All-filter {κ} :
      (P : A → Type κ) (p : A → Bool) (xs : List A) → All P xs → All P (filter p xs)
  All-filter P p [] h = tt
  All-filter P p (x ∷ xs) h =
      elim (p x) as (λ b. All P (if b then x ∷ filter p xs else filter p xs)) [
        | true ↦ (h.0, All-filter P p xs h.1)
        | false ↦ All-filter P p xs h.1
      ]

  pub All-update_first {κ} :
      (P : A → Type κ) (p : A → Bool) (f : A → A) (xs : List A)
      → ((x : A) → P x → P (f x))
      → All P xs
      → All P (update_first p f xs)
  All-update_first P p f [] k h = tt
  All-update_first P p f (x ∷ xs) k h =
      elim (p x) as (λ b. All P (if b then f x ∷ xs else x ∷ update_first p f xs)) [
        | true ↦ (k x h.0, h.1)
        | false ↦ (h.0, All-update_first P p f xs k h.1)
      ]

  pub All-find {κ} :
      (P : A → Type κ) (p : A → Bool) (xs : List A) {x : A} → find p xs ≡ some x → All P xs → P x
  All-find P p [] e h = cc
  All-find P p (x ∷ xs) e h = elim (Bool-cases (p x)) [
    | inl q ↦ subst P (some_injective (sym (if_true _ _ q) ∙ e)) h.0
    | inr q ↦ All-find P p xs (sym (if_false _ _ q) ∙ e) h.1
  ]

  mem_of_mem-filter :
      (p : A → Bool) (a : A) (xs : List A) → Memᴰ a (filter p xs) → Memᴰ a xs × (p a ≡ true)
  mem_of_mem-filter p a [] m = elim m [ ]
  mem_of_mem-filter p a (x ∷ xs) m = elim (Bool-cases (p x)) [
    | inl e ↦ elim (cases_cons (rw e at m)) [
      | inl h ↦ (Memᴰ.head h, rw h e)
      | inr t ↦ let (t', q) = mem_of_mem-filter p a xs t in (Memᴰ.tail t', q)
    ]
    | inr e ↦ let (t', q) = mem_of_mem-filter p a xs (rw e at m) in (Memᴰ.tail t', q)
  ]

  mem-filter_of_mem :
      (p : A → Bool) (a : A) (xs : List A) → Memᴰ a xs → p a ≡ true → Memᴰ a (filter p xs)
  mem-filter_of_mem p a [] m e = elim m [ ]
  mem-filter_of_mem p a (x ∷ xs) (Memᴰ.head h) e = rw (← h, e) (Memᴰ.head refl)
  mem-filter_of_mem p a (x ∷ xs) (Memᴰ.tail t) e = elim (Bool-cases (p x)) [
    | inl q ↦ rw q (Memᴰ.tail (mem-filter_of_mem p a xs t e))
    | inr q ↦ rw q (mem-filter_of_mem p a xs t e)
  ]

  pub mem-filter_iff :
      (p : A → Bool) (a : A) (xs : List A) → Memᴰ a (filter p xs) ↔ (Memᴰ a xs × (p a ≡ true))
  mem-filter_iff p a xs = (mem_of_mem-filter p a xs, λ h. mem-filter_of_mem p a xs h.0 h.1)

pub All-map {ℓ κ μ} :
    {A : Type ℓ} {B : Type κ} (P : B → Type μ) (f : A → B) (xs : List A)
    → All (λ a. P (f a)) xs
    → All P (map f xs)
All-map P f [] h = tt
All-map P f (x ∷ xs) h = (h.0, All-map P f xs h.1)

module _ {ℓ} {A : Type ℓ} where
  abbrev pub get_elem? : List A → ℕ → Option A
  get_elem? [] i = none
  get_elem? (x ∷ xs) zero = some x
  get_elem? (x ∷ xs) (suc i) = get_elem? xs i

  -- What holds of each member, and where there is none, holds of the item at any place.
  pub get_elem?-elim {κ} :
      (P : Option A → Type κ) (xs : List A) (i : ℕ)
      → ((a : A) → Memᴰ a xs → P (some a))
      → P none
      → P (get_elem? xs i)
  get_elem?-elim P [] i h k = k
  get_elem?-elim P (x ∷ xs) zero h k = h x (Memᴰ.head refl)
  get_elem?-elim P (x ∷ xs) (suc i) h k = get_elem?-elim P xs i (λ a m. h a (Memᴰ.tail m)) k

  -- The item that `find` gives is a member, and where it gives none, no member passes the test.
  pub find-elim {κ} :
      (P : Option A → Type κ) (p : A → Bool) (xs : List A)
      → ((a : A) → Memᴰ a xs → P (some a))
      → (find p xs ≡ none → P none)
      → P (find p xs)
  find-elim P p [] h k = k refl
  find-elim P p (x ∷ xs) h k = elim (Bool-cases (p x)) [
    | inl q ↦ subst P (sym (if_true _ _ q)) (h x (Memᴰ.head refl))
    | inr q ↦
        subst P (sym (if_false _ _ q))
          (find-elim P p xs (λ a m. h a (Memᴰ.tail m)) (λ e. k (if_false _ _ q ∙ e)))
  ]

  pub none_found : (p : A → Bool) (xs : List A) → find p xs ≡ none → All (λ x. p x ≡ false) xs
  none_found p [] e = tt
  none_found p (x ∷ xs) e = elim (Bool-cases (p x)) [
    | inl t ↦ absurd (some-ne-none (sym (if_true _ _ t) ∙ e))
    | inr f ↦ (f, none_found p xs (sym (if_false _ _ f) ∙ e))
  ]
    where
      some-ne-none : some x ≢ none
      some-ne-none d = cc

module _ {ℓ κ} {A : Type ℓ} (P : A → Type κ) where
  abbrev pub OnSome : Option A → Type κ
  OnSome none = Unit
  OnSome (some a) = P a

  pub All-get_elem? : (xs : List A) (i : ℕ) → All P xs → OnSome (get_elem? xs i)
  All-get_elem? [] i h = tt
  All-get_elem? (x ∷ xs) zero h = h.0
  All-get_elem? (x ∷ xs) (suc i) h = All-get_elem? xs i h.1

  pub All-mem : (a : A) (xs : List A) → All P xs → Memᴰ a xs → P a
  All-mem a [] h m = elim m [ ]
  All-mem a (x ∷ xs) h m = elim (cases_cons m) [
    | inl e ↦ subst P (sym e) h.0
    | inr t ↦ All-mem a xs h.1 t
  ]

  pub every_of_mem : (xs : List A) → ((a : A) → Memᴰ a xs → P a) → All P xs
  every_of_mem [] h = tt
  every_of_mem (x ∷ xs) h = (h x (Memᴰ.head refl), every_of_mem xs (λ a m. h a (Memᴰ.tail m)))

module _ {A B : Type 0} (R : A → B → Type 0) where
  -- As many items of both lists, related place by place.
  abbrev pub Aligned : List A → List B → Type 0
  Aligned [] [] = Unit
  Aligned (x ∷ xs) (y ∷ ys) = R x y × Aligned xs ys
  Aligned [] (y ∷ ys) = ⊥
  Aligned (x ∷ xs) [] = ⊥

  pub map-Aligned : (f : A → B) (xs : List A) → All (λ x. R x (f x)) xs → Aligned xs (map f xs)
  map-Aligned f [] h = tt
  map-Aligned f (x ∷ xs) h = (h.0, map-Aligned f xs h.1)
