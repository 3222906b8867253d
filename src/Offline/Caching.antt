-- ===== src/Offline/Caching.antt =====
-- The service worker and the client's requests.
use Prim.Native.Char.{code}
use Prim.Native.String
use text.Mathlib.Text.{starts_with}
use text.Mathlib.TextBridge.{IsPrefix}
use text.Mathlib.TextPositions.{starts_with_of_prefix}
use text.Mathlib.TextLemmas.{append_assoc}
use mooring_line_management.Base.{
  ℕ, ◌==◌, ◌||◌, leb, any, str_eq, ◌≡◌, refl, sym, ap, subst, ◌∙◌, arith, String, Bool, true, false,
  not, ◌&&◌, List, [], ◌∷◌, concat, or_else, differ, lacks, starts_with_of_differ, prefix_trans,
}
use mooring_line_management.Auth.Provider.{before_query, login, login_target}
use mooring_line_management.Auth.Provider.Target.{before_query-append}
use mooring_line_management.Contract.Conforms.{end}
use mooring_line_management.Contract.Templates.{Piece, literal, name, filled, pieces}
use mooring_line_management.Contract.Shape.{Method, get}
use mooring_line_management.Contract.Requests.{
  TypedRequest, FileRequest, InspectionRequest, Report, CatalogueRequest, AccessRequest,
  SessionRequest, Request, typed_request, file_request, inspection_request, report_link,
  catalogue_request, access_request, session_request, turn_request, overview_request,
}
use mooring_line_management.Contract.HttpCalls.{
  Address, typed, raw, typed_call, file_call, inspection_call, report_call, catalogue_call,
  access_call, session_call, turn_call, overview_call, call, api_base, lines_query, lines_query,
}
use mooring_line_management.Offline.{is_get, is_cached}

-- The characters of a path that the browser leaves as they are.
abbrev is_word_code : ℕ → Bool
is_word_code n =
    (leb b'a' n && leb n b'z')
    || (leb b'A' n && leb n b'Z')
    || (leb b'0' n && leb n b'9')
    || n == b'-'
    || n == b'_'

abbrev pub is_word : String → Bool
is_word String.[] = true
is_word (String.◌∷◌ c s) = is_word_code (code c) && is_word s

-- Words with slashes between them.
abbrev pub is_plain : String → Bool
is_plain String.[] = true
is_plain (String.◌∷◌ c s) = (is_word_code (code c) || code c == b'/') && is_plain s

abbrev is_given : List (String × String) → Piece → Bool
is_given path (literal s) = true
is_given path (name s) = any (λ p. str_eq p.0 s) path

module _ {N : Type 0} where
  -- The path of a call's address: a template with its parameters, or what stands before the query.
  abbrev pub path_of : Address N → String
  path_of (typed template path query) = filled {N = N} api_base template path end
  path_of (raw url) = before_query url

  -- Addresses whose path has words only, as all are where the ids and the encoded names are words: a
  -- template's parameters are all given, and are single words.
  unfoldable pub is_plain_address : Address N → Bool
  is_plain_address (typed template path query) =
      starts_with (filled {N = N} api_base template path end) "/api/"
      && is_plain (filled {N = N} api_base template path end)
      && not (any (λ p. not (is_word p.1)) path)
      && not (any (λ p. not (is_given path p)) (pieces template))
  is_plain_address (raw url) = starts_with (before_query url) "/api/" && is_plain (before_query url)

  -- The path that the browser gives to the service worker, `URL.pathname`: it resolves dots and encodes
  -- characters, so that it is the address's own path only if there is nothing to resolve or to encode.
  pub record Pathname (pathname : Address N → String) : Type 0 where
    pub of_plain : (a : Address N) → is_plain_address a ≡ true → pathname a ≡ path_of a

cached_of_prefix :
    (start path : String)
    → IsPrefix start path
    → IsPrefix "/api/" start
    → differ start "/api/auth/" ≡ true
    → differ start "/api/access/" ≡ true
    → is_cached get path ≡ true
unfolding is_cached
cached_of_prefix start path h b p q =
    rw
      (
        starts_with_of_prefix "/api/" path (prefix_trans "/api/" start path b h),
        starts_with_of_differ start "/api/auth/" path h p,
        starts_with_of_differ start "/api/access/" path h q,
      )
      refl

not_cached_auth :
    (m : Method) (path : String) → IsPrefix "/api/auth/" path → is_cached m path ≡ false
unfolding is_cached
not_cached_auth m path h = rw (starts_with_of_prefix "/api/auth/" path h) (ground arith)

not_cached_access :
    (m : Method) (path : String) → IsPrefix "/api/access/" path → is_cached m path ≡ false
unfolding is_cached
not_cached_access m path h = rw (starts_with_of_prefix "/api/access/" path h) (ground arith)

and_true : (b : Bool) → (b && true) ≡ b
and_true true = refl
and_true false = refl

and_false : (b : Bool) → (b && false) ≡ false
and_false true = refl
and_false false = refl

-- The requests of the session and of the access control.
abbrev pub is_account : {N : Type 0} → Request N → Bool
is_account (access_request r) = true
is_account (session_request r) = true
is_account _ = false

before_query-IsPrefix :
    (start rest : String)
    → lacks b'?' start ≡ true
    → IsPrefix start (before_query (String.◌++◌ start rest))
before_query-IsPrefix start rest h = (before_query rest, sym (before_query-append start rest h))

cached_below :
    (start rest : String)
    → IsPrefix "/api/" (String.◌++◌ api_base start)
    → differ (String.◌++◌ api_base start) "/api/auth/" ≡ true
    → differ (String.◌++◌ api_base start) "/api/access/" ≡ true
    → is_cached get (String.◌++◌ api_base (String.◌++◌ start rest)) ≡ true
cached_below start rest b p q =
    cached_of_prefix (String.◌++◌ api_base start) _ (rest, append_assoc api_base start rest) b p q

module _ (N : Type 0) where
  raw-IsPrefix :
      (start middle rest : String)
      → lacks b'?' (String.◌++◌ api_base start) ≡ true
      → IsPrefix (String.◌++◌ api_base start) (
          path_of {N = N}
            (raw (String.◌++◌ api_base (String.◌++◌ (String.◌++◌ start middle) rest))))
  raw-IsPrefix start middle rest h =
      subst (λ u. IsPrefix (String.◌++◌ api_base start) (before_query u))
        (append_assoc api_base start (String.◌++◌ middle rest)
          ∙ ap (String.◌++◌ api_base) (sym (append_assoc start middle rest)))
        (before_query-IsPrefix (String.◌++◌ api_base start) (String.◌++◌ middle rest) h)

  -- A fetched address below a part of the API that is neither the session's nor the access control's.
  cached_raw :
      (start middle rest : String)
      → lacks b'?' (String.◌++◌ api_base start) ≡ true
      → IsPrefix "/api/" (String.◌++◌ api_base start)
      → differ (String.◌++◌ api_base start) "/api/auth/" ≡ true
      → differ (String.◌++◌ api_base start) "/api/access/" ≡ true
      → is_cached get (
          path_of {N = N}
            (raw (String.◌++◌ api_base (String.◌++◌ (String.◌++◌ start middle) rest))))
        ≡ true
  cached_raw start middle rest h b p q =
      cached_of_prefix (String.◌++◌ api_base start) _ (raw-IsPrefix start middle rest h) b p q

  typed_call-cached :
      (r : TypedRequest N)
      → is_cached (typed_call {N = N} r).method (path_of {N = N} (typed_call r).address)
        ≡ is_get (typed_call {N = N} r).method
  unfolding typed_call is_cached lines_query filled pieces
  typed_call-cached TypedRequest.get_health = refl
  typed_call-cached TypedRequest.list_vessels = refl
  typed_call-cached TypedRequest.list_products = refl
  typed_call-cached TypedRequest.list_line_types = refl
  typed_call-cached (TypedRequest.get_layout v) =
      cached_below "/vessels/" (concat (v ∷ "/layout" ∷ [])) ("vessels/", refl) refl refl
  typed_call-cached (TypedRequest.list_lines v f) =
      cached_below "/vessels/" (concat (v ∷ "/lines" ∷ [])) ("vessels/", refl) refl refl
  typed_call-cached (TypedRequest.get_line id) =
      cached_below "/lines/" (concat (id ∷ [])) ("lines/", refl) refl refl
  typed_call-cached (TypedRequest.register_line v b) = refl
  typed_call-cached (TypedRequest.move_line id b) = refl
  typed_call-cached (TypedRequest.save_layout v b) = refl

  file_call-cached :
      (r : FileRequest)
      → is_cached (file_call {N = N} r).method (path_of {N = N} (file_call r).address)
        ≡ is_get (file_call {N = N} r).method
  unfolding file_call is_cached
  file_call-cached (FileRequest.list_photos id) =
      cached_raw "/lines/" "" _ refl ("lines/", refl) refl refl
  file_call-cached (FileRequest.list_documents id) =
      cached_raw "/lines/" "" _ refl ("lines/", refl) refl refl
  file_call-cached (FileRequest.upload_photo id b) = refl
  file_call-cached (FileRequest.delete_photo id) = refl
  file_call-cached (FileRequest.upload_certificate id b) = refl

  inspection_call-cached :
      (r : InspectionRequest)
      → is_cached (inspection_call {N = N} r).method (path_of {N = N} (inspection_call r).address)
        ≡ is_get (inspection_call {N = N} r).method
  unfolding inspection_call is_cached
  inspection_call-cached (InspectionRequest.list_inspections id) =
      cached_raw "/lines/" "" _ refl ("lines/", refl) refl refl
  inspection_call-cached (InspectionRequest.log_inspection id b) = refl
  inspection_call-cached (InspectionRequest.get_logbook v) =
      cached_raw "/inspections/logbook" "?vessel_id=" _ refl ("inspections/logbook", refl) refl refl

  catalogue_call-cached :
      (r : CatalogueRequest N)
      → is_cached (catalogue_call {N = N} r).method (path_of {N = N} (catalogue_call r).address)
        ≡ is_get (catalogue_call {N = N} r).method
  unfolding catalogue_call is_cached
  catalogue_call-cached CatalogueRequest.list_makers =
      cached_raw "/makers" "" "" refl ("makers", refl) refl refl
  catalogue_call-cached CatalogueRequest.list_types =
      cached_raw "/line-types" "" "" refl ("line-types", refl) refl refl
  catalogue_call-cached CatalogueRequest.list_catalogue =
      cached_raw "/products" "" "" refl ("products", refl) refl refl
  catalogue_call-cached (CatalogueRequest.create_maker b) = refl
  catalogue_call-cached (CatalogueRequest.create_line_type b) = refl
  catalogue_call-cached (CatalogueRequest.create_product b) = refl

  access_call-cached :
      (encode : String → String) (r : AccessRequest)
      → is_cached
          (access_call {N = N} encode r).method
          (path_of {N = N} (access_call encode r).address)
        ≡ false
  unfolding access_call
  access_call-cached encode AccessRequest.list_groups =
      not_cached_access _ _ (raw-IsPrefix "/access/" "groups" "" refl)
  access_call-cached encode (AccessRequest.put_grant g level) =
      not_cached_access _ _ (raw-IsPrefix "/access/" "grants/" _ refl)
  access_call-cached encode (AccessRequest.delete_grant g) =
      not_cached_access _ _ (raw-IsPrefix "/access/" "grants/" _ refl)

  session_call-cached :
      (encode : String → String) (r : SessionRequest)
      → is_cached
          (session_call {N = N} encode r).method
          (path_of {N = N} (session_call encode r).address)
        ≡ false
  unfolding session_call login
  session_call-cached encode SessionRequest.get_session =
      not_cached_auth _ _ (raw-IsPrefix "/auth/" "session" "" refl)
  session_call-cached encode SessionRequest.logout =
      not_cached_auth _ _ (raw-IsPrefix "/auth/" "logout" "" refl)
  session_call-cached encode (SessionRequest.log_in here return_to) = not_cached_auth _ _ (
      subst (λ u. IsPrefix "/api/auth/" (before_query u))
        (sym (append_assoc "/api/auth/" "login?return_to=" target))
        (before_query-IsPrefix "/api/auth/" (String.◌++◌ "login?return_to=" target) refl))
    where
      target : String
      target = concat (encode (login_target (or_else return_to here)) ∷ [])

  overview_call-cached :
      (v : String) → is_cached get (path_of {N = N} (overview_call {N = N} v).address) ≡ true
  unfolding overview_call
  overview_call-cached v = cached_raw "/vessels/" "" _ refl ("vessels/", refl) refl refl

  report_call-cached :
      (v : String) (r : Report)
      → is_cached get (path_of {N = N} (report_call {N = N} v r).address) ≡ true
  unfolding report_call
  report_call-cached v r =
      cached_raw "/reports/condition" "?vessel_id=" _ refl ("reports/condition", refl) refl refl

  path_call-cached :
      (encode : String → String) (r : Request N)
      → is_cached (call encode r).method (path_of (call encode r).address)
        ≡ is_get (call encode r).method && not (is_account r)
  unfolding call turn_call is_cached report_call overview_call
  path_call-cached encode (typed_request r) = typed_call-cached r ∙ sym (and_true _)
  path_call-cached encode (file_request r) = file_call-cached r ∙ sym (and_true _)
  path_call-cached encode (inspection_request r) = inspection_call-cached r ∙ sym (and_true _)
  path_call-cached encode (report_link v r) = report_call-cached v r
  path_call-cached encode (catalogue_request r) = catalogue_call-cached r ∙ sym (and_true _)
  path_call-cached encode (access_request r) = access_call-cached encode r ∙ sym (and_false _)
  path_call-cached encode (session_request r) = session_call-cached encode r ∙ sym (and_false _)
  path_call-cached encode (turn_request id remark) = refl
  path_call-cached encode (overview_request v) = overview_call-cached v

  -- The service worker answers from its cache exactly the GET requests of the client that belong
  -- neither to the session nor to the access control, for each request whose path has only words of
  -- letters, digits, dashes and low lines, and a browser that leaves such a path as it is.
  pub call-cached :
      (pathname : Address N → String)
      → Pathname pathname
      → (encode : String → String) (r : Request N) → is_plain_address (call encode r).address ≡ true
      → is_cached (call encode r).method (pathname (call encode r).address)
        ≡ is_get (call encode r).method && not (is_account r)
  call-cached pathname browser encode r h =
      ap (is_cached (call encode r).method) (browser.of_plain (call encode r).address h)
      ∙ path_call-cached encode r
