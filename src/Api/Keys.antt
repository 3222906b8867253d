-- ===== src/Api/Keys.antt =====
-- The cache keys of the client's queries, and which of them each mutation makes stale
-- (web/src/api/hooks.ts and the `api.ts` files of the features).
use mooring_line_management.Base.{
  String, Bool, true, false, ◌&&◌, Option, none, some, List, [], ◌∷◌, str_eq, any, truthy,
}

pub data Condition : Type 0 where
  good monitor action : Condition

pub data Placement : Type 0 where
  installed spare : Placement

-- `LineFilters`
pub record LineFilters : Type 0 where
  pub line_type_id : Option String
  pub condition : Option Condition
  pub placement : Option Placement
  pub q : Option String

-- An element of a key; `undefined` is `missing`.
pub data Part : Type 0 where
  text : String → Part
  missing : Part
  filters : LineFilters → Part

abbrev id_part : Option String → Part
id_part none = missing
id_part (some id) = text id

pub data Query : Type 0 where
  health vessels products line_types : Query
  layout : (vessel_id : Option String) → Query
  lines : (vessel_id : Option String) → LineFilters → Query
  line : (id : Option String) → Query
  photos documents : (line_id : String) → Query
  inspections : (line_id : Option String) → Query
  logbook overview : (vessel_id : Option String) → Query
  catalogue_makers catalogue_line_types catalogue_products : Query

unfoldable pub key : Query → List Part
key health = text "health" ∷ []
key vessels = text "vessels" ∷ []
key products = text "products" ∷ []
key line_types = text "line-types" ∷ []
key (layout v) = text "layout" ∷ id_part v ∷ []
key (lines v f) = text "lines" ∷ id_part v ∷ filters f ∷ []
key (line id) = text "line" ∷ id_part id ∷ []
key (photos id) = text "photos" ∷ text id ∷ []
key (documents id) = text "documents" ∷ text id ∷ []
key (inspections id) = text "inspections" ∷ id_part id ∷ []
key (logbook v) = text "logbook" ∷ id_part v ∷ []
key (overview v) = text "overview" ∷ id_part v ∷ []
key catalogue_makers = text "catalogue" ∷ text "makers" ∷ []
key catalogue_line_types = text "catalogue" ∷ text "line-types" ∷ []
key catalogue_products = text "catalogue" ∷ text "products" ∷ []

-- `enabled: !!id`
abbrev given : Option String → Bool
given none = false
given (some id) = truthy id

unfoldable pub is_enabled : Query → Bool
is_enabled (layout v) = given v
is_enabled (lines v f) = given v
is_enabled (line id) = given id
is_enabled (inspections id) = given id
is_enabled (logbook v) = given v
is_enabled (overview v) = given v
is_enabled _ = true

pub data Mutation : Type 0 where
  register_line : (vessel_id : String) → Mutation
  move_line : (vessel_id : Option String) → Mutation
  save_layout : (vessel_id : String) → Mutation
  turn_line log_inspection upload_photo delete_photo upload_certificate :
      (line_id : String) → Mutation
  create_maker create_line_type create_product : Mutation

-- The keys that `onSuccess` passes to `invalidateQueries`. `save_layout` also sets the layout's data.
unfoldable pub invalidated : Mutation → List (List Part)
invalidated (register_line v) = (text "lines" ∷ []) ∷ []
invalidated (move_line v) = (text "lines" ∷ []) ∷ (text "layout" ∷ id_part v ∷ []) ∷ []
invalidated (save_layout v) = (text "lines" ∷ []) ∷ []
invalidated (turn_line id) =
    (text "line" ∷ text id ∷ []) ∷ (text "lines" ∷ []) ∷ (text "layout" ∷ []) ∷ []
invalidated (log_inspection id) =
    (text "inspections" ∷ text id ∷ [])
    ∷ (text "line" ∷ text id ∷ [])
    ∷ (text "lines" ∷ [])
    ∷ (text "layout" ∷ [])
    ∷ []
invalidated (upload_photo id) = (text "photos" ∷ text id ∷ []) ∷ []
invalidated (delete_photo id) = (text "photos" ∷ text id ∷ []) ∷ []
invalidated (upload_certificate id) = (text "documents" ∷ text id ∷ []) ∷ []
invalidated create_maker = (text "catalogue" ∷ text "makers" ∷ []) ∷ []
invalidated create_line_type = (text "catalogue" ∷ text "line-types" ∷ []) ∷ []
invalidated create_product = (text "catalogue" ∷ text "products" ∷ []) ∷ []

-- React Query matches a key by its beginning. No mutation names filters.
abbrev part_eq : Part → Part → Bool
part_eq (text s) (text t) = str_eq s t
part_eq missing missing = true
part_eq _ _ = false

abbrev begins_with : List Part → List Part → Bool
begins_with [] k = true
begins_with (p ∷ ps) [] = false
begins_with (p ∷ ps) (q ∷ k) = part_eq p q && begins_with ps k

unfoldable pub is_stale_after : Mutation → Query → Bool
unfolding invalidated key
is_stale_after m q = any (λ prefix. begins_with prefix (key q)) (invalidated m)
