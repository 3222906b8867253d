-- ===== src/Permissions.antt =====
-- web/src/features/permissions/PermissionsPage.tsx: the access levels of the identity provider's groups,
-- their requests, the optimistic update of the cached list, and what the page shows.
pub mod Optimistic
pub mod Groups
pub mod Views
use mooring_line_management.Base.{
  ℕ, String, Bool, true, false, not, ◌&&◌, Option, none, some, List, [], ◌∷◌, ◌++◌, ◌==◌, map,
  filter, find, any, length, str_eq, concat, show, truthy, or_else, is_some, if◌then◌else◌,
}
use mooring_line_management.Api.Http.{
  Error, plain, forbidden, Outcome, resolved, rejected, ◌>>=◌, ◌>>◌, throw_if, Response, Fetched,
  is_ok, read_json,
}
use mooring_line_management.Api.Query.{QueryState, QueryClient}
use mooring_line_management.Auth.Context.{AccessLevel, denied, view, edit}

pub record GroupGrant : Type 0 where
  pub group_id : String
  pub name : String
  pub level : AccessLevel

-- `data.groups ?? []`: the body's member may be missing.
unfoldable pub fetch_groups : Fetched (Option (List GroupGrant)) → Outcome (List GroupGrant)
fetch_groups fetched = do
  res ← fetched
  throw_if (res.status == 403) forbidden
  throw_if (not (is_ok res.status))
      (plain (concat ("Failed to load groups (" ∷ show res.status ∷ ")" ∷ [])))
  groups ← read_json res
  resolved (or_else groups [])

-- A request to `/access/grants/<group>`; the group's id is encoded by `encodeURIComponent`.
pub data Request : Type 0 where
  put : (group_id : String) → (level : AccessLevel) → Request
  delete : (group_id : String) → Request

put_grant : Fetched (Unit {0}) → Outcome (Unit {0})
put_grant fetched = do
  res ← fetched
  throw_if (not (is_ok res.status)) (plain (concat ("Save failed (" ∷ show res.status ∷ ")" ∷ [])))

delete_grant : Fetched (Unit {0}) → Outcome (Unit {0})
delete_grant fetched = do
  res ← fetched
  throw_if (not (is_ok res.status) && not (res.status == 204))
      (plain (concat ("Reset failed (" ∷ show res.status ∷ ")" ∷ [])))

-- The mutation's function, over the server's answer to each request.
unfoldable pub save_level :
    (Request → Fetched (Unit {0})) → String → AccessLevel → Outcome (Unit {0})
unfolding put_grant delete_grant
save_level server id denied = delete_grant (server (delete id))
save_level server id view = put_grant (server (put id view))
save_level server id edit = put_grant (server (put id edit))

-- `g.groupId === group.groupId ? { ...g, level: next.level } : g`
abbrev pub with_level : String → AccessLevel → GroupGrant → GroupGrant
with_level id level g = if str_eq g.group_id id then record g { level = level } else g

unfoldable pub set_level : String → AccessLevel → List GroupGrant → List GroupGrant
set_level id level gs = map (with_level id level) gs

-- A mutation that has not settled, with the context that `onMutate` returned.
pub record Pending : Type 0 where
  pub id : String
  pub prev : Option (List GroupGrant)

-- The cache, and the rows' mutations in flight.
pub record Access (Q : Type 0) : Type 0 where
  pub cache : Q
  pub pending : List Pending

-- A choice in a row's select; the end of its request; and a list of groups from a refetch.
pub data Event : Type 0 where
  changed : (id : String) → AccessLevel → Event
  succeeded failed : (id : String) → Event
  fetched : List GroupGrant → Event

abbrev pub is_of : String → Pending → Bool
is_of id p = str_eq p.id id

module _ {Q : Type 0} ⦃qc : QueryClient Q (List GroupGrant)⦄ where
  -- `onMutate`: the new cache, and the context `prev`.
  unfoldable pub on_mutate : String → AccessLevel → Q → Q × Option (List GroupGrant)
  on_mutate id level q =
      let q' = qc.cancel_queries q in
      (qc.set_query_data (λ gs. set_level id level (or_else gs [])) q', qc.get_query_data q')

  -- `onError`: a list is truthy, also an empty one.
  unfoldable pub on_error : Option (List GroupGrant) → Q → Q
  on_error none q = q
  on_error (some gs) q = qc.set_query_data (λ _. gs) q

  unfoldable pub on_settled : Q → Q
  on_settled q = qc.invalidate_queries q

  -- What the rows hold for `id` after its mutation has settled.
  abbrev settled : String → Access Q → List Pending
  settled id s = filter (λ p. not (is_of id p)) s.pending

  fail : Option Pending → Q → Q
  unfolding on_error
  fail none q = q
  fail (some p) q = on_error p.prev q

  -- A row's select is disabled while its mutation is pending.
  unfoldable pub step : Event → Access Q → Access Q
  unfolding on_mutate on_settled fail
  step (changed id level) s = if any (is_of id) s.pending then s else record {
    cache = (on_mutate id level s.cache).0;
    pending = s.pending ++ record { id = id; prev = (on_mutate id level s.cache).1 } ∷ [];
  }
  step (succeeded id) s = record { cache = on_settled s.cache; pending = settled id s }
  step (failed id) s = record {
    cache = on_settled (fail (find (is_of id) s.pending) s.cache);
    pending = settled id s;
  }
  step (fetched gs) s = record s { cache = qc.set_query_data (λ _. gs) s.cache }

  unfoldable pub run : List Event → Access Q → Access Q
  run [] s = s
  run (e ∷ es) s = run es (step e s)

-- What the page shows: the refusals, or the table with at most one note below its rows.
pub data Note : Type 0 where
  loading_groups : Note
  load_failed : (message : String) → Note
  no_groups : Note

pub data View : Type 0 where
  not_admin not_allowed : View
  table : List GroupGrant → List Note → View

-- `error instanceof Error ? error.message : "Failed to load"`
abbrev pub message_of : Error → String
message_of (plain message) = message
message_of forbidden = "forbidden"
message_of _ = "Failed to load"

-- The rows, and each note under its own condition.
table_view : QueryState (List GroupGrant) → View
table_view q =
    let groups = or_else q.result [] in
    table groups (
      (if q.is_loading then loading_groups ∷ [] else []) ++ elim q.error [
        | none ↦ if not q.is_loading && (length groups == 0) then no_groups ∷ [] else []
        | some e ↦
            if not q.is_loading && truthy (message_of e)
            then load_failed (message_of e) ∷ []
            else if not q.is_loading && (length groups == 0)
            then no_groups ∷ []
            else []
      ])

unfoldable pub access_view : QueryState (List GroupGrant) → View
unfolding table_view
access_view q = elim q.error [ some forbidden ↦ not_allowed | _ ↦ table_view q ]

unfoldable pub permissions_page : (is_admin : Bool) → QueryState (List GroupGrant) → View
unfolding access_view
permissions_page is_admin q = if is_admin then access_view q else not_admin
