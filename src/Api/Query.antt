-- ===== src/Api/Query.antt =====
-- React Query (@tanstack/react-query) as the client uses it: what a query's hook returns, and the query
-- client at one key, an interface with the behaviour that its documentation states.
use mooring_line_management.Base.{◌≡◌, Bool, Option, some}
use mooring_line_management.Api.Http.{Error}

-- `data`, `isLoading` and `error` of `useQuery`.
pub record QueryState (A : Type 0) : Type 0 where
  pub result : Option A
  pub is_loading : Bool
  pub error : Option Error

-- The entry of the cache `Q` under one key, whose value is an `A`. An updater gets the old value; a
-- cancelled fetch and an invalidation leave the value that is there (a refetch replaces it later).
pub record QueryClient (Q A : Type 0) : Type 0 where
  pub get_query_data : Q → Option A
  pub set_query_data : (Option A → A) → Q → Q
  pub cancel_queries : Q → Q
  pub invalidate_queries : Q → Q
  pub get-set :
      (f : Option A → A) (q : Q) → get_query_data (set_query_data f q) ≡ some (f (get_query_data q))
  pub get-cancel : (q : Q) → get_query_data (cancel_queries q) ≡ get_query_data q
  pub get-invalidate : (q : Q) → get_query_data (invalidate_queries q) ≡ get_query_data q
