-- ===== src/Queries.antt =====
-- The shape that the gRPC queries of the modules share: x/*/keeper/query_server.go. A request that is nil
-- is `none`, and what a query answers beside an error is left out.
use sommelier.Base.{Option}
use sommelier.Base.Exec.{Exec, ◌>>=◌, ◌>>◌, gets, or_raise, wrapped}

-- The codes of gRPC that the answers use.
pub data Code : Type 0 where
  invalid_argument not_found internal : Code

abbrev pub Query : Type 0 → Type 0 → Type 0
Query Store A = Exec Store Code A

module _ {Store : Type 0} where
  -- What a query answers where there is a request.
  abbrev pub answer : {A : Type 0} → Option (Unit {0}) → (Store → A) → Query Store A
  answer request f = or_raise request (wrapped Code.invalid_argument) >> gets f

  -- What a query about something that may be missing answers.
  unfoldable pub lookup : {A : Type 0} → (Store → Option A) → Query Store A
  lookup f = gets f >>= λ found. or_raise found (wrapped Code.not_found)

  -- What a query answers with a page of a list; `paginate` is `query.FilteredPaginate`.
  unfoldable pub page_of : {A B : Type 0} → (A → Option B) → (Store → A) → Query Store B
  page_of paginate f = gets f >>= λ all. or_raise (paginate all) (wrapped Code.internal)
