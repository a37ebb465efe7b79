-- ===== src/Stream/Bound.antt =====
-- src/compat.rs: `Query`, whose parameters are bound one by one, and the parts of a stream's items.
use mssql_tiberius_bridge.Prelude.{
  ℕ, ◌≡◌, Text, Option, none, some, List, [], ◌∷◌, ◌++◌, map, arith,
}
use mssql_tiberius_bridge.Driver.{Tds}
use mssql_tiberius_bridge.Error.{Result, ok, err}
use mssql_tiberius_bridge.Column.{Column}
use mssql_tiberius_bridge.Query.Results.{ExecuteResult}
use mssql_tiberius_bridge.Row.Cells.{Row}
use mssql_tiberius_bridge.Task.{Task, Outcome, completed, dropped, return, ◌>>=◌}
use mssql_tiberius_bridge.Connection.{Connection}
use mssql_tiberius_bridge.Conversion.{ColumnData, to_sql}
use mssql_tiberius_bridge.Client.{Client}
use mssql_tiberius_bridge.Client
use mssql_tiberius_bridge.Stream.{
  ResultMetadata, QueryItem, QueryStream, query_compat, columns, poll_next,
}
use mssql_tiberius_bridge.Stream.Peek.{poll_next-columns}

module _ {t : Tds} where
  -- `QueryItem::as_metadata` and `QueryItem::into_metadata`.
  unfoldable as_metadata : QueryItem t → Option ResultMetadata
  as_metadata (QueryItem.metadata m) = some m
  as_metadata (QueryItem.row r) = none

  -- `QueryItem::as_row` and `QueryItem::into_row`.
  unfoldable as_row : QueryItem t → Option (Row t)
  as_row (QueryItem.row r) = some r
  as_row (QueryItem.metadata m) = none

pub record Query (t : Tds) : Type 0 where
  pub sql : Text
  pub params : List (ColumnData t)

module _ {t : Tds} where
  -- `Query::new`.
  unfoldable pub new : Text → Query t
  new sql = record { sql = sql; params = [] }

  -- `Query::bind`, of a value that `into_sql` has converted.
  unfoldable pub bind : Query t → ColumnData t → Query t
  bind q param = record q { params = q.params ++ param ∷ [] }

module _ {t : Tds} (k : Connection t) (alloc : ℕ → ℕ) where
  -- `Query::query`: the stream has looked at its first item.
  unfoldable pub query : Query t → Client k.Conn → Task k.Conn (QueryStream t)
  unfolding query_compat columns
  query q c = columns k alloc (query_compat k c q.sql (map to_sql q.params)) >>= λ (asked, stream).
      elim asked [ ok cols ↦ return (ok stream) | err e ↦ return (err e) ]

module _ {t : Tds} (k : Connection t) where
  -- `Query::execute`.
  unfoldable pub execute : Query t → Task (Client k.Conn) ExecuteResult
  execute q = Client.execute k q.sql (map to_sql q.params)

module _ {t : Tds} (k : Connection t) (alloc : ℕ → ℕ) where
  -- What `query` makes of the answer of `columns`.
  opened_cases :
      (o : Outcome (Result (Option (List Column)) × QueryStream t)) (s s' : k.Conn) (n n' : ℕ)
      (stream : QueryStream t)
      → ((λ (z : k.Conn) (m : ℕ). (o, s, n)) >>= λ (asked, stream). elim asked [
        | ok cols ↦ return (ok stream)
        | err e ↦ return (err e)
      ])
          s n
        ≡ (completed (ok stream), s', n')
      → (cols : Option (List Column)) × (o ≡ completed (ok (ok cols, stream))) × (s ≡ s') × (n ≡ n')
  opened_cases (completed (ok (ok cols, st))) s s' n n' stream h =
      (cols, ground arith, ground arith, ground arith)
  opened_cases (completed (ok (err e, st))) s s' n n' stream h = ground arith
  opened_cases (completed (err e)) s s' n n' stream h = ground arith
  opened_cases dropped s s' n n' stream h = ground arith

  pub poll_next-query :
      (q : Query t) (c : Client k.Conn) (stream : QueryStream t) (s' : k.Conn) (n n' : ℕ)
      → query k alloc q c c.inner n ≡ (completed (ok stream), s', n')
      → poll_next k alloc stream s' n'
        ≡ poll_next k alloc (query_compat k c q.sql (map to_sql q.params)) c.inner n
  unfolding query
  poll_next-query q c stream s' n n' h =
      let asking = query_compat k c q.sql (map to_sql q.params) in
      let run = columns k alloc asking c.inner n in
      let (cols, o, e, i) = opened_cases run.0 run.1 s' run.2 n' stream h in
      poll_next-columns k alloc asking stream c.inner s' n n' cols (λ j. (o j, e j, i j))
