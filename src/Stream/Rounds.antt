-- ===== src/Stream/Rounds.antt =====
-- compat.rs `into_results`: one round of its loop, and the operation guard on a usable connection.
use mssql_tiberius_bridge.Prelude.{
  ℕ, suc, ◌≡◌, ◌⊎◌, refl, ap, Text, Bool, true, false, Option, none, some, List, [], ◌∷◌, ◌++◌,
  arith, inl, inr,
}
use mssql_tiberius_bridge.Driver.{Tds}
use mssql_tiberius_bridge.Error.{TdsError, Result, ok, err}
use mssql_tiberius_bridge.Row.Schema.{RowSchema}
use mssql_tiberius_bridge.Row.Cells.{Row}
use mssql_tiberius_bridge.Row.Writer.{Write}
use mssql_tiberius_bridge.Task.{
  Task, TdsResult, tds_ok, tds_err, Outcome, completed, dropped, return, ◌>>=◌,
}
use mssql_tiberius_bridge.Connection.{Connection, StatementResult}
use mssql_tiberius_bridge.Query.Params.{RpcParameter}
use mssql_tiberius_bridge.Operation
use mssql_tiberius_bridge.Operation.{closed, guarded, settle}
use mssql_tiberius_bridge.Client.{health}
use mssql_tiberius_bridge.Stream.{
  QueryItem, Position, QueryStream, poll_inner, poll_next, columns_after, push_row, collect_items,
}

-- A driver call that succeeds on a usable connection leaves it usable.
pub record UsableLaws {t : Tds} (k : Connection t) : Type 0 where
  pub closing :
      (s : k.Conn) (s' : k.Conn)
      → k.is_connection_dead s ≡ false
      → k.close_query s ≡ (tds_ok tt, s')
      → k.is_connection_dead s' ≡ false
  pub executing :
      (sql : Text) (s : k.Conn) (r : StatementResult) (s' : k.Conn)
      → k.is_connection_dead s ≡ false
      → k.execute sql s ≡ (tds_ok r, s')
      → k.is_connection_dead s' ≡ false
  pub executing_rpc :
      (sql : Text) (ps : List (RpcParameter t)) (s : k.Conn) (r : StatementResult) (s' : k.Conn)
      → k.is_connection_dead s ≡ false
      → k.execute_sp_executesql sql ps s ≡ (tds_ok r, s')
      → k.is_connection_dead s' ≡ false
  pub advancing :
      (s : k.Conn) (more : Bool) (s' : k.Conn)
      → k.is_connection_dead s ≡ false
      → k.advance_to_rows s ≡ (tds_ok more, s')
      → k.is_connection_dead s' ≡ false
  pub reading :
      (s : k.Conn) (next : Option (List (Write t))) (s' : k.Conn)
      → k.is_connection_dead s ≡ false
      → k.next_row_into s ≡ (tds_ok next, s')
      → k.is_connection_dead s' ≡ false

pub tds_cases :
    (r : TdsResult Bool)
    → ((e : TdsError) × (r ≡ tds_err e)) ⊎ (r ≡ tds_ok false) ⊎ (r ≡ tds_ok true)
tds_cases (tds_err e) = inl (e, refl)
tds_cases (tds_ok false) = inr (inl refl)
tds_cases (tds_ok true) = inr (inr refl)

pub push_row-last :
    {t : Tds} (sets : List (List (Row t))) (rows : List (Row t)) (r : Row t)
    → push_row (sets ++ rows ∷ []) r ≡ sets ++ (rows ++ r ∷ []) ∷ []
unfolding push_row
push_row-last [] rows r = refl
push_row-last (set ∷ []) rows r = refl
push_row-last (set ∷ next ∷ sets) rows r = ap (λ l. set ∷ l) (push_row-last (next ∷ sets) rows r)

module _ {t : Tds} (k : Connection t) {A : Type 0} where
  -- What the guard makes of the end of a run on a usable connection.
  abbrev pub retired : Outcome A × k.Conn × ℕ → Outcome A × k.Conn × ℕ
  retired (completed r, s, n) = (completed r, s, n)
  retired (dropped, s, n) = (dropped, k.mark_connection_dead s, n)

  pub guarded-retired :
      (body : Task k.Conn A) (s : k.Conn) (n : ℕ)
      → k.is_connection_dead s ≡ false
      → guarded (health k) body s n ≡ retired (body s n)
  unfolding guarded settle Operation.new Operation.ensure_usable Operation.complete Operation.drop
  guarded-retired body s n alive = ground arith

-- A stream that has not looked ahead.
abbrev pub suspended : {t : Tds} → Position t → Option RowSchema → QueryStream t
suspended p columns = record { inner = p; peeked = none; columns = columns }

module _ {t : Tds} (k : Connection t) (alloc : ℕ → ℕ) where
  -- The loop of `into_results` after a poll.
  unfoldable pub items_after :
      ℕ
      → Option RowSchema
      → List (List (Row t))
      → Outcome (Option (Result (QueryItem t)) × Position t) × k.Conn × ℕ
      → Outcome (List (List (Row t))) × k.Conn × ℕ
  items_after fuel c results (completed (ok (none, p)), s, n) = (completed (ok results), s, n)
  items_after fuel c results (completed (ok (some (err e), p)), s, n) = (completed (err e), s, n)
  items_after fuel c results (completed (ok (some (ok (QueryItem.metadata m)), p)), s, n) =
      collect_items k alloc fuel (suspended p (some m.schema)) (results ++ [] ∷ []) s n
  items_after fuel c results (completed (ok (some (ok (QueryItem.row r)), p)), s, n) =
      collect_items k alloc fuel (suspended p c) (push_row results r) s n
  items_after fuel c results (completed (err e), s, n) = (completed (err e), s, n)
  items_after fuel c results (dropped, s, n) = (dropped, s, n)

  polled_cases :
      (fuel : ℕ) (c : Option RowSchema) (results : List (List (Row t)))
      (o : Outcome (Option (Result (QueryItem t)) × Position t)) (s : k.Conn) (n : ℕ)
      → (((λ (z : k.Conn) (m : ℕ). (o, s, n)) >>= λ (item, p).
              return
                (ok (item, record { inner = p; peeked = none; columns = columns_after item c })))
            >>= λ (item, stream'). elim item [
              | none ↦ return (ok results)
              | some polled ↦ elim polled [
                | err e ↦ return (err e)
                | ok i ↦ elim i [
                  | QueryItem.metadata m ↦
                      λ s' n'. collect_items k alloc fuel stream' (results ++ [] ∷ []) s' n'
                  | QueryItem.row r ↦
                      λ s' n'. collect_items k alloc fuel stream' (push_row results r) s' n'
                ]
              ]
            ])
          s n
        ≡ items_after fuel c results (o, s, n)
  unfolding items_after columns_after
  polled_cases fuel c results (completed (ok (none, p))) s n = refl
  polled_cases fuel c results (completed (ok (some (err e), p))) s n = refl
  polled_cases fuel c results (completed (ok (some (ok (QueryItem.metadata m)), p))) s n = refl
  polled_cases fuel c results (completed (ok (some (ok (QueryItem.row r)), p))) s n = refl
  polled_cases fuel c results (completed (err e)) s n = refl
  polled_cases fuel c results dropped s n = refl

  pub collect_items-suc :
      (fuel : ℕ) (p : Position t) (c : Option RowSchema) (results : List (List (Row t)))
      (s : k.Conn) (n : ℕ)
      → collect_items k alloc (suc fuel) (suspended p c) results s n
        ≡ items_after fuel c results (poll_inner k alloc p s n)
  unfolding collect_items poll_next
  collect_items-suc fuel p c results s n =
      polled_cases fuel c results (poll_inner k alloc p s n).0 (poll_inner k alloc p s n).1
        (poll_inner k alloc p s n).2
