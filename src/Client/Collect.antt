-- ===== src/Client/Collect.antt =====
-- src/client.rs: the loops that read the driver's results. A loop whose every round awaits recurs on
-- the awaits that are left; the loop over result sets, whose rounds await a varying number of
-- times, takes fuel (see `Client/Fuel`).
use mssql_tiberius_bridge.Prelude.{
  ℕ, zero, suc, ◌+◌, Bool, true, false, Option, none, some, List, [], ◌∷◌, ◌++◌, if◌then◌else◌,
}
use mssql_tiberius_bridge.Driver.{Tds}
use mssql_tiberius_bridge.Error.{Error, ok, err}
use mssql_tiberius_bridge.Query.Results.{QueryResult, ExecuteResult}
use mssql_tiberius_bridge.Row.Schema.{from_metadata}
use mssql_tiberius_bridge.Row.Cells.{Row}
use mssql_tiberius_bridge.Row.Writer.{BridgeRowWriter, with_result_index, take_row, write_all}
use mssql_tiberius_bridge.Task.{
  Task, TdsResult, completed, dropped, tds_ok, tds_err, return, await, gets, ◌>>=◌,
}
use mssql_tiberius_bridge.Connection.{Connection, StatementResult}

module _ {t : Tds} (k : Connection t) where
  abbrev pub call : {A : Type 0} → (k.Conn → TdsResult A × k.Conn) → Task k.Conn A
  call f = await k.interrupted f

  -- `while inner.next_row_into(&mut writer).await? { rows.push(writer.take_row()) }`.
  unfoldable pub read_rows : BridgeRowWriter t → List (Row t) → Task k.Conn (List (Row t))
  read_rows w rows s zero = (dropped, k.interrupted s, zero)
  read_rows w rows s (suc n) =
      let (r, s') = k.next_row_into s in
      elim r [
        | tds_err e ↦ (completed (err (Error.tds e)), s', n)
        | tds_ok row ↦ elim row [
          | none ↦ (completed (ok rows), s', n)
          | some cells ↦
              read_rows (take_row (write_all w cells)).1
                (rows ++ (take_row (write_all w cells)).0 ∷ []) s' n
        ]
      ]

  -- `inner.on_rows() || inner.advance_to_rows().await?`.
  unfoldable pub find_rows : Task k.Conn Bool
  find_rows s n = if k.on_rows s then (completed (ok true), s, n) else call k.advance_to_rows s n

  -- The body of the loop over result sets; `alloc` gives the address of each schema.
  unfoldable pub read_set : (ℕ → ℕ) → ℕ → Task k.Conn (List (Row t))
  unfolding read_rows
  read_set alloc result_index = do
    metadata ← gets k.get_metadata
    read_rows (with_result_index (from_metadata (alloc result_index) metadata) result_index) []

  -- The loop of `Client::collect_results`.
  unfoldable pub collect_sets :
      ℕ → (ℕ → ℕ) → ℕ → List (List (Row t)) → Task k.Conn (List (List (Row t)))
  unfolding find_rows read_set
  collect_sets zero alloc result_index result_sets s n = (dropped, k.interrupted s, n)
  collect_sets (suc fuel) alloc result_index result_sets s n =
      (find_rows >>= λ here. elim here [
        | false ↦ return (ok result_sets)
        | true ↦ read_set alloc result_index >>= λ rows. call k.advance_to_rows >>= λ more.
            elim more [
              | true ↦ λ s' n'.
                  collect_sets fuel alloc (result_index + 1) (result_sets ++ rows ∷ []) s' n'
              | false ↦ return (ok (result_sets ++ rows ∷ []))
            ]
      ])
        s n

  -- `Client::collect_results`; every round but the last awaits, so the awaits bound the rounds.
  unfoldable pub collect_results : (ℕ → ℕ) → Task k.Conn (QueryResult (Row t))
  unfolding collect_sets
  collect_results alloc s n =
      (collect_sets (suc n) alloc 0 [] >>= λ result_sets.
      return (ok (record { result_sets = result_sets })))
        s n

  -- `while inner.next_row().await?.is_some() { count += 1 }`.
  unfoldable pub count_rows : ℕ → Task k.Conn ℕ
  count_rows count s zero = (dropped, k.interrupted s, zero)
  count_rows count s (suc n) =
      let (r, s') = k.next_row s in
      elim r [
        | tds_err e ↦ (completed (err (Error.tds e)), s', n)
        | tds_ok more ↦ elim more [
          | true ↦ count_rows (count + 1) s' n
          | false ↦ (completed (ok count), s', n)
        ]
      ]

  -- One round of the loop of `collect_execute_results`: the counts after it, or `none` at the end.
  unfoldable pub count_statement : StatementResult → List ℕ → Task k.Conn (Option (List ℕ))
  unfolding count_rows
  count_statement StatementResult.rows counts =
      count_rows 0 >>= λ count. return (ok (some (counts ++ count ∷ [])))
  count_statement (StatementResult.no_rows (some count)) counts =
      return (ok (some (counts ++ count ∷ [])))
  count_statement (StatementResult.no_rows none) counts = return (ok (some counts))
  count_statement StatementResult.end counts = return (ok none)

  -- The loop of `Client::collect_execute_results`.
  unfoldable pub count_statements : ℕ → StatementResult → List ℕ → Task k.Conn (List ℕ)
  unfolding count_statement
  count_statements zero result counts s n = (dropped, k.interrupted s, n)
  count_statements (suc fuel) result counts s n =
      (count_statement result counts >>= λ counted. elim counted [
        | none ↦ return (ok counts)
        | some counts' ↦
            call k.advance >>= λ result'. λ s' n'. count_statements fuel result' counts' s' n'
      ])
        s n

  -- `Client::collect_execute_results`.
  unfoldable pub collect_execute_results : StatementResult → Task k.Conn ExecuteResult
  unfolding count_statements
  collect_execute_results result s n =
      (count_statements (suc n) result [] >>= λ counts. return (ok (record { counts = counts }))) s
        n
