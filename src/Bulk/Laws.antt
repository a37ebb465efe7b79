-- ===== src/Bulk/Laws.antt =====
-- bulk.rs: which rows a request keeps, what a row writes, and how its errors are reported.
use mssql_tiberius_bridge.Prelude.{
  ℕ, ◌+◌, ◌≡◌, refl, sym, ap, ◌∙◌, Text, str, true, false, Option, none, some, map_option, List, [],
  ◌∷◌, ◌++◌, length, ◌==◌, if◌then◌else◌, arith, Bool-cases, Option-cases, ◌⊎◌, inl, inr,
  starts_with,
}
use mathlib.Core.List.{append_assoc, append-nil}
use mssql_tiberius_bridge.Driver.{Tds, ColumnValues}
use mssql_tiberius_bridge.Error.{Error, TdsError, Result, ok, err, display}
use mssql_tiberius_bridge.Conversion.{ColumnData, into_column_value}
use mssql_tiberius_bridge.Task.{TdsResult, tds_ok, dropped, await}
use mssql_tiberius_bridge.Connection.{Connection, HealthLaws}
use mssql_tiberius_bridge.Operation.Laws.{guarded-dropped}
use mssql_tiberius_bridge.Client.{health}
use mssql_tiberius_bridge.Bulk.{
  BulkInsert, TokenRow, BulkLoadRequest, len, validate_row_width, send_row, write_values,
  is_bulk_input_message, map_compat_bulk_error, send, finalize, load_result,
}

result_cases : {A : Type 0} (r : Result A) → ((e : Error) × (r ≡ err e)) ⊎ ((a : A) × (r ≡ ok a))
result_cases (err e) = inl (e, refl)
result_cases (ok a) = inr (a, refl)

module _ {t : Tds} where
  -- The rows of a width.
  abbrev pub of_width : ℕ → List (TokenRow t) → List (TokenRow t)
  of_width w [] = []
  of_width w (r ∷ rs) = if len r == w then r ∷ of_width w rs else of_width w rs

  -- A request after rows were sent to it, whatever it answered.
  pub send_rows : BulkLoadRequest t → List (TokenRow t) → BulkLoadRequest t
  send_rows request [] = request
  send_rows request (r ∷ rs) = send_rows (send_row request r).1 rs

  send_row-fits :
      (bulk : BulkInsert) (kept : List (TokenRow t)) (r : TokenRow t) (w : ℕ)
      → (len r == w) ≡ true
      → (send_row (record { bulk = bulk; rows = kept; row_width = some w }) r).1
        ≡ record { bulk = bulk; rows = kept ++ r ∷ []; row_width = some w }
  unfolding send_row validate_row_width
  send_row-fits bulk kept r w e = ground arith

  send_row-refused :
      (bulk : BulkInsert) (kept : List (TokenRow t)) (r : TokenRow t) (w : ℕ)
      → (len r == w) ≡ false
      → (send_row (record { bulk = bulk; rows = kept; row_width = some w }) r).1
        ≡ record { bulk = bulk; rows = kept; row_width = some w }
  unfolding send_row validate_row_width
  send_row-refused bulk kept r w e = ground arith

  send_rows-opened :
      (bulk : BulkInsert) (kept rs : List (TokenRow t)) (w : ℕ)
      → send_rows (record { bulk = bulk; rows = kept; row_width = some w }) rs
        ≡ record { bulk = bulk; rows = kept ++ of_width w rs; row_width = some w }
  unfolding send_rows send_row validate_row_width
  send_rows-opened bulk kept [] w =
      ap (λ l. record { bulk = bulk; rows = l; row_width = some w }) (sym (append-nil kept))
  send_rows-opened bulk kept (r ∷ rs) w = elim (Bool-cases (len r == w)) [
    | inl e ↦
        ap (λ (q : BulkLoadRequest t). send_rows q rs) (send_row-fits bulk kept r w e)
        ∙ rw (e) (
            send_rows-opened bulk (kept ++ r ∷ []) rs w
            ∙ ap (λ l. record { bulk = bulk; rows = l; row_width = some w })
                (append_assoc kept (r ∷ []) (of_width w rs)))
    | inr e ↦
        ap (λ (q : BulkLoadRequest t). send_rows q rs) (send_row-refused bulk kept r w e)
        ∙ rw (e) (send_rows-opened bulk kept rs w)
  ]

  -- The first row that is sent to a request fixes the width. After further rows were sent, the
  -- request holds, in the order in which they were sent, exactly the rows of that width; a row of
  -- another width leaves it as it is.
  pub send_rows_lem :
      (bulk : BulkInsert) (first : TokenRow t) (rs : List (TokenRow t))
      → send_rows (record { bulk = bulk; rows = []; row_width = none }) (first ∷ rs) ≡ record {
        bulk = bulk;
        rows = first ∷ of_width (len first) rs;
        row_width = some (len first);
      }
  unfolding send_rows send_row validate_row_width
  send_rows_lem bulk first rs = send_rows-opened bulk (first ∷ []) rs (len first)

  -- The cells that a row's values convert to, if all do.
  abbrev pub converted : List (ColumnData t) → Option (List (ColumnValues t))
  converted [] = some []
  converted (d ∷ ds) = elim (into_column_value d) [
    | ok v ↦ map_option (λ vs. v ∷ vs) (converted ds)
    | err e ↦ none
  ]

  -- A writer that takes the cells one after the other, from a column on.
  abbrev pub write_cells :
      {W : Type 0} → (W → ℕ → ColumnValues t → W) → W → ℕ → List (ColumnValues t) → W
  write_cells put w column [] = w
  write_cells put w column (v ∷ vs) = write_cells put (put w column v) (column + 1) vs

  -- A row whose values all convert writes each of them once, in order, at consecutive columns, into a
  -- writer that accepts them, and leaves the column index behind the last.
  pub write_values_lem :
      {W : Type 0} (show : TdsError → Text) (put : W → ℕ → ColumnValues t → W)
      (ds : List (ColumnData t)) (vs : List (ColumnValues t)) (w : W) (column : ℕ)
      → converted ds ≡ some vs
      → write_values show (λ writer index v. (tds_ok tt, put writer index v)) ds w column
        ≡ (tds_ok tt, write_cells put w column vs, column + length vs)
  unfolding write_values
  write_values_lem show put [] vs w column h = ground arith
  write_values_lem show put (d ∷ ds) vs w column h = elim (result_cases (into_column_value d)) [
    | inl (e, q) ↦ absurd (ground arith)
    | inr (v, q) ↦ elim (Option-cases (converted ds)) [
      | inl q' ↦ absurd (ground arith)
      | inr (vs', q') ↦
          let tail : v ∷ vs' ≡ vs = ground arith in
          rw (write_values, q)
            (write_values_lem show put ds vs' (put w column v) (column + 1) q'
              ∙ ap (λ n. (tds_ok tt, write_cells put w column (v ∷ vs'), n)) (omega arith)
              ∙ ap
                  (λ (l : List (ColumnValues t)).
                    (tds_ok tt, write_cells put w column l, column + length l))
                  tail)
    ]
  ]

  -- A value that no cell can hold is reported as bad input of the bulk load, with its message, not as
  -- an error of the driver.
  pub map_compat_bulk_error-into_column_value :
      (show : TdsError → Text) (d : ColumnData t) (e : Error)
      → into_column_value d ≡ err e
      → map_compat_bulk_error (Error.tds (TdsError.usage_error (display show e)))
        ≡ Error.bulk_input (display show e)
  unfolding map_compat_bulk_error into_column_value display is_bulk_input_message starts_with
  map_compat_bulk_error-into_column_value show (ColumnData.native v) e h =
      let message = str "cannot decode bridge-native parameter as a row value" in
      let q : e ≡ Error.conversion message = ground arith in rw (q) refl
  map_compat_bulk_error-into_column_value show _ e h = ground arith

module _ {t : Tds} (k : Connection t) where
  -- A load that is dropped while it is sent leaves a dead connection, provided that the driver's
  -- `mark_connection_dead` marks the connection.
  pub finalize-dropped :
      (write_to_server : BulkInsert → List (TokenRow t) → k.Conn → TdsResult ℕ × k.Conn)
      (request : BulkLoadRequest t) (s : k.Conn) (n : ℕ)
      → HealthLaws k
      → (finalize k write_to_server request s n).0 ≡ dropped
      → k.is_connection_dead (finalize k write_to_server request s n).1 ≡ true
  unfolding finalize load_result send
  finalize-dropped write_to_server request s n laws h = ground (
    arith,
    guarded-dropped (health k) (await k.interrupted (write_to_server request.bulk request.rows)) s n
        laws.marked,
  )
