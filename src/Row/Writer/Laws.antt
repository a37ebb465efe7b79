-- ===== src/Row/Writer/Laws.antt =====
-- row.rs: the writer builds the row that the two-pass constructor would build.
use mssql_tiberius_bridge.Prelude.{ℕ, ◌≡◌, refl, sym, ap, ◌∙◌, List, [], ◌∷◌, ◌++◌, map, arith}
use mathlib.Core.List.{append_assoc, map-append, append-nil}
use mssql_tiberius_bridge.Driver.{Tds, ColumnValues}
use mssql_tiberius_bridge.Row.Schema.{RowSchema}
use mssql_tiberius_bridge.Row.Cells.{from_parts, from_schema, decode_string}
use mssql_tiberius_bridge.Row.Writer.{
  Write, BridgeRowWriter, with_result_index, take_row, write, write_all,
}

module _ {t : Tds} where
  -- The cell that one call of the driver contributes.
  abbrev pub cell : Write t → List (ColumnValues t)
  cell Write.write_null = ColumnValues.null ∷ []
  cell (Write.write_bool val) = ColumnValues.bit val ∷ []
  cell (Write.write_u8 val) = ColumnValues.tiny_int val ∷ []
  cell (Write.write_i16 val) = ColumnValues.small_int val ∷ []
  cell (Write.write_i32 val) = ColumnValues.int val ∷ []
  cell (Write.write_i64 val) = ColumnValues.big_int val ∷ []
  cell (Write.write_f32 val) = ColumnValues.real val ∷ []
  cell (Write.write_f64 val) = ColumnValues.float val ∷ []
  cell (Write.write_string val encoding) = ColumnValues.string (t.sql_string_new val encoding) ∷ []
  cell (Write.write_bytes val) = ColumnValues.bytes val ∷ []
  cell (Write.write_decimal val) = ColumnValues.decimal val ∷ []
  cell (Write.write_numeric val) = ColumnValues.numeric val ∷ []
  cell (Write.write_date val) = ColumnValues.date val ∷ []
  cell (Write.write_time val) = ColumnValues.time val ∷ []
  cell (Write.write_datetime val) = ColumnValues.date_time val ∷ []
  cell (Write.write_smalldatetime val) = ColumnValues.small_date_time val ∷ []
  cell (Write.write_datetime2 val) = ColumnValues.date_time2 val ∷ []
  cell (Write.write_datetimeoffset val) = ColumnValues.date_time_offset val ∷ []
  cell (Write.write_money val) = ColumnValues.money val ∷ []
  cell (Write.write_smallmoney val) = ColumnValues.small_money val ∷ []
  cell (Write.write_uuid val) = ColumnValues.uuid val ∷ []
  cell (Write.write_xml val) = ColumnValues.xml val ∷ []
  cell (Write.write_json val) = ColumnValues.json val ∷ []
  cell (Write.write_vector val) = ColumnValues.vector val ∷ []
  cell Write.end_row = []

  abbrev cells_of : List (Write t) → List (ColumnValues t)
  cells_of [] = []
  cells_of (x ∷ xs) = cell x ++ cells_of xs

  -- The two lists of the writer stay in step.
  abbrev InStep : BridgeRowWriter t → Type 0
  InStep w = w.decoded_strings ≡ map decode_string w.values

  values-write : (w : BridgeRowWriter t) (x : Write t) → (write w x).values ≡ w.values ++ cell x
  unfolding write
  values-write w Write.end_row = sym (append-nil w.values)
  values-write w Write.write_null = refl
  values-write w _ = refl

  decoded-write :
      (w : BridgeRowWriter t) (x : Write t)
      → (write w x).decoded_strings ≡ w.decoded_strings ++ map decode_string (cell x)
  unfolding write decode_string
  decoded-write w Write.end_row = sym (append-nil w.decoded_strings)
  decoded-write w Write.write_null = refl
  decoded-write w _ = refl

  write-InStep : (w : BridgeRowWriter t) (x : Write t) → InStep w → InStep (write w x)
  write-InStep w x h =
      rw (decoded-write w x, values-write w x, map-append decode_string w.values)
        (ap (λ l. l ++ map decode_string (cell x)) h)

  write_all-InStep :
      (w : BridgeRowWriter t) (xs : List (Write t)) → InStep w → InStep (write_all w xs)
  unfolding write_all
  write_all-InStep w [] h = h
  write_all-InStep w (x ∷ xs) h = write_all-InStep (write w x) xs (write-InStep w x h)

  values-write_all :
      (w : BridgeRowWriter t) (xs : List (Write t))
      → (write_all w xs).values ≡ w.values ++ cells_of xs
  unfolding write_all
  values-write_all w [] = sym (append-nil w.values)
  values-write_all w (x ∷ xs) =
      values-write_all (write w x) xs
      ∙ ap (λ l. l ++ cells_of xs) (values-write w x)
      ∙ append_assoc w.values (cell x) (cells_of xs)

  schema-write : (w : BridgeRowWriter t) (x : Write t) → (write w x).schema ≡ w.schema
  unfolding write
  schema-write w Write.end_row = refl
  schema-write w _ = refl

  result_index-write :
      (w : BridgeRowWriter t) (x : Write t) → (write w x).result_index ≡ w.result_index
  unfolding write
  result_index-write w Write.end_row = refl
  result_index-write w _ = refl

  schema-write_all :
      (w : BridgeRowWriter t) (xs : List (Write t)) → (write_all w xs).schema ≡ w.schema
  unfolding write_all
  schema-write_all w [] = refl
  schema-write_all w (x ∷ xs) = schema-write_all (write w x) xs ∙ schema-write w x

  result_index-write_all :
      (w : BridgeRowWriter t) (xs : List (Write t)) → (write_all w xs).result_index ≡ w.result_index
  unfolding write_all
  result_index-write_all w [] = refl
  result_index-write_all w (x ∷ xs) = result_index-write_all (write w x) xs ∙ result_index-write w x

  -- From a writer that holds nothing, the calls of one row and `take_row` give the row that
  -- `Row::from_schema` builds from the cells in wire order, under the writer's result index, and
  -- leave the writer as it was: ready for the next row of the set.
  pub take_row-write_all :
      (schema : RowSchema) (index : ℕ) (xs : List (Write t))
      → take_row (write_all (with_result_index schema index) xs) ≡ (
        record (from_schema schema (cells_of xs)) { result_index = index },
        with_result_index schema index,
      )
  unfolding take_row with_result_index from_schema from_parts
  take_row-write_all schema index xs =
      let w : BridgeRowWriter t = with_result_index schema index in
      ground (
        arith,
        values-write_all w xs,
        write_all-InStep w xs refl,
        schema-write_all w xs,
        result_index-write_all w xs,
      )
