-- ===== src/Serde/Access.antt =====
-- src/serde_de.rs, `RowMapAccess` and `RowSeqAccess`: a row as a map from column names, and as a
-- sequence.
use mssql_tiberius_bridge.Prelude.{
  ℕ, ◌+◌, ◌-◌, Text, Option, none, some, length, get_elem?, leb, if◌then◌else◌,
}
use mssql_tiberius_bridge.Driver.{Tds}
use mssql_tiberius_bridge.Error.{Error, Result, ok, err, ok_or, map_result, ◌>>=◌}
use mssql_tiberius_bridge.Row.Cells.{Row, raw_value, decoded_str_at}
use mssql_tiberius_bridge.Serde.Visit.{Cell}

-- The column that is next.
pub record Access (t : Tds) : Type 0 where
  pub row : Row t
  pub idx : ℕ

module _ {t : Tds} where
  -- `RowDeserializer`: a row is visited as a map, or as a sequence, from its first column.
  unfoldable deserialize_map {ℓ} : {V : Type ℓ} → (Access t → Result V) → Row t → Result V
  deserialize_map visit_map row = visit_map (record { row = row; idx = 0 })

  unfoldable deserialize_seq {ℓ} : {V : Type ℓ} → (Access t → Result V) → Row t → Result V
  deserialize_seq visit_seq row = visit_seq (record { row = row; idx = 0 })

  -- The number of cells, and a cell as a deserializer.
  unfoldable pub cell_at : Row t → ℕ → Result (Cell t)
  unfolding raw_value decoded_str_at
  cell_at row idx = do
    val ← ok_or (raw_value row idx) (Error.column_index_out_of_bounds idx (length row.values))
    ok (record { val = val; decoded = decoded_str_at row idx })

  module _ {K : Type 0} (seed : Text → Result K) where
    -- `next_key_seed`.
    unfoldable pub next_key_seed : Access t → Result (Option K)
    next_key_seed access = if leb (length access.row.values) access.idx then ok none else do
      column ←
          ok_or (get_elem? access.row.schema.columns access.idx)
            (Error.column_index_out_of_bounds access.idx (length access.row.schema.columns))
      map_result some (seed column.name)

  module _ {V : Type 0} (seed : Cell t → Result V) where
    -- `next_value_seed`: the column is passed whatever the seed answers.
    unfoldable pub next_value_seed : Access t → Result V × Access t
    unfolding cell_at
    next_value_seed access = elim (cell_at access.row access.idx) [
      | ok cell ↦ (seed cell, record access { idx = access.idx + 1 })
      | err e ↦ (err e, access)
    ]

    -- `next_element_seed`: the column is passed if the seed answers.
    unfoldable pub next_element_seed : Access t → Result (Option V) × Access t
    unfolding cell_at
    next_element_seed access =
        if leb (length access.row.values) access.idx
        then (ok none, access)
        else elim (cell_at access.row access.idx) [
          | ok cell ↦ elim (seed cell) [
            | ok v ↦ (ok (some v), record access { idx = access.idx + 1 })
            | err e ↦ (err e, access)
          ]
          | err e ↦ (err e, access)
        ]

  unfoldable size_hint : Access t → Option ℕ
  size_hint access = some (length access.row.values - access.idx)
