-- ===== src/Serde/Entries.antt =====
-- src/serde_de.rs: a visitor that asks a row for all its entries gets one for each cell, in order.
use mssql_tiberius_bridge.Prelude.{
  ℕ, zero, suc, ◌+◌, ◌<◌, ◌≤◌, ◌≡◌, refl, ap, ◌∙◌, subst, Text, none, some, List, [], ◌∷◌, length,
  get_elem?, drop, arith, get_elem?-none, length-drop, drop-cons, get_elem?-map,
}
use mssql_tiberius_bridge.Driver.{Tds, ColumnValues}
use mssql_tiberius_bridge.Error.{Error, Result, ok, err, ◌>>=◌}
use mssql_tiberius_bridge.Column.{Column}
use mssql_tiberius_bridge.Row.Schema.{RowSchema}
use mssql_tiberius_bridge.Row.Cells.{from_schema, decode_string}
use mssql_tiberius_bridge.Serde.Visit.{Cell}
use mssql_tiberius_bridge.Serde.Access.{Access, cell_at, next_key_seed, next_value_seed}

-- A row at a column.
abbrev access_at : {t : Tds} → RowSchema → List (ColumnValues t) → ℕ → Access t
access_at schema values idx = record { row = from_schema schema values; idx = idx }

module _ {t : Tds} (schema : RowSchema) (values : List (ColumnValues t)) (idx : ℕ) where
  next_key_seed-end :
      length values ≤ idx → next_key_seed {K = Text} ok (access_at schema values idx) ≡ ok none
  unfolding next_key_seed from_schema
  next_key_seed-end h = ground arith

  next_key_seed-column :
      (c : Column)
      → idx < length values
      → get_elem? schema.columns idx ≡ some c
      → next_key_seed {K = Text} ok (access_at schema values idx) ≡ ok (some c.name)
  unfolding next_key_seed from_schema
  next_key_seed-column c h e = ground arith

  next_key_seed-missing :
      idx < length values
      → get_elem? schema.columns idx ≡ none
      → next_key_seed {K = Text} ok (access_at schema values idx)
        ≡ err (Error.column_index_out_of_bounds idx (length schema.columns))
  unfolding next_key_seed from_schema
  next_key_seed-missing h e = ground arith

  cell_at-cell :
      (v : ColumnValues t)
      → get_elem? values idx ≡ some v
      → cell_at (from_schema schema values) idx ≡ ok (record { val = v; decoded = decode_string v })
  unfolding cell_at from_schema
  cell_at-cell v e = rw (e) (rw (get_elem?-map decode_string values idx, e) refl)

module _ {t : Tds} {V : Type 0} (seed : Cell t → Result V) where
  -- A visitor that asks for keys and values until there are no more.
  unfoldable pub collect_map : ℕ → Access t → Result (List (Text × V))
  collect_map zero access = ok []
  collect_map (suc fuel) access = do
    key ← next_key_seed ok access
    elim key [
      | none ↦ ok []
      | some name ↦ do
        value ← (next_value_seed seed access).0
        rest ← collect_map fuel (next_value_seed seed access).1
        ok ((name, value) ∷ rest)
    ]

  -- The entries of columns and cells: each cell under the name of its column, in order. A cell without
  -- a column, at an index, is an error.
  unfoldable pub entries : ℕ → List Column → List (ColumnValues t) → Result (List (Text × V))
  entries count columns [] = ok []
  entries count [] (v ∷ vs) = err (Error.column_index_out_of_bounds count count)
  entries count (c ∷ cs) (v ∷ vs) = do
    value ← seed (record { val = v; decoded = decode_string v })
    rest ← entries count cs vs
    ok ((c.name, value) ∷ rest)

  next_value_seed-cell :
      (schema : RowSchema) (values : List (ColumnValues t)) (idx : ℕ) (v : ColumnValues t)
      → get_elem? values idx ≡ some v
      → next_value_seed seed (access_at schema values idx)
        ≡ (seed (record { val = v; decoded = decode_string v }), access_at schema values (idx + 1))
  unfolding next_value_seed
  next_value_seed-cell schema values idx v e =
      rw (next_value_seed, cell_at-cell schema values idx v e) refl

  collect_map-step :
      (fuel : ℕ) (access after : Access t) (name : Text) (answer : Result V)
      → next_key_seed ok access ≡ ok (some name)
      → next_value_seed seed access ≡ (answer, after)
      → collect_map (suc fuel) access
        ≡ (do value ← answer; rest ← collect_map fuel after; ok ((name, value) ∷ rest))
  unfolding collect_map
  collect_map-step fuel access after name answer key value = rw (key, value) refl

  collect_map-from :
      (schema : RowSchema) (values : List (ColumnValues t)) (idx : ℕ) (cs : List Column)
      (vs : List (ColumnValues t))
      → drop idx schema.columns ≡ cs
      → drop idx values ≡ vs
      → idx ≤ length schema.columns
      → collect_map (suc (length vs)) (access_at schema values idx)
        ≡ entries (length schema.columns) cs vs
  unfolding collect_map entries
  collect_map-from schema values idx cs [] hc hv within =
      rw (next_key_seed-end schema values idx (omega (arith, length-drop idx values, ap length hv)))
        refl
  collect_map-from schema values idx [] (v ∷ vs) hc hv within =
      let left : idx < length values = omega (arith, length-drop idx values, ap length hv) in
      let last : idx ≡ length schema.columns =
        omega (arith, length-drop idx schema.columns, ap length hc) in
      let none_left = get_elem?-none schema.columns idx (omega arith) in
      rw (next_key_seed-missing schema values idx left none_left)
        (ap (λ i. err (Error.column_index_out_of_bounds i (length schema.columns))) last)
  collect_map-from schema values idx (c ∷ cs) (v ∷ vs) hc hv within =
      let left : idx < length values = omega (arith, length-drop idx values, ap length hv) in
      let more : idx < length schema.columns =
        omega (arith, length-drop idx schema.columns, ap length hc) in
      let column = drop-cons idx schema.columns hc in
      let value = drop-cons idx values hv in
      let plus : suc idx ≡ idx + 1 = omega arith in
      let ih =
        collect_map-from schema values (idx + 1) cs vs
          (subst (λ n. drop n schema.columns ≡ cs) (plus) column.1)
          (subst (λ n. drop n values ≡ vs) (plus) value.1) (omega arith) in
      let cell : Cell t = record { val = v; decoded = decode_string v } in
      collect_map-step (suc (length vs)) (access_at schema values idx)
        (access_at schema values (idx + 1)) c.name (seed cell)
        (next_key_seed-column schema values idx c left column.0)
        (next_value_seed-cell schema values idx v value.0)
      ∙ ap
          (λ (m : Result (List (Text × V))). do
            value ← seed cell
            rest ← m
            ok ((c.name, value) ∷ rest))
          ih

  -- Visiting a row as a map, from its first column, gives each cell under the name of its column, in
  -- order, as the seed reads it with its decoded text; it fails with the seed's first failure, or at a
  -- cell that has no column. One request more than there are cells ends the visit.
  pub collect_map_lem :
      (schema : RowSchema) (values : List (ColumnValues t))
      → collect_map (suc (length values)) (record { row = from_schema schema values; idx = 0 })
        ≡ entries (length schema.columns) schema.columns values
  collect_map_lem schema values =
      collect_map-from schema values 0 schema.columns values refl refl (omega arith)
