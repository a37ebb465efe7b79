-- ===== src/Arrow/Order.antt =====
-- src/bulk_arrow.rs: the order in which the rows of the batches are sent.
use mssql_tiberius_bridge.Prelude.{
  ℕ, zero, suc, ◌+◌, ◌<◌, ◌≡◌, refl, ap, ◌∙◌, some, List, [], ◌∷◌, ◌++◌, get_elem?, length,
  length-append, arith,
}
use mssql_tiberius_bridge.Driver.{Tds}
use mssql_tiberius_bridge.Arrow.Rows.{RecordBatch, ArrowBulkRow, rows_from, arrow_rows}

-- The rows of the batches before.
abbrev pub rows_before : {t : Tds} → List (RecordBatch t) → ℕ
rows_before [] = 0
rows_before (b ∷ bs) = b.num_rows + rows_before bs

module _ {t : Tds} where
  get_elem?-rows_from :
      (b : RecordBatch t) (from left k : ℕ) (rest : List (ArrowBulkRow t))
      → k < left
      → get_elem? (rows_from b from left ++ rest) k
        ≡ some (record { batch = b; row_idx = from + k })
  unfolding rows_from
  get_elem?-rows_from b from zero k rest h = elim h [ ]
  get_elem?-rows_from b from (suc left) zero rest h = ground arith
  get_elem?-rows_from b from (suc left) (suc k) rest h =
      get_elem?-rows_from b (suc from) left k rest (omega arith)
      ∙ ap (λ i. some (record { batch = b; row_idx = i })) (omega arith)

  get_elem?-skip :
      (b : RecordBatch t) (from left k : ℕ) (rest : List (ArrowBulkRow t))
      → get_elem? (rows_from b from left ++ rest) (left + k) ≡ get_elem? rest k
  unfolding rows_from
  get_elem?-skip b from zero k rest = ap (get_elem? rest) (omega arith)
  get_elem?-skip b from (suc left) k rest =
      ap (get_elem? (rows_from b from (suc left) ++ rest)) {y = suc (left + k)} (omega arith)
      ∙ get_elem?-skip b (suc from) left k rest

  length-rows_from : (b : RecordBatch t) (from left : ℕ) → length (rows_from b from left) ≡ left
  unfolding rows_from
  length-rows_from b from zero = refl
  length-rows_from b from (suc left) = ap suc (length-rows_from b (suc from) left)

  length-arrow_rows : (bs : List (RecordBatch t)) → length (arrow_rows bs) ≡ rows_before bs
  unfolding arrow_rows
  length-arrow_rows [] = refl
  length-arrow_rows (b ∷ bs) = omega (
    arith,
    length-append (rows_from b 0 b.num_rows) (arrow_rows bs),
    length-rows_from b 0 b.num_rows,
    length-arrow_rows bs,
  )

  rows_before-append :
      (bs : List (RecordBatch t)) (b : RecordBatch t) (cs : List (RecordBatch t))
      → rows_before (bs ++ b ∷ cs) ≡ rows_before bs + b.num_rows + rows_before cs
  rows_before-append [] b cs = omega arith
  rows_before-append (b' ∷ bs) b cs = omega (arith, rows_before-append bs b cs)

  get_elem?-arrow_rows :
      (bs : List (RecordBatch t)) (b : RecordBatch t) (cs : List (RecordBatch t)) (k : ℕ)
      → k < b.num_rows
      → get_elem? (arrow_rows (bs ++ b ∷ cs)) (rows_before bs + k)
        ≡ some (record { batch = b; row_idx = k })
  unfolding arrow_rows
  get_elem?-arrow_rows [] b cs k h =
      ap (get_elem? (rows_from b 0 b.num_rows ++ arrow_rows cs)) (omega arith)
      ∙ get_elem?-rows_from b 0 b.num_rows k (arrow_rows cs) h
      ∙ ap (λ i. some (record { batch = b; row_idx = i })) (omega arith)
  get_elem?-arrow_rows (b' ∷ bs) b cs k h =
      ap (get_elem? (arrow_rows (b' ∷ bs ++ b ∷ cs))) {y = b'.num_rows + (rows_before bs + k)}
        (omega arith)
      ∙ get_elem?-skip b' 0 b'.num_rows (rows_before bs + k) (arrow_rows (bs ++ b ∷ cs))
      ∙ get_elem?-arrow_rows bs b cs k h

  -- The rows that are sent for a list of batches are as many as the batches have together, and row k
  -- of a batch stands behind the rows of all earlier batches and the k earlier rows of its own.
  pub arrow_rows_lem :
      (bs : List (RecordBatch t)) (b : RecordBatch t) (cs : List (RecordBatch t)) (k : ℕ)
      → k < b.num_rows
      → (length (arrow_rows (bs ++ b ∷ cs)) ≡ rows_before bs + b.num_rows + rows_before cs)
        × (get_elem? (arrow_rows (bs ++ b ∷ cs)) (rows_before bs + k)
            ≡ some (record { batch = b; row_idx = k }))
  arrow_rows_lem bs b cs k h = (
    length-arrow_rows (bs ++ b ∷ cs) ∙ rows_before-append bs b cs,
    get_elem?-arrow_rows bs b cs k h,
  )
