-- ===== src/Query/Results.antt =====
-- src/query.rs: row counts, collected result sets, and the stream over them.
use mssql_tiberius_bridge.Prelude.{
  ℕ, zero, suc, ◌+◌, ◌-◌, Option, none, some, List, [], ◌∷◌, length, map_option,
}

pub record ExecuteResult : Type 0 where
  pub counts : List ℕ

unfoldable sum : List ℕ → ℕ
sum [] = 0
sum (x ∷ xs) = x + sum xs

-- `ExecuteResult::total`, where the sum fits in a `u64`.
unfoldable pub total : ExecuteResult → ℕ
unfolding sum
total r = sum r.counts

-- `QueryResult`, over the type of rows.
pub record QueryResult (Row : Type 0) : Type 0 where
  pub result_sets : List (List Row)

-- `RowStream`: the sets to come, the rest of the current one, and the exact number of rows left.
pub record RowStream (Row : Type 0) : Type 0 where
  pub sets : List (List Row)
  pub current : List Row
  pub remaining : ℕ

module _ {Row : Type 0} where
  -- `QueryResult::into_first_result`.
  unfoldable into_first_result : QueryResult Row → List Row
  into_first_result r = elim r.result_sets [ [] ↦ [] | set ∷ sets ↦ set ]

  unfoldable pub total_rows : List (List Row) → ℕ
  total_rows [] = 0
  total_rows (set ∷ sets) = length set + total_rows sets

  -- `sets.next().unwrap_or_default()`.
  unfoldable pub open_stream : ℕ → List (List Row) → RowStream Row
  open_stream remaining [] = record { sets = []; current = []; remaining = remaining }
  open_stream remaining (set ∷ sets) = record { sets = sets; current = set; remaining = remaining }

  -- `QueryResult::into_row_stream`.
  unfoldable pub into_row_stream : QueryResult Row → RowStream Row
  unfolding open_stream total_rows
  into_row_stream r = open_stream (total_rows r.result_sets) r.result_sets

  -- The loop of `poll_next`: the next row, or the next set, or the end.
  unfoldable pub poll_sets : List Row → List (List Row) → ℕ → Option Row × RowStream Row
  poll_sets (row ∷ rest) sets remaining =
      (some row, record { sets = sets; current = rest; remaining = remaining - 1 })
  poll_sets [] [] remaining = (none, record { sets = []; current = []; remaining = remaining })
  poll_sets [] (set ∷ sets) remaining = poll_sets set sets remaining

  -- `RowStream::poll_next`; the stream is always ready.
  unfoldable pub poll_next : RowStream Row → Option Row × RowStream Row
  unfolding poll_sets
  poll_next s = poll_sets s.current s.sets s.remaining

  -- `size_hint`: both bounds.
  unfoldable size_hint : RowStream Row → ℕ × Option ℕ
  size_hint s = (s.remaining, some s.remaining)

  -- A consumer that polls until the end, on fuel.
  unfoldable pub drain : ℕ → RowStream Row → Option (List Row)
  unfolding poll_next
  drain zero s = none
  drain (suc fuel) s =
      let (item, s') = poll_next s in
      elim item [ none ↦ some [] | some row ↦ map_option (λ rows. row ∷ rows) (drain fuel s') ]
