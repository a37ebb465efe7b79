-- ===== src/Query/Laws.antt =====
-- query.rs: parameters keep their places and values, and the row stream yields every row once.
use mssql_tiberius_bridge.Prelude.{
  ℕ, zero, suc, ◌+◌, ◌-◌, ◌≡◌, refl, ap, ◌∙◌, str, Bool, false, Option, none, some, map_option,
  List, [], ◌∷◌, ◌++◌, length, get_elem?, to_decimal, to_decimal_injective, arith, drop,
}
use mssql_tiberius_bridge.Driver.{Tds, SqlType}
use mssql_tiberius_bridge.Query.Params.{
  param_name, encode_string_parameters, build_param, build_params_from,
  build_params_with_string_encoding,
}
use mssql_tiberius_bridge.Query.Results.{RowStream, poll_sets, poll_next}

-- No two parameters share a name.
param_name_injective : (i j : ℕ) → param_name i ≡ param_name j → i ≡ j
unfolding param_name
param_name_injective i j e = omega (arith, to_decimal_injective (i + 1) (j + 1) (ap (drop 2) e))

module _ {t : Tds} where
  get_elem?-build_params_from :
      (index : ℕ) (ps : List (SqlType t)) (unicode : Bool) (i : ℕ)
      → get_elem? (build_params_from index ps unicode) i
        ≡ map_option (λ p. build_param (index + i) p unicode) (get_elem? ps i)
  unfolding build_params_from
  get_elem?-build_params_from index [] unicode i = refl
  get_elem?-build_params_from index (p ∷ ps) unicode zero =
      ap (λ k. some (build_param k p unicode)) (omega arith)
  get_elem?-build_params_from index (p ∷ ps) unicode (suc i) =
      get_elem?-build_params_from (suc index) ps unicode i
      ∙ ap (λ k. map_option (λ q. build_param k q unicode) (get_elem? ps i)) (omega arith)

  -- The parameter at each position is the one given there, under the name `@P` of its position
  -- counted from 1, by value and in the chosen text encoding; there are no others.
  pub build_params_positional :
      (ps : List (SqlType t)) (unicode : Bool) (i : ℕ)
      → get_elem? (build_params_with_string_encoding ps unicode) i
        ≡ map_option
            (λ p. record {
              name = some (str "@P" ++ to_decimal (i + 1));
              by_ref = false;
              value = encode_string_parameters p unicode;
            })
            (get_elem? ps i)
  unfolding build_params_with_string_encoding build_param param_name
  build_params_positional ps unicode i =
      get_elem?-build_params_from 0 ps unicode i
      ∙ ap (λ k. map_option (λ q. build_param k q unicode) (get_elem? ps i)) (omega arith)

module _ {Row : Type 0} where
  abbrev pub concat : List (List Row) → List Row
  concat [] = []
  concat (set ∷ sets) = set ++ concat sets

  -- The rows that a stream has still to yield.
  abbrev pending : RowStream Row → List Row
  pending s = s.current ++ concat s.sets

  -- The row count that `size_hint` reports is exact.
  abbrev pub IsExact : RowStream Row → Type 0
  IsExact s = s.remaining ≡ length (pending s)

  -- What one poll of a stream over these rows answers, and what it leaves.
  abbrev pub Polls : List Row → ℕ → Option Row × RowStream Row → Type 0
  Polls [] n r = (r.0 ≡ none) × (pending r.1 ≡ []) × (r.1.remaining ≡ n)
  Polls (row ∷ rest) n r = (r.0 ≡ some row) × (pending r.1 ≡ rest) × (r.1.remaining ≡ n - 1)

  poll_sets-Polls :
      (current : List Row) (sets : List (List Row)) (n : ℕ)
      → Polls (current ++ concat sets) n (poll_sets current sets n)
  unfolding poll_sets
  poll_sets-Polls (row ∷ rest) sets n = (refl, refl, refl)
  poll_sets-Polls [] [] n = (refl, refl, refl)
  poll_sets-Polls [] (set ∷ sets) n = poll_sets-Polls set sets n

  -- A poll yields the first pending row, skipping the sets that are empty, and ends the stream only
  -- when no row is pending; the count of rows left falls by one with each row.
  pub poll_next-Polls : (s : RowStream Row) → Polls (pending s) s.remaining (poll_next s)
  unfolding poll_next
  poll_next-Polls s = poll_sets-Polls s.current s.sets s.remaining

  -- Polling keeps the row count that `size_hint` reports exact.
  pub poll_next-IsExact : (s : RowStream Row) → IsExact s → IsExact (poll_next s).1
  poll_next-IsExact s h = exact (pending s) refl (poll_next-Polls s)
    where
      exact :
          (rows : List Row)
          → pending s ≡ rows
          → Polls rows s.remaining (poll_next s)
          → IsExact (poll_next s).1
      exact [] e p = omega (arith, ap length p.1, ap length e)
      exact (row ∷ rest) e p = omega (arith, ap length p.1, ap length e)
