-- ===== src/Client/Fuel.antt =====
-- client.rs and prepared.rs: the loops end, or the caller drops them; their fuel is enough.
use mssql_tiberius_bridge.Prelude.{
  ℕ, zero, suc, ◌+◌, ◌≤◌, ◌<◌, ◌≡◌, ◌⊎◌, refl, Option, none, some, List, [], ◌∷◌, ◌++◌, arith,
  Bool-cases, Option-cases, inl, inr,
}
use mssql_tiberius_bridge.Driver.{Tds}
use mssql_tiberius_bridge.Error.{TdsError, ok, err}
use mssql_tiberius_bridge.Row.Cells.{Row}
use mssql_tiberius_bridge.Row.Schema.{from_metadata}
use mssql_tiberius_bridge.Row.Writer.{with_result_index, BridgeRowWriter, take_row, write_all}
use mssql_tiberius_bridge.Task.{
  Task, TdsResult, Outcome, completed, dropped, tds_ok, tds_err, await, ◌>>=◌, continue,
}
use mssql_tiberius_bridge.Connection.{Connection, StatementResult}
use mssql_tiberius_bridge.Client.{
  call, read_rows, find_rows, read_set, collect_sets, count_rows, count_statement, count_statements,
}

module _ {S A : Type 0} where
  -- The run of a task is dropped only once its awaits are used up, and never gains awaits.
  abbrev pub Exhausts : Outcome A × S × ℕ → Type 0
  Exhausts run = run.0 ≡ dropped → run.2 ≡ 0

  abbrev pub Spends : ℕ → Outcome A × S × ℕ → Type 0
  Spends n run = run.2 ≤ n

  pub await-Exhausts :
      (cut : S → S) (f : S → TdsResult A × S) (s : S) (n : ℕ) → Exhausts (await cut f s n)
  unfolding await
  await-Exhausts cut f s zero h = refl
  await-Exhausts cut f s (suc n) h = ground arith

  pub await-Spends :
      (cut : S → S) (f : S → TdsResult A × S) (s : S) (n : ℕ)
      → Spends n (await cut f s n)
        × ((a : A) → (await cut f s n).0 ≡ completed (ok a) → (await cut f s n).2 < n)
  unfolding await
  await-Spends cut f s zero = (omega arith, λ a h. ground arith)
  await-Spends cut f s (suc n) = (omega arith, λ a h. omega arith)

module _ {S A B : Type 0} where
  continue-Exhausts :
      (r : Outcome A) (s : S) (n : ℕ) (f : A → Task S B)
      → (r ≡ dropped → n ≡ 0)
      → ((a : A) → r ≡ completed (ok a) → Exhausts (f a s n))
      → Exhausts (continue r f s n)
  continue-Exhausts (completed (ok a)) s n f hm hf = hf a refl
  continue-Exhausts (completed (err e)) s n f hm hf = λ h. ground arith
  continue-Exhausts dropped s n f hm hf = λ h. hm refl

  continue-Spends :
      (r : Outcome A) (s : S) (n n' : ℕ) (f : A → Task S B)
      → n' ≤ n
      → ((a : A) → r ≡ completed (ok a) → Spends n' (f a s n'))
      → Spends n (continue r f s n')
  continue-Spends (completed (ok a)) s n n' f hm hf = let p = hf a refl in omega arith
  continue-Spends (completed (err e)) s n n' f hm hf = hm
  continue-Spends dropped s n n' f hm hf = hm

  pub bind-Exhausts :
      (m : Task S A) (f : A → Task S B) (s : S) (n : ℕ)
      → Exhausts (m s n)
      → ((a : A) → (m s n).0 ≡ completed (ok a) → Exhausts (f a (m s n).1 (m s n).2))
      → Exhausts ((m >>= f) s n)
  bind-Exhausts m f s n hm hf h = continue-Exhausts (m s n).0 (m s n).1 (m s n).2 f hm hf h

  bind-Spends :
      (m : Task S A) (f : A → Task S B) (s : S) (n : ℕ)
      → Spends n (m s n)
      → ((a : A) → (m s n).0 ≡ completed (ok a) → Spends (m s n).2 (f a (m s n).1 (m s n).2))
      → Spends n ((m >>= f) s n)
  bind-Spends m f s n hm hf = continue-Spends (m s n).0 (m s n).1 n (m s n).2 f hm hf

lt_lem : {a b c d f : ℕ} → a < b → b ≤ c → c ≤ d → d < suc f → a < f
lt_lem p q r h = omega arith

≤-refl : {a : ℕ} → a ≤ a
≤-refl = omega arith

pub read_cases :
    {A : Type 0} (r : TdsResult (Option A))
    → ((e : TdsError) × (r ≡ tds_err e)) ⊎ (r ≡ tds_ok none) ⊎ ((a : A) × (r ≡ tds_ok (some a)))
read_cases (tds_err e) = inl (e, refl)
read_cases (tds_ok none) = inr (inl refl)
read_cases (tds_ok (some a)) = inr (inr (a, refl))

module _ {t : Tds} (k : Connection t) where
  read_rows-Exhausts :
      (n : ℕ) (w : BridgeRowWriter t) (rows : List (Row t)) (s : k.Conn)
      → Exhausts (read_rows k w rows s n) × Spends n (read_rows k w rows s n)
  unfolding read_rows
  read_rows-Exhausts zero w rows s = (λ h. refl, omega arith)
  read_rows-Exhausts (suc n) w rows s = elim (read_cases (k.next_row_into s).0) [
    | inl (e, q) ↦ rw (read_rows, q) (λ h. ground arith, omega arith)
    | inr (inl q) ↦ rw (read_rows, q) (λ h. ground arith, omega arith)
    | inr (inr (cells, q)) ↦
        let ih =
          read_rows-Exhausts n (take_row (write_all w cells)).1
            (rows ++ (take_row (write_all w cells)).0 ∷ []) (k.next_row_into s).1 in
        rw (read_rows, q) (ih.0, omega arith)
  ]

  count_rows-Exhausts :
      (n count : ℕ) (s : k.Conn)
      → Exhausts (count_rows k count s n) × Spends n (count_rows k count s n)
  unfolding count_rows
  count_rows-Exhausts zero count s = (λ h. refl, omega arith)
  count_rows-Exhausts (suc n) count s =
      ground (arith, count_rows-Exhausts n (count + 1) (k.next_row s).1)

  find_rows-Exhausts :
      (s : k.Conn) (n : ℕ) → Exhausts (find_rows k s n) × Spends n (find_rows k s n)
  unfolding find_rows
  find_rows-Exhausts s n = elim (Bool-cases (k.on_rows s)) [
    | inl e ↦ rw (e) (λ h. ground arith, omega arith)
    | inr e ↦ rw (e) (
      await-Exhausts k.interrupted k.advance_to_rows s n,
      (await-Spends k.interrupted k.advance_to_rows s n).0,
    )
  ]

  -- The fuel of the loop over result sets is enough: a round that goes on has awaited.
  pub collect_sets-Exhausts :
      (fuel : ℕ) (alloc : ℕ → ℕ) (i : ℕ) (sets : List (List (Row t))) (s : k.Conn) (n : ℕ)
      → n < fuel
      → Exhausts (collect_sets k fuel alloc i sets s n)
  unfolding collect_sets read_set
  collect_sets-Exhausts zero alloc i sets s n h = ground arith
  collect_sets-Exhausts (suc fuel) alloc i sets s n h =
      bind-Exhausts (find_rows k) _ s n (find_rows-Exhausts s n).0 (λ here e.
        elim (Bool-cases here) [
          | inr b ↦ rw (b) (λ h. ground arith)
          | inl b ↦
              let found = find_rows-Exhausts s n in
              let s' = (find_rows k s n).1 in
              let n' = (find_rows k s n).2 in
              let rows-done =
                read_rows-Exhausts n'
                  (with_result_index (from_metadata (alloc i) (k.get_metadata s')) i) [] s' in
              rw (b) (
                bind-Exhausts (read_set k alloc i) _ s' n' rows-done.0 (λ rows e'.
                  bind-Exhausts (call k k.advance_to_rows) _ _ _ (await-Exhausts _ _ _ _)
                    (λ more e''. elim (Bool-cases more) [
                      | inr b' ↦ rw (b') (λ h. ground arith)
                      | inl b' ↦ rw (b') (
                          collect_sets-Exhausts fuel alloc (i + 1) (sets ++ rows ∷ []) _ _
                            (lt_lem ((await-Spends _ _ _ _).1 more e'') rows-done.1 found.1 h))
                    ])))
        ])

  count_statement-Exhausts :
      (result : StatementResult) (counts : List ℕ) (s : k.Conn) (n : ℕ)
      → Exhausts (count_statement k result counts s n)
        × Spends n (count_statement k result counts s n)
  unfolding count_statement
  count_statement-Exhausts StatementResult.rows counts s n = (
    bind-Exhausts (count_rows k 0) _ s n (count_rows-Exhausts n 0 s).0
        (λ count e. λ h. ground arith),
    bind-Spends (count_rows k 0) _ s n (count_rows-Exhausts n 0 s).1 (λ count e. omega arith),
  )
  count_statement-Exhausts (StatementResult.no_rows (some count)) counts s n =
      (λ h. ground arith, omega arith)
  count_statement-Exhausts (StatementResult.no_rows none) counts s n =
      (λ h. ground arith, omega arith)
  count_statement-Exhausts StatementResult.end counts s n = (λ h. ground arith, omega arith)

  pub count_statements-Exhausts :
      (fuel : ℕ) (result : StatementResult) (counts : List ℕ) (s : k.Conn) (n : ℕ)
      → n < fuel
      → Exhausts (count_statements k fuel result counts s n)
  unfolding count_statements
  count_statements-Exhausts zero result counts s n h = ground arith
  count_statements-Exhausts (suc fuel) result counts s n h =
      bind-Exhausts (count_statement k result counts) _ s n
        (count_statement-Exhausts result counts s n).0
        (λ counted e. elim (Option-cases counted) [
          | inl b ↦ rw (b) (λ h. ground arith)
          | inr (counts', b) ↦ rw (b) (
              bind-Exhausts (call k k.advance) _ _ _ (await-Exhausts _ _ _ _) (λ result' e'.
                count_statements-Exhausts fuel result' counts' _ _ (
                  lt_lem ((await-Spends _ _ _ _).1 result' e')
                    (count_statement-Exhausts result counts s n).1 ≤-refl h)))
        ])
