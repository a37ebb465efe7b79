-- ===== src/Stream/Buffered.antt =====
-- compat.rs `into_results` and client.rs `collect_results`: the two loops over result sets agree from
-- the middle of a set on.
use mssql_tiberius_bridge.Prelude.{
  ℕ, zero, suc, ◌+◌, ◌<◌, ◌≡◌, refl, ap, ◌∙◌, true, false, Option, none, some, List, [], ◌∷◌, ◌++◌,
  arith, Bool-cases, inl, inr,
}
use mssql_tiberius_bridge.Driver.{Tds}
use mssql_tiberius_bridge.Error.{ok}
use mssql_tiberius_bridge.Row.Schema.{RowSchema, from_metadata}
use mssql_tiberius_bridge.Row.Cells.{Row}
use mssql_tiberius_bridge.Row.Writer.{BridgeRowWriter, with_result_index, take_row, write_all}
use mssql_tiberius_bridge.Task.{Task, return, await, ◌>>=◌}
use mssql_tiberius_bridge.Connection.{Connection}
use mssql_tiberius_bridge.Client.Fuel.{read_cases}
use mssql_tiberius_bridge.Client.{call, read_rows, find_rows, read_set, collect_sets}
use mssql_tiberius_bridge.Stream.{
  Position, advance_stream, find_set, seek, next_set, resume, suspend, poll_inner, collect_items,
}
use mssql_tiberius_bridge.Stream.Rounds.{
  UsableLaws, tds_cases, push_row-last, retired, guarded-retired, suspended, items_after,
  collect_items-suc,
}

module _ {t : Tds} (k : Connection t) (alloc : ℕ → ℕ) where
  -- The rest of a buffered collection, from the end of a set's rows and from the middle of them.
  pub rest_after : ℕ → ℕ → List (List (Row t)) → Task k.Conn (List (List (Row t)))
  rest_after fuel i sets = call k k.advance_to_rows >>= λ more. elim more [
    | true ↦ λ s' n'. collect_sets k fuel alloc (i + 1) sets s' n'
    | false ↦ return (ok sets)
  ]

  pub rest_from :
      ℕ
      → BridgeRowWriter t
      → ℕ
      → List (List (Row t))
      → List (Row t)
      → Task k.Conn (List (List (Row t)))
  unfolding rest_after
  rest_from fuel w i sets rows =
      read_rows k w rows >>= λ rows'. rest_after fuel i (sets ++ rows' ∷ [])

  -- From the middle of a set, with fewer awaits left than the bound, both collections agree.
  abbrev Agrees : ℕ → Type 0
  Agrees bound =
      (n f g i : ℕ) (w : BridgeRowWriter t) (c : Option RowSchema) (sets : List (List (Row t)))
      (rows : List (Row t)) (s : k.Conn)
      → n < bound
      → k.is_connection_dead s ≡ false
      → n < f
      → n < suc g
      → collect_items k alloc f (suspended (Position.reading w i) c) (sets ++ rows ∷ []) s n
        ≡ retired k (rest_from g w i sets rows s n)

  pub seek-Agrees :
      (bound n f g i : ℕ) (c : Option RowSchema) (sets : List (List (Row t))) (s : k.Conn)
      → UsableLaws k
      → Agrees bound
      → n < bound
      → k.is_connection_dead s ≡ false
      → n < f
      → n < suc g
      → items_after k alloc f c sets (suspend k alloc (seek k alloc i s n))
        ≡ retired k (collect_sets k (suc g) alloc i sets s n)
  unfolding seek find_set advance_stream items_after suspend collect_sets find_rows rest_from
      rest_after read_set await
  seek-Agrees bound n f g i c sets s laws ih lt alive hf hg = elim (Bool-cases (k.on_rows s)) [
    | inl e ↦
        let schema = from_metadata (alloc i) (k.get_metadata s) in
        rw (seek, find_set, find_rows, e)
          (ih n f g i (with_result_index schema i) (some schema) sets [] s lt alive hf hg)
    | inr e ↦ later n e lt hf hg
  ]
    where
      later :
          (n : ℕ)
          → k.on_rows s ≡ false
          → n < bound
          → n < f
          → n < suc g
          → items_after k alloc f c sets (suspend k alloc (seek k alloc i s n))
            ≡ retired k (collect_sets k (suc g) alloc i sets s n)
      later zero e lt hf hg =
          rw
            (
              seek,
              find_set,
              find_rows,
              e,
              advance_stream,
              guarded-retired k (call k k.advance_to_rows) s 0 alive,
            )
            refl
      later (suc m) e lt hf hg =
          rw
            (
              seek,
              find_set,
              find_rows,
              e,
              advance_stream,
              guarded-retired k (call k k.advance_to_rows) s (suc m) alive,
              call,
              await,
            )
            (elim (tds_cases (k.advance_to_rows s).0) [
              | inl (x, q) ↦ rw (q) refl
              | inr (inl q) ↦ rw (q) refl
              | inr (inr q) ↦
                  let s' = (k.advance_to_rows s).1 in
                  let schema = from_metadata (alloc i) (k.get_metadata s') in
                  rw (q) (
                    ih m f g i (with_result_index schema i) (some schema) sets [] s' (omega arith)
                      (laws.advancing s true s' alive (ap (λ r. (r, s')) q)) (omega arith)
                      (omega arith))
            ])

  -- After the last row of a set.
  next_set-Agrees :
      (bound n f g i : ℕ) (c : Option RowSchema) (sets : List (List (Row t))) (s : k.Conn)
      → UsableLaws k
      → Agrees bound
      → n < bound
      → k.is_connection_dead s ≡ false
      → n < f
      → n < suc g
      → items_after k alloc f c sets (suspend k alloc (next_set k alloc i s n))
        ≡ retired k (rest_after g i sets s n)
  unfolding next_set advance_stream items_after suspend rest_after await
  next_set-Agrees bound zero f g i c sets s laws ih lt alive hf hg =
      rw (guarded-retired k (call k k.advance_to_rows) s 0 alive) refl
  next_set-Agrees bound (suc m) f zero i c sets s laws ih lt alive hf hg = absurd (omega arith)
  next_set-Agrees bound (suc m) f (suc g) i c sets s laws ih lt alive hf hg =
      rw
        (
          next_set,
          advance_stream,
          guarded-retired k (call k k.advance_to_rows) s (suc m) alive,
          call,
          await,
        )
        (elim (tds_cases (k.advance_to_rows s).0) [
          | inl (x, q) ↦ rw (q) refl
          | inr (inl q) ↦ rw (q) refl
          | inr (inr q) ↦
              let s' = (k.advance_to_rows s).1 in
              rw (q) (
                seek-Agrees bound m f g (i + 1) c sets s' laws ih (omega arith)
                  (laws.advancing s true s' alive (ap (λ r. (r, s')) q)) (omega arith)
                  (omega arith))
        ])

  pub items-Agree : (bound : ℕ) → UsableLaws k → Agrees bound
  unfolding rest_from read_rows resume poll_inner items_after suspend await
  items-Agree zero laws n f g i w c sets rows s lt alive hf hg = absurd (omega arith)
  items-Agree (suc bound) laws n zero g i w c sets rows s lt alive hf hg = absurd (omega arith)
  items-Agree (suc bound) laws zero (suc f) g i w c sets rows s lt alive hf hg =
      collect_items-suc k alloc f (Position.reading w i) c (sets ++ rows ∷ []) s 0
      ∙ rw (guarded-retired k (call k k.next_row_into) s 0 alive) refl
  items-Agree (suc bound) laws (suc m) (suc f) g i w c sets rows s lt alive hf hg =
      collect_items-suc k alloc f (Position.reading w i) c (sets ++ rows ∷ []) s (suc m)
      ∙ rw
          (
            poll_inner,
            resume,
            guarded-retired k (call k k.next_row_into) s (suc m) alive,
            call,
            await,
          )
          (elim (read_cases (k.next_row_into s).0) [
            | inl (x, q) ↦ rw (read_rows, q) refl
            | inr (inl q) ↦
                let s' = (k.next_row_into s).1 in
                rw (read_rows, q)
                  (next_set-Agrees bound m f g i c (sets ++ rows ∷ []) s' laws
                    (items-Agree bound laws) (omega arith)
                    (laws.reading s none s' alive (ap (λ r. (r, s')) q)) (omega arith)
                    (omega arith))
            | inr (inr (cells, q)) ↦
                let s' = (k.next_row_into s).1 in
                let (r, w') = take_row (write_all w cells) in
                rw (read_rows, q, push_row-last sets rows (take_row (write_all w cells)).0)
                  (items-Agree bound laws m f g i w' c sets (rows ++ r ∷ []) s' (omega arith)
                    (laws.reading s (some cells) s' alive (ap (λ z. (z, s')) q)) (omega arith)
                    (omega arith))
          ])
