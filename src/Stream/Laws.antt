-- ===== src/Stream/Laws.antt =====
-- client.rs `query_compat`: a poll that is dropped, and a poll on a dead connection.
use mssql_tiberius_bridge.Prelude.{
  ℕ, ◌+◌, ◌≡◌, ◌≢◌, refl, true, arith, Bool-cases, Option-cases, inl, inr,
}
use mssql_tiberius_bridge.Driver.{Tds}
use mssql_tiberius_bridge.Error.{ok, err}
use mssql_tiberius_bridge.Task.{Task, Outcome, completed, dropped, continue, ◌>>=◌, ◌>>◌}
use mssql_tiberius_bridge.Connection.{Connection, HealthLaws}
use mssql_tiberius_bridge.Operation.{closed, guarded}
use mssql_tiberius_bridge.Operation.Laws.{guarded-dead, guarded-dropped}
use mssql_tiberius_bridge.Client.{health, call}
use mssql_tiberius_bridge.Stream.{
  Position, advance_stream, find_set, seek, next_set, resume, send_query,
}

module _ {t : Tds} (k : Connection t) {A : Type 0} where
  -- A run that was dropped has left a dead connection.
  abbrev DropsDead : Outcome A × k.Conn × ℕ → Type 0
  DropsDead run = run.0 ≡ dropped → k.is_connection_dead run.1 ≡ true

module _ {t : Tds} (k : Connection t) {A B : Type 0} where
  continue-DropsDead :
      (r : Outcome A) (s : k.Conn) (n : ℕ) (f : A → Task k.Conn B)
      → (r ≡ dropped → k.is_connection_dead s ≡ true)
      → ((a : A) → DropsDead k (f a s n))
      → DropsDead k (continue r f s n)
  continue-DropsDead (completed (ok a)) s n f hm hf h = hf a h
  continue-DropsDead (completed (err e)) s n f hm hf h = ground arith
  continue-DropsDead dropped s n f hm hf h = hm refl

  bind-DropsDead :
      (m : Task k.Conn A) (f : A → Task k.Conn B) (s : k.Conn) (n : ℕ)
      → DropsDead k (m s n)
      → ((a : A) (s' : k.Conn) (n' : ℕ) → DropsDead k (f a s' n'))
      → DropsDead k ((m >>= f) s n)
  bind-DropsDead m f s n hm hf =
      continue-DropsDead (m s n).0 (m s n).1 (m s n).2 f hm (λ a. hf a (m s n).1 (m s n).2)

module _ {t : Tds} (k : Connection t) (laws : HealthLaws k) where
  guarded-DropsDead :
      {A : Type 0} (body : Task k.Conn A) (s : k.Conn) (n : ℕ)
      → DropsDead k (guarded (health k) body s n)
  guarded-DropsDead body s n = guarded-dropped (health k) body s n laws.marked

  find_set-DropsDead : (s : k.Conn) (n : ℕ) → DropsDead k (find_set k s n)
  unfolding find_set advance_stream
  find_set-DropsDead s n = elim (Bool-cases (k.on_rows s)) [
    | inl e ↦ rw (e) (λ h. ground arith)
    | inr e ↦ rw (e) (guarded-DropsDead (call k k.advance_to_rows) s n)
  ]

  module _ (alloc : ℕ → ℕ) where
    seek-DropsDead : (i : ℕ) (s : k.Conn) (n : ℕ) → DropsDead k (seek k alloc i s n)
    unfolding seek
    seek-DropsDead i s n =
        bind-DropsDead k (find_set k) _ s n (find_set-DropsDead s n) (λ here s' n'.
          elim (Bool-cases here) [
            | inl e ↦ rw (e) (λ h. ground arith)
            | inr e ↦ rw (e) (λ h. ground arith)
          ])

    next_set-DropsDead : (i : ℕ) (s : k.Conn) (n : ℕ) → DropsDead k (next_set k alloc i s n)
    unfolding next_set advance_stream
    next_set-DropsDead i s n =
        bind-DropsDead k (advance_stream k) _ s n (guarded-DropsDead (call k k.advance_to_rows) s n)
          (λ more s' n'. elim (Bool-cases more) [
            | inl e ↦ rw (e) (seek-DropsDead (i + 1) s' n')
            | inr e ↦ rw (e) (λ h. ground arith)
          ])

    -- Dropping a stream while it waits for its next item, wherever it was suspended before, leaves
    -- a dead connection, provided that the driver's `mark_connection_dead` marks the connection.
    pub resume-dropped :
        (p : Position t) (s : k.Conn) (n : ℕ)
        → (resume k alloc p s n).0 ≡ dropped
        → k.is_connection_dead (resume k alloc p s n).1 ≡ true
    unfolding resume
    resume-dropped (Position.start sql params) s n h =
        bind-DropsDead k (guarded (health k) (call k k.close_query >> send_query k sql params))
          (λ sent. seek k alloc 0) s n
          (guarded-DropsDead (call k k.close_query >> send_query k sql params) s n)
          (λ sent s' n'. seek-DropsDead 0 s' n') h
    resume-dropped (Position.reading w i) s n h =
        bind-DropsDead k (guarded (health k) (call k k.next_row_into)) _ s n
          (guarded-DropsDead (call k k.next_row_into) s n)
          (λ next s' n'. elim (Option-cases next) [
            | inl e ↦ rw (e) (next_set-DropsDead i s' n')
            | inr (cells, e) ↦ rw (e) (λ h. ground arith)
          ])
          h
    resume-dropped Position.finished s n h = ground arith

module _ {t : Tds} (k : Connection t) (alloc : ℕ → ℕ) where
  -- A stream on a connection that is known dead answers its next poll with `ConnectionClosed`,
  -- wherever it is suspended before its end; the connection does not change and no await is used.
  pub resume-dead :
      (p : Position t) (s : k.Conn) (n : ℕ)
      → p ≢ Position.finished
      → k.is_connection_dead s ≡ true
      → resume k alloc p s n ≡ (completed (err closed), s, n)
  unfolding resume
  resume-dead (Position.start sql params) s n h dead =
      rw (guarded-dead (health k) (call k k.close_query >> send_query k sql params) s n dead) refl
  resume-dead (Position.reading w i) s n h dead =
      rw (guarded-dead (health k) (call k k.next_row_into) s n dead) refl
  resume-dead Position.finished s n h dead = absurd (h refl)
