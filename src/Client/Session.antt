-- ===== src/Client/Session.antt =====
-- client.rs and prepared.rs: session resets and the statements that they make stale.
use mssql_tiberius_bridge.Prelude.{
  ℕ, ◌≡◌, refl, sym, ◌∙◌, ◌≢◌, Bool, true, false, List, [], ◌∷◌, arith, if◌then◌else◌,
}
use mssql_tiberius_bridge.Driver.{Tds, SqlType}
use mssql_tiberius_bridge.Error.{Error, ok, err}
use mssql_tiberius_bridge.Task.{Task, Outcome, completed, ◌>>◌}
use mssql_tiberius_bridge.Connection.{Connection, HealthLaws}
use mssql_tiberius_bridge.Operation
use mssql_tiberius_bridge.Operation.{closed, guarded}
use mssql_tiberius_bridge.Prepared.{PreparedStatement, validate_session}
use mssql_tiberius_bridge.Client.{
  Client, ensure_usable, ping, simple_query, query, execute, prepare, check_statement,
  query_prepared, execute_prepared, unprepare, settle_reset, reset_session, reset_body,
}
use mssql_tiberius_bridge.Client.Safety.{Request, perform}

-- The statement belongs to another session than the client's.
abbrev IsStale : {S : Type 0} → PreparedStatement → Client S → Type 0
IsStale stmt c = c.prepared_session ≢ stmt.session

-- A reset allocates its session at an address that the statement, which still holds its own, does
-- not have.
abbrev AllocatesApart : {t : Tds} → PreparedStatement → Request t → Type 0
AllocatesApart stmt (Request.run_reset fresh) = fresh ≢ stmt.session
AllocatesApart stmt _ = Unit

module _ {t : Tds} (k : Connection t) where
  -- A reset gives the client the fresh session, whether or not it then succeeds, unless the
  -- connection was known dead: then the session stays.
  pub reset_session-prepared_session :
      (fresh : ℕ) (c : Client k.Conn) (n : ℕ)
      → (reset_session k fresh c n).1.prepared_session
        ≡ (if k.is_connection_dead c.inner then c.prepared_session else fresh)
  unfolding reset_session Operation.ensure_usable
  reset_session-prepared_session fresh c n = ground arith

  -- A reset that fails or is dropped leaves a dead connection, provided that the driver's
  -- `mark_connection_dead` marks the connection.
  pub reset_session-failed :
      (fresh : ℕ) (c : Client k.Conn) (n : ℕ)
      → HealthLaws k
      → (reset_session k fresh c n).0 ≢ completed (ok tt)
      → k.is_connection_dead (reset_session k fresh c n).1.inner ≡ true
  unfolding reset_session settle_reset Operation.ensure_usable
  reset_session-failed fresh c n laws h = ground (arith, laws.marked (reset_body k c.inner n).1)

  either_apart : (b : Bool) {x y z : ℕ} → x ≢ z → y ≢ z → (if b then x else y) ≢ z
  either_apart true p q = p
  either_apart false p q = q

  -- The outcomes of a statement's checks keep the session as the rest does.
  check_statement-session :
      {A : Type 0} (stmt : PreparedStatement) (rest : Task (Client k.Conn) A) (c : Client k.Conn)
      (n : ℕ)
      → (rest c n).1.prepared_session ≡ c.prepared_session
      → ((check_statement k stmt >> rest) c n).1.prepared_session ≡ c.prepared_session
  unfolding check_statement ensure_usable Operation.ensure_usable validate_session
  check_statement-session stmt rest c n h = ground arith

  -- The error with which a stale statement is refused, and the client as it was.
  unfoldable pub refused : {A : Type 0} → Client k.Conn → ℕ → Outcome A × Client k.Conn × ℕ
  refused c n = (
    completed
        (err (if k.is_connection_dead c.inner then closed else Error.invalid_prepared_statement)),
    c,
    n,
  )

  check_statement-stale :
      {A : Type 0} (stmt : PreparedStatement) (rest : Task (Client k.Conn) A) (c : Client k.Conn)
      (n : ℕ)
      → IsStale stmt c
      → (check_statement k stmt >> rest) c n ≡ refused c n
  unfolding check_statement ensure_usable Operation.ensure_usable validate_session refused
  check_statement-stale stmt rest c n h = ground arith

  module _ (alloc : ℕ → ℕ) where
    perform-prepared_session :
        (request : Request t) (stmt : PreparedStatement) (c : Client k.Conn) (n : ℕ)
        → AllocatesApart stmt request
        → IsStale stmt c
        → IsStale stmt (perform k alloc request c n).1
    unfolding perform simple_query query execute prepare query_prepared execute_prepared unprepare
        ping
    perform-prepared_session (Request.run_simple_query sql) stmt c n h stale = stale
    perform-prepared_session (Request.run_query sql []) stmt c n h stale = stale
    perform-prepared_session (Request.run_query sql (p ∷ ps)) stmt c n h stale = stale
    perform-prepared_session (Request.run_execute sql ps) stmt c n h stale = stale
    perform-prepared_session (Request.run_prepare sql ps) stmt c n h stale = stale
    perform-prepared_session (Request.run_query_prepared s ps) stmt c n h stale =
        λ e. stale (sym (check_statement-session s _ c n refl) ∙ e)
    perform-prepared_session (Request.run_execute_prepared s ps) stmt c n h stale =
        λ e. stale (sym (check_statement-session s _ c n refl) ∙ e)
    perform-prepared_session (Request.run_unprepare s) stmt c n h stale =
        λ e. stale (sym (check_statement-session s _ c n refl) ∙ e)
    perform-prepared_session (Request.run_reset fresh) stmt c n h stale = λ e.
        either_apart (k.is_connection_dead c.inner) stale h
          (sym (reset_session-prepared_session fresh c n) ∙ e)
    perform-prepared_session Request.run_ping stmt c n h stale = stale

    -- A history of requests on one client, each with the awaits it is given.
    unfoldable pub run : List (Request t × ℕ) → Client k.Conn → Client k.Conn
    run [] c = c
    run ((request, n) ∷ rest) c = run rest (perform k alloc request c n).1

    abbrev pub AllocateApart : PreparedStatement → List (Request t × ℕ) → Type 0
    AllocateApart stmt [] = Unit
    AllocateApart stmt ((request, n) ∷ rest) = AllocatesApart stmt request × AllocateApart stmt rest

    run-IsStale :
        (history : List (Request t × ℕ)) (stmt : PreparedStatement) (c : Client k.Conn)
        → AllocateApart stmt history
        → IsStale stmt c
        → IsStale stmt (run history c)
    unfolding run
    run-IsStale [] stmt c h stale = stale
    run-IsStale ((request, n) ∷ rest) stmt c h stale =
        run-IsStale rest stmt (perform k alloc request c n).1 h.1
          (perform-prepared_session request stmt c n h.0 stale)

    -- A statement whose session is not the client's stays stale whatever the client does
    -- afterwards, as long as no reset reuses its address: to query, execute or close it fails with
    -- `InvalidPreparedStatement`, or with `ConnectionClosed` where the connection is dead; no
    -- await is used, and the client and its connection are unchanged.
    pub stale_forever :
        (history : List (Request t × ℕ)) (stmt : PreparedStatement) (ps : List (SqlType t))
        (c : Client k.Conn) (n : ℕ)
        → AllocateApart stmt history
        → IsStale stmt c
        → (query_prepared k alloc stmt ps (run history c) n ≡ refused (run history c) n)
          × (execute_prepared k stmt ps (run history c) n ≡ refused (run history c) n)
          × (unprepare k stmt (run history c) n ≡ refused (run history c) n)
    unfolding query_prepared execute_prepared unprepare
    stale_forever history stmt ps c n h stale =
        let now = run-IsStale history stmt c h stale in
        (
          check_statement-stale stmt _ (run history c) n now,
          check_statement-stale stmt _ (run history c) n now,
          check_statement-stale stmt _ (run history c) n now,
        )
