-- ===== src/Pool/Isolation.antt =====
-- pool.rs, client.rs and prepared.rs: what one borrower of a connection prepared and the next.
use mssql_tiberius_bridge.Prelude.{ℕ, ◌≡◌, ◌≢◌, Bool, sym, ◌∙◌, Text, List, arith}
use mssql_tiberius_bridge.Driver.{Tds, ColumnValues, SqlType}
use mssql_tiberius_bridge.Error.{ok}
use mssql_tiberius_bridge.Task.{Task, completed}
use mssql_tiberius_bridge.Connection.{Connection}
use mssql_tiberius_bridge.Operation
use mssql_tiberius_bridge.Operation.{guarded, settle}
use mssql_tiberius_bridge.Prepared
use mssql_tiberius_bridge.Prepared.{
  PreparedStatement, validate_session, handle_from_return_values, skip_rows,
}
use mssql_tiberius_bridge.Client.{
  Client, health, call, ensure_usable, reset_session, prepare, query_prepared, execute_prepared,
  unprepare,
}
use mssql_tiberius_bridge.Client.Safety.{Request}
use mssql_tiberius_bridge.Client.Session.{run, AllocateApart, refused, stale_forever}
use mssql_tiberius_bridge.Pool.{
  RecyclingMethod, TdsManager, Recycled, recycle_result, prepare_for_checkout, recycle,
}

handle-session :
    {t : Tds} (values : List (ColumnValues t)) (sql : Text) (session : ℕ) (stmt : PreparedStatement)
    → handle_from_return_values values sql session ≡ ok stmt
    → stmt.session ≡ session
unfolding handle_from_return_values
handle-session values sql session stmt h = ground arith

module _ {t : Tds} (k : Connection t) where
  guarded-ok :
      {A : Type 0} (body : Task k.Conn A) (s : k.Conn) (n : ℕ) (a : A)
      → (guarded (health k) body s n).0 ≡ completed (ok a)
      → (body s n).0 ≡ completed (ok a)
  unfolding guarded settle Operation.new Operation.ensure_usable Operation.complete
  guarded-ok body s n a h = ground arith

  sent-session :
      (sql : Text) (types : List (SqlType t)) (unicode : Bool) (session : ℕ) (s : k.Conn) (n : ℕ)
      (stmt : PreparedStatement)
      → (Prepared.prepare k sql types unicode session s n).0 ≡ completed (ok stmt)
      → stmt.session ≡ session
  unfolding Prepared.prepare
  sent-session sql types unicode session s n stmt h = grind (arith, handle-session)

  -- A statement belongs to the session of the client that prepared it.
  prepare-session :
      (sql : Text) (types : List (SqlType t)) (c : Client k.Conn) (n : ℕ) (stmt : PreparedStatement)
      → (prepare k sql types c n).0 ≡ completed (ok stmt)
      → stmt.session ≡ c.prepared_session
  unfolding prepare
  prepare-session sql types c n stmt h =
      let prepared = guarded-ok _ c.inner n stmt h in
      ground (
        arith,
        prepared,
        sent-session sql types c.send_string_parameters_as_unicode c.prepared_session
            (call k k.close_query c.inner n).1 (call k k.close_query c.inner n).2 stmt,
      )

module _ {t : Tds} (k : Connection t) {Config : Type 0} (manager : TdsManager Config) where
  recycle-reset :
      (fresh : ℕ) (conn : Client k.Conn) (n : ℕ)
      → manager.recycling_method ≡ RecyclingMethod.reset
      → (recycle k manager fresh conn n).0 ≡ Recycled.recycled
      → (recycle k manager fresh conn n).1.prepared_session ≡ fresh
  unfolding recycle recycle_result prepare_for_checkout ensure_usable reset_session
      Operation.ensure_usable
  recycle-reset fresh conn n h done = ground arith

  module _ (alloc : ℕ → ℕ) (sql : Text) (types : List (SqlType t)) (lent : Client k.Conn)
      (n : ℕ) where
    -- The client that prepared the statement, as its borrower returns it.
    abbrev pub returned : List (Request t × ℕ) → Client k.Conn
    returned first = run k alloc first (prepare k sql types lent n).1

    -- The client after its next borrower has used it.
    abbrev pub handed_on : List (Request t × ℕ) → List (Request t × ℕ) → ℕ → ℕ → Client k.Conn
    handed_on first second fresh n1 =
        run k alloc second (recycle k manager fresh (returned first) n1).1

    -- What one borrower of a connection prepared is good for that borrower and lost to the next. The
    -- statement passes the session check of the client that prepared it. After whatever the
    -- borrower does with the client then, and a checkout that reset the session and succeeded, and
    -- whatever the next borrower does with it, the statement is refused to query, to execute and to
    -- close: with `InvalidPreparedStatement`, or with `ConnectionClosed` where the connection is
    -- dead, with no await used and nothing changed. The checkout's session must not reuse the address
    -- of the first borrower's, which the statement still holds, and no later reset either.
    pub recycle-isolates :
        (first second : List (Request t × ℕ)) (stmt : PreparedStatement) (ps : List (SqlType t))
        (fresh n1 n2 : ℕ)
        → manager.recycling_method ≡ RecyclingMethod.reset
        → (prepare k sql types lent n).0 ≡ completed (ok stmt)
        → (recycle k manager fresh (returned first) n1).0 ≡ Recycled.recycled
        → fresh ≢ lent.prepared_session
        → AllocateApart k alloc stmt second
        → (validate_session stmt (prepare k sql types lent n).1.prepared_session ≡ ok tt)
          × (query_prepared k alloc stmt ps (handed_on first second fresh n1) n2
              ≡ refused k (handed_on first second fresh n1) n2)
          × (execute_prepared k stmt ps (handed_on first second fresh n1) n2
              ≡ refused k (handed_on first second fresh n1) n2)
          × (unprepare k stmt (handed_on first second fresh n1) n2
              ≡ refused k (handed_on first second fresh n1) n2)
    unfolding validate_session prepare
    recycle-isolates first second stmt ps fresh n1 n2 method prepared done apart h =
        let own = prepare-session k sql types lent n stmt prepared in
        let (q, e, u) =
          stale_forever k alloc second stmt ps (recycle k manager fresh (returned first) n1).1 n2 h
            (λ e. apart (sym (recycle-reset fresh (returned first) n1 method done) ∙ e ∙ own)) in
        (ground arith, q, e, u)
