-- ===== src/Stream/Collected.antt =====
-- compat.rs `into_results` and client.rs `query`: a stream that is collected gives what the buffered
-- query gives.
use mssql_tiberius_bridge.Prelude.{
  ℕ, zero, suc, ◌≡◌, ◌⊎◌, refl, ap, ◌∙◌, Text, false, Option, none, some, List, [], ◌∷◌, arith,
  Bool-cases, inl, inr,
}
use mssql_tiberius_bridge.Driver.{Tds, SqlType}
use mssql_tiberius_bridge.Error.{TdsError, ok, err}
use mssql_tiberius_bridge.Query.Results.{QueryResult}
use mssql_tiberius_bridge.Row.Cells.{Row}
use mssql_tiberius_bridge.Task.{
  TdsResult, tds_ok, tds_err, Outcome, completed, dropped, return, continue, await, ◌>>◌,
}
use mssql_tiberius_bridge.Connection.{Connection, StatementResult}
use mssql_tiberius_bridge.Query.Params.{RpcParameter, build_params_with_string_encoding}
use mssql_tiberius_bridge.Operation.{guarded}
use mssql_tiberius_bridge.Client.{Client, health, call, collect_sets, collect_results, query}
use mssql_tiberius_bridge.Stream.{
  Position, seek, resume, suspend, poll_inner, send_query, into_results, query_compat,
}
use mssql_tiberius_bridge.Stream.Buffered.{seek-Agrees, items-Agree}
use mssql_tiberius_bridge.Stream.Rounds.{
  UsableLaws, retired, guarded-retired, items_after, collect_items-suc,
}
use mssql_tiberius_bridge.Operation.Laws.{guarded-dead}
use mssql_tiberius_bridge.Client.{rpc_parameters, simple_query}

-- The result sets of a buffered query.
abbrev pub sets_of : {t : Tds} → Outcome (QueryResult (Row t)) → Outcome (List (List (Row t)))
sets_of (completed (ok r)) = completed (ok r.result_sets)
sets_of (completed (err e)) = completed (err e)
sets_of dropped = dropped

unit_cases : (r : TdsResult (Unit {0})) → ((e : TdsError) × (r ≡ tds_err e)) ⊎ (r ≡ tds_ok tt)
unit_cases (tds_err e) = inl (e, refl)
unit_cases (tds_ok tt) = inr refl

sent_cases :
    {A : Type 0} (r : TdsResult A) → ((e : TdsError) × (r ≡ tds_err e)) ⊎ ((a : A) × (r ≡ tds_ok a))
sent_cases (tds_err e) = inl (e, refl)
sent_cases (tds_ok a) = inr (a, refl)

module _ {t : Tds} (k : Connection t) (alloc : ℕ → ℕ) where
  abbrev with_sets :
      Outcome (QueryResult (Row t)) × k.Conn × ℕ → Outcome (List (List (Row t))) × k.Conn × ℕ
  with_sets (o, s, n) = (sets_of o, s, n)

  with_sets-collect_results :
      (o : Outcome (List (List (Row t)))) (s : k.Conn) (n : ℕ)
      → retired k (o, s, n)
        ≡ with_sets
            (retired k (continue o (λ sets. return (ok (record { result_sets = sets }))) s n))
  with_sets-collect_results (completed (ok sets)) s n = refl
  with_sets-collect_results (completed (err e)) s n = refl
  with_sets-collect_results dropped s n = refl

  sent-Agree :
      (send : k.Conn → TdsResult StatementResult × k.Conn) (s : k.Conn) (n : ℕ)
      → UsableLaws k
      → ((s : k.Conn) (r : StatementResult) (s' : k.Conn)
          → k.is_connection_dead s ≡ false
          → send s ≡ (tds_ok r, s')
          → k.is_connection_dead s' ≡ false)
      → k.is_connection_dead s ≡ false
      → items_after k alloc (suc n) none [] (
          suspend k alloc
            ((guarded (health k) (call k k.close_query >> call k send) >> seek k alloc 0) s n))
        ≡ with_sets (
            guarded
              (health k)
              (call k k.close_query >> (call k send >> collect_results k alloc))
              s
              n)
  unfolding items_after suspend await collect_results
  sent-Agree send s zero laws usable alive =
      rw
        (
          guarded-retired k (call k k.close_query >> call k send) s 0 alive,
          guarded-retired k (call k k.close_query >> (call k send >> collect_results k alloc)) s 0
              alive,
        )
        refl
  sent-Agree send s (suc zero) laws usable alive =
      rw
        (
          guarded-retired k (call k k.close_query >> call k send) s 1 alive,
          guarded-retired k (call k k.close_query >> (call k send >> collect_results k alloc)) s 1
              alive,
          call,
          await,
        )
        (elim (unit_cases (k.close_query s).0) [ inl (x, q) ↦ rw (q) refl | inr q ↦ rw (q) refl ])
  sent-Agree send s (suc (suc m)) laws usable alive =
      rw
        (
          guarded-retired k (call k k.close_query >> call k send) s (suc (suc m)) alive,
          guarded-retired k (call k k.close_query >> (call k send >> collect_results k alloc)) s
              (suc (suc m)) alive,
          call,
          await,
        )
        (elim (unit_cases (k.close_query s).0) [
          | inl (x, q) ↦ rw (q) refl
          | inr q ↦
              let s' = (k.close_query s).1 in
              let alive' = laws.closing s s' alive (ap (λ r. (r, s')) q) in
              elim (sent_cases (send s').0) [
                | inl (x, q') ↦ rw (q, q') refl
                | inr (r, q') ↦
                    let s'' = (send s').1 in
                    let collected = collect_sets k (suc m) alloc 0 [] s'' m in
                    rw (q, q')
                      (seek-Agrees k alloc (suc m) m (suc (suc (suc m))) m 0 none [] s'' laws
                          (items-Agree k alloc (suc m) laws) (omega arith)
                          (usable s' r s'' alive' (ap (λ z. (z, s'')) q')) (omega arith)
                          (omega arith)
                        ∙ with_sets-collect_results collected.0 collected.1 collected.2)
              ]
        ])

  into_results-Agree :
      (send : k.Conn → TdsResult StatementResult × k.Conn) (sql : Text)
      (params : Option (List (RpcParameter t))) (s : k.Conn) (n : ℕ)
      → UsableLaws k
      → ((s : k.Conn) (r : StatementResult) (s' : k.Conn)
          → k.is_connection_dead s ≡ false
          → send s ≡ (tds_ok r, s')
          → k.is_connection_dead s' ≡ false)
      → send_query k sql params ≡ call k send
      → into_results k alloc
          (record { inner = Position.start sql params; peeked = none; columns = none })
          s
          n
        ≡ with_sets (
            guarded
              (health k)
              (call k k.close_query >> (call k send >> collect_results k alloc))
              s
              n)
  unfolding into_results poll_inner resume items_after suspend
  into_results-Agree send sql params s n laws usable same =
      collect_items-suc k alloc (suc n) (Position.start sql params) none [] s n
      ∙ rw (poll_inner, resume, same)
          (elim (Bool-cases (k.is_connection_dead s)) [
            | inl dead ↦
                rw
                  (
                    guarded-dead (health k) (call k k.close_query >> call k send) s n dead,
                    guarded-dead (health k)
                        (call k k.close_query >> (call k send >> collect_results k alloc)) s n dead,
                    suspend,
                    items_after,
                  )
                  refl
            | inr alive ↦ sent-Agree send s n laws usable alive
          ])

  -- Collecting a streamed query and running the buffered one are the same: the same result sets or
  -- error, the same state of the connection and the same awaits used, with and without parameters,
  -- on a dead connection, and wherever the caller stops polling. The driver must keep a usable
  -- connection usable in calls that succeed.
  pub into_results-query_compat :
      (sql : Text) (params : List (SqlType t)) (c : Client k.Conn) (n : ℕ)
      → UsableLaws k
      → into_results k alloc (query_compat k c sql params) c.inner n ≡ (
        sets_of (query k alloc sql params c n).0,
        (query k alloc sql params c n).1.inner,
        (query k alloc sql params c n).2,
      )
  unfolding query_compat query simple_query rpc_parameters send_query
  into_results-query_compat sql [] c n laws =
      into_results-Agree (k.execute sql) sql none c.inner n laws (laws.executing sql) refl
  into_results-query_compat sql (p ∷ ps) c n laws =
      into_results-Agree
        (k.execute_sp_executesql sql
          (build_params_with_string_encoding (p ∷ ps) c.send_string_parameters_as_unicode))
        sql (some (build_params_with_string_encoding (p ∷ ps) c.send_string_parameters_as_unicode))
        c.inner n laws
        (laws.executing_rpc sql
          (build_params_with_string_encoding (p ∷ ps) c.send_string_parameters_as_unicode))
        refl
