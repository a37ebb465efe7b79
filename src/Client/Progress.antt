-- ===== src/Client/Progress.antt =====
-- client.rs: an operation that is polled to the end completes.
use mssql_tiberius_bridge.Prelude.{
  ℕ, zero, suc, ◌≡◌, refl, Text, str, Bool, none, some, List, [], ◌∷◌, arith,
}
use mssql_tiberius_bridge.Driver.{Tds, SqlType}
use mssql_tiberius_bridge.Task.{Task, TdsResult, dropped, return, gets, modify, ◌>>=◌, ◌>>◌}
use mssql_tiberius_bridge.Connection.{Connection, StatementResult}
use mssql_tiberius_bridge.Operation
use mssql_tiberius_bridge.Operation.{ConnectionHealth, guarded, settle, complete, drop}
use mssql_tiberius_bridge.Prepared
use mssql_tiberius_bridge.Prepared.{
  PreparedStatement, skip_rows, handle_parameter, prepare_parameters, handle_from_return_values,
}
use mssql_tiberius_bridge.Prepared.Declaration.{parameter_declaration}
use mssql_tiberius_bridge.Client.{
  Client, health, ensure_usable, ping, simple_query, query, send_statement, execute, prepare,
  check_statement, rpc_parameters, query_prepared, execute_prepared, unprepare, settle_reset,
  reset_session, reset_body, call, collect_results, collect_execute_results,
}
use mssql_tiberius_bridge.Client.Fuel.{
  Exhausts, await-Exhausts, bind-Exhausts, collect_sets-Exhausts, count_statements-Exhausts,
}
use mssql_tiberius_bridge.Client.Safety.{Request, perform}
use mssql_tiberius_bridge.Query.Params.{build_params_with_string_encoding}

module _ {S A : Type 0} (health : ConnectionHealth S) where
  guarded-Exhausts :
      (body : Task S A) (s : S) (n : ℕ) → Exhausts (body s n) → Exhausts (guarded health body s n)
  unfolding guarded settle complete drop Operation.new Operation.ensure_usable
  guarded-Exhausts body s n h = ground (arith, h)

module _ {t : Tds} (k : Connection t) where
  call-Exhausts :
      {A : Type 0} (f : k.Conn → TdsResult A × k.Conn) (s : k.Conn) (n : ℕ)
      → Exhausts (call k f s n)
  call-Exhausts f s n = await-Exhausts k.interrupted f s n

  collect_results-Exhausts :
      (alloc : ℕ → ℕ) (s : k.Conn) (n : ℕ) → Exhausts (collect_results k alloc s n)
  unfolding collect_results
  collect_results-Exhausts alloc s n =
      ground (arith, collect_sets-Exhausts k (suc n) alloc 0 [] s n)

  collect_execute_results-Exhausts :
      (result : StatementResult) (s : k.Conn) (n : ℕ)
      → Exhausts (collect_execute_results k result s n)
  unfolding collect_execute_results
  collect_execute_results-Exhausts result s n =
      ground (arith, count_statements-Exhausts k (suc n) result [] s n)

  skip_rows-Exhausts : (n : ℕ) (s : k.Conn) → Exhausts (skip_rows k s n)
  unfolding skip_rows
  skip_rows-Exhausts zero s h = refl
  skip_rows-Exhausts (suc n) s h = ground (arith, skip_rows-Exhausts n (k.advance_to_rows s).1)

  -- Two calls one after the other, and what follows them.
  calls-Exhausts :
      {A B C : Type 0} (f : k.Conn → TdsResult A × k.Conn) (g : Task k.Conn B)
      (rest : B → Task k.Conn C) (s : k.Conn) (n : ℕ)
      → ((s' : k.Conn) (n' : ℕ) → Exhausts (g s' n'))
      → ((b : B) (s' : k.Conn) (n' : ℕ) → Exhausts (rest b s' n'))
      → Exhausts ((call k f >> (g >>= rest)) s n)
  calls-Exhausts f g rest s n hg hr =
      bind-Exhausts (call k f) (λ a. g >>= rest) s n (call-Exhausts f s n)
        (λ a e. bind-Exhausts g rest (call k f s n).1 (call k f s n).2 (hg _ _) (λ b e'. hr b _ _))

  send_statement-Exhausts :
      (sql : Text) (ps : List (SqlType t)) (u : Bool) (s : k.Conn) (n : ℕ)
      → Exhausts (send_statement k sql ps u s n)
  unfolding send_statement
  send_statement-Exhausts sql [] u s n = call-Exhausts _ s n
  send_statement-Exhausts sql (p ∷ ps) u s n = call-Exhausts _ s n

  prepare-Exhausts :
      (sql : Text) (ps : List (SqlType t)) (u : Bool) (session : ℕ) (s : k.Conn) (n : ℕ)
      → Exhausts (Prepared.prepare k sql ps u session s n)
  unfolding Prepared.prepare
  prepare-Exhausts sql ps u session s n =
      bind-Exhausts (return (parameter_declaration k ps u)) _ s n (λ h. ground arith)
        (λ declaration e.
          calls-Exhausts
            (k.execute_stored_procedure (str "sp_prepare")
              (some (prepare_parameters declaration sql)) none)
            (skip_rows k)
            (λ done. gets k.get_return_values >>= λ values.
              return (handle_from_return_values values sql session))
            s n (λ s' n'. skip_rows-Exhausts n' s') (λ b s' n' h. ground arith))

  check_statement-Exhausts :
      {A : Type 0} (stmt : PreparedStatement) (rest : Task (Client k.Conn) A) (c : Client k.Conn)
      (n : ℕ)
      → Exhausts (rest c n)
      → Exhausts ((check_statement k stmt >> rest) c n)
  unfolding check_statement ensure_usable Operation.ensure_usable Prepared.validate_session
  check_statement-Exhausts stmt rest c n h = ground (arith, h)

  reset_body-Exhausts : (s : k.Conn) (n : ℕ) → Exhausts (reset_body k s n)
  unfolding reset_body
  reset_body-Exhausts s n =
      calls-Exhausts k.close_query (modify k.prepare_reset_connection)
        (λ done.
          call k (k.execute (str "SET TRANSACTION ISOLATION LEVEL READ COMMITTED")) >>= λ result.
          call k k.close_query)
        s n (λ s' n' h. ground arith)
        (λ done s' n'.
          bind-Exhausts (call k (k.execute (str "SET TRANSACTION ISOLATION LEVEL READ COMMITTED")))
            (λ result. call k k.close_query) s' n'
            (call-Exhausts (k.execute (str "SET TRANSACTION ISOLATION LEVEL READ COMMITTED")) s' n')
            (λ result e. call-Exhausts k.close_query _ _))

  module _ (alloc : ℕ → ℕ) where
    -- Close the last query, send the statement, collect the rows.
    collected-Exhausts :
        (f : k.Conn → TdsResult StatementResult × k.Conn) (s : k.Conn) (n : ℕ)
        → Exhausts ((call k k.close_query >> (call k f >> collect_results k alloc)) s n)
    collected-Exhausts f s n =
        calls-Exhausts k.close_query (call k f) (λ result. collect_results k alloc) s n
          (call-Exhausts f) (λ b. collect_results-Exhausts alloc)

    counted-Exhausts :
        (send : Task k.Conn StatementResult) (s : k.Conn) (n : ℕ)
        → ((s' : k.Conn) (n' : ℕ) → Exhausts (send s' n'))
        → Exhausts ((call k k.close_query >> (send >>= collect_execute_results k)) s n)
    counted-Exhausts send s n h =
        calls-Exhausts k.close_query send (collect_execute_results k) s n h
          collect_execute_results-Exhausts

    -- An operation is dropped only where the caller stops polling it: a run that still has awaits
    -- left when it ends has completed, with a result or an error.
    pub perform-completed :
        (request : Request t) (c : Client k.Conn) (n : ℕ)
        → (perform k alloc request c n).0 ≡ dropped
        → (perform k alloc request c n).2 ≡ 0
    unfolding perform simple_query query execute prepare query_prepared execute_prepared unprepare
        reset_session settle_reset ping
    perform-completed (Request.run_simple_query sql) c n h =
        guarded-Exhausts (health k) _ c.inner n (collected-Exhausts (k.execute sql) c.inner n) h
    perform-completed (Request.run_query sql []) c n h =
        guarded-Exhausts (health k) _ c.inner n (collected-Exhausts (k.execute sql) c.inner n) h
    perform-completed (Request.run_query sql (p ∷ ps)) c n h =
        guarded-Exhausts (health k) _ c.inner n
          (collected-Exhausts
            (k.execute_sp_executesql sql
              (build_params_with_string_encoding (p ∷ ps) c.send_string_parameters_as_unicode))
            c.inner n)
          h
    perform-completed (Request.run_execute sql ps) c n h =
        guarded-Exhausts (health k) _ c.inner n
          (counted-Exhausts (send_statement k sql ps c.send_string_parameters_as_unicode) c.inner n
            (send_statement-Exhausts sql ps c.send_string_parameters_as_unicode))
          h
    perform-completed (Request.run_prepare sql ps) c n h =
        guarded-Exhausts (health k) _ c.inner n
          (bind-Exhausts (call k k.close_query)
            (λ done.
              Prepared.prepare k sql ps c.send_string_parameters_as_unicode c.prepared_session)
            c.inner n (call-Exhausts k.close_query c.inner n)
            (λ done e. prepare-Exhausts sql ps _ c.prepared_session _ _))
          h
    perform-completed (Request.run_query_prepared stmt ps) c n h =
        check_statement-Exhausts stmt _ c n
          (guarded-Exhausts (health k) _ c.inner n (
            collected-Exhausts
              (k.execute_stored_procedure (str "sp_execute") (some (handle_parameter stmt))
                (rpc_parameters k ps c.send_string_parameters_as_unicode))
              c.inner n))
          h
    perform-completed (Request.run_execute_prepared stmt ps) c n h =
        check_statement-Exhausts stmt _ c n
          (guarded-Exhausts (health k) _ c.inner n (
            counted-Exhausts
              (call k (
                k.execute_stored_procedure (str "sp_execute") (some (handle_parameter stmt))
                  (rpc_parameters k ps c.send_string_parameters_as_unicode)))
              c.inner n (call-Exhausts _)))
          h
    perform-completed (Request.run_unprepare stmt) c n h =
        check_statement-Exhausts stmt _ c n
          (guarded-Exhausts (health k) _ c.inner n (
            calls-Exhausts k.close_query
              (call k (
                k.execute_stored_procedure (str "sp_unprepare") (some (handle_parameter stmt))
                  none))
              (λ result. call k k.close_query) c.inner n (call-Exhausts _)
              (λ result. call-Exhausts k.close_query)))
          h
    perform-completed (Request.run_reset fresh) c n h =
        ground (arith, reset_body-Exhausts c.inner n)
    perform-completed Request.run_ping c n h = ground arith
