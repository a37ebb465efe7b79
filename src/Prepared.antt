-- ===== src/Prepared.antt =====
-- src/prepared.rs: server-side prepared statements and their parameter declarations.
pub mod Declaration
pub mod Laws
use mssql_tiberius_bridge.Prelude.{
  ℕ, zero, suc, ◌==◌, Text, String, str, Bool, true, false, Option, none, some, List, [], ◌∷◌, ℤ,
  if◌then◌else◌,
}
use mssql_tiberius_bridge.Driver.{Tds, ColumnValues, SqlType}
use mssql_tiberius_bridge.Error.{Error, TdsError, Result, ok, err}
use mssql_tiberius_bridge.Query.Params.{RpcParameter}
use mssql_tiberius_bridge.Task.{
  Task, TdsResult, Outcome, completed, dropped, tds_ok, tds_err, return, await, gets, ◌>>=◌, ◌>>◌,
}
use mssql_tiberius_bridge.Connection.{Connection}
use Declaration.{parameter_declaration}

-- `session` is the address of the `Arc` that the client held when it prepared the statement.
pub record PreparedStatement : Type 0 where
  pub handle : ℤ
  pub sql : Text
  pub session : ℕ

unfoldable pub validate_session : PreparedStatement → ℕ → Result (Unit {0})
validate_session stmt session =
    if stmt.session == session then ok tt else err Error.invalid_prepared_statement

abbrev pub protocol_error : String → Error
protocol_error message = Error.tds (TdsError.protocol_error (str message))

module _ {t : Tds} where
  unfoldable pub handle_parameter : PreparedStatement → List (RpcParameter t)
  handle_parameter stmt =
      record { name = none; by_ref = false; value = SqlType.int (some stmt.handle) } ∷ []

  -- The parameters of `sp_prepare`: the output handle, the declaration and the text.
  pub prepare_parameters : Text → Text → List (RpcParameter t)
  prepare_parameters declaration sql =
      record { name = none; by_ref = true; value = SqlType.int none }
      ∷ record {
        name = none;
        by_ref = false;
        value = SqlType.n_varchar_max (some (t.from_utf8_string declaration));
      }
      ∷ record {
        name = none;
        by_ref = false;
        value = SqlType.n_varchar_max (some (t.from_utf8_string sql));
      }
      ∷ []

  -- The match on the returned output parameters.
  unfoldable pub handle_from_return_values :
      List (ColumnValues t) → Text → ℕ → Result PreparedStatement
  handle_from_return_values (ColumnValues.int handle ∷ []) sql session =
      ok (record { handle = handle; sql = sql; session = session })
  handle_from_return_values (value ∷ []) sql session =
      err (protocol_error "sp_prepare did not return an integer handle")
  handle_from_return_values _ sql session =
      err (protocol_error "sp_prepare did not return exactly one output parameter")

module _ {t : Tds} (k : Connection t) where
  abbrev call : {A : Type 0} → (k.Conn → TdsResult A × k.Conn) → Task k.Conn A
  call f = await k.interrupted f

  -- `while client.advance_to_rows().await.map_err(Error::Tds)? {}`: each round is one await.
  unfoldable pub skip_rows : Task k.Conn (Unit {0})
  skip_rows s zero = (dropped, k.interrupted s, zero)
  skip_rows s (suc n) =
      let (r, s') = k.advance_to_rows s in
      elim r [
        | tds_err e ↦ (completed (err (Error.tds e)), s', n)
        | tds_ok more ↦ elim more [ true ↦ skip_rows s' n | false ↦ (completed (ok tt), s', n) ]
      ]

  -- `PreparedStatement::prepare`.
  unfoldable pub prepare : Text → List (SqlType t) → Bool → ℕ → Task k.Conn PreparedStatement
  unfolding skip_rows handle_from_return_values prepare_parameters
  prepare sql param_types unicode session = do
    declaration ← return (parameter_declaration k param_types unicode)
    call (
        k.execute_stored_procedure (str "sp_prepare") (some (prepare_parameters declaration sql))
          none)
    skip_rows
    values ← gets k.get_return_values
    return (handle_from_return_values values sql session)
