-- ===== src/Query/Params.antt =====
-- src/query.rs: positional RPC parameters.
use mssql_tiberius_bridge.Prelude.{
  ℕ, suc, ◌+◌, Text, str, Bool, true, false, Option, some, List, [], ◌∷◌, ◌++◌, to_decimal,
}
use mssql_tiberius_bridge.Driver.{Tds, SqlType}

-- `RpcParameter` with its status flag.
pub record RpcParameter (t : Tds) : Type 0 where
  pub name : Option Text
  pub by_ref : Bool
  pub value : SqlType t

-- `format!("@P{}", index + 1)`.
unfoldable pub param_name : ℕ → Text
param_name index = str "@P" ++ to_decimal (index + 1)

module _ {t : Tds} where
  -- `encode_string_parameters`.
  unfoldable pub encode_string_parameters : SqlType t → Bool → SqlType t
  encode_string_parameters sql_type true = sql_type
  encode_string_parameters (SqlType.n_varchar value len) false = SqlType.varchar value len
  encode_string_parameters (SqlType.n_varchar_max value) false = SqlType.varchar_max value
  encode_string_parameters sql_type false = sql_type

  -- The closure of `build_params_with_string_encoding`.
  unfoldable pub build_param : ℕ → SqlType t → Bool → RpcParameter t
  unfolding param_name encode_string_parameters
  build_param index sql_type unicode = record {
    name = some (param_name index);
    by_ref = false;
    value = encode_string_parameters sql_type unicode;
  }

  unfoldable pub build_params_from : ℕ → List (SqlType t) → Bool → List (RpcParameter t)
  unfolding build_param
  build_params_from index [] unicode = []
  build_params_from index (p ∷ ps) unicode =
      build_param index p unicode ∷ build_params_from (suc index) ps unicode

  -- `build_params_with_string_encoding`, over what `to_sql` made of the parameters.
  unfoldable pub build_params_with_string_encoding : List (SqlType t) → Bool → List (RpcParameter t)
  unfolding build_params_from
  build_params_with_string_encoding params unicode = build_params_from 0 params unicode

  -- `build_params`.
  unfoldable build_params : List (SqlType t) → List (RpcParameter t)
  unfolding build_params_with_string_encoding
  build_params params = build_params_with_string_encoding params true
