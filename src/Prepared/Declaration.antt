-- ===== src/Prepared/Declaration.antt =====
-- src/prepared.rs: how a statement's parameters are declared to `sp_prepare`.
use mssql_tiberius_bridge.Prelude.{
  ℕ, suc, Text, str, Bool, false, Option, none, some, map_option, unwrap_or, is_empty, List, [],
  ◌∷◌, ◌++◌, ltb, ◌==◌, if◌then◌else◌, to_decimal,
}
use mssql_tiberius_bridge.Driver.{Tds, SqlType, SqlTime, TableTypeName, UdtTypeName}
use mssql_tiberius_bridge.Error.{Result, ok, ◌>>=◌}
use mssql_tiberius_bridge.Query.Params.{param_name}
use mssql_tiberius_bridge.Task.{map_err}
use mssql_tiberius_bridge.Connection.{Connection}

-- `identifier.replace(']', "]]")`.
unfoldable pub double_brackets : Text → Text
double_brackets [] = []
double_brackets (c ∷ s) =
    let rest = double_brackets s in if c == b']' then b']' ∷ b']' ∷ rest else c ∷ rest

unfoldable pub quote_identifier : Text → Text
unfolding double_brackets
quote_identifier identifier = b'[' ∷ (double_brackets identifier ++ b']' ∷ [])

-- `parts.join(separator)`.
unfoldable pub join : Text → List Text → Text
join separator [] = []
join separator (p ∷ []) = p
join separator (p ∷ q ∷ ps) = p ++ (separator ++ join separator (q ∷ ps))

-- `name.as_deref().filter(|part| !part.is_empty())`.
unfoldable non_empty : Option Text → Option Text
non_empty none = none
non_empty (some part) = if is_empty part then none else some part

unfoldable pub table_declaration : TableTypeName → Text
unfolding quote_identifier
table_declaration name =
    quote_identifier (unwrap_or (str "dbo") name.schema_name)
    ++ (str "." ++ (quote_identifier name.type_name ++ str " READONLY"))

-- The parts of a CLR type's name: an empty schema keeps its place behind a database.
unfoldable udt_parts : Option Text → Option Text → Text → List Text
unfolding quote_identifier
udt_parts (some db) (some schema) type_name =
    quote_identifier db ∷ quote_identifier schema ∷ quote_identifier type_name ∷ []
udt_parts (some db) none type_name = quote_identifier db ∷ [] ∷ quote_identifier type_name ∷ []
udt_parts none (some schema) type_name = quote_identifier schema ∷ quote_identifier type_name ∷ []
udt_parts none none type_name = quote_identifier type_name ∷ []

unfoldable udt_declaration : UdtTypeName → Text
unfolding udt_parts join non_empty
udt_declaration name =
    join (str ".") (udt_parts (non_empty name.db_name) (non_empty name.schema_name) name.type_name)

abbrev scale_suffix : {A : Type 0} → ℕ → (A → SqlTime) → Option A → Text
scale_suffix default time value =
    to_decimal (unwrap_or default (map_option (λ v. (time v).scale) value))

abbrev decimal_suffix : (t : Tds) → Option t.DecimalParts → Text
decimal_suffix t none = str "18,10"
decimal_suffix t (some parts) =
    to_decimal (t.decimal_precision parts) ++ (str "," ++ to_decimal (t.decimal_scale parts))

abbrev sized : ℕ → ℕ → Text
sized limit len = if ltb limit len then str "MAX" else to_decimal len

abbrev with_suffix : Text → Option Text → Text
with_suffix name none = name
with_suffix name (some s) = name ++ (str "(" ++ (s ++ str ")"))

module _ {t : Tds} where
  -- The match that gives the suffix; `none` is the arm that returns the bare name.
  unfoldable suffix : SqlType t → Option Text
  suffix (SqlType.n_varchar_max _) = some (str "MAX")
  suffix (SqlType.varchar_max _) = some (str "MAX")
  suffix (SqlType.var_binary_max _) = some (str "MAX")
  suffix (SqlType.n_varchar _ len) = some (sized 4000 len)
  suffix (SqlType.varchar _ len) = some (sized 8000 len)
  suffix (SqlType.var_binary _ len) = some (sized 8000 len)
  suffix (SqlType.binary _ len) = some (to_decimal len)
  suffix (SqlType.char _ len) = some (to_decimal len)
  suffix (SqlType.n_char _ len) = some (to_decimal len)
  suffix (SqlType.decimal parts) = some (decimal_suffix t parts)
  suffix (SqlType.numeric parts) = some (decimal_suffix t parts)
  suffix (SqlType.time value) = some (scale_suffix t.default_vartime_scale (λ v. v) value)
  suffix (SqlType.date_time2 value) =
      some (scale_suffix t.default_vartime_scale (λ v. v.time) value)
  suffix (SqlType.date_time_offset value) =
      some (scale_suffix t.default_vartime_scale (λ v. v.datetime2.time) value)
  suffix (SqlType.vector _ dimensions base) = some (
      if t.is_float16 base then to_decimal dimensions ++ str ", float16" else to_decimal dimensions)
  suffix _ = none

  -- The closure's match on the value and the choice of the encoding.
  unfoldable pub declared_value : SqlType t → Bool → SqlType t
  declared_value (SqlType.n_varchar value len) false = SqlType.varchar value len
  declared_value (SqlType.n_varchar_max value) false = SqlType.varchar_max value
  declared_value value _ = value

  module _ (k : Connection t) where
    named_declaration : SqlType t → Result Text
    unfolding suffix
    named_declaration value = do
      name ← map_err (k.get_meta_type_name value)
      ok (with_suffix name (suffix value))

    -- `PreparedStatement::sql_declaration`.
    unfoldable pub sql_declaration : SqlType t → Result Text
    unfolding table_declaration udt_declaration named_declaration
    sql_declaration (SqlType.table name _) = ok (table_declaration name)
    sql_declaration (SqlType.udt name _) = ok (udt_declaration name)
    sql_declaration value = named_declaration value

    unfoldable pub declarations_from : ℕ → List (SqlType t) → Bool → Result (List Text)
    unfolding sql_declaration param_name declared_value
    declarations_from index [] unicode = ok []
    declarations_from index (p ∷ ps) unicode = do
      declaration ← sql_declaration (declared_value p unicode)
      rest ← declarations_from (suc index) ps unicode
      ok ((param_name index ++ (str " " ++ declaration)) ∷ rest)

    -- `PreparedStatement::parameter_declaration`.
    unfoldable pub parameter_declaration : List (SqlType t) → Bool → Result Text
    unfolding declarations_from join
    parameter_declaration params unicode = do
      declarations ← declarations_from 0 params unicode
      ok (join (str ", ") declarations)
