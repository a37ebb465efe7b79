-- ===== src/Prepared/Laws.antt =====
-- prepared.rs: what the server reads in the declarations that are sent to it.
use mathlib.Core.List.{append_assoc}
use mssql_tiberius_bridge.Prelude.{
  ℕ, suc, ◌≡◌, refl, ap, ◌∙◌, sym, Text, str, Bool, true, false, Option, none, some, List, [], ◌∷◌,
  ◌++◌, ◌==◌, ==_iff, if◌then◌else◌, arith, Bool-cases, inl, inr, unwrap_or, bind_option,
}
use mssql_tiberius_bridge.Driver.{Tds, SqlType, TableTypeName}
use mssql_tiberius_bridge.Error.{Result, ok, err, map_result, ◌>>=◌}
use mssql_tiberius_bridge.Query.Params.{
  RpcParameter, build_param, build_params_from, build_params_with_string_encoding,
  encode_string_parameters,
}
use mssql_tiberius_bridge.Connection.{Connection}
use mssql_tiberius_bridge.Prepared.Declaration.{
  declared_value, double_brackets, quote_identifier, table_declaration, sql_declaration,
  declarations_from, parameter_declaration, join,
}

abbrev cons : ℕ → Option (Text × Text) → Option (Text × Text)
cons c none = none
cons c (some (s, rest)) = some (c ∷ s, rest)

-- Transact-SQL reads a delimited identifier up to the first bracket that is not doubled. The text
-- starts behind the opening bracket; the result is the identifier and what follows it.
unfoldable read_to_bracket : Text → Option (Text × Text)
read_to_bracket [] = none
read_to_bracket (c ∷ []) = if c == b']' then some ([], []) else none
read_to_bracket (c ∷ d ∷ s) =
    let doubled = read_to_bracket s in
    let next = read_to_bracket (d ∷ s) in
    if c == b']' then (if d == b']' then cons c doubled else some ([], d ∷ s)) else cons c next

pub read_identifier : Text → Option (Text × Text)
unfolding read_to_bracket
read_identifier [] = none
read_identifier (c ∷ s) = if c == b'[' then read_to_bracket s else none

-- The text does not go on with a closing bracket.
abbrev EndsIdentifier : Text → Type 0
EndsIdentifier [] = Unit
EndsIdentifier (c ∷ s) = (c == b']') ≡ false

read_to_bracket-other :
    (c : ℕ) (s : Text) → (c == b']') ≡ false → read_to_bracket (c ∷ s) ≡ cons c (read_to_bracket s)
unfolding read_to_bracket
read_to_bracket-other c [] h = rw (h) refl
read_to_bracket-other c (d ∷ s) h = rw (h) refl

read_to_bracket-doubled :
    (c : ℕ) (s : Text)
    → (c == b']') ≡ true
    → read_to_bracket (b']' ∷ b']' ∷ s) ≡ cons c (read_to_bracket s)
unfolding read_to_bracket
read_to_bracket-doubled c s h = ap (λ x. cons x (read_to_bracket s)) (sym ((==_iff c b']').0 h))

read_to_bracket-end :
    (rest : Text) → EndsIdentifier rest → read_to_bracket (b']' ∷ rest) ≡ some ([], rest)
unfolding read_to_bracket
read_to_bracket-end [] h = refl
read_to_bracket-end (c ∷ s) h = rw (h) refl

read-double_brackets :
    (s rest : Text)
    → EndsIdentifier rest
    → read_to_bracket (double_brackets s ++ (b']' ∷ rest)) ≡ some (s, rest)
unfolding double_brackets
read-double_brackets [] rest h = read_to_bracket-end rest h
read-double_brackets (c ∷ s) rest h = elim (Bool-cases (c == b']')) [
  | inl e ↦
      rw (double_brackets, e)
        (read_to_bracket-doubled c (double_brackets s ++ (b']' ∷ rest)) e
          ∙ ap (cons c) (read-double_brackets s rest h))
  | inr e ↦
      rw (double_brackets, e)
        (read_to_bracket-other c (double_brackets s ++ (b']' ∷ rest)) e
          ∙ ap (cons c) (read-double_brackets s rest h))
]

-- Whatever characters an identifier has, brackets included, the server reads a quoted identifier
-- back as exactly that identifier, and what follows it is left as it was.
pub read_identifier-quote_identifier :
    (identifier rest : Text)
    → EndsIdentifier rest
    → read_identifier (quote_identifier identifier ++ rest) ≡ some (identifier, rest)
unfolding read_identifier quote_identifier
read_identifier-quote_identifier identifier rest h =
    ap read_to_bracket (append_assoc (double_brackets identifier) (b']' ∷ []) rest)
    ∙ read-double_brackets identifier rest h

-- The name of a table type as the server reads it: two identifiers, a period between them, and
-- `READONLY` behind them.
pub read_table_name : Text → Option (Text × Text × Text)
unfolding read_identifier
read_table_name s = bind_option (read_identifier s) (λ (schema, rest). elim rest [
  | [] ↦ none
  | c ∷ rest' ↦
      if c == b'.'
      then bind_option (read_identifier rest') (λ (name, end). some (schema, name, end))
      else none
])

read_table_name-quoted :
    (schema name end : Text)
    → EndsIdentifier end
    → read_table_name (quote_identifier schema ++ (b'.' ∷ (quote_identifier name ++ end)))
      ≡ some (schema, name, end)
unfolding read_table_name
read_table_name-quoted schema name end h =
    rw
      (
        read_identifier-quote_identifier schema (b'.' ∷ (quote_identifier name ++ end)) refl,
        read_identifier-quote_identifier name end h,
      )
      refl

-- A table-valued parameter is declared with its own type, in `dbo` where no schema is given, for any
-- names: no character of a name ends the declaration early.
pub read_table_name-table_declaration :
    (name : TableTypeName)
    → read_table_name (table_declaration name)
      ≡ some (unwrap_or (str "dbo") name.schema_name, name.type_name, str " READONLY")
unfolding read_table_name table_declaration
read_table_name-table_declaration name =
    read_table_name-quoted (unwrap_or (str "dbo") name.schema_name) name.type_name (str " READONLY")
      refl

bind-bind :
    {A B C : Type 0} (r : Result A) (f : A → B) (g : B → Result C)
    → (r >>= λ a. g (f a)) ≡ ((r >>= λ a. ok (f a)) >>= g)
bind-bind (ok a) f g = refl
bind-bind (err e) f g = refl

bind-ok : {A B : Type 0} (r : Result A) (f : A → B) → (r >>= λ a. ok (f a)) ≡ map_result f r
bind-ok (ok a) f = refl
bind-ok (err e) f = refl

module _ {t : Tds} (k : Connection t) where
  -- What a parameter that is sent has to be declared as.
  unfoldable declare : RpcParameter t → Result Text
  declare p = do
    declaration ← sql_declaration k p.value
    ok (unwrap_or [] p.name ++ (str " " ++ declaration))

  pub declare_all : List (RpcParameter t) → Result (List Text)
  unfolding declare
  declare_all [] = ok []
  declare_all (p ∷ ps) = do declaration ← declare p; rest ← declare_all ps; ok (declaration ∷ rest)

  declared_value_lem :
      (p : SqlType t) (unicode : Bool)
      → declared_value p unicode ≡ encode_string_parameters p unicode
  unfolding declared_value encode_string_parameters
  declared_value_lem (SqlType.n_varchar value len) false = refl
  declared_value_lem (SqlType.n_varchar_max value) false = refl
  declared_value_lem p true = ground arith
  declared_value_lem p false = ground arith

  declarations_from-build_params_from :
      (index : ℕ) (ps : List (SqlType t)) (unicode : Bool)
      → declarations_from k index ps unicode ≡ declare_all (build_params_from index ps unicode)
  unfolding declarations_from declare_all build_params_from declare build_param
  declarations_from-build_params_from index [] unicode = refl
  declarations_from-build_params_from index (p ∷ ps) unicode =
      rw (declarations_from-build_params_from (suc index) ps unicode, declared_value_lem p unicode)
        (bind-bind (sql_declaration k (encode_string_parameters p unicode)) _ _)

  -- What is declared to `sp_prepare` are exactly the parameters, by name and by type, that an
  -- execution with values of these types sends, with the same choice of the text encoding.
  pub parameter_declaration_lem :
      (ps : List (SqlType t)) (unicode : Bool)
      → parameter_declaration k ps unicode
        ≡ map_result (join (str ", ")) (declare_all (build_params_with_string_encoding ps unicode))
  unfolding parameter_declaration build_params_with_string_encoding
  parameter_declaration_lem ps unicode =
      rw (declarations_from-build_params_from 0 ps unicode) (bind-ok _ (join (str ", ")))
