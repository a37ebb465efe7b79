-- ===== src/Tests.antt =====
-- A driver connection over prepared answers, and the data that the tests of all parts share.
pub mod Requests
pub mod Loads
pub mod Rows
pub mod Streams
pub mod Values
pub mod Batches
pub mod Dates
pub mod Fields
use mssql_tiberius_bridge.Prelude.{
  ℕ, ◌≡◌, refl, Text, str, Bool, true, false, Option, none, some, List, [], ◌∷◌, is_empty, is_some,
  pos, not, ◌+◌, if◌then◌else◌,
}
use mssql_tiberius_bridge.Driver.{Tds, ColumnValues, TdsDataType, plain}
use mssql_tiberius_bridge.Column.{ColumnMetadata, UdtInfo}
use mssql_tiberius_bridge.Row.Writer.{Write}
use mssql_tiberius_bridge.Task.{TdsResult, tds_ok, tds_err}
use mssql_tiberius_bridge.Connection.{Connection, StatementResult, HealthLaws}
use mssql_tiberius_bridge.Client.{Client}
use mssql_tiberius_bridge.Prepared.{PreparedStatement}

-- The rows of the result sets that are still to be read, and how many statements were sent.
pub record Wire : Type 0 where
  pub dead : Bool
  pub sets : List (List (List (Write plain)))
  pub sent : ℕ

-- The sets that every statement returns: one row, then none, then two.
abbrev pub answer : List (List (List (Write plain)))
answer =
    ((Write.write_i32 (pos 1) ∷ Write.end_row ∷ []) ∷ [])
    ∷ []
    ∷ ((Write.write_i32 (pos 2) ∷ []) ∷ (Write.write_null ∷ []) ∷ [])
    ∷ []

abbrev pub send : Wire → TdsResult StatementResult × Wire
send s = (tds_ok StatementResult.rows, record { dead = s.dead; sets = answer; sent = s.sent + 1 })

abbrev pub next_set : List (List (List (Write plain))) → List (List (List (Write plain)))
next_set [] = []
next_set (set ∷ sets) = sets

abbrev pub next_in : Wire → TdsResult (Option (List (Write plain))) × Wire
next_in s = elim s.sets [
  | [] ↦ (tds_ok none, s)
  | set ∷ sets ↦ elim set [
    | [] ↦ (tds_ok none, s)
    | row ∷ rows ↦ (tds_ok (some row), record s { sets = rows ∷ sets })
  ]
]

abbrev pub column : Text → TdsDataType → ColumnMetadata
column name data_type = record {
  column_name = name;
  data_type = data_type;
  type_length = 4;
  udt_info = none;
  is_nullable = true;
  is_identity = false;
  is_computed = false;
  is_case_sensitive = false;
  is_sparse_column_set = false;
  is_encrypted = false;
  is_plp = false;
  get_scale = none;
  get_collation = none;
  user_type = 0;
}

abbrev pub scripted : Connection plain
scripted = record {
  Conn = Wire;
  is_connection_dead = λ s. s.dead;
  mark_connection_dead = λ s. record s { dead = true };
  interrupted = λ s. s;
  close_query = λ s. (tds_ok tt, record s { sets = [] });
  prepare_reset_connection = λ s. s;
  execute = λ sql s. send s;
  execute_sp_executesql = λ sql params s. send s;
  execute_stored_procedure = λ name positional named s. send s;
  on_rows = λ s. not (is_empty s.sets);
  advance = λ s. (
    tds_ok (if is_empty (next_set s.sets) then StatementResult.end else StatementResult.rows),
    record s { sets = next_set s.sets },
  );
  advance_to_rows =
      λ s. (tds_ok (not (is_empty (next_set s.sets))), record s { sets = next_set s.sets });
  get_metadata = λ s. column (str "n") TdsDataType.int4 ∷ [];
  next_row = λ s. elim (next_in s).0 [
    | tds_ok row ↦ (tds_ok (is_some row), (next_in s).1)
    | tds_err e ↦ (tds_err e, s)
  ];
  next_row_into = next_in;
  get_return_values = λ s. ColumnValues.int (pos 7) ∷ [];
  get_meta_type_name = λ value. tds_ok (str "int");
}

pub scripted-HealthLaws : HealthLaws scripted
scripted-HealthLaws = record { marked = λ s. refl }

abbrev pub client : Bool → Client Wire
client dead = record {
  inner = record { dead = dead; sets = []; sent = 0 };
  send_string_parameters_as_unicode = true;
  prepared_session = 5;
}

-- A statement that was prepared in another session than the client's.
abbrev pub statement : PreparedStatement
statement = record { handle = pos 3; sql = str "SELECT @P1"; session = 4 }
