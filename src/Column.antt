-- ===== src/Column.antt =====
-- src/column.rs: the column types and the metadata that a result set's columns carry.
pub mod Laws
pub mod Equality
use mssql_tiberius_bridge.Prelude.{
  ℕ, ◌/◌, Text, str, Bool, true, false, ◌&&◌, Option, none, some, map_option, ℤ, ◌==◌,
  if◌then◌else◌, eq_ignore_ascii_case,
}
use mssql_tiberius_bridge.Driver.{TdsDataType, is_udt}

pub data ColumnType : Type 0 where
  null bit int1 int2 int4 int8 float4 float8 : ColumnType
  datetime datetime2 datetime4 datetime_offset date time : ColumnType
  decimaln numericn money money4 guid : ColumnType
  n_varchar varchar n_char char n_text text : ColumnType
  binary var_binary image xml json vector big_var_bin ssvariant : ColumnType
  geography geometry udt : ColumnType

-- `impl From<TdsDataType> for ColumnType`.
pub from_data_type : TdsDataType → ColumnType
from_data_type TdsDataType.void = ColumnType.null
from_data_type TdsDataType.bit = ColumnType.bit
from_data_type TdsDataType.bit_n = ColumnType.bit
from_data_type TdsDataType.int1 = ColumnType.int1
from_data_type TdsDataType.int2 = ColumnType.int2
from_data_type TdsDataType.int4 = ColumnType.int4
from_data_type TdsDataType.int_n = ColumnType.int4
from_data_type TdsDataType.int8 = ColumnType.int8
from_data_type TdsDataType.flt4 = ColumnType.float4
from_data_type TdsDataType.flt8 = ColumnType.float8
from_data_type TdsDataType.flt_n = ColumnType.float8
from_data_type TdsDataType.date_time = ColumnType.datetime
from_data_type TdsDataType.date_time_n = ColumnType.datetime
from_data_type TdsDataType.date_time2_n = ColumnType.datetime2
from_data_type TdsDataType.date_tim4 = ColumnType.datetime4
from_data_type TdsDataType.date_time_offset_n = ColumnType.datetime_offset
from_data_type TdsDataType.date_n = ColumnType.date
from_data_type TdsDataType.time_n = ColumnType.time
from_data_type TdsDataType.decimal = ColumnType.decimaln
from_data_type TdsDataType.decimal_n = ColumnType.decimaln
from_data_type TdsDataType.numeric = ColumnType.numericn
from_data_type TdsDataType.numeric_n = ColumnType.numericn
from_data_type TdsDataType.money = ColumnType.money
from_data_type TdsDataType.money_n = ColumnType.money
from_data_type TdsDataType.guid = ColumnType.guid
from_data_type TdsDataType.n_var_char = ColumnType.n_varchar
from_data_type TdsDataType.var_char = ColumnType.varchar
from_data_type TdsDataType.big_var_char = ColumnType.varchar
from_data_type TdsDataType.n_char = ColumnType.n_char
from_data_type TdsDataType.char = ColumnType.char
from_data_type TdsDataType.n_text = ColumnType.n_text
from_data_type TdsDataType.text = ColumnType.text
from_data_type TdsDataType.binary = ColumnType.binary
from_data_type TdsDataType.var_binary = ColumnType.var_binary
from_data_type TdsDataType.big_var_binary = ColumnType.var_binary
from_data_type TdsDataType.image = ColumnType.image
from_data_type TdsDataType.xml = ColumnType.xml
from_data_type TdsDataType.json = ColumnType.json
from_data_type TdsDataType.vector = ColumnType.vector
from_data_type TdsDataType.ss_variant = ColumnType.ssvariant
from_data_type TdsDataType.udt = ColumnType.udt
from_data_type TdsDataType.other = ColumnType.null

-- `ColumnType::from_tds_with_length`.
pub from_tds_with_length : TdsDataType → ℕ → ColumnType
unfolding from_data_type
from_tds_with_length TdsDataType.int_n byte_length =
    if byte_length == 1
    then ColumnType.int1
    else if byte_length == 2
    then ColumnType.int2
    else if byte_length == 4
    then ColumnType.int4
    else if byte_length == 8
    then ColumnType.int8
    else ColumnType.int4
from_tds_with_length TdsDataType.flt_n byte_length =
    if byte_length == 4
    then ColumnType.float4
    else if byte_length == 8
    then ColumnType.float8
    else ColumnType.float8
from_tds_with_length TdsDataType.money_n byte_length =
    if byte_length == 4
    then ColumnType.money4
    else if byte_length == 8
    then ColumnType.money
    else ColumnType.money
from_tds_with_length dt byte_length = from_data_type dt

pub record UdtInfo : Type 0 where
  pub schema_name : Text
  pub type_name : Text

-- `SqlCollation` of the driver and `Collation` of the crate have the same fields.
pub record SqlCollation : Type 0 where
  pub info : ℕ
  pub lcid_language_id : ℤ
  pub col_flags : ℕ
  pub sort_id : ℕ

pub record Collation : Type 0 where
  pub info : ℕ
  pub lcid_language_id : ℤ
  pub col_flags : ℕ
  pub sort_id : ℕ

-- `ColumnMetadata` of the driver, as far as the crate reads it.
pub record ColumnMetadata : Type 0 where
  pub column_name : Text
  pub data_type : TdsDataType
  pub type_length : ℕ
  pub udt_info : Option UdtInfo
  pub is_nullable : Bool
  pub is_identity : Bool
  pub is_computed : Bool
  pub is_case_sensitive : Bool
  pub is_sparse_column_set : Bool
  pub is_encrypted : Bool
  pub is_plp : Bool
  pub get_scale : Option ℕ
  pub get_collation : Option SqlCollation
  pub user_type : ℕ

-- The spatial identity of a UDT: `Some` where `from_metadata` returns early.
pub spatial_type : TdsDataType → Option UdtInfo → Option ColumnType
spatial_type dt none = none
spatial_type dt (some udt_info) =
    if is_udt dt && eq_ignore_ascii_case udt_info.schema_name (str "sys")
    then (if eq_ignore_ascii_case udt_info.type_name (str "geography")
        then some ColumnType.geography
        else if eq_ignore_ascii_case udt_info.type_name (str "geometry")
        then some ColumnType.geometry
        else none)
    else none

-- `ColumnType::from_metadata`.
unfoldable pub from_metadata : ColumnMetadata → ColumnType
unfolding spatial_type from_tds_with_length
from_metadata meta = elim (spatial_type meta.data_type meta.udt_info) [
  | some ty ↦ ty
  | none ↦ from_tds_with_length meta.data_type meta.type_length
]

unfoldable from_collation : SqlCollation → Collation
from_collation c = record {
  info = c.info;
  lcid_language_id = c.lcid_language_id;
  col_flags = c.col_flags;
  sort_id = c.sort_id;
}

pub record MultiPartName : Type 0 where
  pub server_name : Option Text
  pub catalog_name : Option Text
  pub schema_name : Option Text
  pub table_name : Text

pub record Column : Type 0 where
  pub name : Text
  pub column_type : ColumnType
  pub nullable : Bool
  pub is_identity : Bool
  pub is_computed : Bool
  pub is_case_sensitive : Bool
  pub is_sparse_column_set : Bool
  pub is_encrypted : Bool
  pub is_plp : Bool
  pub byte_length : ℕ
  pub scale : Option ℕ
  pub collation : Option Collation
  pub user_type : ℕ
  pub multi_part_name : Option MultiPartName

-- `Column::from_tds`.
unfoldable pub from_tds : ColumnMetadata → Column
unfolding from_metadata from_collation
from_tds meta = record {
  name = meta.column_name;
  column_type = from_metadata meta;
  nullable = meta.is_nullable;
  is_identity = meta.is_identity;
  is_computed = meta.is_computed;
  is_case_sensitive = meta.is_case_sensitive;
  is_sparse_column_set = meta.is_sparse_column_set;
  is_encrypted = meta.is_encrypted;
  is_plp = meta.is_plp;
  byte_length = meta.type_length;
  scale = meta.get_scale;
  collation = map_option from_collation meta.get_collation;
  user_type = meta.user_type;
  multi_part_name = none;
}

-- The length in characters that a column of a type and a byte length declares.
unfoldable char_length_of : ColumnType → ℕ → Option ℕ
char_length_of ColumnType.n_varchar byte_length = some (byte_length / 2)
char_length_of ColumnType.n_char byte_length = some (byte_length / 2)
char_length_of ColumnType.n_text byte_length = some (byte_length / 2)
char_length_of ColumnType.varchar byte_length = some byte_length
char_length_of ColumnType.char byte_length = some byte_length
char_length_of ColumnType.text byte_length = some byte_length
char_length_of _ byte_length = none

-- `Column::char_length`.
unfoldable char_length : Column → Option ℕ
unfolding char_length_of
char_length c = char_length_of c.column_type c.byte_length
