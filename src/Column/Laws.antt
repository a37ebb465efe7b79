-- ===== src/Column/Laws.antt =====
-- column.rs: which columns are spatial, and which widths are told apart.
use mssql_tiberius_bridge.Prelude.{
  ℕ, ◌≡◌, sym, ◌∙◌, map, ascii_lower, ◌≢◌, ◌↔◌, inl, inr, Text, str, true, Option, none, some,
  arith, ◌==◌, List, [], ◌∷◌, any, eq_ignore_ascii_case, eq_ignore_ascii_case-lower, Option-cases,
}
use mssql_tiberius_bridge.Driver.{TdsDataType, is_udt}
use mssql_tiberius_bridge.Column.{
  ColumnType, UdtInfo, ColumnMetadata, from_data_type, from_tds_with_length, spatial_type,
  from_metadata,
}

-- The widths in bytes that the protocol has for the nullable number types, and the width of the
-- types that stand for them.
abbrev widths : TdsDataType → List ℕ
widths TdsDataType.int_n = 1 ∷ 2 ∷ 4 ∷ 8 ∷ []
widths TdsDataType.flt_n = 4 ∷ 8 ∷ []
widths TdsDataType.money_n = 4 ∷ 8 ∷ []
widths dt = []

abbrev pub storage_width : ColumnType → Option ℕ
storage_width ColumnType.int1 = some 1
storage_width ColumnType.int2 = some 2
storage_width ColumnType.int4 = some 4
storage_width ColumnType.int8 = some 8
storage_width ColumnType.float4 = some 4
storage_width ColumnType.float8 = some 8
storage_width ColumnType.money4 = some 4
storage_width ColumnType.money = some 8
storage_width ty = none

abbrev IsWidth : TdsDataType → ℕ → Type 0
IsWidth dt n = any (λ w. w == n) (widths dt) ≡ true

-- A nullable number column of a width that the protocol has gets the column type of that width.
pub from_tds_with_length-storage_width :
    (dt : TdsDataType) (byte_length : ℕ)
    → IsWidth dt byte_length
    → storage_width (from_tds_with_length dt byte_length) ≡ some byte_length
unfolding from_tds_with_length
from_tds_with_length-storage_width TdsDataType.int_n byte_length h = ground arith
from_tds_with_length-storage_width TdsDataType.flt_n byte_length h = ground arith
from_tds_with_length-storage_width TdsDataType.money_n byte_length h = ground arith
from_tds_with_length-storage_width _ byte_length h = ground arith

from_tds_with_length-NotSpatial :
    (dt : TdsDataType) (byte_length : ℕ)
    → (from_tds_with_length dt byte_length ≢ ColumnType.geography)
      × (from_tds_with_length dt byte_length ≢ ColumnType.geometry)
unfolding from_tds_with_length from_data_type
from_tds_with_length-NotSpatial dt byte_length = (λ e. ground arith, λ e. ground arith)

-- The server calls the column's type `sys` and the given name, in any case of the letters.
abbrev pub IsSystemType : ColumnMetadata → Text → Type 0
IsSystemType meta name =
    (info : UdtInfo) × (meta.udt_info ≡ some info)
    × (is_udt meta.data_type ≡ true)
    × (eq_ignore_ascii_case info.schema_name (str "sys") ≡ true)
    × (eq_ignore_ascii_case info.type_name name ≡ true)

-- A name has one lower-case form, so it matches no two names of different forms.
one_name :
    (s t u : Text)
    → eq_ignore_ascii_case s t ≡ true
    → eq_ignore_ascii_case s u ≡ true
    → map ascii_lower t ≡ map ascii_lower u
one_name s t u h k = sym (eq_ignore_ascii_case-lower s t h) ∙ eq_ignore_ascii_case-lower s u k

-- A column is spatial if and only if it is a CLR type that the server calls `sys.geography` or
-- `sys.geometry`: another schema's type of that name, or a column without type information, stays
-- what its data type says.
pub from_metadata-geography :
    (meta : ColumnMetadata)
    → ((from_metadata meta ≡ ColumnType.geography) ↔ IsSystemType meta (str "geography"))
      × ((from_metadata meta ≡ ColumnType.geometry) ↔ IsSystemType meta (str "geometry"))
unfolding from_metadata spatial_type ascii_lower
from_metadata-geography meta = elim (Option-cases meta.udt_info) [
  | inl e ↦
      let plain = from_tds_with_length-NotSpatial meta.data_type meta.type_length in
      (
        (λ h. absurd (ground (arith, plain.0)), λ (info, e', a, b, c). absurd (ground arith)),
        ((λ h. absurd (ground (arith, plain.1))), λ (info, e', a, b, c). absurd (ground arith)),
      )
  | inr (info, e) ↦
      let plain = from_tds_with_length-NotSpatial meta.data_type meta.type_length in
      (
        (
          (λ h.
              (info, e, ground (arith, plain.0), ground (arith, plain.0), ground (arith, plain.0))),
          λ (info', e', is, schema, name). ground arith,
        ),
        (
          (λ h.
              (info, e, ground (arith, plain.1), ground (arith, plain.1), ground (arith, plain.1))),
          λ (info', e', is, schema, name).
              ground (arith, one_name info.type_name (str "geography") (str "geometry")),
        ),
      )
]
