-- ===== src/Driver/Types.antt =====
-- `TdsDataType`: the wire types that column.rs names in its match, and `other` for the rest.
use mathlib.Core.Bool.{Bool, true, false}

pub data TdsDataType : Type 0 where
  void bit bit_n int1 int2 int4 int_n int8 flt4 flt8 flt_n : TdsDataType
  date_time date_time_n date_time2_n date_tim4 date_time_offset_n date_n time_n : TdsDataType
  decimal decimal_n numeric numeric_n money money_n guid : TdsDataType
  n_var_char var_char big_var_char n_char char n_text text : TdsDataType
  binary var_binary big_var_binary image xml json vector ss_variant udt other : TdsDataType

-- `data_type == TdsDataType::Udt`.
abbrev pub is_udt : TdsDataType → Bool
is_udt TdsDataType.udt = true
is_udt _ = false
