-- ===== src/Row/Laws.antt =====
-- row.rs: what a lookup by name or by position finds.
use mssql_tiberius_bridge.Prelude.{
  ℕ, suc, ◌+◌, ◌≡◌, refl, ap, ◌∙◌, inl, inr, Text, text_eq, text_eq_iff, Bool, true, false, Option,
  none, some, map_option, List, [], ◌∷◌, map, position, Bool-cases, arith, if◌then◌else◌,
  eq_ignore_ascii_case, eq_ignore_ascii_case_refl,
}
use mssql_tiberius_bridge.Error.{Error, ok, err}
use mssql_tiberius_bridge.Column.{Column, ColumnMetadata, from_tds}
use mssql_tiberius_bridge.Row.Schema.{
  NameMap, lookup_name, or_insert, build_name_map, from_metadata, column_index, resolve_name_ci,
}

-- The first of the two that is there.
abbrev or_else {ℓ} : {A : Type ℓ} → Option A → Option A → Option A
or_else (some a) o = some a
or_else none o = o

lookup_name-or_insert :
    (name key : Text) (index : ℕ) (m : NameMap)
    → lookup_name name (or_insert key index m)
      ≡ or_else (lookup_name name m) (if text_eq key name then some index else none)
unfolding or_insert lookup_name
lookup_name-or_insert name key index m = elim (Bool-cases (text_eq key name)) [
  | inl same ↦ ground (arith, ap (λ k. lookup_name k m) ((text_eq_iff key name).0 same))
  | inr other ↦ ground arith
]

lookup_name-nil : (name : Text) → lookup_name name [] ≡ none
unfolding lookup_name
lookup_name-nil name = refl

abbrev named : Text → Column → Bool
named name c = text_eq c.name name

abbrev shift : ℕ → Option ℕ → Option ℕ
shift n = map_option (λ i. n + i)

shift-suc : (n : ℕ) (o : Option ℕ) → shift (suc n) o ≡ shift n (map_option suc o)
shift-suc n none = refl
shift-suc n (some i) = ap some (omega arith)

shift-step :
    (b : Bool) (n : ℕ) (o : Option ℕ)
    → or_else (if b then some n else none) (shift (suc n) o)
      ≡ shift n (if b then some 0 else map_option suc o)
shift-step true n o = ap some (omega arith)
shift-step false n o = shift-suc n o

shift-zero : (o : Option ℕ) → shift 0 o ≡ o
shift-zero none = refl
shift-zero (some i) = ap some (omega arith)

or_else_assoc : (a b c : Option ℕ) → or_else (or_else a b) c ≡ or_else a (or_else b c)
or_else_assoc (some x) b c = refl
or_else_assoc none b c = refl

lookup_name-build :
    (name : Text) (index : ℕ) (cs : List Column) (m : NameMap)
    → lookup_name name (build_name_map index cs m)
      ≡ or_else (lookup_name name m) (shift index (position (named name) cs))
unfolding build_name_map
lookup_name-build name index [] m = ground arith
lookup_name-build name index (c ∷ cs) m =
    lookup_name-build name (suc index) cs (or_insert c.name index m)
    ∙ ap (λ o. or_else o (shift (suc index) (position (named name) cs)))
        (lookup_name-or_insert name c.name index m)
    ∙ or_else_assoc (lookup_name name m) _ _
    ∙ ap (or_else (lookup_name name m))
        (shift-step (text_eq c.name name) index (position (named name) cs))

-- The name index of a result set finds the first column of that name, whatever the duplicates.
pub column_index-from_metadata :
    (identity : ℕ) (metadata : List ColumnMetadata) (name : Text)
    → column_index (from_metadata identity metadata) name
      ≡ position (λ c. text_eq c.name name) (from_metadata identity metadata).columns
unfolding column_index from_metadata
column_index-from_metadata identity metadata name = ground (
  arith,
  lookup_name-build name 0 (map from_tds metadata) [],
  lookup_name-nil name,
  shift-zero (position (named name) (map from_tds metadata)),
)

skipped :
    (name : Text) (c : Column) (cs : List Column)
    → position (λ d. eq_ignore_ascii_case d.name name) (c ∷ cs) ≡ none
    → position (λ d. eq_ignore_ascii_case d.name name) cs ≡ none
skipped name c cs h = ground arith

-- An exact match is a match up to case, so none of the second kind leaves none of the first.
position_weaken :
    (name : Text) (cs : List Column)
    → position (λ c. eq_ignore_ascii_case c.name name) cs ≡ none
    → position (named name) cs ≡ none
position_weaken name [] h = refl
position_weaken name (c ∷ cs) h = elim (Bool-cases (text_eq c.name name)) [
  | inl same ↦ ground (
    arith,
    ap (λ x. eq_ignore_ascii_case x name) ((text_eq_iff c.name name).0 same),
    eq_ignore_ascii_case_refl name,
  )
  | inr other ↦ rw other (ap (map_option suc) (position_weaken name cs (skipped name c cs h)))
]

-- The case-insensitive lookup of a result set: the first exact match wins; without one the first
-- column that matches up to ASCII case is taken, and otherwise the name is not found.
pub resolve_name_ci_lem :
    (identity : ℕ) (metadata : List ColumnMetadata) (name : Text)
    → let schema = from_metadata identity metadata in
      resolve_name_ci schema name ≡ elim (position (λ c. text_eq c.name name) schema.columns) [
        | some i ↦ ok i
        | none ↦ elim (position (λ c. eq_ignore_ascii_case c.name name) schema.columns) [
          | some i ↦ ok i
          | none ↦ err (Error.column_not_found name)
        ]
      ]
unfolding resolve_name_ci
resolve_name_ci_lem identity metadata name =
    ground (arith, column_index-from_metadata identity metadata name)

-- A name that matches no column up to ASCII case matches none exactly either, so it is not found.
pub resolve_name_ci-missing :
    (identity : ℕ) (metadata : List ColumnMetadata) (name : Text)
    → position (λ c. eq_ignore_ascii_case c.name name) (from_metadata identity metadata).columns
      ≡ none
    → resolve_name_ci (from_metadata identity metadata) name ≡ err (Error.column_not_found name)
unfolding resolve_name_ci
resolve_name_ci-missing identity metadata name h = ground (
  arith,
  column_index-from_metadata identity metadata name,
  position_weaken name (from_metadata identity metadata).columns,
)
