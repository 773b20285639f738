-- ===== src/Row/ByName.antt =====
-- The getters of include/Row.hpp by the name of a column.
use voltdb_client_cpp.Prelude.{
  ℕ, zero, suc, ◌+◌, ◌≤◌, ◌≡◌, ◌≢◌, ◌⊎◌, refl, ap, ◌∙◌, inl, inr, Bool, Option, none, some, List,
  [], ◌∷◌, arith, Bool-cases,
}
use voltdb_client_cpp.Prelude.Int.{ℤ, pos}
use voltdb_client_cpp.Action.{Action, fail, ◌>>=◌, invalid_column}
use voltdb_client_cpp.Buffer.{BytesOut, eqb_bytes}
use voltdb_client_cpp.Buffer.Equal.{eqb_bytes-eq, eqb_bytes-ne}
use voltdb_client_cpp.Decimal.{Decimal}
use voltdb_client_cpp.Row.{
  Column, Row, index_of, get_column_index_by_name, get_varbinary, get_decimal, get_timestamp,
  get_int64, get_int32, get_int16, get_int8, get_double, get_string, is_null_at,
}

abbrev pub named : {A : Type 0} → (ℤ → Action Row A) → List ℕ → Action Row A
named get name = get_column_index_by_name name >>= get

unfoldable pub varbinary_named : List ℕ → ℤ → Bool → Action Row BytesOut
varbinary_named name bufsize has_out = named (λ i. get_varbinary i bufsize has_out) name

unfoldable pub decimal_named : List ℕ → Action Row Decimal
decimal_named = named get_decimal

unfoldable pub timestamp_named : List ℕ → Action Row ℤ
timestamp_named = named get_timestamp

unfoldable pub int64_named : List ℕ → Action Row ℤ
int64_named = named get_int64

unfoldable pub int32_named : List ℕ → Action Row ℤ
int32_named = named get_int32

unfoldable pub int16_named : List ℕ → Action Row ℤ
int16_named = named get_int16

unfoldable pub int8_named : List ℕ → Action Row ℤ
int8_named = named get_int8

unfoldable pub double_named : List ℕ → Action Row ℕ
double_named = named get_double

unfoldable pub string_named : List ℕ → Action Row (Option (List ℕ))
string_named = named get_string

unfoldable pub is_null_named : List ℕ → Action Row Bool
is_null_named = named is_null_at

-- The column at `k` is the first of the name, and there is none of the name.
abbrev pub IsFirst : List ℕ → List Column → ℕ → Type 0
IsFirst name [] k = 1 ≤ 0
IsFirst name (c ∷ cs) zero = c.name ≡ name
IsFirst name (c ∷ cs) (suc k) = (c.name ≢ name) × IsFirst name cs k

abbrev pub IsAbsent : List ℕ → List Column → Type 0
IsAbsent name [] = 0 ≤ 0
IsAbsent name (c ∷ cs) = (c.name ≢ name) × IsAbsent name cs

index_of-IsFirst :
    (name : List ℕ) (cs : List Column) (i : ℕ)
    → ((k : ℕ) × IsFirst name cs k × (index_of name cs i ≡ some (i + k)))
      ⊎ (IsAbsent name cs × (index_of name cs i ≡ none))
unfolding index_of
index_of-IsFirst name [] i = inr (omega arith, refl)
index_of-IsFirst name (c ∷ cs) i = elim (Bool-cases (eqb_bytes c.name name)) [
  | inl e ↦ inl (0, eqb_bytes-eq c.name name e, rw e (ap some (omega arith)))
  | inr e ↦ elim (index_of-IsFirst name cs (i + 1)) [
    | inl (k, f, q) ↦ inl (suc k, (eqb_bytes-ne c.name name e, f), rw e (q ∙ ap some (omega arith)))
    | inr (a, q) ↦ inr ((eqb_bytes-ne c.name name e, a), rw e q)
  ]
]

-- A search by name comes to the first column of the name, and throws where there is none; the getter
-- by name `m` is then the getter by the index `get`.
abbrev pub Searched : {A : Type 0} → (ℤ → Action Row A) → Action Row A → List ℕ → Row → Type 0
Searched get m name r =
    ((k : ℕ) × IsFirst name r.columns k × (m r ≡ get (pos k) r))
    ⊎ (IsAbsent name r.columns × (m r ≡ fail invalid_column r))

named-Searched :
    {A : Type 0} (get : ℤ → Action Row A) (name : List ℕ) (r : Row)
    → Searched get (named get name) name r
unfolding get_column_index_by_name
named-Searched get name r = elim (index_of-IsFirst name r.columns 0) [
  | inl (k, f, q) ↦
      inl (k, f, rw (get_column_index_by_name, q) (ap (λ (i : ℕ). get (pos i) r) (omega arith)))
  | inr (a, q) ↦ inr (a, rw (get_column_index_by_name, q) refl)
]

pub record AllSearched (name : List ℕ) (bufsize : ℤ) (has_out : Bool) (r : Row) : Type 0 where
  pub varbinary :
      Searched (λ i. get_varbinary i bufsize has_out) (varbinary_named name bufsize has_out) name r
  pub decimal : Searched get_decimal (decimal_named name) name r
  pub timestamp : Searched get_timestamp (timestamp_named name) name r
  pub int64 : Searched get_int64 (int64_named name) name r
  pub int32 : Searched get_int32 (int32_named name) name r
  pub int16 : Searched get_int16 (int16_named name) name r
  pub int8 : Searched get_int8 (int8_named name) name r
  pub double : Searched get_double (double_named name) name r
  pub string : Searched get_string (string_named name) name r
  pub is_null : Searched is_null_at (is_null_named name) name r

-- Each getter by name does on any row what the getter by index does on the first column of the name,
-- and throws, the row as it was, where no column has the name.
pub getters-AllSearched :
    (name : List ℕ) (bufsize : ℤ) (has_out : Bool) (r : Row) → AllSearched name bufsize has_out r
unfolding varbinary_named decimal_named timestamp_named int64_named int32_named int16_named
    int8_named double_named string_named is_null_named
getters-AllSearched name bufsize has_out r = record {
  varbinary = named-Searched (λ i. get_varbinary i bufsize has_out) name r;
  decimal = named-Searched get_decimal name r;
  timestamp = named-Searched get_timestamp name r;
  int64 = named-Searched get_int64 name r;
  int32 = named-Searched get_int32 name r;
  int16 = named-Searched get_int16 name r;
  int8 = named-Searched get_int8 name r;
  double = named-Searched get_double name r;
  string = named-Searched get_string name r;
  is_null = named-Searched is_null_at name r;
}
