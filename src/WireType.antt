-- ===== src/WireType.antt =====
-- include/WireType.h: the type codes of the wire.
use voltdb_client_cpp.Prelude.{◌≡◌, Bool, true, arith, if◌then◌else◌}
use voltdb_client_cpp.Prelude.Int.{ℤ, pos, negsuc, eqb_ℤ}

-- `unnamed` is a value of the enumeration that no enumerator names, as a cast can make it.
pub data WireType : Type 0 where
  invalid array null tinyint smallint integer bigint float : WireType
  string timestamp decimal varbinary : WireType
  unnamed : ℤ → WireType

unfoldable pub code : WireType → ℤ
code invalid = negsuc 97
code array = negsuc 98
code null = pos 1
code tinyint = pos 3
code smallint = pos 4
code integer = pos 5
code bigint = pos 6
code float = pos 8
code string = pos 9
code timestamp = pos 11
code decimal = pos 22
code varbinary = pos 25
code (unnamed z) = z

-- `static_cast<WireType>(code)`.
unfoldable pub of_code : ℤ → WireType
of_code z =
    if eqb_ℤ z (negsuc 97)
    then invalid
    else if eqb_ℤ z (negsuc 98)
    then array
    else if eqb_ℤ z (pos 1)
    then null
    else if eqb_ℤ z (pos 3)
    then tinyint
    else if eqb_ℤ z (pos 4)
    then smallint
    else if eqb_ℤ z (pos 5)
    then integer
    else if eqb_ℤ z (pos 6)
    then bigint
    else if eqb_ℤ z (pos 8)
    then float
    else if eqb_ℤ z (pos 9)
    then string
    else if eqb_ℤ z (pos 11)
    then timestamp
    else if eqb_ℤ z (pos 22)
    then decimal
    else if eqb_ℤ z (pos 25)
    then varbinary
    else unnamed z

unfoldable pub eqb_type : WireType → WireType → Bool
eqb_type a b = eqb_ℤ (code a) (code b)

pub eqb_type_refl : (t : WireType) → eqb_type t t ≡ true
unfolding eqb_type
eqb_type_refl t = ground arith
