-- ===== src/Distributer.antt =====
-- src/Distributer.cpp and include/Distributer.h: which host has the partition of an invocation.
pub mod Update
pub mod Partition
pub mod Hosts
pub mod Places
pub mod Topology
use voltdb_client_cpp.Prelude.{
  ℕ, ◌+◌, Bool, true, false, Option, none, some, List, [], ◌∷◌, if◌then◌else◌, length,
}
use voltdb_client_cpp.Prelude.Int.{ℤ, pos, negsuc, ◌+ℤ◌, eqb_ℤ, ltb_ℤ}
use voltdb_client_cpp.Action.{
  Action, Outcome, done, fail, pure, throw, modify, ◌>>=◌, ◌>>◌, undefined,
}
use voltdb_client_cpp.WireType.{
  WireType, tinyint, smallint, integer, bigint, float, string, timestamp, of_code,
}
use voltdb_client_cpp.Buffer.{ByteBuffer, Void, get_int_at, get_string_at, eqb_bytes}
use voltdb_client_cpp.Hashinator.{Token, Murmur, hashinate_int, hashinate_text, int64_min}
use voltdb_client_cpp.Table.{Table}

pub record ProcedureInfo : Type 0 where
  pub multi_part : Bool
  pub read_only : Bool
  pub partition_parameter : ℤ
  pub partition_parameter_type : ℤ

-- `ProcedureInfo(const std::string &jsonText)`, by the JSON reader of Boost; `none` where it throws.
pub record Json : Type 0 where
  pub read : List ℕ → Option ProcedureInfo

pub record Distributer : Type 0 where
  pub procedure_info : List (List ℕ × ProcedureInfo)
  pub partition_to_host_id : List (ℤ × ℤ)
  pub is_updating : Bool
  pub is_elastic : Bool
  pub hashinator : Option (List Token)
  pub saved_topo_table : Option Table

unfoldable pub init : Distributer
init = record {
  procedure_info = [];
  partition_to_host_id = [];
  is_updating = false;
  is_elastic = true;
  hashinator = none;
  saved_topo_table = none;
}

unfoldable pub start_update : Distributer → Distributer
start_update d = record d { is_updating = true }

-- `std::map::find` on the partitions and on the names.
unfoldable pub find_host : ℤ → List (ℤ × ℤ) → Option ℤ
find_host p [] = none
find_host p ((q, h) ∷ rest) = let later = find_host p rest in if eqb_ℤ q p then some h else later

unfoldable pub find_procedure : List ℕ → List (List ℕ × ProcedureInfo) → Option ProcedureInfo
find_procedure name [] = none
find_procedure name ((n, i) ∷ rest) =
    let later = find_procedure name rest in if eqb_bytes n name then some i else later

-- `std::map::insert`: a key that is there keeps its value.
abbrev pub add_host : Option ℤ → ℤ × ℤ → List (ℤ × ℤ) → List (ℤ × ℤ)
add_host none e hosts = e ∷ hosts
add_host (some _) e hosts = hosts

unfoldable pub insert_host : ℤ × ℤ → Action Distributer Void
insert_host (p, h) = modify (λ d. record d {
  partition_to_host_id =
      add_host (find_host p d.partition_to_host_id) (p, h) d.partition_to_host_id;
})

abbrev add_procedure :
    Option ProcedureInfo
    → List ℕ × ProcedureInfo
    → List (List ℕ × ProcedureInfo)
    → List (List ℕ × ProcedureInfo)
add_procedure none e infos = e ∷ infos
add_procedure (some _) e infos = infos

unfoldable pub insert_procedure : List ℕ × ProcedureInfo → Action Distributer Void
insert_procedure (n, i) = modify (λ d. record d {
  procedure_info = add_procedure (find_procedure n d.procedure_info) (n, i) d.procedure_info;
})

unfoldable pub get_procedure : Distributer → List ℕ → Option ProcedureInfo
get_procedure d name = find_procedure name d.procedure_info

abbrev pub or_minus_one : Option ℤ → ℤ
or_minus_one none = negsuc 0
or_minus_one (some h) = h

unfoldable pub get_host_id_by_partition_id : Distributer → ℤ → ℤ
get_host_id_by_partition_id d p = or_minus_one (find_host p d.partition_to_host_id)

-- A partition that was computed; where there is no ring, or it is read in front of its first token,
-- the code is undefined.
abbrev pub known : Option ℤ → Action ByteBuffer ℤ
known none = throw undefined
known (some p) = pure p

abbrev pub on_ring : (List Token → Option ℤ) → Option (List Token) → Option ℤ
on_ring f none = none
on_ring f (some ring) = f ring

abbrev pub hash_int : Murmur → Option (List Token) → ℤ → Action ByteBuffer ℤ
hash_int m ring val =
    if eqb_ℤ val int64_min
    then pure (negsuc 0)
    else known (on_ring (λ r. hashinate_int m r val) ring)

abbrev pub hash_text : Murmur → Option (List Token) → Option (List ℕ) → Action ByteBuffer ℤ
hash_text m ring none = pure (pos 0)
hash_text m ring (some s) = known (on_ring (λ r. hashinate_text m r s) ring)

-- The switch of `parseParameter`. A double is read as the integer of its bits.
unfoldable pub parse_value : Murmur → Option (List Token) → WireType → ℤ → Action ByteBuffer ℤ
parse_value m ring tinyint index = get_int_at 1 index >>= hash_int m ring
parse_value m ring smallint index = get_int_at 2 index >>= hash_int m ring
parse_value m ring integer index = get_int_at 4 index >>= hash_int m ring
parse_value m ring bigint index = get_int_at 8 index >>= hash_int m ring
parse_value m ring float index = get_int_at 8 index >>= hash_int m ring
parse_value m ring timestamp index = get_int_at 8 index >>= hash_int m ring
parse_value m ring string index = get_string_at index >>= hash_text m ring
parse_value m ring _ index = pure (negsuc 0)

unfoldable pub parse_parameter : Murmur → Option (List Token) → ℤ → Action ByteBuffer ℤ
parse_parameter m ring index =
    get_int_at 1 index >>= λ t. parse_value m ring (of_code t) (index +ℤ pos 1)

abbrev size_of : Option (List ℕ) → ℕ
size_of none = 0
size_of (some s) = length s

-- `getHashedPartitionForParameter`: the name at 5 and the client data are skipped, and the count of
-- the parameters is read but not used.
unfoldable pub get_hashed_partition_for_parameter : Murmur → Distributer → ℤ → Action ByteBuffer ℤ
get_hashed_partition_for_parameter m d parameter_id = do
  name ← get_string_at (pos 5)
  count ← get_int_at 2 (pos (5 + (4 + size_of name + 8)))
  if ltb_ℤ (pos 0) parameter_id
      then pure (negsuc 0)
      else parse_parameter m d.hashinator (pos (5 + (4 + size_of name + 8) + 2))
