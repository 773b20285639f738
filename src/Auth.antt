-- ===== src/Auth.antt =====
-- include/AuthenticationRequest.hpp, include/AuthenticationResponse.hpp and the hash schemes of
-- include/ClientConfig.h: the login exchange.
pub mod Messages
use voltdb_client_cpp.Prelude.{
  ℕ, Bool, true, false, not, Option, none, some, List, length, if◌then◌else◌,
}
use voltdb_client_cpp.Prelude.Int.{ℤ, pos, ◌+ℤ◌, ◌-ℤ◌, eqb_ℤ}
use voltdb_client_cpp.Action.{
  Action, Outcome, done, fail, ◌>>=◌, ◌>>◌, pure, throw, throw_if, skip, undefined,
}
use voltdb_client_cpp.Wire.{cast}
use voltdb_client_cpp.Buffer.{
  ByteBuffer, Void, set_position, put_int, put_string, put, get_int, get_string,
}
use voltdb_client_cpp.Buffer.Frame.{close_frame}

pub data HashScheme : Type 0 where
  sha1 sha256 : HashScheme

pub record Request : Type 0 where
  pub username : List ℕ
  pub service : List ℕ
  pub password_hash : List ℕ
  pub scheme : HashScheme

abbrev pub hash_size : HashScheme → ℤ
hash_size sha1 = pos 20
hash_size sha256 = pos 32

-- The old scheme has no byte for the scheme.
abbrev pub without_scheme : HashScheme → ℤ → ℤ
without_scheme sha1 size = size -ℤ pos 1
without_scheme sha256 size = size

unfoldable pub get_serialized_size : Request → ℤ
get_serialized_size r = without_scheme r.scheme (
    pos 8
    +ℤ hash_size r.scheme
    +ℤ cast 4 (pos (length r.username))
    +ℤ cast 4 (pos (length r.service))
    +ℤ pos 4
    +ℤ pos 1
    +ℤ pos 1)

-- The version, and the scheme behind it unless it is the old one.
unfoldable pub put_version : HashScheme → Action ByteBuffer Void
put_version sha1 = put_int 1 (pos 0)
put_version sha256 = put_int 1 (pos 1) >> put_int 1 (pos 1)

unfoldable pub put_login : Request → Action ByteBuffer Void
put_login r =
    put_version r.scheme
    >> (put_string r.service >> (put_string r.username >> put r.password_hash (hash_size r.scheme)))

-- `serializeTo(ByteBuffer *buffer)`.
unfoldable pub serialize_to : Request → Action ByteBuffer Void
serialize_to r = set_position (pos 4) >> (put_login r >> close_frame)

-- What the server tells of itself once it has let the client in.
pub record Login : Type 0 where
  pub host_id : ℤ
  pub connection_id : ℤ
  pub cluster_start_time : ℤ
  pub leader_address : ℤ
  pub build_string : List ℕ

-- `login` is there if the result code is 0; the fields are unset otherwise.
pub record Response : Type 0 where
  pub result_code : ℤ
  pub login : Option Login

abbrev pub not_null : Option (List ℕ) → Action ByteBuffer (List ℕ)
not_null none = throw undefined
not_null (some s) = pure s

unfoldable pub get_login : Action ByteBuffer Login
get_login = do
  host_id ← get_int 4
  connection_id ← get_int 8
  cluster_start_time ← get_int 8
  leader_address ← get_int 4
  build ← get_string
  build_string ← not_null build
  pure (record {
    host_id = host_id;
    connection_id = connection_id;
    cluster_start_time = cluster_start_time;
    leader_address = leader_address;
    build_string = build_string;
  })

unfoldable pub read_login : ℤ → Action ByteBuffer Response
read_login code =
    if eqb_ℤ code (pos 0)
    then get_login >>= (λ login. pure (record { result_code = code; login = some login }))
    else pure (record { result_code = code; login = none })

-- `AuthenticationResponse(ByteBuffer &buf)`: the version is asserted to be 0.
unfoldable pub read_response : Action ByteBuffer Response
read_response = do
  version ← get_int 1
  throw_if (not (eqb_ℤ version (pos 0))) undefined
  code ← get_int 1
  read_login code

unfoldable pub success : Response → Bool
success r = eqb_ℤ r.result_code (pos 0)

-- `connectionId()` returns an `int32_t`.
unfoldable pub connection_id : Login → ℤ
connection_id l = cast 4 l.connection_id
