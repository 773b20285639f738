-- ===== src/Procedure.antt =====
-- include/Procedure.hpp: a procedure's name and parameters, and the invocation message.
pub mod Message
use voltdb_client_cpp.Prelude.{ℕ, ◌+◌, List, length}
use voltdb_client_cpp.Prelude.Int.{ℤ, pos, ◌+ℤ◌}
use voltdb_client_cpp.Action.{Action, Outcome, done, fail, ◌>>=◌, ◌>>◌, pure}
use voltdb_client_cpp.Wire.{cast}
use voltdb_client_cpp.Buffer.{ByteBuffer, Void, set_position, put_int, put_string}
use voltdb_client_cpp.Buffer.Frame.{close_frame}
use voltdb_client_cpp.Params.{Parameter, ParameterSet}
use voltdb_client_cpp.Params

pub record Procedure : Type 0 where
  pub name : List ℕ
  pub params : ParameterSet

unfoldable pub init : List ℕ → List Parameter → Procedure
init name parameters = record { name = name; params = Params.init parameters }

unfoldable pub init_dynamic : List ℕ → Procedure
init_dynamic name = record { name = name; params = Params.init_dynamic }

abbrev with_params : {A : Type 0} → Outcome ParameterSet A → Procedure → Outcome Procedure A
with_params (done a ps) p = done a (record p { params = ps })
with_params (fail e ps) p = fail e (record p { params = ps })

abbrev pub on_params : {A : Type 0} → Action ParameterSet A → Action Procedure A
on_params m p = with_params (m p.params) p

-- `params()`: the set is reset before it is handed out.
unfoldable pub reset_params : Action Procedure Void
reset_params p = with_params (Params.reset p.params) p

-- `getSerializedSize`: the length prefix and the version, the name, the parameters, the client data.
unfoldable pub get_serialized_size : Action Procedure ℤ
get_serialized_size p =
    with_params
      ((Params.get_serialized_size >>= λ n.
          pure (pos 5 +ℤ pos 4 +ℤ cast 4 (pos (length p.name)) +ℤ pos n +ℤ pos 8))
        p.params)
      p

abbrev with_out :
    {A : Type 0} → Outcome ByteBuffer A → Procedure → Outcome (Procedure × ByteBuffer) A
with_out (done a b) p = done a (p, b)
with_out (fail e b) p = fail e (p, b)

abbrev with_set :
    {A : Type 0}
    → Outcome (ParameterSet × ByteBuffer) A
    → Procedure
    → Outcome (Procedure × ByteBuffer) A
with_set (done a (ps, b)) p = done a (record p { params = ps }, b)
with_set (fail e (ps, b)) p = fail e (record p { params = ps }, b)

-- A method of the buffer, and `m_params.serializeTo`, in a call that holds both.
abbrev pub on_out : {A : Type 0} → Action ByteBuffer A → Action (Procedure × ByteBuffer) A
on_out m (p, b) = with_out (m b) p

abbrev pub on_set :
    {A : Type 0} → Action (ParameterSet × ByteBuffer) A → Action (Procedure × ByteBuffer) A
on_set m (p, b) = with_set (m (p.params, b)) p

-- What stands in front of the parameters: the version, the name and the client data.
unfoldable pub put_header : List ℕ → ℤ → Action ByteBuffer Void
put_header name client_data = put_int 1 (pos 0) >> (put_string name >> put_int 8 client_data)

-- `serializeTo(ByteBuffer *buffer, int64_t clientData)`.
unfoldable pub serialize_to : ℤ → Action (Procedure × ByteBuffer) Void
serialize_to client_data (p, b) =
    (on_out (set_position (pos 4))
        >> (on_out (put_header p.name client_data)
            >> (on_set Params.serialize_to >> on_out close_frame)))
      (p, b)
