-- ===== src/Tests/Messages.antt =====
-- include/ParameterSet.hpp, include/Procedure.hpp and the login messages at concrete inputs.
use voltdb_client_cpp.Prelude.{
  ◌+◌, ◌≡◌, refl, List, [], ◌∷◌, ◌++◌, map, arith, length, drop, replicate, some, true, false,
}
use voltdb_client_cpp.Prelude.Int.{pos, negsuc}
use voltdb_client_cpp.Action.{done}
use voltdb_client_cpp.Wire.{cast, to_bytes, to_word, to_int}
use voltdb_client_cpp.WireType.{WireType}
use voltdb_client_cpp.Buffer.{scoped}
use voltdb_client_cpp.Buffer.Get.{Reads}
use voltdb_client_cpp.Buffer.Frame.{framed, holding}
use voltdb_client_cpp.Params.{Parameter, ParameterSet, init, init_dynamic, total_size, add_doubles}
use voltdb_client_cpp.Params.Text.{IsFilled, Added}
use voltdb_client_cpp.Params.Values.{Value, each, encode}
use voltdb_client_cpp.Params.Encoding.{add_all}
use voltdb_client_cpp.Params.Sequence.{add_all-Added}
use voltdb_client_cpp.Params.Dynamic.{add_all-grows, parameter_of}
use voltdb_client_cpp.Params.Doubles.{Overflows, add_doubles_overflow}
use voltdb_client_cpp.Auth
use voltdb_client_cpp.Auth.{Request, Login, sha256, read_response}
use voltdb_client_cpp.Auth.Messages.{
  login_bytes, accept_bytes, serialize_to-login, read_response-accept,
}
use voltdb_client_cpp.Buffer.{put_int, put_word, check_get_put_index}
use voltdb_client_cpp.Params.Refused.{Counted, add_all-Counted}
use voltdb_client_cpp.Params.Serialize.{
  WasReset, reset_lem, init_dynamic-CanReset, IsNew, init-IsNew, Serialized, serialize_to_lem,
}
use voltdb_client_cpp.Procedure.{Procedure}
use voltdb_client_cpp.Procedure
use voltdb_client_cpp.Procedure.Message.{
  IsReady, Sent, body, get_serialized_size-body, serialize_to-body,
}

abbrev pub values : List Value
values = Value.int32 (pos 5) ∷ Value.null ∷ Value.strings ((104 ∷ 105 ∷ []) ∷ []) ∷ []

abbrev parameters : List Parameter
parameters =
    record { type = WireType.integer; is_array = false }
    ∷ record { type = WireType.bigint; is_array = false }
    ∷ record { type = WireType.string; is_array = true }
    ∷ []

unfilled : IsNew parameters (init parameters)
unfilled = init-IsNew parameters

from_front : drop (init parameters).current_param (init parameters).parameters ≡ parameters
from_front = rw (unfilled.current, unfilled.parameters) refl

pub filled :
    Added
      (init parameters).parameters
      3
      ([] ++ each encode values)
      (init parameters)
      (add_all values (init parameters))
filled =
    add_all-Added values (init parameters) [] parameters unfilled.filled from_front
      (refl, (tt, (refl, tt))) (unfold total_size in omega arith)

add_all-Added_example :
    Added
      (init parameters).parameters
      3
      (each encode values)
      (init parameters)
      (add_all values (init parameters))
add_all-Added_example =
    add_all-Added values (init parameters) [] parameters unfilled.filled from_front
      (refl, (tt, (refl, tt))) (unfold total_size in omega arith)

complete : filled.set.current_param ≡ length filled.set.parameters
complete = rw (filled.current, filled.parameters, unfilled.current, unfilled.parameters) refl

abbrev pub vote : Procedure
vote = record { name = 118 ∷ 111 ∷ 116 ∷ 101 ∷ []; params = filled.set }

pub vote-IsReady : IsReady vote (each encode values)
unfolding to_bytes
vote-IsReady = record { filled = filled.filled; complete = complete; size = omega arith }

get_serialized_size-body_example :
    Procedure.get_serialized_size vote
    ≡ done (pos (4 + length (body vote (pos 7) (each encode values)))) vote
get_serialized_size-body_example =
    get_serialized_size-body vote (pos 7) (each encode values) vote-IsReady

serialize_to-body_example : Sent vote (pos 7) (each encode values)
serialize_to-body_example = serialize_to-body vote (pos 7) (each encode values) vote-IsReady

serialize_to_lem_example : Serialized filled.set (each encode values) (scoped 100)
unfolding scoped to_bytes
serialize_to_lem_example =
    serialize_to_lem filled.set (each encode values) (scoped 100) filled.filled complete
      (omega arith)

abbrev two_values : List Value
two_values = Value.int32 (pos 5) ∷ Value.null ∷ []

declared : (init parameters).dynamic_count ≡ false
unfolding init put_int put_word check_get_put_index scoped
declared = refl

add_all-Counted_example : Counted parameters two_values (Value.int32 (pos 5)) (init parameters)
add_all-Counted_example =
    add_all-Counted two_values (Value.int32 (pos 5)) (init parameters) [] parameters unfilled.filled
      declared from_front (refl, (tt, tt)) tt (omega arith)

-- The set of a procedure with no declared parameters, as `params()` hands it out.
growing : WasReset init_dynamic
growing = reset_lem init_dynamic init_dynamic-CanReset

abbrev typed_values : List Value
typed_values = Value.double 7 ∷ Value.int64s (pos 1 ∷ negsuc 0 ∷ []) ∷ []

add_all-grows_example :
    Added
      (growing.set.parameters ++ map parameter_of typed_values)
      2
      (each encode typed_values)
      growing.set
      (add_all typed_values growing.set)
unfolding init_dynamic
add_all-grows_example =
    add_all-grows typed_values growing.set [] growing.new.filled growing.dynamic
      (rw (growing.new.current, growing.new.parameters) refl) (tt, (tt, tt)) (omega arith)

abbrev tight : ParameterSet
tight = record {
  parameters = record { type = WireType.float; is_array = true } ∷ [];
  buffer = record {
    storage = 0 ∷ 1 ∷ replicate 18 0;
    position = 2;
    capacity = 20;
    limit = 20;
    expandable = true;
  };
  current_param = 0;
  dynamic_count = false;
}

tight-IsFilled : IsFilled tight []
unfolding to_bytes to_word cast to_int
tight-IsFilled = record {
  is_open = record {
    expandable = refl;
    limit = refl;
    storage = refl;
    position = omega arith;
    capacity = omega arith;
  };
  bytes = refl;
}

add_doubles_overflow_example : Overflows (add_doubles (1 ∷ 2 ∷ []) tight)
add_doubles_overflow_example =
    add_doubles_overflow (1 ∷ 2 ∷ []) tight [] tight-IsFilled refl (omega arith) (omega arith)
      (omega arith) (omega arith)

abbrev login : Request
login = record {
  username = 98 ∷ 111 ∷ 98 ∷ [];
  service = 100 ∷ 98 ∷ [];
  password_hash = replicate 32 9;
  scheme = sha256;
}

serialize_to-login_example :
    (Auth.get_serialized_size login ≡ pos (4 + length (login_bytes login)))
    × (Auth.serialize_to login (scoped (4 + length (login_bytes login)))
        ≡ done tt (holding (framed (login_bytes login))))
serialize_to-login_example = serialize_to-login login (record { hash = refl; size = omega arith })

abbrev server : Login
server = record {
  host_id = pos 2;
  connection_id = pos 900;
  cluster_start_time = pos 1234567890123;
  leader_address = negsuc 4;
  build_string = 118 ∷ 53 ∷ [];
}

read_response-accept_example :
    Reads read_response (accept_bytes server) (record { result_code = pos 0; login = some server })
read_response-accept_example = read_response-accept server (omega arith)
