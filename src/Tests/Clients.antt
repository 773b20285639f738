-- ===== src/Tests/Clients.antt =====
-- src/ClientImpl.cpp at concrete inputs.
use voltdb_client_cpp.Prelude.{◌≡◌, refl, List, [], ◌∷◌, ◌++◌, some, none, true, false, ℕ, arith}
use voltdb_client_cpp.Prelude.Int.{ℤ, pos}
use voltdb_client_cpp.Action.{done, ◌>>=◌}
use voltdb_client_cpp.Distributer
use voltdb_client_cpp.Response.{InvocationResponse}
use voltdb_client_cpp.Client.{
  Client, Handlers, register, handle_response, abandon, magic, callbacks_of, find_callback,
}
use voltdb_client_cpp.Client.Outstanding.{Registered, register-IsCounted}
use voltdb_client_cpp.Client.Handling.{Handled, IsPolite, handle_response-Handled}
use voltdb_client_cpp.Client.Maps.{AllDistinct}
use voltdb_client_cpp.Client.Read.{regular_read_callback, stop}
use voltdb_client_cpp.Client.Read.Stream.{
  stream, before_length, last_length, handle_messages, regular_read_callback-stream,
}
use voltdb_client_cpp.Client.Read.Turns.{settle}
use voltdb_client_cpp.Client.Read.Chunks.{feed, concat, feed-concat}
use voltdb_client_cpp.Client.Invoke.{free_bev}
use voltdb_client_cpp.Client.Choose.{Round, free_bev-Round}
use voltdb_client_cpp.Client.Lost.{Miscounted, IsQuiet, abandon-Miscounted}

abbrev handlers : Handlers
handlers = record {
  callback = λ c r s. done true s;
  uncaught = none;
  connection_lost = none;
  connection_active = none;
}

abbrev map_of : List (ℤ × ℕ)
map_of = (magic, 0) ∷ (pos 4, 1) ∷ []

abbrev client : Client
client = record {
  bevs = 3 ∷ 8 ∷ [];
  next_connection_index = 0;
  next_request_id = pos 6;
  callbacks = (3, map_of) ∷ (8, (magic, 0) ∷ (pos 5, 2) ∷ []) ∷ [];
  outstanding_requests = pos 2;
  max_outstanding_requests = pos 3000;
  backpressured_bevs = [];
  host_id_to_event = [];
  invocation_blocked_on_backpressure = false;
  loop_break_requested = false;
  is_draining = false;
  ignore_backpressure = false;
  use_client_affinity = false;
  instance_id = none;
  pending = [];
  distributer = Distributer.init;
}

on_three : callbacks_of 3 client.callbacks ≡ some map_of
unfolding callbacks_of
on_three = refl

polite : IsPolite handlers
polite = record { callback = λ bev id c r s h. h; uncaught = λ u bev id c r s e h. cc }

register-IsCounted_example : Registered 3 (pos 6) 4 (register 3 (pos 6) 4 client)
unfolding find_callback
register-IsCounted_example = register-IsCounted 3 (pos 6) 4 client map_of refl on_three refl refl

abbrev answer : InvocationResponse
answer = record {
  client_data = pos 4;
  status_code = pos 1;
  status_string = [];
  app_status_code = pos 0;
  app_status_string = [];
  cluster_round_trip_time = pos 0;
  results = [];
}

distinct : AllDistinct client.callbacks
unfolding find_callback callbacks_of
distinct = (refl, (refl, (refl, omega arith)), (refl, (refl, (refl, omega arith)), omega arith))

handle_response-Handled_example :
    Handled handlers 3 answer client
      (find_callback answer.client_data map_of)
      (handle_response handlers 3 answer client)
handle_response-Handled_example =
    handle_response-Handled handlers 3 answer client map_of polite refl distinct on_three

-- The response is one that is waited for.
answered : find_callback answer.client_data map_of ≡ some 1
unfolding find_callback
answered = refl

quiet : IsQuiet handlers
quiet = record { answer = λ c r s. true; returns = λ c r s. refl }

abandon-Miscounted_example : Miscounted 3 (abandon handlers map_of client)
abandon-Miscounted_example = abandon-Miscounted handlers 3 client map_of quiet refl on_three refl

abbrev messages : List (List ℕ)
messages = (1 ∷ 2 ∷ 3 ∷ 4 ∷ []) ∷ (5 ∷ 6 ∷ 7 ∷ 8 ∷ 9 ∷ []) ∷ []

regular_read_callback-stream_example :
    regular_read_callback handlers 3 (before_length (pos 4)) (stream messages ++ 0 ∷ 0 ∷ []) client
    ≡ (handle_messages handlers 3 messages false
          >>= stop (before_length (last_length (pos 4) messages)) (0 ∷ 0 ∷ []))
        client
regular_read_callback-stream_example =
    regular_read_callback-stream (1 ∷ 2 ∷ 3 ∷ 4 ∷ []) ((5 ∷ 6 ∷ 7 ∷ 8 ∷ 9 ∷ []) ∷ []) (0 ∷ 0 ∷ [])
      handlers 3 4 client ((omega arith, omega arith), ((omega arith, omega arith), omega arith))
      (omega arith) (omega arith)

abbrev busy_client : Client
busy_client = record client { backpressured_bevs = 3 ∷ [] }

free_bev-Round_example : Round busy_client (free_bev 2 busy_client)
free_bev-Round_example = free_bev-Round busy_client (omega arith)

-- The second message is cut in its length and in its bytes.
abbrev pieces : List (List ℕ)
pieces = (0 ∷ 0 ∷ 5 ∷ []) ∷ (5 ∷ 6 ∷ []) ∷ []

abbrev first_piece : List ℕ
first_piece = stream ((1 ∷ 2 ∷ 3 ∷ 4 ∷ []) ∷ []) ++ 0 ∷ []

feed-concat_example :
    feed handlers 3 (before_length (pos 4)) [] (first_piece ∷ pieces) client
    ≡ settle (
        regular_read_callback handlers 3
          (before_length (pos 4))
          ([] ++ (first_piece ++ concat handlers 3 pieces))
          client)
feed-concat_example =
    feed-concat handlers 3 pieces (before_length (pos 4)) [] first_piece client (omega arith)
