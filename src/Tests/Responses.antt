-- ===== src/Tests/Responses.antt =====
-- include/InvocationResponse.hpp and src/Table.cpp at concrete inputs.
use voltdb_client_cpp.Prelude.{
  refl, List, [], ◌∷◌, ℕ, some, none, arith, true, sym, append-nil, ◌≡◌, ◌++◌, false, length, ◌<◌,
  ◌^◌,
}
use voltdb_client_cpp.Prelude.Int.{pos, negsuc}
use voltdb_client_cpp.WireType.{WireType, code, of_code}
use voltdb_client_cpp.Wire.{to_bytes}
use voltdb_client_cpp.Row.{Column}
use voltdb_client_cpp.Buffer.Frame.{holding}
use voltdb_client_cpp.Buffer.Get.{Starts}
use voltdb_client_cpp.Table.Columns.{IsTable}
use voltdb_client_cpp.Table.Parse.{Parsed, read_table-Parsed}
use voltdb_client_cpp.Response.Parse.{
  Answer, IsAnswer, Answered, answer_bytes, read_response-Answered,
}
use voltdb_client_cpp.Action.{done, ◌>>=◌}
use voltdb_client_cpp.Client.{Client, Handlers, init}
use voltdb_client_cpp.Client.Read.{stop, regular_read_callback}
use voltdb_client_cpp.Client.Read.Stream.{stream, before_length, last_length}
use voltdb_client_cpp.Client.Read.Answers.{
  messages_of, handle_answers, regular_read_callback-answers,
}

abbrev columns : List Column
columns =
    record { type = WireType.bigint; name = 105 ∷ 100 ∷ [] }
    ∷ record { type = WireType.string; name = 110 ∷ [] }
    ∷ []

abbrev rows : List (List ℕ)
rows = (1 ∷ 2 ∷ []) ∷ [] ∷ (3 ∷ []) ∷ []

rows-IsTable : IsTable (negsuc 127) columns rows
unfolding code of_code to_bytes
rows-IsTable = record {
  some_column = omega arith;
  few_columns = omega arith;
  valid_columns = (
    record { named = refl; fits = omega arith; text = omega arith },
    (record { named = refl; fits = omega arith; text = omega arith }, omega arith),
  );
  valid_rows = (omega arith, (omega arith, (omega arith, omega arith)));
  size = omega arith;
}

read_table-Parsed_example : Parsed true (negsuc 127) columns rows
read_table-Parsed_example = read_table-Parsed true (negsuc 127) columns rows rows-IsTable

abbrev answer : Answer
answer = record {
  client_data = pos 7;
  status = pos 1;
  status_string = none;
  app_status = negsuc 127;
  app_string = some (111 ∷ 107 ∷ []);
  time = pos 3;
  exception = some (1 ∷ []);
  tables =
      record { status = negsuc 127; columns = columns; rows = rows; valid = rows-IsTable } ∷ [];
}

answer-IsAnswer : IsAnswer answer
answer-IsAnswer = record {
  client_data = omega arith;
  status = omega arith;
  status_string = omega arith;
  app_status = omega arith;
  app_string = omega arith;
  time = omega arith;
  exception = omega arith;
  tables = omega arith;
}

answer-Starts : Starts (answer_bytes answer) (holding (answer_bytes answer))
answer-Starts = record {
  rest = [];
  bytes = sym (append-nil (answer_bytes answer));
  inside = omega arith;
}

read_response-Answered_example : Answered answer (holding (answer_bytes answer))
read_response-Answered_example =
    read_response-Answered answer (holding (answer_bytes answer)) answer-IsAnswer answer-Starts
      (omega arith)

abbrev handlers : Handlers
handlers = record {
  callback = λ c r s. done true s;
  uncaught = none;
  connection_lost = none;
  connection_active = none;
}

-- A client that waits for the answer on connection 7.
abbrev client : Client
client = record (init (pos 3)) {
  callbacks = (7, (pos 7, 1) ∷ []) ∷ [];
  outstanding_requests = pos 1;
}

answer_size : length (answer_bytes answer) < 2 ^ 31
unfolding to_bytes code
answer_size = omega arith

regular_read_callback-answers_example :
    regular_read_callback handlers 7
      (before_length (pos 4))
      (stream (messages_of (answer ∷ [])) ++ 0 ∷ [])
      client
    ≡ (handle_answers handlers 7 (answer ∷ []) false
          >>= stop (before_length (last_length (pos 4) (messages_of (answer ∷ [])))) (0 ∷ []))
        client
regular_read_callback-answers_example =
    regular_read_callback-answers answer [] (0 ∷ []) handlers 7 4 client
      ((answer-IsAnswer, omega (arith, answer_size)), omega arith) (omega arith) (omega arith)
