-- ===== src/Response.antt =====
-- include/InvocationResponse.hpp: the answer to an invocation, with its tables.
pub mod Results
pub mod Optional
pub mod Parse
use voltdb_client_cpp.Prelude.{
  ℕ, zero, suc, ◌+◌, ◌/◌, ◌%◌, ◌^◌, Bool, true, false, Option, none, some, List, [], ◌∷◌, ◌==◌,
  if◌then◌else◌,
}
use voltdb_client_cpp.Prelude.Int.{ℤ, pos, negsuc, ◌+ℤ◌, eqb_ℤ, ltb_ℤ}
use voltdb_client_cpp.Action.{
  Action, Outcome, done, fail, pure, throw, gets, throw_if, ◌>>=◌, ◌>>◌, undefined,
}
use voltdb_client_cpp.Wire.{to_word}
use voltdb_client_cpp.Buffer.{ByteBuffer, Void, get_int, get_string, set_position, set_limit, slice}
use voltdb_client_cpp.Table.{Table, read_table}

pub record InvocationResponse : Type 0 where
  pub client_data : ℤ
  pub status_code : ℤ
  pub status_string : List ℕ
  pub app_status_code : ℤ
  pub app_status_string : List ℕ
  pub cluster_round_trip_time : ℤ
  pub results : List Table

-- The text of a lost connection is left out.
unfoldable pub connection_lost : InvocationResponse
connection_lost = record {
  client_data = pos 0;
  status_code = negsuc 3;
  status_string = [];
  app_status_code = negsuc 127;
  app_status_string = [];
  cluster_round_trip_time = pos 0;
  results = [];
}

-- `(presentFields & (1 << k)) != 0`
unfoldable pub has_field : ℕ → ℤ → Bool
has_field k fields = to_word 1 fields / 2 ^ k % 2 == 1

abbrev pub text : Option (List ℕ) → Action ByteBuffer (List ℕ)
text none = throw undefined
text (some s) = pure s

-- A string that is there; `wasNull` is asserted to be false behind both.
unfoldable pub read_text : Bool → Action ByteBuffer (List ℕ)
read_text true = get_string >>= text
read_text false = pure []

-- The serialized exception is skipped by its length.
unfoldable pub skip_exception : Bool → Action ByteBuffer Void
skip_exception false = pure tt
skip_exception true = do
  place ← gets (λ b. b.position)
  n ← get_int 4
  set_position (pos (place + 4) +ℤ n)

abbrev pub on_slice : Outcome ByteBuffer Table → Action ByteBuffer Table
on_slice (done t _) = pure t
on_slice (fail e _) = throw e

unfoldable pub read_result : ℕ → Action ByteBuffer Table
read_result start_limit = do
  n ← get_int 4
  throw_if (ltb_ℤ n (pos 4)) undefined
  place ← gets (λ b. b.position)
  set_limit (pos place +ℤ n)
  s ← slice
  t ← on_slice (read_table s)
  set_limit (pos start_limit)
  pure t

unfoldable pub read_results : ℕ → ℕ → Action ByteBuffer (List Table)
read_results zero start_limit = pure []
read_results (suc n) start_limit = do
  t ← read_result start_limit
  rest ← read_results n start_limit
  pure (t ∷ rest)

-- A negative count, cast to a `size_t`, asks for more memory than there is.
abbrev pub read_counted : ℤ → Action ByteBuffer (List Table)
read_counted (negsuc n) = throw undefined
read_counted (pos n) = gets (λ b. b.limit) >>= read_results n

-- `InvocationResponse(boost::shared_array<char>& data, int32_t length)`
unfoldable pub read_response : Action ByteBuffer InvocationResponse
read_response = do
  version ← get_int 1
  throw_if (if eqb_ℤ version (pos 0) then false else true) undefined
  client_data ← get_int 8
  fields ← get_int 1
  status_code ← get_int 1
  status_string ← read_text (has_field 5 fields)
  app_status_code ← get_int 1
  app_status_string ← read_text (has_field 7 fields)
  time ← get_int 4
  skip_exception (has_field 6 fields)
  count ← get_int 2
  results ← read_counted count
  pure (record {
    client_data = client_data;
    status_code = status_code;
    status_string = status_string;
    app_status_code = app_status_code;
    app_status_string = app_status_string;
    cluster_round_trip_time = time;
    results = results;
  })
