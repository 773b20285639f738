-- ===== src/Tests/Routing.antt =====
-- include/ElasticHashinator.h and src/Distributer.cpp at concrete inputs.
use voltdb_client_cpp.Prelude.{◌≡◌, refl, List, [], ◌∷◌, arith, length, some, none, true, false}
use voltdb_client_cpp.Prelude.Int.{pos, negsuc}
use voltdb_client_cpp.Action.{done}
use voltdb_client_cpp.Buffer.Frame.{framed, holding}
use voltdb_client_cpp.Hashinator.{
  Token, Murmur, partition_for_token, search, turn, compare_mid, hashinate_int,
}
use voltdb_client_cpp.Hashinator.Floor.{IsSorted, floor}
use voltdb_client_cpp.Hashinator.Search.{partition_for_token-floor}
use voltdb_client_cpp.Params.Values.{Value, each, encode}
use voltdb_client_cpp.Procedure.Message.{body}
use voltdb_client_cpp.Distributer.{Distributer, get_hashed_partition_for_parameter}
use voltdb_client_cpp.Distributer.Partition.{value_partition, get_hashed_partition-body}
use voltdb_client_cpp.Tests.Messages.{values, vote, vote-IsReady}
use voltdb_client_cpp.Prelude.{sym, ap, ◌∙◌, some_inj}
use voltdb_client_cpp.Buffer.{eqb_bytes}
use voltdb_client_cpp.Distributer.{ProcedureInfo, get_procedure, find_procedure, find_host}
use voltdb_client_cpp.Client.{Client, init, callbacks_of}
use voltdb_client_cpp.Client.Invoke.{route, keep_known, find_bev}
use voltdb_client_cpp.Client.Routed.{home, partition_of, route-home}

abbrev first : Token
first = record { position = negsuc 99; partition = pos 0 }

abbrev others : List Token
others =
    record { position = pos 10; partition = pos 1 }
    ∷ record { position = pos 20; partition = pos 2 }
    ∷ []

abbrev ring : List Token
ring = first ∷ others

sorted : IsSorted ring
sorted = (
  (omega arith, (omega arith, omega arith)),
  ((omega arith, omega arith), (omega arith, omega arith)),
)

between : partition_for_token ring (pos 15) ≡ some (pos 1)
unfolding partition_for_token search turn compare_mid
between = refl

-- In front of the first token the code reads outside its array.
in_front : partition_for_token ring (negsuc 200) ≡ none
unfolding partition_for_token search turn compare_mid
in_front = refl

partition_for_token-floor_example : partition_for_token ring (pos 15) ≡ floor ring (pos 15)
partition_for_token-floor_example = partition_for_token-floor ring (pos 15) sorted

abbrev hash : Murmur
hash = record { of_int = λ z. z; of_text = λ s. pos (length s) }

abbrev routing : Distributer
routing = record {
  procedure_info = [];
  partition_to_host_id = [];
  is_updating = false;
  is_elastic = true;
  hashinator = some ring;
  saved_topo_table = none;
}

abbrev rest : List Value
rest = Value.null ∷ Value.strings ((104 ∷ 105 ∷ []) ∷ []) ∷ []

five : partition_for_token ring (pos 5) ≡ some (pos 0)
unfolding partition_for_token search turn compare_mid
five = refl

five_key : value_partition hash ring (Value.int32 (pos 5)) ≡ some (pos 0)
unfolding hashinate_int
five_key = five

get_hashed_partition-body_example :
    get_hashed_partition_for_parameter hash routing
      (pos 0)
      (holding (framed (body vote (pos 7) (each encode values))))
    ≡ done (pos 0) (holding (framed (body vote (pos 7) (each encode values))))
get_hashed_partition-body_example =
    get_hashed_partition-body vote (pos 7) (Value.int32 (pos 5)) (each encode rest) hash routing
      ring (pos 0) vote-IsReady (omega arith) refl five_key

-- A client with affinity: partition 0 is at host 1, whose connection is 8.
abbrev votes : ProcedureInfo
votes = record {
  multi_part = false;
  read_only = false;
  partition_parameter = pos 0;
  partition_parameter_type = pos 5;
}

abbrev routing_client : Client
routing_client = record (init (pos 3)) {
  bevs = 7 ∷ 8 ∷ [];
  callbacks = (7, []) ∷ (8, []) ∷ [];
  host_id_to_event = (pos 1, 8) ∷ [];
  use_client_affinity = true;
  distributer = record routing {
    procedure_info = (vote.name, votes) ∷ [];
    partition_to_host_id = (pos 0, pos 1) ∷ [];
  };
}

known_vote : get_procedure routing_client.distributer vote.name ≡ some votes
unfolding get_procedure find_procedure eqb_bytes
known_vote = refl

vote_first :
    (info : ProcedureInfo)
    → get_procedure routing_client.distributer vote.name ≡ some info
    → info.multi_part ≡ false
    → info.partition_parameter ≡ pos 0
vote_first info e single =
    sym (ap (λ (i : ProcedureInfo). i.partition_parameter) (some_inj (sym known_vote ∙ e)))

vote_partition :
    partition_of hash ring
      (Value.int32 (pos 5))
      (get_procedure routing_client.distributer vote.name)
    ≡ some (pos 0)
vote_partition = rw known_vote five_key

route-home_example :
    route hash vote.name
      (holding (framed (body vote (pos 7) (each encode values))))
      7
      routing_client
    ≡ done (keep_known 7 (home routing_client (pos 0)) routing_client) routing_client
route-home_example =
    route-home vote (pos 7) (Value.int32 (pos 5)) (each encode rest) hash routing_client ring
      (pos 0) vote-IsReady (omega arith) refl vote_first vote_partition 7 refl refl

home_of_vote : keep_known 7 (home routing_client (pos 0)) routing_client ≡ 8
unfolding find_host find_bev callbacks_of
home_of_vote = refl
