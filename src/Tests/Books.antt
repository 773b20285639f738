-- ===== src/Tests/Books.antt =====
-- The callbacks of src/ClientImpl.cpp through connections, requests and answers that are given.
use voltdb_client_cpp.Prelude.{List, [], ◌∷◌, none, false, refl, arith}
use voltdb_client_cpp.Prelude.Int.{pos}
use voltdb_client_cpp.Auth.{Login}
use voltdb_client_cpp.Client.{init, callbacks_of}
use voltdb_client_cpp.Client.Book.{
  Book, Event, joined, requested, answered, lost, Records, Refines, note_all, perform_all,
  perform_all-Refines,
}

abbrev login : Login
login = record {
  host_id = pos 1;
  connection_id = pos 0;
  cluster_start_time = pos 0;
  leader_address = pos 0;
  build_string = [];
}

abbrev empty : Book
empty = record { is_open = λ x. false; entry = λ x id. none }

-- A connection joins, a request is made and answered, another waits, and the connection is lost.
abbrev events : List Event
events =
    joined login 7
    ∷ requested 7 (pos 5) 1
    ∷ requested 7 (pos 6) 2
    ∷ answered 7 (pos 5)
    ∷ lost 7
    ∷ []

empty-Records : Records (init (pos 3)).callbacks empty
unfolding init callbacks_of
empty-Records = record { distinct = omega arith; pages = λ x. refl; entries = λ x id. refl }

perform_all-Refines_example : Refines (note_all events empty) (perform_all events (init (pos 3)))
perform_all-Refines_example = perform_all-Refines events (init (pos 3)) empty empty-Records
