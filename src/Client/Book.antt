-- ===== src/Client/Book.antt =====
-- What the callbacks of src/ClientImpl.cpp stand for: a book with a page for each connection, where each
-- request that waits has an entry.
use voltdb_client_cpp.Prelude.{
  ℕ, ◌≡◌, refl, ap, subst, sym, ◌∙◌, inl, inr, Bool, true, false, Option, none, some, List, [], ◌∷◌,
  ◌==◌, if◌then◌else◌, arith, Bool-cases, Option-cases,
}
use voltdb_client_cpp.Prelude.Int.{ℤ, eqb_ℤ}
use voltdb_client_cpp.Action.{Action, Outcome, Error, done, fail, pure, ◌>>◌, >>_done}
use voltdb_client_cpp.Auth.{Login}
use voltdb_client_cpp.Buffer.{Void}
use voltdb_client_cpp.Client.{
  Client, magic, find_callback, put_callback, erase_callback, callbacks_of, set_callbacks,
  erase_callbacks, register, finish,
}
use voltdb_client_cpp.Client.Invoke.{is_there}
use voltdb_client_cpp.Client.Connections.{add_connection, forget_callbacks}
use voltdb_client_cpp.Client.Maps.{
  entry_in, Callbacks, Distinct, AllDistinct, find_callback-put, find_callback-erase,
  callbacks_of-set, callbacks_of-erase, Distinct-put, Distinct-erase, AllDistinct-set,
  AllDistinct-erase, Distinct-found,
}

pub record Book : Type 0 where
  pub is_open : ℕ → Bool
  pub entry : ℕ → ℤ → Option ℕ

-- The page of a connection is replaced, or torn out.
abbrev with_page : ℕ → (ℤ → Option ℕ) → Book → Book
with_page bev f b = record {
  is_open = λ x. if bev == x then true else b.is_open x;
  entry = λ x id. if bev == x then f id else b.entry x id;
}

abbrev without_page : ℕ → Book → Book
without_page bev b = record {
  is_open = λ x. if bev == x then false else b.is_open x;
  entry = λ x id. if bev == x then none else b.entry x id;
}

-- A connection has joined or is lost, a request has been made or answered.
pub data Event : Type 0 where
  joined : Login → ℕ → Event
  requested : ℕ → ℤ → ℕ → Event
  answered : ℕ → ℤ → Event
  lost : ℕ → Event

abbrev pub perform : Event → Action Client Void
perform (joined l bev) = add_connection l bev
perform (requested bev id c) = register bev id c
perform (answered bev id) = finish bev id
perform (lost bev) = forget_callbacks bev

-- What an event is for the book; none where the connection has no page.
abbrev pub note : Event → Book → Option Book
note (joined l bev) b = some (with_page bev (λ id. if eqb_ℤ magic id then some 0 else none) b)
note (requested bev k c) b =
    if b.is_open bev
    then some (with_page bev (λ id. if eqb_ℤ k id then some c else b.entry bev id) b)
    else none
note (answered bev k) b =
    if eqb_ℤ k magic
    then some b
    else if b.is_open bev
    then some (with_page bev (λ id. if eqb_ℤ k id then none else b.entry bev id) b)
    else none
note (lost bev) b = some (without_page bev b)

-- The callbacks stand for the book, and no key has two entries.
pub record Records (ms : List (ℕ × Callbacks)) (b : Book) : Type 0 where
  pub distinct : AllDistinct ms
  pub pages : (x : ℕ) → is_there (callbacks_of x ms) ≡ b.is_open x
  pub entries : (x : ℕ) (id : ℤ) → entry_in (callbacks_of x ms) id ≡ b.entry x id

-- The client does as the book says, and fails where the book does.
abbrev pub Refines : Option Book → Outcome Client Void → Type 0
Refines none o = (e : Error) × (t : Client) × (o ≡ fail e t)
Refines (some b) o = (t : Client) × (o ≡ done tt t) × Records t.callbacks b

set_callbacks-Records :
    (bev : ℕ) (m : Callbacks) (f : ℤ → Option ℕ) (ms : List (ℕ × Callbacks)) (b : Book)
    → ((id : ℤ) → find_callback id m ≡ f id)
    → Distinct m
    → Records ms b
    → Records (set_callbacks bev m ms) (with_page bev f b)
set_callbacks-Records bev m f ms b h u r = record {
  distinct = AllDistinct-set bev m ms u r.distinct;
  pages = λ x.
      rw (callbacks_of-set x bev m ms)
        (elim (Bool-cases (bev == x)) [ inl e ↦ rw e refl | inr e ↦ rw e (r.pages x) ]);
  entries = λ x id.
      rw (callbacks_of-set x bev m ms)
        (elim (Bool-cases (bev == x)) [ inl e ↦ rw e (h id) | inr e ↦ rw e (r.entries x id) ]);
}

erase_callbacks-Records :
    (bev : ℕ) (ms : List (ℕ × Callbacks)) (b : Book)
    → Records ms b
    → Records (erase_callbacks bev ms) (without_page bev b)
erase_callbacks-Records bev ms b r = record {
  distinct = AllDistinct-erase bev ms r.distinct;
  pages = λ x.
      rw (callbacks_of-erase x bev ms r.distinct)
        (elim (Bool-cases (bev == x)) [ inl e ↦ rw e refl | inr e ↦ rw e (r.pages x) ]);
  entries = λ x id.
      rw (callbacks_of-erase x bev ms r.distinct)
        (elim (Bool-cases (bev == x)) [ inl e ↦ rw e refl | inr e ↦ rw e (r.entries x id) ]);
}

entry-found :
    (bev : ℕ) (id : ℤ) (m : Callbacks) (ms : List (ℕ × Callbacks)) (b : Book)
    → callbacks_of bev ms ≡ some m
    → Records ms b
    → find_callback id m ≡ b.entry bev id
entry-found bev id m ms b k r = sym (ap (λ o. entry_in o id) k) ∙ r.entries bev id

register-Refines :
    (bev : ℕ) (k : ℤ) (c : ℕ) (s : Client) (b : Book)
    → Records s.callbacks b
    → Refines (note (requested bev k c) b) (register bev k c s)
unfolding register
register-Refines bev k c s b r = elim (Option-cases (callbacks_of bev s.callbacks)) [
  | inl n ↦
      let o : b.is_open bev ≡ false = sym (r.pages bev) ∙ ap is_there n in rw (o, n) (_, _, refl)
  | inr (m, n) ↦
      let o : b.is_open bev ≡ true = sym (r.pages bev) ∙ ap is_there n in
      let u = Distinct-found bev m s.callbacks n r.distinct in
      rw (o, n)
        (
          _,
          refl,
          set_callbacks-Records bev (put_callback k c m) _ s.callbacks b
              (λ id. find_callback-put id k c m ∙ rw (entry-found bev id m s.callbacks b n r) refl)
              (Distinct-put k c m u) r,
        )
]

finish-Refines :
    (bev : ℕ) (k : ℤ) (s : Client) (b : Book)
    → Records s.callbacks b
    → Refines (note (answered bev k) b) (finish bev k s)
unfolding finish
finish-Refines bev k s b r = elim (Bool-cases (eqb_ℤ k magic)) [
  | inl g ↦ rw g (s, refl, r)
  | inr g ↦ elim (Option-cases (callbacks_of bev s.callbacks)) [
    | inl n ↦
        let o : b.is_open bev ≡ false = sym (r.pages bev) ∙ ap is_there n in
        rw (g, o, n) (_, _, refl)
    | inr (m, n) ↦
        let o : b.is_open bev ≡ true = sym (r.pages bev) ∙ ap is_there n in
        let u = Distinct-found bev m s.callbacks n r.distinct in
        rw (g, o, n)
          (
            _,
            refl,
            set_callbacks-Records bev (erase_callback k m) _ s.callbacks b
                (λ id.
                  find_callback-erase id k m u ∙ rw (entry-found bev id m s.callbacks b n r) refl)
                (Distinct-erase k m u) r,
          )
  ]
]

perform-Refines :
    (e : Event) (s : Client) (b : Book) → Records s.callbacks b → Refines (note e b) (perform e s)
unfolding add_connection forget_callbacks put_callback find_callback
perform-Refines (joined l bev) s b r = (
  _,
  refl,
  set_callbacks-Records bev ((magic, 0) ∷ []) _ s.callbacks b (λ id. refl) (refl, omega arith) r,
)
perform-Refines (requested bev k c) s b r = register-Refines bev k c s b r
perform-Refines (answered bev k) s b r = finish-Refines bev k s b r
perform-Refines (lost bev) s b r = (_, refl, erase_callbacks-Records bev s.callbacks b r)

abbrev and_then : Option Book → (Book → Option Book) → Option Book
and_then none f = none
and_then (some b) f = f b

abbrev pub note_all : List Event → Book → Option Book
note_all [] b = some b
note_all (e ∷ es) b = and_then (note e b) (note_all es)

abbrev pub perform_all : List Event → Action Client Void
perform_all [] = pure tt
perform_all (e ∷ es) = perform e >> perform_all es

and_then-Refines :
    (o : Option Book) (es : List Event) (m : Action Client Void) (s : Client)
    → Refines o (m s)
    → ((b : Book) (t : Client) → Records t.callbacks b → Refines (note_all es b) (perform_all es t))
    → Refines (and_then o (note_all es)) ((m >> perform_all es) s)
and_then-Refines none es m s (e, t, q) later = (e, t, rw q refl)
and_then-Refines (some b) es m s (t, q, r) later =
    subst (Refines (note_all es b)) (sym (>>_done m (perform_all es) q)) (later b t r)

-- Any sequence of connections that join and are lost, and of requests and answers, leaves the callbacks
-- that a book with a page for each connection and an entry for each request that waits would have, and
-- fails just where the book has no page for the connection: a request adds its entry or replaces one of
-- its number, an answer strikes its entry out, but for that of the notifications, and a lost connection
-- takes its entries with it. The callbacks have to stand for the book at the start.
pub perform_all-Refines :
    (es : List Event) (s : Client) (b : Book)
    → Records s.callbacks b
    → Refines (note_all es b) (perform_all es s)
perform_all-Refines [] s b r = (s, refl, r)
perform_all-Refines (e ∷ es) s b r =
    and_then-Refines (note e b) es (perform e) s (perform-Refines e s b r)
      (λ c t. perform_all-Refines es t c)
