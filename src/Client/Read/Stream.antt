-- ===== src/Client/Read/Stream.antt =====
-- The responses in the stream of a connection of src/ClientImpl.cpp.
use voltdb_client_cpp.Prelude.{
  ℕ, zero, suc, ◌+◌, ◌*◌, ◌≤◌, ◌<◌, ◌≡◌, refl, ◌∙◌, subst, Bool, true, false, ◌||◌, List, [], ◌∷◌,
  ◌++◌, arith, length, length-append, append_assoc, ltb, take, drop, take-append, drop-append,
}
use voltdb_client_cpp.Prelude.Int.{ℤ, pos}
use voltdb_client_cpp.Action.{Action, Outcome, done, fail, pure, ◌>>=◌, continue}
use voltdb_client_cpp.Wire.{to_bytes, to_int}
use voltdb_client_cpp.Wire.Laws.{length-to_bytes, from_bytes-to_bytes}
use voltdb_client_cpp.Buffer.Put.{IsText, text_bytes}
use voltdb_client_cpp.Client.{Client, Handlers}
use voltdb_client_cpp.Client.Read.{
  Context, size, message, short, next_piece, handle_message, stop, read_loop, regular_read_callback,
}

-- The stream: each message behind its length.
abbrev pub stream : List (List ℕ) → List ℕ
stream [] = []
stream (m ∷ ms) = text_bytes m ++ stream ms

-- No response is shorter than four bytes.
abbrev pub AllMessages : List (List ℕ) → Type 0
AllMessages [] = 0 ≤ 0
AllMessages (m ∷ ms) = (IsText m × (4 ≤ length m)) × AllMessages ms

-- The messages handled one after the other.
unfoldable pub handle_messages : Handlers → ℕ → List (List ℕ) → Bool → Action Client Bool
handle_messages h bev [] leave = pure leave
handle_messages h bev (m ∷ ms) leave =
    handle_message h bev m >>= λ b. handle_messages h bev ms (leave || b)

abbrev pub before_length : ℤ → Context
before_length n = record { next_length = n; length_or_message = true }

abbrev pub before_message : ℤ → Context
before_message n = record { next_length = n; length_or_message = false }

-- The length that was read last.
abbrev pub last_length : ℤ → List (List ℕ) → ℤ
last_length n [] = n
last_length n (m ∷ ms) = last_length (pos (length m)) ms

next_piece-size :
    (m tail : List ℕ) (n : ℤ)
    → IsText m
    → next_piece (before_length n) (to_bytes 4 (length m) ++ tail) ≡ size (pos (length m)) tail
unfolding next_piece
next_piece-size m tail n h =
    let hd = to_bytes 4 (length m) in
    let l = length-to_bytes 4 (length m) in
    let k : ltb (length (hd ++ tail)) 4 ≡ false = ground (arith, l, length-append hd tail) in
    let t : take 4 (hd ++ tail) ≡ hd =
      subst (λ k. take k (hd ++ tail) ≡ hd) l (take-append hd tail) in
    let d : drop 4 (hd ++ tail) ≡ tail =
      subst (λ k. drop k (hd ++ tail) ≡ tail) l (drop-append hd tail) in
    let z : to_int 4 (length m) ≡ pos (length m) = unfold to_int in ground arith in
    rw (k, t, d, from_bytes-to_bytes 4 (length m) (omega arith), z) refl

next_piece-message :
    (m tail : List ℕ) → next_piece (before_message (pos (length m))) (m ++ tail) ≡ message m tail
unfolding next_piece
next_piece-message m tail =
    let k : ltb (length (m ++ tail)) (length m) ≡ false = ground (arith, length-append m tail) in
    rw (k, take-append m tail, drop-append m tail) refl

next_piece-short :
    (tail : List ℕ) (n : ℕ)
    → length tail < 4
    → 4 ≤ n
    → next_piece (before_length (pos n)) tail ≡ short
unfolding next_piece
next_piece-short tail n h k = ground arith

stream_assoc :
    (m : List ℕ) (ms : List (List ℕ)) (tail : List ℕ)
    → stream (m ∷ ms) ++ tail ≡ to_bytes 4 (length m) ++ (m ++ (stream ms ++ tail))
stream_assoc m ms tail =
    append_assoc (text_bytes m) (stream ms) tail
    ∙ append_assoc (to_bytes 4 (length m)) m (stream ms ++ tail)

-- Two turns for a message: its length and its bytes.
two_turns :
    (m : List ℕ) (ms : List (List ℕ)) (tail : List ℕ) (h : Handlers) (bev n fuel : ℕ) (leave : Bool)
    (s : Client)
    → IsText m
    → read_loop (suc (suc fuel)) h bev (before_length (pos n)) (stream (m ∷ ms) ++ tail) leave s
      ≡ (handle_message h bev m >>= λ b.
            read_loop fuel h bev (before_length (pos (length m))) (stream ms ++ tail) (leave || b))
          s
unfolding read_loop
two_turns m ms tail h bev n fuel leave s a =
    rw
      (
        stream_assoc m ms tail,
        read_loop,
        next_piece-size m (m ++ (stream ms ++ tail)) (pos n) a,
        next_piece-message m (stream ms ++ tail),
      )
      (by_outcome (handle_message h bev m s))
  where
    by_outcome :
        (o : Outcome Client Bool)
        → elim o [
          | fail e t ↦ fail e t
          | done b t ↦
              read_loop fuel h bev
                (before_length (pos (length m)))
                (stream ms ++ tail)
                (leave || b)
                t
        ]
          ≡ continue o (λ b.
            read_loop fuel h bev (before_length (pos (length m))) (stream ms ++ tail) (leave || b))
    by_outcome (fail e t) = refl
    by_outcome (done b t) = refl

pub same_steps :
    {A B : Type 0} (o : Outcome Client A) (f g : A → Action Client B)
    → ((a : A) (s : Client) → f a s ≡ g a s)
    → continue o f ≡ continue o g
same_steps (done a s) f g h = h a s
same_steps (fail e s) f g h = refl

continue-continue :
    {A B C : Type 0} (o : Outcome Client A) (f : A → Action Client B) (g : B → Action Client C)
    → continue o (λ a s. continue (f a s) g) ≡ continue (continue o f) g
continue-continue (done a s) f g = refl
continue-continue (fail e s) f g = refl

-- A stream of messages, none shorter than four bytes, with fewer than four bytes behind the last, is
-- cut at its lengths: each message is handled once and in order, the first exception ends it, and the
-- bytes behind the last message stay in the input. Two turns for each message and one more are enough.
pub read_loop-stream :
    (ms : List (List ℕ)) (tail : List ℕ) (h : Handlers) (bev n fuel : ℕ) (leave : Bool) (s : Client)
    → AllMessages ms
    → length tail < 4
    → 4 ≤ n
    → 2 * length ms < fuel
    → read_loop fuel h bev (before_length (pos n)) (stream ms ++ tail) leave s
      ≡ (handle_messages h bev ms leave >>= stop (before_length (last_length (pos n) ms)) tail) s
unfolding handle_messages
read_loop-stream [] tail h bev n zero leave s a t k f = absurd (omega arith)
read_loop-stream [] tail h bev n (suc fuel) leave s a t k f =
    unfold read_loop in rw (read_loop, next_piece-short tail n t k) refl
read_loop-stream (m ∷ ms) tail h bev n zero leave s a t k f = absurd (omega arith)
read_loop-stream (m ∷ ms) tail h bev n (suc zero) leave s a t k f = absurd (omega arith)
read_loop-stream (m ∷ ms) tail h bev n (suc (suc fuel)) leave s a t k f =
    two_turns m ms tail h bev n fuel leave s a.0.0
    ∙ same_steps (handle_message h bev m s)
        (λ b.
          read_loop fuel h bev (before_length (pos (length m))) (stream ms ++ tail) (leave || b))
        (λ b.
          handle_messages h bev ms (leave || b)
          >>= stop (before_length (last_length (pos (length m)) ms)) tail)
        (λ b u.
          read_loop-stream ms tail h bev (length m) fuel (leave || b) u a.1 t a.0.1 (omega arith))
    ∙ continue-continue (handle_message h bev m s) (λ b. handle_messages h bev ms (leave || b))
        (stop (before_length (last_length (pos (length m)) ms)) tail)

length-stream : (ms : List (List ℕ)) → length ms ≤ length (stream ms)
length-stream [] = omega arith
length-stream (m ∷ ms) = omega (
  arith,
  length-stream ms,
  length-append (text_bytes m) (stream ms),
  length-append (to_bytes 4 (length m)) m,
  length-to_bytes 4 (length m),
)

-- Called with a stream of messages in the input, one at least and none shorter than four bytes, with
-- fewer than four bytes behind the last, the callback handles each message once and in order, unless
-- one throws, which ends it; the bytes behind the last message stay in the input.
pub regular_read_callback-stream :
    (m : List ℕ) (ms : List (List ℕ)) (tail : List ℕ) (h : Handlers) (bev n : ℕ) (s : Client)
    → AllMessages (m ∷ ms)
    → length tail < 4
    → 4 ≤ n
    → regular_read_callback h bev (before_length (pos n)) (stream (m ∷ ms) ++ tail) s
      ≡ (handle_messages h bev (m ∷ ms) false
            >>= stop (before_length (last_length (pos n) (m ∷ ms))) tail)
          s
unfolding regular_read_callback
regular_read_callback-stream m ms tail h bev n s a t k =
    let bs = stream (m ∷ ms) ++ tail in
    let l = length-append (stream (m ∷ ms)) tail in
    let long : ltb (length bs) 4 ≡ false = ground (
      arith,
      l,
      length-append (text_bytes m) (stream ms),
      length-append (to_bytes 4 (length m)) m,
      length-to_bytes 4 (length m),
    ) in
    rw long (
      read_loop-stream (m ∷ ms) tail h bev n (2 + 2 * length bs) false s a t k
        (omega (arith, l, length-stream (m ∷ ms))))
