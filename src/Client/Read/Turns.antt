-- ===== src/Client/Read/Turns.antt =====
-- The turns of the loop of `regularReadCallback` in src/ClientImpl.cpp, and that its fuel is enough.
use voltdb_client_cpp.Prelude.{
  ℕ, zero, suc, ◌+◌, ◌*◌, ◌≤◌, ◌<◌, ◌≡◌, refl, sym, ◌∙◌, ap, ◌⊎◌, inl, inr, Bool, true, false, ◌||◌,
  List, [], ◌∷◌, arith, length, ltb, ltb→lt, take, drop, length-drop, length-take, Bool-cases,
}
use voltdb_client_cpp.Prelude.Int.{ℤ, pos, negsuc, ◌≤ℤ◌}
use voltdb_client_cpp.Action.{Outcome, Error, done, fail, undefined}
use voltdb_client_cpp.Wire.{from_bytes, to_int}
use voltdb_client_cpp.Buffer.{ByteBuffer, get_int, get_word, check_get_put_index}
use voltdb_client_cpp.Buffer.Frame.{holding}
use voltdb_client_cpp.Response.{InvocationResponse, read_response}
use voltdb_client_cpp.Client.{Client, Handlers}
use voltdb_client_cpp.Client.Read.{
  Context, Left, next_piece, handle_parsed, handle_message, stop, read_loop,
}
use voltdb_client_cpp.Client.Read.Stream.{before_length, before_message}

-- A parse that returned read the version and the number of the request.
parsed-length :
    (m : List ℕ) (r : InvocationResponse) (b : ByteBuffer)
    → read_response (holding m) ≡ done r b
    → 4 ≤ length m
unfolding read_response get_int get_word check_get_put_index
parsed-length [] r b e = cc
parsed-length (x ∷ []) r b e = ground arith
parsed-length (x ∷ y ∷ []) r b e = ground arith
parsed-length (x ∷ y ∷ z ∷ []) r b e = ground arith
parsed-length (x ∷ y ∷ z ∷ w ∷ m) r b e = omega arith

handled-length :
    (h : Handlers) (bev : ℕ) (m : List ℕ) (s : Client) (b : Bool) (t : Client)
    → handle_message h bev m s ≡ done b t
    → 4 ≤ length m
unfolding handle_message
handled-length h bev m s b t = parsed (read_response (holding m)) refl
  where
    parsed :
        (o : Outcome ByteBuffer InvocationResponse)
        → read_response (holding m) ≡ o
        → handle_parsed h bev o s ≡ done b t
        → 4 ≤ length m
    parsed (fail e c) q p = cc
    parsed (done r c) q p = parsed-length m r c q

module _ (h : Handlers) (bev : ℕ) where
  -- The turns of the loop.
  pub loop-size :
      (f : ℕ) (n : ℤ) (bs : List ℕ) (lv : Bool) (s : Client)
      → 4 ≤ length bs
      → read_loop (suc f) h bev (before_length n) bs lv s
        ≡ read_loop f h bev (before_message (to_int 4 (from_bytes (take 4 bs)))) (drop 4 bs) lv s
  unfolding read_loop next_piece
  loop-size f n bs lv s l =
      let k : ltb (length bs) 4 ≡ false = ground arith in rw (read_loop, next_piece, k) refl

  pub loop-short :
      (f n : ℕ) (bs : List ℕ) (lv : Bool) (s : Client)
      → length bs < 4
      → 4 ≤ n
      → read_loop (suc f) h bev (before_length (pos n)) bs lv s
        ≡ stop (before_length (pos n)) bs lv s
  unfolding read_loop next_piece
  loop-short f n bs lv s l g =
      let k : ltb (length bs) 4 ≡ true = ground arith in
      let j : ltb (length bs) n ≡ true = ground arith in rw (read_loop, next_piece, k, j) refl

  pub loop-part :
      (f n : ℕ) (bs : List ℕ) (lv : Bool) (s : Client)
      → length bs < n
      → read_loop (suc f) h bev (before_message (pos n)) bs lv s
        ≡ stop (before_message (pos n)) bs lv s
  unfolding read_loop next_piece
  loop-part f n bs lv s l =
      let j : ltb (length bs) n ≡ true = ground arith in rw (read_loop, next_piece, j) refl

  pub loop-fail :
      (f n : ℕ) (bs : List ℕ) (lv : Bool) (s : Client) (e : Error) (t : Client)
      → n ≤ length bs
      → handle_message h bev (take n bs) s ≡ fail e t
      → read_loop (suc f) h bev (before_message (pos n)) bs lv s ≡ fail e t
  unfolding read_loop next_piece
  loop-fail f n bs lv s e t l q =
      let j : ltb (length bs) n ≡ false = ground arith in rw (read_loop, next_piece, j, q) refl

  pub loop-done :
      (f n : ℕ) (bs : List ℕ) (lv : Bool) (s : Client) (b : Bool) (t : Client)
      → n ≤ length bs
      → handle_message h bev (take n bs) s ≡ done b t
      → read_loop (suc f) h bev (before_message (pos n)) bs lv s
        ≡ read_loop f h bev (before_length (pos n)) (drop n bs) (lv || b) t
  unfolding read_loop next_piece
  loop-done f n bs lv s b t l q =
      let j : ltb (length bs) n ≡ false = ground arith in rw (read_loop, next_piece, j, q) refl

  pub loop-broken :
      (f n : ℕ) (bs : List ℕ) (lv : Bool) (s : Client)
      → read_loop (suc f) h bev (before_message (negsuc n)) bs lv s ≡ fail undefined s
  unfolding read_loop next_piece
  loop-broken f n bs lv s = refl

-- What the callback did, but for whether it asks for the event loop to be left.
abbrev pub settle : Outcome Client Left → Outcome Client (Context × List ℕ)
settle (done l s) = done (l.context, l.rest) s
settle (fail e s) = fail e s

abbrev pub context_at : Bool → ℤ → Context
context_at mode n = record { next_length = n; length_or_message = mode }

-- In front of a length the length of the last message, or that of a new connection, is at least four.
abbrev pub IsReady : Bool → ℤ → Type 0
IsReady true z = pos 4 ≤ℤ z
IsReady false z = Unit

-- The turns that the input can take.
abbrev pub cost : Bool → List ℕ → ℕ
cost true bs = 2 * length bs
cost false bs = 2 * length bs + 1

pub outcome_cases :
    {A : Type 0} (o : Outcome Client A)
    → ((e : Error) × (t : Client) × (o ≡ fail e t)) ⊎ ((a : A) × (t : Client) × (o ≡ done a t))
outcome_cases (fail e t) = inl (e, t, refl)
outcome_cases (done a t) = inr (a, t, refl)

module _ (h : Handlers) (bev : ℕ) where
  abbrev loop : ℕ → Bool → ℤ → List ℕ → Bool → Client → Outcome Client (Context × List ℕ)
  loop f mode n bs lv s = settle (read_loop f h bev (context_at mode n) bs lv s)

  pub message-IsReady :
      (k : ℕ) (bs : List ℕ) (s : Client) (b : Bool) (t : Client)
      → k ≤ length bs
      → handle_message h bev (take k bs) s ≡ done b t
      → IsReady true (pos k)
  message-IsReady k bs s b t l q =
      omega (arith, handled-length h bev (take k bs) s b t q, length-take k bs)

  -- Any two amounts of fuel that are enough give the same, whether leaving was asked for or not.
  pub settled :
      (f g : ℕ) (mode : Bool) (n : ℤ) (bs : List ℕ) (lv lw : Bool) (s : Client)
      → IsReady mode n
      → cost mode bs < f
      → cost mode bs < g
      → loop f mode n bs lv s ≡ loop g mode n bs lw s
  settled zero g mode n bs lv lw s r a b = absurd (omega arith)
  settled (suc f) zero mode n bs lv lw s r a b = absurd (omega arith)
  settled (suc f) (suc g) true (negsuc k) bs lv lw s r a b = absurd (omega arith)
  settled (suc f) (suc g) true (pos k) bs lv lw s r a b = elim (Bool-cases (ltb (length bs) 4)) [
    | inl l ↦
        ap settle (loop-short h bev f k bs lv s (ltb→lt _ _ l) (omega arith))
        ∙ sym (ap settle (loop-short h bev g k bs lw s (ltb→lt _ _ l) (omega arith)))
    | inr l ↦
        ap settle (loop-size h bev f (pos k) bs lv s (ground arith))
        ∙ settled f g false (to_int 4 (from_bytes (take 4 bs))) (drop 4 bs) lv lw s tt
            (ground (arith, length-drop 4 bs)) (ground (arith, length-drop 4 bs))
        ∙ sym (ap settle (loop-size h bev g (pos k) bs lw s (ground arith)))
  ]
  settled (suc f) (suc g) false (negsuc k) bs lv lw s r a b =
      ap settle (loop-broken h bev f k bs lv s) ∙ sym (ap settle (loop-broken h bev g k bs lw s))
  settled (suc f) (suc g) false (pos k) bs lv lw s r a b = elim (Bool-cases (ltb (length bs) k)) [
    | inl l ↦
        ap settle (loop-part h bev f k bs lv s (ltb→lt _ _ l))
        ∙ sym (ap settle (loop-part h bev g k bs lw s (ltb→lt _ _ l)))
    | inr l ↦
        let j : k ≤ length bs = ground arith in
        elim (outcome_cases (handle_message h bev (take k bs) s)) [
          | inl (e, t, q) ↦
              ap settle (loop-fail h bev f k bs lv s e t j q)
              ∙ sym (ap settle (loop-fail h bev g k bs lw s e t j q))
          | inr (c, t, q) ↦
              ap settle (loop-done h bev f k bs lv s c t j q)
              ∙ settled f g true (pos k) (drop k bs) (lv || c) (lw || c) t
                  (message-IsReady k bs s c t j q) (omega (arith, length-drop k bs))
                  (omega (arith, length-drop k bs))
              ∙ sym (ap settle (loop-done h bev g k bs lw s c t j q))
        ]
  ]
