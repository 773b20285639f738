-- ===== src/Client/Read/Chunks.antt =====
-- How libevent cuts the input of a connection of src/ClientImpl.cpp into reads does not matter.
use voltdb_client_cpp.Prelude.{
  ℕ, zero, suc, ◌+◌, ◌*◌, ◌≤◌, ◌<◌, ◌≡◌, refl, sym, ◌∙◌, ap, inl, inr, Bool, true, false, ◌||◌,
  List, [], ◌∷◌, ◌++◌, arith, length, length-append, append_assoc, append-nil, ltb, ltb→lt, take,
  drop, length-drop, take-append_le, drop-append_le, Bool-cases,
}
use voltdb_client_cpp.Prelude.Int.{ℤ, pos, negsuc}
use voltdb_client_cpp.Action.{Outcome, done, fail, continue}
use voltdb_client_cpp.Wire.{from_bytes, to_int}
use voltdb_client_cpp.Client.{Client, Handlers}
use voltdb_client_cpp.Client.Read.{Context, Left, handle_message, read_loop, regular_read_callback}
use voltdb_client_cpp.Client.Read.Turns.{
  settle, context_at, IsReady, cost, outcome_cases, loop-size, loop-short, loop-part, loop-fail,
  loop-done, loop-broken, message-IsReady, settled,
}

module _ (h : Handlers) (bev : ℕ) where
  abbrev loop : ℕ → Bool → ℤ → List ℕ → Bool → Client → Outcome Client (Context × List ℕ)
  loop f mode n bs lv s = settle (read_loop f h bev (context_at mode n) bs lv s)

  abbrev called : Bool → ℤ → List ℕ → Client → Outcome Client (Context × List ℕ)
  called mode n bs s = settle (regular_read_callback h bev (context_at mode n) bs s)

  -- The callback is its loop, on any fuel that is enough.
  called-loop :
      (f : ℕ) (mode : Bool) (n : ℤ) (bs : List ℕ) (lv : Bool) (s : Client)
      → IsReady mode n
      → cost mode bs < f
      → called mode n bs s ≡ loop f mode n bs lv s
  unfolding regular_read_callback
  called-loop f false n bs lv s r c =
      settled h bev (2 + 2 * length bs) f false n bs false lv s tt (omega arith) c
  called-loop f true (negsuc k) bs lv s r c = absurd (omega arith)
  called-loop zero true (pos k) bs lv s r c = absurd (omega arith)
  called-loop (suc f) true (pos k) bs lv s r c = elim (Bool-cases (ltb (length bs) 4)) [
    | inl l ↦ rw l (sym (ap settle (loop-short h bev f k bs lv s (ltb→lt _ _ l) (omega arith))))
    | inr l ↦
        rw l
          (settled h bev (2 + 2 * length bs) (suc f) true (pos k) bs false lv s r (omega arith) c)
  ]

  -- The callback is called again, with more bytes behind those that it left.
  abbrev resume : List ℕ → Outcome Client Left → Outcome Client (Context × List ℕ)
  resume more (done l t) = settle (regular_read_callback h bev l.context (l.rest ++ more) t)
  resume more (fail e t) = fail e t

  resumed :
      (f g : ℕ) (mode : Bool) (n : ℤ) (bs more : List ℕ) (lv : Bool) (s : Client)
      → IsReady mode n
      → cost mode bs < f
      → cost mode (bs ++ more) < g
      → resume more (read_loop f h bev (context_at mode n) bs lv s)
        ≡ loop g mode n (bs ++ more) lv s
  resumed zero g mode n bs more lv s r a b = absurd (omega arith)
  resumed (suc f) zero mode n bs more lv s r a b = absurd (omega arith)
  resumed (suc f) (suc g) true (negsuc k) bs more lv s r a b = absurd (omega arith)
  resumed (suc f) (suc g) true (pos k) bs more lv s r a b = elim (Bool-cases (ltb (length bs) 4)) [
    | inl l ↦
        ap (resume more) (loop-short h bev f k bs lv s (ltb→lt _ _ l) (omega arith))
        ∙ called-loop (suc g) true (pos k) (bs ++ more) lv s r b
    | inr l ↦
        let j : 4 ≤ length bs = ground arith in
        let n = to_int 4 (from_bytes (take 4 bs)) in
        ap (resume more) (loop-size h bev f (pos k) bs lv s j)
        ∙ resumed f g false n (drop 4 bs) more lv s tt (omega (arith, length-drop 4 bs))
            (omega (arith, length-drop 4 bs, length-append bs more, length-append (drop 4 bs) more))
        ∙ ap (λ (x : List ℕ). loop g false n x lv s) (sym (drop-append_le 4 bs more j))
        ∙ ap (λ (x : List ℕ). loop g false (to_int 4 (from_bytes x)) (drop 4 (bs ++ more)) lv s)
            (sym (take-append_le 4 bs more j))
        ∙ sym (
            ap settle
              (loop-size h bev g (pos k) (bs ++ more) lv s (omega (arith, length-append bs more))))
  ]
  resumed (suc f) (suc g) false (negsuc k) bs more lv s r a b =
      ap (resume more) (loop-broken h bev f k bs lv s)
      ∙ sym (ap settle (loop-broken h bev g k (bs ++ more) lv s))
  resumed (suc f) (suc g) false (pos k) bs more lv s r a b = elim (Bool-cases (ltb (length bs) k)) [
    | inl l ↦
        ap (resume more) (loop-part h bev f k bs lv s (ltb→lt _ _ l))
        ∙ called-loop (suc g) false (pos k) (bs ++ more) lv s r b
    | inr l ↦
        let j : k ≤ length bs = ground arith in
        let i : k ≤ length (bs ++ more) = omega (arith, length-append bs more) in
        let same = take-append_le k bs more j in
        elim (outcome_cases (handle_message h bev (take k bs) s)) [
          | inl (e, t, q) ↦
              ap (resume more) (loop-fail h bev f k bs lv s e t j q)
              ∙ sym (
                  ap settle (
                    loop-fail h bev g k (bs ++ more) lv s e t i
                      (ap (λ (x : List ℕ). handle_message h bev x s) same ∙ q)))
          | inr (c, t, q) ↦
              ap (resume more) (loop-done h bev f k bs lv s c t j q)
              ∙ resumed f g true (pos k) (drop k bs) more (lv || c) t
                  (message-IsReady h bev k bs s c t j q) (omega (arith, length-drop k bs))
                  (omega (
                    arith,
                    length-drop k bs,
                    length-append bs more,
                    length-append (drop k bs) more,
                  ))
              ∙ ap (λ (x : List ℕ). loop g true (pos k) x (lv || c) t)
                  (sym (drop-append_le k bs more j))
              ∙ sym (
                  ap settle (
                    loop-done h bev g k (bs ++ more) lv s c t i
                      (ap (λ (x : List ℕ). handle_message h bev x s) same ∙ q)))
        ]
  ]

  resume-called :
      (mode : Bool) (n : ℤ) (bs more : List ℕ) (s : Client)
      → IsReady mode n
      → resume more (regular_read_callback h bev (context_at mode n) bs s)
        ≡ called mode n (bs ++ more) s
  unfolding regular_read_callback
  resume-called false n bs more s r =
      let all = bs ++ more in
      resumed (2 + 2 * length bs) (2 + 2 * length all) false n bs more false s tt (omega arith)
        (omega arith)
  resume-called true (negsuc k) bs more s r = absurd (omega arith)
  resume-called true (pos k) bs more s r =
      let all = bs ++ more in
      elim (Bool-cases (ltb (length bs) 4)) [
        | inl l ↦ rw l refl
        | inr l ↦
            let j : ltb (length all) 4 ≡ false = ground (arith, length-append bs more) in
            rw (l, j)
              (resumed (2 + 2 * length bs) (2 + 2 * length all) true (pos k) bs more false s r
                (omega arith) (omega arith))
      ]

  -- The input arrives in pieces, and the callback is called on each, behind what it left before.
  unfoldable pub feed :
      Context → List ℕ → List (List ℕ) → Client → Outcome Client (Context × List ℕ)
  feed c left [] s = done (c, left) s
  feed c left (x ∷ xs) s =
      continue (settle (regular_read_callback h bev c (left ++ x) s)) (λ (d, rest). feed d rest xs)

  abbrev pub concat : List (List ℕ) → List ℕ
  concat [] = []
  concat (x ∷ xs) = x ++ concat xs

  merge :
      (c : Context) (bs y : List ℕ) (s : Client)
      (k : Context × List ℕ → Client → Outcome Client (Context × List ℕ))
      → IsReady c.length_or_message c.next_length
      → continue
          (settle (regular_read_callback h bev c bs s))
          (λ (d, rest) t. continue (settle (regular_read_callback h bev d (rest ++ y) t)) k)
        ≡ continue (settle (regular_read_callback h bev c (bs ++ y) s)) k
  merge c bs y s k r =
      by_outcome (regular_read_callback h bev c bs s)
      ∙ ap (λ (o : Outcome Client (Context × List ℕ)). continue o k)
          (resume-called c.length_or_message c.next_length bs y s r)
    where
      by_outcome :
          (o : Outcome Client Left)
          → continue
              (settle o)
              (λ (d, rest) t. continue (settle (regular_read_callback h bev d (rest ++ y) t)) k)
            ≡ continue (resume y o) k
      by_outcome (done l t) = refl
      by_outcome (fail e t) = refl

  -- However the input of a connection is cut into one piece or more, the callbacks, called piece by
  -- piece, handle the same responses as one call on all of it: they leave the same client, the same
  -- unread bytes and the same context, or end with the same exception. In front of a length, the last
  -- length has to be at least four, as it is for a new connection and behind each response.
  pub feed-concat :
      (xs : List (List ℕ)) (c : Context) (left x : List ℕ) (s : Client)
      → IsReady c.length_or_message c.next_length
      → feed c left (x ∷ xs) s ≡ settle (regular_read_callback h bev c (left ++ (x ++ concat xs)) s)
  unfolding feed
  feed-concat [] c left x s r =
      same (settle (regular_read_callback h bev c (left ++ x) s))
      ∙ ap (λ (y : List ℕ). settle (regular_read_callback h bev c (left ++ y) s))
          (sym (append-nil x))
    where
      same :
          (o : Outcome Client (Context × List ℕ)) → continue o (λ (d, rest) t. done (d, rest) t) ≡ o
      same (done a t) = refl
      same (fail e t) = refl
  feed-concat (y ∷ ys) c left x s r =
      merge c (left ++ x) y s (λ (d, rest). feed d rest ys) r
      ∙ ap
          (λ (z : List ℕ).
            continue (settle (regular_read_callback h bev c z s)) (λ (d, rest). feed d rest ys))
          (append_assoc left x y)
      ∙ feed-concat ys c left (x ++ y) s r
      ∙ ap (λ (z : List ℕ). settle (regular_read_callback h bev c (left ++ z) s))
          (append_assoc x y (concat ys))
