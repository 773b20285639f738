-- ===== src/Client/Read/Answers.antt =====
-- The answers of the server in the stream of a connection of src/ClientImpl.cpp.
use voltdb_client_cpp.Prelude.{
  ℕ, ◌≤◌, ◌<◌, ◌≡◌, refl, ap, sym, ◌∙◌, Bool, true, false, ◌||◌, List, [], ◌∷◌, ◌++◌, map, arith,
  length, length-append, append-nil,
}
use voltdb_client_cpp.Prelude.Int.{pos}
use voltdb_client_cpp.Action.{Action, pure, ◌>>=◌, continue}
use voltdb_client_cpp.Wire.{to_word}
use voltdb_client_cpp.Wire.Laws.{length-to_bytes}
use voltdb_client_cpp.Buffer.Frame.{holding}
use voltdb_client_cpp.Buffer.Get.{Starts}
use voltdb_client_cpp.Buffer.Put.{IsText}
use voltdb_client_cpp.Response.Parse.{
  Answer, IsAnswer, answer_bytes, response_of, Takes-read_response,
}
use voltdb_client_cpp.Client.{Client, Handlers, handle_response}
use voltdb_client_cpp.Client.Read.{handle_message, stop, regular_read_callback}
use voltdb_client_cpp.Client.Read.Stream.{
  same_steps, stream, AllMessages, handle_messages, before_length, last_length,
  regular_read_callback-stream,
}

abbrev pub AllAnswers : List Answer → Type 0
AllAnswers [] = 0 ≤ 0
AllAnswers (w ∷ ws) = (IsAnswer w × IsText (answer_bytes w)) × AllAnswers ws

abbrev pub messages_of : List Answer → List (List ℕ)
messages_of ws = map answer_bytes ws

-- The response to each answer, handled one after the other.
abbrev pub handle_answers : Handlers → ℕ → List Answer → Bool → Action Client Bool
handle_answers h bev [] leave = pure leave
handle_answers h bev (w ∷ ws) leave =
    handle_response h bev (response_of true w) >>= λ b. handle_answers h bev ws (leave || b)

handle_message-answer :
    (h : Handlers) (bev : ℕ) (w : Answer)
    → IsAnswer w
    → handle_message h bev (answer_bytes w) ≡ handle_response h bev (response_of true w)
unfolding handle_message
handle_message-answer h bev w v =
    let bs = answer_bytes w in
    let st : Starts bs (holding bs) = record {
      rest = [];
      bytes = sym (append-nil bs);
      inside = omega arith;
    } in
    rw ((Takes-read_response true w v).takes (holding bs) st (omega arith) refl) refl

nine_in_front : (x y rest : List ℕ) → length x ≡ 1 → length y ≡ 8 → 4 ≤ length (x ++ (y ++ rest))
nine_in_front x y rest h k = omega (arith, length-append x (y ++ rest), length-append y rest)

long_enough : (w : Answer) → 4 ≤ length (answer_bytes w)
long_enough w =
    nine_in_front _ _ _ (length-to_bytes 1 (to_word 1 (pos 0)))
      (length-to_bytes 8 (to_word 8 w.client_data))

AllAnswers-AllMessages : (ws : List Answer) → AllAnswers ws → AllMessages (messages_of ws)
AllAnswers-AllMessages [] a = a
AllAnswers-AllMessages (w ∷ ws) a = ((a.0.1, long_enough w), AllAnswers-AllMessages ws a.1)

handle_messages-answers :
    (h : Handlers) (bev : ℕ) (ws : List Answer) (leave : Bool) (s : Client)
    → AllAnswers ws
    → handle_messages h bev (messages_of ws) leave s ≡ handle_answers h bev ws leave s
unfolding handle_messages
handle_messages-answers h bev [] leave s a = refl
handle_messages-answers h bev (w ∷ ws) leave s a = rw (handle_message-answer h bev w a.0.0) (
    same_steps (handle_response h bev (response_of true w) s)
      (λ b. handle_messages h bev (messages_of ws) (leave || b))
      (λ b. handle_answers h bev ws (leave || b))
      (λ b t. handle_messages-answers h bev ws (leave || b) t a.1))

-- Called with answers of the server in the input, one at least, each behind its length, and with fewer
-- than four bytes behind the last, the callback hands each answer on as the response with its fields
-- and its tables, once and in order, unless handling one throws, which ends it; the bytes behind the
-- last answer stay in the input. Each field of an answer has to fit its width.
pub regular_read_callback-answers :
    (w : Answer) (ws : List Answer) (tail : List ℕ) (h : Handlers) (bev n : ℕ) (s : Client)
    → AllAnswers (w ∷ ws)
    → length tail < 4
    → 4 ≤ n
    → regular_read_callback h bev (before_length (pos n)) (stream (messages_of (w ∷ ws)) ++ tail) s
      ≡ (handle_answers h bev (w ∷ ws) false
            >>= stop (before_length (last_length (pos n) (messages_of (w ∷ ws)))) tail)
          s
regular_read_callback-answers w ws tail h bev n s a t k =
    regular_read_callback-stream (answer_bytes w) (messages_of ws) tail h bev n s
      (AllAnswers-AllMessages (w ∷ ws) a) t k
    ∙ ap (λ o. continue o (stop (before_length (last_length (pos n) (messages_of (w ∷ ws)))) tail))
        (handle_messages-answers h bev (w ∷ ws) false s a)
