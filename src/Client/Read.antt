-- ===== src/Client/Read.antt =====
-- `regularReadCallback` of src/ClientImpl.cpp: how the bytes of a connection are cut into responses.
pub mod Stream
pub mod Answers
pub mod Turns
pub mod Chunks
use voltdb_client_cpp.Prelude.{
  ℕ, zero, suc, ◌+◌, ◌*◌, Bool, true, false, ◌&&◌, ◌||◌, not, List, [], ◌∷◌, ltb, if◌then◌else◌,
  length, take, drop,
}
use voltdb_client_cpp.Prelude.Int.{ℤ, pos, negsuc, ltb_ℤ}
use voltdb_client_cpp.Action.{Action, Outcome, done, fail, pure, throw, gets, ◌>>=◌, undefined}
use voltdb_client_cpp.Wire.{from_bytes, to_int}
use voltdb_client_cpp.Buffer.{ByteBuffer}
use voltdb_client_cpp.Buffer.Frame.{holding}
use voltdb_client_cpp.Response.{InvocationResponse, read_response}
use voltdb_client_cpp.Client.{Client, Handlers, handle_response}

-- `CxnContext`: the length that was read last, and whether a length or a message is next.
pub record Context : Type 0 where
  pub next_length : ℤ
  pub length_or_message : Bool

-- What a turn of the loop finds at the front of the input: a length, a message, or too few bytes. The
-- allocation of a negative number of bytes is `broken`.
pub data Piece : Type 0 where
  size : ℤ → List ℕ → Piece
  message : List ℕ → List ℕ → Piece
  short broken : Piece

abbrev pub body_piece : ℤ → List ℕ → Piece
body_piece (negsuc n) bs = broken
body_piece (pos n) bs = if ltb (length bs) n then short else message (take n bs) (drop n bs)

unfoldable pub next_piece : Context → List ℕ → Piece
next_piece c bs =
    if c.length_or_message && not (ltb (length bs) 4)
    then size (to_int 4 (from_bytes (take 4 bs))) (drop 4 bs)
    else body_piece c.next_length bs

-- Where the callback leaves a connection: its context, the bytes that are left in the input, and
-- whether the event loop is left.
pub record Left : Type 0 where
  pub context : Context
  pub rest : List ℕ
  pub leave : Bool

abbrev pub handle_parsed : Handlers → ℕ → Outcome ByteBuffer InvocationResponse → Action Client Bool
handle_parsed h bev (fail e _) = throw e
handle_parsed h bev (done r _) = handle_response h bev r

-- The response is parsed and handled.
unfoldable pub handle_message : Handlers → ℕ → List ℕ → Action Client Bool
handle_message h bev m = handle_parsed h bev (read_response (holding m))

-- `m_loopBreakRequested && (m_outstandingRequests <= m_maxOutstandingRequests)`
abbrev pub break_requested : Client → Bool
break_requested s =
    s.loop_break_requested && not (ltb_ℤ s.max_outstanding_requests s.outstanding_requests)

abbrev pub stop : Context → List ℕ → Bool → Action Client Left
stop c bs leave = gets (λ s. record { context = c; rest = bs; leave = leave || break_requested s })

-- The loop, on fuel.
unfoldable pub read_loop : ℕ → Handlers → ℕ → Context → List ℕ → Bool → Action Client Left
read_loop zero h bev c bs leave s = fail undefined s
read_loop (suc fuel) h bev c bs leave s = elim (next_piece c bs) [
  | broken ↦ fail undefined s
  | short ↦ stop c bs leave s
  | size n rest ↦
      read_loop fuel h bev (record { next_length = n; length_or_message = false }) rest leave s
  | message m rest ↦ elim (handle_message h bev m s) [
    | fail e t ↦ fail e t
    | done b t ↦ read_loop fuel h bev (record c { length_or_message = true }) rest (leave || b) t
  ]
]

-- With fewer than four bytes in front of a length nothing is done. A length takes four bytes and a
-- message stands behind each, so two turns for each byte and two more are enough.
unfoldable pub regular_read_callback : Handlers → ℕ → Context → List ℕ → Action Client Left
regular_read_callback h bev c bs =
    if c.length_or_message && ltb (length bs) 4
    then pure (record { context = c; rest = bs; leave = false })
    else read_loop (2 + 2 * length bs) h bev c bs false
