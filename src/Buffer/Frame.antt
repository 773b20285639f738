-- ===== src/Buffer/Frame.antt =====
-- A message of the wire: a body behind its length in four bytes. Both `serializeTo` methods of
-- include/Procedure.hpp and include/AuthenticationRequest.hpp write the body at position 4, flip the
-- buffer and put the length in front.
use voltdb_client_cpp.Prelude.{
  ℕ, zero, ◌+◌, ◌^◌, ◌≤◌, ◌<◌, ◌≡◌, ap, sym, ◌∙◌, List, ◌++◌, arith, length, length-append,
  length-replicate, replicate, length-take, take, take_all, true,
}
use voltdb_client_cpp.Prelude.Int.{ℤ, pos, ◌-ℤ◌}
use voltdb_client_cpp.Action.{Action, done, ◌>>◌}
use voltdb_client_cpp.Wire.{to_bytes, to_word}
use voltdb_client_cpp.Wire.Laws.{length-to_bytes}
use voltdb_client_cpp.Buffer.Storage.{write_at, take-write_at, take-write_at_front, length-write_at}
use voltdb_client_cpp.Buffer.{
  ByteBuffer, Void, scoped, set_position, flip, put_int_at, put_word_at, check_index,
}
use voltdb_client_cpp.Buffer.Put.{wrote}

-- `buffer->flip(); buffer->putInt32(0, buffer->limit() - 4);`
unfoldable pub close_frame : Action ByteBuffer Void
close_frame = flip >> λ b. put_int_at 4 (pos 0) (pos b.limit -ℤ pos 4) b

-- The body behind its length.
abbrev pub framed : List ℕ → List ℕ
framed body = to_bytes 4 (length body) ++ body

-- A buffer that holds a message and nothing else, to be read from the front.
abbrev pub holding : List ℕ → ByteBuffer
holding bs = record {
  storage = bs;
  position = 0;
  capacity = length bs;
  limit = length bs;
  expandable = true;
}

abbrev pub opened : ℕ → ByteBuffer
opened n = record (scoped n) { position = 4 }

pub open_frame : (n : ℕ) → 4 ≤ n → set_position (pos 4) (scoped n) ≡ done tt (opened n)
unfolding set_position check_index scoped
open_frame n h = ground arith

abbrev zeros : ℕ → List ℕ
zeros n = replicate n 0

frame_storage :
    (hdr body : List ℕ)
    → length hdr ≡ 4
    → write_at zero hdr (write_at 4 body (zeros (4 + length body))) ≡ hdr ++ body
frame_storage hdr body e =
    let n = 4 + length body in
    let z = length-replicate {A = ℕ} n 0 in
    let inner = write_at 4 body (zeros n) in
    let w = length-write_at 4 body (zeros n) in
    sym (take_all n (write_at zero hdr inner) (length-write_at zero hdr inner ∙ w ∙ z))
    ∙ take-write_at_front n hdr inner (take 4 (zeros n)) body
        (take-write_at 4 body (zeros n) (omega (arith, z)))
        (omega (arith, e, length-take 4 (zeros n), z)) (omega (arith, z, w))

size_word : (n : ℕ) → n < 2 ^ 31 → to_word 4 (pos (4 + n) -ℤ pos 4) ≡ n
unfolding to_word
size_word n h = ground arith

put_front :
    (z : ℤ) (b : ByteBuffer)
    → 4 ≤ b.limit
    → put_int_at 4 (pos 0) z b
      ≡ done tt (record b { storage = write_at zero (to_bytes 4 (to_word 4 z)) b.storage })
unfolding put_int_at put_word_at check_index
put_front z b h = ground arith

-- A body that fills the buffer is closed to the message that holds it.
pub close_frame_lem :
    (body : List ℕ)
    → length body < 2 ^ 31
    → close_frame (wrote body (opened (4 + length body))) ≡ done tt (holding (framed body))
unfolding close_frame flip scoped
close_frame_lem body h =
    let n = 4 + length body in
    let l = length-to_bytes 4 (length body) in
    let size : n ≡ length (framed body) =
      omega (arith, length-append (to_bytes 4 (length body)) body, l) in
    let b : ByteBuffer = record {
      storage = write_at 4 body (replicate n 0);
      position = 0;
      capacity = n;
      limit = n;
      expandable = true;
    } in
    put_front (pos n -ℤ pos 4) b (omega arith) ∙ λ i. done tt (record {
      storage =
          (ap (λ w. write_at zero (to_bytes 4 w) (write_at 4 body (replicate n 0)))
                (size_word (length body) h)
              ∙ frame_storage (to_bytes 4 (length body)) body l)
            i;
      position = 0;
      capacity = size i;
      limit = size i;
      expandable = true;
    })
