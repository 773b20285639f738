-- ===== src/Procedure/Message.antt =====
-- The invocation message of include/Procedure.hpp: `getSerializedSize` gives exactly the size that
-- `serializeTo` fills.
use voltdb_client_cpp.Prelude.{
  ℕ, false, ◌+◌, ◌^◌, ◌≤◌, ◌≡◌, refl, ap, ◌∙◌, List, ◌++◌, arith, length, length-append,
}
use voltdb_client_cpp.Prelude.Int.{ℤ, pos, ◌+ℤ◌}
use voltdb_client_cpp.Action.{done}
use voltdb_client_cpp.Wire.{int_bytes, to_bytes, to_word}
use voltdb_client_cpp.Wire.Laws.{length-to_bytes}
use voltdb_client_cpp.Buffer.{scoped}
use voltdb_client_cpp.Buffer.Put.{
  Writes, Writes-seq, Writes-put_int, Writes-put_string, IsText, text_bytes, wrote, wrote-wrote,
}
use voltdb_client_cpp.Buffer.Frame.{
  framed, holding, opened, open_frame, close_frame, close_frame_lem,
}
use voltdb_client_cpp.Params.{ParameterSet}
use voltdb_client_cpp.Params.Text.{IsFilled}
use voltdb_client_cpp.Params.Values.{}
use voltdb_client_cpp.Params.Elements.{cast_size}
use voltdb_client_cpp.Params.Serialize.{IsNew, set_bytes, serialize_to_lem, get_serialized_size_lem}
use voltdb_client_cpp.Procedure.{Procedure, get_serialized_size, serialize_to, put_header}

-- The version byte, the name and the client data.
abbrev pub header_bytes : List ℕ → ℤ → List ℕ
header_bytes name client_data = int_bytes 1 (pos 0) ++ (text_bytes name ++ int_bytes 8 client_data)

-- The body of the invocation message.
abbrev pub body : Procedure → ℤ → List ℕ → List ℕ
body p client_data text = header_bytes p.name client_data ++ set_bytes p.params text

-- A procedure whose parameters are all set, to `text`, and whose message is of a size that the wire
-- can tell.
pub record IsReady (p : Procedure) (text : List ℕ) : Type 0 where
  pub filled : IsFilled p.params text
  pub complete : p.params.current_param ≡ length p.params.parameters
  pub size : length p.name + length (set_bytes p.params text) ≤ 2 ^ 30

pub length-header : (name : List ℕ) (cd : ℤ) → length (header_bytes name cd) ≡ 13 + length name
length-header name cd = omega (
  arith,
  length-append (int_bytes 1 (pos 0)) (text_bytes name ++ int_bytes 8 cd),
  length-append (text_bytes name) (int_bytes 8 cd),
  length-append (to_bytes 4 (length name)) name,
  length-to_bytes 1 (to_word 1 (pos 0)),
  length-to_bytes 8 (to_word 8 cd),
  length-to_bytes 4 (length name),
)

Writes-put_header :
    (name : List ℕ) (cd : ℤ) → IsText name → Writes (put_header name cd) (header_bytes name cd)
unfolding put_header
Writes-put_header name cd h =
    Writes-seq (Writes-put_int 1 (pos 0))
      (Writes-seq (Writes-put_string name h) (Writes-put_int 8 cd))

pub is_text : (p : Procedure) (text : List ℕ) → IsReady p text → IsText p.name
is_text p text r = omega (arith, r.size)

sum_sizes : (m n : ℕ) → pos 5 +ℤ pos 4 +ℤ pos m +ℤ pos n +ℤ pos 8 ≡ pos (4 + (13 + m + n))
sum_sizes m n = ground arith

length-body :
    (p : Procedure) (cd : ℤ) (text : List ℕ)
    → length (body p cd text) ≡ 13 + length p.name + length (set_bytes p.params text)
length-body p cd text = omega (
  arith,
  length-append (header_bytes p.name cd) (set_bytes p.params text),
  length-header p.name cd,
)

-- Where all the parameters are set and the name and they stay within 2 ^ 30 bytes, the size that is
-- asked for the buffer is that of the message with its length in front.
pub get_serialized_size-body :
    (p : Procedure) (cd : ℤ) (text : List ℕ)
    → IsReady p text
    → get_serialized_size p ≡ done (pos (4 + length (body p cd text))) p
unfolding get_serialized_size
get_serialized_size-body p cd text r =
    rw
      (
        get_serialized_size_lem p.params text r.filled r.complete,
        cast_size (length p.name) (omega (arith, r.size)),
        length-body p cd text,
      )
      (ap (λ z. done z p) (sum_sizes (length p.name) (length (set_bytes p.params text))))

-- `serializeTo` returned: the buffer holds the message and nothing else, and the parameters are as
-- new, their number fixed.
pub record Sent (p : Procedure) (cd : ℤ) (text : List ℕ) : Type 0 where
  pub set : ParameterSet
  pub result :
      serialize_to cd (p, scoped (4 + length (body p cd text)))
      ≡ done tt (record p { params = set }, holding (framed (body p cd text)))
  pub reset : IsNew p.params.parameters set
  pub fixed : set.dynamic_count ≡ false

-- Where all the parameters are set and the name and they stay within 2 ^ 30 bytes, the message is
-- written in full to a fresh buffer of its size: the length, the version, the name, the client data,
-- the count of the parameters and the parameters. No byte is left over, nothing is thrown, and
-- afterwards the parameters are as new and their number is fixed.
pub serialize_to-body : (p : Procedure) (cd : ℤ) (text : List ℕ) → IsReady p text → Sent p cd text
unfolding serialize_to scoped
serialize_to-body p cd text r =
    let l = length-body p cd text in
    let hl = length-header p.name cd in
    let n = 4 + length (body p cd text) in
    let hdr = header_bytes p.name cd in
    let set = set_bytes p.params text in
    let out = wrote hdr (opened n) in
    let hw =
      (Writes-put_header p.name cd (is_text p text r)).fits (opened n) (omega (arith, l, hl)) in
    let w = serialize_to_lem p.params text out r.filled r.complete (omega (arith, l, hl)) in
    let c =
      ap close_frame (wrote-wrote hdr set (opened n))
      ∙ close_frame_lem (body p cd text) (omega (arith, l, r.size)) in
    record {
      set = w.set;
      result = rw (open_frame n (omega arith), hw, w.result, c) refl;
      reset = w.reset;
      fixed = w.fixed;
    }
