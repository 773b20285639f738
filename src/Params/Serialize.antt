-- ===== src/Params/Serialize.antt =====
-- `reset`, `getSerializedSize` and `serializeTo` of include/ParameterSet.hpp.
use voltdb_client_cpp.Prelude.{
  ℕ, ◌+◌, ◌≤◌, ◌<◌, ◌≡◌, refl, ap, sym, subst, ◌∙◌, List, [], ◌++◌, arith, length, length-append,
  append-nil, length-replicate, true, false,
}
use voltdb_client_cpp.Prelude.Int.{pos}
use voltdb_client_cpp.Action.{Outcome, done, state_of}
use voltdb_client_cpp.Wire.{to_word}
use voltdb_client_cpp.Wire.Laws.{length-to_bytes}
use voltdb_client_cpp.Buffer.{
  ByteBuffer, Void, clear, flip, put, get, check_get_put_index, remaining, put_buffer, put_sized,
  scoped,
}
use voltdb_client_cpp.Buffer.Put.{wrote, Writes-put, Writes-put_int}
use voltdb_client_cpp.Buffer.Growth.{IsOpen, written}
use voltdb_client_cpp.Buffer.Append.{Writes-Appended}
use voltdb_client_cpp.Params.{
  Parameter, ParameterSet, count16, with_buffer, reset, get_serialized_size, serialize_to, init,
  init_dynamic,
}
use voltdb_client_cpp.Params.Text.{IsFilled, count_bytes, length-bytes}

-- A buffer that `clear` opens for writing.
pub record CanReset (b : ByteBuffer) : Type 0 where
  pub expandable : b.expandable ≡ true
  pub storage : length b.storage ≡ b.capacity
  pub capacity : 2 ≤ b.capacity

-- The set is as new: its text is the count alone.
pub record IsNew (ps : List Parameter) (p : ParameterSet) : Type 0 where
  pub filled : IsFilled p []
  pub parameters : p.parameters ≡ ps
  pub current : p.current_param ≡ 0

-- `reset` returned, and nothing but the bytes and the place has changed.
pub record WasReset (p : ParameterSet) : Type 0 where
  pub set : ParameterSet
  pub result : reset p ≡ done tt set
  pub new : IsNew p.parameters set
  pub dynamic : set.dynamic_count ≡ p.dynamic_count

-- `reset` empties any set whose buffer has room for the count, whatever its position and limit: it
-- returns, and the set holds the count alone, its parameters and its kind unchanged.
pub reset_lem : (p : ParameterSet) → CanReset p.buffer → WasReset p
unfolding reset clear
reset_lem p v =
    let b = record p.buffer { limit = p.buffer.capacity; position = 0 } in
    let opened : IsOpen b = record {
      expandable = v.expandable;
      limit = refl;
      storage = v.storage;
      position = omega arith;
      capacity = omega (arith, v.capacity);
    } in
    let a =
      Writes-Appended (Writes-put_int 2 (count16 (length p.parameters))) b opened (
        omega (arith, v.capacity, length-to_bytes 2 (to_word 2 (count16 (length p.parameters))))) in
    record {
      set = record p { buffer = a.buffer; current_param = 0 };
      result = rw a.result refl;
      new = record {
        filled = record { is_open = a.is_open; bytes = a.text ∙ sym (append-nil _) };
        parameters = refl;
        current = refl;
      };
      dynamic = refl;
    }

abbrev flipped : ByteBuffer → ByteBuffer
flipped b = record b { limit = b.position; position = 0 }

abbrev spent : ByteBuffer → ByteBuffer
spent b = record b { limit = b.position; position = 0 + b.position }

remaining-flipped : (b : ByteBuffer) → remaining (flipped b) ≡ pos b.position
unfolding remaining
remaining-flipped b = ground arith

get-flipped : (b : ByteBuffer) → get (pos b.position) (flipped b) ≡ done (written b) (spent b)
unfolding get check_get_put_index
get-flipped b = ground arith

put-written :
    (b out : ByteBuffer)
    → length (written b) ≡ b.position
    → out.position + b.position ≤ out.limit
    → put (written b) (pos b.position) out ≡ done tt (wrote (written b) out)
put-written b out e h =
    subst (λ n. put (written b) (pos n) out ≡ done tt (wrote (written b) out)) e
      ((Writes-put (written b)).fits out (omega (arith, e)))

put_flipped :
    (b out : ByteBuffer)
    → length (written b) ≡ b.position
    → 0 < b.position
    → out.position + b.position ≤ out.limit
    → put_buffer (flipped b) out ≡ done (spent b) (wrote (written b) out)
unfolding put_buffer put_sized
put_flipped b out e n h =
    subst (λ z. put_sized z (flipped b) out ≡ done (spent b) (wrote (written b) out))
      (sym (remaining-flipped b)) (ground (arith, get-flipped b, put-written b out e h))

-- The bytes of a filled set.
abbrev pub set_bytes : ParameterSet → List ℕ → List ℕ
set_bytes p text = count_bytes (length p.parameters) ++ text

-- `serializeTo` returned: the bytes of the set stand in the buffer, and the set is as new, with its
-- parameters fixed.
pub record Serialized (p : ParameterSet) (text : List ℕ) (out : ByteBuffer) : Type 0 where
  pub set : ParameterSet
  pub result : serialize_to (p, out) ≡ done tt (set, wrote (set_bytes p text) out)
  pub reset : IsNew p.parameters set
  pub fixed : set.dynamic_count ≡ false

-- A filled set all of whose parameters have been added is written, its count and its bytes, to a
-- buffer that has room for them; afterwards it is as new, and its parameters are fixed.
pub serialize_to_lem :
    (p : ParameterSet) (text : List ℕ) (out : ByteBuffer)
    → IsFilled p text
    → p.current_param ≡ length p.parameters
    → out.position + length (set_bytes p text) ≤ out.limit
    → Serialized p text out
unfolding serialize_to flip
serialize_to_lem p text out f e h =
    let n = length-bytes p text f in
    let l : length (written p.buffer) ≡ p.buffer.position = omega (
      arith,
      n,
      ap length f.bytes,
      length-append (count_bytes (length p.parameters)) text,
      length-to_bytes 2 (to_word 2 (count16 (length p.parameters))),
    ) in
    let w =
      put_flipped p.buffer out l (omega (arith, n)) (omega (arith, l, h, ap length f.bytes)) in
    let z =
      reset_lem (record p { buffer = spent p.buffer })
        (record {
          expandable = f.is_open.expandable;
          storage = f.is_open.storage;
          capacity = omega (arith, n, f.is_open.position);
        }) in
    record {
      set = record z.set { dynamic_count = false };
      result = ground (arith, w, z.result, f.bytes);
      reset = record {
        filled = record { is_open = z.new.filled.is_open; bytes = z.new.filled.bytes };
        parameters = z.new.parameters;
        current = z.new.current;
      };
      fixed = refl;
    }

-- The size of a set that is full is the number of its bytes.
pub get_serialized_size_lem :
    (p : ParameterSet) (text : List ℕ)
    → IsFilled p text
    → p.current_param ≡ length p.parameters
    → get_serialized_size p ≡ done (length (set_bytes p text)) p
unfolding get_serialized_size
get_serialized_size_lem p text f e = ground (
  arith,
  length-bytes p text f,
  length-append (count_bytes (length p.parameters)) text,
  length-to_bytes 2 (to_word 2 (count16 (length p.parameters))),
)

scoped-IsOpen : (n : ℕ) → 0 < n → IsOpen (scoped n)
unfolding scoped
scoped-IsOpen n h = record {
  expandable = refl;
  limit = refl;
  storage = length-replicate {A = ℕ} n 0;
  position = omega arith;
  capacity = h;
}

written-scoped : (n : ℕ) → written (scoped n) ≡ []
unfolding scoped
written-scoped n = refl

count_fits : (n k : ℕ) → 2 ≤ n → (scoped n).position + length (count_bytes k) ≤ (scoped n).limit
unfolding scoped
count_fits n k h = omega (arith, h, length-to_bytes 2 (to_word 2 (count16 k)))

-- A set that has just been made for declared parameters holds their count and nothing else.
pub init-IsNew : (ps : List Parameter) → IsNew ps (init ps)
unfolding init
init-IsNew ps =
    let a =
      Writes-Appended (Writes-put_int 2 (count16 (length ps))) (scoped 8192)
        (scoped-IsOpen 8192 (omega arith)) (count_fits 8192 (length ps) (omega arith)) in
    subst (λ (o : Outcome ByteBuffer Void). IsNew ps (state_of (with_buffer o (fresh ps))))
      (sym a.result)
      (record {
        filled = record {
          is_open = a.is_open;
          bytes =
              a.text
              ∙ ap (λ (t : List ℕ). t ++ count_bytes (length ps)) (written-scoped 8192)
              ∙ sym (append-nil _);
        };
        parameters = refl;
        current = refl;
      })
  where
    fresh : List Parameter → ParameterSet
    fresh qs = record {
      parameters = qs;
      buffer = scoped 8192;
      current_param = 0;
      dynamic_count = false;
    }

scoped-CanReset : (n : ℕ) → 2 ≤ n → CanReset (scoped n)
unfolding scoped
scoped-CanReset n h = record {
  expandable = refl;
  storage = length-replicate {A = ℕ} n 0;
  capacity = h;
}

pub init_dynamic-CanReset : CanReset init_dynamic.buffer
unfolding init_dynamic
init_dynamic-CanReset = scoped-CanReset 8192 (omega arith)
