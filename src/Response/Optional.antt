-- ===== src/Response/Optional.antt =====
-- The optional fields of a response: their bits, their bytes and what is read of them.
use voltdb_client_cpp.Prelude.{
  ℕ, ◌+◌, ◌≤◌, ◌≡◌, refl, subst, Bool, true, false, Option, none, some, List, [], ◌++◌, arith,
  length, length-append, append-nil,
}
use voltdb_client_cpp.Prelude.Int.{ℤ, pos, negsuc, ◌+ℤ◌}
use voltdb_client_cpp.Action.{done}
use voltdb_client_cpp.Wire.{to_bytes, to_word}
use voltdb_client_cpp.Wire.Laws.{Fits, length-to_bytes}
use voltdb_client_cpp.Buffer.{set_position, check_index}
use voltdb_client_cpp.Buffer.Put.{IsText, text_bytes}
use voltdb_client_cpp.Buffer.Get.{
  Reads, advance, counted, Starts-left, Reads-bind, Reads-pure, Reads-get_string,
}
use voltdb_client_cpp.Table.Parse.{set_position-to}
use voltdb_client_cpp.Response.{has_field, text, read_text, skip_exception}

abbrev pub is_there : Option (List ℕ) → Bool
is_there none = false
is_there (some s) = true

abbrev pub optional_bytes : Option (List ℕ) → List ℕ
optional_bytes none = []
optional_bytes (some s) = text_bytes s

abbrev pub or_empty : Option (List ℕ) → List ℕ
or_empty none = []
or_empty (some s) = s

abbrev pub IsOptional : Option (List ℕ) → Type 0
IsOptional none = 0 ≤ 0
IsOptional (some s) = IsText s

pub Reads-read_text :
    (o : Option (List ℕ))
    → IsOptional o
    → Reads (read_text (is_there o)) (optional_bytes o) (or_empty o)
unfolding read_text
Reads-read_text none h = Reads-pure []
Reads-read_text (some s) h =
    subst (λ (bs : List ℕ). Reads (read_text true) bs s) (append-nil (text_bytes s))
      (Reads-bind text (Reads-get_string s h) (Reads-pure s))

-- The exception is skipped, whatever it is.
pub Reads-skip_exception :
    (o : Option (List ℕ)) → IsOptional o → Reads (skip_exception (is_there o)) (optional_bytes o) tt
unfolding skip_exception set_position check_index
Reads-skip_exception none h = Reads-pure tt
Reads-skip_exception (some s) h = record {
  takes = λ b st.
      let hd = to_bytes 4 (length s) in
      let n = length-to_bytes 4 (length s) in
      let g = (counted s h).takes b (Starts-left hd s b st) in
      let m = length-append hd s in
      let place : pos (b.position + 4) +ℤ pos (length s) ≡ pos (b.position + (4 + length s)) =
        ground arith in
      let q : b.position + (4 + length s) ≡ b.position + length (hd ++ s) = omega (arith, m, n) in
      rw
        (
          g,
          place,
          set_position-to (b.position + (4 + length s)) (advance (length hd) b)
              (omega (arith, m, n, st.inside)),
        )
        (λ i. done tt (record b { position = q i }));
}

-- The byte that says which of the status string (32), the exception (64) and the application's
-- status string (128) are there.
abbrev pub fields_byte : Bool → Bool → Bool → ℤ
fields_byte false false false = pos 0
fields_byte true false false = pos 32
fields_byte false true false = pos 64
fields_byte true true false = pos 96
fields_byte false false true = negsuc 127
fields_byte true false true = negsuc 95
fields_byte false true true = negsuc 63
fields_byte true true true = negsuc 31

pub field_five : (s x a : Bool) → has_field 5 (fields_byte s x a) ≡ s
unfolding has_field to_word
field_five false false false = refl
field_five true false false = refl
field_five false true false = refl
field_five true true false = refl
field_five false false true = refl
field_five true false true = refl
field_five false true true = refl
field_five true true true = refl

pub field_six : (s x a : Bool) → has_field 6 (fields_byte s x a) ≡ x
unfolding has_field to_word
field_six false false false = refl
field_six true false false = refl
field_six false true false = refl
field_six true true false = refl
field_six false false true = refl
field_six true false true = refl
field_six false true true = refl
field_six true true true = refl

pub field_seven : (s x a : Bool) → has_field 7 (fields_byte s x a) ≡ a
unfolding has_field to_word
field_seven false false false = refl
field_seven true false false = refl
field_seven false true false = refl
field_seven true true false = refl
field_seven false false true = refl
field_seven true false true = refl
field_seven false true true = refl
field_seven true true true = refl

pub fields_byte-Fits : (s x a : Bool) → Fits 1 (fields_byte s x a)
fields_byte-Fits false false false = omega arith
fields_byte-Fits true false false = omega arith
fields_byte-Fits false true false = omega arith
fields_byte-Fits true true false = omega arith
fields_byte-Fits false false true = omega arith
fields_byte-Fits true false true = omega arith
fields_byte-Fits false true true = omega arith
fields_byte-Fits true true true = omega arith
