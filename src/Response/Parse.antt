-- ===== src/Response/Parse.antt =====
-- A response on the wire, and what include/InvocationResponse.hpp reads of it.
use voltdb_client_cpp.Wire.{int_bytes}
use voltdb_client_cpp.Prelude.{
  ℕ, ◌^◌, ◌≤◌, ◌<◌, ◌≡◌, refl, sym, subst, Bool, Option, List, [], ◌∷◌, ◌++◌, arith, length,
}
use voltdb_client_cpp.Prelude.Int.{ℤ, pos}
use voltdb_client_cpp.Action.{done}
use voltdb_client_cpp.Wire.Laws.{Fits}
use voltdb_client_cpp.Buffer.{ByteBuffer, get_int}
use voltdb_client_cpp.Buffer.Get.{Starts, advance, Reads-get_int}
use voltdb_client_cpp.Table.{Table}
use voltdb_client_cpp.Table.Parse.{Holds, parsed_table-Holds}
use voltdb_client_cpp.Response.{InvocationResponse, read_text, skip_exception, read_response}
use voltdb_client_cpp.Response.Results.{
  ServerTable, results_bytes, tables_of, Takes, Takes-Reads, Takes-bind, Takes-map,
  Takes-read_counted,
}
use voltdb_client_cpp.Response.Optional.{
  is_there, optional_bytes, or_empty, IsOptional, fields_byte, Reads-read_text,
  Reads-skip_exception, field_five, field_six, field_seven, fields_byte-Fits,
}

-- A response as the server has it.
pub record Answer : Type 0 where
  pub client_data : ℤ
  pub status : ℤ
  pub status_string : Option (List ℕ)
  pub app_status : ℤ
  pub app_string : Option (List ℕ)
  pub time : ℤ
  pub exception : Option (List ℕ)
  pub tables : List ServerTable

pub record IsAnswer (w : Answer) : Type 0 where
  pub client_data : Fits 8 w.client_data
  pub status : Fits 1 w.status
  pub status_string : IsOptional w.status_string
  pub app_status : Fits 1 w.app_status
  pub app_string : IsOptional w.app_string
  pub time : Fits 4 w.time
  pub exception : IsOptional w.exception
  pub tables : length w.tables < 2 ^ 15

abbrev fields_of : Answer → ℤ
fields_of w = fields_byte (is_there w.status_string) (is_there w.exception) (is_there w.app_string)

-- The version, the fields in their order and the tables.
abbrev pub answer_bytes : Answer → List ℕ
answer_bytes w =
    int_bytes 1 (pos 0)
    ++ (int_bytes 8 w.client_data
        ++ (int_bytes 1 (fields_of w)
            ++ (int_bytes 1 w.status
                ++ (optional_bytes w.status_string
                    ++ (int_bytes 1 w.app_status
                        ++ (optional_bytes w.app_string
                            ++ (int_bytes 4 w.time
                                ++ (optional_bytes w.exception
                                    ++ (int_bytes 2 (pos (length w.tables))
                                        ++ results_bytes w.tables)))))))))

abbrev pub response_of : Bool → Answer → InvocationResponse
response_of e w = record {
  client_data = w.client_data;
  status_code = w.status;
  status_string = or_empty w.status_string;
  app_status_code = w.app_status;
  app_status_string = or_empty w.app_string;
  cluster_round_trip_time = w.time;
  results = tables_of e w.tables;
}

module _ (e : Bool) where
  Takes-int : (n : ℕ) (z : ℤ) → 0 < 256 ^ n → Fits n z → Takes e (get_int n) (int_bytes n z) z
  Takes-int n z h f = Takes-Reads e (Reads-get_int n z h f)

  Takes-text :
      (o : Option (List ℕ)) (x : Bool)
      → x ≡ is_there o
      → IsOptional o
      → Takes e (read_text x) (optional_bytes o) (or_empty o)
  Takes-text o x k h =
      subst (λ (y : Bool). Takes e (read_text y) (optional_bytes o) (or_empty o)) (sym k)
        (Takes-Reads e (Reads-read_text o h))

  Takes-exception :
      (o : Option (List ℕ)) (x : Bool)
      → x ≡ is_there o
      → IsOptional o
      → Takes e (skip_exception x) (optional_bytes o) tt
  Takes-exception o x k h =
      subst (λ (y : Bool). Takes e (skip_exception y) (optional_bytes o) tt) (sym k)
        (Takes-Reads e (Reads-skip_exception o h))

  pub Takes-read_response :
      (w : Answer) → IsAnswer w → Takes e read_response (answer_bytes w) (response_of e w)
  unfolding read_response
  Takes-read_response w v =
      let s = is_there w.status_string in
      let x = is_there w.exception in
      let a = is_there w.app_string in
      Takes-bind e _ (Takes-int 1 (pos 0) (omega arith) (omega arith)) (
        Takes-bind e _ (Takes-int 8 w.client_data (omega arith) v.client_data) (
          Takes-bind e _ (Takes-int 1 (fields_of w) (omega arith) (fields_byte-Fits s x a)) (
            Takes-bind e _ (Takes-int 1 w.status (omega arith) v.status) (
              Takes-bind e _ (Takes-text w.status_string _ (field_five s x a) v.status_string) (
                Takes-bind e _ (Takes-int 1 w.app_status (omega arith) v.app_status) (
                  Takes-bind e _ (Takes-text w.app_string _ (field_seven s x a) v.app_string) (
                    Takes-bind e _ (Takes-int 4 w.time (omega arith) v.time) (
                      Takes-bind e _ (Takes-exception w.exception _ (field_six s x a) v.exception) (
                        Takes-bind e _
                          (Takes-int 2 (pos (length w.tables)) (omega arith)
                            (omega (arith, v.tables)))
                          (Takes-map e (Takes-read_counted e w.tables) _))))))))))

-- The tables hold the columns and the rows that the server has.
abbrev AllHold : List ServerTable → List Table → Type 0
AllHold [] [] = 0 ≤ 0
AllHold [] (x ∷ xs) = 1 ≤ 0
AllHold (t ∷ ts) [] = 1 ≤ 0
AllHold (t ∷ ts) (x ∷ xs) = Holds t.columns t.rows x × AllHold ts xs

tables_of-AllHold : (e : Bool) (ts : List ServerTable) → AllHold ts (tables_of e ts)
tables_of-AllHold e [] = omega arith
tables_of-AllHold e (t ∷ ts) =
    (parsed_table-Holds e t.status t.columns t.rows t.valid, tables_of-AllHold e ts)

-- What is known of a response that was read.
pub record Answered (w : Answer) (b : ByteBuffer) : Type 0 where
  pub response : InvocationResponse
  pub result : read_response b ≡ done response (advance (length (answer_bytes w)) b)
  pub client_data : response.client_data ≡ w.client_data
  pub status : response.status_code ≡ w.status
  pub status_string : response.status_string ≡ or_empty w.status_string
  pub app_status : response.app_status_code ≡ w.app_status
  pub app_string : response.app_status_string ≡ or_empty w.app_string
  pub time : response.cluster_round_trip_time ≡ w.time
  pub tables : AllHold w.tables response.results

-- The constructor reads back each field of a response that stands in front of the unread bytes,
-- whichever of its optional fields are there, skips a serialized exception, and takes the tables in
-- order, each with its columns and its rows; it consumes the bytes of the response and no more. The
-- fields have to fit their widths, and the tables to be fewer than 2 ^ 15.
pub read_response-Answered :
    (w : Answer) (b : ByteBuffer)
    → IsAnswer w
    → Starts (answer_bytes w) b
    → b.limit ≤ b.capacity
    → Answered w b
read_response-Answered w b v s l = record {
  response = response_of b.expandable w;
  result = (Takes-read_response b.expandable w v).takes b s l refl;
  client_data = refl;
  status = refl;
  status_string = refl;
  app_status = refl;
  app_string = refl;
  time = refl;
  tables = tables_of-AllHold b.expandable w.tables;
}
