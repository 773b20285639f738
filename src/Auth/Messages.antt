-- ===== src/Auth/Messages.antt =====
-- The login messages: the request fills the buffer of the size that it asks for, and the response is
-- read from the bytes of the server.
use voltdb_client_cpp.Prelude.{
  ℕ, ◌+◌, ◌^◌, ◌≤◌, ◌<◌, ◌≡◌, refl, ap, subst, ◌∙◌, List, [], ◌++◌, arith, length, length-append,
  append-nil, some,
}
use voltdb_client_cpp.Prelude.Int.{ℤ, pos, ◌+ℤ◌}
use voltdb_client_cpp.Action.{Action, done, ◌>>=◌}
use voltdb_client_cpp.Wire.{int_bytes, to_bytes}
use voltdb_client_cpp.Wire.Laws.{Fits, length-to_bytes}
use voltdb_client_cpp.Buffer.{ByteBuffer, scoped, put, get_int}
use voltdb_client_cpp.Buffer.Put.{
  Writes, Writes-seq, Writes-put, Writes-put_int, Writes-put_string, IsText, text_bytes,
}
use voltdb_client_cpp.Buffer.Get.{
  Reads, Reads-bind, Reads-map, Reads-get_int, Reads-get_string, Reads-pure,
}
use voltdb_client_cpp.Buffer.Frame.{framed, holding, opened, open_frame, close_frame_lem}
use voltdb_client_cpp.Params.Values.{}
use voltdb_client_cpp.Params.Elements.{cast_size}
use voltdb_client_cpp.Auth.{
  HashScheme, sha1, sha256, Request, Login, hash_size, get_serialized_size, without_scheme,
  put_version, put_login, read_login, serialize_to, get_login, read_response,
}

abbrev hash_length : HashScheme → ℕ
hash_length sha1 = 20
hash_length sha256 = 32

abbrev version_bytes : HashScheme → List ℕ
version_bytes sha1 = int_bytes 1 (pos 0)
version_bytes sha256 = int_bytes 1 (pos 1) ++ int_bytes 1 (pos 1)

-- The body of the login request.
abbrev pub login_bytes : Request → List ℕ
login_bytes r =
    version_bytes r.scheme ++ (text_bytes r.service ++ (text_bytes r.username ++ r.password_hash))

-- The hash has the size of its scheme, and the message a size that the wire can tell.
pub record IsRequest (r : Request) : Type 0 where
  pub hash : length r.password_hash ≡ hash_length r.scheme
  pub size : length r.username + length r.service ≤ 2 ^ 29

Writes-put_version : (s : HashScheme) → Writes (put_version s) (version_bytes s)
unfolding put_version
Writes-put_version sha1 = Writes-put_int 1 (pos 0)
Writes-put_version sha256 = Writes-seq (Writes-put_int 1 (pos 1)) (Writes-put_int 1 (pos 1))

hash_size-pos : (s : HashScheme) → pos (hash_length s) ≡ hash_size s
hash_size-pos sha1 = refl
hash_size-pos sha256 = refl

Writes-put_login : (r : Request) → IsRequest r → Writes (put_login r) (login_bytes r)
unfolding put_login
Writes-put_login r v = Writes-seq (Writes-put_version r.scheme) (
    Writes-seq (Writes-put_string r.service (omega (arith, v.size))) (
      Writes-seq (Writes-put_string r.username (omega (arith, v.size))) (
        subst (λ z. Writes (put r.password_hash z) r.password_hash)
          (ap pos v.hash ∙ hash_size-pos r.scheme) (Writes-put r.password_hash))))

hash_length-le : (s : HashScheme) → hash_length s + length (version_bytes s) ≤ 34
unfolding to_bytes
hash_length-le sha1 = omega arith
hash_length-le sha256 = omega arith

login_length :
    (r : Request)
    → IsRequest r
    → length (login_bytes r)
      ≡ length (version_bytes r.scheme)
        + 8
        + hash_length r.scheme
        + length r.username
        + length r.service
login_length r v = omega (
  arith,
  length-append (version_bytes r.scheme)
      (text_bytes r.service ++ (text_bytes r.username ++ r.password_hash)),
  length-append (text_bytes r.service) (text_bytes r.username ++ r.password_hash),
  length-append (text_bytes r.username) r.password_hash,
  length-append (to_bytes 4 (length r.service)) r.service,
  length-append (to_bytes 4 (length r.username)) r.username,
  length-to_bytes 4 (length r.service),
  length-to_bytes 4 (length r.username),
  v.hash,
)

size_sum :
    (s : HashScheme) (u v : ℕ)
    → without_scheme s (pos 8 +ℤ hash_size s +ℤ pos u +ℤ pos v +ℤ pos 4 +ℤ pos 1 +ℤ pos 1)
      ≡ pos (4 + (length (version_bytes s) + 8 + hash_length s + u + v))
unfolding to_bytes
size_sum sha1 u v = ground arith
size_sum sha256 u v = ground arith

-- Where the hash has the length of its scheme and the names stay within 2 ^ 29 bytes, the login
-- request is written in full to a fresh buffer of the size that it asks for: its length, the
-- version and with the new scheme its code, the service, the name and the hash. No byte is left over
-- and nothing is thrown.
pub serialize_to-login :
    (r : Request)
    → IsRequest r
    → (get_serialized_size r ≡ pos (4 + length (login_bytes r)))
      × (serialize_to r (scoped (4 + length (login_bytes r)))
          ≡ done tt (holding (framed (login_bytes r))))
unfolding get_serialized_size serialize_to scoped
serialize_to-login r v =
    let l = login_length r v in
    let n = 4 + length (login_bytes r) in
    let w = (Writes-put_login r v).fits (opened n) (omega arith) in
    (
      rw
          (
            cast_size (length r.username) (omega (arith, v.size)),
            cast_size (length r.service) (omega (arith, v.size)),
            l,
          )
          (size_sum r.scheme (length r.username) (length r.service)),
      rw (open_frame n (omega arith), w)
          (close_frame_lem (login_bytes r) (omega (arith, l, v.size, hash_length-le r.scheme))),
    )

-- The fields are in the range of their types.
pub record IsLogin (l : Login) : Type 0 where
  pub host_id : Fits 4 l.host_id
  pub connection_id : Fits 8 l.connection_id
  pub cluster_start_time : Fits 8 l.cluster_start_time
  pub leader_address : Fits 4 l.leader_address
  pub build_string : IsText l.build_string

-- The response of a server that lets the client in, and of one that does not.
abbrev pub accept_bytes : Login → List ℕ
accept_bytes l =
    int_bytes 1 (pos 0)
    ++ (int_bytes 1 (pos 0)
        ++ (int_bytes 4 l.host_id
            ++ (int_bytes 8 l.connection_id
                ++ (int_bytes 8 l.cluster_start_time
                    ++ (int_bytes 4 l.leader_address ++ text_bytes l.build_string)))))

abbrev pub refuse_bytes : ℤ → List ℕ
refuse_bytes code = int_bytes 1 (pos 0) ++ int_bytes 1 code

-- A last part behind which nothing is read.
Reads-last :
    {A B : Type 0} {m : Action ByteBuffer A} (f : A → Action ByteBuffer B) {xs : List ℕ} {a : A}
    {c : B}
    → Reads m xs a
    → Reads (f a) [] c
    → Reads (m >>= f) xs c
Reads-last {m = m} f {xs} {c = c} r q =
    subst (λ ys. Reads (m >>= f) ys c) (append-nil xs) (Reads-bind f r q)

Reads-int : (n : ℕ) (z : ℤ) → 0 < 256 ^ n → Fits n z → Reads (get_int n) (int_bytes n z) z
Reads-int n z p h = Reads-get_int n z p h

Reads-get_login :
    (l : Login)
    → IsLogin l
    → Reads get_login
        (int_bytes 4 l.host_id
          ++ (int_bytes 8 l.connection_id
              ++ (int_bytes 8 l.cluster_start_time
                  ++ (int_bytes 4 l.leader_address ++ text_bytes l.build_string))))
        l
unfolding get_login
Reads-get_login l v = Reads-bind _ (Reads-int 4 l.host_id (omega arith) v.host_id) (
    Reads-bind _ (Reads-int 8 l.connection_id (omega arith) v.connection_id) (
      Reads-bind _ (Reads-int 8 l.cluster_start_time (omega arith) v.cluster_start_time) (
        Reads-bind _ (Reads-int 4 l.leader_address (omega arith) v.leader_address)
          (Reads-last _ (Reads-get_string l.build_string v.build_string) (Reads-pure l)))))

-- The answer of a server that lets the client in gives the fields that were written, where each fits
-- its width.
pub read_response-accept :
    (l : Login)
    → IsLogin l
    → Reads read_response (accept_bytes l) (record { result_code = pos 0; login = some l })
unfolding read_response read_login
read_response-accept l v = Reads-bind _ (Reads-int 1 (pos 0) (omega arith) (omega arith)) (
    Reads-bind _ (Reads-int 1 (pos 0) (omega arith) (omega arith))
      (Reads-map (Reads-get_login l v) (λ x. record { result_code = pos 0; login = some x })))
