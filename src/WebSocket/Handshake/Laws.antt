-- ===== src/WebSocket/Handshake/Laws.antt =====
-- `GetAnswerStr` on a request with a key.
use left_my_codes.Base.{
  print_room, All-imp, ℕ, suc, ◌+◌, ◌≤◌, ◌<◌, ◌≡◌, refl, sym, ap, ◌∙◌, ◌≢◌, true, some, List, [],
  ◌∷◌, ◌++◌, append_assoc, arith, ◌==◌, length, drop, replicate, All, length-append, All-append,
  Bytes, slice, slice-append, clear-in, clear-replicate, codes, c_str, IsText, c_str-append, strstr,
  print_plain-eq, some_inj,
}
use left_my_codes.WebSocket.Handshake.{
  magic_str, per_of_http, suf_of_http, network_bytes, count_magic_str, print_answer, answer_key_at,
  get_answer_str,
}

magic_str-IsText : IsText magic_str
magic_str-IsText = ground arith

abbrev field_name : Bytes
field_name = codes "Sec-WebSocket-Key: "

field_name-IsText : IsText field_name
field_name-IsText = ground arith

print_answer-room :
    (sha1 : Bytes → List ℕ) (base64_encode : Bytes → ℕ → Bytes) (key rest out : Bytes) (len : ℕ)
    → IsText key
    → length key ≤ 28
    → length per_of_http + 28 + length suf_of_http < len
    → len ≤ length out
    → (let response = per_of_http ++ (key ++ suf_of_http) in
        print_answer sha1 base64_encode out len (true, key ++ 0 ∷ rest)
        ≡ some (true, response ++ 0 ∷ drop (suc (length response)) out))
unfolding print_answer
print_answer-room sha1 base64_encode key rest out len h small room fits =
    let response = per_of_http ++ (key ++ suf_of_http) in
    let l : length response < len =
      omega
        (arith, length-append per_of_http (key ++ suf_of_http), length-append key suf_of_http) in
    rw (c_str-append key rest h, print_room response out len l fits)

module _ (sha1 : Bytes → List ℕ) (base64_encode : Bytes → ℕ → Bytes) where
  -- The value that RFC 6455 has for Sec-WebSocket-Accept.
  abbrev pub accept : Bytes → Bytes
  accept key = base64_encode (network_bytes (sha1 (key ++ magic_str))) 20

  module _ (base64-IsText : (b : Bytes) → All (λ c. (c ≢ 0) × (c ≢ b'%')) (base64_encode b 20))
      (base64-length : (b : Bytes) → length (base64_encode b 20) ≤ 28) where
    count_magic_str-key :
        (key out : Bytes) (len : ℕ)
        → IsText key
        → length key ≡ 24
        → 28 < len
        → len ≤ length out
        → count_magic_str sha1 base64_encode (key ++ 0 ∷ []) out len
          ≡ some (true, accept key ++ 0 ∷ drop (suc (length (accept key))) out)
    unfolding count_magic_str
    count_magic_str-key key out len h l room fits =
        let whole : (length key == 24) ≡ true = ground arith in
        let digest = network_bytes (sha1 (key ++ magic_str)) in
        let good = base64-IsText digest in
        let request : c_str (key ++ (magic_str ++ 0 ∷ 0 ∷ [])) ≡ some (key ++ magic_str) =
          simp append_assoc at (
            c_str-append (key ++ magic_str) (0 ∷ [])
              (All-append (λ c. c ≢ 0) key magic_str h magic_str-IsText)) in
        rw (
          c_str-append key [] h,
          whole,
          slice-append [] key (0 ∷ []) 0 24 refl (sym l),
          request,
          c_str-append (accept key) [] (All-imp (accept key) (λ c p. p.0) good),
          print_plain-eq (accept key) (All-imp (accept key) (λ c p. p.1) good),
          print_room (accept key) out len (omega (arith, base64-length digest)) fits,
        )

    -- For a request in which `Sec-WebSocket-Key` first stands before `: ` and a key of 24 characters,
    -- the answer is the response of RFC 6455 with the digest of the key and of the magic string,
    -- and NULs up to the length given. The copies of the libraries are taken to give at most
    -- 28 characters for the 20 bytes of a digest, none of them a NUL or `%`.
    pub get_answer_str-accept :
        (front key back junk out : Bytes) (len : ℕ)
        → IsText front
        → IsText key
        → IsText back
        → strstr
            (front ++ (codes "Sec-WebSocket-Key: " ++ (key ++ back)))
            (codes "Sec-WebSocket-Key")
          ≡ some (length front)
        → length key ≡ 24
        → length per_of_http + 28 + length suf_of_http < len
        → len ≤ length out
        → let request = front ++ (codes "Sec-WebSocket-Key: " ++ (key ++ back)) in
          let response = per_of_http ++ (accept key ++ suf_of_http) in
          get_answer_str sha1 base64_encode (request ++ 0 ∷ junk) out len
          ≡ some
              (true, response ++ 0 ∷ drop (suc (length response)) (replicate len 0 ++ drop len out))
    unfolding get_answer_str answer_key_at
    get_answer_str-accept front key back junk out len hf hk hb here l room fits =
        let request = front ++ (field_name ++ (key ++ back)) in
        let request-IsText : IsText request =
          All-append (λ c. c ≢ 0) front (field_name ++ (key ++ back)) hf
            (All-append (λ c. c ≢ 0) field_name (key ++ back) field_name-IsText
              (All-append (λ c. c ≢ 0) key back hk hb)) in
        let cut : slice (request ++ 0 ∷ junk) (length front + 19) 24 ≡ some key =
          simp append_assoc (
            simp append_assoc at (
              slice-append (front ++ field_name) key (back ++ 0 ∷ junk) (length front + 19) 24
                (omega (arith, length-append front field_name)) (sym l))) in
        let cleared = clear-replicate out len fits in
        let (_, cleared', same) = clear-in out len fits in
        let whole : length (replicate len 0 ++ drop len out) ≡ length out =
          ap length (some_inj (sym cleared ∙ cleared')) ∙ same in
        let digest = network_bytes (sha1 (key ++ magic_str)) in
        let counted =
          count_magic_str-key key (replicate 128 0) 128 hk l (omega arith) (omega arith) in
        let printed =
          print_answer-room sha1 base64_encode (accept key)
            (drop (suc (length (accept key))) (replicate 128 0)) (replicate len 0 ++ drop len out)
            len (All-imp (accept key) (λ c p. p.0) (base64-IsText digest)) (base64-length digest)
            room (omega (arith, whole)) in
        rw (c_str-append request junk request-IsText, here, cut, cleared, counted) printed
