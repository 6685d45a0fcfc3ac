-- ===== src/Server/Setup/Laws.antt =====
-- `server` and `main`: the threads that are started, and the modes.
use left_my_codes.Base.{
  ◌||◌, take_all, decimal, ℕ, zero, suc, ◌+◌, ◌/◌, ◌%◌, ◌^◌, ◌≤◌, ◌<◌, ◌≡◌, refl, sym, ap, ◌∙◌, ◌≢◌,
  inl, inr, Bool, true, false, ◌&&◌, some, List, [], ◌∷◌, ◌++◌, arith, ltb, leb, ◌==◌,
  if◌then◌else◌, Bool-cases, length, All, Bytes, codes, print_plain-eq,
}
use left_my_codes.Base.{decimal_digits}
use left_my_codes.Hash.{hash_, literal_hash}
use left_my_codes.Hash.Agree.{hash-literal_hash, hash-change}
use left_my_codes.Server.Setup.{
  Call, initialize_socket, create_socket, bind_socket, listen_socket, start_thread, clean_socket,
  attempt, accept_loop, server, digits_value, atoi_short, run_server, run_client, usage,
  choose_mode, main,
}

-- The sockets of the threads that were started.
abbrev pub started : List Call → List ℕ
started [] = []
started (start_thread socket ∷ calls) = socket ∷ started calls
started (_ ∷ calls) = started calls

started-accept_loop :
    (sockets : List ℕ) (later : List Call)
    → started later ≡ []
    → started (accept_loop sockets ++ later) ≡ sockets
unfolding accept_loop
started-accept_loop [] later h = h
started-accept_loop (socket ∷ sockets) later h =
    ap (◌∷◌ socket) (started-accept_loop sockets later h)

-- `server` starts a thread for each socket that `accept` gives before it fails, if all four calls
-- before the loop succeed, and for none otherwise; on every path it calls `CleanSocket` last.
pub server-started :
    (initialized created bound listening : Bool) (sockets : List ℕ) (ip : Bytes) (port : ℕ)
    → let calls = server initialized created bound listening sockets ip port in
      (started calls ≡ (if initialized && (created && (bound && listening)) then sockets else []))
      × ((before : List Call) × (calls ≡ before ++ clean_socket ∷ []))
unfolding server attempt
server-started false created bound listening sockets ip port =
    (refl, (initialize_socket ∷ [], refl))
server-started true false bound listening sockets ip port =
    (refl, (initialize_socket ∷ create_socket ∷ [], refl))
server-started true true false listening sockets ip port =
    (refl, (initialize_socket ∷ create_socket ∷ bind_socket ip port ∷ [], refl))
server-started true true true false sockets ip port =
    (refl, (initialize_socket ∷ create_socket ∷ bind_socket ip port ∷ listen_socket ∷ [], refl))
server-started true true true true sockets ip port = (
  started-accept_loop sockets (clean_socket ∷ []) refl,
  (
    initialize_socket ∷ create_socket ∷ bind_socket ip port ∷ listen_socket ∷ accept_loop sockets,
    refl,
  ),
)

-- The digits that `%d` prints are read back.
digits_value-decimal_digits :
    (fuel n : ℕ) (later : Bytes)
    → n < fuel
    → digits_value 0 (decimal_digits fuel n later) ≡ digits_value n later
unfolding digits_value decimal_digits
digits_value-decimal_digits zero n later h = absurd (omega arith)
digits_value-decimal_digits (suc fuel) n later h = elim (Bool-cases (ltb n 10)) [
  | inl one ↦
      let digit : (leb b'0' (b'0' + n) && leb (b'0' + n) b'9') ≡ true = ground (arith, one) in
      rw (one, digit) (ap (λ v. digits_value v later) (omega arith))
  | inr more ↦
      let d = b'0' + n % 10 in
      let digit : (leb b'0' d && leb d b'9') ≡ true = ground arith in
      rw (more, digits_value-decimal_digits fuel (n / 10) (d ∷ later) (ground (arith, more)), digit)
        (ap (λ v. digits_value v later) (omega arith))
]

-- The first digit is neither white space nor a sign.
atoi_short-decimal_digits :
    (fuel n : ℕ) (later : Bytes)
    → n < fuel
    → atoi_short (decimal_digits fuel n later)
      ≡ digits_value 0 (decimal_digits fuel n later) % 2 ^ 16
unfolding atoi_short decimal_digits
atoi_short-decimal_digits zero n later h = absurd (omega arith)
atoi_short-decimal_digits (suc fuel) n later h = elim (Bool-cases (ltb n 10)) [
  | inl one ↦
      let c = b'0' + n in
      let plain : (c == b' ' || leb 9 c && leb c 13) ≡ false = ground (arith, one) in
      let minus : (c == b'-') ≡ false = ground (arith, one) in
      let plus : (c == b'+') ≡ false = ground (arith, one) in rw (one, plain, minus, plus) refl
  | inr more ↦
      rw more
        (atoi_short-decimal_digits fuel (n / 10) ((b'0' + n % 10) ∷ later) (ground (arith, more)))
]

atoi_short-decimal : (n : ℕ) → n < 2 ^ 16 → atoi_short (decimal n) ≡ n
unfolding decimal digits_value
atoi_short-decimal n h =
    atoi_short-decimal_digits (suc n) n [] (omega arith)
    ∙ rw (digits_value-decimal_digits (suc n) n [] (omega arith)) (omega arith)

-- Whether the hash of `--` and a character is that of the label with another character.
label_hash :
    (c d : ℕ)
    → c < 256
    → d < 256
    → (hash_ (codes "--" ++ c ∷ []) == literal_hash (codes "--" ++ d ∷ [])) ≡ (c == d)
label_hash c d hc hd = elim (Bool-cases (c == d)) [
  | inl same ↦
      let eq : c ≡ d = ground (arith, same) in
      let equal : (hash_ (codes "--" ++ d ∷ []) == hash_ (codes "--" ++ d ∷ [])) ≡ true =
        ground arith in
      rw (sym (hash-literal_hash (codes "--" ++ d ∷ [])), eq, equal) (ground arith)
  | inr other ↦
      let ne = hash-change (codes "--") [] c d tt hc hd (ground (arith, other)) in
      let different : (hash_ (codes "--" ++ c ∷ []) == hash_ (codes "--" ++ d ∷ [])) ≡ false =
        ground (arith, ne) in
      rw (sym (hash-literal_hash (codes "--" ++ d ∷ [])), other, different) refl
]

-- For a mode of `--` and one character that is a byte, an address of at most 19 characters with no
-- `%`, and a port below 2 ^ 16 in decimal digits: `main` runs the server for `--s`, the client for
-- `--c`, with this address and this port, and returns -1 for any other character.
pub main-mode :
    (program address : Bytes) (c port : ℕ)
    → c < 256
    → All (λ d. d ≢ b'%') address
    → length address ≤ 19
    → port < 2 ^ 16
    → main (program ∷ (codes "--" ++ c ∷ []) ∷ address ∷ decimal port ∷ [])
      ≡ some (
          if c == b's'
          then run_server address port
          else if c == b'c'
          then run_client address port
          else usage)
unfolding main choose_mode
main-mode program address c port h plain short small =
    rw
      (
        print_plain-eq address plain,
        take_all address 19 short,
        atoi_short-decimal port small,
        label_hash c b's' h (omega arith),
        label_hash c b'c' h (omega arith),
      )
      refl
