-- ===== src/Ws/Frames/RoundTrip.antt =====
-- A frame that one end builds, the other end takes.
use simple_socket.Prelude.{
  ℕ, zero, suc, ◌+◌, ◌/◌, ◌%◌, ◌^◌, ◌<◌, ◌≤◌, ◌≡◌, refl, sym, ap, ◌∙◌, bit_and, bit_or, Bool, true,
  false, List, [], ◌∷◌, ◌++◌, ◌==◌, if◌then◌else◌, ltb, leb, leb→le, length, length-append, shl,
  shr, get_or, take, drop, take-append_left, drop-append_left, drop_past, arith, Bool-cases, inl,
  inr,
}
use simple_socket.Prelude.Bits.{
  bit_and_byte, bit_or_bytes, bit_and_top_bit, bit_and_low_nibble, bit_or_top_bit, bit_or-zero,
  bit_and_seven_bits, bit_or_comm,
}
use simple_socket.Ws.Frames.{
  Role, Parsed, is_client, length_bytes, read_length, masked, build_frame, parse_payload,
  parse_frame,
}
use simple_socket.Ws.Frames.Lengths.{read_length-length_bytes, masked_twice, length-masked}

-- The fields of the first byte.
first_byte_fin : (op : ℕ) → op < 16 → bit_and (bit_or 0x80 (bit_and op 0x0f)) 0x80 ≡ 128
first_byte_fin op h =
    let b : bit_or 0x80 (bit_and op 0x0f) ≡ op + 128 =
      rw (bit_and_low_nibble op)
        (omega (arith, bit_or_comm 0x80 (op % 16), bit_or_top_bit (op % 16))) in
    rw b (omega (arith, bit_and_top_bit (op + 128)))

first_byte_opcode : (op : ℕ) → op < 16 → bit_and (bit_or 0x80 (bit_and op 0x0f)) 0x0f ≡ op
first_byte_opcode op h =
    let b : bit_or 0x80 (bit_and op 0x0f) ≡ op + 128 =
      rw (bit_and_low_nibble op)
        (omega (arith, bit_or_comm 0x80 (op % 16), bit_or_top_bit (op % 16))) in
    rw b (omega (arith, bit_and_low_nibble (op + 128)))

-- The payload, from the length on.
unmasked_payload :
    (fin : Bool) (op hdr : ℕ) (xs ys rx : List ℕ)
    → drop (hdr + 0) rx ≡ xs ++ ys
    → hdr + length xs ≤ length rx
    → hdr ≤ 10
    → length xs < 2 ^ 63
    → parse_payload fin op false hdr (length xs) rx ≡ Parsed.frame fin op xs ys
unfolding parse_payload
unmasked_payload fin op hdr xs ys rx at enough h short =
    let fits : ltb (length rx) ((hdr + 0 + length xs) % 2 ^ 64) ≡ false = ground arith in
    let held : leb (2 ^ 63) (length xs) ≡ false = ground arith in
    rw (fits, held, at, take-append_left xs ys, drop-append_left xs ys) refl

masked_payload :
    (fin : Bool) (op hdr : ℕ) (m xs ys rx : List ℕ)
    → take 4 (drop hdr rx) ≡ m
    → drop (hdr + 4) rx ≡ masked m 0 xs ++ ys
    → hdr + 4 + length xs ≤ length rx
    → hdr ≤ 10
    → length xs < 2 ^ 63
    → parse_payload fin op true hdr (length xs) rx ≡ Parsed.frame fin op xs ys
unfolding parse_payload
masked_payload fin op hdr m xs ys rx mask at enough h short =
    let fits : ltb (length rx) ((hdr + 4 + length xs) % 2 ^ 64) ≡ false = ground arith in
    let held : leb (2 ^ 63) (length xs) ≡ false = ground arith in
    let size = length-masked m 0 xs in
    let taken : take (length xs) (masked m 0 xs ++ ys) ≡ masked m 0 xs =
      rw (sym size) (take-append_left (masked m 0 xs) ys) in
    let left : drop (length xs) (masked m 0 xs ++ ys) ≡ ys =
      rw (sym size) (drop-append_left (masked m 0 xs) ys) in
    rw (fits, held, mask, at, taken, left, masked_twice m 0 xs) refl

-- `parse_frame` once the masking rule holds, by the length in the second byte.
abbrev sized : ℕ → Bool → ℕ → List ℕ → Parsed
sized op mk n rx =
    if n == 126
    then (if ltb (length rx) 4
        then Parsed.more
        else parse_payload true op mk 4 (bit_or (shl 64 (get_or rx 2 0) 8) (get_or rx 3 0)) rx)
    else if n == 127
    then (if ltb (length rx) 10
        then Parsed.more
        else parse_payload true op mk 10 (read_length 8 0 (drop 2 rx)) rx)
    else parse_payload true op mk 2 n rx

-- The other end of a connection.
abbrev pub peer : Role → Role
peer Role.client = Role.server
peer Role.server = Role.client

abbrev mask_bit : Role → ℕ
mask_bit role = if is_client role then 0x80 else 0x00

header :
    (role : Role) (op n : ℕ) (t : List ℕ)
    → op < 16
    → n < 128
    → let rx = bit_or 0x80 (bit_and op 0x0f) ∷ bit_or n (mask_bit role) ∷ t in
      parse_frame (peer role) rx ≡ sized op (is_client role) n rx
unfolding parse_frame
header Role.client op n t h h' =
    let top : bit_and (bit_or n 0x80) 0x80 ≡ 128 = omega (
      arith,
      bit_or_top_bit n,
      bit_and_top_bit (n + 128),
      ap (λ b. bit_and b 0x80) (bit_or_top_bit n h'),
    ) in
    let low : bit_and (bit_or n 0x80) 0x7f ≡ n =
      omega (arith, bit_or_top_bit n, bit_and_seven_bits (bit_or n 0x80)) in
    let two : ltb (suc (suc (length t))) 2 ≡ false = ground arith in
    rw (first_byte_fin op h, first_byte_opcode op h, top, low, two) refl
header Role.server op n t h h' =
    let none_set : bit_and (bit_or n 0x00) 0x80 ≡ 0 =
      omega (arith, bit_or-zero n, bit_and_top_bit (bit_or n 0)) in
    let low : bit_and (bit_or n 0x00) 0x7f ≡ n =
      omega (arith, bit_or-zero n, bit_and_seven_bits (bit_or n 0x00)) in
    let two : ltb (suc (suc (length t))) 2 ≡ false = ground arith in
    rw (first_byte_fin op h, first_byte_opcode op h, none_set, low, two) refl

-- What `build_frame` puts after the length.
abbrev body : Role → List ℕ → List ℕ → List ℕ
body role random xs = if is_client role then random ++ masked random 0 xs else xs

drop_twice : (a b : ℕ) (xs : List ℕ) → drop (a + b) xs ≡ drop b (drop a xs)
drop_twice zero b xs = ap (λ k. drop k xs) (omega arith)
drop_twice (suc a) b [] =
    drop_past (suc a + b) [] (omega arith) ∙ sym (drop_past b [] (omega arith))
drop_twice (suc a) b (x ∷ xs) =
    let up : suc a + b ≡ suc (a + b) = omega arith in rw up (drop_twice a b xs)

payload_of_body :
    (role : Role) (op hdr m₀ m₁ m₂ m₃ : ℕ) (xs ys rx : List ℕ)
    → drop hdr rx ≡ body role (m₀ ∷ m₁ ∷ m₂ ∷ m₃ ∷ []) xs ++ ys
    → length rx ≡ hdr + length (body role (m₀ ∷ m₁ ∷ m₂ ∷ m₃ ∷ []) xs ++ ys)
    → hdr ≤ 10
    → length xs < 2 ^ 63
    → parse_payload true op (is_client role) hdr (length xs) rx ≡ Parsed.frame true op xs ys
payload_of_body Role.client op hdr m₀ m₁ m₂ m₃ xs ys rx at size h short =
    let data_bytes = masked (m₀ ∷ m₁ ∷ m₂ ∷ m₃ ∷ []) 0 xs in
    masked_payload true op hdr (m₀ ∷ m₁ ∷ m₂ ∷ m₃ ∷ []) xs ys rx (ap (λ l. take 4 l) at)
      (drop_twice hdr 4 rx ∙ ap (λ l. drop 4 l) at)
      (omega (arith, length-append data_bytes ys, length-masked (m₀ ∷ m₁ ∷ m₂ ∷ m₃ ∷ []) 0 xs)) h
      short
payload_of_body Role.server op hdr m₀ m₁ m₂ m₃ xs ys rx at size h short =
    unmasked_payload true op hdr xs ys rx (ap (λ k. drop k rx) (omega arith) ∙ at)
      (omega (arith, length-append xs ys)) h short

two_bytes : (n : ℕ) → n ≤ 0xffff → bit_or (shl 64 (bit_and (shr n 8) 0xff) 8) (bit_and n 0xff) ≡ n
two_bytes n h =
    grind (arith, bit_and_byte n, bit_and_byte (shr n 8), bit_or_bytes (n / 256) (n % 256))

-- What one end builds, of any opcode and any payload that a vector can hold, the other end takes from
-- the front of the bytes that have arrived: the same opcode and payload, marked as final, whatever
-- the four random bytes of the mask are, and whatever follows stays.
pub parse_frame-build_frame :
    (role : Role) (op : ℕ) (xs ys : List ℕ) (m₀ m₁ m₂ m₃ : ℕ)
    → op < 16
    → length xs < 2 ^ 63
    → parse_frame (peer role) (build_frame op xs role (m₀ ∷ m₁ ∷ m₂ ∷ m₃ ∷ []) ++ ys)
      ≡ Parsed.frame true op xs ys
unfolding build_frame length_bytes
parse_frame-build_frame role op xs ys m₀ m₁ m₂ m₃ h short =
    let b = body role (m₀ ∷ m₁ ∷ m₂ ∷ m₃ ∷ []) xs in
    let len = length xs in
    elim (Bool-cases (leb len 125)) [
      | inl small ↦
          let n : len ≤ 125 = leb→le len 125 small in
          let not_126 : (len == 126) ≡ false = ground arith in
          let not_127 : (len == 127) ≡ false = ground arith in
          rw small (
            header role op len (b ++ ys) h (omega arith)
            ∙ rw (sized, not_126, not_127)
                (payload_of_body role op 2 m₀ m₁ m₂ m₃ xs ys _ refl (omega arith) (omega arith)
                  short))
      | inr e ↦ elim (Bool-cases (leb len 0xffff)) [
        | inl middle ↦
            let four : ltb (suc (suc (suc (suc (length (b ++ ys)))))) 4 ≡ false = ground arith in
            rw (e, middle)
              (header role op 126 (bit_and (shr len 8) 0xff ∷ bit_and len 0xff ∷ (b ++ ys)) h
                  (omega arith)
                ∙ rw (four, two_bytes len (leb→le len 0xffff middle))
                    (payload_of_body role op 4 m₀ m₁ m₂ m₃ xs ys _ refl (omega arith) (omega arith)
                      short))
        | inr large ↦
            let rx =
              bit_or 0x80 (bit_and op 0x0f)
              ∷ bit_or 127 (mask_bit role)
              ∷ ((length_bytes 8 len ++ b) ++ ys) in
            let ten : ltb
                  (suc (suc (suc (suc (suc (suc (suc (suc (suc (suc (length (b ++ ys)))))))))))) 10
                ≡ false =
              ground arith in
            rw (e, large)
              (header role op 127 ((length_bytes 8 len ++ b) ++ ys) h (omega arith)
                ∙ rw (ten) (
                    ap (λ n. parse_payload true op (is_client role) 10 n rx)
                      (read_length-length_bytes len (b ++ ys) (omega arith))
                    ∙ payload_of_body role op 10 m₀ m₁ m₂ m₃ xs ys rx refl (omega arith)
                        (omega arith) short))
      ]
    ]
