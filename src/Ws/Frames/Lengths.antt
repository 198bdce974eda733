-- ===== src/Ws/Frames/Lengths.antt =====
-- The eight-byte length and the mask: what is written is read back.
use native.Mathlib.Nat.{div-div-eq-div-mul}
use simple_socket.Prelude.{
  ℕ, zero, suc, ◌*◌, ◌/◌, ◌%◌, ◌^◌, ◌<◌, ◌≡◌, refl, sym, ap, ◌∙◌, bit_and, bit_or, List, [], ◌∷◌,
  ◌++◌, length, shl, shr, get_or, arith,
}
use simple_socket.Prelude.Bits.{bit_and_byte, bit_or_bytes, bit_xor_twice}
use simple_socket.Ws.Frames.{length_bytes, read_length, masked}

-- One byte more.
next_byte : (q : ℕ) → q < 2 ^ 64 → bit_or (shl 64 (q / 256) 8) (bit_and q 0xff) ≡ q
next_byte q h =
    let shifted : shl 64 (q / 256) 8 ≡ q / 256 * 256 = omega arith in
    rw (shifted, bit_and_byte q, bit_or_bytes (q / 256) (q % 256) (omega arith)) (omega arith)

shift_more : (i len : ℕ) → shr len (suc i * 8) ≡ shr len (i * 8) / 256
shift_more i len =
    let eight : suc i * 8 ≡ suc (suc (suc (suc (suc (suc (suc (suc (i * 8)))))))) = omega arith in
    ap (λ k. len / 2 ^ k) eight
    ∙ ap (λ d. len / d) (omega arith)
    ∙ sym (div-div-eq-div-mul len (2 ^ (i * 8)) 256)

read_length-length_bytes_from :
    (i len : ℕ) (ys : List ℕ)
    → len < 2 ^ 64
    → read_length i (shr len (i * 8)) (length_bytes i len ++ ys) ≡ len
unfolding read_length length_bytes
read_length-length_bytes_from zero len ys h = omega arith
read_length-length_bytes_from (suc i) len ys h =
    let q = shr len (i * 8) in
    let small : q < 2 ^ 64 = grind arith in
    rw (shift_more i len, next_byte q small) (read_length-length_bytes_from i len ys h)

pub read_length-length_bytes :
    (len : ℕ) (ys : List ℕ) → len < 2 ^ 64 → read_length 8 0 (length_bytes 8 len ++ ys) ≡ len
read_length-length_bytes len ys h =
    let start : shr len (8 * 8) ≡ 0 = omega arith in
    rw (sym start) (read_length-length_bytes_from 8 len ys h)

pub length-length_bytes : (i len : ℕ) → length (length_bytes i len) ≡ i
unfolding length_bytes
length-length_bytes zero len = refl
length-length_bytes (suc i) len = ap suc (length-length_bytes i len)

-- Masking twice with the same bytes gives the data back.
pub masked_twice : (m : List ℕ) (i : ℕ) (xs : List ℕ) → masked m i (masked m i xs) ≡ xs
unfolding masked
masked_twice m i [] = refl
masked_twice m i (x ∷ xs) =
    ground (arith, bit_xor_twice x (get_or m (bit_and i 0x03) 0), masked_twice m (suc i) xs)

pub length-masked : (m : List ℕ) (i : ℕ) (xs : List ℕ) → length (masked m i xs) ≡ length xs
unfolding masked
length-masked m i [] = refl
length-masked m i (x ∷ xs) = ap suc (length-masked m (suc i) xs)
