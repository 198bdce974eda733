-- ===== src/Modbus/Words/Integers.antt =====
-- Encoding and decoding of integers: what each writes and reads, and the round trips.
use simple_socket.Prelude.{
  ℕ, suc, ◌+◌, ◌*◌, ◌/◌, ◌%◌, ◌^◌, ◌≤◌, ◌<◌, ◌≡◌, ap, bit_or, List, [], ◌∷◌, shl, shr, length,
  get_or, set, set_run, length-set, ok, elem-ok, arith,
}
use native.Mathlib.Nat.{add-zero}
use simple_socket.Prelude.Bits.{bit_and_word, bit_or_disjoint}
use simple_socket.Modbus.Words.{decode_uint32, decode_uint64, encode_uint32, encode_uint64, word_at}

-- The big-endian words of a value.
abbrev pub words32 : ℕ → List ℕ
words32 v = v / 65536 % 65536 ∷ v % 65536 ∷ []

abbrev pub words64 : ℕ → List ℕ
words64 v = v / 2 ^ 48 % 65536 ∷ v / 2 ^ 32 % 65536 ∷ v / 2 ^ 16 % 65536 ∷ v % 65536 ∷ []

word_at_lem : (v k : ℕ) → word_at v k ≡ v / 2 ^ k % 65536
word_at_lem v k = omega (arith, bit_and_word (shr v k))

pub encode_uint32-set_run :
    (v : ℕ) (buffer : List ℕ) (offset : ℕ)
    → offset + 2 ≤ length buffer
    → encode_uint32 v buffer offset ≡ ok (set_run buffer offset (words32 v))
unfolding encode_uint32
encode_uint32-set_run v buffer offset h =
    ground (arith, word_at_lem v 16, word_at_lem v 0, length-set buffer offset (v / 65536 % 65536))

pub encode_uint64-set_run :
    (v : ℕ) (buffer : List ℕ) (offset : ℕ)
    → offset + 4 ≤ length buffer
    → encode_uint64 v buffer offset ≡ ok (set_run buffer offset (words64 v))
unfolding encode_uint64
encode_uint64-set_run v buffer offset h =
    let b₀ = set buffer offset (v / 2 ^ 48 % 65536) in
    let b₁ = set b₀ (suc offset) (v / 2 ^ 32 % 65536) in
    let b₂ = set b₁ (suc (suc offset)) (v / 2 ^ 16 % 65536) in
    ground (
      arith,
      word_at_lem v 48,
      word_at_lem v 32,
      word_at_lem v 16,
      word_at_lem v 0,
      length-set buffer offset (v / 2 ^ 48 % 65536),
      length-set b₀ (suc offset) (v / 2 ^ 32 % 65536),
      length-set b₁ (suc (suc offset)) (v / 2 ^ 16 % 65536),
    )

join32 : (v : ℕ) → v < 2 ^ 32 → bit_or (shl 32 (v / 65536 % 65536) 16) (v % 65536) ≡ v
join32 v h = ground (arith, bit_or_disjoint 16 (v / 65536) (v % 65536))

join64 :
    (v : ℕ)
    → v < 2 ^ 64
    → bit_or
        (bit_or
          (bit_or (shl 64 (v / 2 ^ 48 % 65536) 48) (shl 64 (v / 2 ^ 32 % 65536) 32))
          (shl 64 (v / 2 ^ 16 % 65536) 16))
        (v % 65536)
      ≡ v
join64 v h = ground (
  arith,
  bit_or_disjoint 48 (v / 2 ^ 48) (v / 2 ^ 32 % 65536 * 2 ^ 32),
  bit_or_disjoint 32 (v / 2 ^ 32) (v / 2 ^ 16 % 65536 * 2 ^ 16),
  bit_or_disjoint 16 (v / 2 ^ 16) (v % 65536),
)

-- Reading back the words of a value, wherever they stand.
pub decode_uint32-words32 :
    (words : List ℕ) (offset v : ℕ)
    → v < 2 ^ 32
    → offset + 2 ≤ length words
    → ((k : ℕ) → k < 2 → get_or words (offset + k) 0 ≡ get_or (words32 v) k 0)
    → decode_uint32 words offset ≡ ok v
unfolding decode_uint32
decode_uint32-words32 words offset v hv fits stored =
    let first : get_or words offset 0 ≡ v / 65536 % 65536 =
      rw (add-zero offset) at (stored 0 (omega arith)) in
    let second : get_or words (offset + 1) 0 ≡ v % 65536 = stored 1 (omega arith) in
    rw (elem-ok words offset (omega arith), elem-ok words (offset + 1) (omega arith), first, second)
      (ap ok (join32 v hv))

pub decode_uint64-words64 :
    (words : List ℕ) (offset v : ℕ)
    → v < 2 ^ 64
    → offset + 4 ≤ length words
    → ((k : ℕ) → k < 4 → get_or words (offset + k) 0 ≡ get_or (words64 v) k 0)
    → decode_uint64 words offset ≡ ok v
unfolding decode_uint64
decode_uint64-words64 words offset v hv fits stored =
    let w₀ : get_or words offset 0 ≡ v / 2 ^ 48 % 65536 =
      rw (add-zero offset) at (stored 0 (omega arith)) in
    let w₁ : get_or words (offset + 1) 0 ≡ v / 2 ^ 32 % 65536 = stored 1 (omega arith) in
    let w₂ : get_or words (offset + 2) 0 ≡ v / 2 ^ 16 % 65536 = stored 2 (omega arith) in
    let w₃ : get_or words (offset + 3) 0 ≡ v % 65536 = stored 3 (omega arith) in
    rw
      (
        elem-ok words offset (omega arith),
        elem-ok words (offset + 1) (omega arith),
        elem-ok words (offset + 2) (omega arith),
        elem-ok words (offset + 3) (omega arith),
        w₀,
        w₁,
        w₂,
        w₃,
      )
      (ap ok (join64 v hv))
