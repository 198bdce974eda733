-- ===== src/Modbus/Words.antt =====
-- include/simple_socket/modbus/modbus_helper.hpp: wider integers, floats and texts as 16-bit words.
-- A `float` or `double` is its bit pattern, which is all that `memcpy` moves. A `char` is signed.
pub mod Integers
pub mod Texts
use simple_socket.Prelude.{
  ℕ, zero, suc, ◌+◌, ◌*◌, ◌%◌, ◌^◌, bit_and, bit_or, Bool, List, [], ◌∷◌, ◌++◌, ltb, shl, shr,
  length, if◌then◌else◌, Outcome, ok, ◌>>=◌, ◌>>◌, elem, store, throw_if, out_of_range,
}

unfoldable pub decode_uint32 : List ℕ → ℕ → Outcome ℕ
decode_uint32 words offset = do
  hi ← elem words offset
  lo ← elem words (offset + 1)
  ok (bit_or (shl 32 hi 16) lo)

unfoldable pub decode_uint64 : List ℕ → ℕ → Outcome ℕ
decode_uint64 words offset = do
  a ← elem words offset
  b ← elem words (offset + 1)
  c ← elem words (offset + 2)
  d ← elem words (offset + 3)
  ok (bit_or (bit_or (bit_or (shl 64 a 48) (shl 64 b 32)) (shl 64 c 16)) d)

unfoldable pub decode_float : List ℕ → ℕ → Outcome ℕ
decode_float words offset = do
  throw_if (ltb (length words) (offset + 2)) out_of_range
  decode_uint32 words offset

unfoldable pub decode_double : List ℕ → ℕ → Outcome ℕ
decode_double words offset = do
  throw_if (ltb (length words) (offset + 4)) out_of_range
  decode_uint64 words offset

-- The low 16 bits of `value >> k`.
abbrev pub word_at : ℕ → ℕ → ℕ
word_at value k = bit_and (shr value k) 0xffff % 2 ^ 16

unfoldable pub encode_uint32 : ℕ → List ℕ → ℕ → Outcome (List ℕ)
encode_uint32 value buffer offset = do
  buffer' ← store buffer offset (word_at value 16)
  store buffer' (1 + offset) (word_at value 0)

unfoldable pub encode_uint64 : ℕ → List ℕ → ℕ → Outcome (List ℕ)
encode_uint64 value buffer offset = do
  b₀ ← store buffer offset (word_at value 48)
  b₁ ← store b₀ (1 + offset) (word_at value 32)
  b₂ ← store b₁ (2 + offset) (word_at value 16)
  store b₂ (3 + offset) (word_at value 0)

unfoldable pub encode_float : ℕ → List ℕ → ℕ → Outcome (List ℕ)
encode_float raw_value buffer offset = encode_uint32 raw_value buffer offset

unfoldable pub encode_double : ℕ → List ℕ → ℕ → Outcome (List ℕ)
encode_double raw_value buffer offset = encode_uint64 raw_value buffer offset

-- The overloads that return a fresh array.
unfoldable pub encode_uint32_array : ℕ → Outcome (List ℕ)
encode_uint32_array value = encode_uint32 value (0 ∷ 0 ∷ []) 0

unfoldable pub encode_uint64_array : ℕ → Outcome (List ℕ)
encode_uint64_array value = encode_uint64 value (0 ∷ 0 ∷ 0 ∷ 0 ∷ []) 0

-- The loop over `index` from `offset` on, `num` rounds. The `unsigned` index would wrap at 2 ^ 32
-- only over a vector that long.
decode_text_loop : List ℕ → ℕ → ℕ → Outcome (List ℕ)
decode_text_loop words zero index = ok []
decode_text_loop words (suc num) index = do
  word ← elem words index
  rest ← decode_text_loop words num (index + 1)
  ok (bit_and (shr word 8) 0xff ∷ bit_and word 0xff % 256 ∷ rest)

unfoldable pub decode_text : List ℕ → ℕ → ℕ → Outcome (List ℕ)
unfolding decode_text_loop
decode_text words num offset = decode_text_loop words num offset

-- `static_cast<uint16_t>(c)` of a signed char, whose byte is `c`.
abbrev pub char_word : ℕ → ℕ
char_word c = if ltb c 128 then c else c + 0xff00

-- `i += 2` over the text: two characters a round, and a last odd one alone.
unfoldable pub encode_text : List ℕ → List ℕ
encode_text [] = []
encode_text (c ∷ []) = char_word c * 2 ^ 8 % 2 ^ 16 ∷ []
encode_text (c ∷ d ∷ text) = bit_or (char_word c * 2 ^ 8) (char_word d) % 2 ^ 16 ∷ encode_text text
