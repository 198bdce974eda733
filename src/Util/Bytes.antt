-- ===== src/Util/Bytes.antt =====
-- include/simple_socket/util/byte_conversion.hpp: 32-bit numbers as bytes in either order.
use simple_socket.Prelude.Bits.{bit_and_byte, bit_or_comm, bit_or_disjoint}
use simple_socket.Prelude.{
  ℕ, ◌*◌, ◌/◌, ◌%◌, ◌^◌, ◌<◌, ◌≡◌, bit_and, bit_or, List, [], ◌∷◌, set, get_or, shl, shr, arith,
}

pub data Endian : Type 0 where
  little big : Endian

-- `order == std::endian::little ? l : b`
abbrev pub at : Endian → ℕ → ℕ → ℕ
at Endian.little l b = l
at Endian.big l b = b

unfoldable pub encode_uint32 : ℕ → Endian → List ℕ
encode_uint32 n order =
    let bytes₀ = set (0 ∷ 0 ∷ 0 ∷ 0 ∷ []) (at order 0 3) (bit_and n 0xff) in
    let bytes₁ = set bytes₀ (at order 1 2) (bit_and (shr n 8) 0xff) in
    let bytes₂ = set bytes₁ (at order 2 1) (bit_and (shr n 16) 0xff) in
    set bytes₂ (at order 3 0) (bit_and (shr n 24) 0xff)

-- The shifts of an `int` that are cast to `uint32_t`.
unfoldable pub decode_uint32 : List ℕ → Endian → ℕ
decode_uint32 buffer order =
    bit_or
      (bit_or (bit_or (get_or buffer (at order 0 3) 0) (shl 32 (get_or buffer (at order 1 2) 0) 8))
        (shl 32 (get_or buffer (at order 2 1) 0) 16))
      (shl 32 (get_or buffer (at order 3 0) 0) 24)

joined_bytes :
    (n : ℕ)
    → n < 2 ^ 32
    → bit_or
        (bit_or (bit_or (n % 256) (n / 256 % 256 * 256)) (n / 65536 % 256 * 65536))
        (n / 16777216 % 256 * 16777216)
      ≡ n
joined_bytes n h = ground (
  arith,
  bit_or_comm (n % 256) (n / 256 % 256 * 256),
  bit_or_disjoint 8 (n / 256 % 256) (n % 256) (omega arith),
  bit_or_comm (n % 65536) (n / 65536 % 256 * 65536),
  bit_or_disjoint 16 (n / 65536 % 256) (n % 65536) (omega arith),
  bit_or_comm (n % 16777216) (n / 16777216 % 256 * 16777216),
  bit_or_disjoint 24 (n / 16777216 % 256) (n % 16777216) (omega arith),
)

from_bytes :
    (n : ℕ)
    → n < 2 ^ 32
    → bit_or
        (bit_or
          (bit_or (bit_and n 0xff) (shl 32 (bit_and (shr n 8) 0xff) 8))
          (shl 32 (bit_and (shr n 16) 0xff) 16))
        (shl 32 (bit_and (shr n 24) 0xff) 24)
      ≡ n
from_bytes n h =
    let e₈ : n / 256 % 256 * 256 % 4294967296 ≡ n / 256 % 256 * 256 = omega arith in
    let e₁₆ : n / 65536 % 256 * 65536 % 4294967296 ≡ n / 65536 % 256 * 65536 = omega arith in
    let e₂₄ : n / 16777216 % 256 * 16777216 % 4294967296 ≡ n / 16777216 % 256 * 16777216 =
      omega arith in
    rw
      (
        bit_and_byte n,
        bit_and_byte (shr n 8),
        bit_and_byte (shr n 16),
        bit_and_byte (shr n 24),
        e₈,
        e₁₆,
        e₂₄,
      )
      (joined_bytes n h)

-- In either order, a number of 32 bits is read back from its four bytes.
pub decode_uint32-encode_uint32 :
    (n : ℕ) (order : Endian) → n < 2 ^ 32 → decode_uint32 (encode_uint32 n order) order ≡ n
unfolding decode_uint32 encode_uint32
decode_uint32-encode_uint32 n Endian.little h = from_bytes n h
decode_uint32-encode_uint32 n Endian.big h = from_bytes n h
