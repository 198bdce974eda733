-- ===== src/Util/Uuid.antt =====
-- `generateUUID` of src/simple_socket/util/uuid.hpp. The four numbers are what the random generator gives,
-- each of 32 bits.
use simple_socket.Prelude.Bits.{bit_and_mask, bit_or_disjoint, bit_or_comm}
use simple_socket.Prelude.{
  ℕ, ◌+◌, ◌-◌, ◌/◌, ◌%◌, ◌≡◌, ◌⊎◌, refl, ap, bit_and, bit_or, some, List, [], ◌∷◌, ◌++◌,
  if◌then◌else◌, ltb, length, get_elem?, shr, inl, inr, arith,
}
use simple_socket.Text.{lower, to_lower}

-- The table has the two hexadecimal digits of each byte.
unfoldable pub hex_digit : ℕ → ℕ
hex_digit n = if ltb n 10 then b'0' + n else b'a' + (n - 10)

unfoldable pub lut : ℕ → List ℕ
lut byte = hex_digit (byte / 16) ∷ hex_digit (byte % 16) ∷ []

unfoldable pub uuid_text : ℕ → ℕ → ℕ → ℕ → List ℕ
unfolding lut
uuid_text d₀ d₁ d₂ d₃ =
    lut (bit_and d₀ 0xff)
    ++ (lut (bit_and (shr d₀ 8) 0xff)
        ++ (lut (bit_and (shr d₀ 16) 0xff)
            ++ (lut (bit_and (shr d₀ 24) 0xff)
                ++ b'-'
                  ∷ (lut (bit_and d₁ 0xff)
                      ++ (lut (bit_and (shr d₁ 8) 0xff)
                          ++ b'-'
                            ∷ (lut (bit_or (bit_and (shr d₁ 16) 0x0f) 0x40)
                                ++ (lut (bit_and (shr d₁ 24) 0xff)
                                    ++ b'-'
                                      ∷ (lut (bit_or (bit_and d₂ 0x3f) 0x80)
                                          ++ (lut (bit_and (shr d₂ 8) 0xff)
                                              ++ b'-'
                                                ∷ (lut (bit_and (shr d₂ 16) 0xff)
                                                    ++ (lut (bit_and (shr d₂ 24) 0xff)
                                                        ++ (lut (bit_and d₃ 0xff)
                                                            ++ (lut (bit_and (shr d₃ 8) 0xff)
                                                            ++ (lut (bit_and (shr d₃ 16) 0xff)
                                                            ++ lut
                                                            (bit_and (shr d₃ 24) 0xff)))))))))))))))

unfoldable pub generate_uuid : ℕ → ℕ → ℕ → ℕ → List ℕ
unfolding uuid_text
generate_uuid d₀ d₁ d₂ d₃ = to_lower (uuid_text d₀ d₁ d₂ d₃)

version_digit : (n : ℕ) → bit_or (bit_and n 0x0f) 0x40 / 16 ≡ 4
version_digit n =
    ground (
      arith,
      bit_and_mask 4 n,
      bit_or_comm (n % 16) 0x40,
      bit_or_disjoint 4 4 (n % 16) (omega arith),
    )

-- A UUID of version 4: 36 characters, the dashes in their places, the digit of the version, and the digit
-- of the variant, which is one of 8, 9, a and b.
abbrev pub IsVersion4 : List ℕ → Type 0
IsVersion4 u =
    (length u ≡ 36)
    × (get_elem? u 8 ≡ some b'-')
    × (get_elem? u 13 ≡ some b'-')
    × (get_elem? u 14 ≡ some b'4')
    × (get_elem? u 18 ≡ some b'-')
    × ((v : ℕ) × (get_elem? u 19 ≡ some v)
        × ((v ≡ b'8') ⊎ ((v ≡ b'9') ⊎ ((v ≡ b'a') ⊎ (v ≡ b'b')))))
    × (get_elem? u 23 ≡ some b'-')

variant_range :
    (n : ℕ)
    → (let x = bit_or (bit_and n 0x3f) 0x80 / 16 in (x ≡ 8) ⊎ ((x ≡ 9) ⊎ ((x ≡ 10) ⊎ (x ≡ 11))))
variant_range n =
    let masked : bit_or (bit_and n 0x3f) 0x80 ≡ 128 + n % 64 = ground (
      arith,
      bit_and_mask 6 n,
      bit_or_comm (n % 64) 0x80,
      bit_or_disjoint 6 2 (n % 64) (omega arith),
    ) in
    omega (arith, masked)

variant_digit :
    (n : ℕ)
    → (let v = lower (hex_digit (bit_or (bit_and n 0x3f) 0x80 / 16)) in
        (v ≡ b'8') ⊎ ((v ≡ b'9') ⊎ ((v ≡ b'a') ⊎ (v ≡ b'b'))))
unfolding lower hex_digit
variant_digit n =
    let shown : ℕ → ℕ = λ x. lower (hex_digit x) in
    elim (variant_range n) [
      | inl e ↦ inl (ap shown e)
      | inr (inl e) ↦ inr (inl (ap shown e))
      | inr (inr (inl e)) ↦ inr (inr (inl (ap shown e)))
      | inr (inr (inr e)) ↦ inr (inr (inr (ap shown e)))
    ]

-- Whatever the random generator gives, the text is a UUID of version 4: 36 characters with the dashes in
-- their places, the digit 4, and 8, 9, a or b as the digit of the variant.
pub generate_uuid-IsVersion4 : (d₀ d₁ d₂ d₃ : ℕ) → IsVersion4 (generate_uuid d₀ d₁ d₂ d₃)
unfolding generate_uuid lower hex_digit
generate_uuid-IsVersion4 d₀ d₁ d₂ d₃ = (
  refl,
  refl,
  refl,
  ap (λ n. some (lower (hex_digit n))) (version_digit (shr d₁ 16)),
  refl,
  (lower (hex_digit (bit_or (bit_and d₂ 0x3f) 0x80 / 16)), refl, variant_digit d₂),
  refl,
)
