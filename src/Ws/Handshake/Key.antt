-- ===== src/Ws/Handshake/Key.antt =====
-- `base64Encode` and `generateSecWebSocketKey` of src/simple_socket/ws/WebSocketClient.cpp. `random` are
-- the 16 bytes of `std::random_device`.
use simple_socket.Prelude.{
  ℕ, ◌<◌, ◌≡◌, ◌≢◌, refl, bit_and, bit_or, Bool, true, false, ◌&&◌, ltb, Bool-cases, inl, inr, List,
  [], ◌∷◌, length, get_or, shl, shr, All, All-get_or, arith,
}
use simple_socket.Prelude.Bits.{bit_and_mask}
use simple_socket.Text.{codes, is_space}

abbrev pub tbl : List ℕ
tbl = codes "ABCDEFGHIJKLMNOPQRSTUVWXYZabcdefghijklmnopqrstuvwxyz0123456789+/"

-- `tbl[(v >> k) & 0x3F]`
unfoldable pub letter : ℕ → ℕ → ℕ
letter v k = get_or tbl (bit_and (shr v k) 0x3f) 0

-- Three bytes as one number of 24 bits.
abbrev pub group : ℕ → ℕ → ℕ → ℕ
group a b c = bit_or (bit_or (shl 32 a 16) (shl 32 b 8)) c

unfoldable pub base64_encode : List ℕ → List ℕ
unfolding letter
base64_encode [] = []
base64_encode (a ∷ []) = let v = shl 32 a 16 in letter v 18 ∷ letter v 12 ∷ b'=' ∷ b'=' ∷ []
base64_encode (a ∷ b ∷ []) =
    let v = bit_or (shl 32 a 16) (shl 32 b 8) in letter v 18 ∷ letter v 12 ∷ letter v 6 ∷ b'=' ∷ []
base64_encode (a ∷ b ∷ c ∷ rest) =
    let v = group a b c in letter v 18 ∷ letter v 12 ∷ letter v 6 ∷ letter v 0 ∷ base64_encode rest

unfoldable pub generate_sec_web_socket_key : List ℕ → List ℕ
unfolding base64_encode
generate_sec_web_socket_key random = base64_encode random

-- A letter of a key, or the padding.
abbrev pub IsKeyByte : ℕ → Type 0
IsKeyByte c = (is_space c ≡ false) × (c ≢ b'\n') × (c ≢ b'\r')

IsKeyByte-visible : (c : ℕ) → 32 < c → IsKeyByte c
unfolding is_space
IsKeyByte-visible c h = (ground (arith, h), (λ e. omega arith), (λ e. omega arith))

all_above : ℕ → List ℕ → Bool
all_above n [] = true
all_above n (c ∷ s) = ltb n c && all_above n s

each_visible : (n : ℕ) (s : List ℕ) → all_above n s ≡ true → All (λ c. n < c) s
unfolding all_above
each_visible n [] e = tt
each_visible n (c ∷ s) e = elim (Bool-cases (all_above n s)) [
  | inl rest ↦ (ground (arith, e, rest), each_visible n s rest)
  | inr stop ↦ absurd (ground (arith, e, stop))
]

tbl_visible : All (λ c. 32 < c) tbl
unfolding all_above
tbl_visible = each_visible 32 tbl refl

letter-IsKeyByte : (v k : ℕ) → IsKeyByte (letter v k)
unfolding letter
letter-IsKeyByte v k =
    let at : bit_and (shr v k) 0x3f < length tbl = omega (arith, bit_and_mask 6 (shr v k)) in
    IsKeyByte-visible _ (All-get_or (λ c. 32 < c) tbl (bit_and (shr v k) 0x3f) 0 tbl_visible at)

pad-IsKeyByte : IsKeyByte b'='
pad-IsKeyByte = IsKeyByte-visible b'=' (omega arith)

-- A key has no white space and no line break in it.
pub base64_encode-IsKeyByte : (s : List ℕ) → All IsKeyByte (base64_encode s)
unfolding base64_encode
base64_encode-IsKeyByte [] = tt
base64_encode-IsKeyByte (a ∷ []) =
    let v = shl 32 a 16 in
    (letter-IsKeyByte v 18, (letter-IsKeyByte v 12, (pad-IsKeyByte, (pad-IsKeyByte, tt))))
base64_encode-IsKeyByte (a ∷ b ∷ []) =
    let v = bit_or (shl 32 a 16) (shl 32 b 8) in
    (letter-IsKeyByte v 18, (letter-IsKeyByte v 12, (letter-IsKeyByte v 6, (pad-IsKeyByte, tt))))
base64_encode-IsKeyByte (a ∷ b ∷ c ∷ rest) =
    let v = group a b c in
    (
      letter-IsKeyByte v 18,
      (
        letter-IsKeyByte v 12,
        (letter-IsKeyByte v 6, (letter-IsKeyByte v 0, base64_encode-IsKeyByte rest)),
      ),
    )
