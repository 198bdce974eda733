-- ===== src/Mqtt/Codec.antt =====
-- src/simple_socket/mqtt/mqtt_common.hpp: packet types, short strings and the remaining length.
pub mod Lengths
pub mod Frames
use mathlib.Core.Logic.{dite}
use mathlib.Core.WellFounded.{Acc}
use native.Mathlib.Decide.{dec_lt}
use simple_socket.Prelude.{
  ℕ, zero, suc, ◌+◌, ◌*◌, ◌/◌, ◌%◌, ◌^◌, ◌<◌, bit_and, bit_or, List, [], ◌∷◌, ◌++◌, ◌==◌,
  if◌then◌else◌, length, shr, get_or, arith,
}
use simple_socket.Prelude.Order.{lt_wf}
use simple_socket.Connection.{Reader, read_exact}

-- The enumeration `PacketType`.
abbrev pub connect_type : ℕ
connect_type = 0x10

abbrev pub connack_type : ℕ
connack_type = 0x20

abbrev pub publish_type : ℕ
publish_type = 0x30

abbrev pub subscribe_type : ℕ
subscribe_type = 0x82

abbrev pub suback_type : ℕ
suback_type = 0x90

abbrev pub unsubscribe_type : ℕ
unsubscribe_type = 0xa2

abbrev pub unsuback_type : ℕ
unsuback_type = 0xb0

abbrev pub pingreq_type : ℕ
pingreq_type = 0xc0

abbrev pub pingresp_type : ℕ
pingresp_type = 0xd0

abbrev pub disconnect_type : ℕ
disconnect_type = 0xe0

-- The length goes into two bytes; what does not fit them is lost.
unfoldable pub encode_short_string : List ℕ → List ℕ
encode_short_string s = shr (length s) 8 % 2 ^ 8 ∷ bit_and (length s) 0xff % 2 ^ 8 ∷ s

pub quotient_falls : (len : ℕ) → 0 < len / 128 → len / 128 < len
quotient_falls len h = omega arith

-- `do … while (len > 0)`: the quotient falls, so the loop ends.
encode_loop : (len : ℕ) → Acc ◌<◌ len → List ℕ
encode_loop len (Acc.intro _ smaller) =
    dite (dec_lt 0 (len / 128))
      (λ more.
        bit_or (len % 128) 128 ∷ encode_loop (len / 128) (smaller _ (quotient_falls len more)))
      (λ _. len % 128 ∷ [])

unfoldable pub encode_remaining_length : ℕ → List ℕ
unfolding encode_loop lt_wf dec_lt
encode_remaining_length len = encode_loop len (lt_wf.apply len)

module _ {S : Type 0} (c : Reader S) where
  -- `rounds` counts down from four.
  unfoldable pub decode_loop : ℕ → S → ℕ → ℕ → ℕ × S
  decode_loop zero s rem_len multiplier = (rem_len, s)
  decode_loop (suc rounds) s rem_len multiplier =
      let (done, got, s') = read_exact c s 1 in
      let enc = get_or got 0 0 in
      let rem_len' = rem_len + bit_and enc 0x7f * multiplier in
      let more = decode_loop rounds s' rem_len' (multiplier * 128) in
      if done then (if bit_and enc 0x80 == 0 then (rem_len', s') else more) else (0, s')

  unfoldable pub decode_remaining_length : S → ℕ × S
  unfolding decode_loop
  decode_remaining_length s = decode_loop 4 s 0 1
