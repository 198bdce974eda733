-- ===== src/Modbus/Registers/Limits.antt =====
-- What the bounds check refuses, and what it lets through.
use simple_socket.Prelude.{
  ℕ, ◌+◌, ◌-◌, ◌^◌, ◌≤◌, ◌<◌, ◌≡◌, [], ◌∷◌, if◌then◌else◌, leb, Outcome, ok, elem, elem-fault,
  fault, throw, out_of_range, arith,
}
use simple_socket.Modbus.Words.{decode_uint32, decode_uint64, encode_uint32, encode_uint64}
use simple_socket.Modbus.Registers.{
  HoldingRegister, size, set_uint16, get_uint16, set_uint32, get_uint32, set_uint64, get_uint64,
  set_float, get_float, set_double, get_double,
}
use simple_socket.Modbus.Registers.Access.{Fits, with_run}
use simple_socket.Modbus.Words.Integers.{
  words32, words64, encode_uint32-set_run, encode_uint64-set_run,
}

-- `r'` if the access ends at or below the size of `r`, and an exception otherwise.
abbrev pub within : HoldingRegister → ℕ → HoldingRegister → Outcome HoldingRegister
within r end r' = if leb end (size r) then ok r' else throw out_of_range

-- Every accessor, at an index whose sum with the width does not wrap: a write stores the words of
-- its value where they fit, and throws `out_of_range` where they do not.
pub set_by_bounds :
    (r : HoldingRegister) (index value : ℕ)
    → Fits r
    → index + 4 < 2 ^ 64
    → (set_uint16 r index value ≡ within r (index + 1) (with_run r index (value ∷ [])))
      × (set_uint32 r index value ≡ within r (index + 2) (with_run r index (words32 value)))
      × (set_uint64 r index value ≡ within r (index + 4) (with_run r index (words64 value)))
      × (set_float r index value ≡ within r (index + 2) (with_run r index (words32 value)))
      × (set_double r index value ≡ within r (index + 4) (with_run r index (words64 value)))
unfolding set_uint16 set_uint32 set_uint64 set_float set_double
set_by_bounds r index value f h = (
  ground arith,
  ground (arith, encode_uint32-set_run value r.registers index),
  ground (arith, encode_uint64-set_run value r.registers index),
  ground (arith, encode_uint32-set_run value r.registers index),
  ground (arith, encode_uint64-set_run value r.registers index),
)

-- A read past the end throws `out_of_range`, at every width, where its sum does not wrap.
pub get_past_end :
    (r : HoldingRegister) (index : ℕ)
    → size r ≤ index
    → index + 4 < 2 ^ 64
    → (get_uint16 r index ≡ throw out_of_range)
      × (get_uint32 r index ≡ throw out_of_range)
      × (get_uint64 r index ≡ throw out_of_range)
      × (get_float r index ≡ throw out_of_range)
      × (get_double r index ≡ throw out_of_range)
unfolding get_uint16 get_uint32 get_uint64 get_float get_double
get_past_end r index p h = (ground arith, ground arith, ground arith, ground arith, ground arith)

-- At the largest index the sum in the check wraps to 0 or little more, the check passes, and the
-- access reaches outside the vector: no exception, but undefined behaviour, at every width.
pub access_wraps :
    (r : HoldingRegister) (index value : ℕ)
    → 4 ≤ size r
    → size r < 2 ^ 63
    → index ≡ 2 ^ 64 - 1
    → (set_uint16 r index value ≡ fault)
      × (get_uint16 r index ≡ fault)
      × (set_uint32 r index value ≡ fault)
      × (get_uint32 r index ≡ fault)
      × (set_uint64 r index value ≡ fault)
      × (get_uint64 r index ≡ fault)
unfolding set_uint16 get_uint16 set_uint32 get_uint32 set_uint64 get_uint64 decode_uint32
    decode_uint64 encode_uint32 encode_uint64
access_wraps r index value room small h =
    let read : elem r.registers index ≡ fault = elem-fault r.registers index (omega arith) in
    (
      ground (arith, read),
      ground (arith, read),
      ground (arith, read),
      ground (arith, read),
      ground (arith, read),
      ground (arith, read),
    )
