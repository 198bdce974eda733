-- ===== src/Modbus/Registers.antt =====
-- src/simple_socket/modbus/HoldingRegister.cpp: the register bank. Each method holds the mutex for
-- its whole body, so a method is one step on the vector.
pub mod Access
pub mod Limits
use simple_socket.Prelude.{
  ℕ, ◌+◌, ◌%◌, ◌^◌, List, ltb, length, replicate, Outcome, ok, ◌>>=◌, ◌>>◌, elem, store, throw_if,
  out_of_range,
}
use simple_socket.Modbus.Words.{
  decode_uint32, decode_uint64, decode_float, decode_double, encode_uint32, encode_uint64,
  encode_float, encode_double,
}

pub record HoldingRegister : Type 0 where
  pub registers : List ℕ

unfoldable pub holding_register : ℕ → HoldingRegister
holding_register num_registers = record { registers = replicate num_registers 0 }

abbrev pub size : HoldingRegister → ℕ
size r = length r.registers

-- The sum is of two `size_t`, so it wraps.
unfoldable pub check_bounds : HoldingRegister → ℕ → ℕ → Outcome (Unit {0})
check_bounds r index count = throw_if (ltb (size r) ((index + count) % 2 ^ 64)) out_of_range

abbrev replaced : Outcome (List ℕ) → Outcome HoldingRegister
replaced m = do xs ← m; ok (record { registers = xs })

unfoldable pub set_uint16 : HoldingRegister → ℕ → ℕ → Outcome HoldingRegister
unfolding check_bounds
set_uint16 r index value = do check_bounds r index 1; replaced (store r.registers index value)

unfoldable pub get_uint16 : HoldingRegister → ℕ → Outcome ℕ
unfolding check_bounds
get_uint16 r index = do check_bounds r index 1; elem r.registers index

unfoldable pub set_uint32 : HoldingRegister → ℕ → ℕ → Outcome HoldingRegister
unfolding check_bounds
set_uint32 r index value = do
  check_bounds r index 2
  replaced (encode_uint32 value r.registers index)

unfoldable pub get_uint32 : HoldingRegister → ℕ → Outcome ℕ
unfolding check_bounds
get_uint32 r index = do check_bounds r index 2; decode_uint32 r.registers index

unfoldable pub set_uint64 : HoldingRegister → ℕ → ℕ → Outcome HoldingRegister
unfolding check_bounds
set_uint64 r index value = do
  check_bounds r index 4
  replaced (encode_uint64 value r.registers index)

unfoldable pub get_uint64 : HoldingRegister → ℕ → Outcome ℕ
unfolding check_bounds
get_uint64 r index = do check_bounds r index 4; decode_uint64 r.registers index

unfoldable pub set_float : HoldingRegister → ℕ → ℕ → Outcome HoldingRegister
unfolding check_bounds encode_float
set_float r index raw_value = do
  check_bounds r index 2
  replaced (encode_float raw_value r.registers index)

unfoldable pub get_float : HoldingRegister → ℕ → Outcome ℕ
unfolding check_bounds decode_float
get_float r index = do check_bounds r index 2; decode_float r.registers index

unfoldable pub set_double : HoldingRegister → ℕ → ℕ → Outcome HoldingRegister
unfolding check_bounds encode_double
set_double r index raw_value = do
  check_bounds r index 4
  replaced (encode_double raw_value r.registers index)

unfoldable pub get_double : HoldingRegister → ℕ → Outcome ℕ
unfolding check_bounds decode_double
get_double r index = do check_bounds r index 4; decode_double r.registers index
