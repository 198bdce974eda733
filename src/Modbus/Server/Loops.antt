-- ===== src/Modbus/Server/Loops.antt =====
-- The two loops over registers, as one read or one write of a run.
use simple_socket.Prelude.{
  ℕ, zero, suc, ◌+◌, ◌*◌, ◌≤◌, ◌≡◌, refl, List, [], ◌∷◌, length, get_or, take, drop, drop_step, All,
  All-get_or, IsByte, IsWord, ok, elem-ok, length-set, arith,
}
use simple_socket.Prelude.Bits.{bit_and_byte, bit_or_bytes}
use simple_socket.Modbus.Words.Texts.{bytes_of}
use simple_socket.Modbus.Registers.{HoldingRegister, size}
use simple_socket.Modbus.Registers.Access.{Fits, with_run, get_uint16-get_or, set_uint16-with_run}
use simple_socket.Modbus.Server.{be16, append_registers, store_registers}

pub be16_lem : (hi lo : ℕ) → IsByte hi → IsByte lo → be16 hi lo ≡ hi * 256 + lo
be16_lem hi lo p q = omega (arith, bit_or_bytes hi lo q)

-- The values of consecutive registers.
abbrev pub run_of : HoldingRegister → ℕ → ℕ → List ℕ
run_of reg address quantity = take quantity (drop address reg.registers)

pub append_registers-bytes :
    (reg : HoldingRegister) (address quantity : ℕ)
    → Fits reg
    → All IsWord reg.registers
    → address + quantity ≤ size reg
    → append_registers reg address quantity ≡ ok (bytes_of (run_of reg address quantity))
unfolding append_registers
append_registers-bytes reg address zero f w h = refl
append_registers-bytes reg address (suc quantity) f w h = ground (
  arith,
  get_uint16-get_or reg address f (omega arith),
  drop_step address reg.registers 0 (omega arith),
  All-get_or IsWord reg.registers address 0 w (omega arith),
  bit_and_byte (get_or reg.registers address 0),
  append_registers-bytes reg (suc address) quantity f w (omega arith),
)

-- The big-endian words in the bytes of a frame.
abbrev pub words_from : List ℕ → ℕ → ℕ → List ℕ
words_from request at zero = []
words_from request at (suc n) =
    (get_or request at 0 * 256 + get_or request (suc at) 0) ∷ words_from request (suc (suc at)) n

pub store_registers-with_run :
    (request : List ℕ) (at : ℕ) (reg : HoldingRegister) (address quantity : ℕ)
    → Fits reg
    → All IsByte request
    → at + quantity * 2 ≤ length request
    → address + quantity ≤ size reg
    → store_registers request at reg address quantity
      ≡ ok (with_run reg address (words_from request at quantity))
unfolding store_registers
store_registers-with_run request at reg address zero f b hr h = refl
store_registers-with_run request at reg address (suc quantity) f b hr h =
    let hi = get_or request at 0 in
    let lo = get_or request (suc at) 0 in
    let reg' = with_run reg address ((hi * 256 + lo) ∷ []) in
    let next = store_registers-with_run request (suc (suc at)) reg' (suc address) quantity in
    ground (
      arith,
      elem-ok request at (omega arith),
      elem-ok request (suc at) (omega arith),
      be16_lem hi lo,
      All-get_or IsByte request at 0 b (omega arith),
      All-get_or IsByte request (suc at) 0 b (omega arith),
      set_uint16-with_run reg address (hi * 256 + lo) f (omega arith),
      length-set reg.registers address (hi * 256 + lo),
      next,
    )
