-- ===== src/Modbus/Server/Reads.antt =====
-- The answers to requests that change nothing: reads, refusals, and unknown function codes.
use simple_socket.Prelude.{
  ℕ, ◌+◌, ◌*◌, ◌/◌, ◌%◌, ◌^◌, ◌≤◌, ◌<◌, ◌≡◌, ◌≢◌, ◌⊎◌, bit_or, List, [], ◌∷◌, All, IsByte, IsWord,
  ok, arith,
}
use simple_socket.Prelude.Bits.{bit_and_byte, bit_or_top_bit}
use simple_socket.Modbus.Words.Texts.{bytes_of}
use simple_socket.Modbus.Registers.{HoldingRegister, size}
use simple_socket.Modbus.Registers.Access.{Fits}
use simple_socket.Modbus.Server.{process_request}
use simple_socket.Modbus.Server.Frames.{Frame, bytes, address, quantity}
use simple_socket.Modbus.Server.Loops.{be16_lem, run_of, append_registers-bytes}

-- A read of registers that exist answers with their bytes.
pub process_request_read :
    (f : Frame) (reg : HoldingRegister)
    → Fits reg
    → All IsWord reg.registers
    → All IsByte (bytes f)
    → f.code ≡ 0x03
    → address f + quantity f ≤ size reg
    → process_request (bytes f) reg
      ≡ ok (
        f.t₁
            ∷ f.t₀
            ∷ f.p₁
            ∷ f.p₀
            ∷ (3 + quantity f * 2) / 256 % 256
            ∷ (3 + quantity f * 2) % 256
            ∷ f.unit
            ∷ 0x03
            ∷ quantity f * 2 % 256
            ∷ bytes_of (run_of reg (address f) (quantity f)),
        reg,
      )
unfolding process_request
process_request_read f reg fits w b c h = ground (
  arith,
  be16_lem f.a₁ f.a₀,
  be16_lem f.q₁ f.q₀,
  bit_and_byte ((3 + quantity f * 2) % 2 ^ 16),
  append_registers-bytes reg (address f) (quantity f) fits w,
)

-- A read past the end, or a write of one register past the end, is refused in the name of the unit,
-- with the error flag on the function code, and changes nothing.
pub process_request_refused :
    (f : Frame) (reg : HoldingRegister)
    → All IsByte (bytes f)
    → ((f.code ≡ 0x03) × (size reg < address f + quantity f))
      ⊎ ((f.code ≡ 0x06) × (size reg ≤ address f))
    → process_request (bytes f) reg ≡ ok (f.unit ∷ (f.code + 128) ∷ 0x02 ∷ [], reg)
unfolding process_request
process_request_refused f reg b h =
    ground (arith, be16_lem f.a₁ f.a₀, be16_lem f.q₁ f.q₀, bit_or_top_bit f.code)

-- So is a write of several registers, past the end or with a byte count that is not twice the
-- quantity.
pub process_request_refused_multiple :
    (f : Frame) (reg : HoldingRegister) (count : ℕ) (payload : List ℕ)
    → All IsByte (bytes f)
    → f.code ≡ 0x10
    → f.rest ≡ count ∷ payload
    → (size reg < address f + quantity f) ⊎ (count ≢ quantity f * 2)
    → process_request (bytes f) reg ≡ ok (f.unit ∷ 0x90 ∷ 0x02 ∷ [], reg)
unfolding process_request
process_request_refused_multiple f reg count payload b c e h =
    ground (arith, be16_lem f.a₁ f.a₀, be16_lem f.q₁ f.q₀)

-- Any other function is answered in the name of the first byte of the frame, which is half of the
-- transaction id and not the unit, and changes nothing.
pub process_request_unknown :
    (f : Frame) (reg : HoldingRegister)
    → f.code ≢ 0x03
    → f.code ≢ 0x06
    → f.code ≢ 0x10
    → process_request (bytes f) reg ≡ ok (f.t₁ ∷ bit_or f.code 0x80 ∷ 0x01 ∷ [], reg)
unfolding process_request
process_request_unknown f reg r s m = ground arith
