-- ===== src/Modbus/Server.antt =====
-- src/simple_socket/modbus/ModbusServer.cpp: what the server answers to one request. Every branch
-- that returns has written exactly one answer, so the result is that answer and the new bank; what
-- `write` reports is ignored, as in the code.
pub mod Framing
pub mod Lifecycle
pub mod Frames
pub mod Loops
pub mod Reads
pub mod Writes
pub mod Safety
pub mod Streams
pub mod Shared
pub mod Seen
use simple_socket.Prelude.{
  ℕ, zero, suc, ◌+◌, ◌*◌, ◌%◌, ◌^◌, bit_and, bit_or, ◌||◌, not, List, [], ◌∷◌, ◌++◌, ltb, leb, ◌==◌,
  if◌then◌else◌, shr, take, length, Outcome, ok, fault, ◌>>=◌, ◌>>◌, elem,
}
use simple_socket.Modbus.Registers.{HoldingRegister, size, get_uint16, set_uint16}

-- `(hi << 8) | lo`, stored in a `uint16_t`.
abbrev pub be16 : ℕ → ℕ → ℕ
be16 hi lo = bit_or (hi * 2 ^ 8) lo % 2 ^ 16

-- `v.begin(), v.begin() + n`: no check, and no meaning past the end.
abbrev pub prefix : ℕ → List ℕ → Outcome (List ℕ)
prefix n xs = if leb n (length xs) then ok (take n xs) else fault

unfoldable pub exception_response : ℕ → ℕ → ℕ → List ℕ
exception_response device_address function_code exception_code =
    device_address ∷ bit_or function_code 0x80 ∷ exception_code ∷ []

-- The loop that appends `quantity` registers to the answer.
unfoldable pub append_registers : HoldingRegister → ℕ → ℕ → Outcome (List ℕ)
append_registers reg address zero = ok []
append_registers reg address (suc quantity) = do
  value ← get_uint16 reg address
  rest ← append_registers reg (suc address) quantity
  ok (shr value 8 % 2 ^ 8 ∷ bit_and value 0xff % 2 ^ 8 ∷ rest)

-- The loop that takes `quantity` registers from the request, from index `at` on.
unfoldable pub store_registers : List ℕ → ℕ → HoldingRegister → ℕ → ℕ → Outcome HoldingRegister
store_registers request at reg address zero = ok reg
store_registers request at reg address (suc quantity) = do
  hi ← elem request at
  lo ← elem request (at + 1)
  reg' ← set_uint16 reg address (be16 hi lo)
  store_registers request (at + 2) reg' (suc address) quantity

unfoldable pub read_holding :
    List ℕ → HoldingRegister → ℕ → ℕ → ℕ → Outcome (List ℕ × HoldingRegister)
unfolding append_registers exception_response
read_holding request reg code start quantity = do
  unit ← elem request 6
  if ltb (size reg) (start + quantity) then ok (exception_response unit code 0x02, reg) else (do
    header ← prefix 4 request
    let len = (3 + quantity * 2) % 2 ^ 16
    values ← append_registers reg start quantity
    ok (
      header
          ++ (shr len 8 % 2 ^ 8
              ∷ bit_and len 0xff % 2 ^ 8
              ∷ unit
              ∷ code
              ∷ quantity * 2 % 2 ^ 8
              ∷ values),
      reg,
    ))

unfoldable pub write_single : List ℕ → HoldingRegister → ℕ → ℕ → Outcome (List ℕ × HoldingRegister)
unfolding exception_response
write_single request reg code start = do
  unit ← elem request 6
  if leb (size reg) start then ok (exception_response unit code 0x02, reg) else (do
    hi ← elem request 10
    lo ← elem request 11
    reg' ← set_uint16 reg start (be16 hi lo)
    ok (request, reg'))

unfoldable pub write_multiple :
    List ℕ → HoldingRegister → ℕ → ℕ → ℕ → Outcome (List ℕ × HoldingRegister)
unfolding store_registers exception_response
write_multiple request reg code start quantity = do
  byte_count ← elem request 12
  unit ← elem request 6
  if ltb (size reg) (start + quantity) || not (byte_count == quantity * 2)
      then ok (exception_response unit code 0x02, reg)
      else (do
        reg' ← store_registers request 13 reg start quantity
        header ← prefix 6 request
        repeated ← elem request 7
        ok (
          header
              ++ (repeated
                  ∷ code
                  ∷ shr start 8 % 2 ^ 8
                  ∷ bit_and start 0xff % 2 ^ 8
                  ∷ shr quantity 8 % 2 ^ 8
                  ∷ bit_and quantity 0xff % 2 ^ 8
                  ∷ []),
          reg',
        ))

unfoldable pub process_request : List ℕ → HoldingRegister → Outcome (List ℕ × HoldingRegister)
unfolding read_holding write_single write_multiple exception_response
process_request request reg = do
  code ← elem request 7
  a₁ ← elem request 8
  a₀ ← elem request 9
  q₁ ← elem request 10
  q₀ ← elem request 11
  let start = be16 a₁ a₀
  let quantity = be16 q₁ q₀
  if code == 0x03
      then read_holding request reg code start quantity
      else if code == 0x06
      then write_single request reg code start
      else if code == 0x10
      then write_multiple request reg code start quantity
      else (do first ← elem request 0; ok (exception_response first code 0x01, reg))
