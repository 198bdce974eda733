-- ===== src/Modbus/Server/Shared.antt =====
-- The loop of `processRequest` in src/simple_socket/modbus/ModbusServer.cpp that reads registers, while other
-- threads use the same `HoldingRegister`: those of the other clients, and the program's own. The mutex is held
-- for one call, so that between two calls of the loop there are any calls of the others.
use simple_socket.Modbus.Registers.{HoldingRegister, get_uint16, set_uint16, set_uint32, set_uint64}
use simple_socket.Prelude.{ℕ, suc, ◌%◌, ◌^◌, List, [], ◌∷◌, shr, bit_and, Outcome, ok, ◌>>=◌}

-- A call of another thread. A floating-point value is set as the bits of an integer of its size.
pub data Write : Type 0 where
  sets16 sets32 sets64 : ℕ → ℕ → Write

abbrev pub set_by : HoldingRegister → Write → Outcome HoldingRegister
set_by reg (sets16 i v) = set_uint16 reg i v
set_by reg (sets32 i v) = set_uint32 reg i v
set_by reg (sets64 i v) = set_uint64 reg i v

abbrev pub set_by_all : HoldingRegister → List Write → Outcome HoldingRegister
set_by_all reg [] = ok reg
set_by_all reg (w ∷ ws) = set_by reg w >>= λ reg'. set_by_all reg' ws

-- The loop, with the calls of others before each of its turns.
unfoldable pub read_shared :
    HoldingRegister → ℕ → List (List Write) → Outcome (List ℕ × HoldingRegister)
read_shared reg address [] = ok ([], reg)
read_shared reg address (ws ∷ later) = do
  reg' ← set_by_all reg ws
  value ← get_uint16 reg' address
  r ← read_shared reg' (suc address) later
  ok (shr value 8 % 2 ^ 8 ∷ bit_and value 0xff % 2 ^ 8 ∷ r.0, r.1)
