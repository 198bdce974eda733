-- ===== src/Tests/ModbusServer.antt =====
-- src/simple_socket/modbus/ModbusServer.cpp.
use simple_socket.Prelude.{ℕ, ◌+◌, ◌≡◌, refl, List, [], ◌∷◌, ok, length, take, drop, arith}
use simple_socket.Modbus.Registers.{HoldingRegister}
use simple_socket.Modbus.Server.{process_request}
use simple_socket.Modbus.Server.Frames.{Frame, bytes}
use simple_socket.Modbus.Server.Framing.{Session, client_thread}
use simple_socket.Modbus.Server.Seen.{value_in, seen, at_end, Holds, read_shared-seen}
use simple_socket.Modbus.Server.Shared.{Write, sets32, read_shared}
use simple_socket.Modbus.Words.Texts.{bytes_of}
use simple_socket.Modbus.Server.Safety.{IsBank, Answers, process_request_total}
use simple_socket.Modbus.Server.Streams.{answer_all, all_bytes, client_thread-answer_all}
use simple_socket.Connection.Segments.{segments, segments-IsStream}

abbrev bank : HoldingRegister
bank = record { registers = 11 ∷ 12 ∷ 13 ∷ [] }

bank-IsBank : IsBank bank
bank-IsBank = omega arith

-- A frame of unit 1 with transaction id 0x0102.
abbrev frame : ℕ → ℕ → ℕ → List ℕ → Frame
frame code a q rest = record {
  t₁ = 1;
  t₀ = 2;
  p₁ = 0;
  p₀ = 0;
  l₁ = 0;
  l₀ = 6 + length rest;
  unit = 1;
  code = code;
  a₁ = 0;
  a₀ = a;
  q₁ = 0;
  q₀ = q;
  rest = rest;
}

abbrev write_two : Frame
write_two = frame 0x10 1 2 (4 ∷ 0 ∷ 7 ∷ 1 ∷ 0 ∷ [])

process_request_total_example : Answers bank (process_request (bytes write_two) bank)
process_request_total_example =
    process_request_total write_two bank bank-IsBank (omega arith) (λ c. omega arith)

-- Two requests in three segments.
abbrev two_requests : List Frame
two_requests = frame 6 0 5 [] ∷ frame 3 0 1 [] ∷ []

abbrev session : List (List ℕ) → Session (List (List ℕ))
session ss = record { conn = ss; request = []; reg = bank }

abbrev cut_requests : List (List ℕ)
cut_requests =
    take 5 (all_bytes two_requests)
    ∷ take 9 (drop 5 (all_bytes two_requests))
    ∷ drop 14 (all_bytes two_requests)
    ∷ []

client_thread-answer_all_example :
    (responses : List (List ℕ)) × (reg : HoldingRegister) × (client_thread segments 3
        (session cut_requests)
      ≡ ok (responses, reg))
    × (answer_all two_requests bank ≡ ok (responses, reg))
    × (length responses ≡ 2)
client_thread-answer_all_example =
    client_thread-answer_all segments-IsStream two_requests 3 (session cut_requests) tt bank-IsBank
      (
        record { of_bytes = omega arith; measured = refl; complete = λ c. absurd (omega arith) },
        (
          record { of_bytes = omega arith; measured = refl; complete = λ c. absurd (omega arith) },
          tt,
        ),
      )
      refl (omega arith)

-- Another thread sets registers 1 and 2 at once, after register 1 has been read.
abbrev meanwhile : List (List Write)
meanwhile = [] ∷ (sets32 1 0x00010002 ∷ []) ∷ []

read_shared-seen_example :
    (reg' : HoldingRegister) × (read_shared bank 1 meanwhile
      ≡ ok (bytes_of (seen (value_in bank) 1 meanwhile), reg'))
    × Holds 3 (at_end (value_in bank) meanwhile) reg'
read_shared-seen_example =
    read_shared-seen bank 1 meanwhile (omega arith) (omega arith, (omega arith, (omega arith, tt)))
      (tt, ((omega arith, tt), tt)) (omega arith)

half_and_half : seen (value_in bank) 1 meanwhile ≡ 12 ∷ 2 ∷ []
half_and_half = refl
