-- ===== src/Modbus/Client/Exchange.antt =====
-- The client against the server: a connection whose other end runs `process_request` on each request
-- as it arrives. Of its answer the one read of the client finds at most `arrives` bytes: a stream may
-- split an answer.
use simple_socket.Modbus.Client.Answers.{
  whole, answer_to_read, parse_short, found_small, validated_part,
}
use simple_socket.Prelude.{
  ℕ, ◌+◌, ◌≤◌, ◌<◌, ◌≡◌, refl, true, not, ltb, min, List, [], ◌∷◌, some, take, drop, IsByte, IsWord,
  Outcome, ok, throw, fault, runtime_error, arith,
}
use simple_socket.Modbus.Registers.{HoldingRegister, size}
use simple_socket.Modbus.Registers.Access.{with_run}
use simple_socket.Modbus.Server.{process_request}
use simple_socket.Modbus.Server.Writes.{process_request_write_single}
use simple_socket.Modbus.Server.Safety.{IsBank}
use simple_socket.Modbus.Client.{Link, Client, read_holding_registers, write_single_register}
use simple_socket.Modbus.Client.Requests.{request_frame, make_request-bytes}

pub record Loop : Type 0 where
  pub reg : HoldingRegister
  pub answer : List ℕ

-- A request that the server does not survive gets no answer.
abbrev after_request : HoldingRegister → Outcome (List ℕ × HoldingRegister) → Loop
after_request reg (ok (response, reg')) = record { reg = reg'; answer = response }
after_request reg (throw e) = record { reg = reg; answer = [] }
after_request reg fault = record { reg = reg; answer = [] }

abbrev pub loopback : ℕ → Link Loop
loopback arrives = record {
  send = λ s request. (true, after_request s.reg (process_request request s.reg));
  receive = λ s n.
      (some (take (min n arrives) s.answer), record s { answer = drop (min n arrives) s.answer });
}

module _ (arrives : ℕ) (client : Client Loop) (bank : IsBank client.conn.reg)
    (id : IsWord client.next_transaction_id) where
  -- Reading 124 registers or more always fails: the answer does not fit the client's buffer.
  pub read_holding_registers_too_many :
      (a count unit : ℕ)
      → IsWord a
      → IsByte unit
      → 123 < count
      → IsWord count
      → a + count ≤ size client.conn.reg
      → (read_holding_registers (loopback arrives) client a count unit).0 ≡ throw runtime_error
  unfolding read_holding_registers
  read_holding_registers_too_many a count unit ha hu many hc fits =
      let reg = client.conn.reg in
      let answer =
        answer_to_read reg client.next_transaction_id unit a count bank id hu ha hc fits in
      rw answer (parse_short _ count (omega (arith, found_small arrives _)))

  -- Writing one register that exists stores exactly that value; it returns true where the client's one
  -- read finds the whole answer, and false where the stream brings less, though the value is stored.
  pub write_single_register-with_run :
      (a value unit : ℕ)
      → IsWord a
      → IsWord value
      → IsByte unit
      → a < size client.conn.reg
      → ((write_single_register (loopback arrives) client a value unit).0
          ≡ ok (not (ltb arrives 12)))
        × ((write_single_register (loopback arrives) client a value unit).1.conn.reg
            ≡ with_run client.conn.reg a (value ∷ []))
  unfolding write_single_register
  write_single_register-with_run a value unit ha hv hu fits =
      let reg = client.conn.reg in
      let tid = client.next_transaction_id in
      let f = request_frame tid unit 0x06 a value [] in
      let answer =
        process_request_write_single f reg bank.fits (omega arith) refl (omega (arith, whole a)) in
      let made = make_request-bytes tid unit 0x06 a value [] id ha hv (omega arith) in
      rw (made, rw (whole a, whole value) at answer)
        (validated_part arrives a value ha hv _ _ _ _ _ _ _ _, refl)
