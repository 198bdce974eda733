-- ===== src/Modbus/Server/Framing.antt =====
-- The loop of `clientThread` in src/simple_socket/modbus/ModbusServer.cpp: cutting the byte stream of
-- one client into requests.
use simple_socket.Prelude.{
  ℕ, zero, suc, List, [], ◌∷◌, ◌++◌, Outcome, ok, throw, fault, ◌>>=◌, elem, length, resize, drop,
  if◌then◌else◌,
}
use simple_socket.Connection.{Reader, read_exact}
use simple_socket.Modbus.Registers.{HoldingRegister}
use simple_socket.Modbus.Server.{be16, process_request}

-- What the thread holds between two requests: its connection, the `request` vector with whatever the
-- last request left there, and the bank.
pub record Session (S : Type 0) : Type 0 where
  pub conn : S
  pub request : List ℕ
  pub reg : HoldingRegister

-- A round ends the loop, or has answered a request.
pub data Turn (S : Type 0) : Type 0 where
  closed : Turn S
  answered : List ℕ → Session S → Turn S

module _ {S : Type 0} (c : Reader S) where
  -- The body of a request of `len` bytes: `resize`, then `readExact` over it, whose result is not
  -- looked at. What did not arrive stays as `resize` left it.
  unfoldable pub read_body : S → List ℕ → ℕ → List ℕ × S
  read_body s request len =
      let (done, got, s') = read_exact c s len in
      (got ++ drop (length got) (resize request len 0), s')

  unfoldable pub client_turn : Session S → Outcome (Turn S)
  client_turn t =
      let (done, mbap, s) = read_exact c t.conn 6 in
      if done
      then (do
        hi ← elem mbap 4
        lo ← elem mbap 5
        let len = be16 hi lo
        let body = read_body s t.request len
        (response, reg') ← process_request (mbap ++ body.0) t.reg
        ok (answered response (record { conn = body.1; request = mbap ++ body.0; reg = reg' })))
      else ok closed

  -- The loop, for as many rounds as pass before `stop_` is seen: the answers, in order, and the bank
  -- afterwards.
  unfoldable pub client_thread : ℕ → Session S → Outcome (List (List ℕ) × HoldingRegister)
  client_thread zero t = ok ([], t.reg)
  client_thread (suc rounds) t = elim (client_turn t) [
    | ok closed ↦ ok ([], t.reg)
    | ok (answered response t') ↦ do
      (responses, reg) ← client_thread rounds t'
      ok (response ∷ responses, reg)
    | throw e ↦ throw e
    | fault ↦ fault
  ]
