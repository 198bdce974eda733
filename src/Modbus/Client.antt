-- ===== src/Modbus/Client.antt =====
-- src/simple_socket/modbus/ModbusClient.cpp: requests, and the reading of answers.
pub mod Requests
pub mod Answers
pub mod Exchange
use simple_socket.Prelude.{
  ℕ, zero, suc, ◌+◌, ◌*◌, ◌/◌, ◌%◌, ◌^◌, bit_and, bit_or, Bool, true, false, ◌&&◌, not, List, [],
  ◌∷◌, ◌++◌, Option, none, some, Outcome, ok, throw, ◌>>=◌, ◌>>◌, throw_if, runtime_error, elem,
  length, ltb, ◌==◌, if◌then◌else◌, shr,
}
use simple_socket.Modbus.Server.{be16}
use simple_socket.Modbus.Words.{decode_uint32, decode_uint64, decode_float, decode_double}

abbrev pub high_byte : ℕ → ℕ
high_byte x = bit_and (shr x 8) 0xff % 2 ^ 8

abbrev pub low_byte : ℕ → ℕ
low_byte x = bit_and x 0xff % 2 ^ 8

-- The vector is sized once and filled by index; this is what it holds then.
unfoldable pub make_request : ℕ → ℕ → ℕ → List ℕ → List ℕ
make_request transaction_id unit_id function_code fields =
    let len = length fields + 2 in
    high_byte transaction_id
    ∷ low_byte transaction_id
    ∷ 0x00
    ∷ 0x00
    ∷ shr len 8 % 2 ^ 8
    ∷ low_byte len
    ∷ unit_id
    ∷ function_code
    ∷ fields

-- The loop over the registers of an answer, `n` of them from index `at` on.
unfoldable pub parse_registers : List ℕ → ℕ → ℕ → Outcome (List ℕ)
parse_registers response at zero = ok []
parse_registers response at (suc n) = do
  hi ← elem response at
  lo ← elem response (at + 1)
  rest ← parse_registers response (at + 2) n
  ok (be16 hi lo ∷ rest)

unfoldable pub parse_registers_response : List ℕ → ℕ → Outcome (List ℕ)
parse_registers_response response count = do
  throw_if (ltb (length response) (9 + count * 2)) runtime_error
  byte_count ← elem response 8
  throw_if (not (byte_count == count * 2)) runtime_error
  parse_registers response 9 count

unfoldable pub validate_write_response : List ℕ → ℕ → ℕ → Outcome Bool
validate_write_response response address value = if ltb (length response) 12 then ok false else (do
  a₁ ← elem response 8
  a₀ ← elem response 9
  v₁ ← elem response 10
  v₀ ← elem response 11
  ok (be16 a₁ a₀ == address && be16 v₁ v₀ == value))

-- A connection as the client uses it: whole writes, which may fail, and one read of at most so many
-- bytes, which is `none` where `read` returns a negative number.
pub record Link (S : Type 0) : Type 0 where
  pub send : S → List ℕ → Bool × S
  pub receive : S → ℕ → Option (List ℕ) × S

pub record Client (S : Type 0) : Type 0 where
  pub conn : S
  pub next_transaction_id : ℕ

-- The bytes of each register value.
abbrev pub value_bytes : List ℕ → List ℕ
value_bytes [] = []
value_bytes (v ∷ vs) = high_byte v ∷ low_byte v ∷ value_bytes vs

abbrev pub two_words : ℕ → ℕ → List ℕ
two_words a b = high_byte a ∷ low_byte a ∷ high_byte b ∷ low_byte b ∷ []

abbrev received : Option (List ℕ) → Outcome (List ℕ)
received none = throw runtime_error
received (some bytes) = ok bytes

module _ {S : Type 0} (link : Link S) where
  -- The next request, and the client after its transaction id has been taken (a `uint16_t`).
  abbrev pub next_request : Client S → ℕ → ℕ → List ℕ → List ℕ
  next_request client unit_id code fields =
      make_request client.next_transaction_id unit_id code fields

  abbrev pub spent : Client S → S → Client S
  spent client s = record {
    conn = s;
    next_transaction_id = (client.next_transaction_id + 1) % 2 ^ 16;
  }

  -- The buffer has 255 bytes, whatever the answer's size.
  unfoldable pub receive_response : S → Outcome (List ℕ) × S
  receive_response s = let (answer, s') = link.receive s 255 in (received answer, s')

  unfoldable pub read_holding_registers : Client S → ℕ → ℕ → ℕ → Outcome (List ℕ) × Client S
  unfolding receive_response
  read_holding_registers client address count unit_id =
      let (sent, s) =
        link.send client.conn (next_request client unit_id 0x03 (two_words address count)) in
      if sent
      then (let (response, s') = receive_response s in
          (response >>= λ bytes. parse_registers_response bytes count, spent client s'))
      else (throw runtime_error, spent client s)

  unfoldable pub write_single_register : Client S → ℕ → ℕ → ℕ → Outcome Bool × Client S
  unfolding receive_response
  write_single_register client address value unit_id =
      let (sent, s) =
        link.send client.conn (next_request client unit_id 0x06 (two_words address value)) in
      if sent
      then (let (response, s') = receive_response s in
          (response >>= λ bytes. validate_write_response bytes address value, spent client s'))
      else (ok false, spent client s)

  unfoldable pub write_multiple_registers : Client S → ℕ → List ℕ → ℕ → Outcome Bool × Client S
  unfolding receive_response
  write_multiple_registers client address values unit_id =
      let size = length values in
      let fields = two_words address size ++ (size * 2 % 2 ^ 8 ∷ value_bytes values) in
      let (sent, s) = link.send client.conn (next_request client unit_id 0x10 fields) in
      if sent
      then (let (response, s') = receive_response s in
          (
            response >>= λ bytes. validate_write_response bytes address (size % 2 ^ 16),
            spent client s',
          ))
      else (ok false, spent client s)

  -- The typed reads. `front` on the one register of a successful read.
  unfoldable pub read_uint16 : Client S → ℕ → ℕ → Outcome ℕ × Client S
  read_uint16 client address unit_id =
      let (values, client') = read_holding_registers client address 1 unit_id in
      (values >>= λ vs. elem vs 0, client')

  unfoldable pub read_uint32 : Client S → ℕ → ℕ → Outcome ℕ × Client S
  read_uint32 client address unit_id =
      let (values, client') = read_holding_registers client address 2 unit_id in
      (values >>= λ vs. decode_uint32 vs 0, client')

  unfoldable pub read_uint64 : Client S → ℕ → ℕ → Outcome ℕ × Client S
  read_uint64 client address unit_id =
      let (values, client') = read_holding_registers client address 4 unit_id in
      (values >>= λ vs. decode_uint64 vs 0, client')

  unfoldable pub read_float : Client S → ℕ → ℕ → Outcome ℕ × Client S
  read_float client address unit_id =
      let (values, client') = read_holding_registers client address 2 unit_id in
      (values >>= λ vs. decode_float vs 0, client')

  unfoldable pub read_double : Client S → ℕ → ℕ → Outcome ℕ × Client S
  read_double client address unit_id =
      let (values, client') = read_holding_registers client address 4 unit_id in
      (values >>= λ vs. decode_double vs 0, client')
