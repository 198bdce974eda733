-- ===== src/Modbus/Client/Answers.antt =====
-- The answers of the server to the requests of the client, and what the client makes of their first bytes.
use simple_socket.Prelude.{
  ℕ, ◌+◌, ◌*◌, ◌/◌, ◌%◌, ◌≤◌, ◌<◌, ◌≡◌, refl, true, false, if◌then◌else◌, not, ltb, ltb→lt, min,
  Bool-cases, inl, inr, List, [], ◌∷◌, length, length-take, length-drop, take_past, All-append,
  take, drop, All, IsByte, IsWord, ok, throw, runtime_error, arith,
}
use simple_socket.Modbus.Words.Texts.{bytes_of}
use simple_socket.Modbus.Registers.{HoldingRegister, size}
use simple_socket.Modbus.Server.{process_request}
use simple_socket.Modbus.Server.Frames.{bytes}
use simple_socket.Modbus.Server.Loops.{run_of, be16_lem}
use simple_socket.Modbus.Server.Reads.{process_request_read}
use simple_socket.Modbus.Server.Safety.{IsBank}
use simple_socket.Modbus.Client.{
  make_request, two_words, validate_write_response, parse_registers_response,
}
use simple_socket.Modbus.Client.Requests.{request_frame, make_request-bytes}

pub length-run_of :
    (reg : HoldingRegister) (a count : ℕ)
    → a + count ≤ size reg
    → length (run_of reg a count) ≡ count
length-run_of reg a count h =
    omega (arith, length-take count (drop a reg.registers), length-drop a reg.registers)

pub whole : (x : ℕ) → x / 256 * 256 + x % 256 ≡ x
whole x = omega arith

-- The server's answers to the client's requests.
pub answer_to_read :
    (reg : HoldingRegister) (tid unit a count : ℕ)
    → IsBank reg
    → IsWord tid
    → IsByte unit
    → IsWord a
    → IsWord count
    → a + count ≤ size reg
    → process_request (make_request tid unit 0x03 (two_words a count)) reg
      ≡ ok (
        tid / 256
            ∷ tid % 256
            ∷ 0
            ∷ 0
            ∷ (3 + count * 2) / 256 % 256
            ∷ (3 + count * 2) % 256
            ∷ unit
            ∷ 0x03
            ∷ count * 2 % 256
            ∷ bytes_of (run_of reg a count),
        reg,
      )
answer_to_read reg tid unit a count bank ht hu ha hc h =
    let f = request_frame tid unit 0x03 a count [] in
    let answer =
      process_request_read f reg bank.fits bank.words (omega arith) refl
        (omega (arith, whole a, whole count)) in
    rw (make_request-bytes tid unit 0x03 a count [] ht ha hc (omega arith))
      (rw (whole a, whole count) at answer)

pub parse_short :
    (response : List ℕ) (count : ℕ)
    → length response < 9 + count * 2
    → parse_registers_response response count ≡ throw runtime_error
unfolding parse_registers_response
parse_short response count h = ground arith

validate_short :
    (response : List ℕ) (address value : ℕ)
    → length response < 12
    → validate_write_response response address value ≡ ok false
unfolding validate_write_response
validate_short response address value h = ground (arith, h)

-- The part of an answer that the read finds.
found_whole :
    (arrives : ℕ) (answer : List ℕ)
    → length answer ≤ 255
    → length answer ≤ arrives
    → take (min 255 arrives) answer ≡ answer
found_whole arrives answer room all = take_past (min 255 arrives) answer (omega arith)

found_part :
    (arrives n : ℕ) (answer : List ℕ) → arrives < n → length (take (min 255 arrives) answer) < n
found_part arrives n answer h = omega (arith, length-take (min 255 arrives) answer)

pub found_small : (arrives : ℕ) (answer : List ℕ) → length (take (min 255 arrives) answer) ≤ 255
found_small arrives answer = omega (arith, length-take (min 255 arrives) answer)

pub parsed_part :
    (arrives count : ℕ) (answer values : List ℕ)
    → count ≤ 123
    → length answer ≡ 9 + count * 2
    → parse_registers_response answer count ≡ ok values
    → parse_registers_response (take (min 255 arrives) answer) count
      ≡ (if ltb arrives (9 + count * 2) then throw runtime_error else ok values)
parsed_part arrives count answer values few size parsed =
    elim (Bool-cases (ltb arrives (9 + count * 2))) [
      | inl less ↦
          let fewer = found_part arrives (9 + count * 2) answer (ltb→lt arrives _ less) in
          rw less (parse_short (take (min 255 arrives) answer) count fewer)
      | inr all ↦
          let enough : length answer ≤ arrives = ground (arith, all, size) in
          rw (all, found_whole arrives answer (omega arith) enough) parsed
    ]

pub request_frame-IsByte :
    (tid unit code a q : ℕ) (rest : List ℕ)
    → IsWord tid
    → IsByte unit
    → IsByte code
    → IsWord a
    → IsWord q
    → All IsByte rest
    → length rest < 65000
    → All IsByte (bytes (request_frame tid unit code a q rest))
request_frame-IsByte tid unit code a q rest ht hu hc ha hq hr l =
    let front : List ℕ =
      tid / 256
      ∷ tid % 256
      ∷ 0
      ∷ 0
      ∷ (6 + length rest) / 256
      ∷ (6 + length rest) % 256
      ∷ unit
      ∷ code
      ∷ a / 256
      ∷ a % 256
      ∷ q / 256
      ∷ q % 256
      ∷ [] in
    All-append IsByte front rest (omega arith) hr

-- An answer that repeats the address and the value is accepted.
validated :
    (a v : ℕ)
    → IsWord a
    → IsWord v
    → (h₀ h₁ h₂ h₃ h₄ h₅ h₆ h₇ : ℕ)
    → validate_write_response
        (h₀ ∷ h₁ ∷ h₂ ∷ h₃ ∷ h₄ ∷ h₅ ∷ h₆ ∷ h₇ ∷ a / 256 ∷ a % 256 ∷ v / 256 ∷ v % 256 ∷ [])
        a
        v
      ≡ ok true
unfolding validate_write_response
validated a v ha hv h₀ h₁ h₂ h₃ h₄ h₅ h₆ h₇ =
    ground (arith, be16_lem (a / 256) (a % 256), be16_lem (v / 256) (v % 256))

pub validated_part :
    (arrives a v : ℕ)
    → IsWord a
    → IsWord v
    → (h₀ h₁ h₂ h₃ h₄ h₅ h₆ h₇ : ℕ)
    → validate_write_response
        (take
          (min 255 arrives)
          (h₀ ∷ h₁ ∷ h₂ ∷ h₃ ∷ h₄ ∷ h₅ ∷ h₆ ∷ h₇ ∷ a / 256 ∷ a % 256 ∷ v / 256 ∷ v % 256 ∷ []))
        a
        v
      ≡ ok (not (ltb arrives 12))
validated_part arrives a v ha hv h₀ h₁ h₂ h₃ h₄ h₅ h₆ h₇ =
    let answer : List ℕ =
      h₀ ∷ h₁ ∷ h₂ ∷ h₃ ∷ h₄ ∷ h₅ ∷ h₆ ∷ h₇ ∷ a / 256 ∷ a % 256 ∷ v / 256 ∷ v % 256 ∷ [] in
    elim (Bool-cases (ltb arrives 12)) [
      | inl less ↦
          let fewer = found_part arrives 12 answer (ltb→lt arrives 12 less) in
          rw less (validate_short (take (min 255 arrives) answer) a v fewer)
      | inr all ↦
          let enough : 12 ≤ arrives = ground (arith, all) in
          rw (all, found_whole arrives answer (omega arith) enough)
            (validated a v ha hv h₀ h₁ h₂ h₃ h₄ h₅ h₆ h₇)
    ]
