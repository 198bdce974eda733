-- ===== src/Modbus/Client/Requests.antt =====
-- The client's requests as frames, and the parsing of answers.
use simple_socket.Prelude.{
  ℕ, zero, suc, ◌+◌, ◌*◌, ◌/◌, ◌%◌, ◌≤◌, ◌<◌, ◌≡◌, refl, ap, ◌∙◌, List, [], ◌∷◌, ◌++◌, shr, length,
  get_or, All, IsByte, IsWord, ok, elem-ok, All-get_or, All-append, arith,
}
use simple_socket.Prelude.Bits.{bit_and_byte}
use simple_socket.Modbus.Words.Texts.{bytes_of}
use simple_socket.Modbus.Server.Frames.{Frame, bytes}
use simple_socket.Modbus.Server.Loops.{be16_lem, words_from}
use simple_socket.Modbus.Server.Writes.{words_from-append}
use simple_socket.Modbus.Client.{
  make_request, parse_registers, parse_registers_response, high_byte, low_byte, two_words,
  value_bytes,
}

pub high_byte_lem : (x : ℕ) → IsWord x → high_byte x ≡ x / 256
high_byte_lem x h = omega (arith, bit_and_byte (shr x 8))

pub low_byte_lem : (x : ℕ) → low_byte x ≡ x % 256
low_byte_lem x = omega (arith, bit_and_byte x)

-- The frame of a request with two words and a rest.
abbrev pub request_frame : ℕ → ℕ → ℕ → ℕ → ℕ → List ℕ → Frame
request_frame tid unit code a q rest = record {
  t₁ = tid / 256;
  t₀ = tid % 256;
  p₁ = 0;
  p₀ = 0;
  l₁ = (6 + length rest) / 256;
  l₀ = (6 + length rest) % 256;
  unit = unit;
  code = code;
  a₁ = a / 256;
  a₀ = a % 256;
  q₁ = q / 256;
  q₀ = q % 256;
  rest = rest;
}

pub make_request-bytes :
    (tid unit code a q : ℕ) (rest : List ℕ)
    → IsWord tid
    → IsWord a
    → IsWord q
    → length rest < 65000
    → make_request tid unit code (two_words a q ++ rest)
      ≡ bytes (request_frame tid unit code a q rest)
unfolding make_request
make_request-bytes tid unit code a q rest ht ha hq hr = ground (
  arith,
  high_byte_lem tid,
  low_byte_lem tid,
  high_byte_lem a,
  low_byte_lem a,
  high_byte_lem q,
  low_byte_lem q,
  low_byte_lem (6 + length rest),
)

-- What the loop over an answer reads.
pub parse_registers-words :
    (response : List ℕ) (at n : ℕ)
    → All IsByte response
    → at + n * 2 ≤ length response
    → parse_registers response at n ≡ ok (words_from response at n)
unfolding parse_registers
parse_registers-words response at zero b h = refl
parse_registers-words response at (suc n) b h =
    let rest = parse_registers-words response (suc (suc at)) n b (omega arith) in
    ground (
      arith,
      elem-ok response at (omega arith),
      elem-ok response (suc at) (omega arith),
      be16_lem (get_or response at 0) (get_or response (suc at) 0),
      All-get_or IsByte response at 0 b (omega arith),
      All-get_or IsByte response (suc at) 0 b (omega arith),
      rest,
    )

-- Words written as bytes and read back as words.
pub words_from-bytes_of :
    (ws : List ℕ) → All IsWord ws → words_from (bytes_of ws) 0 (length ws) ≡ ws
words_from-bytes_of [] h = refl
words_from-bytes_of (w ∷ ws) (hw, h) =
    let front : List ℕ = w / 256 ∷ w % 256 ∷ [] in
    let whole : w / 256 * 256 + w % 256 ≡ w = omega arith in
    rw whole
      (ap (◌∷◌ w) (words_from-append front (bytes_of ws) 0 (length ws) ∙ words_from-bytes_of ws h))

pub value_bytes-bytes_of : (ws : List ℕ) → All IsWord ws → value_bytes ws ≡ bytes_of ws
value_bytes-bytes_of [] h = refl
value_bytes-bytes_of (w ∷ ws) (hw, h) =
    rw (high_byte_lem w hw, low_byte_lem w, value_bytes-bytes_of ws h)

pub length-bytes_of : (ws : List ℕ) → length (bytes_of ws) ≡ length ws * 2
length-bytes_of [] = refl
length-bytes_of (w ∷ ws) = omega (arith, length-bytes_of ws)

pub bytes_of-IsByte : (ws : List ℕ) → All IsWord ws → All IsByte (bytes_of ws)
bytes_of-IsByte [] h = tt
bytes_of-IsByte (w ∷ ws) (hw, h) = (omega arith, (omega arith, bytes_of-IsByte ws h))

-- An answer to a read: a header of eight bytes, a byte count, and the registers.
pub parse_registers_response-bytes_of :
    (h₀ h₁ h₂ h₃ h₄ h₅ h₆ h₇ : ℕ) (ws : List ℕ)
    → All IsByte (h₀ ∷ h₁ ∷ h₂ ∷ h₃ ∷ h₄ ∷ h₅ ∷ h₆ ∷ h₇ ∷ [])
    → All IsWord ws
    → length ws ≤ 127
    → parse_registers_response
        (h₀ ∷ h₁ ∷ h₂ ∷ h₃ ∷ h₄ ∷ h₅ ∷ h₆ ∷ h₇ ∷ length ws * 2 % 256 ∷ bytes_of ws)
        (length ws)
      ≡ ok ws
unfolding parse_registers_response
parse_registers_response-bytes_of h₀ h₁ h₂ h₃ h₄ h₅ h₆ h₇ ws b w few =
    let n = length ws in
    let front : List ℕ = h₀ ∷ h₁ ∷ h₂ ∷ h₃ ∷ h₄ ∷ h₅ ∷ h₆ ∷ h₇ ∷ n * 2 % 256 ∷ [] in
    let all : All IsByte (front ++ bytes_of ws) =
      All-append IsByte front (bytes_of ws) (omega arith) (bytes_of-IsByte ws w) in
    ground (
      arith,
      length-bytes_of ws,
      parse_registers-words (front ++ bytes_of ws) 9 n all,
      words_from-append front (bytes_of ws) 0 n,
      words_from-bytes_of ws w,
    )
