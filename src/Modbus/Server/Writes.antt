-- ===== src/Modbus/Server/Writes.antt =====
-- The two writes.
use simple_socket.Prelude.{
  ℕ, zero, suc, ◌+◌, ◌*◌, ◌≤◌, ◌<◌, ◌≡◌, refl, ap, ◌∙◌, List, [], ◌∷◌, ◌++◌, length, get_or, All,
  IsByte, ok, arith,
}
use native.Mathlib.Nat.{zero-add, suc-add}
use simple_socket.Prelude.Bits.{bit_and_byte}
use simple_socket.Modbus.Registers.{HoldingRegister, size}
use simple_socket.Modbus.Registers.Access.{Fits, with_run, set_uint16-with_run}
use simple_socket.Modbus.Server.{process_request}
use simple_socket.Modbus.Server.Frames.{Frame, bytes, address, quantity}
use simple_socket.Modbus.Server.Loops.{be16_lem, words_from, store_registers-with_run}

-- A write of one register that exists stores the value and echoes the request.
pub process_request_write_single :
    (f : Frame) (reg : HoldingRegister)
    → Fits reg
    → All IsByte (bytes f)
    → f.code ≡ 0x06
    → address f < size reg
    → process_request (bytes f) reg ≡ ok (bytes f, with_run reg (address f) (quantity f ∷ []))
unfolding process_request
process_request_write_single f reg fits b c h = ground (
  arith,
  be16_lem f.a₁ f.a₀,
  be16_lem f.q₁ f.q₀,
  set_uint16-with_run reg (address f) (quantity f) fits,
)

words_from-skip :
    (x : ℕ) (xs : List ℕ) (at n : ℕ) → words_from (x ∷ xs) (suc at) n ≡ words_from xs at n
words_from-skip x xs at zero = refl
words_from-skip x xs at (suc n) =
    ap (◌∷◌ (get_or xs at 0 * 256 + get_or xs (suc at) 0)) (words_from-skip x xs (suc (suc at)) n)

pub words_from-append :
    (front xs : List ℕ) (at n : ℕ)
    → words_from (front ++ xs) (length front + at) n ≡ words_from xs at n
words_from-append [] xs at n = rw zero-add
words_from-append (x ∷ front) xs at n =
    rw (suc-add (length front) at)
      (words_from-skip x (front ++ xs) (length front + at) n ∙ words_from-append front xs at n)

payload_words :
    (f : Frame) (count : ℕ) (payload : List ℕ) (n : ℕ)
    → f.rest ≡ count ∷ payload
    → words_from (bytes f) 13 n ≡ words_from payload 0 n
payload_words f count payload n e =
    let front : List ℕ =
      f.t₁ ∷ f.t₀ ∷ f.p₁ ∷ f.p₀ ∷ f.l₁ ∷ f.l₀ ∷ f.unit ∷ f.code ∷ f.a₁ ∷ f.a₀ ∷ f.q₁ ∷ f.q₀ ∷ count
      ∷ [] in
    rw e (words_from-append front payload 0 n)

-- A write of several registers that exist, whose byte count is right and whose data is all there,
-- stores the words of the data. The answer repeats the header of the request, its length included,
-- and has the function code where the unit should stand.
pub process_request_write_multiple :
    (f : Frame) (reg : HoldingRegister) (count : ℕ) (payload : List ℕ)
    → Fits reg
    → All IsByte (bytes f)
    → f.code ≡ 0x10
    → f.rest ≡ count ∷ payload
    → count ≡ quantity f * 2
    → count ≤ length payload
    → address f + quantity f ≤ size reg
    → process_request (bytes f) reg
      ≡ ok (
        f.t₁ ∷ f.t₀ ∷ f.p₁ ∷ f.p₀ ∷ f.l₁ ∷ f.l₀ ∷ 0x10 ∷ 0x10 ∷ f.a₁ ∷ f.a₀ ∷ f.q₁ ∷ f.q₀ ∷ [],
        with_run reg (address f) (words_from payload 0 (quantity f)),
      )
unfolding process_request
process_request_write_multiple f reg count payload fits b c e n all h =
    let stored = store_registers-with_run (bytes f) 13 reg (address f) (quantity f) fits b in
    ground (
      arith,
      be16_lem f.a₁ f.a₀,
      be16_lem f.q₁ f.q₀,
      bit_and_byte (address f),
      bit_and_byte (quantity f),
      stored,
      payload_words f count payload (quantity f) e,
    )
