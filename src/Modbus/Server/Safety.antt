-- ===== src/Modbus/Server/Safety.antt =====
-- Every request: the server never throws, keeps the bank well formed, and answers every complete
-- frame; a frame that is cut short is read past its end.
use simple_socket.Prelude.{
  ℕ, zero, suc, ◌+◌, ◌*◌, ◌≤◌, ◌<◌, ◌≡◌, inl, inr, refl, List, [], ◌∷◌, length, get_or, All,
  All-set_run, All-get_or, IsByte, IsWord, Outcome, ok, fault, elem-ok, elem-fault, arith,
  length-set, length-set_run, ◌==◌, ltb, Bool-cases,
}
use simple_socket.Modbus.Registers.{HoldingRegister, size}
use simple_socket.Modbus.Registers.Access.{Fits, with_run, set_uint16-with_run}
use simple_socket.Modbus.Server.{process_request, store_registers}
use simple_socket.Modbus.Server.Frames.{Frame, bytes, address, quantity}
use simple_socket.Modbus.Server.Reads.{
  process_request_read, process_request_refused, process_request_refused_multiple,
  process_request_unknown,
}
use simple_socket.Modbus.Server.Writes.{
  process_request_write_single, process_request_write_multiple,
}
use simple_socket.Modbus.Server.Loops.{be16_lem, words_from}

-- A bank whose registers hold 16-bit values.
pub record IsBank (reg : HoldingRegister) : Type 0 where
  pub fits : Fits reg
  pub words : All IsWord reg.registers

-- A write of several registers comes with the bytes that its byte count announces.
abbrev pub HasData : List ℕ → Type 0
HasData [] = ⊥
HasData (count ∷ payload) = count ≤ length payload

words_from-IsWord :
    (xs : List ℕ) (at n : ℕ)
    → All IsByte xs
    → at + n * 2 ≤ length xs
    → All IsWord (words_from xs at n)
words_from-IsWord xs at zero b h = tt
words_from-IsWord xs at (suc n) b h = (
  omega (
    arith,
    All-get_or IsByte xs at 0 b (omega arith),
    All-get_or IsByte xs (suc at) 0 b (omega arith),
  ),
  words_from-IsWord xs (suc (suc at)) n b (omega arith),
)

with_run-IsBank :
    (reg : HoldingRegister) (index : ℕ) (ws : List ℕ)
    → IsBank reg
    → All IsWord ws
    → IsBank (with_run reg index ws)
with_run-IsBank reg index ws v w = record {
  fits = omega (arith, length-set_run reg.registers index ws, v.fits);
  words = All-set_run IsWord reg.registers index ws v.words w;
}

-- What every answered request leaves behind.
abbrev pub Answers : HoldingRegister → Outcome (List ℕ × HoldingRegister) → Type 0
Answers reg result =
    (response : List ℕ) × (reg' : HoldingRegister) × (result ≡ ok (response, reg'))
    × IsBank reg'
    × (size reg' ≡ size reg)

answer_read :
    (f : Frame) (reg : HoldingRegister)
    → IsBank reg
    → All IsByte (bytes f)
    → f.code ≡ 0x03
    → Answers reg (process_request (bytes f) reg)
answer_read f reg v b c = elim (Bool-cases (ltb (size reg) (address f + quantity f))) [
  | inl past ↦ (_, reg, process_request_refused f reg b (inl (c, ground arith)), v, refl)
  | inr fits ↦ (_, reg, process_request_read f reg v.fits v.words b c (ground arith), v, refl)
]

answer_write_single :
    (f : Frame) (reg : HoldingRegister)
    → IsBank reg
    → All IsByte (bytes f)
    → f.code ≡ 0x06
    → Answers reg (process_request (bytes f) reg)
answer_write_single f reg v b c = elim (Bool-cases (ltb (address f) (size reg))) [
  | inl fits ↦ (
    _,
    _,
    process_request_write_single f reg v.fits b c (ground arith),
    with_run-IsBank reg (address f) (quantity f ∷ []) v (ground arith),
    length-set_run reg.registers (address f) (quantity f ∷ []),
  )
  | inr past ↦ (_, reg, process_request_refused f reg b (inr (c, ground arith)), v, refl)
]

answer_write_multiple :
    (f : Frame) (reg : HoldingRegister) (count : ℕ) (payload : List ℕ)
    → IsBank reg
    → All IsByte (bytes f)
    → f.code ≡ 0x10
    → f.rest ≡ count ∷ payload
    → All IsByte payload
    → count ≤ length payload
    → Answers reg (process_request (bytes f) reg)
answer_write_multiple f reg count payload v b c e bp h =
    elim (Bool-cases (ltb (size reg) (address f + quantity f))) [
      | inl past ↦ (
        _,
        reg,
        process_request_refused_multiple f reg count payload b c e (inl (ground arith)),
        v,
        refl,
      )
      | inr fits ↦ elim (Bool-cases (count == quantity f * 2)) [
        | inl right ↦ (
          _,
          _,
          process_request_write_multiple f reg count payload v.fits b c e (ground arith) h
              (ground arith),
          with_run-IsBank reg (address f) (words_from payload 0 (quantity f)) v
              (words_from-IsWord payload 0 (quantity f) bp (ground arith)),
          length-set_run reg.registers (address f) (words_from payload 0 (quantity f)),
        )
        | inr wrong ↦ (
          _,
          reg,
          process_request_refused_multiple f reg count payload b c e (inr (ground arith)),
          v,
          refl,
        )
      ]
    ]

answer_data :
    (f : Frame) (reg : HoldingRegister) (rest : List ℕ)
    → IsBank reg
    → All IsByte (bytes f)
    → f.code ≡ 0x10
    → f.rest ≡ rest
    → HasData rest
    → All IsByte rest
    → Answers reg (process_request (bytes f) reg)
answer_data f reg [] v b c e d br = absurd d
answer_data f reg (count ∷ payload) v b c e d br =
    answer_write_multiple f reg count payload v b c e br.1 d

bytes-rest : (f : Frame) → All IsByte (bytes f) → All IsByte f.rest
bytes-rest f b = b.1.1.1.1.1.1.1.1.1.1.1.1

-- Every complete frame of bytes is answered: no exception, no access outside the frame or the bank,
-- and the bank keeps its size and its 16-bit values. A frame is complete with its twelve first
-- bytes and, for a write of several registers, a byte count and as many bytes as that says.
pub process_request_total :
    (f : Frame) (reg : HoldingRegister)
    → IsBank reg
    → All IsByte (bytes f)
    → (f.code ≡ 0x10 → HasData f.rest)
    → Answers reg (process_request (bytes f) reg)
process_request_total f reg v b complete = elim (Bool-cases (f.code == 3)) [
  | inl c ↦ answer_read f reg v b (ground arith)
  | inr n₃ ↦ elim (Bool-cases (f.code == 6)) [
    | inl c ↦ answer_write_single f reg v b (ground arith)
    | inr n₆ ↦ elim (Bool-cases (f.code == 16)) [
      | inl c ↦
          answer_data f reg f.rest v b (ground arith) refl (complete (ground arith))
            (bytes-rest f b)
      | inr n₁₆ ↦ (
        _,
        reg,
        process_request_unknown f reg (ground arith) (ground arith) (ground arith),
        v,
        refl,
      )
    ]
  ]
]

store_registers-fault :
    (request : List ℕ) (at : ℕ) (reg : HoldingRegister) (start n : ℕ)
    → Fits reg
    → All IsByte request
    → length request < at + n * 2
    → at ≤ length request
    → start + n ≤ size reg
    → store_registers request at reg start n ≡ fault
unfolding store_registers
store_registers-fault request at reg start zero f b h ha hs = absurd (omega arith)
store_registers-fault request at reg start (suc n) f b h ha hs =
    elim (Bool-cases (ltb (at + 1) (length request))) [
      | inl more ↦
          let hi = get_or request at 0 in
          let lo = get_or request (at + 1) 0 in
          let reg' = with_run reg start ((hi * 256 + lo) ∷ []) in
          ground (
            arith,
            elem-ok request at (ground arith),
            elem-ok request (at + 1) (ground arith),
            be16_lem hi lo,
            All-get_or IsByte request at 0 b (ground arith),
            All-get_or IsByte request (at + 1) 0 b (ground arith),
            set_uint16-with_run reg start (hi * 256 + lo) f (omega arith),
            length-set reg.registers start (hi * 256 + lo),
            store_registers-fault request (at + 2) reg' (suc start) n,
          )
      | inr none_left ↦ ground (arith, elem-fault request at, elem-fault request (at + 1))
    ]

-- A request of fewer than twelve bytes is read past its end, whatever it asks.
pub process_request_short :
    (request : List ℕ) (reg : HoldingRegister)
    → length request < 12
    → process_request request reg ≡ fault
unfolding process_request
process_request_short request reg h = ground (arith, elem-fault request 11 (omega arith))

-- A write of several registers that exist, with the right byte count, is read past its end when
-- fewer bytes than that follow.
pub process_request_missing_data :
    (f : Frame) (reg : HoldingRegister) (count : ℕ) (payload : List ℕ)
    → IsBank reg
    → All IsByte (bytes f)
    → f.code ≡ 0x10
    → f.rest ≡ count ∷ payload
    → count ≡ quantity f * 2
    → address f + quantity f ≤ size reg
    → length payload < count
    → process_request (bytes f) reg ≡ fault
unfolding process_request
process_request_missing_data f reg count payload v b c e n h short = ground (
  arith,
  be16_lem f.a₁ f.a₀,
  be16_lem f.q₁ f.q₀,
  store_registers-fault (bytes f) 13 reg (address f) (quantity f) v.fits b,
)
