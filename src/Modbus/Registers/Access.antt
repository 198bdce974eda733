-- ===== src/Modbus/Registers/Access.antt =====
-- Reads after writes.
use simple_socket.Prelude.{
  ℕ, ◌+◌, ◌-◌, ◌^◌, ◌≤◌, ◌<◌, ◌≡◌, refl, ap, ◌∙◌, List, [], ◌∷◌, get_or, set_run, length-set_run,
  get_or-set_self, get_or-set_run, ok, elem-ok, arith,
}
use simple_socket.Modbus.Words.Integers.{
  words32, words64, encode_uint32-set_run, encode_uint64-set_run, decode_uint32-words32,
  decode_uint64-words64,
}
use simple_socket.Modbus.Registers.{
  HoldingRegister, size, set_uint16, get_uint16, set_uint32, get_uint32, set_uint64, get_uint64,
  set_float, get_float, set_double, get_double,
}

-- The bank after a run of words has been written from an index on.
abbrev pub with_run : HoldingRegister → ℕ → List ℕ → HoldingRegister
with_run r index ws = record { registers = set_run r.registers index ws }

-- A bank no longer than the address space: `size_t` holds every index past its end by four.
abbrev pub Fits : HoldingRegister → Type 0
Fits r = size r < 2 ^ 64

with_run-Fits :
    (r : HoldingRegister) (index : ℕ) (ws : List ℕ) → Fits r → Fits (with_run r index ws)
with_run-Fits r index ws f = omega (arith, length-set_run r.registers index ws)

pub set_uint16-with_run :
    (r : HoldingRegister) (index value : ℕ)
    → Fits r
    → index + 1 ≤ size r
    → set_uint16 r index value ≡ ok (with_run r index (value ∷ []))
unfolding set_uint16
set_uint16-with_run r index value f h = ground arith

pub get_uint16-get_or :
    (r : HoldingRegister) (index : ℕ)
    → Fits r
    → index + 1 ≤ size r
    → get_uint16 r index ≡ ok (get_or r.registers index 0)
unfolding get_uint16
get_uint16-get_or r index f h = ground (arith, elem-ok r.registers index (omega arith))

pub set_uint32-with_run :
    (r : HoldingRegister) (index value : ℕ)
    → Fits r
    → index + 2 ≤ size r
    → set_uint32 r index value ≡ ok (with_run r index (words32 value))
unfolding set_uint32
set_uint32-with_run r index value f h =
    ground (arith, encode_uint32-set_run value r.registers index h)

pub set_uint64-with_run :
    (r : HoldingRegister) (index value : ℕ)
    → Fits r
    → index + 4 ≤ size r
    → set_uint64 r index value ≡ ok (with_run r index (words64 value))
unfolding set_uint64
set_uint64-with_run r index value f h =
    ground (arith, encode_uint64-set_run value r.registers index h)

-- A 16-bit value that fits the bank is written to its register, alone, and reads back.
pub get_uint16-set_uint16 :
    (r : HoldingRegister) (index value : ℕ)
    → Fits r
    → index + 1 ≤ size r
    → (set_uint16 r index value ≡ ok (with_run r index (value ∷ [])))
      × (get_uint16 (with_run r index (value ∷ [])) index ≡ ok value)
get_uint16-set_uint16 r index value f h = (
  set_uint16-with_run r index value f h,
  get_uint16-get_or (with_run r index (value ∷ [])) index (with_run-Fits r index (value ∷ []) f)
        (omega (arith, length-set_run r.registers index (value ∷ [])))
      ∙ ap ok (get_or-set_self r.registers index value 0 (omega arith)),
)

-- A 32-bit value that fits the bank is written to two registers, the upper half first, and no other
-- register changes; it reads back.
pub get_uint32-set_uint32 :
    (r : HoldingRegister) (index value : ℕ)
    → Fits r
    → value < 2 ^ 32
    → index + 2 ≤ size r
    → (set_uint32 r index value ≡ ok (with_run r index (words32 value)))
      × (get_uint32 (with_run r index (words32 value)) index ≡ ok value)
unfolding get_uint32
get_uint32-set_uint32 r index value f hv h =
    let r' = with_run r index (words32 value) in
    let l = length-set_run r.registers index (words32 value) in
    let kept = get_or-set_run r.registers index (words32 value) in
    let decoded =
      decode_uint32-words32 r'.registers index value hv (omega arith) (λ k hk. kept k 0 h hk) in
    (set_uint32-with_run r index value f h, ground (arith, decoded))

-- A 64-bit value that fits the bank is written to four registers, the uppermost part first, and no
-- other register changes; it reads back.
pub get_uint64-set_uint64 :
    (r : HoldingRegister) (index value : ℕ)
    → Fits r
    → value < 2 ^ 64
    → index + 4 ≤ size r
    → (set_uint64 r index value ≡ ok (with_run r index (words64 value)))
      × (get_uint64 (with_run r index (words64 value)) index ≡ ok value)
unfolding get_uint64
get_uint64-set_uint64 r index value f hv h =
    let r' = with_run r index (words64 value) in
    let l = length-set_run r.registers index (words64 value) in
    let kept = get_or-set_run r.registers index (words64 value) in
    let decoded =
      decode_uint64-words64 r'.registers index value hv (omega arith) (λ k hk. kept k 0 h hk) in
    (set_uint64-with_run r index value f h, ground (arith, decoded))

-- The typed accessors for `float` and `double` move the same bit patterns.
set_float-set_uint32 :
    (r : HoldingRegister) (index raw : ℕ) → set_float r index raw ≡ set_uint32 r index raw
unfolding set_float set_uint32
set_float-set_uint32 r index raw = refl

get_float-get_uint32 :
    (r : HoldingRegister) (index : ℕ)
    → Fits r
    → index < 2 ^ 64 - 2
    → get_float r index ≡ get_uint32 r index
unfolding get_float get_uint32
get_float-get_uint32 r index f h = ground arith

set_double-set_uint64 :
    (r : HoldingRegister) (index raw : ℕ) → set_double r index raw ≡ set_uint64 r index raw
unfolding set_double set_uint64
set_double-set_uint64 r index raw = refl

get_double-get_uint64 :
    (r : HoldingRegister) (index : ℕ)
    → Fits r
    → index < 2 ^ 64 - 4
    → get_double r index ≡ get_uint64 r index
unfolding get_double get_uint64
get_double-get_uint64 r index f h = ground arith

-- A `float` and a `double`, as bit patterns, come back bit for bit.
pub get_float-set_float :
    (r : HoldingRegister) (index raw wide : ℕ)
    → Fits r
    → raw < 2 ^ 32
    → wide < 2 ^ 64
    → index + 4 ≤ size r
    → (set_float r index raw ≡ ok (with_run r index (words32 raw)))
      × (get_float (with_run r index (words32 raw)) index ≡ ok raw)
      × (set_double r index wide ≡ ok (with_run r index (words64 wide)))
      × (get_double (with_run r index (words64 wide)) index ≡ ok wide)
get_float-set_float r index raw wide f hr hw h =
    let (written, read) = get_uint32-set_uint32 r index raw f hr (omega arith) in
    let (written', read') = get_uint64-set_uint64 r index wide f hw h in
    let fits = with_run-Fits r index (words32 raw) f in
    let fits' = with_run-Fits r index (words64 wide) f in
    (
      set_float-set_uint32 r index raw ∙ written,
      get_float-get_uint32 (with_run r index (words32 raw)) index fits (omega arith) ∙ read,
      set_double-set_uint64 r index wide ∙ written',
      get_double-get_uint64 (with_run r index (words64 wide)) index fits' (omega arith) ∙ read',
    )
