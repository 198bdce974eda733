-- ===== src/Modbus/Server/Seen.antt =====
-- What the loop over registers of src/simple_socket/modbus/ModbusServer.cpp sees of the other threads.
use mathlib.Core.Path.{fun_ext}
use simple_socket.Modbus.Registers.Access.{
  Fits, with_run, set_uint16-with_run, set_uint32-with_run, set_uint64-with_run, get_uint16-get_or,
}
use simple_socket.Modbus.Registers.{HoldingRegister, size, get_uint16}
use simple_socket.Modbus.Server.{append_registers}
use simple_socket.Modbus.Server.Shared.{
  Write, sets16, sets32, sets64, set_by, set_by_all, read_shared,
}
use simple_socket.Modbus.Words.Integers.{words32, words64}
use simple_socket.Modbus.Words.Texts.{bytes_of}
use simple_socket.Prelude.Bits.{bit_and_byte}
use simple_socket.Prelude.{
  ℕ, zero, suc, ◌+◌, ◌%◌, ◌^◌, ◌≤◌, ◌<◌, ◌≡◌, ◌≢◌, refl, sym, ap, ◌∙◌, List, [], ◌∷◌, ◌==◌, ==_iff,
  if◌then◌else◌, shr, bit_and, length, get_or, set, get_or-set_self, get_or-set_ne, length-set,
  length-set_run, replicate, All, IsWord, Outcome, ok, throw, fault, ◌>>=◌, Bool-cases, inl, inr,
  arith,
}

-- The registers as a function, and what a call leaves in it.
abbrev pub value_in : HoldingRegister → ℕ → ℕ
value_in reg k = get_or reg.registers k 0

abbrev pub put_word : (ℕ → ℕ) → ℕ → ℕ → ℕ → ℕ
put_word f i v k = if i == k then v else f k

abbrev pub put_run : (ℕ → ℕ) → ℕ → List ℕ → ℕ → ℕ
put_run f i [] = f
put_run f i (v ∷ vs) = put_run (put_word f i v) (suc i) vs

abbrev pub place : Write → ℕ
place (sets16 i v) = i
place (sets32 i v) = i
place (sets64 i v) = i

abbrev pub words_of : Write → List ℕ
words_of (sets16 i v) = v ∷ []
words_of (sets32 i v) = words32 v
words_of (sets64 i v) = words64 v

abbrev pub after_all : (ℕ → ℕ) → List Write → ℕ → ℕ
after_all f [] = f
after_all f (w ∷ ws) = after_all (put_run f (place w) (words_of w)) ws

-- What the loop sees: each register as it is at its turn.
abbrev pub seen : (ℕ → ℕ) → ℕ → List (List Write) → List ℕ
seen f address [] = []
seen f address (ws ∷ later) = let f' = after_all f ws in f' address ∷ seen f' (suc address) later

abbrev pub at_end : (ℕ → ℕ) → List (List Write) → ℕ → ℕ
at_end f [] = f
at_end f (ws ∷ later) = at_end (after_all f ws) later

-- Within a bank of `n` registers, with a 16-bit value where there is one.
abbrev pub IsWithin : ℕ → Write → Type 0
IsWithin n (sets16 i v) = (i + 1 ≤ n) × IsWord v
IsWithin n (sets32 i v) = i + 2 ≤ n
IsWithin n (sets64 i v) = i + 4 ≤ n

value_in-set :
    (reg : HoldingRegister) (i v : ℕ)
    → i < size reg
    → value_in (with_run reg i (v ∷ [])) ≡ put_word (value_in reg) i v
value_in-set reg i v h = fun_ext (λ k. elim (Bool-cases (i == k)) [
  | inl t ↦
      let here = get_or-set_self reg.registers i v 0 h in
      rw t (ap (λ j. get_or (set reg.registers i v) j 0) (sym ((==_iff i k).0 t)) ∙ here)
  | inr t ↦
      let apart : i ≢ k = λ e. absurd (ground (arith, t, (==_iff i k).1 e)) in
      rw t (get_or-set_ne reg.registers i k v 0 apart)
])

value_in-with_run :
    (reg : HoldingRegister) (i : ℕ) (vs : List ℕ)
    → i + length vs ≤ size reg
    → value_in (with_run reg i vs) ≡ put_run (value_in reg) i vs
value_in-with_run reg i [] h = refl
value_in-with_run reg i (v ∷ vs) h =
    value_in-with_run (with_run reg i (v ∷ [])) (suc i) vs
      (omega (arith, length-set reg.registers i v))
    ∙ ap (λ f. put_run f (suc i) vs) (value_in-set reg i v (omega arith))

abbrev pub AreWords : (ℕ → ℕ) → Type 0
AreWords f = (k : ℕ) → IsWord (f k)

put_run-AreWords :
    (f : ℕ → ℕ) (i : ℕ) (vs : List ℕ) → All IsWord vs → AreWords f → AreWords (put_run f i vs)
put_run-AreWords f i [] h words = words
put_run-AreWords f i (v ∷ vs) (here, h) words =
    put_run-AreWords (put_word f i v) (suc i) vs h
      (λ k. elim (Bool-cases (i == k)) [ inl t ↦ rw t here | inr t ↦ rw t (words k) ])

words_of-IsWord : (n : ℕ) (w : Write) → IsWithin n w → All IsWord (words_of w)
words_of-IsWord n (sets16 i v) (room, word) = (word, tt)
words_of-IsWord n (sets32 i v) room = (omega arith, (omega arith, tt))
words_of-IsWord n (sets64 i v) room = (omega arith, (omega arith, (omega arith, (omega arith, tt))))

set_by-with_run :
    (reg : HoldingRegister) (w : Write)
    → Fits reg
    → IsWithin (size reg) w
    → (set_by reg w ≡ ok (with_run reg (place w) (words_of w)))
      × (place w + length (words_of w) ≤ size reg)
set_by-with_run reg (sets16 i v) f (room, word) = (set_uint16-with_run reg i v f room, room)
set_by-with_run reg (sets32 i v) f room = (set_uint32-with_run reg i v f room, room)
set_by-with_run reg (sets64 i v) f room = (set_uint64-with_run reg i v f room, room)

-- A bank of `n` registers that holds `f`.
abbrev pub Holds : ℕ → (ℕ → ℕ) → HoldingRegister → Type 0
Holds n f reg = (size reg ≡ n) × (value_in reg ≡ f)

set_by_all-Holds :
    (n : ℕ) (f : ℕ → ℕ) (reg : HoldingRegister) (ws : List Write)
    → n < 2 ^ 64
    → All (IsWithin n) ws
    → AreWords f
    → Holds n f reg
    → (reg' : HoldingRegister) × (set_by_all reg ws ≡ ok reg')
      × Holds n (after_all f ws) reg'
      × AreWords (after_all f ws)
set_by_all-Holds n f reg [] fits within words (many, same_f) = (reg, refl, (many, same_f), words)
set_by_all-Holds n f reg (w ∷ ws) fits (first, within) words (many, same_f) =
    let (went, room) = set_by-with_run reg w (omega (arith, many)) (rw many first) in
    let same_run =
      value_in-with_run reg (place w) (words_of w) room
      ∙ ap (λ g. put_run g (place w) (words_of w)) same_f in
    let (reg', rest, holds, words') =
      set_by_all-Holds n (put_run f (place w) (words_of w)) (with_run reg (place w) (words_of w)) ws
        fits within (put_run-AreWords f (place w) (words_of w) (words_of-IsWord n w first) words)
        (length-set_run reg.registers (place w) (words_of w) ∙ many, same_run) in
    (reg', rw went rest, holds, words')

registers-AreWords : (xs : List ℕ) → All IsWord xs → (k : ℕ) → IsWord (get_or xs k 0)
registers-AreWords [] h k = omega arith
registers-AreWords (x ∷ xs) (here, h) zero = here
registers-AreWords (x ∷ xs) (here, h) (suc k) = registers-AreWords xs h k

loop-seen :
    (n : ℕ) (f : ℕ → ℕ) (reg : HoldingRegister) (address : ℕ) (steps : List (List Write))
    → n < 2 ^ 64
    → AreWords f
    → All (λ ws. All (IsWithin n) ws) steps
    → address + length steps ≤ n
    → Holds n f reg
    → (reg' : HoldingRegister) × (read_shared reg address steps
        ≡ ok (bytes_of (seen f address steps), reg'))
      × Holds n (at_end f steps) reg'
unfolding read_shared
loop-seen n f reg address [] fits words within room holds = (reg, refl, holds)
loop-seen n f reg address (ws ∷ later) fits words (now, within) room holds =
    let (reg₁, went, (many, same_f), words₁) = set_by_all-Holds n f reg ws fits now words holds in
    let (reg', rest, holds') =
      loop-seen n (after_all f ws) reg₁ (suc address) later fits words₁ within (omega arith)
        (many, same_f) in
    let value = after_all f ws address in
    let got : get_uint16 reg₁ address ≡ ok value =
      get_uint16-get_or reg₁ address (omega (arith, many)) (omega (arith, many))
      ∙ ap (λ g. ok (g address)) same_f in
    (reg', rw (went, got, rest) (ground (arith, bit_and_byte value, words₁ address)), holds')

-- Whatever the other threads set before the loop and between its turns, in the bank's bounds: the loop
-- throws nothing, and the answer has, register for register, the 16-bit value that it had at its turn, never
-- a mixture of two; no value that another thread set is lost. It is about a bank that the address space holds,
-- of 16-bit values, and about registers in the bank.
pub read_shared-seen :
    (reg : HoldingRegister) (address : ℕ) (steps : List (List Write))
    → Fits reg
    → All IsWord reg.registers
    → All (λ ws. All (IsWithin (size reg)) ws) steps
    → address + length steps ≤ size reg
    → (reg' : HoldingRegister) × (read_shared reg address steps
        ≡ ok (bytes_of (seen (value_in reg) address steps), reg'))
      × Holds (size reg) (at_end (value_in reg) steps) reg'
read_shared-seen reg address steps fits words within room =
    loop-seen (size reg) (value_in reg) reg address steps fits
      (registers-AreWords reg.registers words) within room (refl, refl)

abbrev pub beside : {A : Type 0} → HoldingRegister → Outcome A → Outcome (A × HoldingRegister)
beside reg m = m >>= λ a. ok (a, reg)

after_both :
    {A B : Type 0} (m : Outcome A) (n : Outcome B) (reg : HoldingRegister) (join : A → B → B)
    → (m >>= λ a. beside reg n >>= λ r. ok (join a r.0, r.1))
      ≡ beside reg (m >>= λ a. n >>= λ b. ok (join a b))
after_both (ok a) (ok b) reg join = refl
after_both (ok a) (throw e) reg join = refl
after_both (ok a) fault reg join = refl
after_both (throw e) n reg join = refl
after_both fault n reg join = refl

-- With no other thread it is the loop of one, errors included.
pub read_shared-append_registers :
    (reg : HoldingRegister) (address quantity : ℕ)
    → read_shared reg address (replicate quantity [])
      ≡ beside reg (append_registers reg address quantity)
unfolding read_shared append_registers
read_shared-append_registers reg address zero = refl
read_shared-append_registers reg address (suc quantity) =
    rw (read_shared-append_registers reg (suc address) quantity) (
      after_both (get_uint16 reg address) (append_registers reg (suc address) quantity) reg
        (λ value rest. shr value 8 % 2 ^ 8 ∷ bit_and value 0xff % 2 ^ 8 ∷ rest))

-- A 32-bit value that is set between the turns of its two registers is answered with the upper half that
-- was there before.
pub read_shared_torn :
    (reg : HoldingRegister) (address v : ℕ)
    → Fits reg
    → All IsWord reg.registers
    → address + 2 ≤ size reg
    → (reg' : HoldingRegister) × (read_shared reg address ([] ∷ (sets32 address v ∷ []) ∷ [])
        ≡ ok (bytes_of (value_in reg address ∷ v % 65536 ∷ []), reg'))
read_shared_torn reg address v fits words room =
    let steps : List (List Write) = [] ∷ (sets32 address v ∷ []) ∷ [] in
    let (reg', went, holds) =
      read_shared-seen reg address steps fits words (tt, ((room, tt), tt)) (omega arith) in
    let here = (==_iff (suc address) (suc address)).1 refl in (reg', went ∙ rw here refl)
