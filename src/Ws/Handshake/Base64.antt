-- ===== src/Ws/Handshake/Base64.antt =====
-- Base 64 as RFC 4648 reads it, and that `base64Encode` writes it.
use simple_socket.Prelude.Bits.{bit_and_mask, bit_or_disjoint}
use simple_socket.Prelude.{
  ℕ, zero, suc, ◌+◌, ◌*◌, ◌/◌, ◌%◌, ◌^◌, ◌<◌, ◌≡◌, inl, inr, refl, sym, ap, bit_and, bit_or, Bool,
  true, false, not, ◌&&◌, leb, ◌-◌, List, [], ◌∷◌, ◌==◌, if◌then◌else◌, get_or, shl, shr, All,
  IsByte, Bool-cases, arith,
}
use simple_socket.Ws.Handshake.Key.{tbl, letter, group, base64_encode}

-- The number of a letter in the table of RFC 4648: the upper-case letters, the lower-case letters, the digits,
-- and the two signs. It is 0 for the padding.
unfoldable pub value : ℕ → ℕ
value c =
    if leb b'A' c && leb c b'Z'
    then c - b'A'
    else if leb b'a' c && leb c b'z'
    then c - b'a' + 26
    else if leb b'0' c && leb c b'9'
    then c - b'0' + 52
    else if c == b'+'
    then 62
    else if c == b'/'
    then 63
    else 0

-- Four letters make three bytes, or two or one where padding follows.
unfoldable pub base64_decode : List ℕ → List ℕ
base64_decode (w ∷ x ∷ y ∷ z ∷ rest) =
    let v = value w * 2 ^ 18 + value x * 2 ^ 12 + value y * 2 ^ 6 + value z in
    let later = base64_decode rest in
    if y == b'='
    then v / 2 ^ 16 ∷ []
    else if z == b'='
    then v / 2 ^ 16 ∷ v / 2 ^ 8 % 256 ∷ []
    else v / 2 ^ 16 ∷ v / 2 ^ 8 % 256 ∷ v % 256 ∷ later
base64_decode s = []

-- A test that all numbers below `n` pass.
all_below : (ℕ → Bool) → ℕ → Bool
all_below test zero = true
all_below test (suc n) = test n && all_below test n

all_below_at : (test : ℕ → Bool) (n i : ℕ) → all_below test n ≡ true → i < n → test i ≡ true
unfolding all_below
all_below_at test zero i e h = absurd (omega arith)
all_below_at test (suc n) i e h = elim (Bool-cases (test n)) [
  | inr fails ↦ absurd (ground (arith, e, fails))
  | inl passes ↦ elim (Bool-cases (i == n)) [
    | inl last ↦ ground (arith, last, passes)
    | inr less ↦ all_below_at test n i (rw passes at e) (ground (arith, less, h))
  ]
]

-- The letter of a number has the number as its value, and is not the padding.
abbrev reads_back : ℕ → Bool
reads_back i = (value (get_or tbl i 0) == i) && not (get_or tbl i 0 == b'=')

tbl_reads_back : all_below reads_back 64 ≡ true
unfolding all_below value
tbl_reads_back = refl

both : (a b : Bool) → (a && b) ≡ true → (a ≡ true) × (b ≡ true)
both true b e = (refl, e)
both false b e = absurd (ground (arith, e))

equal : (a b : ℕ) → (a == b) ≡ true → a ≡ b
equal a b e = ground (arith, e)

not-true : (b : Bool) → not b ≡ true → b ≡ false
not-true true e = sym e
not-true false e = refl

value-letter : (v k : ℕ) → (value (letter v k) ≡ shr v k % 64) × ((letter v k == b'=') ≡ false)
unfolding letter
value-letter v k =
    let at : bit_and (shr v k) 0x3f ≡ shr v k % 64 = bit_and_mask 6 (shr v k) in
    let i = shr v k % 64 in
    let (is, other) =
      both (value (get_or tbl i 0) == i) (not (get_or tbl i 0 == b'='))
        (all_below_at reads_back 64 i tbl_reads_back (omega arith)) in
    rw at (equal _ _ is, not-true _ other)

-- What is not a letter has the value 0.
value_pad : value b'=' ≡ 0
unfolding value
value_pad = refl

cons_eq : {x y : ℕ} {xs ys : List ℕ} → x ≡ y → xs ≡ ys → x ∷ xs ≡ y ∷ ys
cons_eq e es = cc (e, es)

two_sum : (a b : ℕ) → IsByte a → IsByte b → bit_or (shl 32 a 16) (shl 32 b 8) ≡ a * 65536 + b * 256
two_sum a b ha hb = ground (arith, ha, hb, bit_or_disjoint 16 a (b * 256) (omega arith))

group_sum : (a b c : ℕ) → IsByte a → IsByte b → IsByte c → group a b c ≡ a * 65536 + b * 256 + c
group_sum a b c ha hb hc =
    ground (arith, ha, hb, hc, two_sum a b ha hb, bit_or_disjoint 8 (a * 256 + b) c (omega arith))

-- The four sextets of a number of 24 bits make it up.
abbrev sextets : ℕ → ℕ
sextets v = shr v 18 % 64 * 2 ^ 18 + shr v 12 % 64 * 2 ^ 12 + shr v 6 % 64 * 2 ^ 6 + shr v 0 % 64

sextets_lem : (v : ℕ) → v < 2 ^ 24 → sextets v ≡ v
sextets_lem v h = omega arith

-- What the encoder writes is read back, by the table of RFC 4648, as the bytes it was given, whatever their
-- number.
pub base64_decode-base64_encode : (s : List ℕ) → All IsByte s → base64_decode (base64_encode s) ≡ s
unfolding base64_encode base64_decode
base64_decode-base64_encode [] h = refl
base64_decode-base64_encode (a ∷ []) (ha, h) =
    let v = shl 32 a 16 in
    let (v₁, p₁) = value-letter v 18 in
    let (v₂, p₂) = value-letter v 12 in rw (v₁, v₂, value_pad) (ap (λ x. x ∷ []) (omega arith))
base64_decode-base64_encode (a ∷ b ∷ []) (ha, (hb, h)) =
    let v = bit_or (shl 32 a 16) (shl 32 b 8) in
    let (v₁, p₁) = value-letter v 18 in
    let (v₂, p₂) = value-letter v 12 in
    let (v₃, p₃) = value-letter v 6 in
    let sum = two_sum a b ha hb in
    rw (p₃, v₁, v₂, v₃, value_pad)
      (cons_eq (omega (arith, ha, hb, sum)) (cons_eq (omega (arith, ha, hb, sum)) refl))
base64_decode-base64_encode (a ∷ b ∷ c ∷ rest) (ha, (hb, (hc, h))) =
    let v = group a b c in
    let (v₁, p₁) = value-letter v 18 in
    let (v₂, p₂) = value-letter v 12 in
    let (v₃, p₃) = value-letter v 6 in
    let (v₄, p₄) = value-letter v 0 in
    let sum = group_sum a b c ha hb hc in
    let small : v < 2 ^ 24 = omega (arith, ha, hb, hc, sum) in
    rw (p₃, p₄, v₁, v₂, v₃, v₄, sextets_lem v small, sum)
      (cons_eq (omega (arith, ha, hb, hc)) (
        cons_eq (omega (arith, ha, hb, hc))
          (cons_eq (omega (arith, ha, hb, hc)) (base64_decode-base64_encode rest h))))
