-- ===== src/Text/Numbers.antt =====
-- `std::stoul`, `std::stoull` and `std::stoi` where `long` has 64 bits, and decimal printing.
use mathlib.Core.Logic.{dite}
use mathlib.Core.WellFounded.{Acc}
use native.Mathlib.Decide.{dec_lt}
use simple_socket.Prelude.{
  ℕ, ◌+◌, ◌-◌, ◌*◌, ◌/◌, ◌%◌, ◌^◌, ◌<◌, ◌≡◌, Bool, true, false, ◌&&◌, Option, none, some, List, [],
  ◌∷◌, ◌==◌, if◌then◌else◌, ltb, leb, arith, Outcome, ok, throw, invalid_argument, out_of_range,
  All, ◌≤◌, Bool-cases, inl, inr,
}
use simple_socket.Prelude.Order.{lt_wf}
use simple_socket.Text.{ltrim, lower}

-- A digit of base 10 or 16.
unfoldable pub digit : ℕ → ℕ → Option ℕ
unfolding lower
digit base c =
    let l = lower c in
    let v =
      if leb b'0' c && leb c b'9' then c - b'0' else if leb b'a' l then l - b'a' + 10 else base in
    if ltb v base then some v else none

abbrev is_digit : ℕ → ℕ → Bool
is_digit base c = elim (digit base c) [ none ↦ false | some v ↦ true ]

-- The value of the digits in front, after `n`; what follows them is ignored.
unfoldable pub scan : ℕ → List ℕ → ℕ → ℕ
scan base [] n = n
scan base (c ∷ s) n = elim (digit base c) [ none ↦ n | some v ↦ scan base s (n * base + v) ]

-- Without a digit the conversions throw `std::invalid_argument`.
unfoldable pub magnitude : ℕ → List ℕ → Option ℕ
unfolding scan digit
magnitude base [] = none
magnitude base (c ∷ s) = if is_digit base c then some (scan base (c ∷ s) 0) else none

-- `0x` counts as a prefix in base 16 where a digit follows.
unfoldable pub skip_prefix : ℕ → List ℕ → List ℕ
unfolding digit lower
skip_prefix base (z ∷ x ∷ c ∷ s) =
    if (base == 16) && (z == b'0') && (lower x == b'x') && is_digit 16 c
    then c ∷ s
    else z ∷ x ∷ c ∷ s
skip_prefix base s = s

-- Whether there is a minus sign, and the text after the sign.
unfoldable pub sign : List ℕ → Bool × List ℕ
sign [] = (false, [])
sign (c ∷ s) = if c == b'-' then (true, s) else if c == b'+' then (false, s) else (false, c ∷ s)

-- The sign and the magnitude of the number in front.
unfoldable pub number : ℕ → List ℕ → Option (Bool × ℕ)
unfolding ltrim sign skip_prefix magnitude
number base s =
    let (minus, rest) = sign (ltrim s) in
    elim (magnitude base (skip_prefix base rest)) [ none ↦ none | some m ↦ some (minus, m) ]

-- `none` where they throw. A minus sign negates modulo 2^64.
unfoldable pub stoul : ℕ → List ℕ → Option ℕ
unfolding number
stoul base s = elim (number base s) [
  | none ↦ none
  | some (minus, m) ↦
      if leb (2 ^ 64) m then none else some (if minus then (2 ^ 64 - m) % 2 ^ 64 else m)
]

-- `static_cast<uint16_t>(std::stoi(s))`.
unfoldable pub stoi_word : List ℕ → Outcome ℕ
unfolding number
stoi_word s = elim (number 10 s) [
  | none ↦ throw invalid_argument
  | some (minus, m) ↦
      if minus
      then (if ltb (2 ^ 31) m then throw out_of_range else ok ((2 ^ 32 - m) % 2 ^ 16))
      else (if leb (2 ^ 31) m then throw out_of_range else ok (m % 2 ^ 16))
]

-- `std::to_string` of an unsigned number.
pub tenth_lt : {n : ℕ} → 0 < n → n / 10 < n
tenth_lt h = omega arith

digits_from : (n : ℕ) → Acc ◌<◌ n → List ℕ → List ℕ
digits_from n (Acc.intro _ smaller) out =
    dite (dec_lt 0 n)
      (λ h. digits_from (n / 10) (smaller (n / 10) (tenth_lt h)) ((b'0' + n % 10) ∷ out)) (λ _. out)

unfoldable pub to_string : ℕ → List ℕ
unfolding digits_from lt_wf dec_lt
to_string n = if n == 0 then b'0' ∷ [] else digits_from n (lt_wf.apply n) []

pub stoul-lt : (base : ℕ) (s : List ℕ) (n : ℕ) → stoul base s ≡ some n → n < 2 ^ 64
unfolding stoul
stoul-lt base s n e = fits (number base s) e
  where
    fits :
        (r : Option (Bool × ℕ))
        → elim r as (λ x. Option ℕ) [
          | none ↦ none
          | some (minus, m) ↦
              if leb (2 ^ 64) m then none else some (if minus then (2 ^ 64 - m) % 2 ^ 64 else m)
        ]
          ≡ some n
        → n < 2 ^ 64
    fits none e = absurd (ground (arith, e))
    fits (some (minus, m)) e = ground (arith, e)

abbrev pub IsDigit : ℕ → Type 0
IsDigit c = (b'0' ≤ c) × (c ≤ b'9')

digits_from-IsDigit :
    (n : ℕ) (w : Acc ◌<◌ n) (out : List ℕ) → All IsDigit out → All IsDigit (digits_from n w out)
unfolding digits_from
digits_from-IsDigit n (Acc.intro _ smaller) out h =
    let round : 0 < n → List ℕ =
      λ more. digits_from (n / 10) (smaller (n / 10) (tenth_lt more)) ((b'0' + n % 10) ∷ out) in
    elim (dec_lt 0 n) as (λ d. All IsDigit (dite d round (λ _. out))) [
      | yes more ↦
          digits_from-IsDigit (n / 10) (smaller (n / 10) (tenth_lt more)) ((b'0' + n % 10) ∷ out)
            ((omega arith, omega arith), h)
      | no over ↦ h
    ]

pub to_string-IsDigit : (n : ℕ) → All IsDigit (to_string n)
unfolding to_string
to_string-IsDigit n = elim (Bool-cases (n == 0)) [
  | inl e ↦ rw e ((omega arith, omega arith), tt)
  | inr e ↦ rw e (digits_from-IsDigit n (lt_wf.apply n) [] tt)
]
