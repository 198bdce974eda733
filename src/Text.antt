-- ===== src/Text.antt =====
-- Strings as lists of bytes: src/simple_socket/util/string_utils.hpp, and the searches and number
-- conversions of the standard library that the text protocols use.
pub mod Search
pub mod Trim
pub mod Lines
pub mod Numbers
use Prim.Native.Char.{code}
use Prim.Native.String.{String}
use simple_socket.Prelude.{
  ℕ, zero, suc, ◌+◌, ◌-◌, ◌*◌, ◌%◌, ◌^◌, ◌≤◌, ◌<◌, Bool, true, false, ◌&&◌, ◌||◌, Option, none,
  some, List, [], ◌∷◌, ◌≡◌, ◌≢◌, ◌==◌, if◌then◌else◌, ltb, leb, map, drop, Bool-cases, inl, inr,
  refl, ap, ◌∙◌, sym, arith, length,
}

-- The bytes of a literal, all of which are ASCII.
abbrev pub codes : String → List ℕ
codes String.[] = []
codes (String.◌∷◌ c s) = code c ∷ codes s

-- Equality of strings.
abbrev pub same : List ℕ → List ℕ → Bool
same [] [] = true
same [] (y ∷ ys) = false
same (x ∷ xs) [] = false
same (x ∷ xs) (y ∷ ys) = (x == y) && same xs ys

pub same_refl : (xs : List ℕ) → same xs xs ≡ true
same_refl [] = refl
same_refl (x ∷ xs) = ground (arith, same_refl xs)

pub same→≡ : (xs ys : List ℕ) → same xs ys ≡ true → xs ≡ ys
same→≡ [] [] e = refl
same→≡ [] (y ∷ ys) e = absurd (ground (arith, e))
same→≡ (x ∷ xs) [] e = absurd (ground (arith, e))
same→≡ (x ∷ xs) (y ∷ ys) e = elim (Bool-cases (x == y)) [
  | inl head ↦
      let tail : same xs ys ≡ true = ap (λ b. b && same xs ys) (sym head) ∙ e in
      ground (arith, head, same→≡ xs ys tail)
  | inr apart ↦ absurd (ground (arith, apart, e))
]

pub same-false : (xs ys : List ℕ) → xs ≢ ys → same xs ys ≡ false
same-false xs ys apart = elim (Bool-cases (same xs ys)) [
  | inl e ↦ absurd (apart (same→≡ xs ys e))
  | inr e ↦ e
]

-- `unordered_map` with strings as keys, as a function from the keys.
abbrev pub Map : Type 0 → Type 0
Map A = List ℕ → Option A

abbrev pub put : {A : Type 0} → Map A → List ℕ → A → Map A
put m t v u = if same u t then some v else m u

abbrev pub nothing : {A : Type 0} → Map A
nothing t = none

abbrev pub is_empty : List ℕ → Bool
is_empty [] = true
is_empty (x ∷ xs) = false

-- `s.rfind(p, 0) == 0`, and `s.substr(0, p.size()) == p`.
abbrev pub starts_with : List ℕ → List ℕ → Bool
starts_with [] xs = true
starts_with (p ∷ ps) [] = false
starts_with (p ∷ ps) (x ∷ xs) = (p == x) && starts_with ps xs

abbrev pub next_index : Option ℕ → Option ℕ
next_index none = none
next_index (some i) = some (suc i)

-- `s.find(p)`, where `none` is `npos`.
unfoldable pub find : List ℕ → List ℕ → Option ℕ
find p [] = if is_empty p then some 0 else none
find p (x ∷ xs) =
    let later = next_index (find p xs) in if starts_with p (x ∷ xs) then some 0 else later

abbrev pub contains : List ℕ → List ℕ → Bool
contains p xs = elim (find p xs) [ none ↦ false | some i ↦ true ]

-- `s.find(c)` of one character.
unfoldable pub index_of : ℕ → List ℕ → Option ℕ
index_of c [] = none
index_of c (x ∷ xs) = let later = next_index (index_of c xs) in if x == c then some 0 else later

-- `s.rfind(p, pos)`: the last place up to `pos`.
unfoldable pub rfind : List ℕ → List ℕ → ℕ → Option ℕ
rfind p xs zero = if starts_with p xs then some 0 else none
rfind p xs (suc pos) =
    let earlier = rfind p xs pos in
    if starts_with p (drop (suc pos) xs) then some (suc pos) else earlier

-- `std::isspace` and `std::tolower` of the C locale.
unfoldable pub is_space : ℕ → Bool
is_space c = (leb 9 c && leb c 13) || (c == b' ')

unfoldable pub lower : ℕ → ℕ
lower c = if leb b'A' c && leb c b'Z' then c + 32 else c

abbrev pub to_lower : List ℕ → List ℕ
to_lower s = map lower s

unfoldable pub ltrim : List ℕ → List ℕ
ltrim [] = []
ltrim (c ∷ s) = let rest = ltrim s in if is_space c then rest else c ∷ s

unfoldable pub rtrim : List ℕ → List ℕ
rtrim [] = []
rtrim (c ∷ s) = let rest = rtrim s in if is_space c && is_empty rest then [] else c ∷ rest

unfoldable pub trim : List ℕ → List ℕ
unfolding ltrim rtrim
trim s = rtrim (ltrim s)

abbrev pub crlf : List ℕ
crlf = codes "\r\n"

abbrev pub blank_line : List ℕ
blank_line = codes "\r\n\r\n"
