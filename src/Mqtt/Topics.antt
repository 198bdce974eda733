-- ===== src/Mqtt/Topics.antt =====
-- Topic names, and the standard containers that the broker and the client keep by topic:
-- `unordered_map` as a function from the keys, `unordered_set` and `vector` as lists.
pub use simple_socket.Text.{same, same_refl, same→≡, same-false, Map, put}
use simple_socket.Prelude.{
  ℕ, ◌≡◌, refl, ap, Bool, true, false, ◌||◌, none, List, [], ◌∷◌, ◌==◌, if◌then◌else◌, arith,
  Bool-cases, inl, inr, ◌≢◌, All,
}

abbrev pub Topic : Type 0
Topic = List ℕ

-- `set.contains`, `set.insert` and `set.erase`.
abbrev pub holds : List Topic → Topic → Bool
holds [] t = false
holds (u ∷ us) t = same t u || holds us t

abbrev pub insert : List Topic → Topic → List Topic
insert us t = if holds us t then us else t ∷ us

abbrev pub without : List Topic → Topic → List Topic
without [] t = []
without (u ∷ us) t = let rest = without us t in if same t u then rest else u ∷ rest

-- `std::erase(vec, c)`: all occurrences.
abbrev pub erase : List ℕ → ℕ → List ℕ
erase [] c = []
erase (x ∷ xs) c = let rest = erase xs c in if x == c then rest else x ∷ rest

module _ {A : Type 0} where
  abbrev pub removed : Map A → Topic → Map A
  removed m t u = if same u t then none else m u

-- Their laws.
pub holds-insert :
    (us : List Topic) (t u : Topic) → holds us u ≡ true → holds (insert us t) u ≡ true
holds-insert us t u h = ground (arith, h)

pub holds-insert_same : (us : List Topic) (t : Topic) → holds (insert us t) t ≡ true
holds-insert_same us t = ground (arith, same_refl t)

pub holds-without :
    (us : List Topic) (t u : Topic) → same t u ≡ false → holds us u ≡ holds (without us t) u
holds-without [] t u h = refl
holds-without (w ∷ us) t u h = elim (Bool-cases (same t w)) [
  | inl e ↦
      let apart : same u w ≡ false =
        same-false u w (λ e'. ground (arith, e, h, ap (λ x. same t x) e')) in
      ground (arith, e, apart, holds-without us t u h)
  | inr e ↦ ground (arith, e, holds-without us t u h)
]

pub erase_twice : (xs : List ℕ) (c : ℕ) → erase (erase xs c) c ≡ erase xs c
erase_twice [] c = refl
erase_twice (x ∷ xs) c = ground (arith, erase_twice xs c)

pub All-erase {κ} :
    (P : ℕ → Type κ) (xs : List ℕ) (c : ℕ) → All P xs → All (λ x. P x × (x ≢ c)) (erase xs c)
All-erase P [] c h = h
All-erase P (x ∷ xs) c (hx, h) = elim (Bool-cases (x == c)) [
  | inl e ↦ rw e (All-erase P xs c h)
  | inr e ↦ rw e ((hx, λ same. ground (arith, e, same)), All-erase P xs c h)
]
