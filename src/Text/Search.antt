-- ===== src/Text/Search.antt =====
-- Laws of the searches: what stands behind the place found does not matter.
use simple_socket.Prelude.{
  ℕ, suc, ◌+◌, ◌≤◌, true, ◌&&◌, none, some, List, [], ◌∷◌, ◌++◌, ◌≡◌, refl, ap, ◌==◌, length,
  Bool-cases, Option-cases, inl, inr, arith, ◌≢◌,
}
use simple_socket.Text.{starts_with, find}

pub starts_with-append :
    (p xs ys : List ℕ) → length p ≤ length xs → starts_with p (xs ++ ys) ≡ starts_with p xs
starts_with-append [] xs ys h = refl
starts_with-append (p ∷ ps) [] ys h = absurd (omega arith)
starts_with-append (p ∷ ps) (x ∷ xs) ys h =
    ap (◌&&◌ (p == x)) (starts_with-append ps xs ys (omega arith))

starts_with-fits : (p xs : List ℕ) → starts_with p xs ≡ true → length p ≤ length xs
starts_with-fits [] xs e = omega arith
starts_with-fits (p ∷ ps) [] e = absurd (ground (arith, e))
starts_with-fits (p ∷ ps) (x ∷ xs) e = elim (Bool-cases (starts_with ps xs)) [
  | inl rest ↦ ground (arith, starts_with-fits ps xs rest)
  | inr e₀ ↦ absurd (ground (arith, e, e₀))
]

some_ne_none : {A : Type 0} (a : A) → some a ≢ none
some_ne_none a e = absurd (ground (arith, e))

pub find-fits : (p xs : List ℕ) (i : ℕ) → find p xs ≡ some i → i + length p ≤ length xs
unfolding find
find-fits [] [] i e = ground (arith, e)
find-fits (p ∷ ps) [] i e = absurd (ground (arith, e))
find-fits p (x ∷ xs) i e = elim (Bool-cases (starts_with p (x ∷ xs))) [
  | inl here ↦ ground (arith, starts_with-fits p (x ∷ xs) here)
  | inr apart ↦ elim (Option-cases (find p xs)) [
    | inl e₀ ↦ absurd (ground (arith, e, apart, e₀))
    | inr (j, later) ↦ ground (arith, e, apart, later, find-fits p xs j later)
  ]
]

-- A match in a prefix is the match in the whole.
pub find-append : (p xs ys : List ℕ) (i : ℕ) → find p xs ≡ some i → find p (xs ++ ys) ≡ some i
unfolding find
find-append p [] [] i e = e
find-append [] [] (y ∷ ys) i e = e
find-append (p ∷ ps) [] (y ∷ ys) i e = absurd (ground (arith, e))
find-append p (x ∷ xs) ys i e =
    let same_start = starts_with-append p (x ∷ xs) ys in
    elim (Bool-cases (starts_with p (x ∷ xs))) [
      | inl here ↦ ground (arith, same_start (starts_with-fits p (x ∷ xs) here), here, e)
      | inr apart ↦ elim (Option-cases (find p xs)) [
        | inl e₀ ↦ absurd (ground (arith, e, apart, e₀))
        | inr (j, later) ↦
            let fits = find-fits p xs j later in
            ground (arith, same_start (omega arith), apart, e, later, find-append p xs ys j later)
      ]
    ]

-- A match in the whole that ends in a prefix is a match in the prefix.
pub find-append_inv :
    (p xs ys : List ℕ) (i : ℕ)
    → find p (xs ++ ys) ≡ some i
    → i + length p ≤ length xs
    → find p xs ≡ some i
unfolding find
find-append_inv [] [] [] i e fits = e
find-append_inv [] [] (y ∷ ys) i e fits = e
find-append_inv (p ∷ ps) [] ys i e fits = absurd (omega arith)
find-append_inv p (x ∷ xs) ys i e fits = elim (Bool-cases (starts_with p (x ∷ xs ++ ys))) [
  | inl here ↦
      let zero_at : i ≡ 0 = ground (arith, e, here) in
      ground (arith, starts_with-append p (x ∷ xs) ys (omega arith), here, zero_at)
  | inr apart ↦ elim (Option-cases (find p (xs ++ ys))) [
    | inl e₀ ↦ absurd (ground (arith, e, apart, e₀))
    | inr (j, later) ↦
        let after : i ≡ suc j = ground (arith, e, apart, later) in
        ground (
          arith,
          starts_with-append p (x ∷ xs) ys (omega arith),
          apart,
          after,
          find-append_inv p xs ys j later (omega arith),
        )
  ]
]
