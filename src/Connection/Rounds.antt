-- ===== src/Connection/Rounds.antt =====
-- What a round of a loop over `read` sees of any byte stream.
use simple_socket.Connection.{Reader, IsStream}
use simple_socket.Prelude.{
  ℕ, ◌≤◌, ◌<◌, ◌≡◌, ◌⊎◌, inl, inr, refl, ap, ◌∙◌, List, [], ◌∷◌, ◌++◌, length, length-append, arith,
}

module _ {S : Type 0} {c : Reader S} {pending : S → List ℕ} {IsValid : S → Type 0}
    (stream : IsStream c pending IsValid) (s : S) (n : ℕ) (v : IsValid s) (some_room : 0 < n) where
  -- The bytes `got` that a read brought, and what is left.
  abbrev pub Brought : ℕ → List ℕ → Type 0
  Brought b bs =
      ((c.read s n).0 ≡ b ∷ bs)
      × (pending s ≡ (b ∷ bs) ++ pending (c.read s n).1)
      × (length (b ∷ bs) ≤ n)
      × (length (pending (c.read s n).1) < length (pending s))
      × IsValid (c.read s n).1

  by_bytes :
      (got : List ℕ)
      → (c.read s n).0 ≡ got
      → (((c.read s n).0 ≡ []) × (pending s ≡ [])) ⊎ ((b : ℕ) × (bs : List ℕ) × Brought b bs)
  by_bytes [] e = inl (e, stream.ends s n v some_room e)
  by_bytes (b ∷ bs) e =
      let s' = (c.read s n).1 in
      let order = stream.in_order s n v ∙ ap (λ xs. xs ++ pending s') e in
      inr (
        b,
        bs,
        (
          e,
          order,
          omega (arith, ap length e, stream.bounded s n v),
          omega (arith, ap length order, length-append (b ∷ bs) (pending s')),
          stream.keeps s n v,
        ),
      )

  -- A read brings bytes, or the stream has ended.
  pub read-cases :
      (((c.read s n).0 ≡ []) × (pending s ≡ [])) ⊎ ((b : ℕ) × (bs : List ℕ) × Brought b bs)
  read-cases = by_bytes (c.read s n).0 refl
