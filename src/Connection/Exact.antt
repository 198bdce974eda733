-- ===== src/Connection/Exact.antt =====
-- What `readExact` does over any byte stream.
use simple_socket.Prelude.{
  ℕ, zero, suc, ◌-◌, ◌≤◌, ◌≡◌, refl, sym, ap, ◌∙◌, Bool, true, List, [], ◌∷◌, ◌++◌, leb, length,
  length-append, take, drop, take-append_right, drop-append_right, take-append_left,
  drop-append_left, arith,
}
use simple_socket.Connection.{Reader, IsStream, read_loop, read_exact}

-- The results of a read of `n` bytes from a stream with `xs` to come.
abbrev pub Delivers :
    {S : Type 0} → (S → List ℕ) → (S → Type 0) → List ℕ → ℕ → Bool × List ℕ × S → Type 0
Delivers pending IsValid xs n (done, got, s') =
    (done ≡ leb n (length xs)) × (got ≡ take n xs) × (pending s' ≡ drop n xs) × IsValid s'

module _ {S : Type 0} {c : Reader S} {pending : S → List ℕ} {IsValid : S → Type 0}
    (stream : IsStream c pending IsValid) where
  module _ (fuel n : ℕ)
      (ih : (s : S) (k : ℕ)
        → IsValid s
        → k ≤ fuel
        → Delivers pending IsValid (pending s) k (read_loop c fuel s k)) where
    after_read :
        (s : S) (got : List ℕ)
        → (c.read s (suc n)).0 ≡ got
        → IsValid (c.read s (suc n)).1
        → n ≤ fuel
        → length got ≤ suc n
        → pending s ≡ got ++ pending (c.read s (suc n)).1
        → (got ≡ [] → pending s ≡ [])
        → Delivers pending IsValid (pending s) (suc n) (read_loop c (suc fuel) s (suc n))
    unfolding read_loop
    after_read s [] e v h short order over =
        let none_left = over refl in
        rw (e, read_loop, none_left) (ground arith, refl, sym order ∙ none_left, v)
    after_read s (b ∷ bs) e v h short order over =
        let (done, got, next, v') =
          ih (c.read s (suc n)).1 (suc n - length (b ∷ bs)) v (omega arith) in
        let rest = pending (c.read s (suc n)).1 in
        rw (e, read_loop, order)
          (
            done ∙ ground (arith, length-append (b ∷ bs) rest),
            ap (◌++◌ (b ∷ bs)) got ∙ sym (take-append_right (suc n) (b ∷ bs) rest short),
            next ∙ sym (drop-append_right (suc n) (b ∷ bs) rest short),
            v',
          )

  read_loop-Delivers :
      (fuel : ℕ) (s : S) (n : ℕ)
      → IsValid s
      → n ≤ fuel
      → Delivers pending IsValid (pending s) n (read_loop c fuel s n)
  unfolding read_loop
  read_loop-Delivers fuel s zero v h = (ground arith, refl, refl, v)
  read_loop-Delivers zero s (suc n) v h = absurd (omega arith)
  read_loop-Delivers (suc fuel) s (suc n) v h =
      after_read fuel n (read_loop-Delivers fuel) s (c.read s (suc n)).0 refl
        (stream.keeps s (suc n) v) (omega arith) (stream.bounded s (suc n) v)
        (stream.in_order s (suc n) v) (stream.ends s (suc n) v (omega arith))

  -- Over every byte stream, however it cuts its bytes into reads: `readExact` succeeds exactly when
  -- `n` bytes are still to come, and the buffer then holds the next `n` bytes, in order; when it
  -- fails the buffer holds all that was left. What was not asked for stays in the stream.
  pub read_exact-Delivers :
      (s : S) (n : ℕ) → IsValid s → Delivers pending IsValid (pending s) n (read_exact c s n)
  unfolding read_exact
  read_exact-Delivers s n v = read_loop-Delivers n s n v (omega arith)

  -- The same where the bytes that are asked for stand in front.
  pub read_exact_front :
      (s : S) (xs ys : List ℕ)
      → IsValid s
      → pending s ≡ xs ++ ys
      → (s' : S) × (read_exact c s (length xs) ≡ (true, xs, s')) × (pending s' ≡ ys) × IsValid s'
  read_exact_front s xs ys v e =
      let (done, got, next, v') = read_exact-Delivers s (length xs) v in
      (
        (read_exact c s (length xs)).2,
        ground (arith, done, got, e, length-append xs ys, take-append_left xs ys),
        next ∙ rw e (drop-append_left xs ys),
        v',
      )
