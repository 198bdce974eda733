-- ===== src/Ws/Handshake/Reads.antt =====
-- `readHttpHeaderBlock`: its loop ends, and over any byte stream it stops at the blank line.
use simple_socket.Connection.Rounds.{read-cases}
use simple_socket.Connection.{Reader, IsStream}
use simple_socket.Prelude.{
  ℕ, zero, suc, ◌+◌, ◌≤◌, ◌<◌, ◌≡◌, inl, inr, refl, sym, ap, ◌∙◌, false, none, some, List, [], ◌∷◌,
  ◌++◌, append_assoc, append-nil, if◌then◌else◌, ltb, length, Outcome, ok, throw, socket_error,
  length-append, Bool-cases, Option-cases, arith,
}
use simple_socket.Text.Search.{find-append, find-append_inv}
use simple_socket.Text.{find, blank_line}
use simple_socket.Ws.Handshake.{max_bytes, header_rounds, read_http_header_block}

module _ {S : Type 0} (c : Reader S) where
  -- What a round does with the bytes it got.
  abbrev after_read : ℕ → List ℕ → S → List ℕ → Outcome (List ℕ × S)
  after_read rounds raw s' [] = throw socket_error
  after_read rounds raw s' (b ∷ bs) =
      if ltb max_bytes (length (raw ++ b ∷ bs))
      then throw socket_error
      else header_rounds c rounds (raw ++ b ∷ bs) s'

  round :
      (rounds : ℕ) (raw : List ℕ) (s : S)
      → find blank_line raw ≡ none
      → header_rounds c (suc rounds) raw s
        ≡ after_read rounds raw (c.read s 1024).1 (c.read s 1024).0
  unfolding header_rounds
  round rounds raw s e = rw (e, header_rounds) (cases (c.read s 1024).0)
    where
      cases :
          (got : List ℕ)
          → (elim got as (λ _. Outcome (List ℕ × S)) [
            | [] ↦ throw socket_error
            | b ∷ bs ↦
                if ltb max_bytes (length (raw ++ b ∷ bs))
                then throw socket_error
                else header_rounds c rounds (raw ++ b ∷ bs) (c.read s 1024).1
          ])
            ≡ after_read rounds raw (c.read s 1024).1 got
      cases [] = refl
      cases (b ∷ bs) = refl

  after_read_end :
      (m n : ℕ) (raw : List ℕ) (s' : S) (got : List ℕ)
      → ((raw' : List ℕ)
          → length raw < length raw'
          → length raw' ≤ max_bytes
          → header_rounds c m raw' s' ≡ header_rounds c n raw' s')
      → after_read m raw s' got ≡ after_read n raw s' got
  after_read_end m n raw s' [] ih = refl
  after_read_end m n raw s' (b ∷ bs) ih =
      elim (Bool-cases (ltb max_bytes (length (raw ++ b ∷ bs)))) [
        | inl long ↦ rw long refl
        | inr fits ↦
            rw fits (
              ih (raw ++ b ∷ bs) (omega (arith, length-append raw (b ∷ bs))) (ground (arith, fits)))
      ]

  -- The loop of `readHttpHeaderBlock` ends by itself, whatever the connection brings: each round adds
  -- a byte at least, and from more than `max_bytes` none goes on. More rounds make no difference.
  pub header_rounds_end :
      (m n : ℕ) (raw : List ℕ) (s : S)
      → length raw ≤ max_bytes
      → max_bytes < length raw + m
      → max_bytes < length raw + n
      → header_rounds c m raw s ≡ header_rounds c n raw s
  unfolding header_rounds
  header_rounds_end zero n raw s short p q = absurd (omega arith)
  header_rounds_end (suc m) zero raw s short p q = absurd (omega arith)
  header_rounds_end (suc m) (suc n) raw s short p q = elim (Option-cases (find blank_line raw)) [
    | inr (i, e) ↦ rw (e, header_rounds) refl
    | inl e ↦
        round m raw s e
        ∙ after_read_end m n raw (c.read s 1024).1 (c.read s 1024).0 (λ raw' more short'.
          header_rounds_end m n raw' (c.read s 1024).1 short' (omega arith) (omega arith))
        ∙ sym (round n raw s e)
  ]

module _ {S : Type 0} {c : Reader S} {pending : S → List ℕ} {IsValid : S → Type 0}
    (stream : IsStream c pending IsValid) (bytes : List ℕ) (i : ℕ)
    (found : find blank_line bytes ≡ some i) (small : i + 4 + 1024 ≤ max_bytes) where
  -- A block that ends at `i` was read, with what came along behind it.
  abbrev pub Block : Outcome (List ℕ × S) → Type 0
  Block r =
      (raw : List ℕ) × (s : S) × (r ≡ ok (raw, s))
      × (find blank_line raw ≡ some i)
      × (raw ++ pending s ≡ bytes)
      × IsValid s

  header_rounds-Block :
      (rounds : ℕ) (raw : List ℕ) (s : S)
      → IsValid s
      → raw ++ pending s ≡ bytes
      → length raw ≤ max_bytes
      → max_bytes < length raw + rounds
      → Block (header_rounds c rounds raw s)
  unfolding header_rounds
  header_rounds-Block zero raw s v joins short enough = absurd (omega arith)
  header_rounds-Block (suc rounds) raw s v joins short enough =
      elim (Option-cases (find blank_line raw)) [
        | inr (j, e) ↦
            let whole =
              ap (find blank_line) (sym joins) ∙ find-append blank_line raw (pending s) j e in
            (raw, s, rw (e, header_rounds) refl, e ∙ sym whole ∙ found, joins, v)
        | inl e ↦
            let unfinished : length raw < i + 4 = elim (Bool-cases (ltb (length raw) (i + 4))) [
              | inl less ↦ ground (arith, less)
              | inr full ↦
                  let inside =
                    find-append_inv blank_line raw (pending s) i
                      (ap (find blank_line) joins ∙ found) (ground (arith, full)) in
                  absurd (ground (arith, e, inside))
            ] in
            elim (read-cases stream s 1024 v (omega arith)) [
              | inl (none_left, ended) ↦
                  let all = sym (append-nil raw) ∙ ap (◌++◌ raw) (sym ended) ∙ joins in
                  absurd (ground (arith, e, ap (find blank_line) all, found))
              | inr (b, bs, (got, order, fits, less, v')) ↦
                  let s' = (c.read s 1024).1 in
                  let len = length-append raw (b ∷ bs) in
                  let not_long : ltb max_bytes (length (raw ++ b ∷ bs)) ≡ false =
                    ground (arith, len, fits, unfinished, small) in
                  let (raw', s'', done, at, joins', v'') =
                    header_rounds-Block rounds (raw ++ b ∷ bs) s' v'
                      (append_assoc raw (b ∷ bs) (pending s') ∙ ap (◌++◌ raw) (sym order) ∙ joins)
                      (omega (arith, len, unfinished, small)) (omega (arith, len)) in
                  (raw', s'', round c rounds raw s e ∙ rw (got, not_long) done, at, joins', v'')
            ]
      ]

  -- Over every byte stream, however it cuts its bytes into reads: a block of headers that ends 1024
  -- bytes before the limit at least is read up to the blank line, and the bytes that came with its
  -- last read are gone from the stream.
  pub read_http_header_block-Block :
      (s : S) → IsValid s → pending s ≡ bytes → Block (read_http_header_block c s)
  unfolding read_http_header_block
  read_http_header_block-Block s v is =
      header_rounds-Block (suc (suc max_bytes)) [] s v is (omega arith) (omega arith)
