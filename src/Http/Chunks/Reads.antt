-- ===== src/Http/Chunks/Reads.antt =====
-- What `readMore`, `readLineCRLF` and `ensureN` do over any byte stream: they see the bytes `whole` of
-- the body, however these are cut into reads.
use simple_socket.Connection.Rounds.{read-cases}
use simple_socket.Connection.{Reader, IsStream}
use simple_socket.Http.Chunks.{read_more, read_line_crlf, ensure_n}
use simple_socket.Prelude.{
  ℕ, zero, suc, ◌+◌, ◌≤◌, ◌<◌, ◌≡◌, ◌⊎◌, inl, inr, refl, sym, ap, ◌∙◌, Option, none, some, List, [],
  ◌∷◌, ◌++◌, append_assoc, append-nil, ltb, length, take, drop, length-append, length-drop,
  drop-append_short, take-append_short, Bool-cases, Option-cases, ltb→lt, arith,
}
use simple_socket.Text.{find, crlf}
use simple_socket.Text.Search.{find-append, find-fits}

module _ {S : Type 0} {c : Reader S} {pending : S → List ℕ} {IsValid : S → Type 0}
    (stream : IsStream c pending IsValid) where
  abbrev pub More : List ℕ → S → List ℕ × S → Type 0
  More stash s (stash', s') =
      (stash' ++ pending s' ≡ stash ++ pending s)
      × (length stash < length stash')
      × (length (pending s') < length (pending s))
      × IsValid s'

  -- A read brings bytes, or the stream has ended.
  pub read_more-cases :
      (stash : List ℕ) (s : S)
      → IsValid s
      → ((read_more c stash s ≡ none) × (pending s ≡ []))
        ⊎ ((r : List ℕ × S) × (read_more c stash s ≡ some r) × More stash s r)
  unfolding read_more
  read_more-cases stash s v = elim (read-cases stream s 4096 v (omega arith)) [
    | inl (e, ended) ↦ inl (rw (e, read_more) refl, ended)
    | inr (b, bs, (e, order, fits, less, v')) ↦
        let s' = (c.read s 4096).1 in
        inr (
          (stash ++ b ∷ bs, s'),
          rw (e, read_more) refl,
          (
            append_assoc stash (b ∷ bs) (pending s') ∙ ap (◌++◌ stash) (sym order),
            omega (arith, length-append stash (b ∷ bs)),
            less,
            v',
          ),
        )
  ]

  -- The stash holds the front of `whole`, the rest is still to come.
  abbrev pub Holds : List ℕ → ℕ → List ℕ → S → Type 0
  Holds whole off stash s = (stash ++ pending s ≡ whole) × (off ≤ length stash) × IsValid s

  abbrev pub ReadsLine : List ℕ → ℕ → Option (List ℕ × ℕ × List ℕ × S) → Type 0
  ReadsLine whole off none = find crlf (drop off whole) ≡ none
  ReadsLine whole off (some (line, off', stash', s')) =
      (i : ℕ) × (find crlf (drop off whole) ≡ some i)
      × (line ≡ take i (drop off whole))
      × (off' ≡ off + i + 2)
      × Holds whole off' stash' s'

  read_line_here :
      (rounds : ℕ) (whole stash : List ℕ) (off : ℕ) (s : S) (i : ℕ)
      → Holds whole off stash s
      → find crlf (drop off stash) ≡ some i
      → ReadsLine whole off (read_line_crlf c (suc rounds) stash off s)
  unfolding read_line_crlf
  read_line_here rounds whole stash off s i (joins, inside, v) e =
      let rest : drop off whole ≡ drop off stash ++ pending s =
        ap (drop off) (sym joins) ∙ drop-append_short off stash (pending s) inside in
      let fits = find-fits crlf (drop off stash) i e in
      rw (e, read_line_crlf)
        (
          i,
          ap (find crlf) rest ∙ find-append crlf (drop off stash) (pending s) i e,
          sym (ap (take i) rest ∙ take-append_short i (drop off stash) (pending s) (omega arith)),
          refl,
          (joins, omega (arith, length-drop off stash), v),
        )

  pub read_line_crlf-ReadsLine :
      (rounds : ℕ) (whole stash : List ℕ) (off : ℕ) (s : S)
      → length (pending s) < rounds
      → Holds whole off stash s
      → ReadsLine whole off (read_line_crlf c rounds stash off s)
  unfolding read_line_crlf
  read_line_crlf-ReadsLine zero whole stash off s enough h = absurd (omega arith)
  read_line_crlf-ReadsLine (suc rounds) whole stash off s enough (joins, inside, v) =
      elim (Option-cases (find crlf (drop off stash))) [
        | inr (i, e) ↦ read_line_here rounds whole stash off s i (joins, inside, v) e
        | inl e ↦ elim (read_more-cases stash s v) [
          | inl (over, ended) ↦
              let all : stash ≡ whole =
                sym (append-nil stash) ∙ ap (◌++◌ stash) (sym ended) ∙ joins in
              rw (e, read_line_crlf, over) (ap (λ xs. find crlf (drop off xs)) (sym all) ∙ e)
          | inr ((stash', s'), got, (order, longer, shorter, v')) ↦
              rw (e, read_line_crlf, got)
                (read_line_crlf-ReadsLine rounds whole stash' off s' (omega arith)
                  (order ∙ joins, omega arith, v'))
        ]
      ]

  abbrev pub Ensures : List ℕ → ℕ → ℕ → Option (List ℕ × S) → Type 0
  Ensures whole off need none = length whole < need
  Ensures whole off need (some (stash', s')) = (need ≤ length stash') × Holds whole off stash' s'

  pub ensure_n-Ensures :
      (rounds : ℕ) (whole stash : List ℕ) (off need : ℕ) (s : S)
      → length (pending s) < rounds
      → Holds whole off stash s
      → Ensures whole off need (ensure_n c rounds stash s need)
  unfolding ensure_n
  ensure_n-Ensures zero whole stash off need s enough h = absurd (omega arith)
  ensure_n-Ensures (suc rounds) whole stash off need s enough (joins, inside, v) =
      elim (Bool-cases (ltb (length stash) need)) [
        | inr e ↦ rw (e, ensure_n) (ground (arith, e), (joins, inside, v))
        | inl e ↦ elim (read_more-cases stash s v) [
          | inl (over, ended) ↦
              let all : stash ≡ whole =
                sym (append-nil stash) ∙ ap (◌++◌ stash) (sym ended) ∙ joins in
              rw (e, ensure_n, over) (omega (arith, ltb→lt _ _ e, ap length all))
          | inr ((stash', s'), got, (order, longer, shorter, v')) ↦
              rw (e, ensure_n, got)
                (ensure_n-Ensures rounds whole stash' off need s' (omega arith)
                  (order ∙ joins, omega arith, v'))
        ]
      ]
