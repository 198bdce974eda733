-- ===== src/Http/Chunks/Trailer.antt =====
-- The lines behind the last chunk, over any byte stream.
use simple_socket.Connection.{Reader, IsStream}
use simple_socket.Http.Chunks.{read_line_crlf, skip_trailer}
use simple_socket.Http.Chunks.Reads.{Holds, ReadsLine, read_line_crlf-ReadsLine}
use simple_socket.Prelude.{
  ℕ, zero, suc, ◌+◌, ◌≤◌, ◌<◌, ◌≡◌, refl, sym, ap, ◌∙◌, true, Option, none, some, List,
  if◌then◌else◌, length, take, drop, length-append, length-drop, drop-drop, arith,
}
use simple_socket.Text.{find, crlf, is_empty}
use simple_socket.Text.Search.{find-fits}
use simple_socket.Http.Chunks.Reference.{trailer_ends}

module _ {S : Type 0} {c : Reader S} {pending : S → List ℕ} {IsValid : S → Type 0}
    (stream : IsStream c pending IsValid) (rounds : ℕ) (whole : List ℕ)
    (enough : length whole < rounds) where
  pub few_left :
      (stash : List ℕ) (off : ℕ) (s : S)
      → Holds stream whole off stash s
      → length (pending s) < rounds
  few_left stash off s (joins, inside, v) =
      omega (arith, enough, ap length (sym joins), length-append stash (pending s))

  pub inside_whole :
      (stash : List ℕ) (off : ℕ) (s : S) → Holds stream whole off stash s → off ≤ length whole
  inside_whole stash off s (joins, inside, v) =
      omega (arith, ap length (sym joins), length-append stash (pending s))

  pub line_at :
      (stash : List ℕ) (off : ℕ) (s : S)
      → Holds stream whole off stash s
      → ReadsLine stream whole off (read_line_crlf c rounds stash off s)
  line_at stash off s h =
      read_line_crlf-ReadsLine stream rounds whole stash off s (few_left stash off s h) h

  pub after_line :
      (off i : ℕ)
      → find crlf (drop off whole) ≡ some i
      → (drop (i + 2) (drop off whole) ≡ drop (off + i + 2) whole)
        × (length (drop (off + i + 2) whole) + i + 2 ≡ length (drop off whole))
  after_line off i e =
      let fits = find-fits crlf (drop off whole) i e in
      let sum : off + (i + 2) ≡ off + i + 2 = omega arith in
      (
        drop-drop off (i + 2) whole ∙ ap (λ n. drop n whole) sum,
        omega (arith, fits, length-drop off whole, length-drop (off + i + 2) whole),
      )

  trailer_line :
      (f g off : ℕ) (stash : List ℕ) (s : S) (r : Option (List ℕ × ℕ × List ℕ × S))
      → read_line_crlf c rounds stash off s ≡ r
      → ReadsLine stream whole off r
      → length (drop off whole) < suc f
      → length (drop off whole) < suc g
      → ((off' : ℕ) (stash' : List ℕ) (s' : S)
          → Holds stream whole off' stash' s'
          → length (drop off' whole) < f
          → length (drop off' whole) < g
          → skip_trailer c rounds f stash' off' s' ≡ trailer_ends g (drop off' whole))
      → skip_trailer c rounds (suc f) stash off s ≡ trailer_ends (suc g) (drop off whole)
  unfolding skip_trailer trailer_ends
  trailer_line f g off stash s none e h p q ih = rw (e, skip_trailer, h, trailer_ends) refl
  trailer_line f g off stash s (some (line, off', stash', s')) e (i, at, is, moved, h) p q ih =
      let (body, less) = after_line off i at in
      let shift = ap (λ n. length (drop n whole)) moved in
      rw (e, skip_trailer, at, trailer_ends, is, body, ← moved)
        (ap (λ b. if is_empty (take i (drop off whole)) then true else b)
          (ih off' stash' s' h (omega (arith, less, p, shift)) (omega (arith, less, q, shift))))

  pub skip_trailer-trailer_ends :
      (f g off : ℕ) (stash : List ℕ) (s : S)
      → Holds stream whole off stash s
      → length (drop off whole) < f
      → length (drop off whole) < g
      → skip_trailer c rounds f stash off s ≡ trailer_ends g (drop off whole)
  skip_trailer-trailer_ends zero g off stash s h p q = absurd (omega arith)
  skip_trailer-trailer_ends (suc f) zero off stash s h p q = absurd (omega arith)
  skip_trailer-trailer_ends (suc f) (suc g) off stash s h p q =
      trailer_line f g off stash s (read_line_crlf c rounds stash off s) refl
        (line_at stash off s h) p q
        λ off' stash' s' h' p' q'. skip_trailer-trailer_ends f g off' stash' s' h' p' q'
