-- ===== src/Http/Chunks/Whole.antt =====
-- `decodeChunked` over any byte stream decodes the bytes of the body as a whole.
use simple_socket.Connection.{Reader, IsStream}
use simple_socket.Http.Chunks.{strip_extensions, read_line_crlf, ensure_n, decode_chunked}
use simple_socket.Http.Chunks.Ends.{
  before, before-before, before_if, before-sized, before_end, chunk_end, chunk_here,
}
use simple_socket.Http.Chunks.Sizes.{sized, sized-lacks, sized-has}
use simple_socket.Http.Chunks.Reads.{Holds, ReadsLine, Ensures, ensure_n-Ensures}
use simple_socket.Prelude.{
  ℕ, zero, suc, ◌+◌, ◌%◌, ◌^◌, ◌≤◌, ◌<◌, ◌≡◌, refl, sym, ap, ◌∙◌, Option, none, some, List, ◌++◌,
  if◌then◌else◌, ltb, length, take, drop, Outcome, ok, fault, elem, ◌>>=◌, ◌==◌, length-append,
  length-drop, drop-drop, arith,
}
use simple_socket.Text.{find, crlf, starts_with}
use simple_socket.Text.Numbers.{stoul, stoul-lt}
use simple_socket.Http.Chunks.Reference.{trailer_ends, unchunk}
use simple_socket.Http.Chunks.Trailer.{
  few_left, inside_whole, line_at, after_line, skip_trailer-trailer_ends,
}

module _ {S : Type 0} {c : Reader S} {pending : S → List ℕ} {IsValid : S → Type 0}
    (stream : IsStream c pending IsValid) (rounds : ℕ) (whole : List ℕ)
    (enough : length whole < rounds) where
  -- A round, from the size of a chunk on.
  module _ (short : length whole < 2 ^ 63) (f g : ℕ)
      (ih : (off : ℕ) (stash : List ℕ) (s : S) (out : List ℕ)
        → Holds stream whole off stash s
        → length (drop off whole) < f
        → length (drop off whole) < g
        → decode_chunked c rounds f stash off s out
          ≡ before out (unchunk g off (drop off whole))) where
    chunk_read :
        (off m : ℕ) (stash : List ℕ) (s : S) (out : List ℕ)
        → (stash ++ pending s ≡ whole)
        → off + suc m + 2 ≤ length stash
        → IsValid s
        → length (drop off whole) < f
        → length (drop off whole) < g
        → (elem stash (off + suc m) >>= λ cr.
            if cr == b'\r'
            then (elem stash (off + suc m + 1) >>= λ lf.
                if lf == b'\n'
                then decode_chunked c rounds f stash
                    (off + suc m + 2)
                    s
                    (out ++ take (suc m) (drop off stash))
                else ok none)
            else ok none)
          ≡ before out (
              if starts_with crlf (drop (suc m) (drop off whole))
              then before
                  (take (suc m) (drop off whole))
                  (unchunk g (off + suc m + 2) (drop (suc m + 2) (drop off whole)))
              else ok none)
    chunk_read off m stash s out joins inside v p q =
        let (same_bytes, same_end) =
          rw joins at (chunk_here stash (pending s) off (suc m) inside) in
        let next = off + suc m + 2 in
        let sum : off + (suc m + 2) ≡ next = omega arith in
        let less : length (drop next whole) < length (drop off whole) = omega (
          arith,
          length-drop off whole,
          length-drop next whole,
          length-append stash (pending s),
          ap length joins,
        ) in
        let body = drop off whole in
        let tail =
          ih next stash s (out ++ take (suc m) (drop off stash)) (joins, inside, v) (omega arith)
            (omega arith) in
        let rest = unchunk g next (drop next whole) in
        chunk_end stash (off + suc m)
          (decode_chunked c rounds f stash next s (out ++ take (suc m) (drop off stash)))
          (omega arith)
        ∙ rw
            (
              same_end,
              tail,
              same_bytes,
              ← before-before out (take (suc m) body) rest,
              drop-drop off (suc m) whole,
              drop-drop off (suc m + 2) whole,
              sum,
            )
            (before_if out (starts_with crlf (drop (off + suc m) whole))
              (before (take (suc m) body) rest))

    -- With the size read, and the result of `ensureN`.
    chunk_sized :
        (off m : ℕ) (stash : List ℕ) (s : S) (out : List ℕ) (r : Option (List ℕ × S))
        → Holds stream whole off stash s
        → suc m < 2 ^ 64
        → length (drop off whole) < f
        → length (drop off whole) < g
        → Ensures stream whole off ((off + suc m + 2) % 2 ^ 64) r
        → (elim r as (λ _. Outcome (Option (List ℕ))) [
          | none ↦ ok none
          | some (stash₂, s₂) ↦
              if ltb (length stash₂) (off + suc m)
              then fault
              else elem stash₂ (off + suc m) >>= λ cr.
                  if cr == b'\r'
                  then (elem stash₂ (off + suc m + 1) >>= λ lf.
                      if lf == b'\n'
                      then decode_chunked c rounds f stash₂
                          (off + suc m + 2)
                          s₂
                          (out ++ take (suc m) (drop off stash₂))
                      else ok none)
                  else ok none
        ])
          ≡ sized off (suc m) (length (drop off whole)) (ok none) fault (
              before out (
                if starts_with crlf (drop (suc m) (drop off whole))
                then before
                    (take (suc m) (drop off whole))
                    (unchunk g (off + suc m + 2) (drop (suc m + 2) (drop off whole)))
                else ok none))
    chunk_sized off m stash s out none h size p q lacks = sym (
        sized-lacks off (suc m) (length (drop off whole)) (ok none) fault _
          (omega (
            arith,
            inside_whole stream rounds whole enough stash off s h,
            short,
            length-drop off whole,
          ))
          size
          (omega (
            arith,
            inside_whole stream rounds whole enough stash off s h,
            lacks,
            length-drop off whole,
          )))
    chunk_sized off m stash s out (some (stash₂, s₂)) h size p q (has, (joins₂, inside₂, v₂)) =
        sized-has off (suc m) (length (drop off whole)) (ok none) fault _
          (omega (
            arith,
            inside_whole stream rounds whole enough stash off s h,
            short,
            length-drop off whole,
          ))
          size (length stash₂) _
          (omega (
            arith,
            inside_whole stream rounds whole enough stash off s h,
            length-drop off whole,
            length-append stash₂ (pending s₂),
            ap length joins₂,
          ))
          has (λ room. chunk_read off m stash₂ s₂ out joins₂ room v₂ p q)

    -- With the size line read.
    chunk_line :
        (off i : ℕ) (stash line stash' : List ℕ) (off' : ℕ) (s s' : S) (out : List ℕ)
        (size : Option ℕ)
        → read_line_crlf c rounds stash off s ≡ some (line, off', stash', s')
        → find crlf (drop off whole) ≡ some i
        → line ≡ take i (drop off whole)
        → off' ≡ off + i + 2
        → Holds stream whole off' stash' s'
        → stoul 16 (strip_extensions line) ≡ size
        → length (drop off whole) < suc f
        → length (drop off whole) < suc g
        → decode_chunked c rounds (suc f) stash off s out
          ≡ before out (unchunk (suc g) off (drop off whole))
    unfolding decode_chunked unchunk
    chunk_line off i stash line stash' off' s s' out none e at is moved h z p q =
        rw (e, decode_chunked, z, at, unchunk, ← is, z) refl
    chunk_line off i stash line stash' off' s s' out (some zero) e at is moved h z p q =
        let (body, less) = after_line stream rounds whole enough off i at in
        let shift = ap (λ n. length (drop n whole)) moved in
        let left : length (drop off' whole) < rounds =
          omega (arith, length-drop off' whole, enough) in
        rw
          (
            e,
            decode_chunked,
            z,
            at,
            unchunk,
            ← is,
            z,
            body,
            ← moved,
            skip_trailer-trailer_ends stream rounds whole enough rounds
                (suc (length (drop off' whole))) off' stash' s' h left (omega arith),
          )
          (before_end out (trailer_ends (suc (length (drop off' whole))) (drop off' whole)))
    chunk_line off i stash line stash' off' s s' out (some (suc m)) e at is moved h z p q =
        let (body, less) = after_line stream rounds whole enough off i at in
        let shift = ap (λ n. length (drop n whole)) moved in
        rw (e, decode_chunked, z, at, unchunk, ← is, z, body, ← moved, before-sized)
          (chunk_sized off' m stash' s' out
            (ensure_n c rounds stash' s' ((off' + suc m + 2) % 2 ^ 64)) h
            (stoul-lt 16 (strip_extensions line) (suc m) z) (omega (arith, less, shift, p))
            (omega (arith, less, shift, q))
            (ensure_n-Ensures stream rounds whole stash' off' ((off' + suc m + 2) % 2 ^ 64) s'
              (few_left stream rounds whole enough stash' off' s' h) h))

    chunk_round :
        (off : ℕ) (stash : List ℕ) (s : S) (out : List ℕ) (r : Option (List ℕ × ℕ × List ℕ × S))
        → read_line_crlf c rounds stash off s ≡ r
        → ReadsLine stream whole off r
        → length (drop off whole) < suc f
        → length (drop off whole) < suc g
        → decode_chunked c rounds (suc f) stash off s out
          ≡ before out (unchunk (suc g) off (drop off whole))
    unfolding decode_chunked unchunk
    chunk_round off stash s out none e h p q = rw (e, decode_chunked, h, unchunk) refl
    chunk_round off stash s out (some (line, off', stash', s')) e (i, at, is, moved, h) p q =
        chunk_line off i stash line stash' off' s s' out (stoul 16 (strip_extensions line)) e at is
          moved h refl p q

  -- Over every byte stream, the body decoded from `off` on is the whole body, decoded with as much
  -- fuel as any bound on its length.
  pub decode_chunked-unchunk :
      length whole < 2 ^ 63
      → (f g off : ℕ) (stash : List ℕ) (s : S) (out : List ℕ) → Holds stream whole off stash s
      → length (drop off whole) < f
      → length (drop off whole) < g
      → decode_chunked c rounds f stash off s out ≡ before out (unchunk g off (drop off whole))
  decode_chunked-unchunk short zero g off stash s out h p q = absurd (omega arith)
  decode_chunked-unchunk short (suc f) zero off stash s out h p q = absurd (omega arith)
  decode_chunked-unchunk short (suc f) (suc g) off stash s out h p q =
      chunk_round short f g (decode_chunked-unchunk short f g) off stash s out
        (read_line_crlf c rounds stash off s) refl
        (line_at stream rounds whole enough stash off s h) p q
