-- ===== src/Http/Chunks/RoundTrip.antt =====
-- Chunked bodies as RFC 9112 writes them, and what `decodeChunked` makes of them.
use simple_socket.Http.Chunks.Ends.{before}
use simple_socket.Http.Chunks.Sizes.{sized-fits, sized-wraps}
use simple_socket.Http.Chunks.Reference.{unchunk, trailer_ends}
use simple_socket.Http.Chunks.{strip_extensions}
use simple_socket.Prelude.{
  ℕ, zero, suc, ◌+◌, ◌^◌, ◌≤◌, ◌<◌, ◌≡◌, refl, ap, ◌∙◌, true, none, some, List, [], ◌∷◌, ◌++◌,
  if◌then◌else◌, length, take, drop, All, ok, fault, length-append, take-append_left,
  drop-append_left, arith,
}
use simple_socket.Text.Lines.{
  NoNewline, IsLine, lines_text, find-crlf, drop_line, line_not_empty, line_positive,
}
use simple_socket.Text.Numbers.{stoul}
use simple_socket.Text.{find, blank_line}

pub record Chunk : Type 0 where
  pub size_line : List ℕ
  pub content : List ℕ

-- The line before a chunk holds its length in base 16, extensions may follow.
abbrev pub IsSize : List ℕ → ℕ → Type 0
IsSize line n = NoNewline line × (stoul 16 (strip_extensions line) ≡ some n)

abbrev pub IsChunk : Chunk → Type 0
IsChunk ch = IsSize ch.size_line (length ch.content) × (0 < length ch.content)

abbrev pub contents : List Chunk → List ℕ
contents [] = []
contents (ch ∷ chs) = ch.content ++ contents chs

-- The chunks, the line of the last one, which is empty, the trailer, and what comes after the body.
abbrev pub chunks_text : List Chunk → List ℕ → List (List ℕ) → List ℕ → List ℕ
chunks_text [] last trailer rest = last ++ lines_text trailer (blank_line ++ rest)
chunks_text (ch ∷ chs) last trailer rest =
    ch.size_line
    ++ b'\r' ∷ b'\n' ∷ (ch.content ++ b'\r' ∷ b'\n' ∷ chunks_text chs last trailer rest)

-- `lines_text` without its first CRLF.
abbrev after_break : List (List ℕ) → List ℕ → List ℕ
after_break [] rest = b'\r' ∷ b'\n' ∷ rest
after_break (l ∷ ls) rest = l ++ lines_text ls (blank_line ++ rest)

breaks :
    (ls : List (List ℕ)) (rest : List ℕ)
    → lines_text ls (blank_line ++ rest) ≡ b'\r' ∷ b'\n' ∷ after_break ls rest
breaks [] rest = refl
breaks (l ∷ ls) rest = refl

trailer_line :
    (l body : List ℕ) (fuel : ℕ)
    → IsLine l
    → trailer_ends (suc fuel) (l ++ b'\r' ∷ b'\n' ∷ body) ≡ trailer_ends fuel body
unfolding trailer_ends
trailer_line l body fuel (ne, h) =
    rw
      (
        find-crlf l body h,
        trailer_ends,
        take-append_left l (b'\r' ∷ b'\n' ∷ body),
        line_not_empty l ne,
        drop_line l body,
      )
      refl

trailer_ends-after_break :
    (ls : List (List ℕ)) (rest : List ℕ) (fuel : ℕ)
    → All IsLine ls
    → length (after_break ls rest) < suc fuel
    → trailer_ends (suc fuel) (after_break ls rest) ≡ true
unfolding trailer_ends find
trailer_ends-after_break [] rest fuel h enough = refl
trailer_ends-after_break (l ∷ ls) rest zero (hl, h) enough =
    absurd
      (omega (arith, line_positive l hl.0, length-append l (lines_text ls (blank_line ++ rest))))
trailer_ends-after_break (l ∷ ls) rest (suc fuel) (hl, h) enough =
    let next = after_break ls rest in
    ap (λ t. trailer_ends (suc (suc fuel)) (l ++ t)) (breaks ls rest)
    ∙ trailer_line l next (suc fuel) hl
    ∙ trailer_ends-after_break ls rest fuel h (
        omega
          (arith, ap length (breaks ls rest), length-append l (lines_text ls (blank_line ++ rest))))

module _ (line body : List ℕ) (fuel pos : ℕ) (h : NoNewline line) where
  unchunk_last :
      stoul 16 (strip_extensions line) ≡ some 0
      → unchunk (suc fuel) pos (line ++ b'\r' ∷ b'\n' ∷ body)
        ≡ ok (if trailer_ends (suc (length body)) body then some [] else none)
  unfolding unchunk
  unchunk_last size =
      rw
        (
          find-crlf line body h,
          unchunk,
          take-append_left line (b'\r' ∷ b'\n' ∷ body),
          size,
          drop_line line body,
        )
        refl

  pub unchunk_wraps :
      (m : ℕ)
      → stoul 16 (strip_extensions line) ≡ some (suc m)
      → 2 ^ 64 ≤ pos + length line + 2 + suc m + 2
      → suc m + 2 ≤ 2 ^ 64 + length body
      → unchunk (suc fuel) pos (line ++ b'\r' ∷ b'\n' ∷ body) ≡ fault
  unfolding unchunk
  unchunk_wraps m size wraps inside =
      rw
        (
          find-crlf line body h,
          unchunk,
          take-append_left line (b'\r' ∷ b'\n' ∷ body),
          size,
          drop_line line body,
        )
        (sized-wraps (pos + length line + 2) (suc m) (length body) _ _ _ wraps
          (omega (arith, inside)))

  unchunk_next :
      (content rest : List ℕ)
      → stoul 16 (strip_extensions line) ≡ some (length content)
      → 0 < length content
      → body ≡ content ++ b'\r' ∷ b'\n' ∷ rest
      → pos + length line + 2 + length body < 2 ^ 63
      → unchunk (suc fuel) pos (line ++ b'\r' ∷ b'\n' ∷ body)
        ≡ before content (unchunk fuel (pos + length line + 2 + length content + 2) rest)
  unfolding unchunk
  unchunk_next [] rest size positive is short = absurd (omega arith)
  unchunk_next (x ∷ xs) rest size positive is short =
      let room : length (x ∷ xs) + 2 ≤ length body =
        omega (arith, ap length is, length-append (x ∷ xs) (b'\r' ∷ b'\n' ∷ rest)) in
      let content = x ∷ xs in
      let end = ap (drop (length content)) is ∙ drop-append_left content (b'\r' ∷ b'\n' ∷ rest) in
      let front = ap (take (length content)) is ∙ take-append_left content (b'\r' ∷ b'\n' ∷ rest) in
      let later = ap (drop (length content + 2)) is ∙ drop_line content rest in
      rw
        (
          find-crlf line body h,
          unchunk,
          take-append_left line (b'\r' ∷ b'\n' ∷ body),
          size,
          drop_line line body,
        )
        (sized-fits (pos + length line + 2) (length (x ∷ xs)) (length body) _ _ _ short room
          ∙ rw (end, front, later) refl)

pub unchunk-chunks_text :
    (chs : List Chunk) (last : List ℕ) (trailer : List (List ℕ)) (rest : List ℕ) (fuel pos : ℕ)
    → All IsChunk chs
    → IsSize last 0
    → All IsLine trailer
    → length chs < fuel
    → pos + length (chunks_text chs last trailer rest) < 2 ^ 63
    → unchunk fuel pos (chunks_text chs last trailer rest) ≡ ok (some (contents chs))
unchunk-chunks_text chs last trailer rest zero pos h hl ht enough short = absurd (omega arith)
unchunk-chunks_text [] last trailer rest (suc fuel) pos h (hl, size) ht enough short =
    let next = after_break trailer rest in
    ap (λ t. unchunk (suc fuel) pos (last ++ t)) (breaks trailer rest)
    ∙ unchunk_last last next fuel pos hl size
    ∙ rw (trailer_ends-after_break trailer rest (length next) ht (omega arith)) refl
unchunk-chunks_text (ch ∷ chs) last trailer rest (suc fuel) pos (((hl, size), positive), h) hs ht
      enough short =
    let next = chunks_text chs last trailer rest in
    let body = ch.content ++ b'\r' ∷ b'\n' ∷ next in
    let len = length-append ch.size_line (b'\r' ∷ b'\n' ∷ body) in
    let len' = length-append ch.content (b'\r' ∷ b'\n' ∷ next) in
    unchunk_next ch.size_line body fuel pos hl ch.content next size positive refl (omega arith)
    ∙ ap (before ch.content) (
        unchunk-chunks_text chs last trailer rest fuel
          (pos + length ch.size_line + 2 + length ch.content + 2) h hs ht (omega arith)
          (omega arith))
