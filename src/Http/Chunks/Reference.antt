-- ===== src/Http/Chunks/Reference.antt =====
-- What `decodeChunked` gives, as a function of the bytes of the body as a whole.
use simple_socket.Http.Chunks.{strip_extensions}
use simple_socket.Http.Chunks.Ends.{before}
use simple_socket.Http.Chunks.Sizes.{sized}
use simple_socket.Prelude.{
  ℕ, zero, suc, ◌+◌, Bool, true, false, Option, none, some, List, [], if◌then◌else◌, length, take,
  drop, Outcome, ok, fault,
}
use simple_socket.Text.{find, crlf, is_empty, starts_with}
use simple_socket.Text.Numbers.{stoul}

unfoldable pub trailer_ends : ℕ → List ℕ → Bool
trailer_ends zero rest = false
trailer_ends (suc fuel) rest = elim (find crlf rest) [
  | none ↦ false
  | some i ↦
      let more = trailer_ends fuel (drop (i + 2) rest) in
      if is_empty (take i rest) then true else more
]

-- The body from `pos` on, as a list of chunks. The position matters only where the end of a chunk
-- does not fit 64 bits.
unfoldable pub unchunk : ℕ → ℕ → List ℕ → Outcome (Option (List ℕ))
unfolding trailer_ends
unchunk zero pos rest = ok none
unchunk (suc fuel) pos rest = elim (find crlf rest) [
  | none ↦ ok none
  | some i ↦
      let body = drop (i + 2) rest in
      let start = pos + i + 2 in
      elim (stoul 16 (strip_extensions (take i rest))) [
        | none ↦ ok none
        | some zero ↦ ok (if trailer_ends (suc (length body)) body then some [] else none)
        | some (suc m) ↦
            let next =
              before (take (suc m) body)
                (unchunk fuel (start + suc m + 2) (drop (suc m + 2) body)) in
            sized start (suc m) (length body) (ok none) fault
              (if starts_with crlf (drop (suc m) body) then next else ok none)
      ]
]
