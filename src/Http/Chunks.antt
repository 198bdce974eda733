-- ===== src/Http/Chunks.antt =====
-- `readMore`, `readLineCRLF`, `ensureN` and `decodeChunked` of
-- src/simple_socket/http/SimpleHttpFetcher.cpp.
--
-- `rounds` bounds the rounds of each loop. After a failure nothing of the connection or the buffers is
-- used any more, so that a failed call hands back nothing.
pub mod Reads
pub mod Sizes
pub mod Ends
pub mod Reference
pub mod Trailer
pub mod Whole
pub mod RoundTrip
use simple_socket.Connection.{Reader}
use simple_socket.Prelude.{
  ℕ, zero, suc, ◌+◌, ◌%◌, ◌^◌, ◌<◌, Bool, true, false, Option, none, some, List, [], ◌∷◌, ◌++◌,
  ◌==◌, if◌then◌else◌, ltb, length, take, drop, Outcome, ok, throw, fault, ◌>>=◌, elem,
}
use simple_socket.Text.{find, index_of, is_empty, crlf}
use simple_socket.Text.Numbers.{stoul}

-- `sizeLine` without the chunk extensions.
unfoldable pub strip_extensions : List ℕ → List ℕ
strip_extensions line = elim (index_of b';' line) [ none ↦ line | some sc ↦ take sc line ]

module _ {S : Type 0} (c : Reader S) where
  unfoldable pub read_more : List ℕ → S → Option (List ℕ × S)
  read_more stash s =
      let (tmp, s') = c.read s 4096 in elim tmp [ [] ↦ none | b ∷ bs ↦ some (stash ++ b ∷ bs, s') ]

  -- The line, the new `off`, and the stash.
  unfoldable pub read_line_crlf : ℕ → List ℕ → ℕ → S → Option (List ℕ × ℕ × List ℕ × S)
  unfolding read_more
  read_line_crlf zero stash off s = none
  read_line_crlf (suc rounds) stash off s = elim (find crlf (drop off stash)) [
    | some i ↦ some (take i (drop off stash), off + i + 2, stash, s)
    | none ↦ elim (read_more stash s) [
      | none ↦ none
      | some (stash', s') ↦ read_line_crlf rounds stash' off s'
    ]
  ]

  unfoldable pub ensure_n : ℕ → List ℕ → S → ℕ → Option (List ℕ × S)
  unfolding read_more
  ensure_n zero stash s need = if ltb (length stash) need then none else some (stash, s)
  ensure_n (suc rounds) stash s need =
      let more : Option (List ℕ × S) = elim (read_more stash s) [
        | none ↦ none
        | some (stash', s') ↦ ensure_n rounds stash' s' need
      ] in
      if ltb (length stash) need then more else some (stash, s)

  module _ (rounds : ℕ) where
    -- The trailer, up to an empty line.
    unfoldable pub skip_trailer : ℕ → List ℕ → ℕ → S → Bool
    unfolding read_line_crlf
    skip_trailer zero stash off s = false
    skip_trailer (suc fuel) stash off s = elim (read_line_crlf rounds stash off s) [
      | none ↦ false
      | some (trailer, off', stash', s') ↦
          let rest = skip_trailer fuel stash' off' s' in if is_empty trailer then true else rest
    ]

    -- `off + chunkSize + 2` wraps over 64 bits. Where it does, the iterator `begin() + off + chunkSize`
    -- lies outside the stash.
    unfoldable pub decode_chunked : ℕ → List ℕ → ℕ → S → List ℕ → Outcome (Option (List ℕ))
    unfolding read_line_crlf ensure_n skip_trailer
    decode_chunked zero stash off s out = ok none
    decode_chunked (suc fuel) stash off s out = elim (read_line_crlf rounds stash off s) [
      | none ↦ ok none
      | some (size_line, off₁, stash₁, s₁) ↦ elim (stoul 16 (strip_extensions size_line)) [
        | none ↦ ok none
        | some zero ↦ ok (if skip_trailer rounds stash₁ off₁ s₁ then some out else none)
        | some (suc m) ↦
            let off₂ = off₁ + suc m in
            elim (ensure_n rounds stash₁ s₁ ((off₂ + 2) % 2 ^ 64)) [
              | none ↦ ok none
              | some (stash₂, s₂) ↦
                  let next =
                    decode_chunked fuel stash₂ (off₂ + 2) s₂
                      (out ++ take (suc m) (drop off₁ stash₂)) in
                  if ltb (length stash₂) off₂
                  then fault
                  else elem stash₂ off₂ >>= λ cr.
                      if cr == b'\r'
                      then (elem stash₂ (off₂ + 1) >>= λ lf. if lf == b'\n' then next else ok none)
                      else ok none
            ]
      ]
    ]
