-- ===== src/Http/Chunks/Ends.antt =====
-- The pieces of a round of `decodeChunked`: the bytes of a chunk and the CRLF after it.
use simple_socket.Http.Chunks.Sizes.{sized}
use simple_socket.Prelude.{
  ℕ, suc, ◌+◌, ◌≤◌, ◌≡◌, refl, sym, ap, ◌∙◌, Bool, true, false, Option, none, some, List, [], ◌++◌,
  ◌==◌, if◌then◌else◌, length, take, drop, Outcome, ok, throw, fault, ◌>>=◌, elem, elem-ok,
  append_assoc, append-nil, length-drop, drop_step, drop-append_short, take-append_short, arith,
}
use simple_socket.Text.{crlf, starts_with}
use simple_socket.Text.Search.{starts_with-append}

-- A decoded chunk in front of what follows.
abbrev pub before : List ℕ → Outcome (Option (List ℕ)) → Outcome (Option (List ℕ))
before front (ok none) = ok none
before front (ok (some more)) = ok (some (front ++ more))
before front (throw e) = throw e
before front fault = fault

pub before-before :
    (xs ys : List ℕ) (r : Outcome (Option (List ℕ))) → before xs (before ys r) ≡ before (xs ++ ys) r
before-before xs ys (ok none) = refl
before-before xs ys (ok (some more)) = ap (λ zs. ok (some zs)) (sym (append_assoc xs ys more))
before-before xs ys (throw e) = refl
before-before xs ys fault = refl

pub before_if :
    (front : List ℕ) (b : Bool) (r : Outcome (Option (List ℕ)))
    → (if b then before front r else ok none) ≡ before front (if b then r else ok none)
before_if front true r = refl
before_if front false r = refl

pub before-sized :
    (front : List ℕ) (off size len : ℕ) (r : Outcome (Option (List ℕ)))
    → before front (sized off size len (ok none) fault r)
      ≡ sized off size len (ok none) fault (before front r)
before-sized front off size len r = ground arith

pub before_end :
    (front : List ℕ) (b : Bool)
    → ◌≡◌ {A = Outcome (Option (List ℕ))}
        (ok (if b then some front else none))
        (before front (ok (if b then some [] else none)))
before_end front true = ap (λ xs. ok (some xs)) (sym (append-nil front))
before_end front false = refl

pub chunk_end :
    (stash : List ℕ) (off : ℕ) (next : Outcome (Option (List ℕ)))
    → off + 2 ≤ length stash
    → (elem stash off >>= λ cr.
        if cr == b'\r'
        then (elem stash (off + 1) >>= λ lf. if lf == b'\n' then next else ok none)
        else ok none)
      ≡ (if starts_with crlf (drop off stash) then next else ok none)
chunk_end stash off next h =
    let at : off + 1 ≡ suc off = omega arith in
    rw
      (
        at,
        elem-ok stash off (omega arith),
        elem-ok stash (suc off) (omega arith),
        drop_step off stash 0 (omega arith),
        drop_step (suc off) stash 0 (omega arith),
      )
      (ground arith)

-- The same bytes stand in the stash and in the whole body.
pub chunk_here :
    (stash rest : List ℕ) (off size : ℕ)
    → off + size + 2 ≤ length stash
    → (take size (drop off stash) ≡ take size (drop off (stash ++ rest)))
      × (starts_with crlf (drop (off + size) stash)
          ≡ starts_with crlf (drop (off + size) (stash ++ rest)))
chunk_here stash rest off size h = (
  sym (
      ap (take size) (drop-append_short off stash rest (omega arith))
      ∙ take-append_short size (drop off stash) rest (omega (arith, length-drop off stash))),
  sym (
      ap (starts_with crlf) (drop-append_short (off + size) stash rest (omega arith))
      ∙ starts_with-append crlf (drop (off + size) stash) rest
          (omega (arith, length-drop (off + size) stash))),
)
