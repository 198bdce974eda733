-- ===== src/Http/Chunks/Sizes.antt =====
-- The test of `decodeChunked` for the bytes of a chunk, where the sum wraps and where it does not.
use simple_socket.Prelude.{
  ℕ, ◌+◌, ◌-◌, ◌%◌, ◌^◌, ◌≤◌, ◌<◌, ◌≡◌, if◌then◌else◌, ltb, leb, Bool-cases, inl, inr, arith,
}

-- What follows once the size of a chunk is known: `off` is its place, `len` what stands from there on.
abbrev pub sized : {A : Type 0} → ℕ → ℕ → ℕ → A → A → A → A
sized off size len stop bad go =
    if leb (2 ^ 64) (off + size + 2)
    then (if ltb (off + len) (off + size + 2 - 2 ^ 64) then stop else bad)
    else if ltb len (size + 2)
    then stop
    else go

module _ {A : Type 0} (off size len : ℕ) (stop bad go : A) (short : off + len < 2 ^ 63)
    (size_fits : size < 2 ^ 64) where
  pub sized-lacks : off + len < (off + size + 2) % 2 ^ 64 → sized off size len stop bad go ≡ stop
  sized-lacks lacks = ground (arith, short, size_fits, lacks)

  pub sized-has :
      (have : ℕ) (go' : A)
      → have ≤ off + len
      → (off + size + 2) % 2 ^ 64 ≤ have
      → (off + size + 2 ≤ have → go' ≡ go)
      → (if ltb have (off + size) then bad else go') ≡ sized off size len stop bad go
  sized-has have go' up has goes = elim (Bool-cases (leb (2 ^ 64) (off + size + 2))) [
    | inl wraps ↦ ground (arith, short, size_fits, has, up, wraps)
    | inr fits ↦
        let room : off + size + 2 ≤ have = ground (arith, has, fits) in
        ground (arith, short, up, fits, room, goes room)
  ]

pub sized-fits :
    {A : Type 0} (off size len : ℕ) (stop bad go : A)
    → off + len < 2 ^ 63
    → size + 2 ≤ len
    → sized off size len stop bad go ≡ go
sized-fits off size len stop bad go short fits = ground (arith, short, fits)

-- Where the end of the chunk does not fit 64 bits, and the wrapped sum lies inside the bytes.
pub sized-wraps :
    {A : Type 0} (off size len : ℕ) (stop bad go : A)
    → 2 ^ 64 ≤ off + size + 2
    → off + size + 2 ≤ 2 ^ 64 + (off + len)
    → sized off size len stop bad go ≡ bad
sized-wraps off size len stop bad go wraps inside = ground (arith, wraps, inside)
