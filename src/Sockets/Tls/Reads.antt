-- ===== src/Sockets/Tls/Reads.antt =====
-- What `read` of TLSConnection.hpp gives of the bytes that OpenSSL has.
use simple_socket.Prelude.{
  ℕ, zero, suc, ◌^◌, ◌≤◌, ◌<◌, ◌≡◌, refl, sym, ◌∙◌, Option, none, some, List, ◌∷◌, ◌++◌, length,
  arith,
}
use simple_socket.Sockets.Tls.{
  Ssl, SslRead, brought, wait, shut_down, broken, as_int, Received, arrived, ended, failed,
  retry_loop, read,
}

-- What OpenSSL documents for a read into a buffer of `num` bytes: `pending s` are the bytes still to come, and
-- a call that asks to be called again brings none.
pub record IsReadable {S : Type 0} (o : Ssl S) (pending : S → List ℕ) : Type 0 where
  pub brings :
      (s : S) (num b : ℕ) (bs : List ℕ)
      → 0 < num
      → num < 2 ^ 31
      → (o.ssl_read s num).0 ≡ brought b bs
      → (length (b ∷ bs) ≤ num) × (pending s ≡ (b ∷ bs) ++ pending (o.ssl_read s num).1)
  pub waits :
      (s : S) (num : ℕ)
      → 0 < num
      → num < 2 ^ 31
      → (o.ssl_read s num).0 ≡ wait
      → pending (o.ssl_read s num).1 ≡ pending s

module _ {S : Type 0} {o : Ssl S} {pending : S → List ℕ} (ssl : IsReadable o pending) where
  -- Every one of so many calls asks to be called again.
  abbrev pub AllWait : ℕ → ℕ → S → Type 0
  AllWait zero len s = Unit {0}
  AllWait (suc rounds) len s =
      ((o.ssl_read s (as_int len)).0 ≡ wait) × AllWait rounds len (o.ssl_read s (as_int len)).1

  -- A call, with all these bytes still to come, that gave `r`.
  abbrev pub Answers : List ℕ → ℕ → SslRead → Type 0
  Answers before len r = (s : S) × (pending s ≡ before) × ((o.ssl_read s (as_int len)).0 ≡ r)

  -- The next bytes, at least one and no more than fit; 0 where OpenSSL met the end of the session; -1 where it
  -- failed; nothing where it only asked to be called again.
  abbrev pub Receives : ℕ → S → ℕ → Option Received × Option S → Type 0
  Receives rounds s₀ len (none, s) = AllWait rounds len s₀
  Receives rounds s₀ len (some (arrived bs), none) = ⊥
  Receives rounds s₀ len (some (arrived bs), some s) =
      (0 < length bs) × (length bs ≤ len) × (pending s₀ ≡ bs ++ pending s)
  Receives rounds s₀ len (some ended, s) = Answers (pending s₀) len shut_down
  Receives rounds s₀ len (some failed, s) = Answers (pending s₀) len broken

  after_wait :
      (rounds len : ℕ) (s : S) (r : Option Received × Option S)
      → (o.ssl_read s (as_int len)).0 ≡ wait
      → pending (o.ssl_read s (as_int len)).1 ≡ pending s
      → Receives rounds (o.ssl_read s (as_int len)).1 len r
      → Receives (suc rounds) s len r
  after_wait rounds len s (none, t) e same h = (e, h)
  after_wait rounds len s (some (arrived bs), none) e same h = h
  after_wait rounds len s (some (arrived bs), some t) e same (some_bytes, inside, order) =
      (some_bytes, inside, sym same ∙ order)
  after_wait rounds len s (some ended, t) e same (s₀, before, h) = (s₀, before ∙ same, h)
  after_wait rounds len s (some failed, t) e same (s₀, before, h) = (s₀, before ∙ same, h)

  module _ (rounds len : ℕ) (s : S) (room : 0 < len) (fits : len < 2 ^ 31)
      (ih : (s' : S) → Receives rounds s' len (read o rounds len (some s'))) where
    after_read :
        (r : SslRead)
        → (o.ssl_read s (as_int len)).0 ≡ r
        → Receives (suc rounds) s len (read o (suc rounds) len (some s))
    unfolding read retry_loop
    after_read (brought b bs) e =
        let (inside, order) = ssl.brings s (as_int len) b bs (omega arith) (omega arith) e in
        rw (e, retry_loop) (omega arith, omega arith, order)
    after_read wait e =
        let s' = (o.ssl_read s (as_int len)).1 in
        let same_bytes = ssl.waits s (as_int len) (omega arith) (omega arith) e in
        let later = after_wait rounds len s (read o rounds len (some s')) e same_bytes (ih s') in
        rw (e, retry_loop) later
    after_read shut_down e = rw (e, retry_loop) (s, refl, e)
    after_read broken e = rw (e, retry_loop) (s, refl, e)

  -- What `read` into a buffer that is not empty comes to. More than 0: the next bytes, in order, one at
  -- least and no more than fit. 0 only where OpenSSL met the end of the session, and -1 only where it failed
  -- otherwise; either way no byte was taken before. And it goes on only as long as OpenSSL asks to be
  -- called again. It is about a buffer of less than 2^31 bytes, since its size is cut to an `int`.
  pub read-Receives :
      (rounds len : ℕ) (s : S)
      → 0 < len
      → len < 2 ^ 31
      → Receives rounds s len (read o rounds len (some s))
  unfolding read retry_loop
  read-Receives zero len s room fits = tt
  read-Receives (suc rounds) len s room fits =
      after_read rounds len s room fits (λ s'. read-Receives rounds len s' room fits)
        (o.ssl_read s (as_int len)).0 refl
