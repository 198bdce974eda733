-- ===== src/Sockets/Tls/Writes.antt =====
-- What `write` of TLSConnection.hpp hands to OpenSSL.
use simple_socket.Prelude.{
  ℕ, zero, suc, ◌+◌, ◌^◌, ◌≤◌, ◌<◌, ◌≡◌, refl, sym, ap, ◌∙◌, Bool, true, false, Option, none, some,
  List, [], ◌∷◌, ◌++◌, append_assoc, append-nil, length, take, drop, length-drop, take-append-drop,
  take-take, drop-drop, arith,
}
use simple_socket.Sockets.Tls.{SslResult, wrote, want, fatal, Ssl, as_int, write_loop}

-- What OpenSSL documents for a write of all the bytes given: `taken s` are the bytes it took so far, and a
-- call that asks to be called again took none.
pub record IsSsl {S : Type 0} (o : Ssl S) (taken : S → List ℕ) : Type 0 where
  pub takes :
      (s : S) (b : ℕ) (bs : List ℕ) (num n : ℕ)
      → num ≡ length (b ∷ bs)
      → num < 2 ^ 31
      → (o.ssl_write s (b ∷ bs) num).0 ≡ wrote n
      → (0 < n)
        × (n ≤ length (b ∷ bs))
        × (taken (o.ssl_write s (b ∷ bs) num).1 ≡ taken s ++ take n (b ∷ bs))
  pub retries :
      (s : S) (b : ℕ) (bs : List ℕ) (num : ℕ)
      → num ≡ length (b ∷ bs)
      → num < 2 ^ 31
      → (o.ssl_write s (b ∷ bs) num).0 ≡ want
      → taken (o.ssl_write s (b ∷ bs) num).1 ≡ taken s

module _ {S : Type 0} {o : Ssl S} {taken : S → List ℕ} (ssl : IsSsl o taken) where
  -- How often OpenSSL asks to be called again, in the rounds of a write.
  abbrev pub asked : ℕ → List ℕ → S → ℕ
  asked rounds [] s = 0
  asked zero (b ∷ bs) s = 0
  asked (suc rounds) (b ∷ bs) s =
      let (r, s') = o.ssl_write s (b ∷ bs) (as_int (length (b ∷ bs))) in
      elim r as (λ _. ℕ) [
        | wrote n ↦ asked rounds (drop n (b ∷ bs)) s'
        | want ↦ asked rounds (b ∷ bs) s' + 1
        | fatal ↦ 0
      ]

  -- True: all bytes were taken, in order. False: some from the front on were taken, all in order, and the
  -- call for those behind them failed. None: there were no more rounds than bytes and requests to be called
  -- again.
  abbrev pub Ends : ℕ → List ℕ → List ℕ → ℕ → Option Bool × S → Type 0
  Ends rounds before buf asks (none, s) = rounds ≤ length buf + asks
  Ends rounds before buf asks (some true, s) = taken s ≡ before ++ buf
  Ends rounds before buf asks (some false, s) =
      (k : ℕ) × (s₀ : S) × (k < length buf)
      × (taken s₀ ≡ before ++ take k buf)
      × ((o.ssl_write s₀ (drop k buf) (as_int (length (drop k buf)))).0 ≡ fatal)

  after_part :
      (rounds : ℕ) (before buf : List ℕ) (n asks : ℕ) (r : Option Bool × S)
      → 0 < n
      → n ≤ length buf
      → Ends rounds (before ++ take n buf) (drop n buf) asks r
      → Ends (suc rounds) before buf asks r
  after_part rounds before buf n asks (none, s) some_bytes inside h =
      omega (arith, length-drop n buf)
  after_part rounds before buf n asks (some true, s) some_bytes inside h =
      h ∙ append_assoc before (take n buf) (drop n buf) ∙ ap (◌++◌ before) (take-append-drop n buf)
  after_part rounds before buf n asks (some false, s) some_bytes inside (k, s₀, less, h, fails) = (
    n + k,
    s₀,
    omega (arith, length-drop n buf),
    h
        ∙ append_assoc before (take n buf) (take k (drop n buf))
        ∙ ap (◌++◌ before) (take-take n k buf),
    rw (drop-drop n k buf) at fails,
  )

  after_wait :
      (rounds : ℕ) (before buf : List ℕ) (asks : ℕ) (r : Option Bool × S)
      → Ends rounds before buf asks r
      → Ends (suc rounds) before buf (asks + 1) r
  after_wait rounds before buf asks (none, s) h = omega arith
  after_wait rounds before buf asks (some true, s) h = h
  after_wait rounds before buf asks (some false, s) h = h

  retarget :
      (rounds : ℕ) (xs ys buf : List ℕ) (asks : ℕ) (r : Option Bool × S)
      → xs ≡ ys
      → Ends rounds xs buf asks r
      → Ends rounds ys buf asks r
  retarget rounds xs ys buf asks r e h = rw (← e) h

  module _ (rounds b : ℕ) (bs : List ℕ) (s : S) (fits : length (b ∷ bs) < 2 ^ 31)
      (ih : (buf : List ℕ) (s' : S)
        → length buf < 2 ^ 31
        → Ends rounds (taken s') buf (asked rounds buf s') (write_loop o rounds buf s')) where
    exact : as_int (length (b ∷ bs)) ≡ length (b ∷ bs)
    exact = omega arith

    small : as_int (length (b ∷ bs)) < 2 ^ 31
    small = omega arith

    after_write :
        (r : SslResult)
        → (o.ssl_write s (b ∷ bs) (as_int (length (b ∷ bs)))).0 ≡ r
        → Ends
            (suc rounds)
            (taken s)
            (b ∷ bs)
            (asked (suc rounds) (b ∷ bs) s)
            (write_loop o (suc rounds) (b ∷ bs) s)
    unfolding write_loop
    after_write (wrote n) e =
        let s' = (o.ssl_write s (b ∷ bs) (as_int (length (b ∷ bs)))).1 in
        let (some_bytes, inside, order) = ssl.takes s b bs _ n exact small e in
        let rest = drop n (b ∷ bs) in
        let next = write_loop o rounds rest s' in
        let later =
          retarget rounds (taken s') (taken s ++ take n (b ∷ bs)) rest (asked rounds rest s') next
            order (ih rest s' (omega (arith, length-drop n (b ∷ bs), fits))) in
        rw (e, write_loop, asked)
          (after_part rounds (taken s) (b ∷ bs) n (asked rounds rest s') next some_bytes inside
            later)
    after_write want e =
        let s' = (o.ssl_write s (b ∷ bs) (as_int (length (b ∷ bs)))).1 in
        let same_bytes = ssl.retries s b bs _ exact small e in
        let next = write_loop o rounds (b ∷ bs) s' in
        let asks = asked rounds (b ∷ bs) s' in
        rw (e, write_loop, asked)
          (after_wait rounds (taken s) (b ∷ bs) asks next (
            retarget rounds (taken s') (taken s) (b ∷ bs) asks next same_bytes
              (ih (b ∷ bs) s' fits)))
    after_write fatal e =
        rw (e, write_loop, asked) (0, s, omega arith, sym (append-nil (taken s)), e)

  -- What the loop of `write` comes to. It says that all is sent only where OpenSSL took all bytes, in order.
  -- It says that not only where OpenSSL reported a failure, other than the request to be called again, of
  -- the call for the bytes from some place on, and had taken all before that place in order. And it goes on
  -- only as long as OpenSSL asks to be called again: after one round more than bytes and such requests it
  -- has ended. It is about less than 2^31 bytes, since their number is cut to an `int`.
  pub write_loop-Ends :
      (rounds : ℕ) (buf : List ℕ) (s : S)
      → length buf < 2 ^ 31
      → Ends rounds (taken s) buf (asked rounds buf s) (write_loop o rounds buf s)
  unfolding write_loop
  write_loop-Ends zero [] s fits = sym (append-nil (taken s))
  write_loop-Ends zero (b ∷ bs) s fits = omega arith
  write_loop-Ends (suc rounds) [] s fits = sym (append-nil (taken s))
  write_loop-Ends (suc rounds) (b ∷ bs) s fits =
      after_write rounds b bs s fits (write_loop-Ends rounds)
        (o.ssl_write s (b ∷ bs) (as_int (length (b ∷ bs)))).0 refl
