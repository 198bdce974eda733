-- ===== src/Tests/Tls.antt =====
-- Runs of the loops over OpenSSL.
use simple_socket.Prelude.{
  ℕ, ◌^◌, ◌≤◌, ◌<◌, ◌≡◌, refl, ap, Bool, true, false, some, List, [], ◌∷◌, ◌++◌, length, take,
  arith,
}
use simple_socket.Sockets.Tls.{
  Ssl, SslResult, wrote, want, SslRead, brought, wait, shut_down, write_loop, read,
}
use simple_socket.Sockets.Tls.Reads.{IsReadable, Receives, read-Receives}
use simple_socket.Sockets.Tls.Writes.{IsSsl, Ends, asked, write_loop-Ends}
use simple_socket.Text.{codes}

-- A peer that takes one byte at a call, and asks once to be called again; it sends two bytes, and
-- asks once to be called again as well.
abbrev slow_write : Bool × List ℕ → List ℕ → ℕ → SslResult × (Bool × List ℕ)
slow_write (true, got) buf num = (want, (false, got))
slow_write (false, got) buf num = (wrote 1, (false, got ++ take 1 buf))

abbrev slow_read : Bool × List ℕ → ℕ → SslRead × (Bool × List ℕ)
slow_read (true, left) num = (wait, (false, left))
slow_read (false, []) num = (shut_down, (false, []))
slow_read (false, b ∷ bs) num = (brought b [], (false, bs))

abbrev slow : Ssl (Bool × List ℕ)
slow = record { ssl_write = slow_write; ssl_read = slow_read }

abbrev took : Bool × List ℕ → List ℕ
took (b, got) = got

slow_takes :
    (s : Bool × List ℕ) (b : ℕ) (bs : List ℕ) (num n : ℕ)
    → num ≡ length (b ∷ bs)
    → num < 2 ^ 31
    → (slow_write s (b ∷ bs) num).0 ≡ wrote n
    → (0 < n)
      × (n ≤ length (b ∷ bs))
      × (took (slow_write s (b ∷ bs) num).1 ≡ took s ++ take n (b ∷ bs))
slow_takes (true, got) b bs num n all small e = absurd (ground (arith, e))
slow_takes (false, got) b bs num n all small e =
    let one : 1 ≡ n = ground (arith, e) in
    (omega arith, omega arith, ap (λ k. got ++ take k (b ∷ bs)) one)

slow_retries :
    (s : Bool × List ℕ) (b : ℕ) (bs : List ℕ) (num : ℕ)
    → num ≡ length (b ∷ bs)
    → num < 2 ^ 31
    → (slow_write s (b ∷ bs) num).0 ≡ want
    → took (slow_write s (b ∷ bs) num).1 ≡ took s
slow_retries (true, got) b bs num all small e = refl
slow_retries (false, got) b bs num all small e = absurd (ground (arith, e))

slow-IsSsl : IsSsl slow took
slow-IsSsl = record { takes = slow_takes; retries = slow_retries }

write_loop-Ends_example :
    Ends slow-IsSsl 9 []
      (codes "data")
      (asked slow-IsSsl 9 (codes "data") (true, []))
      (write_loop slow 9 (codes "data") (true, []))
write_loop-Ends_example = write_loop-Ends slow-IsSsl 9 (codes "data") (true, []) (omega arith)

-- OpenSSL asked once.
asked_once : asked slow-IsSsl 9 (codes "data") (true, []) ≡ 1
asked_once = refl

slow_brings :
    (s : Bool × List ℕ) (num b : ℕ) (bs : List ℕ)
    → 0 < num
    → num < 2 ^ 31
    → (slow_read s num).0 ≡ brought b bs
    → (length (b ∷ bs) ≤ num) × (took s ≡ (b ∷ bs) ++ took (slow_read s num).1)
slow_brings (true, left) num b bs room small e = absurd (ground (arith, e))
slow_brings (false, []) num b bs room small e = absurd (ground (arith, e))
slow_brings (false, c ∷ cs) num b bs room small e = (ground (arith, e), ground (arith, e))

slow_waits :
    (s : Bool × List ℕ) (num : ℕ)
    → 0 < num
    → num < 2 ^ 31
    → (slow_read s num).0 ≡ wait
    → took (slow_read s num).1 ≡ took s
slow_waits (true, left) num room small e = refl
slow_waits (false, []) num room small e = absurd (ground (arith, e))
slow_waits (false, c ∷ cs) num room small e = absurd (ground (arith, e))

slow-IsReadable : IsReadable slow took
slow-IsReadable = record { brings = slow_brings; waits = slow_waits }

read-Receives_example :
    Receives slow-IsReadable 2 (true, codes "ab") 16 (read slow 2 16 (some (true, codes "ab")))
read-Receives_example =
    read-Receives slow-IsReadable 2 16 (true, codes "ab") (omega arith) (omega arith)
