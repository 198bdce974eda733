-- ===== src/Sockets/Tls.antt =====
-- src/simple_socket/tls/TLSConnection.hpp, over `SSL_write` and `SSL_read`.
pub mod Writes
pub mod Reads
use simple_socket.Prelude.{
  ℕ, zero, suc, ◌%◌, ◌^◌, Bool, true, false, Option, none, some, List, [], ◌∷◌, length, drop,
}

-- `SSL_write` took some bytes, or asks to be called again, or failed.
pub data SslResult : Type 0 where
  wrote : ℕ → SslResult
  want fatal : SslResult

-- `SSL_read` brought some bytes, or asks to be called again, or met the end of the session, or
-- failed.
pub data SslRead : Type 0 where
  brought : ℕ → List ℕ → SslRead
  wait shut_down broken : SslRead

-- The numbers are the arguments of type `int`, by their 32 bits.
pub record Ssl (S : Type 0) : Type 0 where
  pub ssl_write : S → List ℕ → ℕ → SslResult × S
  pub ssl_read : S → ℕ → SslRead × S

-- `static_cast<int>` of a `size_t`.
abbrev pub as_int : ℕ → ℕ
as_int n = n % 2 ^ 32

-- The result of `read`: more than 0, with the bytes in the buffer; 0; or -1.
pub data Received : Type 0 where
  arrived : List ℕ → Received
  ended failed : Received

module _ {S : Type 0} (o : Ssl S) where
  -- The loop of `write`, with the bytes left; `none` where it still runs after the rounds given.
  unfoldable pub write_loop : ℕ → List ℕ → S → Option Bool × S
  write_loop rounds [] s = (some true, s)
  write_loop zero (b ∷ bs) s = (none, s)
  write_loop (suc rounds) (b ∷ bs) s =
      let (r, s') = o.ssl_write s (b ∷ bs) (as_int (length (b ∷ bs))) in
      elim r [
        | wrote n ↦ write_loop rounds (drop n (b ∷ bs)) s'
        | want ↦ write_loop rounds (b ∷ bs) s'
        | fatal ↦ (some false, s')
      ]

  -- `ssl_` is a null pointer from `close` on.
  unfoldable pub write : ℕ → List ℕ → Option S → Option Bool × Option S
  unfolding write_loop
  write rounds buf none = (some false, none)
  write rounds buf (some s) = let (r, s') = write_loop rounds buf s in (r, some s')

  -- The loop of `read`; `none` where it still runs after the rounds given.
  unfoldable pub retry_loop : ℕ → ℕ → S → Option Received × S
  retry_loop zero len s = (none, s)
  retry_loop (suc rounds) len s =
      let (r, s') = o.ssl_read s (as_int len) in
      elim r [
        | brought b bs ↦ (some (arrived (b ∷ bs)), s')
        | wait ↦ retry_loop rounds len s'
        | shut_down ↦ (some ended, s')
        | broken ↦ (some failed, s')
      ]

  unfoldable pub read : ℕ → ℕ → Option S → Option Received × Option S
  unfolding retry_loop
  read rounds len none = (some failed, none)
  read rounds len (some s) = let (r, s') = retry_loop rounds len s in (r, some s')
