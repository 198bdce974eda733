-- ===== src/Connection.antt =====
-- include/simple_socket/SimpleConnection.hpp: the interface of all transports, and `readExact` over
-- it. `read` is virtual: it is a parameter here, with what `readExact` relies on as laws.
pub mod Exact
pub mod Rounds
pub mod Segments
use simple_socket.Prelude.{
  ℕ, zero, suc, ◌+◌, ◌-◌, ◌≤◌, ◌<◌, ◌≡◌, Bool, true, false, List, [], ◌∷◌, ◌++◌, length,
}

-- `read s n` on a connection in state `s` gives the bytes that arrived and the next state. No bytes
-- stand for a result of 0 or less: the end of the connection, or an error.
pub record Reader (S : Type 0) : Type 0 where
  pub read : S → ℕ → List ℕ × S

-- What a byte stream promises in its valid states: `pending s` are the bytes still to come before
-- it ends. A read takes at most `n` of them, in order, and gives none only at the end.
pub record IsStream {S : Type 0} (c : Reader S) (pending : S → List ℕ) (IsValid : S → Type 0)
    : Type 0 where
  pub keeps : (s : S) (n : ℕ) → IsValid s → IsValid (c.read s n).1
  pub bounded : (s : S) (n : ℕ) → IsValid s → length (c.read s n).0 ≤ n
  pub in_order : (s : S) (n : ℕ) → IsValid s → pending s ≡ (c.read s n).0 ++ pending (c.read s n).1
  pub ends : (s : S) (n : ℕ) → IsValid s → 0 < n → (c.read s n).0 ≡ [] → pending s ≡ []

module _ {S : Type 0} (c : Reader S) where
  -- The loop of `readExact`, with `remaining` bytes to go. The bytes that arrived are handed back
  -- also on failure, since they are in the caller's buffer then.
  unfoldable pub read_loop : ℕ → S → ℕ → Bool × List ℕ × S
  read_loop fuel s zero = (true, [], s)
  read_loop zero s (suc remaining) = (false, [], s)
  read_loop (suc fuel) s (suc remaining) =
      let (got, s') = c.read s (suc remaining) in
      elim got [
        | [] ↦ (false, [], s')
        | b ∷ bs ↦
            let (done, more, s'') = read_loop fuel s' (suc remaining - length (b ∷ bs)) in
            (done, (b ∷ bs) ++ more, s'')
      ]

  -- A round brings at least one byte, so `size` rounds are enough.
  unfoldable pub read_exact : S → ℕ → Bool × List ℕ × S
  unfolding read_loop
  read_exact s size = read_loop size s size
