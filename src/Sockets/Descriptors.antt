-- ===== src/Sockets/Descriptors.antt =====
-- The descriptors that a process has open, and the objects that own one.
use simple_socket.Mqtt.Topics.{erase}
use simple_socket.Prelude.{
  ℕ, ◌≡◌, ◌≢◌, refl, List, [], ◌∷◌, All, Option, none, some, Outcome, ok, throw, fault,
  socket_error, arith,
}

pub erase_absent : (xs : List ℕ) (x : ℕ) → All (λ y. y ≢ x) xs → erase xs x ≡ xs
erase_absent [] x h = refl
erase_absent (y ∷ ys) x (hy, h) = ground (arith, hy, erase_absent ys x h)

-- The newest descriptor is closed again.
pub erase_newest : (xs : List ℕ) (x : ℕ) → All (λ y. y ≢ x) xs → erase (x ∷ xs) x ≡ xs
erase_newest xs x h = ground (arith, erase_absent xs x h)

-- What `socket` and `accept` document: a descriptor that is not in use.
abbrev pub GivesUnused : (List ℕ → Option ℕ) → Type 0
GivesUnused make = (xs : List ℕ) (fd : ℕ) → make xs ≡ some fd → All (λ y. y ≢ fd) xs

-- `createSocket` of TCPSocket.cpp and of UnixDomainSocket.cpp, and both `accept`.
unfoldable pub make_or_throw : (List ℕ → Option ℕ) → List ℕ → Outcome ℕ × List ℕ
make_or_throw make sockets = elim (make sockets) [
  | none ↦ (throw socket_error, sockets)
  | some fd ↦ (ok fd, fd ∷ sockets)
]

-- An object owns the one new descriptor, or there is no object and no new descriptor.
abbrev pub Owns : List ℕ → Outcome ℕ × List ℕ → Type 0
Owns before (ok fd, after) = after ≡ fd ∷ before
Owns before (throw e, after) = after ≡ before
Owns before (fault, after) = ⊥
