-- ===== src/Sockets/Servers.antt =====
-- How sockets are set up in src/simple_socket/TCPSocket.cpp, UnixDomainSocket.cpp and UDPSocket.cpp,
-- with the descriptors that are open. `socket` makes one, `bind` and `listen` say whether they succeed.
pub mod Files
use simple_socket.Mqtt.Topics.{erase}
use simple_socket.Prelude.{
  ℕ, ◌%◌, ◌^◌, ◌≡◌, ◌≢◌, refl, Bool, true, false, List, [], ◌∷◌, if◌then◌else◌, All, Option, none,
  some, Outcome, ok, throw, socket_error, Option-cases, Bool-cases, inl, inr, take,
}
use simple_socket.Sockets.Descriptors.{GivesUnused, make_or_throw, Owns, erase_newest}

-- The path that `strncpy` leaves in `sun_path`, of 108 bytes with the last one 0.
abbrev pub sun_path : List ℕ → List ℕ
sun_path domain = take 107 domain

module _ (socket : List ℕ → Option ℕ) where
  -- `TCPServer::Impl`: the socket is a member of its own, so an exception closes it.
  unfoldable pub tcp_server : (ℕ → Bool) → (ℕ → ℕ → Bool) → ℕ → ℕ → List ℕ → Outcome ℕ × List ℕ
  unfolding make_or_throw
  tcp_server bind listen port backlog sockets = elim (socket sockets) [
    | none ↦ (throw socket_error, sockets)
    | some fd ↦
        if bind (port % 2 ^ 16)
        then (if listen fd backlog
            then (ok fd, fd ∷ sockets)
            else (throw socket_error, erase (fd ∷ sockets) fd))
        else (throw socket_error, erase (fd ∷ sockets) fd)
  ]

  -- `UDPSocket::Impl`: the descriptor is a number, and no destructor runs when the constructor throws.
  unfoldable pub udp_socket : (ℕ → Bool) → ℕ → List ℕ → Outcome ℕ × List ℕ
  udp_socket bind port sockets = elim (socket sockets) [
    | none ↦ (throw socket_error, sockets)
    | some fd ↦
        if bind (port % 2 ^ 16) then (ok fd, fd ∷ sockets) else (throw socket_error, fd ∷ sockets)
  ]

  -- `UnixDomainClientContext::connect`; `none` is a null pointer.
  unfoldable pub unix_connect : (List ℕ → Bool) → List ℕ → List ℕ → Outcome (Option ℕ) × List ℕ
  unix_connect reaches domain sockets = elim (socket sockets) [
    | none ↦ (throw socket_error, sockets)
    | some fd ↦
        if reaches (sun_path domain) then (ok (some fd), fd ∷ sockets) else (ok none, fd ∷ sockets)
  ]

  tcp_branches :
      (b l : Bool) (fd : ℕ) (sockets : List ℕ)
      → All (λ y. y ≢ fd) sockets
      → Owns sockets (
          if b
          then (if l then (ok fd, fd ∷ sockets) else (throw socket_error, erase (fd ∷ sockets) fd))
          else (throw socket_error, erase (fd ∷ sockets) fd))
  tcp_branches true true fd sockets unused = refl
  tcp_branches true false fd sockets unused = erase_newest sockets fd unused
  tcp_branches false l fd sockets unused = erase_newest sockets fd unused

  pub tcp_server-Owns :
      (bind : ℕ → Bool) (listen : ℕ → ℕ → Bool) (port backlog : ℕ) (sockets : List ℕ)
      → GivesUnused socket
      → Owns sockets (tcp_server bind listen port backlog sockets)
  unfolding tcp_server
  tcp_server-Owns bind listen port backlog sockets unused = elim (Option-cases (socket sockets)) [
    | inl e ↦ rw (e, tcp_server) refl
    | inr (fd, e) ↦
        rw (e, tcp_server)
          (tcp_branches (bind (port % 2 ^ 16)) (listen fd backlog) fd sockets (unused sockets fd e))
  ]

  -- Where the port is taken the constructor of `UDPSocket` throws, and its descriptor stays open with
  -- nobody to close it.
  pub udp_socket_leaks :
      (bind : ℕ → Bool) (port fd : ℕ) (sockets : List ℕ)
      → socket sockets ≡ some fd
      → bind (port % 2 ^ 16) ≡ false
      → udp_socket bind port sockets ≡ (throw socket_error, fd ∷ sockets)
  unfolding udp_socket
  udp_socket_leaks bind port fd sockets e taken = rw (e, udp_socket, taken) refl

  -- The same of `UnixDomainClientContext::connect`, which gives a null pointer.
  pub unix_connect_leaks :
      (reaches : List ℕ → Bool) (domain : List ℕ) (fd : ℕ) (sockets : List ℕ)
      → socket sockets ≡ some fd
      → reaches (sun_path domain) ≡ false
      → unix_connect reaches domain sockets ≡ (ok none, fd ∷ sockets)
  unfolding unix_connect
  unix_connect_leaks reaches domain fd sockets e down = rw (e, unix_connect, down) refl
