-- ===== src/Sockets/Tcp.antt =====
-- `TCPClientContext` of src/simple_socket/TCPSocket.cpp, with the descriptors that are open.
use simple_socket.Mqtt.Topics.{erase}
use simple_socket.Prelude.{
  ℕ, ◌+◌, ◌≡◌, refl, Bool, false, ◌&&◌, Option, none, some, List, ◌∷◌, if◌then◌else◌, take, drop,
  Outcome, ok, throw, fault, ◌>>=◌, invalid_argument, runtime_error, socket_error, Option-cases,
  inl, inr,
}
use simple_socket.Sockets.Descriptors.{GivesUnused, erase_newest}
use simple_socket.Text.Numbers.{stoi_word}
use simple_socket.Text.{index_of}

-- An exception of `std::stoi` becomes `std::invalid_argument`.
abbrev pub or_invalid : Outcome ℕ → Outcome ℕ
or_invalid (ok n) = ok n
or_invalid (throw e) = throw invalid_argument
or_invalid fault = fault

unfoldable pub parse_host_port : List ℕ → Outcome (List ℕ × ℕ)
parse_host_port input = elim (index_of b':' input) [
  | none ↦ throw invalid_argument
  | some colon_pos ↦ or_invalid (stoi_word (drop (colon_pos + 1) input)) >>= λ port.
      ok (take colon_pos input, port)
]

-- `socket` makes a descriptor, `inet_pton` and `getaddrinfo` find an address, and `reaches` says whether
-- `::connect` succeeds. `with_tls` says whether the build has TLS, and `tls_connects` whether the
-- constructor of `TLSConnection` returns.
module _ (socket : List ℕ → Option ℕ) (inet_pton getaddrinfo : List ℕ → Option ℕ)
    (reaches : ℕ → ℕ → Bool) (with_tls : Bool) (tls_connects : ℕ → Bool) where
  unfoldable pub resolve : List ℕ → Option ℕ
  resolve ip = elim (inet_pton ip) [ none ↦ getaddrinfo ip | some addr ↦ some addr ]

  -- The part behind the address.
  unfoldable pub connect_to : ℕ → ℕ → ℕ → Bool → Outcome (Option ℕ)
  connect_to sock addr port use_tls =
      if reaches addr port
      then (if use_tls
          then (if with_tls && tls_connects sock then ok (some sock) else throw runtime_error)
          else ok (some sock))
      else ok none

  -- The descriptor of the connection, or a null pointer, and the descriptors open afterwards.
  unfoldable pub connect : List ℕ → List ℕ → ℕ → Bool → Outcome (Option ℕ) × List ℕ
  unfolding connect_to
  connect sockets ip port use_tls = elim (socket sockets) [
    | none ↦ (throw socket_error, sockets)
    | some sock ↦ elim (resolve ip) [
      | none ↦ (ok none, erase (sock ∷ sockets) sock)
      | some addr ↦ (connect_to sock addr port use_tls, sock ∷ sockets)
    ]
  ]

  -- `connect(host)` without TLS.
  unfoldable pub connect_host : List ℕ → List ℕ → Outcome (Option ℕ) × List ℕ
  unfolding parse_host_port connect
  connect_host sockets host = elim (parse_host_port host) [
    | ok (ip, port) ↦ connect sockets ip port false
    | throw e ↦ (throw e, sockets)
    | fault ↦ (fault, sockets)
  ]

  -- Whatever comes of the connection, the socket that `connect` makes is closed again where the name has
  -- no address, and stays open where it has one: also where `::connect` fails and the caller gets a
  -- null pointer, or the TLS handshake throws, so that nobody can close it.
  pub connect_leaks :
      (sockets ip : List ℕ) (sock port : ℕ) (use_tls : Bool)
      → GivesUnused socket
      → socket sockets ≡ some sock
      → (connect sockets ip port use_tls).1
        ≡ (elim (resolve ip) as (λ _. List ℕ) [ none ↦ sockets | some addr ↦ sock ∷ sockets ])
  unfolding connect
  connect_leaks sockets ip sock port use_tls unused made = elim (Option-cases (resolve ip)) [
    | inl e ↦ rw (made, connect, e) (erase_newest sockets sock (unused sockets sock made))
    | inr (addr, e) ↦ rw (made, connect, e) refl
  ]
