-- ===== src/Sockets/Udp.antt =====
-- `UDPSocket` of src/simple_socket/UDPSocket.cpp. `inet_pton` finds an address, `sendto` says whether the
-- system took a datagram, and `arrives` are the datagrams that wait.
use simple_socket.Connection.{Reader, IsStream}
use simple_socket.Prelude.{
  ℕ, ◌<◌, ◌≡◌, refl, ap, Bool, false, ◌||◌, Option, none, some, List, [], ◌∷◌, ◌++◌, ◌==◌,
  if◌then◌else◌, ltb, length, take, length-take, length-append, arith,
}

abbrev pub max_udp_packet_size : ℕ
max_udp_packet_size = 65507

module _ (inet_pton : List ℕ → Option ℕ) (sendto : ℕ → ℕ → List ℕ → Bool) where
  unfoldable pub send_to : List ℕ → ℕ → List ℕ → Bool
  send_to address port data_ =
      if (length data_ == 0) || ltb max_udp_packet_size (length data_)
      then false
      else elim (inet_pton address) [ none ↦ false | some addr ↦ sendto addr port data_ ]

-- What `recvfrom` gives into `size` bytes: the front of the next datagram. The rest of it is lost.
module _ (inet_pton : List ℕ → Option ℕ) where
  unfoldable pub recv_from : List ℕ → ℕ → List (List ℕ) → Option (List ℕ) × List (List ℕ)
  recv_from address size [] = (none, [])
  recv_from address size (datagram ∷ waiting) = elim (inet_pton address) [
    | none ↦ (none, datagram ∷ waiting)
    | some addr ↦ (some (take size datagram), waiting)
  ]

  -- `recvFrom` that gives a string, empty on an error.
  unfoldable pub recv_text : List ℕ → List (List ℕ) → List ℕ
  unfolding recv_from
  recv_text address waiting = elim ((recv_from address max_udp_packet_size waiting).0) [
    | none ↦ []
    | some text ↦ text
  ]

  -- `UDPConnection` of `makeConnection`: its `read` and its `write` are those of the socket, and its
  -- `close` does nothing.
  unfoldable pub udp_read : List ℕ → List (List ℕ) → ℕ → List ℕ × List (List ℕ)
  unfolding recv_from
  udp_read address waiting size =
      let (got, rest) = recv_from address size waiting in
      (elim got as (λ _. List ℕ) [ none ↦ [] | some bytes ↦ bytes ], rest)

  abbrev pub udp_connection : List ℕ → Reader (List (List ℕ))
  udp_connection address = record { read = udp_read address }

  udp_read-some :
      (address : List ℕ) (addr : ℕ) (datagram : List ℕ) (waiting : List (List ℕ)) (size : ℕ)
      → inet_pton address ≡ some addr
      → udp_read address (datagram ∷ waiting) size ≡ (take size datagram, waiting)
  unfolding udp_read
  udp_read-some address addr datagram waiting size e = rw (e, recv_from) refl

  -- The connection to any address is not a byte stream, whatever is taken for the bytes still to come: it
  -- breaks its promise wherever a datagram of two bytes or more waits. What does not fit the buffer of one
  -- `read` is not in the next, so the protocols that use `readExact` cannot run over it.
  pub udp_connection-ne-IsStream :
      (address : List ℕ) (addr : ℕ) (pending : List (List ℕ) → List ℕ)
      (IsValid : List (List ℕ) → Type 0) (datagram : List ℕ) (waiting : List (List ℕ))
      → inet_pton address ≡ some addr
      → IsValid (datagram ∷ waiting)
      → 1 < length datagram
      → ¬ IsStream (udp_connection address) pending IsValid
  udp_connection-ne-IsStream address addr pending IsValid datagram waiting e v long stream =
      let here = datagram ∷ waiting in
      let one = stream.in_order here 1 v in
      let two = stream.in_order here 2 v in
      let read_one = udp_read-some address addr datagram waiting 1 e in
      let read_two = udp_read-some address addr datagram waiting 2 e in
      let bytes_one : pending here ≡ take 1 datagram ++ pending waiting = rw read_one at one in
      let bytes_two : pending here ≡ take 2 datagram ++ pending waiting = rw read_two at two in
      absurd (
        omega (
          arith,
          ap length bytes_one,
          ap length bytes_two,
          length-append (take 1 datagram) (pending waiting),
          length-append (take 2 datagram) (pending waiting),
          length-take 1 datagram,
          length-take 2 datagram,
          long,
        ))
