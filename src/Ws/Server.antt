-- ===== src/Ws/Server.antt =====
-- The loop of `run` in src/simple_socket/ws/WebSocket.cpp, and `connect` of
-- src/simple_socket/ws/WebSocketClient.cpp. `accept` and the handshake may throw; the
-- connections are what the handshake leaves.
pub mod Run
pub mod Present
pub mod Closes
use simple_socket.Connection.{Reader}
use simple_socket.Prelude.{
  ℕ, Bool, Option, none, some, List, [], ◌∷◌, ◌++◌, if◌then◌else◌, Outcome, ok, throw, fault, ◌>>=◌,
}
use simple_socket.Text.{starts_with, codes}
use simple_socket.Ws.Handshake.Key.{generate_sec_web_socket_key}
use simple_socket.Ws.Handshake.{handshake, perform_handshake, parse_web_socket_url}

module _ {C : Type 0} where
  -- The loop that erases closed connections.
  unfoldable pub cleanup : (C → Bool) → List C → List C
  cleanup closed [] = []
  cleanup closed (ws ∷ connections) =
      let rest = cleanup closed connections in if closed ws then rest else ws ∷ rest

module _ {S : Type 0} (c : Reader S) (write : S → List ℕ → Option S)
    (generate : List ℕ → List ℕ) where
  -- A round: what `accept` gave, `none` where it threw, and which connections are closed at its end.
  unfoldable pub serve : List S → Option S → (S → Bool) → Outcome (List S)
  unfolding handshake cleanup
  serve connections none closed = ok (cleanup closed connections)
  serve connections (some conn) closed = elim (handshake c write generate conn) [
    | ok ws ↦ ok (cleanup closed (connections ++ ws ∷ []))
    | throw e ↦ ok (cleanup closed connections)
    | fault ↦ fault
  ]

  -- A failed connection is dereferenced by the handshake.
  unfoldable pub connect : (List ℕ → ℕ → Bool → Option S) → List ℕ → List ℕ → Outcome S
  unfolding parse_web_socket_url perform_handshake generate_sec_web_socket_key
  connect context_connect random url =
      let use_tls = starts_with (codes "wss://") url in
      parse_web_socket_url url >>= λ r.
      let (host, port) = r in
      elim (context_connect host port use_tls) [
        | none ↦ fault
        | some conn ↦
            perform_handshake c write generate url host port (generate_sec_web_socket_key random)
              conn
      ]
