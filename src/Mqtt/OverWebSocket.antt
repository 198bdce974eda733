-- ===== src/Mqtt/OverWebSocket.antt =====
-- MQTT over WebSockets: `listen` of src/simple_socket/ws/WebSocketConnection.hpp, `WsWrapper` of
-- src/simple_socket/mqtt/WsMqttWrapper.hpp and `clientLoop` of src/simple_socket/mqtt/MQTTBroker.cpp
-- together.
use simple_socket.Connection.Segments.{joined}
use simple_socket.Mqtt.Broker.{Broker, Log, client_loop}
use simple_socket.Mqtt.Broker.Delivery.{handle_all, client_loop-handle_all}
use simple_socket.Mqtt.Codec.Frames.{frames}
use simple_socket.Mqtt.WsWrapper.{wrapper, AreNonempty, wrapper-IsStream}
use simple_socket.Prelude.{
  ℕ, ◌^◌, ◌≤◌, ◌<◌, ◌≡◌, refl, sym, ap, ◌∙◌, Bool, List, ◌∷◌, length, All, Bool-cases, inl, inr,
  Outcome, ok, throw, fault,
}
use simple_socket.Ws.Frames.{Role}
use simple_socket.Ws.Listener.{Listener, opened, receive, listen}
use simple_socket.Ws.Listener.Messages.{Message, frames_of, payloads, receive-frames_of}
use simple_socket.Ws.Listener.Reads.{listen-joined}
use simple_socket.Ws.Listener.Segments.{seen, outcome_seen}

-- What is seen of a listener has its messages.
seen-delivered : (l : Listener) → (seen l).delivered ≡ l.delivered
seen-delivered l = elim (Bool-cases l.is_shut) [ inl e ↦ rw e refl | inr e ↦ rw e refl ]

delivered_of :
    (m : Outcome Listener) (k : Listener)
    → outcome_seen m ≡ outcome_seen (ok k)
    → (l : Listener) × (m ≡ ok l) × (l.delivered ≡ k.delivered)
delivered_of (ok l) k e =
    let same_view : seen l ≡ seen k = cc e in
    (l, refl, sym (seen-delivered l) ∙ ap (λ x. x.delivered) same_view ∙ seen-delivered k)
delivered_of (throw x) k e = absurd (cc e)
delivered_of fault k e = absurd (cc e)

module _ (random : List (List ℕ) → List ℕ) where
  -- However the bytes of a client's frames are cut into reads, `listen` hands on its messages.
  listen-payloads :
      (ms : List Message) (got : List ℕ) (later : List (List ℕ))
      → joined (got ∷ later) ≡ frames_of Role.client ms
      → All (λ m. length m.payload < 2 ^ 63) ms
      → (l : Listener) × (listen Role.server random opened (got ∷ later) ≡ ok l)
        × (l.delivered ≡ payloads ms)
  unfolding opened
  listen-payloads ms got later bytes short =
      delivered_of (listen Role.server random opened (got ∷ later))
        (record opened { delivered = payloads ms })
        (listen-joined Role.server random later opened got refl
          ∙ ap (λ xs. outcome_seen (receive Role.server random opened xs)) bytes
          ∙ ap outcome_seen (receive-frames_of Role.client random ms opened refl refl refl short))

  -- An MQTT client that sends its packets in WebSocket messages, cut anywhere into messages, whose frames
  -- the transport cuts anywhere into reads: the connection is handled without an exception, and the
  -- broker's loop over the messages handles exactly the packets that were sent, each whole and in order. It
  -- stops after the one that ends the connection, or when the connection closes. The messages are such as
  -- a vector can hold and none is empty, the bodies of the packets are below 2^28 bytes, and `stop_` is seen
  -- no earlier than after the last of them.
  pub listen-client_loop :
      (up : Log → ℕ → Bool) (ms : List Message) (ps : List (ℕ × List ℕ)) (got : List ℕ)
      (later : List (List ℕ)) (turns c : ℕ) (b : Broker)
      → joined (got ∷ later) ≡ frames_of Role.client ms
      → All (λ m. length m.payload < 2 ^ 63) ms
      → AreNonempty (payloads ms)
      → joined (payloads ms) ≡ frames ps
      → All (λ p. length p.1 < 2 ^ 28) ps
      → length ps ≤ turns
      → (l : Listener) × (listen Role.server random opened (got ∷ later) ≡ ok l)
        × ((client_loop up wrapper turns c b l.delivered).0 ≡ handle_all up c ps b)
  listen-client_loop up ms ps got later turns c b bytes short full packets small enough =
      let (l, listened, messages) = listen-payloads ms got later bytes short in
      (
        l,
        listened,
        ap (λ q. (client_loop up wrapper turns c b q).0) messages
            ∙ client_loop-handle_all up wrapper-IsStream ps turns c b (payloads ms) full small
                packets enough,
      )
