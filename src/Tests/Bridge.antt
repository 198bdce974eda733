-- ===== src/Tests/Bridge.antt =====
-- The broker behind WebSockets on small runs.
use simple_socket.Connection.Segments.{joined}
use simple_socket.Mqtt.Broker.Bridge.{
  lookup, Bridge, no_connections, on_open, Event, opens, message, shuts, sweeps, client_reads, ends,
  step, run, sweep,
}
use simple_socket.Mqtt.Broker.Bridge.Dangling.{run-ends-ne-ok}
use simple_socket.Mqtt.Broker.Bridge.Held.{Opened, opened_after, nothing_opened}
use simple_socket.Mqtt.Broker.Bridge.Live.{Reaches, start, next, Reaches-step-ok}
use simple_socket.Mqtt.Broker.Bridge.Delivery.{messages_of, run-messages_of}
use simple_socket.Mqtt.Broker.{Broker, client_loop}
use simple_socket.Mqtt.Broker.Delivery.{handle_all}
use simple_socket.Mqtt.Codec.{encode_remaining_length}
use simple_socket.Mqtt.OverWebSocket.{listen-client_loop}
use simple_socket.Mqtt.WsWrapper.{wrapper}
use simple_socket.Mqtt.WsWrapper.Events.{Wrapper, act, read, push_back}
use simple_socket.Prelude.{
  ℕ, ◌≡◌, refl, ap, ◌∙◌, Bool, true, false, none, some, List, [], ◌∷◌, ◌++◌, append-nil, take, drop,
  take-append-drop, Outcome, ok, throw, fault, arith,
}
use simple_socket.Ws.Frames.{Role}
use simple_socket.Ws.Listener.{Listener, opened, listen}
use simple_socket.Ws.Listener.Messages.{Message, frames_of}

abbrev all_up : List (List ℕ) → Bool
all_up log = true

abbrev bridge_of : Outcome Bridge → Bridge
bridge_of (ok b) = b
bridge_of (throw e) = no_connections
bridge_of fault = no_connections

-- Two connections; a byte is read by the first client.
abbrev busy : List Event
busy =
    opens 2 200
    ∷ message 1 (1 ∷ 2 ∷ [])
    ∷ message 2 (9 ∷ [])
    ∷ client_reads 100 1
    ∷ sweeps
    ∷ message 1 (3 ∷ [])
    ∷ shuts 1
    ∷ []

run-messages_of_example :
    (o : Wrapper) × ((bridge_of (run all_up no_connections (opens 1 100 ∷ busy))).wrappers 100
      ≡ some o)
    × (joined (messages_of 1 busy)
        ≡ (bridge_of (run all_up no_connections (opens 1 100 ∷ busy))).given 100 ++ joined o.queue)
unfolding run sweep act read push_back
run-messages_of_example =
    run-messages_of all_up 1 100 no_connections
      (bridge_of (run all_up no_connections (opens 1 100 ∷ busy))) busy (refl, tt)
      ((refl, refl), (tt, (tt, (tt, (tt, (tt, (tt, tt))))))) refl

abbrev one_opened : Opened
one_opened = opened_after nothing_opened (opens 1 100)

one_connection : Reaches all_up (on_open no_connections 1 100) one_opened
unfolding step
one_connection =
    next no_connections (on_open no_connections 1 100) nothing_opened (opens 1 100) start
      (refl, refl) refl

Reaches-step-ok_example :
    (b : Bridge) × (step all_up (on_open no_connections 1 100) sweeps ≡ ok b)
    × Reaches all_up b (opened_after one_opened sweeps)
    × ((c w : ℕ) → opened_after one_opened sweeps c ≡ some w → lookup b.connections c ≡ some w)
unfolding on_open
Reaches-step-ok_example =
    Reaches-step-ok all_up (on_open no_connections 1 100) one_opened sweeps one_connection tt

run-ends-ne-ok_example : ¬ (
    (b : Bridge) × (run all_up
        (on_open no_connections 1 100)
        (ends 100 ∷ ((opens 2 200 ∷ shuts 2 ∷ []) ++ sweeps ∷ []))
      ≡ ok b))
unfolding on_open
run-ends-ne-ok_example =
    run-ends-ne-ok all_up (on_open no_connections 1 100) 1 100 (opens 2 200 ∷ shuts 2 ∷ []) refl
      ((refl, refl), (tt, tt))

-- PINGREQ and DISCONNECT, in two messages that are cut inside the first packet.
abbrev two_messages : List Message
two_messages =
    record { is_text = false; payload = 0xc0 ∷ []; m₀ = 1; m₁ = 2; m₂ = 3; m₃ = 4 }
    ∷ record { is_text = false; payload = 0x00 ∷ 0xe0 ∷ 0x00 ∷ []; m₀ = 5; m₁ = 6; m₂ = 7; m₃ = 8 }
    ∷ []

abbrev two_packets : List (ℕ × List ℕ)
two_packets = (0xc0, []) ∷ (0xe0, []) ∷ []

abbrev nobody : Broker
nobody = record { subscribers = λ t. none; topics = λ c. []; sent = []; closed = [] }

abbrev no_mask : List (List ℕ) → List ℕ
no_mask sent = []

abbrev both_frames : List ℕ
both_frames = frames_of Role.client two_messages

listen-client_loop_example :
    (l : Listener) × (listen Role.server no_mask opened
        (take 4 both_frames ∷ drop 4 both_frames ∷ [])
      ≡ ok l)
    × ((client_loop (λ log c. true) wrapper 2 7 nobody l.delivered).0
        ≡ handle_all (λ log c. true) 7 two_packets nobody)
unfolding encode_remaining_length
listen-client_loop_example =
    listen-client_loop no_mask (λ log c. true) two_messages two_packets (take 4 both_frames)
      (drop 4 both_frames ∷ []) 2 7 nobody
      (ap (λ x. take 4 both_frames ++ x) (append-nil (drop 4 both_frames))
        ∙ take-append-drop 4 both_frames)
      (omega arith, (omega arith, tt)) (omega arith, (omega arith, tt)) refl
      (omega arith, (omega arith, tt)) (omega arith)
