-- ===== src/Tests/Mqtt.antt =====
-- The MQTT broker and client on small packets.
use simple_socket.Prelude.{
  ℕ, ◌≡◌, ◌≢◌, refl, Bool, true, false, none, List, [], ◌∷◌, ◌++◌, All, if◌then◌else◌, ◌==◌, arith,
}
use simple_socket.Connection.Segments.{segments, joined, Any, segments-IsStream}
use simple_socket.Mqtt.Codec.{
  encode_remaining_length, decode_remaining_length, publish_type, encode_short_string,
}
use simple_socket.Mqtt.Codec.Lengths.{decode_remaining_length-encode_remaining_length}
use simple_socket.Mqtt.Codec.Frames.{frame, frames}
use simple_socket.Mqtt.Topics.{Topic, holds, put, removed}
use simple_socket.Mqtt.Broker.{
  Broker, Log, entry, handle_publish, handle_client, client_loop, publish_packet,
}
use simple_socket.Mqtt.Broker.Events.{System, Event, Reaches, Allowed, initial, run}
use simple_socket.Mqtt.Broker.Events.Abstract.{view, after, outcome, view-run}
use simple_socket.Mqtt.Broker.Events.Invariant.{subscribers_live}
use simple_socket.Mqtt.Broker.Events.Handlers.{handle_client_leaves}
use simple_socket.Mqtt.Broker.Delivery.{
  handle_publish_delivers, handle_publish_drops, handle_all, client_loop-handle_all,
}
use simple_socket.Mqtt.Client.{Client, connect_payload, subscribe_payload, publish, run_loop}
use simple_socket.Mqtt.Client.Exchange.{published, run_loop-published, publish-client_loop}

abbrev room : Topic
room = 0x72 ∷ 0x6f ∷ []

-- Two clients have subscribed to one topic.
abbrev two_subscribers : Broker
two_subscribers = record {
  subscribers = put (λ t. none) room (7 ∷ 9 ∷ []);
  topics = λ c. room ∷ [];
  sent = [];
  closed = [];
}

abbrev all_up : Log → ℕ → Bool
all_up log c = true

abbrev nine_down : Log → ℕ → Bool
nine_down log c = if c == 9 then false else true

decode_remaining_length-encode_remaining_length_example :
    (s : List (List ℕ)) × (decode_remaining_length segments ((0xac ∷ []) ∷ (0x02 ∷ 5 ∷ []) ∷ [])
      ≡ (300, s))
    × (joined s ≡ 5 ∷ [])
    × Any s
unfolding encode_remaining_length
decode_remaining_length-encode_remaining_length_example =
    decode_remaining_length-encode_remaining_length segments-IsStream 300 (5 ∷ [])
      ((0xac ∷ []) ∷ (0x02 ∷ 5 ∷ []) ∷ []) tt (omega arith) refl

subscribers_live_example :
    All
      (λ c.
        (holds ((run all_up initial (Event.subscribes 4 room)).broker.topics c) room ≡ true)
        × ((run all_up initial (Event.subscribes 4 room)).gone c ≡ false))
      (entry (run all_up initial (Event.subscribes 4 room)).broker.subscribers room)
unfolding Allowed initial
subscribers_live_example =
    subscribers_live all_up (run all_up initial (Event.subscribes 4 room)) room
      (Reaches.next initial (Event.subscribes 4 room) Reaches.stay refl)

-- A client that connects, subscribes and goes.
abbrev short_visit : List (List ℕ)
short_visit = frame (0x10, connect_payload (0x61 ∷ [])) ∷ frame (0x82, subscribe_payload room) ∷ []

handle_client_leaves_example :
    All
      (λ d. d ≢ 4)
      (entry (handle_client all_up segments 5 4 initial.broker short_visit).0.subscribers room)
unfolding initial
handle_client_leaves_example =
    handle_client_leaves all_up segments 5 4 initial short_visit room Reaches.stay refl refl

handle_publish_delivers_example :
    handle_publish all_up two_subscribers 0x30 (encode_short_string room ++ 1 ∷ 2 ∷ [])
    ≡ record two_subscribers {
      sent = (7, publish_packet room (1 ∷ 2 ∷ [])) ∷ (9, publish_packet room (1 ∷ 2 ∷ [])) ∷ [];
    }
handle_publish_delivers_example =
    handle_publish_delivers all_up two_subscribers 0x30 room (1 ∷ 2 ∷ []) (7 ∷ 9 ∷ []) (omega arith)
      refl refl (λ log. (refl, (refl, tt)))

handle_publish_drops_example :
    handle_publish nine_down two_subscribers 0x30 (encode_short_string room ++ 1 ∷ 2 ∷ [])
    ≡ record two_subscribers {
      subscribers = removed two_subscribers.subscribers room;
      sent = (7, publish_packet room (1 ∷ 2 ∷ [])) ∷ (9, publish_packet room (1 ∷ 2 ∷ [])) ∷ [];
    }
handle_publish_drops_example =
    handle_publish_drops nine_down two_subscribers 0x30 room (1 ∷ 2 ∷ []) (7 ∷ []) 9 []
      (omega arith) refl refl (λ log. (refl, tt)) (λ log. refl)

abbrev three_packets : List (ℕ × List ℕ)
three_packets = (0x82, subscribe_payload room) ∷ (0xc0, []) ∷ (0xe0, []) ∷ []

client_loop-handle_all_example :
    (client_loop all_up segments 3 4 two_subscribers (frames three_packets ∷ [])).0
    ≡ handle_all all_up 4 three_packets two_subscribers
unfolding subscribe_payload encode_short_string encode_remaining_length
client_loop-handle_all_example =
    client_loop-handle_all all_up segments-IsStream three_packets 3 4 two_subscribers
      (frames three_packets ∷ []) tt (omega arith, (omega arith, (omega arith, tt))) refl
      (omega arith)

abbrev listener : Client
listener = record {
  is_connected = true;
  callbacks = put (λ t. none) room 3;
  written = [];
  calls = [];
  pid = 1;
}

run_loop-published_example :
    (run_loop segments 5 listener (published ((room, 8 ∷ []) ∷ ([], []) ∷ []) ∷ [])).0
    ≡ record listener { calls = (3, 8 ∷ []) ∷ [] }
unfolding publish_packet encode_short_string encode_remaining_length
run_loop-published_example =
    run_loop-published segments-IsStream ((room, 8 ∷ []) ∷ ([], []) ∷ []) 5 listener
      (published ((room, 8 ∷ []) ∷ ([], []) ∷ []) ∷ []) tt
      ((omega arith, omega arith), ((omega arith, omega arith), tt)) refl (omega arith)

publish-client_loop_example :
    (client_loop all_up segments 1 4 two_subscribers
      (frame (publish_type, encode_short_string room ++ 8 ∷ []) ∷ [])).0
    ≡ record two_subscribers {
      sent = (7, publish_packet room (8 ∷ [])) ∷ (9, publish_packet room (8 ∷ [])) ∷ [];
    }
unfolding publish
publish-client_loop_example =
    publish-client_loop segments-IsStream all_up listener
      (record listener { written = frame (publish_type, encode_short_string room ++ 8 ∷ []) ∷ [] })
      room (8 ∷ []) two_subscribers (frame (publish_type, encode_short_string room ++ 8 ∷ []) ∷ [])
      4 (7 ∷ 9 ∷ []) tt (omega arith, omega arith) refl refl refl refl (λ log. (refl, (refl, tt)))

abbrev no_writes : Log → ℕ → Bool
no_writes log c = false

abbrev one_subscriber : System
one_subscriber = run no_writes initial (Event.subscribes 4 room)

-- The write to the only subscriber fails.
view-run_example :
    view (run no_writes one_subscriber (Event.delivers room (8 ∷ []))).broker room 4
    ≡ after
        (outcome no_writes one_subscriber (Event.delivers room (8 ∷ [])))
        (view one_subscriber.broker)
        (Event.delivers room (8 ∷ []))
        room
        4
unfolding Allowed initial run
view-run_example =
    view-run no_writes one_subscriber (Event.delivers room (8 ∷ [])) room 4
      (Reaches.next initial (Event.subscribes 4 room) Reaches.stay refl) tt
