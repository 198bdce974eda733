-- ===== src/Mqtt/Broker.antt =====
-- src/simple_socket/mqtt/MQTTBroker.cpp: the broker behind its connections.
--
-- A client is the address of its `Client`, a number. `subscribers_` is a function from the topics,
-- so the walk of `handlePublish` over all entries, which acts on the one with the given key, is a
-- step at that key. What the broker writes to its clients is logged in `sent`, and `up sent c` says
-- whether the next write to `c` succeeds: an arbitrary function, so any behaviour of the transports.
-- `closed` are the clients whose connection `cleanupClient` has closed.
pub mod Events
pub mod Bridge
pub mod Delivery
use simple_socket.Prelude.{
  ℕ, zero, suc, ◌+◌, ◌%◌, ◌^◌, ◌≡◌, Bool, true, false, not, ◌&&◌, Option, none, some, List, [], ◌∷◌,
  ◌++◌, ◌==◌, if◌then◌else◌, ltb, leb, length, shl, shr, get_or, take, drop, bit_and, bit_or,
}
use simple_socket.Connection.{Reader, read_exact}
use simple_socket.Mqtt.Codec.{
  connect_type, connack_type, publish_type, subscribe_type, suback_type, unsubscribe_type,
  unsuback_type, pingreq_type, pingresp_type, disconnect_type, encode_short_string,
  encode_remaining_length, decode_remaining_length,
}
use simple_socket.Mqtt.Topics.{Topic, Map, put, removed, insert, without, erase}

abbrev pub Log : Type 0
Log = List (ℕ × List ℕ)

pub record Broker : Type 0 where
  pub subscribers : Map (List ℕ)
  pub topics : ℕ → List Topic
  pub sent : Log
  pub closed : List ℕ

-- `(static_cast<uint16_t>(buf[p]) << 8) | buf[p + 1]`, under a guard that both bytes are there.
unfoldable pub word_at : List ℕ → ℕ → ℕ
word_at buf p = bit_or (shl 16 (get_or buf p 0) 8) (get_or buf (p + 1) 0)

-- `string(&buf[p], n)`, under a guard that the bytes are there.
abbrev pub text_at : List ℕ → ℕ → ℕ → List ℕ
text_at buf p n = take n (drop p buf)

-- `subscribers_[topic]` creates an empty entry where there is none.
abbrev pub entry : Map (List ℕ) → Topic → List ℕ
entry m t = elim (m t) [ none ↦ [] | some v ↦ v ]

abbrev pub set_topics : (ℕ → List Topic) → ℕ → List Topic → ℕ → List Topic
set_topics topics c ts d = if d == c then ts else topics d

-- The critical sections of `handleSubscriber`, of UNSUBSCRIBE and of `cleanupClient`.
unfoldable pub add_subscription : Broker → ℕ → Topic → Broker
add_subscription b c t = record b {
  subscribers = put b.subscribers t (entry b.subscribers t ++ c ∷ []);
  topics = set_topics b.topics c (insert (b.topics c) t);
}

unfoldable pub remove_subscription : Broker → ℕ → Topic → Broker
remove_subscription b c t = record b {
  topics = set_topics b.topics c (without (b.topics c) t);
  subscribers = put b.subscribers t (erase (entry b.subscribers t) c);
}

abbrev pub forget_topics : List Topic → ℕ → Map (List ℕ) → Map (List ℕ)
forget_topics [] c m = m
forget_topics (t ∷ ts) c m = forget_topics ts c (put m t (erase (entry m t) c))

unfoldable pub cleanup_client : Broker → ℕ → Broker
cleanup_client b c = record b {
  subscribers = forget_topics (b.topics c) c b.subscribers;
  closed = b.closed ++ c ∷ [];
}

-- The topic and the message of a PUBLISH with first byte `hdr`. Where `p` is the end of the buffer, the text at
-- `&buf[p]` has no bytes.
unfoldable pub parse_publish : ℕ → List ℕ → Option (Topic × List ℕ)
parse_publish hdr buf =
    let tlen = word_at buf 0 in
    let p = 2 + tlen in
    let qos = bit_and (shr hdr 1) 0x03 in
    let p' = if ltb 0 qos then p + 2 else p in
    if ltb (length buf) 2
    then none
    else if ltb (length buf) p
    then none
    else if ltb 0 qos && ltb (length buf) (p + 2)
    then none
    else if ltb (length buf) p'
    then none
    else some (text_at buf 2 tlen, drop p' buf)

-- The identifier and the topic of a SUBSCRIBE, and of an UNSUBSCRIBE.
unfoldable pub parse_subscribe : List ℕ → Option (ℕ × Topic)
parse_subscribe buf =
    let tlen = word_at buf 2 in
    if ltb (length buf) 5
    then none
    else if ltb (length buf) (4 + tlen + 1)
    then none
    else some (word_at buf 0, text_at buf 4 tlen)

unfoldable pub parse_unsubscribe : List ℕ → Option (ℕ × Topic)
parse_unsubscribe buf =
    let tlen = word_at buf 2 in
    if ltb (length buf) 4
    then none
    else if ltb (length buf) (4 + tlen)
    then none
    else some (word_at buf 0, text_at buf 4 tlen)

-- The PUBLISH that goes out, always with QoS 0.
unfoldable pub publish_packet : Topic → List ℕ → List ℕ
publish_packet t message =
    let pl = encode_short_string t ++ message in
    publish_type ∷ (encode_remaining_length (length pl) ++ pl)

unfoldable pub acknowledgement : ℕ → ℕ → List ℕ → List ℕ
acknowledgement type pid codes =
    type ∷ (length codes + 2) ∷ shr pid 8 % 2 ^ 8 ∷ bit_and pid 0xff % 2 ^ 8 ∷ codes

-- The checks on the payload of a CONNECT; its client identifier.
unfoldable pub parse_connect : List ℕ → Option (List ℕ)
parse_connect payload =
    let pos = 2 + word_at payload 0 + 4 in
    let cid_len = word_at payload pos in
    if ltb (length payload) 2
    then none
    else if ltb (length payload) pos
    then none
    else if ltb (length payload) (pos + 2)
    then none
    else if ltb (length payload) (pos + 2 + cid_len)
    then none
    else some (text_at payload (pos + 2) cid_len)

module _ (up : Log → ℕ → Bool) where
  -- `conn->write(packet)`.
  abbrev pub write : Broker → ℕ → List ℕ → Bool × Broker
  write b c packet = (up b.sent c, record b { sent = b.sent ++ (c, packet) ∷ [] })

  -- The loop over the subscribers of the topic, which stops at the first write that fails.
  unfoldable pub write_all : List ℕ → List ℕ → Broker → Bool × Broker
  write_all [] packet b = (true, b)
  write_all (c ∷ cs) packet b =
      let (sent, b') = write b c packet in
      let rest = write_all cs packet b' in if sent then rest else (false, b')

  -- The second critical section of `handlePublish`.
  unfoldable pub fan_out : Broker → Topic → List ℕ → Broker
  fan_out b t packet = elim (b.subscribers t) [
    | none ↦ b
    | some subs ↦
        let (all, b') = write_all subs packet b in
        if all then b' else record b' { subscribers = removed b'.subscribers t }
  ]

  unfoldable pub handle_publish : Broker → ℕ → List ℕ → Broker
  handle_publish b hdr buf = elim (parse_publish hdr buf) [
    | none ↦ b
    | some (t, message) ↦ elim (b.subscribers t) [
      | none ↦ b
      | some subs ↦ fan_out b t (publish_packet t message)
    ]
  ]

  -- The Boolean is `running`.
  unfoldable pub handle_subscriber : Broker → ℕ → List ℕ → Bool × Broker
  handle_subscriber b c buf = elim (parse_subscribe buf) [
    | none ↦ (true, b)
    | some (pid, t) ↦ write (add_subscription b c t) c (acknowledgement suback_type pid (0x00 ∷ []))
  ]

  unfoldable pub handle_unsubscribe : Broker → ℕ → List ℕ → Bool × Broker
  handle_unsubscribe b c buf = elim (parse_unsubscribe buf) [
    | none ↦ (true, b)
    | some (pid, t) ↦ write (remove_subscription b c t) c (acknowledgement unsuback_type pid [])
  ]

  -- The `switch` of `clientLoop`.
  unfoldable pub handle_packet : Broker → ℕ → ℕ → List ℕ → Bool × Broker
  handle_packet b c hdr buf =
      let type = bit_and hdr 0xf0 in
      let flags = bit_and hdr 0x0f in
      if type == publish_type
      then (true, handle_publish b hdr buf)
      else if type == bit_and subscribe_type 0xf0
      then (if flags == 0x02 then handle_subscriber b c buf else (true, b))
      else if type == bit_and unsubscribe_type 0xf0
      then (if flags == 0x02 then handle_unsubscribe b c buf else (true, b))
      else if type == pingreq_type
      then (if flags == 0x00 then write b c (pingresp_type ∷ 0x00 ∷ []) else (true, b))
      else if type == disconnect_type
      then (false, b)
      else (true, b)

  module _ {S : Type 0} (r : Reader S) where
    -- `clientLoop`, until `stop_` is seen: `turns` counts the tests of it that fail.
    unfoldable pub client_loop : ℕ → ℕ → Broker → S → Broker × S
    client_loop zero c b s = (b, s)
    client_loop (suc turns) c b s =
        let (got, hdr, s1) = read_exact r s 1 in
        let (rem, s2) = decode_remaining_length r s1 in
        let (full, buf, s3) = read_exact r s2 rem in
        let (running, b') = handle_packet b c (get_or hdr 0 0) buf in
        let rest = client_loop turns c b' s3 in
        if not got
        then (b, s1)
        else if not full
        then (b, s3)
        else if running
        then rest
        else (b', s3)

    -- `handleClient`; no exception is thrown by a transport that reports errors by its results.
    unfoldable pub handle_client : ℕ → ℕ → Broker → S → Broker × S
    unfolding client_loop
    handle_client turns c b s =
        let (got, hdr, s1) = read_exact r s 1 in
        let (rem, s2) = decode_remaining_length r s1 in
        let (full, payload, s3) = read_exact r s2 rem in
        let (sent, b1) = write b c (connack_type ∷ 0x02 ∷ 0x00 ∷ 0x00 ∷ []) in
        let (b2, s4) = client_loop turns c b1 s3 in
        if not got
        then (b, s1)
        else if not (get_or hdr 0 0 == connect_type)
        then (b, s1)
        else if not full
        then (b, s3)
        else elim (parse_connect payload) [
          | none ↦ (b, s3)
          | some cid ↦ if sent then (cleanup_client b2 c, s4) else (b1, s3)
        ]
