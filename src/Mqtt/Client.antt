-- ===== src/Mqtt/Client.antt =====
-- src/simple_socket/mqtt/MQTTClient.cpp: the client over its connection.
--
-- A callback is a number and `calls` logs which one was called with which message. `written` logs
-- the packets handed to `conn_->write`, whose result the client ignores.
pub mod Exchange
use simple_socket.Prelude.{
  ℕ, zero, suc, ◌+◌, ◌%◌, ◌^◌, ◌≡◌, Bool, true, false, not, ◌&&◌, Option, none, some, List, [], ◌∷◌,
  ◌++◌, ◌==◌, if◌then◌else◌, ltb, length, shl, shr, get_or, take, drop, bit_and, bit_or, Outcome,
  ok, throw, Exception, runtime_error,
}
use simple_socket.Connection.{Reader, read_exact}
use simple_socket.Mqtt.Codec.{
  connect_type, connack_type, publish_type, subscribe_type, unsubscribe_type, disconnect_type,
  encode_short_string, encode_remaining_length, decode_remaining_length,
}
use simple_socket.Mqtt.Topics.{Topic, Map, put, removed}
use simple_socket.Mqtt.Broker.{word_at, text_at}

pub record Client : Type 0 where
  pub is_connected : Bool
  pub callbacks : Map ℕ
  pub written : List (List ℕ)
  pub calls : List (ℕ × List ℕ)
  -- The static variable of `unsubscribe`.
  pub pid : ℕ

-- `packet = {type}; … encodeRemainingLength(payload.size()) … payload`.
abbrev pub packet : ℕ → List ℕ → List ℕ
packet type payload = type ∷ (encode_remaining_length (length payload) ++ payload)

abbrev pub send : Client → List ℕ → Client
send c p = record c { written = c.written ++ p ∷ [] }

unfoldable pub connect_payload : List ℕ → List ℕ
connect_payload client_id =
    encode_short_string (0x4d ∷ 0x51 ∷ 0x54 ∷ 0x54 ∷ [])
    ++ (0x04 ∷ 0x02 ∷ 0x00 ∷ 0x3c ∷ encode_short_string client_id)

unfoldable pub subscribe_payload : Topic → List ℕ
subscribe_payload t = 0x00 ∷ 0x01 ∷ (encode_short_string t ++ 0x00 ∷ [])

unfoldable pub unsubscribe_payload : ℕ → Topic → List ℕ
unsubscribe_payload pid t = shr pid 8 % 2 ^ 8 ∷ bit_and pid 0xff % 2 ^ 8 ∷ encode_short_string t

-- `if (++pid == 0) ++pid`.
unfoldable pub next_pid : ℕ → ℕ
next_pid pid = let p = (pid + 1) % 2 ^ 16 in if p == 0 then (p + 1) % 2 ^ 16 else p

-- `emplace` leaves a callback that is there.
unfoldable pub subscribe : Client → Topic → ℕ → Outcome Client
subscribe c t callback =
    let c' = send c (packet subscribe_type (subscribe_payload t)) in
    if not c.is_connected then throw runtime_error else elim (c'.callbacks t) [
      | none ↦ ok (record c' { callbacks = put c'.callbacks t callback })
      | some old ↦ ok c'
    ]

unfoldable pub unsubscribe : Client → Topic → Client
unsubscribe c t =
    let pid = next_pid c.pid in
    let c' = send c (packet unsubscribe_type (unsubscribe_payload pid t)) in
    if not c.is_connected then c else record c' { callbacks = removed c'.callbacks t; pid = pid }

unfoldable pub publish : Client → Topic → List ℕ → Outcome Client
publish c t message =
    let payload = encode_short_string t ++ message in
    if not c.is_connected then throw runtime_error else ok (send c (packet publish_type payload))

unfoldable pub close : Client → Client
close c = if c.is_connected then send c (disconnect_type ∷ 0x00 ∷ []) else c

-- The topic and the message of a PUBLISH that arrives, by the flags of its first byte.
unfoldable pub parse_message : ℕ → List ℕ → Option (Topic × List ℕ)
parse_message flags payload =
    let topic_len = word_at payload 0 in
    let pos = 2 + topic_len in
    let qos = bit_and (shr flags 1) 0x03 in
    let pos' = if ltb 0 qos then pos + 2 else pos in
    if ltb (length payload) 2
    then none
    else if ltb (length payload) pos
    then none
    else if ltb 0 qos && ltb (length payload) (pos + 2)
    then none
    else if ltb (length payload) pos'
    then none
    else some (text_at payload 2 topic_len, drop pos' payload)

-- The `switch` of `run`: only PUBLISH has an effect.
unfoldable pub handle_message : Client → ℕ → List ℕ → Client
handle_message c header payload =
    if bit_and header 0xf0 == publish_type
    then elim (parse_message (bit_and header 0x0f) payload) [
      | none ↦ c
      | some (t, message) ↦ elim (c.callbacks t) [
        | none ↦ c
        | some callback ↦ record c { calls = c.calls ++ (callback, message) ∷ [] }
      ]
    ]
    else c

module _ {S : Type 0} (r : Reader S) where
  -- The thread of `run`; `turns` counts the tests of `stop_` that fail.
  unfoldable pub run_loop : ℕ → Client → S → Client × S
  run_loop zero c s = (c, s)
  run_loop (suc turns) c s =
      let (got, header, s1) = read_exact r s 1 in
      let (rem_len, s2) = decode_remaining_length r s1 in
      let (full, payload, s3) = read_exact r s2 rem_len in
      let rest = run_loop turns (handle_message c (get_or header 0 0) payload) s3 in
      if not got then (c, s1) else if not full then (c, s3) else rest

  unfoldable pub connack_handler : S → Outcome (Unit {0}) × S
  connack_handler s =
      let (got, header, s1) = read_exact r s 1 in
      let (rem_len, s2) = decode_remaining_length r s1 in
      let (full, vh, s3) = read_exact r s2 rem_len in
      let code = get_or vh 1 0 in
      if not got
      then (throw runtime_error, s1)
      else if not (bit_and (get_or header 0 0) 0xf0 == connack_type)
      then (throw runtime_error, s1)
      else if ltb rem_len 2
      then (throw runtime_error, s2)
      else if not full
      then (throw runtime_error, s3)
      else if code == 0x00
      then (ok tt, s3)
      else (throw runtime_error, s3)

  -- `connect`, on the connection that the context has made.
  unfoldable pub connect : Client → List ℕ → S → Outcome (Unit {0}) × Client × S
  connect c client_id s =
      let c' =
        send (record c { is_connected = true }) (packet connect_type (connect_payload client_id)) in
      let (result, s') = connack_handler s in (result, c', s')
