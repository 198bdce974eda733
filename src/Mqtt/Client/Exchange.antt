-- ===== src/Mqtt/Client/Exchange.antt =====
-- The client and the broker together: what one writes, the other reads.
use simple_socket.Prelude.{
  ℕ, zero, suc, ◌+◌, ◌/◌, ◌%◌, ◌^◌, ◌<◌, ◌≤◌, ◌≡◌, ◌≢◌, refl, sym, ap, ◌∙◌, Bool, true, none, some,
  List, [], ◌∷◌, ◌++◌, map, append_assoc, append-nil, ◌==◌, if◌then◌else◌, length, length-append,
  shl, shr, get_or, bit_and, bit_or, Outcome, ok, throw, runtime_error, leb, ◌&&◌, All,
  take-append_left, take_all, arith, Bool-cases, Option-cases, inl, inr,
}
use simple_socket.Prelude.Bits.{bit_and_byte, bit_or_bytes}
use simple_socket.Connection.{Reader, IsStream}
use simple_socket.Connection.Exact.{read_exact-Delivers}
use simple_socket.Connection.Segments.{joined}
use simple_socket.Mqtt.Codec.{encode_short_string, connack_type, publish_type}
use simple_socket.Mqtt.Codec.Frames.{frame, read_frame}
use simple_socket.Mqtt.Topics.{Topic, Map}
use simple_socket.Mqtt.Broker.{
  Broker, Log, handle_packet, parse_publish, parse_connect, parse_subscribe, parse_unsubscribe,
  publish_packet, word_at, client_loop,
}
use simple_socket.Mqtt.Broker.Delivery.{
  parse_publish-encode_short_string, handle_publish_delivers, client_loop-handle_all,
}
use simple_socket.Mqtt.Client.{
  Client, connect_payload, subscribe_payload, unsubscribe_payload, next_pid, parse_message,
  handle_message, run_loop, connack_handler, publish,
}

-- Two bytes that were written come back, wherever they are.
word_of_bytes :
    (n : ℕ) → n < 65536 → bit_or (shl 16 (shr n 8 % 2 ^ 8) 8) (bit_and n 0xff % 2 ^ 8) ≡ n
word_of_bytes n h = grind (arith, bit_and_byte n, bit_or_bytes (n / 256) (n % 256))

-- What `connect` sends, the broker accepts, with the client's identifier.
pub parse_connect-connect_payload :
    (client_id : List ℕ)
    → length client_id < 65536
    → parse_connect (connect_payload client_id) ≡ some client_id
unfolding parse_connect connect_payload encode_short_string word_at
parse_connect-connect_payload client_id h =
    rw (word_of_bytes (length client_id) h) (ground (arith, take_all client_id))

-- What `subscribe` sends, the broker reads as the topic, with identifier 1.
pub parse_subscribe-subscribe_payload :
    (t : Topic) → length t < 65536 → parse_subscribe (subscribe_payload t) ≡ some (1, t)
unfolding parse_subscribe subscribe_payload encode_short_string word_at
parse_subscribe-subscribe_payload t h =
    rw (word_of_bytes (length t) h)
      (ground (arith, length-append t (0x00 ∷ []), take-append_left t (0x00 ∷ [])))

-- What `unsubscribe` sends, the broker reads as the topic, with the identifier.
pub parse_unsubscribe-unsubscribe_payload :
    (pid : ℕ) (t : Topic)
    → pid < 65536
    → length t < 65536
    → parse_unsubscribe (unsubscribe_payload pid t) ≡ some (pid, t)
unfolding parse_unsubscribe unsubscribe_payload encode_short_string word_at
parse_unsubscribe-unsubscribe_payload pid t h h' =
    rw (word_of_bytes (length t) h', word_of_bytes pid h) (ground (arith, take_all t))

-- The identifiers of `unsubscribe` are two-byte numbers other than 0, and one follows another
-- without a repetition until the counter wraps.
pub next_pid_nonzero :
    (pid : ℕ) → pid < 65536 → (next_pid pid ≢ 0) × (next_pid pid < 65536) × (next_pid pid ≢ pid)
unfolding next_pid
next_pid_nonzero pid h = ground arith

abbrev Message : Type 0
Message = Topic × List ℕ

-- The packets of some messages in a row, as a subscriber receives them.
abbrev pub published : List Message → List ℕ
published [] = []
published ((t, message) ∷ ms) = publish_packet t message ++ published ms

-- The calls that they should cause.
abbrev pub calls_for : Map ℕ → List Message → List (ℕ × List ℕ)
calls_for callbacks [] = []
calls_for callbacks ((t, message) ∷ ms) =
    let rest = calls_for callbacks ms in
    elim (callbacks t) [ none ↦ rest | some callback ↦ (callback, message) ∷ rest ]

-- The sizes that the encoding carries.
abbrev pub Fits : Message → Type 0
Fits (t, message) = (length t < 65536) × (2 + length t + length message < 2 ^ 28)

calls_for_step :
    (callbacks : Map ℕ) (m : Message) (ms : List Message)
    → calls_for callbacks (m ∷ ms) ≡ calls_for callbacks (m ∷ []) ++ calls_for callbacks ms
calls_for_step callbacks (t, message) ms = elim (Option-cases (callbacks t)) [
  | inl e ↦ rw (e, calls_for) refl
  | inr (callback, e) ↦ rw (e, calls_for) refl
]

parse_message-encode_short_string :
    (t message : List ℕ)
    → length t < 65536
    → parse_message 0 (encode_short_string t ++ message) ≡ some (t, message)
unfolding parse_message parse_publish
parse_message-encode_short_string t message h =
    let same_parse : parse_message 0 (encode_short_string t ++ message)
        ≡ parse_publish 0 (encode_short_string t ++ message) =
      refl in
    same_parse ∙ parse_publish-encode_short_string 0 t message h refl

abbrev written_of : Outcome Client → List (List ℕ)
written_of (ok c) = c.written
written_of other = []

publish_written :
    (c c' : Client) (t message : List ℕ)
    → publish c t message ≡ ok c'
    → c'.written ≡ c.written ++ frame (publish_type, encode_short_string t ++ message) ∷ []
unfolding publish
publish_written c c' t message e = elim (Bool-cases c.is_connected) [
  | inl on ↦ sym (ap written_of e) ∙ rw on refl
  | inr off ↦ absurd (ground (arith, off, e))
]

length-encode_short_string : (t : List ℕ) → length (encode_short_string t) ≡ 2 + length t
unfolding encode_short_string
length-encode_short_string t = omega arith

body-Fits :
    (t message : List ℕ) → Fits (t, message) → length (encode_short_string t ++ message) < 2 ^ 28
body-Fits t message (h, h') =
    omega (arith, length-append (encode_short_string t) message, length-encode_short_string t)

handle_message_calls :
    (c : Client) (t message : List ℕ)
    → length t < 65536
    → handle_message c publish_type (encode_short_string t ++ message)
      ≡ record c { calls = c.calls ++ calls_for c.callbacks ((t, message) ∷ []) }
unfolding handle_message
handle_message_calls c t message h =
    rw (parse_message-encode_short_string t message h, handle_message)
      (elim (Option-cases (c.callbacks t)) [
        | inl e ↦ rw (e, calls_for) (ap (λ x. record c { calls = x }) (sym (append-nil c.calls)))
        | inr (callback, e) ↦ rw (e, calls_for) refl
      ])

module _ {S : Type 0} {r : Reader S} {pending : S → List ℕ} {IsValid : S → Type 0}
    (stream : IsStream r pending IsValid) where
  -- The thread of `run`, over any stream of the broker's publishes: each message whose topic has a
  -- callback is handed to it, once, whole and in order, and the others are passed over. The topics
  -- and packets are of the sizes that the encoding carries; `stop_` is seen no earlier than after
  -- the last message.
  pub run_loop-published :
      (ms : List Message) (turns : ℕ) (c : Client) (s : S)
      → IsValid s
      → All Fits ms
      → pending s ≡ published ms
      → length ms ≤ turns
      → (run_loop r turns c s).0 ≡ record c { calls = c.calls ++ calls_for c.callbacks ms }
  unfolding run_loop publish_packet
  run_loop-published [] zero c s v fits e enough =
      ap (λ x. record c { calls = x }) (sym (append-nil c.calls))
  run_loop-published [] (suc turns) c s v fits e enough =
      let (done, got, next, v') = read_exact-Delivers stream s 1 v in
      rw (done, run_loop, e) (ap (λ x. record c { calls = x }) (sym (append-nil c.calls)))
  run_loop-published (m ∷ ms) zero c s v fits e enough = absurd (omega arith)
  run_loop-published ((t, message) ∷ ms) (suc turns) c s v (fit, fits) e enough =
      let body = encode_short_string t ++ message in
      let (s1, s2, s3, first, second, third, next, v3) =
        read_frame stream s publish_type body (published ms) v (body-Fits t message fit) e in
      let c' = handle_message c publish_type body in
      let rest = run_loop-published ms turns c' s3 v3 fits next (omega arith) in
      let one = calls_for c.callbacks ((t, message) ∷ []) in
      let joined_calls =
        append_assoc c.calls one (calls_for c.callbacks ms)
        ∙ ap (λ x. c.calls ++ x) (sym (calls_for_step c.callbacks (t, message) ms)) in
      rw (first, run_loop, second, third)
        (rest
          ∙ rw (handle_message_calls c t message fit.0)
              (ap (λ x. record c { calls = x }) joined_calls))

  -- What a connected client's `publish` writes, read by the broker's loop from any stream, becomes
  -- one packet to each subscriber of the topic, in the order they subscribed, and changes nothing
  -- else. The sizes are those that the encoding carries, and no write to the subscribers fails.
  pub publish-client_loop :
      (up : Log → ℕ → Bool) (c c' : Client) (t message : List ℕ) (b : Broker) (s : S) (id : ℕ)
      (cs : List ℕ)
      → IsValid s
      → Fits (t, message)
      → c.written ≡ []
      → publish c t message ≡ ok c'
      → pending s ≡ joined c'.written
      → b.subscribers t ≡ some cs
      → ((log : Log) → All (λ d. up log d ≡ true) cs)
      → (client_loop up r 1 id b s).0
        ≡ record b { sent = b.sent ++ map (λ d. (d, publish_packet t message)) cs }
  unfolding handle_packet
  publish-client_loop up c c' t message b s id cs v fit fresh e p subs works =
      let body = encode_short_string t ++ message in
      let front =
        p
        ∙ ap joined (
            publish_written c c' t message e
            ∙ ap (λ w. w ++ frame (publish_type, body) ∷ []) fresh) in
      client_loop-handle_all up stream ((publish_type, body) ∷ []) 1 id b s v
        (body-Fits t message fit, tt) front (omega arith)
      ∙ handle_publish_delivers up b publish_type t message cs fit.0 refl subs works

  -- `connackHandler` on a packet that arrives whole: it returns exactly for a CONNACK of two bytes
  -- or more with code 0, and throws for all others.
  pub connack_handler_result :
      (hdr : ℕ) (vh ys : List ℕ) (s : S)
      → IsValid s
      → length vh < 2 ^ 28
      → pending s ≡ frame (hdr, vh) ++ ys
      → (connack_handler r s).0 ≡ (
          if (bit_and hdr 0xf0 == connack_type) && (leb 2 (length vh) && (get_or vh 1 0 == 0))
          then ok tt
          else throw runtime_error)
  unfolding connack_handler
  connack_handler_result hdr vh ys s v h e =
      let (s1, s2, s3, first, second, third, next, v3) = read_frame stream s hdr vh ys v h e in
      rw (first, connack_handler, second, third) (ground arith)
