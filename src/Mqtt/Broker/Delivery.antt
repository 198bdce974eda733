-- ===== src/Mqtt/Broker/Delivery.antt =====
-- What a publish does for the subscribers, and the order in which a connection's packets count.
use simple_socket.Prelude.{
  ℕ, zero, suc, ◌+◌, ◌/◌, ◌<◌, ◌≤◌, ◌%◌, ◌^◌, ◌≡◌, refl, sym, ap, ◌∙◌, Bool, true, false, some,
  List, [], ◌∷◌, ◌++◌, map, append-nil, append_assoc, if◌then◌else◌, length, length-append, All,
  take, drop, take-append_left, drop-append_left, arith, shr, bit_and, Bool-cases, inl, inr,
}
use simple_socket.Prelude.Bits.{bit_and_byte, bit_or_bytes}
use simple_socket.Connection.{Reader, IsStream}
use simple_socket.Connection.Exact.{read_exact-Delivers}
use simple_socket.Mqtt.Codec.{encode_short_string}
use simple_socket.Mqtt.Codec.Frames.{frames, read_frame}
use simple_socket.Mqtt.Topics.{removed}
use simple_socket.Mqtt.Broker.{
  Broker, Log, word_at, parse_publish, publish_packet, write, write_all, fan_out, handle_publish,
  handle_packet, client_loop,
}

-- A length that was written comes back.
pub word_at-encode_short_string :
    (t ys : List ℕ) → length t < 65536 → word_at (encode_short_string t ++ ys) 0 ≡ length t
unfolding word_at encode_short_string
word_at-encode_short_string t ys h =
    grind (arith, bit_and_byte (length t), bit_or_bytes (length t / 256) (length t % 256))

parse_publish_accepts :
    (hdr : ℕ) (buf : List ℕ) (tlen : ℕ)
    → word_at buf 0 ≡ tlen
    → 2 + tlen ≤ length buf
    → bit_and (shr hdr 1) 0x03 ≡ 0
    → parse_publish hdr buf ≡ some (take tlen (drop 2 buf), drop (suc (suc tlen)) buf)
unfolding parse_publish
parse_publish_accepts hdr buf tlen word fits qos =
    let p : 2 + tlen ≡ suc (suc tlen) = omega arith in rw (word, qos) (ground (arith, p))

pub parse_publish-encode_short_string :
    (hdr : ℕ) (t message : List ℕ)
    → length t < 65536
    → bit_and (shr hdr 1) 0x03 ≡ 0
    → parse_publish hdr (encode_short_string t ++ message) ≡ some (t, message)
unfolding encode_short_string
parse_publish-encode_short_string hdr t message h qos =
    parse_publish_accepts hdr (encode_short_string t ++ message) (length t)
      (word_at-encode_short_string t message h) (omega (arith, length-append t message)) qos
    ∙ ground (arith, take-append_left t message, drop-append_left t message)

module _ (up : Log → ℕ → Bool) where
  logged : List ℕ → List ℕ → Log
  logged cs packet = map (λ c. (c, packet)) cs

  write_all_ok :
      (cs packet : List ℕ) (b : Broker)
      → ((log : Log) → All (λ c. up log c ≡ true) cs)
      → write_all up cs packet b ≡ (true, record b { sent = b.sent ++ logged cs packet })
  unfolding write_all logged
  write_all_ok [] packet b h = ap (λ l. (true, record b { sent = l })) (sym (append-nil b.sent))
  write_all_ok (c ∷ cs) packet b h =
      let head = (h b.sent).0 in
      rw (head, write_all_ok cs packet (write up b c packet).1 (λ log. (h log).1))
        (ap (λ l. (true, record b { sent = l }))
          (append_assoc b.sent ((c, packet) ∷ []) (logged cs packet)))

  -- Every subscriber of the topic, in the order of their subscriptions and as often as each
  -- subscribed, is written one packet, the same for all: the topic and the message of the publish.
  -- Nothing else changes. It is about a publish with QoS 0 whose topic has a list, where no write to
  -- those on it fails.
  pub handle_publish_delivers :
      (b : Broker) (hdr : ℕ) (t message : List ℕ) (cs : List ℕ)
      → length t < 65536
      → bit_and (shr hdr 1) 0x03 ≡ 0
      → b.subscribers t ≡ some cs
      → ((log : Log) → All (λ c. up log c ≡ true) cs)
      → handle_publish up b hdr (encode_short_string t ++ message)
        ≡ record b { sent = b.sent ++ map (λ c. (c, publish_packet t message)) cs }
  unfolding handle_publish fan_out logged
  handle_publish_delivers b hdr t message cs h qos e works =
      let parsed = parse_publish-encode_short_string hdr t message h qos in
      let written = write_all_ok cs (publish_packet t message) b works in
      rw (parsed, handle_publish, e, fan_out, e, written) refl

  write_all_fails :
      (before : List ℕ) (c : ℕ) (later packet : List ℕ) (b : Broker)
      → ((log : Log) → All (λ d. up log d ≡ true) before)
      → ((log : Log) → up log c ≡ false)
      → write_all up (before ++ c ∷ later) packet b
        ≡ (false, record b { sent = b.sent ++ logged (before ++ c ∷ []) packet })
  unfolding write_all logged
  write_all_fails [] c later packet b works down = rw (down b.sent) refl
  write_all_fails (d ∷ before) c later packet b works down =
      let head = (works b.sent).0 in
      let tail =
        write_all_fails before c later packet (write up b d packet).1 (λ log. (works log).1) down in
      rw (head, tail)
        (ap (λ l. (false, record b { sent = l }))
          (append_assoc b.sent ((d, packet) ∷ []) (logged (before ++ c ∷ []) packet)))

  -- One subscriber whose connection is down ends the delivery: those who subscribed after it get
  -- nothing, and the whole entry of the topic is dropped, so all others, whose connections work,
  -- have lost their subscription too.
  pub handle_publish_drops :
      (b : Broker) (hdr : ℕ) (t message : List ℕ) (before : List ℕ) (c : ℕ) (later : List ℕ)
      → length t < 65536
      → bit_and (shr hdr 1) 0x03 ≡ 0
      → b.subscribers t ≡ some (before ++ c ∷ later)
      → ((log : Log) → All (λ d. up log d ≡ true) before)
      → ((log : Log) → up log c ≡ false)
      → handle_publish up b hdr (encode_short_string t ++ message) ≡ record b {
        subscribers = removed b.subscribers t;
        sent = b.sent ++ map (λ d. (d, publish_packet t message)) (before ++ c ∷ []);
      }
  unfolding handle_publish fan_out logged
  handle_publish_drops b hdr t message before c later h qos e works down =
      let parsed = parse_publish-encode_short_string hdr t message h qos in
      let written = write_all_fails before c later (publish_packet t message) b works down in
      rw (parsed, handle_publish, e, fan_out, e, written) refl

  -- The packets of a connection in the order they were sent, up to the first that ends it.
  abbrev pub handle_all : ℕ → List (ℕ × List ℕ) → Broker → Broker
  handle_all c [] b = b
  handle_all c ((hdr, body) ∷ ps) b =
      let (running, b') = handle_packet up b c hdr body in
      let rest = handle_all c ps b' in if running then rest else b'

  module _ {S : Type 0} {r : Reader S} {pending : S → List ℕ} {IsValid : S → Type 0}
      (stream : IsStream r pending IsValid) where
    -- `clientLoop` over any stream handles exactly the packets that were sent, each whole and in
    -- order, however the transport cut them: it stops after the one that ends the connection, or
    -- where the stream ends. The bodies are below 2^28 bytes, and `stop_` is seen no earlier than
    -- after the last of them.
    pub client_loop-handle_all :
        (ps : List (ℕ × List ℕ)) (turns c : ℕ) (b : Broker) (s : S)
        → IsValid s
        → All (λ p. length p.1 < 2 ^ 28) ps
        → pending s ≡ frames ps
        → length ps ≤ turns
        → (client_loop up r turns c b s).0 ≡ handle_all c ps b
    unfolding client_loop
    client_loop-handle_all [] zero c b s v short e enough = refl
    client_loop-handle_all [] (suc turns) c b s v short e enough =
        let (done, got, next, v') = read_exact-Delivers stream s 1 v in
        rw (done, client_loop, e) refl
    client_loop-handle_all (p ∷ ps) zero c b s v short e enough = absurd (omega arith)
    client_loop-handle_all ((hdr, body) ∷ ps) (suc turns) c b s v (h, short) e enough =
        let (s1, s2, s3, first, second, third, next, v3) =
          read_frame stream s hdr body (frames ps) v h e in
        let (running, b') = handle_packet up b c hdr body in
        let rest = client_loop-handle_all ps turns c b' s3 v3 short next (omega arith) in
        rw (first, client_loop, second, third)
          (elim (Bool-cases running) [ inl more ↦ rw more rest | inr last ↦ rw last refl ])
