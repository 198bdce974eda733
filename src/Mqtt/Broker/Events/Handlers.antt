-- ===== src/Mqtt/Broker/Events/Handlers.antt =====
-- The handlers of a client's thread are sequences of these steps, whatever it sends.
use simple_socket.Prelude.{
  ℕ, ◌⊎◌, ◌≢◌, inl, inr, sym, ap, ◌∙◌, All, All-weaken, arith, bit_and, zero, suc, ◌≡◌, refl, Bool,
  true, false, none, some, List, [], ◌∷◌,
}
use simple_socket.Prelude.{if◌then◌else◌, Option, ◌==◌, get_or, not}
use simple_socket.Connection.{Reader, read_exact}
use simple_socket.Mqtt.Codec.{
  decode_remaining_length, publish_type, pingresp_type, connect_type, connack_type,
}
use simple_socket.Mqtt.Topics.{Topic, holds}
use simple_socket.Mqtt.Broker.{
  Broker, Log, handle_publish, handle_subscriber, handle_unsubscribe, handle_packet, client_loop,
  handle_client, add_subscription, remove_subscription, parse_publish, parse_subscribe,
  parse_unsubscribe, parse_connect, entry, write, publish_packet,
}
use simple_socket.Mqtt.Broker.Events.{System, Event, Allowed, run, Reaches, initial}
use simple_socket.Mqtt.Broker.Events.Invariant.{subscribers_live}

either {ℓ κ} :
    {A : Type ℓ} (P : A → Type κ) (b : Bool) {x y : A} → P x → P y → P (if b then x else y)
either P true hx hy = hx
either P false hx hy = hy

either_case {ℓ κ} :
    {A : Type ℓ} {B : Type 0} (P : A → Type κ) (o : Option B) {x : A} {f : B → A}
    → P x
    → ((b : B) → P (f b))
    → P (elim o [ none ↦ x | some b ↦ f b ])
either_case P none hx hf = hx
either_case P (some b) hx hf = hf b

module _ (up : Log → ℕ → Bool) where
  abbrev after : System → Broker → System
  after s b = record s { broker = b }

  further : {s m s' : System} → Reaches up s m → Reaches up m s' → Reaches up s s'
  further first Reaches.stay = first
  further first (Reaches.next m e steps h) = Reaches.next m e (further first steps) h

  -- The broker after a handler of a client's thread.
  ReachedBy : System → Bool × Broker → Type 0
  ReachedBy s r = Reaches up s (after s r.1)

  answered :
      (s : System) (b : Broker) (c : ℕ) (packet : List ℕ)
      → Reaches up s (after s b)
      → ReachedBy s (write up b c packet)
  unfolding ReachedBy Allowed run
  answered s b c packet steps = Reaches.next (after s b) (Event.writes c packet) steps tt

  nothing : (s : System) (running : Bool) → ReachedBy s (running, s.broker)
  unfolding ReachedBy
  nothing s running = Reaches.stay

  module _ (s : System) (c : ℕ) where
    subscriber_reaches :
        (buf : List ℕ) → s.gone c ≡ false → ReachedBy s (handle_subscriber up s.broker c buf)
    unfolding handle_subscriber Allowed run
    subscriber_reaches buf here =
        either_case (ReachedBy s) (parse_subscribe buf) (nothing s true) (λ (pid, t).
          answered s (add_subscription s.broker c t) c _
            (Reaches.next s (Event.subscribes c t) Reaches.stay here))

    unsubscriber_reaches :
        (buf : List ℕ) → s.gone c ≡ false → ReachedBy s (handle_unsubscribe up s.broker c buf)
    unfolding handle_unsubscribe Allowed run
    unsubscriber_reaches buf here =
        either_case (ReachedBy s) (parse_unsubscribe buf) (nothing s true) (λ (pid, t).
          answered s (remove_subscription s.broker c t) c _
            (Reaches.next s (Event.unsubscribes c t) Reaches.stay here))

    publish-Reaches :
        (hdr : ℕ) (buf : List ℕ) → Reaches up s (after s (handle_publish up s.broker hdr buf))
    unfolding handle_publish Allowed run
    publish-Reaches hdr buf =
        either_case (λ b. Reaches up s (after s b)) (parse_publish hdr buf) Reaches.stay
          (λ x.
            either_case (λ b. Reaches up s (after s b)) (s.broker.subscribers x.0) Reaches.stay
              (λ subs.
                Reaches.next s (Event.delivers x.0 (publish_packet x.0 x.1)) Reaches.stay tt))

    packet_reaches :
        (hdr : ℕ) (buf : List ℕ)
        → s.gone c ≡ false
        → ReachedBy s (handle_packet up s.broker c hdr buf)
    unfolding handle_packet ReachedBy
    packet_reaches hdr buf here =
        let P = ReachedBy s in
        let done = nothing s true in
        let type = bit_and hdr 0xf0 in
        let flags = bit_and hdr 0x0f in
        let ping = answered s s.broker c (pingresp_type ∷ 0x00 ∷ []) Reaches.stay in
        either P (type == publish_type) (publish-Reaches hdr buf) (
          either P (type == 0x80) (either P (flags == 0x02) (subscriber_reaches buf here) done) (
            either P (type == 0xa0) (either P (flags == 0x02) (unsubscriber_reaches buf here) done)
              (either P (type == 0xc0) (either P (flags == 0x00) ping done)
                (either P (type == 0xe0) (nothing s false) done))))

  module _ {S : Type 0} (r : Reader S) where
    LoopReached : System → Broker × S → Type 0
    LoopReached s out = Reaches up s (after s out.0)

    loop_reaches :
        (turns c : ℕ) (s : System) (st : S)
        → s.gone c ≡ false
        → LoopReached s (client_loop up r turns c s.broker st)
    unfolding client_loop LoopReached ReachedBy
    loop_reaches zero c s st here = Reaches.stay
    loop_reaches (suc turns) c s st here =
        let P = LoopReached s in
        let (got, hdr, s1) = read_exact r st 1 in
        let (rem, s2) = decode_remaining_length r s1 in
        let (full, buf, s3) = read_exact r s2 rem in
        let (running, b') = handle_packet up s.broker c (get_or hdr 0 0) buf in
        let handled = packet_reaches s c (get_or hdr 0 0) buf here in
        let more = further handled (loop_reaches turns c (after s b') s3 here) in
        either P (not got) Reaches.stay
          (either P (not full) Reaches.stay (either P running more handled))

    -- A connection that ended in a state `s'` of the whole broker: its client left, or it never had
    -- a topic.
    Ended : System → ℕ → Broker × S → Type 0
    Ended s c out =
        (s' : System) × (s'.broker ≡ out.0)
        × Reaches up s s'
        × ((s'.gone c ≡ true) ⊎ (s'.broker.topics c ≡ s.broker.topics c))

    client_ends :
        (turns c : ℕ) (s : System) (st : S)
        → s.gone c ≡ false
        → Ended s c (handle_client up r turns c s.broker st)
    unfolding handle_client LoopReached ReachedBy Ended Allowed run
    client_ends turns c s st here =
        let P = Ended s c in
        let (got, hdr, s1) = read_exact r st 1 in
        let (rem, s2) = decode_remaining_length r s1 in
        let (full, payload, s3) = read_exact r s2 rem in
        let connack = connack_type ∷ 0x02 ∷ 0x00 ∷ 0x00 ∷ [] in
        let refused = answered s s.broker c connack Reaches.stay in
        let b1 = (write up s.broker c connack).1 in
        let b2 = (client_loop up r turns c b1 s3).0 in
        let looped = further refused (loop_reaches turns c (after s b1) s3 here) in
        let left = Reaches.next (after s b2) (Event.leaves c) looped here in
        let early : (s' : S) → P (s.broker, s') = λ s'. (s, refl, Reaches.stay, inr refl) in
        let itself : (c == c) ≡ true = ground arith in
        either P (not got) (early s1) (
          either P (not (get_or hdr 0 0 == connect_type)) (early s1) (
            either P (not full) (early s3) (
              either_case P (parse_connect payload) (early s3) (λ cid.
                either P (up s.broker.sent c) (_, refl, left, inl (rw itself refl))
                  (after s b1, refl, refused, inr refl)))))

    -- Whatever a new client sends, over whatever transport, and whichever writes fail: when its
    -- `handleClient` has returned, no topic's list holds its address, which is free from then on.
    -- The broker was reached by any interleaving before.
    pub handle_client_leaves :
        (turns c : ℕ) (s : System) (st : S) (t : Topic)
        → Reaches up initial s
        → s.gone c ≡ false
        → s.broker.topics c ≡ []
        → All (λ d. d ≢ c) (entry (handle_client up r turns c s.broker st).0.subscribers t)
    unfolding Ended
    handle_client_leaves turns c s st t steps here fresh =
        let (s', result, more, how) = client_ends turns c s st here in
        let live = subscribers_live up s' t (further steps more) in
        let apart : (d : ℕ) → (holds (s'.broker.topics d) t ≡ true) × (s'.gone d ≡ false) → d ≢ c =
          λ d h e. elim how [
            | inl left ↦ ground (arith, left, h.1, ap s'.gone e)
            | inr kept ↦
                let none_of_it : holds (s'.broker.topics d) t ≡ false =
                  ap (λ x. holds (s'.broker.topics x) t) e ∙ ap (λ ts. holds ts t) (kept ∙ fresh) in
                ground (arith, none_of_it, h.0)
          ] in
        rw (sym result) (All-weaken _ (λ d. d ≢ c) apart (entry s'.broker.subscribers t) live)
