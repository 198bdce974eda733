-- ===== src/Mqtt/Broker/Events/Invariant.antt =====
-- The invariant on `subscribers_`, kept by every step.
use simple_socket.Prelude.{
  ℕ, ◌≡◌, ◌≢◌, refl, sym, ap, ◌∙◌, Bool, true, false, none, some, inl, inr, ◌⊎◌, Bool-cases,
  Option-cases, List, [], ◌∷◌, ◌++◌, ◌==◌, if◌then◌else◌, All, All-append, All-weaken, arith,
}
use simple_socket.Mqtt.Topics.{
  Topic, Map, same, same→≡, same-false, same_refl, put, removed, holds, insert, without, erase,
  holds-insert, holds-insert_same, holds-without, erase_twice, All-erase,
}
use simple_socket.Mqtt.Broker.{
  Broker, Log, entry, set_topics, add_subscription, remove_subscription, forget_topics,
  cleanup_client, write, write_all, fan_out,
}
use simple_socket.Mqtt.Broker.Events.{
  System, Event, Allowed, initial, IsRegistered, IsSound, run, Reaches,
}

pub entry-put :
    (m : Map (List ℕ)) (t u : Topic) (v : List ℕ)
    → entry (put m t v) u ≡ (if same u t then v else entry m u)
entry-put m t u v = by_test (same u t)
  where
    by_test :
        (b : Bool)
        → (elim (if b then some v else m u) [ none ↦ [] | some w ↦ w ])
          ≡ (if b then v else entry m u)
    by_test true = refl
    by_test false = refl

pub entry-removed :
    (m : Map (List ℕ)) (t u : Topic) → entry (removed m t) u ≡ (if same u t then [] else entry m u)
entry-removed m t u = by_test (same u t)
  where
    by_test :
        (b : Bool)
        → (elim (if b then none else m u) [ none ↦ [] | some w ↦ w ])
          ≡ (if b then [] else entry m u)
    by_test true = refl
    by_test false = refl

holds-set_topics :
    (topics : ℕ → List Topic) (c d : ℕ) (ts : List Topic) (u : Topic)
    → (holds (topics c) u ≡ true → holds ts u ≡ true)
    → holds (topics d) u ≡ true
    → holds (set_topics topics c ts d) u ≡ true
holds-set_topics topics c d ts u keeps h = elim (Bool-cases (d == c)) [
  | inl e ↦
      let same_client : d ≡ c = ground (arith, e) in
      rw e (keeps (ap (λ x. holds (topics x) u) (sym same_client) ∙ h))
  | inr e ↦ rw e h
]

holds-insert_set :
    (c : ℕ) (topics : ℕ → List Topic) (t : Topic)
    → holds (set_topics topics c (insert (topics c) t) c) t ≡ true
holds-insert_set c topics t =
    let here : (c == c) ≡ true = ground arith in rw here (holds-insert_same (topics c) t)

pub entry-forget_topics :
    (ts : List Topic) (c : ℕ) (m : Map (List ℕ)) (u : Topic)
    → entry (forget_topics ts c m) u ≡ (if holds ts u then erase (entry m u) c else entry m u)
entry-forget_topics [] c m u = refl
entry-forget_topics (t ∷ ts) c m u =
    let v = erase (entry m t) c in
    let at = entry-put m t u v in
    entry-forget_topics ts c (put m t v) u
    ∙ rw at (elim (Bool-cases (same u t)) [
      | inl e ↦
          let once = erase_twice (entry m t) c in
          ground (arith, e, once, ap (λ x. entry m x) (same→≡ u t e))
      | inr e ↦ ground (arith, e)
    ])

module _ (up : Log → ℕ → Bool) where
  IsSound-subscribes :
      (s : System) (c : ℕ) (t : Topic)
      → IsSound s
      → s.gone c ≡ false
      → IsSound (run up s (Event.subscribes c t))
  unfolding run IsSound IsRegistered add_subscription
  IsSound-subscribes s c t sound here u =
      let b = s.broker in
      let ts = insert (b.topics c) t in
      let Q = IsRegistered (run up s (Event.subscribes c t)) in
      let kept = λ (x : Topic).
        All-weaken (IsRegistered s x) (Q x)
          (λ d h. (holds-set_topics b.topics c d ts x (holds-insert (b.topics c) t x) h.0, h.1))
          (entry b.subscribers x) (sound x) in
      let own : Q t c = (holds-insert_set c (b.topics) t, here) in
      rw (entry-put b.subscribers t u (entry b.subscribers t ++ c ∷ []))
        (elim (Bool-cases (same u t)) [
          | inl e ↦
              rw (e, same→≡ u t e)
                (All-append (Q t) (entry b.subscribers t) (c ∷ []) (kept t) (own, tt))
          | inr e ↦ rw e (kept u)
        ])

  IsSound-unsubscribes :
      (s : System) (c : ℕ) (t : Topic) → IsSound s → IsSound (run up s (Event.unsubscribes c t))
  unfolding run IsSound IsRegistered remove_subscription
  IsSound-unsubscribes s c t sound u =
      let b = s.broker in
      let ts = without (b.topics c) t in
      let Q = IsRegistered (run up s (Event.unsubscribes c t)) in
      let others : (d : ℕ) → IsRegistered s t d × (d ≢ c) → Q t d =
        λ d h. let apart : (d == c) ≡ false = ground (arith, h.1) in rw apart h.0 in
      let erased =
        All-weaken _ (Q t) others (erase (entry b.subscribers t) c)
          (All-erase (IsRegistered s t) (entry b.subscribers t) c (sound t)) in
      rw (entry-put b.subscribers t u (erase (entry b.subscribers t) c))
        (elim (Bool-cases (same u t)) [
          | inl e ↦ rw (e, same→≡ u t e) erased
          | inr e ↦
              let apart : same t u ≡ false =
                same-false t u (λ e'. ground (arith, e, same_refl t, ap (λ x. same x t) e')) in
              let kept =
                All-weaken (IsRegistered s u) (Q u)
                  (λ d h. (
                    holds-set_topics b.topics c d ts u
                        (λ h'. sym (holds-without (b.topics c) t u apart) ∙ h') h.0,
                    h.1,
                  ))
                  (entry b.subscribers u) (sound u) in
              rw e kept
        ])

  pub write_all_logs :
      (cs : List ℕ) (packet : List ℕ) (b : Broker)
      → (log : Log) × ((write_all up cs packet b).1 ≡ record b { sent = log })
  unfolding write_all
  write_all_logs [] packet b = (b.sent, refl)
  write_all_logs (c ∷ cs) packet b = elim (Bool-cases (up b.sent c)) [
    | inl e ↦ rw e (write_all_logs cs packet (write up b c packet).1)
    | inr e ↦ (b.sent ++ (c, packet) ∷ [], rw e refl)
  ]

  -- Either the entries stay, or the one of the topic is gone.
  pub fan_out_cases :
      (b : Broker) (t : Topic) (packet : List ℕ)
      → (log : Log) × ((fan_out up b t packet ≡ record b { sent = log })
          ⊎ (fan_out up b t packet
              ≡ record b { sent = log; subscribers = removed b.subscribers t }))
  unfolding fan_out
  fan_out_cases b t packet = elim (Option-cases (b.subscribers t)) [
    | inl e ↦ (b.sent, inl (rw (e, fan_out) refl))
    | inr (subs, e) ↦
        let (log, same_maps) = write_all_logs subs packet b in
        (
          log,
          elim (Bool-cases (write_all up subs packet b).0) [
            | inl all ↦ inl (rw (e, fan_out, all, same_maps) refl)
            | inr some_fail ↦ inr (rw (e, fan_out, some_fail, same_maps) refl)
          ],
        )
  ]

  IsSound-delivers :
      (s : System) (t : Topic) (packet : List ℕ)
      → IsSound s
      → IsSound (run up s (Event.delivers t packet))
  unfolding run IsSound IsRegistered
  IsSound-delivers s t packet sound u =
      let (log, cases) = fan_out_cases s.broker t packet in
      elim cases [
        | inl e ↦ rw e (sound u)
        | inr e ↦
            rw (e, entry-removed s.broker.subscribers t u)
              (elim (Bool-cases (same u t)) [ inl e' ↦ rw e' tt | inr e' ↦ rw e' (sound u) ])
      ]

  IsSound-leaves : (s : System) (c : ℕ) → IsSound s → IsSound (run up s (Event.leaves c))
  unfolding run IsSound IsRegistered cleanup_client
  IsSound-leaves s c sound u =
      let b = s.broker in
      let Q = IsRegistered (run up s (Event.leaves c)) in
      let others : (d : ℕ) → IsRegistered s u d × (d ≢ c) → Q u d =
        λ d h. let apart : (d == c) ≡ false = ground (arith, h.1) in (h.0.0, rw apart h.0.1) in
      rw (entry-forget_topics (b.topics c) c b.subscribers u)
        (elim (Bool-cases (holds (b.topics c) u)) [
          | inl e ↦ rw e (
              All-weaken _ (Q u) others _
                (All-erase (IsRegistered s u) (entry b.subscribers u) c (sound u)))
          | inr e ↦ rw e (
              All-weaken _ (Q u)
                (λ d h.
                  others d (h, λ e'. ground (arith, e, h.0, ap (λ x. holds (b.topics x) u) e')))
                (entry b.subscribers u) (sound u))
        ])

  run-IsSound : (s : System) (e : Event) → IsSound s → Allowed s e → IsSound (run up s e)
  unfolding Allowed IsSound IsRegistered run
  run-IsSound s (Event.subscribes c t) sound h = IsSound-subscribes s c t sound h
  run-IsSound s (Event.unsubscribes c t) sound h = IsSound-unsubscribes s c t sound
  run-IsSound s (Event.delivers t packet) sound h = IsSound-delivers s t packet sound
  run-IsSound s (Event.writes c packet) sound h = sound
  run-IsSound s (Event.leaves c) sound h = IsSound-leaves s c sound

  pub Reaches-IsSound : (s s' : System) → IsSound s → Reaches up s s' → IsSound s'
  Reaches-IsSound s s' sound Reaches.stay = sound
  Reaches-IsSound s s' sound (Reaches.next m e steps h) =
      run-IsSound m e (Reaches-IsSound s m sound steps) h

  -- At every moment of every interleaving of the clients' threads: each client in the list of a
  -- topic has not ended, so a publish never writes through the address of a destroyed `Client`, and
  -- has that topic among its own, so its cleanup will find the entry.
  pub subscribers_live :
      (s : System) (t : Topic)
      → Reaches up initial s
      → All
          (λ c. (holds (s.broker.topics c) t ≡ true) × (s.gone c ≡ false))
          (entry s.broker.subscribers t)
  unfolding IsSound IsRegistered initial
  subscribers_live s t steps = Reaches-IsSound initial s (λ u. tt) steps t
