-- ===== src/Mqtt/Broker/Events/Abstract.antt =====
-- What `subscribers_` of src/simple_socket/mqtt/MQTTBroker.cpp promises: how many subscriptions each client has
-- to each topic. Every critical section implements a step on these numbers.
use simple_socket.Mqtt.Broker.Events.Invariant.{
  entry-put, entry-removed, entry-forget_topics, write_all_logs, Reaches-IsSound,
}
use simple_socket.Mqtt.Broker.Events.{
  System, Event, Allowed, initial, IsRegistered, IsSound, run, Reaches,
}
use simple_socket.Mqtt.Broker.{
  Broker, Log, entry, add_subscription, remove_subscription, cleanup_client, write_all, fan_out,
}
use simple_socket.Mqtt.Topics.{Topic, same, same→≡, holds, erase}
use simple_socket.Prelude.{
  ℕ, ◌+◌, ◌≡◌, refl, sym, ap, ◌∙◌, Bool, true, false, ◌&&◌, inl, inr, Bool-cases, Option-cases,
  List, [], ◌∷◌, ◌++◌, ◌==◌, ==_iff, if◌then◌else◌, All, arith,
}

-- How many entries of a vector are the client `c`.
abbrev pub entries_of : List ℕ → ℕ → ℕ
entries_of [] c = 0
entries_of (first ∷ rest) c =
    let later = entries_of rest c in if first == c then 1 + later else later

abbrev pub View : Type 0
View = Topic → ℕ → ℕ

-- A topic with no entry has no subscribers.
unfoldable pub view : Broker → View
view b t c = entries_of (entry b.subscribers t) c

-- What a step leaves of a view. `all_sent` is whether every write of a delivery succeeds.
abbrev pub after : Bool → View → Event → View
after all_sent v (Event.subscribes c t) u d = if same u t && (d == c) then v u d + 1 else v u d
after all_sent v (Event.unsubscribes c t) u d = if same u t && (d == c) then 0 else v u d
after all_sent v (Event.delivers t packet) u d =
    if all_sent then v u d else (if same u t then 0 else v u d)
after all_sent v (Event.writes c packet) u d = v u d
after all_sent v (Event.leaves c) u d = if d == c then 0 else v u d

entries_of-erase :
    (xs : List ℕ) (gone a : ℕ)
    → entries_of (erase xs gone) a ≡ (if a == gone then 0 else entries_of xs a)
entries_of-erase [] gone a = ground arith
entries_of-erase (x ∷ xs) gone a = ground (arith, entries_of-erase xs gone a)

entries_of-append :
    (front : List ℕ) (a : ℕ) (back : List ℕ)
    → entries_of (front ++ back) a ≡ entries_of front a + entries_of back a
entries_of-append [] a back = omega arith
entries_of-append (x ∷ front) a back = ground (arith, entries_of-append front a back)

entries_of-put :
    (b : Broker) (t u : Topic) (d : ℕ) (xs : List ℕ)
    → entries_of (if same u t then xs else entry b.subscribers u) d
      ≡ (if same u t then entries_of xs d else entries_of (entry b.subscribers u) d)
entries_of-put b t u d xs = elim (Bool-cases (same u t)) [ inl e ↦ rw e refl | inr e ↦ rw e refl ]

view-subscribe :
    (b : Broker) (c : ℕ) (t u : Topic) (d : ℕ)
    → view (add_subscription b c t) u d
      ≡ (if same u t && (d == c) then view b u d + 1 else view b u d)
unfolding view add_subscription
view-subscribe b c t u d =
    rw (entry-put b.subscribers t u (entry b.subscribers t ++ c ∷ []))
      (elim (Bool-cases (same u t)) [
        | inl e ↦
            rw (e, same→≡ u t e, entries_of-append (entry b.subscribers t) d (c ∷ []))
              (ground arith)
        | inr e ↦ rw e refl
      ])

view-unsubscribe :
    (b : Broker) (c : ℕ) (t u : Topic) (d : ℕ)
    → view (remove_subscription b c t) u d ≡ (if same u t && (d == c) then 0 else view b u d)
unfolding view remove_subscription
view-unsubscribe b c t u d =
    rw (entry-put b.subscribers t u (erase (entry b.subscribers t) c))
      (elim (Bool-cases (same u t)) [
        | inl e ↦ rw (e, same→≡ u t e) (entries_of-erase (entry b.subscribers t) c d)
        | inr e ↦ rw e refl
      ])

-- Whoever has not a topic among its own is not in the topic's entry.
erase_unregistered :
    (s : System) (t : Topic) (c : ℕ) (xs : List ℕ)
    → holds (s.broker.topics c) t ≡ false
    → All (IsRegistered s t) xs
    → erase xs c ≡ xs
unfolding IsRegistered
erase_unregistered s t c [] other h = refl
erase_unregistered s t c (x ∷ xs) other ((registered, here), h) = elim (Bool-cases (x == c)) [
  | inl e ↦
      absurd (
        ground (arith, registered, other, ap (λ y. holds (s.broker.topics y) t) ((==_iff x c).0 e)))
  | inr e ↦ rw e (ap (◌∷◌ x) (erase_unregistered s t c xs other h))
]

view-leave :
    (s : System) (c : ℕ) (u : Topic) (d : ℕ)
    → IsSound s
    → view (cleanup_client s.broker c) u d ≡ (if d == c then 0 else view s.broker u d)
unfolding view cleanup_client IsSound
view-leave s c u d sound =
    let xs = entry s.broker.subscribers u in
    rw (entry-forget_topics (s.broker.topics c) c s.broker.subscribers u)
      (elim (Bool-cases (holds (s.broker.topics c) u)) [
        | inl e ↦ rw e (entries_of-erase xs c d)
        | inr e ↦ rw e (
            ap (λ ys. entries_of ys d) (sym (erase_unregistered s u c xs e (sound u)))
            ∙ entries_of-erase xs c d)
      ])

module _ (up : Log → ℕ → Bool) where
  -- Whether the writes succeed, one after the other.
  abbrev pub all_written : Log → List ℕ → List ℕ → Bool
  all_written log packet [] = true
  all_written log packet (c ∷ cs) = up log c && all_written (log ++ (c, packet) ∷ []) packet cs

  write_all-all_written :
      (cs : List ℕ) (packet : List ℕ) (b : Broker)
      → (write_all up cs packet b).0 ≡ all_written b.sent packet cs
  unfolding write_all
  write_all-all_written [] packet b = refl
  write_all-all_written (c ∷ cs) packet b = elim (Bool-cases (up b.sent c)) [
    | inl e ↦
        rw e (write_all-all_written cs packet (record b { sent = b.sent ++ (c, packet) ∷ [] }))
    | inr e ↦ rw e refl
  ]

  view-deliver :
      (b : Broker) (t : Topic) (packet : List ℕ) (u : Topic) (d : ℕ)
      → view (fan_out up b t packet) u d ≡ (
          if all_written b.sent packet (entry b.subscribers t)
          then view b u d
          else (if same u t then 0 else view b u d))
  unfolding view fan_out
  view-deliver b t packet u d = elim (Option-cases (b.subscribers t)) [
    | inl e ↦
        let no_one : entry b.subscribers t ≡ [] = rw (e, entry) refl in
        rw (e, fan_out) (rw no_one refl)
    | inr (subs, e) ↦
        let them : entry b.subscribers t ≡ subs = rw (e, entry) refl in
        let (log, same_maps) = write_all_logs up subs packet b in
        let test = write_all-all_written subs packet b in
        elim (Bool-cases (all_written b.sent packet subs)) [
          | inl all ↦ rw (e, fan_out, test ∙ all, same_maps) (rw (them, all) refl)
          | inr some_fail ↦
              rw (e, fan_out, test ∙ some_fail, same_maps, entry-removed b.subscribers t u)
                (rw (them, some_fail) (entries_of-put b t u d []))
        ]
  ]

  -- Whether a delivery reaches all subscribers of its topic.
  abbrev pub outcome : System → Event → Bool
  outcome s (Event.subscribes c t) = true
  outcome s (Event.unsubscribes c t) = true
  outcome s (Event.delivers t packet) =
      all_written s.broker.sent packet (entry s.broker.subscribers t)
  outcome s (Event.writes c packet) = true
  outcome s (Event.leaves c) = true

  -- Every critical section of the broker, at every moment of every interleaving of the clients' threads,
  -- changes the numbers of subscriptions as its event says: a SUBSCRIBE adds one of the client to one
  -- topic, an UNSUBSCRIBE takes all of the client from one, a client that leaves has none in any topic,
  -- a delivery changes nothing where every write to the topic's subscribers succeeds, one after the
  -- other, and takes all subscriptions from its topic, and from no other, where one fails. Other writes
  -- change nothing.
  pub view-run :
      (s : System) (e : Event) (u : Topic) (d : ℕ)
      → Reaches up initial s
      → Allowed s e
      → view (run up s e).broker u d ≡ after (outcome s e) (view s.broker) e u d
  unfolding run IsSound initial view
  view-run s (Event.subscribes c t) u d steps h = view-subscribe s.broker c t u d
  view-run s (Event.unsubscribes c t) u d steps h = view-unsubscribe s.broker c t u d
  view-run s (Event.delivers t packet) u d steps h = view-deliver s.broker t packet u d
  view-run s (Event.writes c packet) u d steps h = refl
  view-run s (Event.leaves c) u d steps h =
      view-leave s c u d (Reaches-IsSound up initial s (λ v. tt) steps)
