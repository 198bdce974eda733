-- ===== src/Mqtt/Broker/Events.antt =====
-- The critical sections of the broker as the steps of all its threads, in any order, and the
-- invariant on `subscribers_` that holds at every moment.
pub mod Invariant
pub mod Handlers
pub mod Abstract
use simple_socket.Prelude.{
  ℕ, ◌≡◌, ◌≢◌, refl, sym, ap, ◌∙◌, Bool, true, false, none, some, inl, inr, ◌⊎◌, Bool-cases,
  Option-cases, List, [], ◌∷◌, ◌++◌, ◌==◌, if◌then◌else◌, All, All-append, All-weaken, arith,
  ==_iff,
}
use simple_socket.Mqtt.Topics.{
  Topic, Map, same, same→≡, same-false, same_refl, put, removed, holds, insert, without, erase,
  holds-insert, holds-insert_same, holds-without, erase_twice, All-erase,
}
use simple_socket.Mqtt.Broker.{
  Broker, Log, entry, set_topics, add_subscription, remove_subscription, forget_topics,
  cleanup_client, write, write_all, fan_out,
}

-- `gone c`: the thread of `c` has ended and its `Client` is destroyed.
pub record System : Type 0 where
  pub broker : Broker
  pub gone : ℕ → Bool

pub data Event : Type 0 where
  subscribes unsubscribes : ℕ → Topic → Event
  delivers : Topic → List ℕ → Event
  writes : ℕ → List ℕ → Event
  leaves : ℕ → Event

-- A thread acts only while its client is there.
unfoldable pub Allowed : System → Event → Type 0
Allowed s (Event.subscribes c t) = s.gone c ≡ false
Allowed s (Event.unsubscribes c t) = s.gone c ≡ false
Allowed s (Event.delivers t packet) = Unit {0}
Allowed s (Event.writes c packet) = Unit {0}
Allowed s (Event.leaves c) = s.gone c ≡ false

-- Before the first client: no subscription.
unfoldable pub initial : System
initial = record {
  broker = record { subscribers = λ t. none; topics = λ c. []; sent = []; closed = [] };
  gone = λ c. false;
}

unfoldable pub IsRegistered : System → Topic → ℕ → Type 0
IsRegistered s t c = (holds (s.broker.topics c) t ≡ true) × (s.gone c ≡ false)

-- Whoever is in the entry of a topic is there, and has the topic among its own.
unfoldable pub IsSound : System → Type 0
IsSound s = (t : Topic) → All (IsRegistered s t) (entry s.broker.subscribers t)

module _ (up : Log → ℕ → Bool) where
  unfoldable pub run : System → Event → System
  run s (Event.subscribes c t) = record s { broker = add_subscription s.broker c t }
  run s (Event.unsubscribes c t) = record s { broker = remove_subscription s.broker c t }
  run s (Event.delivers t packet) = record s { broker = fan_out up s.broker t packet }
  run s (Event.writes c packet) = record s { broker = (write up s.broker c packet).1 }
  run s (Event.leaves c) = record s {
    broker = cleanup_client s.broker c;
    gone = λ d. if d == c then true else s.gone d;
  }

  pub data Reaches (s : System) : System → Type 0 where
    stay : Reaches s s
    next : (m : System) (e : Event) → Reaches s m → Allowed m e → Reaches s (run m e)
