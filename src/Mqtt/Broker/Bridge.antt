-- ===== src/Mqtt/Broker/Bridge.antt =====
-- `wsAcceptLoop` of src/simple_socket/mqtt/MQTTBroker.cpp: the callbacks of the WebSocket server, the
-- client threads they start, and the sweep of the loop, as steps in any order.
--
-- A wrapper is named by its address, as is the client that owns it: `handleClient` destroys both when
-- it returns, and `wrappers` has nothing at the address from then on. `given` logs what the reads of a
-- client thread gave.
pub mod Queue
pub mod Entries
pub mod Delivery
pub mod Held
pub mod Live
pub mod Dangling
use simple_socket.Mqtt.WsWrapper.Events.{
  Wrapper, Action, reads, writes, closes, fresh_wrapper, push_back, close, act,
}
use simple_socket.Prelude.{
  ℕ, ◌≡◌, Bool, true, false, Option, none, some, List, [], ◌∷◌, ◌++◌, ◌==◌, if◌then◌else◌, Outcome,
  ok, throw, fault, ◌>>=◌, or_fault,
}

-- `connections` maps the address of a connection to that of its wrapper.
abbrev pub Entries : Type 0
Entries = List (ℕ × ℕ)

abbrev pub lookup : Entries → ℕ → Option ℕ
lookup [] c = none
lookup ((k, p) ∷ entries) c = if k == c then some p else lookup entries c

-- `connections[c] = w`.
abbrev pub assign : Entries → ℕ → ℕ → Entries
assign [] c w = (c, w) ∷ []
assign ((k, p) ∷ entries) c w = if k == c then (k, w) ∷ entries else (k, p) ∷ assign entries c w

pub record Bridge : Type 0 where
  pub connections : Entries
  pub wrappers : ℕ → Option Wrapper
  pub given : ℕ → List ℕ
  pub clients : List ℕ

abbrev pub no_connections : Bridge
no_connections = record { connections = []; wrappers = λ w. none; given = λ w. []; clients = [] }

abbrev pub update : {A : Type 0} → (ℕ → A) → ℕ → A → ℕ → A
update f w v d = if w == d then v else f d

-- `onOpen`, with the address that the wrapper gets.
unfoldable pub on_open : Bridge → ℕ → ℕ → Bridge
on_open b c w = record {
  connections = assign b.connections c w;
  wrappers = update b.wrappers w (some fresh_wrapper);
  given = update b.given w [];
  clients = b.clients ++ w ∷ [];
}

-- `connections[c]->…`: a key that is missing gives a null pointer, and the address of a wrapper that
-- is gone is no better.
unfoldable pub on_wrapper : Bridge → ℕ → (Wrapper → Wrapper) → Outcome Bridge
on_wrapper b c f = or_fault (lookup b.connections c) >>= λ w.
    or_fault (b.wrappers w) >>= λ o. ok (record b { wrappers = update b.wrappers w (some (f o)) })

unfoldable pub on_message : Bridge → ℕ → List ℕ → Outcome Bridge
unfolding on_wrapper
on_message b c msg = on_wrapper b c (λ o. push_back o msg)

unfoldable pub on_close : Bridge → ℕ → Outcome Bridge
unfolding on_wrapper
on_close b c = on_wrapper b c close

-- The loop that removes closed connections looks at every wrapper.
unfoldable pub sweep : (ℕ → Option Wrapper) → Entries → Outcome Entries
sweep wrappers [] = ok []
sweep wrappers ((k, p) ∷ entries) = or_fault (wrappers p) >>= λ o.
    sweep wrappers entries >>= λ rest. ok (if o.closed then rest else (k, p) ∷ rest)

-- A call of the thread of a client on its connection, the close of `cleanupClient` included, and its end.
unfoldable pub client_calls : (List (List ℕ) → Bool) → Bridge → ℕ → Action → Outcome Bridge
client_calls up b w a = or_fault (b.wrappers w) >>= λ o.
    let (got, o') = act up o a in
    ok (record b {
      wrappers = update b.wrappers w (some o');
      given = update b.given w (b.given w ++ got);
    })

unfoldable pub client_ends : Bridge → ℕ → Bridge
client_ends b w = record b { wrappers = update b.wrappers w none }

pub data Event : Type 0 where
  opens : ℕ → ℕ → Event
  message : ℕ → List ℕ → Event
  shuts : ℕ → Event
  sweeps : Event
  client_reads : ℕ → ℕ → Event
  client_writes : ℕ → List ℕ → Event
  client_closes : ℕ → Event
  ends : ℕ → Event

module _ (up : List (List ℕ) → Bool) where
  unfoldable pub step : Bridge → Event → Outcome Bridge
  unfolding on_open on_message on_close client_calls client_ends
  step b (opens c w) = ok (on_open b c w)
  step b (message c msg) = on_message b c msg
  step b (shuts c) = on_close b c
  step b sweeps = sweep b.wrappers b.connections >>= λ rest. ok (record b { connections = rest })
  step b (client_reads w n) = client_calls up b w (reads n)
  step b (client_writes w bytes) = client_calls up b w (writes bytes)
  step b (client_closes w) = client_calls up b w closes
  step b (ends w) = ok (client_ends b w)

  unfoldable pub run : Bridge → List Event → Outcome Bridge
  unfolding step
  run b [] = ok b
  run b (e ∷ events) = step b e >>= λ b'. run b' events
