-- ===== src/Mqtt/Broker/Bridge/Delivery.antt =====
-- The messages of a WebSocket connection reach the client that was started for it.
use simple_socket.Connection.Segments.{joined}
use simple_socket.Mqtt.Broker.Bridge.Queue.{
  IsPaired, Waits, assign-IsPaired, sweep-IsPaired, other_text, on_wrapper-Waits,
  client_calls-Waits,
}
use simple_socket.Mqtt.Broker.Bridge.{
  Bridge, on_open, on_message, on_close, sweep, client_ends, Event, opens, message, shuts, sweeps,
  client_reads, client_writes, client_closes, ends, step, run,
}
use simple_socket.Mqtt.WsWrapper.Events.{
  closes, Wrapper, reads, writes, fresh_wrapper, push_back, close, joined-append,
}
use simple_socket.Prelude.{
  ℕ, ◌≡◌, refl, sym, ap, ◌∙◌, Bool, false, some, List, [], ◌∷◌, ◌++◌, ◌==◌, if◌then◌else◌, ok, All,
  Bool-cases, inl, inr, append_assoc, append-nil, ==_iff, >>=-ok,
}

-- What came in on a connection.
abbrev pub messages_of : ℕ → List Event → List (List ℕ)
messages_of c [] = []
messages_of c (message k msg ∷ events) =
    if k == c then msg ∷ messages_of c events else messages_of c events
messages_of c (opens k p ∷ events) = messages_of c events
messages_of c (shuts k ∷ events) = messages_of c events
messages_of c (sweeps ∷ events) = messages_of c events
messages_of c (client_reads p n ∷ events) = messages_of c events
messages_of c (client_writes p bytes ∷ events) = messages_of c events
messages_of c (client_closes p ∷ events) = messages_of c events
messages_of c (ends p ∷ events) = messages_of c events

-- An event of others: no second connection at the address `c`, no second wrapper at the address `w`
-- while the first is there.
abbrev pub IsOther : ℕ → ℕ → Event → Type 0
IsOther c w (opens k p) = ((k == c) ≡ false) × ((p == w) ≡ false)
IsOther c w (ends p) = (p == w) ≡ false
IsOther c w (message k msg) = Unit {0}
IsOther c w (shuts k) = Unit {0}
IsOther c w sweeps = Unit {0}
IsOther c w (client_reads p n) = Unit {0}
IsOther c w (client_writes p bytes) = Unit {0}
IsOther c w (client_closes p) = Unit {0}

-- Where one event leaves the pair.
step-Waits :
    (up : List (List ℕ) → Bool) (c w : ℕ) (text : List ℕ) (b b' : Bridge) (e : Event)
    → IsOther c w e
    → All (IsPaired c w) b.connections
    → Waits w text b
    → step up b e ≡ ok b'
    → All (IsPaired c w) b'.connections × Waits w (text ++ joined (messages_of c (e ∷ []))) b'
unfolding step on_open on_message on_close client_ends push_back close
step-Waits up c w text b b' (opens k p) (other_key, other_place) paired (o, alive, order) e =
    let done : on_open b k p ≡ b' = cc e in
    rw (← done) (
      assign-IsPaired c w k p b.connections (other_key ∙ sym other_place) paired,
      (o, rw other_place alive, rw other_place (append-nil text ∙ order)),
    )
step-Waits up c w text b b' (message k msg) other paired h e =
    let (same_map, waits) =
      on_wrapper-Waits c w text b b' k (λ o. push_back o msg) (joined (msg ∷ []))
        (λ o. sym (joined-append o.queue (msg ∷ []))) paired h e in
    let same_text : text ++ (if k == c then joined (msg ∷ []) else [])
        ≡ text ++ joined (if k == c then msg ∷ [] else []) =
      elim (Bool-cases (k == c)) [ inl t ↦ rw t refl | inr t ↦ rw t refl ] in
    (rw same_map paired, other_text w b' _ _ same_text waits)
step-Waits up c w text b b' (shuts k) other paired h e =
    let (same_map, waits) =
      on_wrapper-Waits c w text b b' k close [] (λ o. append-nil (joined o.queue)) paired h e in
    let same_text : text ++ (if k == c then [] else []) ≡ text ++ [] = elim (Bool-cases (k == c)) [
      | inl t ↦ rw t refl
      | inr t ↦ rw t refl
    ] in
    (rw same_map paired, other_text w b' _ _ same_text waits)
step-Waits up c w text b b' sweeps other paired (o, alive, order) e =
    let (rest, swept, last) = >>=-ok (sweep b.wrappers b.connections) _ e in
    let done : record b { connections = rest } ≡ b' = cc last in
    rw (← done) (
      sweep-IsPaired c w b.wrappers b.connections rest paired swept,
      (o, alive, append-nil text ∙ order),
    )
step-Waits up c w text b b' (client_reads p n) other paired h e =
    let (same_map, waits) = client_calls-Waits up w text b b' p (reads n) refl h e in
    (rw same_map paired, waits)
step-Waits up c w text b b' (client_writes p bytes) other paired h e =
    let (same_map, waits) = client_calls-Waits up w text b b' p (writes bytes) refl h e in
    (rw same_map paired, waits)
step-Waits up c w text b b' (client_closes p) other paired h e =
    let (same_map, waits) = client_calls-Waits up w text b b' p closes refl h e in
    (rw same_map paired, waits)
step-Waits up c w text b b' (ends p) other paired (o, alive, order) e =
    let done : client_ends b p ≡ b' = cc e in
    rw (← done) (paired, (o, rw other alive, append-nil text ∙ order))

messages_of-cons :
    (c : ℕ) (e : Event) (events : List Event)
    → joined (messages_of c (e ∷ events))
      ≡ joined (messages_of c (e ∷ [])) ++ joined (messages_of c events)
messages_of-cons c (message k msg) events = elim (Bool-cases (k == c)) [
  | inl t ↦ rw t (ap (λ x. x ++ joined (messages_of c events)) (sym (append-nil msg)))
  | inr t ↦ rw t refl
]
messages_of-cons c (opens k p) events = refl
messages_of-cons c (shuts k) events = refl
messages_of-cons c sweeps events = refl
messages_of-cons c (client_reads p n) events = refl
messages_of-cons c (client_writes p bytes) events = refl
messages_of-cons c (client_closes p) events = refl
messages_of-cons c (ends p) events = refl

run-Waits :
    (up : List (List ℕ) → Bool) (c w : ℕ) (text : List ℕ) (b b' : Bridge) (events : List Event)
    → All (IsOther c w) events
    → All (IsPaired c w) b.connections
    → Waits w text b
    → run up b events ≡ ok b'
    → Waits w (text ++ joined (messages_of c events)) b'
unfolding run
run-Waits up c w text b b' [] others paired h e =
    let same_one : b ≡ b' = cc e in other_text w b' _ _ (sym (append-nil text)) (rw (← same_one) h)
run-Waits up c w text b b' (x ∷ events) (other, others) paired h e =
    let (b₁, first, more) = >>=-ok (step up b x) _ e in
    let (paired₁, h₁) = step-Waits up c w text b b₁ x other paired h first in
    let now = joined (messages_of c (x ∷ [])) in
    let later = joined (messages_of c events) in
    other_text w b' _ _
      (append_assoc text now later ∙ ap (λ m. text ++ m) (sym (messages_of-cons c x events)))
      (run-Waits up c w (text ++ now) b₁ b' events others paired₁ h₁ more)

-- Whatever else happens on the server, in any order that does not go wrong: what the thread of a
-- client has read, and after it what waits in the client's queue, are the messages of its own
-- connection, one after the other. It is about a wrapper at whose address no old entry points, and
-- about events in which its thread does not end and no other connection has the same address.
pub run-messages_of :
    (up : List (List ℕ) → Bool) (c w : ℕ) (b b' : Bridge) (events : List Event)
    → All (IsPaired c w) (on_open b c w).connections
    → All (IsOther c w) events
    → run up b (opens c w ∷ events) ≡ ok b'
    → (o : Wrapper) × (b'.wrappers w ≡ some o)
      × (joined (messages_of c events) ≡ b'.given w ++ joined o.queue)
unfolding run step on_open
run-messages_of up c w b b' events paired others e =
    let same_place = (==_iff w w).1 refl in
    run-Waits up c w [] (on_open b c w) b' events others paired
      (fresh_wrapper, rw same_place refl, rw same_place refl) e
