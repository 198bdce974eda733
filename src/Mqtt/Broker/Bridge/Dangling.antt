-- ===== src/Mqtt/Broker/Bridge/Dangling.antt =====
-- `wsAcceptLoop` where the thread of a client ends while its connection is still in the map.
use simple_socket.Mqtt.Broker.Bridge.Entries.{lookup-assign_ne}
use simple_socket.Mqtt.Broker.Bridge.{
  Entries, lookup, Bridge, update, on_open, on_wrapper, on_message, on_close, sweep, client_calls,
  client_ends, Event, opens, message, shuts, sweeps, client_reads, client_writes, client_closes,
  ends, step, run,
}
use simple_socket.Mqtt.WsWrapper.Events.{
  closes, Wrapper, Action, reads, writes, push_back, close, act,
}
use simple_socket.Prelude.{
  ℕ, ◌≡◌, ◌≢◌, refl, ◌∙◌, Bool, false, Option, none, some, List, [], ◌∷◌, ◌++◌, ◌==◌, ok, or_fault,
  All, Bool-cases, inl, inr, arith, ==_iff, >>=-ok, or_fault-ok,
}

-- No second connection at the address `c`, and no second wrapper at the address `w`.
abbrev pub IsElsewhere : ℕ → ℕ → Event → Type 0
IsElsewhere c w (opens k p) = ((k == c) ≡ false) × ((p == w) ≡ false)
IsElsewhere c w (message k msg) = Unit {0}
IsElsewhere c w (shuts k) = Unit {0}
IsElsewhere c w sweeps = Unit {0}
IsElsewhere c w (client_reads p n) = Unit {0}
IsElsewhere c w (client_writes p bytes) = Unit {0}
IsElsewhere c w (client_closes p) = Unit {0}
IsElsewhere c w (ends p) = Unit {0}

-- The entry of `c` leads to a wrapper that is gone.
abbrev Dangles : ℕ → ℕ → Bridge → Type 0
Dangles c w b = (lookup b.connections c ≡ some w) × (b.wrappers w ≡ none)

sweep-Dangles :
    (wrappers : ℕ → Option Wrapper) (entries rest : Entries) (c w : ℕ)
    → lookup entries c ≡ some w
    → wrappers w ≡ none
    → sweep wrappers entries ≢ ok rest
unfolding sweep
sweep-Dangles wrappers [] rest c w found gone e = absurd (ground (arith, found))
sweep-Dangles wrappers ((k, p) ∷ entries) rest c w found gone e =
    let (o, here, more) = >>=-ok (or_fault (wrappers p)) _ e in
    let (kept, swept, last) = >>=-ok (sweep wrappers entries) _ more in
    elim (Bool-cases (k == c)) [
      | inl t ↦
          let same_place : p ≡ w = ground (arith, t, found) in
          absurd (ground (arith, or_fault-ok (wrappers p) here, gone, same_place))
      | inr t ↦ sweep-Dangles wrappers entries kept c w (rw t at found) gone swept
    ]

-- A call that found its wrapper was not for the one that is gone.
elsewhere :
    (wrappers : ℕ → Option Wrapper) (w p : ℕ) (o : Wrapper)
    → wrappers w ≡ none
    → wrappers p ≡ some o
    → (p == w) ≡ false
elsewhere wrappers w p o gone there = elim (Bool-cases (p == w)) [
  | inl t ↦ absurd (ground (arith, (==_iff p w).0 t, gone, there))
  | inr t ↦ t
]

on_wrapper-Dangles :
    (b b' : Bridge) (c w k : ℕ) (f : Wrapper → Wrapper)
    → Dangles c w b
    → on_wrapper b k f ≡ ok b'
    → Dangles c w b'
unfolding on_wrapper
on_wrapper-Dangles b b' c w k f (found, gone) e =
    let (p, at_key, more) = >>=-ok (or_fault (lookup b.connections k)) _ e in
    let (o, there, last) = >>=-ok (or_fault (b.wrappers p)) _ more in
    let done : record b { wrappers = update b.wrappers p (some (f o)) } ≡ b' = cc last in
    let other = elsewhere b.wrappers w p o gone (or_fault-ok (b.wrappers p) there) in
    rw (← done) (found, rw other gone)

module _ (up : List (List ℕ) → Bool) where
  client_calls-Dangles :
      (b b' : Bridge) (c w p : ℕ) (a : Action)
      → Dangles c w b
      → client_calls up b p a ≡ ok b'
      → Dangles c w b'
  unfolding client_calls
  client_calls-Dangles b b' c w p a (found, gone) e =
      let (o, there, last) = >>=-ok (or_fault (b.wrappers p)) _ e in
      let after : Bridge = record b {
        wrappers = update b.wrappers p (some (act up o a).1);
        given = update b.given p (b.given p ++ (act up o a).0);
      } in
      let done : after ≡ b' = cc last in
      let other = elsewhere b.wrappers w p o gone (or_fault-ok (b.wrappers p) there) in
      rw (← done) (found, rw other gone)

  step-Dangles :
      (b b' : Bridge) (c w : ℕ) (e : Event)
      → IsElsewhere c w e
      → Dangles c w b
      → step up b e ≡ ok b'
      → Dangles c w b'
  unfolding step on_open on_message on_close client_ends
  step-Dangles b b' c w (opens k p) (other_key, other_place) (found, gone) e =
      let done : on_open b k p ≡ b' = cc e in
      rw (← done) (lookup-assign_ne b.connections c k p other_key ∙ found, rw other_place gone)
  step-Dangles b b' c w (message k msg) other h e =
      on_wrapper-Dangles b b' c w k (λ o. push_back o msg) h e
  step-Dangles b b' c w (shuts k) other h e = on_wrapper-Dangles b b' c w k close h e
  step-Dangles b b' c w sweeps other (found, gone) e =
      let (rest, swept, last) = >>=-ok (sweep b.wrappers b.connections) _ e in
      absurd (sweep-Dangles b.wrappers b.connections rest c w found gone swept)
  step-Dangles b b' c w (client_reads p n) other h e = client_calls-Dangles b b' c w p (reads n) h e
  step-Dangles b b' c w (client_writes p bytes) other h e =
      client_calls-Dangles b b' c w p (writes bytes) h e
  step-Dangles b b' c w (client_closes p) other h e = client_calls-Dangles b b' c w p closes h e
  step-Dangles b b' c w (ends p) other (found, gone) e =
      let done : client_ends b p ≡ b' = cc e in
      rw (← done) (found, elim (Bool-cases (p == w)) [ inl t ↦ rw t refl | inr t ↦ rw t gone ])

  run-Dangles :
      (b b' : Bridge) (c w : ℕ) (events : List Event)
      → All (IsElsewhere c w) events
      → Dangles c w b
      → run up b (events ++ sweeps ∷ []) ≢ ok b'
  unfolding run step
  run-Dangles b b' c w [] others (found, gone) e =
      let (b₁, first, more) = >>=-ok (step up b sweeps) _ e in
      let (rest, swept, last) = >>=-ok (sweep b.wrappers b.connections) _ first in
      sweep-Dangles b.wrappers b.connections rest c w found gone swept
  run-Dangles b b' c w (x ∷ events) (other, others) h e =
      let (b₁, first, more) = >>=-ok (step up b x) _ e in
      run-Dangles b₁ b' c w events others (step-Dangles b b₁ c w x other h first) more

  -- Where the thread of a client ends before the sweep that removes its connection, whatever happens in
  -- between: the loop then reads the wrapper that `handleClient` has destroyed, or a callback has before.
  -- So it is when the client sends DISCONNECT, and also when its connection is closed, since the thread
  -- ends by that, up to 100 ms before the sweep. It is about a wrapper whose memory is not used again for
  -- another, and a connection whose address is not.
  pub run-ends-ne-ok :
      (b : Bridge) (c w : ℕ) (events : List Event)
      → lookup b.connections c ≡ some w
      → All (IsElsewhere c w) events
      → ¬ ((b' : Bridge) × (run up b (ends w ∷ (events ++ sweeps ∷ [])) ≡ ok b'))
  unfolding run step client_ends
  run-ends-ne-ok b c w events found others (b', e) =
      let same_place = (==_iff w w).1 refl in
      run-Dangles (client_ends b w) b' c w events others (found, rw same_place refl) e
