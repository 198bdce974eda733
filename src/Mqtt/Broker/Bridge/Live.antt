-- ===== src/Mqtt/Broker/Bridge/Live.antt =====
-- `wsAcceptLoop` where every thread of a client outlives its connection.
use simple_socket.Mqtt.Broker.Bridge.Held.{
  Opened, opened_after, nothing_opened, IsHeld, act_closed, act_write_closed, touch-IsHeld,
  aside-IsHeld, apart_of, forget-IsHeld, lookup-apart, open-IsHeld,
}
use simple_socket.Mqtt.Broker.Bridge.Entries.{
  IsThere, update-AreThere, sweep-AreThere, ends-AreThere,
}
use simple_socket.Mqtt.Broker.Bridge.{
  lookup, Bridge, no_connections, update, on_open, on_wrapper, on_message, on_close, client_calls,
  client_ends, Event, opens, message, shuts, sweeps, client_reads, client_writes, client_closes,
  ends, step,
}
use simple_socket.Mqtt.WsWrapper.Events.{reads, writes, push_back, close, act}
use simple_socket.Prelude.{
  ℕ, ◌≡◌, ◌≢◌, ap, sym, ◌∙◌, refl, Bool, false, none, some, List, [], ◌++◌, ◌==◌, Outcome, ok, All,
}

-- What may happen in a state. The server reports only on connections it has opened, at addresses and with
-- wrappers that nobody else has; a thread calls its wrapper while that is there. Beyond that, a client
-- thread closes its wrapper only after the server has reported the connection closed, and ends only after
-- the sweep has removed the entry.
abbrev pub Allowed : Bridge → Opened → Event → Type 0
Allowed b opened (opens c w) = (opened c ≡ none) × (b.wrappers w ≡ none)
Allowed b opened (message c msg) = (w : ℕ) × (opened c ≡ some w)
Allowed b opened (shuts c) = (w : ℕ) × (opened c ≡ some w)
Allowed b opened sweeps = Unit {0}
Allowed b opened (client_reads w n) = IsThere b.wrappers w
Allowed b opened (client_writes w bytes) = IsThere b.wrappers w
Allowed b opened (client_closes w) = IsThere b.wrappers w × ((c : ℕ) → opened c ≢ some w)
Allowed b opened (ends w) = All (λ e. (w == e.1) ≡ false) b.connections

pub data Reaches (up : List (List ℕ) → Bool) : Bridge → Opened → Type 0 where
  start : Reaches up no_connections nothing_opened
  next :
      (b b' : Bridge) (opened : Opened) (e : Event)
      → Reaches up b opened
      → Allowed b opened e
      → step up b e ≡ ok b'
      → Reaches up b' (opened_after opened e)

abbrev Goes : Outcome Bridge → Opened → Type 0
Goes m opened = (b : Bridge) × (m ≡ ok b) × IsHeld b.wrappers b.connections opened

module _ (up : List (List ℕ) → Bool) where
  step-Goes :
      (b : Bridge) (opened : Opened) (e : Event)
      → Allowed b opened e
      → IsHeld b.wrappers b.connections opened
      → Goes (step up b e) (opened_after opened e)
  unfolding step on_open on_message on_close on_wrapper client_calls client_ends push_back close act
  step-Goes b opened (opens c w) (not_yet, unused) h =
      (on_open b c w, refl, open-IsHeld b opened c w not_yet unused h)
  step-Goes b opened (message c msg) (w, e) h =
      let (o, there, is_open) = h.is_open c w e in
      (
        record b { wrappers = update b.wrappers w (some (push_back o msg)) },
        rw (h.found c w e, there) refl,
        touch-IsHeld b.wrappers b.connections opened w o (push_back o msg) there refl h,
      )
  step-Goes b opened (shuts c) (w, e) h =
      let (o, there, is_open) = h.is_open c w e in
      let (held, apart) = forget-IsHeld b.wrappers b.connections opened c w e h in
      (
        record b { wrappers = update b.wrappers w (some (close o)) },
        rw (h.found c w e, there) refl,
        aside-IsHeld b.wrappers b.connections (opened_after opened (shuts c)) w (some (close o))
            (update-AreThere b.wrappers w (close o) b.connections h.there) apart held,
      )
  step-Goes b opened sweeps allowed h =
      let (rest, swept, still, kept) = sweep-AreThere b.wrappers b.connections h.there in
      (
        record b { connections = rest },
        rw swept refl,
        record {
          there = still;
          found = λ c w e. kept c w (h.found c w e) (h.is_open c w e);
          is_open = h.is_open;
          own = h.own;
        },
      )
  step-Goes b opened (client_reads w n) (o, there) h = (
    record b {
      wrappers = update b.wrappers w (some (act up o (reads n)).1);
      given = update b.given w (b.given w ++ (act up o (reads n)).0);
    },
    rw there refl,
    touch-IsHeld b.wrappers b.connections opened w o _ there (act_closed up o n) h,
  )
  step-Goes b opened (client_writes w bytes) (o, there) h = (
    record b {
      wrappers = update b.wrappers w (some (act up o (writes bytes)).1);
      given = update b.given w (b.given w ++ []);
    },
    rw there refl,
    touch-IsHeld b.wrappers b.connections opened w o _ there (act_write_closed up o bytes) h,
  )
  step-Goes b opened (client_closes w) ((o, there), shut) h = (
    record b {
      wrappers = update b.wrappers w (some (close o));
      given = update b.given w (b.given w ++ []);
    },
    rw there refl,
    aside-IsHeld b.wrappers b.connections opened w (some (close o))
        (update-AreThere b.wrappers w (close o) b.connections h.there)
        (λ c p e. apart_of w p (λ same_place. shut c (e ∙ ap some (sym same_place)))) h,
  )
  step-Goes b opened (ends w) apart h = (
    client_ends b w,
    refl,
    aside-IsHeld b.wrappers b.connections opened w none
        (ends-AreThere b.wrappers w b.connections apart h.there)
        (λ c p e. lookup-apart w c p b.connections apart (h.found c p e)) h,
  )

  Reaches-IsHeld :
      {b : Bridge} {opened : Opened} → Reaches up b opened → IsHeld b.wrappers b.connections opened
  Reaches-IsHeld start = record {
    there = tt;
    found = λ c w e. absurd (cc e);
    is_open = λ c w e. absurd (cc e);
    own = λ c d w e e'. absurd (cc e);
  }
  Reaches-IsHeld (next a b opened e r allowed went) =
      let (b₁, went₁, h) = step-Goes a opened e allowed (Reaches-IsHeld r) in
      let same_one : b₁ ≡ b = cc (went, went₁) in rw (← same_one) h

  -- Where each client thread closes its wrapper only after the server has reported its connection closed,
  -- and ends only after the sweep has removed the entry: no order of callbacks, calls of the threads and
  -- sweeps reads a wrapper that is gone, or finds no entry for a connection that is open. The sweep keeps
  -- the entry of every connection that is open.
  pub Reaches-step-ok :
      (b : Bridge) (opened : Opened) (e : Event)
      → Reaches up b opened
      → Allowed b opened e
      → (b' : Bridge) × (step up b e ≡ ok b')
        × Reaches up b' (opened_after opened e)
        × ((c w : ℕ) → opened_after opened e c ≡ some w → lookup b'.connections c ≡ some w)
  Reaches-step-ok b opened e r allowed =
      let (b', went, h) = step-Goes b opened e allowed (Reaches-IsHeld r) in
      (b', went, next b b' opened e r allowed went, h.found)
