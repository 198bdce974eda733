-- ===== src/Mqtt/Broker/Bridge/Held.antt =====
-- What holds of the open connections of `wsAcceptLoop`, and what keeps it.
use simple_socket.Mqtt.Broker.Bridge.Entries.{
  AreThere, IsOpen, update-IsOpen_other, update-IsOpen, lookup-assign_self, lookup-assign_ne,
  update-AreThere, assign-AreThere,
}
use simple_socket.Mqtt.Broker.Bridge.{
  Entries, lookup, assign, Bridge, update, Event, opens, message, shuts, sweeps, client_reads,
  client_writes, client_closes, ends,
}
use simple_socket.Mqtt.WsWrapper.Events.{
  Wrapper, reads, writes, read, read_or_wait, write, fresh_wrapper, act,
}
use simple_socket.Mqtt.WsWrapper.{read_queue}
use simple_socket.Prelude.{
  if◌then◌else◌, ℕ, ◌≡◌, ◌≢◌, ap, sym, ◌∙◌, refl, Bool, false, Option, none, some, List, [], ◌∷◌,
  ◌==◌, All, Bool-cases, inl, inr, arith, ==_iff,
}

-- The connections that the WebSocket server has opened and not yet reported closed, with the address of the
-- wrapper that `onOpen` made for each.
abbrev pub Opened : Type 0
Opened = ℕ → Option ℕ

abbrev pub opened_after : Opened → Event → Opened
opened_after opened (opens c w) k = if k == c then some w else opened k
opened_after opened (message c msg) k = opened k
opened_after opened (shuts c) k = if k == c then none else opened k
opened_after opened sweeps k = opened k
opened_after opened (client_reads w n) k = opened k
opened_after opened (client_writes w bytes) k = opened k
opened_after opened (client_closes w) k = opened k
opened_after opened (ends w) k = opened k

abbrev pub nothing_opened : Opened
nothing_opened c = none

-- Every entry leads to a wrapper; every open connection has its entry and an open wrapper of its own.
pub record IsHeld (wrappers : ℕ → Option Wrapper) (entries : Entries) (opened : Opened)
    : Type 0 where
  pub there : AreThere wrappers entries
  pub found : (c w : ℕ) → opened c ≡ some w → lookup entries c ≡ some w
  pub is_open : (c w : ℕ) → opened c ≡ some w → IsOpen wrappers w
  pub own : (c d w : ℕ) → opened c ≡ some w → opened d ≡ some w → c ≡ d

pub act_closed :
    (up : List (List ℕ) → Bool) (o : Wrapper) (n : ℕ) → (act up o (reads n)).1.closed ≡ o.closed
unfolding act read
act_closed up o n =
    elim o.queue
      as (λ q.
        (read_or_wait o (elim q as (λ _. Option (Option (List ℕ) × Wrapper)) [
          | [] ↦ if o.closed then some (none, o) else none
          | msg ∷ rest ↦
              let (got, queue) = read_queue (msg ∷ rest) n in
              some (some got, record o { queue = queue })
        ])).1.closed
        ≡ o.closed) [
          | [] ↦ elim (Bool-cases o.closed) [ inl t ↦ rw t refl | inr t ↦ rw t refl ]
          | msg ∷ rest ↦ refl
        ]

pub act_write_closed :
    (up : List (List ℕ) → Bool) (o : Wrapper) (bytes : List ℕ)
    → (act up o (writes bytes)).1.closed ≡ o.closed
unfolding act write
act_write_closed up o bytes = elim (Bool-cases o.closed) [
  | inl t ↦ simp t refl
  | inr t ↦ simp t refl
]

-- A call that neither opens nor closes.
pub touch-IsHeld :
    (wrappers : ℕ → Option Wrapper) (entries : Entries) (opened : Opened) (w : ℕ)
    (old new : Wrapper)
    → wrappers w ≡ some old
    → new.closed ≡ old.closed
    → IsHeld wrappers entries opened
    → IsHeld (update wrappers w (some new)) entries opened
touch-IsHeld wrappers entries opened w old new here same_state h = record {
  there = update-AreThere wrappers w new entries h.there;
  found = h.found;
  is_open = λ c p e. update-IsOpen wrappers w p old new here same_state (h.is_open c p e);
  own = h.own;
}

-- A change at a wrapper of no open connection.
pub aside-IsHeld :
    (wrappers : ℕ → Option Wrapper) (entries : Entries) (opened : Opened) (w : ℕ)
    (v : Option Wrapper)
    → AreThere (update wrappers w v) entries
    → ((c p : ℕ) → opened c ≡ some p → (w == p) ≡ false)
    → IsHeld wrappers entries opened
    → IsHeld (update wrappers w v) entries opened
aside-IsHeld wrappers entries opened w v there apart h = record {
  there = there;
  found = h.found;
  is_open = λ c p e. update-IsOpen_other wrappers w p v (apart c p e) (h.is_open c p e);
  own = h.own;
}

pub apart_of : (w p : ℕ) → w ≢ p → (w == p) ≡ false
apart_of w p h = elim (Bool-cases (w == p)) [ inl t ↦ absurd (h ((==_iff w p).0 t)) | inr t ↦ t ]

pub forget-IsHeld :
    (wrappers : ℕ → Option Wrapper) (entries : Entries) (opened : Opened) (c w : ℕ)
    → opened c ≡ some w
    → IsHeld wrappers entries opened
    → IsHeld wrappers entries (opened_after opened (shuts c))
      × ((d p : ℕ) → opened_after opened (shuts c) d ≡ some p → (w == p) ≡ false)
forget-IsHeld wrappers entries opened c w e h =
    let before : (d p : ℕ)
        → opened_after opened (shuts c) d ≡ some p
        → ((d == c) ≡ false) × (opened d ≡ some p) =
      λ d p e'. elim (Bool-cases (d == c)) [
        | inl t ↦ absurd (cc (rw t at e'))
        | inr t ↦ (t, rw t at e')
      ] in
    (
      record {
        there = h.there;
        found = λ d p e'. h.found d p (before d p e').1;
        is_open = λ d p e'. h.is_open d p (before d p e').1;
        own = λ d k p e' e''. h.own d k p (before d p e').1 (before k p e'').1;
      },
      λ d p e'.
          let (other, at_d) = before d p e' in
          apart_of w p (λ same_place.
            let same_key : c ≡ d = h.own c d w e (at_d ∙ ap some (sym same_place)) in
            absurd (ground (arith, other, (==_iff d c).1 (sym same_key)))),
    )

pub lookup-apart :
    (w c p : ℕ) (entries : Entries)
    → All (λ e. (w == e.1) ≡ false) entries
    → lookup entries c ≡ some p
    → (w == p) ≡ false
lookup-apart w c p [] apart e = absurd (cc e)
lookup-apart w c p ((k, q) ∷ entries) (other, apart) e = elim (Bool-cases (k == c)) [
  | inl t ↦ let same_place : q ≡ p = cc (rw t at e) in rw (← same_place) other
  | inr t ↦ lookup-apart w c p entries apart (rw t at e)
]

pub open-IsHeld :
    (b : Bridge) (opened : Opened) (c w : ℕ)
    → opened c ≡ none
    → b.wrappers w ≡ none
    → IsHeld b.wrappers b.connections opened
    → IsHeld
        (update b.wrappers w (some fresh_wrapper))
        (assign b.connections c w)
        (opened_after opened (opens c w))
open-IsHeld b opened c w not_yet unused h =
    let here = (==_iff w w).1 refl in
    let apart : (d p : ℕ) → opened d ≡ some p → (w == p) ≡ false = λ d p e.
      apart_of w p (λ same_place.
        let (o, there, is_open) = h.is_open d p e in absurd (cc (there, unused, same_place))) in
    record {
      there =
          assign-AreThere (update b.wrappers w (some fresh_wrapper)) b.connections c w
            (fresh_wrapper, rw here refl)
            (update-AreThere b.wrappers w fresh_wrapper b.connections h.there);
      found = λ d p e. elim (Bool-cases (d == c)) [
        | inl t ↦
            let same_place : w ≡ p = cc (rw t at e) in
            rw ((==_iff d c).0 t) (lookup-assign_self b.connections c w ∙ ap some same_place)
        | inr t ↦
            let other : (c == d) ≡ false = ground (arith, t) in
            lookup-assign_ne b.connections d c w other ∙ h.found d p (rw t at e)
      ];
      is_open = λ d p e. elim (Bool-cases (d == c)) [
        | inl t ↦
            let same_place : w ≡ p = cc (rw t at e) in
            (fresh_wrapper, rw ((==_iff w p).1 same_place) refl, refl)
        | inr t ↦
            let e' = rw t at e in
            update-IsOpen_other b.wrappers w p (some fresh_wrapper) (apart d p e')
              (h.is_open d p e')
      ];
      own = λ d k p e e'. elim (Bool-cases (d == c)) [
        | inl t ↦ elim (Bool-cases (k == c)) [
          | inl t' ↦ ground (arith, t, t')
          | inr t' ↦
              let same_place : w ≡ p = cc (rw t at e) in
              absurd (ground (arith, (==_iff w p).1 same_place, apart k p (rw t' at e')))
        ]
        | inr t ↦ elim (Bool-cases (k == c)) [
          | inl t' ↦
              let same_place : w ≡ p = cc (rw t' at e') in
              absurd (ground (arith, (==_iff w p).1 same_place, apart d p (rw t at e)))
          | inr t' ↦ h.own d k p (rw t at e) (rw t' at e')
        ]
      ];
    }
