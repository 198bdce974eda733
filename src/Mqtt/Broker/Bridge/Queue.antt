-- ===== src/Mqtt/Broker/Bridge/Queue.antt =====
-- The queue of one client of `wsAcceptLoop`, and the entries that lead to its wrapper.
use simple_socket.Connection.Segments.{joined}
use simple_socket.Mqtt.Broker.Bridge.{
  Entries, lookup, assign, Bridge, update, on_wrapper, sweep, client_calls,
}
use simple_socket.Mqtt.WsWrapper.Events.{Wrapper, Action, act, act_in_order, pushed}
use simple_socket.Prelude.{
  ℕ, ◌≡◌, refl, sym, ap, ◌∙◌, Bool, Option, some, List, [], ◌∷◌, ◌++◌, ◌==◌, if◌then◌else◌, ok,
  or_fault, All, Bool-cases, inl, inr, append_assoc, append-nil, arith, ==_iff, >>=-ok, or_fault-ok,
}

-- The entry of `c`, and only that, holds `w`.
abbrev pub IsPaired : ℕ → ℕ → ℕ × ℕ → Type 0
IsPaired c w (k, p) = (k == c) ≡ (p == w)

lookup-IsPaired :
    (c w k p : ℕ) (entries : Entries)
    → All (IsPaired c w) entries
    → lookup entries k ≡ some p
    → (k == c) ≡ (p == w)
lookup-IsPaired c w k p [] h e = absurd (ground (arith, e))
lookup-IsPaired c w k p ((k', p') ∷ entries) (here, h) e = elim (Bool-cases (k' == k)) [
  | inl same_key ↦ ground (arith, same_key, e, here)
  | inr other ↦ lookup-IsPaired c w k p entries h (rw other at e)
]

pub assign-IsPaired :
    (c w k p : ℕ) (entries : Entries)
    → (k == c) ≡ (p == w)
    → All (IsPaired c w) entries
    → All (IsPaired c w) (assign entries k p)
assign-IsPaired c w k p [] new h = (new, tt)
assign-IsPaired c w k p ((k', p') ∷ entries) new (here, h) = elim (Bool-cases (k' == k)) [
  | inl same_key ↦ rw same_key (ground (arith, same_key, new), h)
  | inr other ↦ rw other (here, assign-IsPaired c w k p entries new h)
]

pub sweep-IsPaired :
    (c w : ℕ) (wrappers : ℕ → Option Wrapper) (entries rest : Entries)
    → All (IsPaired c w) entries
    → sweep wrappers entries ≡ ok rest
    → All (IsPaired c w) rest
unfolding sweep
sweep-IsPaired c w wrappers [] rest h e = ground (arith, e)
sweep-IsPaired c w wrappers ((k, p) ∷ entries) rest (here, h) e =
    let (o, alive, more) = >>=-ok (or_fault (wrappers p)) _ e in
    let (kept, swept, last) = >>=-ok (sweep wrappers entries) _ more in
    let ih = sweep-IsPaired c w wrappers entries kept h swept in
    elim (Bool-cases o.closed) [
      | inl shut ↦ let same_list : kept ≡ rest = ground (arith, last, shut) in rw (← same_list) ih
      | inr still ↦
          let same_list : (k, p) ∷ kept ≡ rest = ground (arith, last, still) in
          rw (← same_list) (here, ih)
    ]

-- The client of `w` has read the front of `text`, and the rest waits in its queue.
abbrev pub Waits : ℕ → List ℕ → Bridge → Type 0
Waits w text b = (o : Wrapper) × (b.wrappers w ≡ some o) × (text ≡ b.given w ++ joined o.queue)

pub other_text : (w : ℕ) (b : Bridge) (xs ys : List ℕ) → xs ≡ ys → Waits w xs b → Waits w ys b
other_text w b xs ys e h = rw (← e) h

-- One wrapper, at `p`, is changed by a call that adds `extra` to its queue and gives `got`.
touch-Waits :
    (w p : ℕ) (text got extra : List ℕ) (b b' : Bridge) (old new : Wrapper)
    → b.wrappers p ≡ some old
    → joined old.queue ++ extra ≡ got ++ joined new.queue
    → b'.wrappers w ≡ (if p == w then some new else b.wrappers w)
    → b'.given w ≡ (if p == w then b.given w ++ got else b.given w)
    → Waits w text b
    → Waits w (text ++ (if p == w then extra else [])) b'
touch-Waits w p text got extra b b' old new there adds e₁ e₂ (o, alive, order) =
    elim (Bool-cases (p == w)) [
      | inl is_w ↦
          let same_address : p ≡ w = (==_iff p w).0 is_w in
          let same_one : old ≡ o = cc (sym there, alive, same_address) in
          rw is_w (
            new,
            rw is_w at e₁,
            ap (λ x. x ++ extra) order
                ∙ append_assoc (b.given w) (joined o.queue) extra
                ∙ ap (λ x. b.given w ++ (joined x.queue ++ extra)) (sym same_one)
                ∙ ap (λ x. b.given w ++ x) adds
                ∙ sym (append_assoc (b.given w) got (joined new.queue))
                ∙ ap (λ x. x ++ joined new.queue) (sym (rw is_w at e₂)),
          )
      | inr other ↦ rw other (
        o,
        (rw other at e₁) ∙ alive,
        append-nil text ∙ order ∙ ap (λ x. x ++ joined o.queue) (sym (rw other at e₂)),
      )
    ]

pub on_wrapper-Waits :
    (c w : ℕ) (text : List ℕ) (b b' : Bridge) (k : ℕ) (f : Wrapper → Wrapper) (extra : List ℕ)
    → ((o : Wrapper) → joined o.queue ++ extra ≡ joined (f o).queue)
    → All (IsPaired c w) b.connections
    → Waits w text b
    → on_wrapper b k f ≡ ok b'
    → (b'.connections ≡ b.connections) × Waits w (text ++ (if k == c then extra else [])) b'
unfolding on_wrapper
on_wrapper-Waits c w text b b' k f extra adds paired h e =
    let (p, found, more) = >>=-ok (or_fault (lookup b.connections k)) _ e in
    let (old, there, last) = >>=-ok (or_fault (b.wrappers p)) _ more in
    let same_entry =
      lookup-IsPaired c w k p b.connections paired (or_fault-ok (lookup b.connections k) found) in
    let done : record b { wrappers = update b.wrappers p (some (f old)) } ≡ b' = cc last in
    let same_given : b.given w ≡ (if p == w then b.given w ++ [] else b.given w) =
      ground (arith, append-nil (b.given w)) in
    rw (← done, same_entry)
      (
        refl,
        touch-Waits w p text [] extra b (record b { wrappers = update b.wrappers p (some (f old)) })
            old (f old) (or_fault-ok (b.wrappers p) there) (adds old) refl same_given h,
      )

-- The thread of a client reads or writes.
pub client_calls-Waits :
    (up : List (List ℕ) → Bool) (w : ℕ) (text : List ℕ) (b b' : Bridge) (p : ℕ) (a : Action)
    → joined (pushed (a ∷ [])) ≡ []
    → Waits w text b
    → client_calls up b p a ≡ ok b'
    → (b'.connections ≡ b.connections) × Waits w (text ++ []) b'
unfolding client_calls
client_calls-Waits up w text b b' p a nothing h e =
    let (old, there, last) = >>=-ok (or_fault (b.wrappers p)) _ e in
    let (got, new) = act up old a in
    let after : Bridge = record b {
      wrappers = update b.wrappers p (some new);
      given = update b.given p (b.given p ++ got);
    } in
    let done : after ≡ b' = cc last in
    let order : joined old.queue ++ [] ≡ got ++ joined new.queue =
      ap (λ x. joined old.queue ++ x) (sym nothing) ∙ act_in_order up a old in
    let log : after.given w ≡ (if p == w then b.given w ++ got else b.given w) =
      elim (Bool-cases (p == w)) [
        | inl is_w ↦ rw is_w (ap (λ x. b.given x ++ got) ((==_iff p w).0 is_w))
        | inr other ↦ rw other refl
      ] in
    let same_text : text ++ (if p == w then [] else []) ≡ text ++ [] = elim (Bool-cases (p == w)) [
      | inl t ↦ rw t refl
      | inr t ↦ rw t refl
    ] in
    let waits =
      touch-Waits w p text got [] b after old new (or_fault-ok (b.wrappers p) there) order refl log
        h in
    rw (← done) (refl, other_text w after _ _ same_text waits)
