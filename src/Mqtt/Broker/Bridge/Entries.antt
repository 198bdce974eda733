-- ===== src/Mqtt/Broker/Bridge/Entries.antt =====
-- The map `connections` of `wsAcceptLoop`, and the wrappers that its entries lead to.
use simple_socket.Mqtt.Broker.Bridge.{Entries, lookup, assign, update, sweep}
use simple_socket.Mqtt.WsWrapper.Events.{Wrapper}
use simple_socket.Prelude.{
  ℕ, ◌≡◌, ap, ◌∙◌, true, refl, false, Option, none, some, [], ◌∷◌, ◌==◌, ok, All, All-weaken,
  Bool-cases, inl, inr, arith, ==_iff,
}

-- The wrapper at an address is there.
abbrev pub IsThere : (ℕ → Option Wrapper) → ℕ → Type 0
IsThere wrappers p = (o : Wrapper) × (wrappers p ≡ some o)

-- It is there and not closed.
abbrev pub IsOpen : (ℕ → Option Wrapper) → ℕ → Type 0
IsOpen wrappers p = (o : Wrapper) × (wrappers p ≡ some o) × (o.closed ≡ false)

pub update-IsOpen_other :
    (wrappers : ℕ → Option Wrapper) (w p : ℕ) (v : Option Wrapper)
    → (w == p) ≡ false
    → IsOpen wrappers p
    → IsOpen (update wrappers w v) p
update-IsOpen_other wrappers w p v other (o, there, is_open) = (o, rw other there, is_open)

pub update-IsOpen :
    (wrappers : ℕ → Option Wrapper) (w p : ℕ) (old new : Wrapper)
    → wrappers w ≡ some old
    → new.closed ≡ old.closed
    → IsOpen wrappers p
    → IsOpen (update wrappers w (some new)) p
update-IsOpen wrappers w p old new here same_state (o, there, is_open) =
    elim (Bool-cases (w == p)) [
      | inl t ↦
          let same_place : w ≡ p = (==_iff w p).0 t in
          let same_one : old ≡ o = cc (here, there, same_place) in
          (new, rw t refl, same_state ∙ ap (λ x. x.closed) same_one ∙ is_open)
      | inr t ↦ (o, rw t there, is_open)
    ]

pub lookup-assign_self : (entries : Entries) (c w : ℕ) → lookup (assign entries c w) c ≡ some w
lookup-assign_self [] c w = let same_key = (==_iff c c).1 refl in rw same_key refl
lookup-assign_self ((k, p) ∷ entries) c w = elim (Bool-cases (k == c)) [
  | inl t ↦ rw (t, t) refl
  | inr t ↦ rw (t, t) (lookup-assign_self entries c w)
]

pub lookup-assign_ne :
    (entries : Entries) (c k p : ℕ)
    → (k == c) ≡ false
    → lookup (assign entries k p) c ≡ lookup entries c
lookup-assign_ne [] c k p other = rw other refl
lookup-assign_ne ((k', p') ∷ entries) c k p other =
    ground (arith, other, lookup-assign_ne entries c k p other)

-- An entry of a closed wrapper is not that of an open one.
passed_over :
    (wrappers : ℕ → Option Wrapper) (entries : Entries) (k p c w : ℕ) (o : Wrapper)
    → wrappers p ≡ some o
    → o.closed ≡ true
    → lookup ((k, p) ∷ entries) c ≡ some w
    → IsOpen wrappers w
    → lookup entries c ≡ some w
passed_over wrappers entries k p c w o here shut found (o', there, is_open) =
    elim (Bool-cases (k == c)) [
      | inl t ↦
          let same_place : p ≡ w = ground (arith, t, found) in
          let same_one : o ≡ o' = cc (here, there, same_place) in
          absurd (ground (arith, shut, is_open, ap (λ x. x.closed) same_one))
      | inr t ↦ rw t at found
    ]

-- Every entry leads to a wrapper.
abbrev pub AreThere : (ℕ → Option Wrapper) → Entries → Type 0
AreThere wrappers entries = All (λ e. IsThere wrappers e.1) entries

pub lookup-IsThere :
    (wrappers : ℕ → Option Wrapper) (entries : Entries) (c w : ℕ)
    → AreThere wrappers entries
    → lookup entries c ≡ some w
    → IsThere wrappers w
lookup-IsThere wrappers [] c w h e = absurd (ground (arith, e))
lookup-IsThere wrappers ((k, p) ∷ entries) c w ((o, here), h) e = elim (Bool-cases (k == c)) [
  | inl t ↦ (o, ground (arith, t, e, here))
  | inr t ↦ lookup-IsThere wrappers entries c w h (rw t at e)
]

update-IsThere :
    (wrappers : ℕ → Option Wrapper) (w p : ℕ) (o : Wrapper)
    → IsThere wrappers p
    → IsThere (update wrappers w (some o)) p
update-IsThere wrappers w p o (o', there) = elim (Bool-cases (w == p)) [
  | inl t ↦ (o, rw t refl)
  | inr t ↦ (o', rw t there)
]

pub update-AreThere :
    (wrappers : ℕ → Option Wrapper) (w : ℕ) (o : Wrapper) (entries : Entries)
    → AreThere wrappers entries
    → AreThere (update wrappers w (some o)) entries
update-AreThere wrappers w o entries h =
    All-weaken (λ e. IsThere wrappers e.1) (λ e. IsThere (update wrappers w (some o)) e.1)
      (λ e there. update-IsThere wrappers w e.1 o there) entries h

pub assign-AreThere :
    (wrappers : ℕ → Option Wrapper) (entries : Entries) (c w : ℕ)
    → IsThere wrappers w
    → AreThere wrappers entries
    → AreThere wrappers (assign entries c w)
assign-AreThere wrappers [] c w new h = (new, tt)
assign-AreThere wrappers ((k, p) ∷ entries) c w new (here, h) = elim (Bool-cases (k == c)) [
  | inl t ↦ rw t (new, h)
  | inr t ↦ rw t (here, assign-AreThere wrappers entries c w new h)
]

-- The sweep goes through, and keeps every entry that leads to an open wrapper.
pub sweep-AreThere :
    (wrappers : ℕ → Option Wrapper) (entries : Entries)
    → AreThere wrappers entries
    → (rest : Entries) × (sweep wrappers entries ≡ ok rest)
      × AreThere wrappers rest
      × ((c w : ℕ) → lookup entries c ≡ some w → IsOpen wrappers w → lookup rest c ≡ some w)
unfolding sweep
sweep-AreThere wrappers [] h = ([], refl, tt, λ c w found is_open. found)
sweep-AreThere wrappers ((k, p) ∷ entries) ((o, here), h) =
    let (rest, swept, still, kept) = sweep-AreThere wrappers entries h in
    elim (Bool-cases o.closed) [
      | inl t ↦ (
        rest,
        rw (here, swept, t) refl,
        still,
        λ c w found is_open.
            kept c w (passed_over wrappers entries k p c w o here t found is_open) is_open,
      )
      | inr t ↦ (
        (k, p) ∷ rest,
        rw (here, swept, t) refl,
        ((o, here), still),
        λ c w found is_open. elim (Bool-cases (k == c)) [
          | inl t' ↦ rw t' (rw t' at found)
          | inr t' ↦ rw t' (kept c w (rw t' at found) is_open)
        ],
      )
    ]

pub ends-AreThere :
    (wrappers : ℕ → Option Wrapper) (w : ℕ) (entries : Entries)
    → All (λ e. (w == e.1) ≡ false) entries
    → AreThere wrappers entries
    → AreThere (update wrappers w none) entries
ends-AreThere wrappers w [] apart h = tt
ends-AreThere wrappers w ((k, p) ∷ entries) (other, apart) ((o, here), h) =
    ((o, rw other here), ends-AreThere wrappers w entries apart h)
