-- ===== src/Util/Ports.antt =====
-- `getAvailablePort` of src/simple_socket/util/port_query.cpp. `is_free` says whether `bind` of the
-- operating system takes the port.
use simple_socket.Prelude.{
  ℕ, zero, suc, ◌+◌, ◌%◌, ◌^◌, ◌≤◌, ◌<◌, ◌≡◌, inl, inr, refl, sym, ap, ◌∙◌, Bool, true, false, not,
  ◌&&◌, ◌||◌, List, [], ◌∷◌, ◌==◌, if◌then◌else◌, leb, Bool-cases, arith,
}

-- A port was found, none is free, or the loop still runs after the rounds given.
pub data Search : Type 0 where
  found : ℕ → Search
  none_free still_running : Search

unfoldable pub is_excluded : List ℕ → ℕ → Bool
is_excluded [] port = false
is_excluded (x ∷ xs) port = (x == port) || is_excluded xs port

module _ (is_free : ℕ → Bool) (exclude_ports : List ℕ) where
  abbrev pub is_available : ℕ → Bool
  is_available port = not (is_excluded exclude_ports port) && is_free port

  -- `++port` wraps over 16 bits.
  unfoldable pub port_loop : ℕ → ℕ → ℕ → Search
  port_loop zero port end_port = Search.still_running
  port_loop (suc rounds) port end_port =
      let next = port_loop rounds ((port + 1) % 2 ^ 16) end_port in
      if leb port end_port
      then (if is_excluded exclude_ports port
          then next
          else if is_free port
          then Search.found port
          else next)
      else Search.none_free

  -- With `rounds` rounds at most. `opens` says whether the socket was made.
  unfoldable pub get_available_port : ℕ → Bool → ℕ → ℕ → Search
  unfolding port_loop
  get_available_port rounds opens start_port end_port =
      if opens then port_loop rounds start_port end_port else Search.none_free

  -- What the search promises between two ports.
  abbrev pub IsAnswer : ℕ → ℕ → Search → Type 0
  IsAnswer start end (Search.found p) =
      (start ≤ p)
      × (p ≤ end)
      × (is_available p ≡ true)
      × ((q : ℕ) → start ≤ q → q < p → is_available q ≡ false)
  IsAnswer start end Search.none_free = (q : ℕ) → start ≤ q → q ≤ end → is_available q ≡ false
  IsAnswer start end Search.still_running = ⊥

  next_free :
      (start q : ℕ)
      → is_available start ≡ false
      → start ≤ q
      → (suc start ≤ q → is_available q ≡ false)
      → is_available q ≡ false
  next_free start q busy lo later = elim (Bool-cases (q == start)) [
    | inl e ↦ let at : q ≡ start = ground (arith, e) in ap is_available at ∙ busy
    | inr e ↦ later (ground (arith, e, lo))
  ]

  widen :
      (start end : ℕ) (r : Search)
      → is_available start ≡ false
      → IsAnswer (suc start) end r
      → IsAnswer start end r
  widen start end (Search.found p) busy (from, to, works, first) =
      (omega arith, to, works, λ q lo hi. next_free start q busy lo (λ above. first q above hi))
  widen start end Search.none_free busy none_at =
      λ q lo hi. next_free start q busy lo (λ above. none_at q above hi)
  widen start end Search.still_running busy h = h

  -- A port that is not available is passed over.
  pass_over :
      (rounds port end : ℕ)
      → port ≤ end
      → is_available port ≡ false
      → port_loop (suc rounds) port end ≡ port_loop rounds ((port + 1) % 2 ^ 16) end
  unfolding port_loop
  pass_over rounds port end inside busy =
      let test : leb port end ≡ true = ground (arith, inside) in
      elim (Bool-cases (is_excluded exclude_ports port)) [
        | inl e ↦ rw (test, e) refl
        | inr e ↦
            let taken : is_free port ≡ false = sym (ap (λ b. not b && is_free port) e) ∙ busy in
            rw (test, e, taken) refl
      ]

  take_first :
      (rounds port end : ℕ)
      → port ≤ end
      → is_available port ≡ true
      → port_loop (suc rounds) port end ≡ Search.found port
  unfolding port_loop
  take_first rounds port end inside works =
      let test : leb port end ≡ true = ground (arith, inside) in
      elim (Bool-cases (is_excluded exclude_ports port)) [
        | inl e ↦
            let never : false ≡ true = sym (ap (λ b. not b && is_free port) e) ∙ works in
            absurd (ground (arith, never))
        | inr e ↦
            let opens : is_free port ≡ true = sym (ap (λ b. not b && is_free port) e) ∙ works in
            rw (test, e, opens) refl
      ]

  port_loop-IsAnswer :
      (rounds port end : ℕ)
      → end < 65535
      → port ≤ suc end
      → suc end < port + rounds
      → IsAnswer port end (port_loop rounds port end)
  unfolding port_loop
  port_loop-IsAnswer zero port end below inside enough = absurd (omega arith)
  port_loop-IsAnswer (suc rounds) port end below inside enough = elim (Bool-cases (leb port end)) [
    | inr past ↦ rw past (λ q lo hi. absurd (ground (arith, past, lo, hi)))
    | inl more ↦
        let here : port ≤ end = ground (arith, more) in
        elim (Bool-cases (is_available port)) [
          | inl works ↦
              rw (take_first rounds port end here works)
                (omega arith, here, works, λ q lo hi. absurd (omega (arith, lo, hi)))
          | inr busy ↦
              let step : (port + 1) % 2 ^ 16 ≡ suc port = omega arith in
              rw (pass_over rounds port end here busy, step)
                (widen port end (port_loop rounds (suc port) end) busy
                  (port_loop-IsAnswer rounds (suc port) end below (omega arith) (omega arith)))
        ]
  ]

  -- Up to every last port below 65535: the search ends, after one round more than there are ports, with
  -- the first port in the range that is free and not excluded, or says that there is none.
  pub get_available_port-IsAnswer :
      (rounds start end : ℕ)
      → end < 65535
      → start ≤ suc end
      → suc end < start + rounds
      → IsAnswer start end (get_available_port rounds true start end)
  unfolding get_available_port
  get_available_port-IsAnswer rounds start end below inside enough =
      port_loop-IsAnswer rounds start end below inside enough

  -- Where the last port is 65535 and no port is available, the search never ends: after every number
  -- of rounds it still runs.
  pub get_available_port_forever :
      ((port : ℕ) → is_available port ≡ false)
      → (rounds start : ℕ) → start < 65536
      → get_available_port rounds true start 65535 ≡ Search.still_running
  unfolding get_available_port port_loop
  get_available_port_forever busy zero start h = refl
  get_available_port_forever busy (suc rounds) start h =
      pass_over rounds start 65535 (omega arith) (busy start)
      ∙ get_available_port_forever busy rounds ((start + 1) % 2 ^ 16) (omega arith)
