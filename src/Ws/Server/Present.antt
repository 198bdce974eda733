-- ===== src/Ws/Server/Present.antt =====
-- The connections that a round of the server in src/simple_socket/ws/WebSocket.cpp has, and those it keeps.
use simple_socket.Connection.{Reader}
use simple_socket.Prelude.{
  ℕ, ◌+◌, ◌-◌, ◌≡◌, ◌≢◌, refl, Bool, true, false, Option, none, some, List, [], ◌∷◌, ◌++◌, ◌==◌,
  if◌then◌else◌, Outcome, ok, throw, fault, All, All-append, Bool-cases, inl, inr, arith, length,
  length-append, append-nil, ap, sym, ◌∙◌,
}
use simple_socket.Ws.Frames.{Role}
use simple_socket.Ws.Handshake.{handshake}
use simple_socket.Ws.Handshake.Defined.{handshake-ne-fault}
use simple_socket.Ws.Lifetime.{Link, Call, send_text, send_bytes, close, call, fresh_link}
use simple_socket.Ws.Server.Run.{
  Hub, is_closed, Round, call_at, calls_at, clean_up, keep, open_connection, serve_round,
}
use simple_socket.Ws.Server.{cleanup}

abbrev pub is_send : Call → Bool
is_send (send_text message) = true
is_send (send_bytes message) = true
is_send (close b) = false

module _ (random : List (List ℕ) → List ℕ) where
  abbrev pub AreOpen : List Link → Type 0
  AreOpen ls = All (λ l. l.is_closed ≡ false) ls

  -- Whether a handshake makes a connection.
  abbrev pub is_made {ℓ} : {S : Type ℓ} → Outcome S → Bool
  is_made (ok ws) = true
  is_made (throw e) = false
  is_made fault = false

  -- The connections that are not closed.
  abbrev pub open_ones : List Link → List Link
  open_ones [] = []
  open_ones (l ∷ ls) = let rest = open_ones ls in if l.is_closed then rest else l ∷ rest

  cleanup-open_ones : (ls : List Link) → cleanup is_closed ls ≡ open_ones ls
  unfolding cleanup
  cleanup-open_ones [] = refl
  cleanup-open_ones (l ∷ ls) = rw (cleanup-open_ones ls) refl

  open_ones_all : (ls : List Link) → AreOpen ls → open_ones ls ≡ ls
  open_ones_all [] h = refl
  open_ones_all (l ∷ ls) (here, h) = simp here (ap (◌∷◌ l) (open_ones_all ls h))

  -- Calls that close nothing.
  abbrev pub AreSends : List (ℕ × Call) → Type 0
  AreSends calls = All (λ x. is_send x.1 ≡ true) calls

  send-is_closed :
      (l : Link) (x : Call)
      → is_send x ≡ true
      → (call Role.server random l x).is_closed ≡ l.is_closed
  unfolding call
  send-is_closed l (send_text message) e = refl
  send-is_closed l (send_bytes message) e = refl
  send-is_closed l (close b) e = absurd (ground (arith, e))

  call_at-AreOpen :
      (ls : List Link) (i : ℕ) (x : Call)
      → is_send x ≡ true
      → AreOpen ls
      → AreOpen (call_at random ls i x) × (length (call_at random ls i x) ≡ length ls)
  call_at-AreOpen [] i x e h = (tt, refl)
  call_at-AreOpen (l ∷ ls) i x e (here, h) =
      let (later, many) = call_at-AreOpen ls (i - 1) x e h in
      elim (Bool-cases (i == 0)) [
        | inl t ↦ rw t ((send-is_closed l x e ∙ here, h), refl)
        | inr t ↦ rw t ((here, later), omega (arith, many))
      ]

  calls_at-AreOpen :
      (ls : List Link) (xs : List (ℕ × Call))
      → AreSends xs
      → AreOpen ls
      → AreOpen (calls_at random ls xs) × (length (calls_at random ls xs) ≡ length ls)
  calls_at-AreOpen ls [] sends h = (h, refl)
  calls_at-AreOpen ls ((i, x) ∷ xs) (e, sends) h =
      let (h', many) = call_at-AreOpen ls i x e h in
      let (h'', many') = calls_at-AreOpen (call_at random ls i x) xs sends h' in (h'', many' ∙ many)

  module _ {S : Type 0} (c : Reader S) (write : S → List ℕ → Option S)
      (generate : List ℕ → List ℕ) where
    abbrev pub takes : Option S → Bool
    takes none = false
    takes (some conn) = is_made (handshake c write generate conn)

    abbrev pub made : Option S → List Link
    made conn = if takes conn then fresh_link ∷ [] else []

    -- The connections when the cleanup of a round begins: those before, and the one it makes, after all
    -- calls of the round.
    abbrev pub present : Hub → Round S → List Link
    present h r = calls_at random (calls_at random h.connections r.waiting ++ made r.conn) r.serving

    keep_made :
        (ls : List Link) (m : Outcome S)
        → m ≢ fault
        → keep random ls m ≡ ok (ls ++ (if is_made m then fresh_link ∷ [] else []))
    keep_made ls (ok ws) safe = refl
    keep_made ls (throw e) safe = ap ok (sym (append-nil ls))
    keep_made ls fault safe = absurd (safe refl)

    open_connection-made :
        (ls : List Link) (conn : Option S)
        → open_connection random c write generate ls conn ≡ ok (ls ++ made conn)
    unfolding open_connection
    open_connection-made ls none = ap ok (sym (append-nil ls))
    open_connection-made ls (some s) =
        keep_made ls (handshake c write generate s) (handshake-ne-fault c write generate s)

    pub serve_round-present :
        (h : Hub) (r : Round S)
        → serve_round random c write generate h r ≡ ok (clean_up random h (present h r))
    unfolding serve_round
    serve_round-present h r =
        rw (open_connection-made (calls_at random h.connections r.waiting) r.conn) refl

    pub clean_up-present :
        (h : Hub) (r : Round S)
        → (clean_up random h (present h r)).connections ≡ open_ones (present h r)
    unfolding clean_up
    clean_up-present h r = cleanup-open_ones (present h r)

    made-AreOpen :
        (conn : Option S)
        → AreOpen (made conn) × (length (made conn) ≡ (if takes conn then 1 else 0))
    unfolding fresh_link
    made-AreOpen conn = elim (Bool-cases (takes conn)) [
      | inl t ↦ rw t ((refl, tt), refl)
      | inr t ↦ rw t (tt, refl)
    ]

    pub present_sends :
        (h : Hub) (r : Round S)
        → AreOpen h.connections
        → AreSends r.waiting
        → AreSends r.serving
        → length (open_ones (present h r)) ≡ length h.connections + (if takes r.conn then 1 else 0)
    present_sends h r still waiting serving =
        let (is_open, many) = calls_at-AreOpen h.connections r.waiting waiting still in
        let (new_open, one) = made-AreOpen r.conn in
        let before = calls_at random h.connections r.waiting in
        let (all_open, same) =
          calls_at-AreOpen (before ++ made r.conn) r.serving serving
            (All-append (λ l. l.is_closed ≡ false) before (made r.conn) is_open new_open) in
        rw (open_ones_all (present h r) all_open)
          (omega (arith, same, many, one, length-append before (made r.conn)))
