-- ===== src/Ws/Server/Closes.antt =====
-- Every connection of the server in src/simple_socket/ws/WebSocket.cpp is closed by the end.
use simple_socket.Connection.{Reader}
use simple_socket.Prelude.{
  ℕ, ◌+◌, ◌-◌, ◌≡◌, ◌≢◌, refl, true, Option, none, some, List, [], ◌∷◌, ◌++◌, ◌==◌, if◌then◌else◌,
  Outcome, ok, throw, fault, All, All-append, Bool-cases, inl, inr, arith, length, length-append,
  ap, ◌∙◌,
}
use simple_socket.Ws.Frames.{Role}
use simple_socket.Ws.Handshake.{handshake}
use simple_socket.Ws.Handshake.Defined.{handshake-ne-fault}
use simple_socket.Ws.Lifetime.{Link, Call, fresh_link, IsCounted, IsDone, closing, call-IsCounted}
use simple_socket.Ws.Server.Present.{
  AreOpen, AreSends, is_made, open_ones, takes, present, serve_round-present, clean_up-present,
  present_sends,
}
use simple_socket.Ws.Server.Run.{
  Hub, no_connections, is_closed, Round, call_at, calls_at, erased, destroy_all, clean_up, leave,
  keep, open_connection, serve_round, serve_rounds, run,
}
use simple_socket.Ws.Server.{cleanup}

module _ (random : List (List ℕ) → List ℕ) where
  abbrev AreCounted : List Link → Type 0
  AreCounted ls = All (IsCounted Role.server random) ls

  abbrev pub AreDone : List Link → Type 0
  AreDone ls = All (IsDone Role.server random) ls

  -- `n` connections that are closed as often as they say.
  abbrev AreLinks : ℕ → List Link → Type 0
  AreLinks n ls = AreCounted ls × (length ls ≡ n)

  call_at-AreLinks :
      (n : ℕ) (ls : List Link) (i : ℕ) (x : Call)
      → AreLinks n ls
      → AreLinks n (call_at random ls i x)
  call_at-AreLinks n [] i x h = h
  call_at-AreLinks n (l ∷ ls) i x ((counted, all), many) =
      let (all', many') = call_at-AreLinks (length ls) ls (i - 1) x (all, refl) in
      elim (Bool-cases (i == 0)) [
        | inl t ↦ rw t ((call-IsCounted Role.server random l x counted, all), many)
        | inr t ↦ rw t ((counted, all'), omega (arith, many', many))
      ]

  calls_at-AreLinks :
      (n : ℕ) (ls : List Link) (xs : List (ℕ × Call))
      → AreLinks n ls
      → AreLinks n (calls_at random ls xs)
  calls_at-AreLinks n ls [] h = h
  calls_at-AreLinks n ls ((i, x) ∷ xs) h =
      calls_at-AreLinks n (call_at random ls i x) xs (call_at-AreLinks n ls i x h)

  -- What the cleanup keeps, and what it destroys.
  sorted_out :
      (n : ℕ) (ls : List Link)
      → AreLinks n ls
      → AreCounted (cleanup is_closed ls)
        × AreOpen random (cleanup is_closed ls)
        × AreDone (erased random ls)
        × (length (cleanup is_closed ls) + length (erased random ls) ≡ n)
  unfolding cleanup
  sorted_out n [] (all, many) = (tt, tt, tt, omega (arith, many))
  sorted_out n (l ∷ ls) ((counted, all), many) =
      let (kept, still, done, sum) = sorted_out (length ls) ls (all, refl) in
      elim (Bool-cases l.is_closed) [
        | inl t ↦ simp t (
          kept,
          still,
          (closing Role.server random l true counted, done),
          omega (arith, sum, many),
        )
        | inr t ↦
            simp t (((simp t at counted), kept), (refl, still), done, omega (arith, sum, many))
      ]

  destroy_all-AreDone :
      (ls : List Link)
      → AreCounted ls
      → AreDone (destroy_all random ls) × (length (destroy_all random ls) ≡ length ls)
  destroy_all-AreDone [] h = (tt, refl)
  destroy_all-AreDone (l ∷ ls) (counted, h) =
      let (done, many) = destroy_all-AreDone ls h in
      ((closing Role.server random l true counted, done), omega (arith, many))

  -- Between two rounds, when `n` connections have been made.
  abbrev IsSettled : ℕ → Hub → Type 0
  IsSettled n h =
      AreCounted h.connections
      × AreOpen random h.connections
      × AreDone h.destroyed
      × (length h.connections + length h.destroyed ≡ n)

  clean_up-IsSettled :
      (n : ℕ) (h : Hub) (ls : List Link)
      → AreDone h.destroyed
      → AreLinks n ls
      → IsSettled (n + length h.destroyed) (clean_up random h ls)
  unfolding clean_up
  clean_up-IsSettled n h ls before links =
      let (kept, still, done, sum) = sorted_out n ls links in
      (
        kept,
        still,
        All-append (IsDone Role.server random) h.destroyed (erased random ls) before done,
        omega (arith, sum, length-append h.destroyed (erased random ls)),
      )

  -- `n` connections have been made, and each has been closed once.
  abbrev pub AllClosed : ℕ → Hub → Type 0
  AllClosed n h = AreDone h.destroyed × (length h.destroyed ≡ n) × (h.connections ≡ [])

  leave-AllClosed : (n : ℕ) (h : Hub) → IsSettled n h → AllClosed n (leave random h)
  unfolding leave
  leave-AllClosed n h (counted, still, done, sum) =
      let (done', many) = destroy_all-AreDone h.connections counted in
      (
        All-append (IsDone Role.server random) h.destroyed (destroy_all random h.connections) done
            done',
        omega (arith, sum, many, length-append h.destroyed (destroy_all random h.connections)),
        refl,
      )

  keep-AreLinks {ℓ} :
      {S : Type ℓ} (n : ℕ) (ls : List Link) (made : Outcome S)
      → made ≢ fault
      → AreLinks n ls
      → (ls' : List Link) × (keep random ls made ≡ ok ls')
        × AreLinks (n + (if is_made random made then 1 else 0)) ls'
  unfolding fresh_link
  keep-AreLinks n ls (ok ws) safe (all, many) = (
    ls ++ fresh_link ∷ [],
    refl,
    (
      All-append (IsCounted Role.server random) ls (fresh_link ∷ []) all ((refl, refl), tt),
      omega (arith, many, length-append ls (fresh_link ∷ [])),
    ),
  )
  keep-AreLinks n ls (throw e) safe (all, many) = (ls, refl, (all, omega (arith, many)))
  keep-AreLinks n ls fault safe h = absurd (safe refl)

  recounted : (m n : ℕ) (h : Hub) → m ≡ n → IsSettled m h → IsSettled n h
  recounted m n h e settled = rw (← e) settled

  module _ {S : Type 0} (c : Reader S) (write : S → List ℕ → Option S)
      (generate : List ℕ → List ℕ) where
    abbrev pub taken : List (Round S) → ℕ
    taken [] = 0
    taken (r ∷ rounds) = taken rounds + (if takes random c write generate r.conn then 1 else 0)

    open_connection-AreLinks :
        (n : ℕ) (ls : List Link) (conn : Option S)
        → AreLinks n ls
        → (ls' : List Link) × (open_connection random c write generate ls conn ≡ ok ls')
          × AreLinks (n + (if takes random c write generate conn then 1 else 0)) ls'
    unfolding open_connection
    open_connection-AreLinks n ls none (all, many) = (ls, refl, (all, omega (arith, many)))
    open_connection-AreLinks n ls (some s) h =
        keep-AreLinks n ls (handshake c write generate s) (handshake-ne-fault c write generate s) h

    serve_round-IsSettled :
        (n : ℕ) (h : Hub) (r : Round S)
        → IsSettled n h
        → (h' : Hub) × (serve_round random c write generate h r ≡ ok h')
          × IsSettled (n + (if takes random c write generate r.conn then 1 else 0)) h'
    unfolding serve_round
    serve_round-IsSettled n h r (counted, still, done, sum) =
        let waited =
          calls_at-AreLinks (length h.connections) h.connections r.waiting (counted, refl) in
        let (ls, opened, links) =
          open_connection-AreLinks (length h.connections) (calls_at random h.connections r.waiting)
            r.conn waited in
        let served = calls_at random ls r.serving in
        let (kept, still', done', sum') =
          clean_up-IsSettled
            (length h.connections + (if takes random c write generate r.conn then 1 else 0)) h
            served done (calls_at-AreLinks _ ls r.serving links) in
        (clean_up random h served, rw opened refl, (kept, still', done', omega (arith, sum, sum')))

    serve_rounds-IsSettled :
        (n : ℕ) (h : Hub) (rounds : List (Round S))
        → IsSettled n h
        → (h' : Hub) × (serve_rounds random c write generate h rounds ≡ ok h')
          × IsSettled (n + taken rounds) h'
    unfolding serve_rounds
    serve_rounds-IsSettled n h [] settled = (h, refl, recounted n (n + 0) h (omega arith) settled)
    serve_rounds-IsSettled n h (r ∷ rounds) settled =
        let one = if takes random c write generate r.conn then 1 else 0 in
        let (h₁, went, settled₁) = serve_round-IsSettled n h r settled in
        let (h₂, rest, settled₂) = serve_rounds-IsSettled (n + one) h₁ rounds settled₁ in
        (
          h₂,
          rw went rest,
          recounted (n + one + taken rounds) (n + (taken rounds + one)) h₂ (omega arith) settled₂,
        )

    -- Whatever the rounds accept, and whatever `send` and `close` the connections are called in their own
    -- threads before, between and after: a further round goes through, and keeps exactly those connections
    -- that are open when its cleanup begins, in their order. So a round in which none is closed keeps all
    -- of them, also where its `accept` or its handshake throws. When `run` returns, each connection that
    -- was made is destroyed, the transport below it closed once and its `onClose` called once.
    pub run-AllClosed :
        (rounds : List (Round S)) (r : Round S)
        → (before : Hub) × (next : Hub) × (after : Hub) × (serve_rounds random c write generate
              no_connections rounds
            ≡ ok before)
          × (serve_round random c write generate before r ≡ ok next)
          × (next.connections ≡ open_ones random (present random c write generate before r))
          × (AreSends random r.waiting
              → AreSends random r.serving
              → length next.connections
                ≡ length before.connections
                  + (if takes random c write generate r.conn then 1 else 0))
          × (run random c write generate rounds ≡ ok after)
          × AllClosed (taken rounds) after
    unfolding run
    run-AllClosed rounds r =
        let (h, went, settled) =
          serve_rounds-IsSettled 0 no_connections rounds (tt, tt, tt, refl) in
        let (done, many, none_left) = leave-AllClosed _ h settled in
        let kept = clean_up-present random c write generate h r in
        (
          h,
          clean_up random h (present random c write generate h r),
          leave random h,
          went,
          serve_round-present random c write generate h r,
          kept,
          (λ waiting serving.
              ap length kept ∙ present_sends random c write generate h r settled.1 waiting serving),
          rw went refl,
          (done, omega (arith, many), none_left),
        )
