-- ===== src/Ws/Server/Run.antt =====
-- `run` of `WebSocket::Impl` in src/simple_socket/ws/WebSocket.cpp, from its first round to its return, with
-- what the connections do meanwhile.
--
-- A connection does its calls in its own thread: while `accept` waits, and between the handshake and the
-- cleanup. The cleanup looks at each connection once, so that a call in the middle of it is one before or
-- one after.
use simple_socket.Connection.{Reader}
use simple_socket.Prelude.{
  ℕ, ◌-◌, Bool, true, Option, none, some, List, [], ◌∷◌, ◌++◌, ◌==◌, if◌then◌else◌, Outcome, ok,
  throw, fault, ◌>>=◌,
}
use simple_socket.Ws.Frames.{Role}
use simple_socket.Ws.Handshake.{handshake}
use simple_socket.Ws.Lifetime.{Link, Call, fresh_link, call, close_link}
use simple_socket.Ws.Server.{cleanup}

-- `connections`, and those that are destroyed.
pub record Hub : Type 0 where
  pub connections : List Link
  pub destroyed : List Link

abbrev pub no_connections : Hub
no_connections = record { connections = []; destroyed = [] }

abbrev pub is_closed : Link → Bool
is_closed l = l.is_closed

-- What `accept` gave, `none` where it threw; the calls before, and those after, each with the place of its
-- connection.
pub record Round (S : Type 0) : Type 0 where
  pub conn : Option S
  pub waiting : List (ℕ × Call)
  pub serving : List (ℕ × Call)

module _ (random : List (List ℕ) → List ℕ) where
  abbrev pub call_at : List Link → ℕ → Call → List Link
  call_at [] i x = []
  call_at (l ∷ ls) i x =
      let rest = call_at ls (i - 1) x in
      if i == 0 then call Role.server random l x ∷ ls else l ∷ rest

  abbrev pub calls_at : List Link → List (ℕ × Call) → List Link
  calls_at ls [] = ls
  calls_at ls ((i, x) ∷ xs) = calls_at (call_at ls i x) xs

  -- The destructors that `erase` runs.
  abbrev pub erased : List Link → List Link
  erased [] = []
  erased (l ∷ ls) =
      let rest = erased ls in
      if l.is_closed then close_link Role.server random l true ∷ rest else rest

  abbrev pub destroy_all : List Link → List Link
  destroy_all [] = []
  destroy_all (l ∷ ls) = close_link Role.server random l true ∷ destroy_all ls

  unfoldable pub clean_up : Hub → List Link → Hub
  unfolding cleanup
  clean_up h ls = record {
    connections = cleanup is_closed ls;
    destroyed = h.destroyed ++ erased ls;
  }

  -- At its return `connections` is destroyed.
  unfoldable pub leave : Hub → Hub
  leave h = record { connections = []; destroyed = h.destroyed ++ destroy_all h.connections }

  -- Where the handshake throws there is no connection, and the round goes on.
  abbrev pub keep {ℓ} : {S : Type ℓ} → List Link → Outcome S → Outcome (List Link)
  keep ls (ok ws) = ok (ls ++ fresh_link ∷ [])
  keep ls (throw e) = ok ls
  keep ls fault = fault

  module _ {S : Type 0} (c : Reader S) (write : S → List ℕ → Option S)
      (generate : List ℕ → List ℕ) where
    unfoldable pub open_connection : List Link → Option S → Outcome (List Link)
    unfolding handshake
    open_connection ls none = ok ls
    open_connection ls (some conn) = keep ls (handshake c write generate conn)

    unfoldable pub serve_round : Hub → Round S → Outcome Hub
    unfolding open_connection clean_up
    serve_round h r = open_connection (calls_at h.connections r.waiting) r.conn >>= λ ls.
        ok (clean_up h (calls_at ls r.serving))

    unfoldable pub serve_rounds : Hub → List (Round S) → Outcome Hub
    unfolding serve_round
    serve_rounds h [] = ok h
    serve_rounds h (r ∷ rounds) = serve_round h r >>= λ h'. serve_rounds h' rounds

    -- The rounds up to the one after which `stop_` is set.
    unfoldable pub run : List (Round S) → Outcome Hub
    unfolding serve_rounds leave
    run rounds = serve_rounds no_connections rounds >>= λ h. ok (leave h)
