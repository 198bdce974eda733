-- ===== src/Tests/Lifetimes.antt =====
-- Servers, clients and connections from their construction to their end.
use simple_socket.Connection.{IsStream}
use simple_socket.Modbus.Server.Lifecycle.{
  Pool, Phase, destroys, joins, step, Reaches, here, next, Reaches-step-finishes,
}
use simple_socket.Prelude.{
  ℕ, ◌+◌, ◌≤◌, ◌<◌, ◌≡◌, ◌≢◌, refl, Bool, true, false, Option, none, some, List, [], ◌∷◌,
  if◌then◌else◌, All, Bool-cases, inl, inr, ok, throw, fault, socket_error, length, replicate,
  arith,
}
use simple_socket.SharedMemory.Layout.{
  my_buffer, peer_buffer, data_offset, total_size, AreApart, semaphores, layout_fits,
}
use simple_socket.Sockets.Descriptors.{GivesUnused}
use simple_socket.Sockets.Servers.{sun_path}
use simple_socket.Sockets.Servers.Files.{FileSystem, unix_server, destroy, unix_server-destroy}
use simple_socket.Sockets.Udp.{udp_connection, udp_connection-ne-IsStream}
use simple_socket.Text.{codes, same}
use simple_socket.Ws.Client.{
  ClientCall, connects, sends, is_served, client_lifetime, Closes, client_lifetime-ends,
}

layout_fits_example :
    (4096 ≤ my_buffer 4096 true 1024)
    × (my_buffer 4096 true 1024 + data_offset + 1024 ≤ 4096 + total_size 1024)
    × AreApart
        (my_buffer 4096 true 1024)
        (data_offset + 1024)
        (peer_buffer 4096 true 1024)
        (data_offset + 1024)
    × (my_buffer 4096 true 1024 ≡ peer_buffer 4096 false 1024)
    × ((semaphores (codes "shm") true).my_write ≡ (semaphores (codes "shm") false).peer_write)
    × ((semaphores (codes "shm") true).my_read ≡ (semaphores (codes "shm") false).peer_read)
layout_fits_example = layout_fits 4096 1024 (codes "shm") true (omega arith)

-- A first try that fails, a message, and a second connection in place of the first.
abbrev two_connections : List ClientCall
two_connections =
    connects (throw socket_error) ∷ connects (ok tt) ∷ sends (codes "hi") ∷ connects (ok tt) ∷ []

client_lifetime-ends_example :
    (is_served (λ log. []) false two_connections ≡ true
      → Closes (λ log. []) 2 (client_lifetime (λ log. []) two_connections))
    × (is_served (λ log. []) false two_connections ≡ false
        → client_lifetime (λ log. []) two_connections ≡ fault)
client_lifetime-ends_example = client_lifetime-ends (λ log. []) two_connections

-- Two clients, and the thread that accepted them has ended.
abbrev stopped : Pool
stopped = record {
  is_accepting = false;
  is_stopped = true;
  threads = 2;
  joined = λ i. false;
  phase = Phase.alive;
}

abbrev destroying : Pool
destroying = record stopped { phase = Phase.joining 0 }

one_step : Reaches stopped destroying
unfolding step
one_step = next stopped destroying destroys here refl refl

Reaches-step-finishes_example :
    (r : Pool) × (step destroying joins ≡ ok r)
    × ((i : ℕ) → i < 2 → destroying.phase ≡ Phase.waiting → destroying.joined i ≡ true)
Reaches-step-finishes_example =
    Reaches-step-finishes stopped destroying joins refl refl one_step (0, refl, omega arith)

udp_connection-ne-IsStream_example :
    ¬ IsStream (udp_connection (λ a. some 0) (codes "10.0.0.1")) (λ w. []) (λ w. Unit {0})
udp_connection-ne-IsStream_example =
    udp_connection-ne-IsStream (λ a. some 0) (codes "10.0.0.1") 0 (λ w. []) (λ w. Unit {0})
      (1 ∷ 2 ∷ 3 ∷ []) [] refl tt (omega arith)

-- A file system as the set of its names.
abbrev bind_name : (List ℕ → Bool) → List ℕ → Option (List ℕ → Bool)
bind_name f p = if f p then none else some (λ q. if same p q then true else f q)

bind_name_taken : (f : List ℕ → Bool) (p : List ℕ) → f p ≡ true → bind_name f p ≡ none
bind_name_taken f p e = rw e refl

bind_name_makes :
    (f f' : List ℕ → Bool) (p q : List ℕ)
    → bind_name f p ≡ some f'
    → f' q ≡ (if same p q then true else f q)
bind_name_makes f f' p q e = elim (Bool-cases (f p)) [
  | inl t ↦ absurd (cc (rw t at e))
  | inr t ↦
      let same_files : (λ x. if same p x then true else f x) ≡ f' = cc (rw t at e) in
      rw (← same_files) refl
]

abbrev names : FileSystem (List ℕ → Bool)
names = record {
  exists = λ f p. f p;
  bind = bind_name;
  unlink = λ f p q. if same p q then false else f q;
  bind_taken = bind_name_taken;
  bind_makes = bind_name_makes;
  unlink_lem = λ f p q. refl;
}

-- A number above all descriptors.
abbrev above : List ℕ → ℕ
above [] = 3
above (x ∷ xs) = x + above xs + 1

above_unused : (xs : List ℕ) (n : ℕ) → above xs ≤ n → All (λ y. y ≢ n) xs
above_unused [] n h = tt
above_unused (x ∷ xs) n h = (λ e. absurd (omega (arith, e)), above_unused xs n (omega arith))

abbrev newest : List ℕ → Option ℕ
newest xs = some (above xs)

newest_unused : GivesUnused newest
newest_unused xs fd e = let same_number : above xs ≡ fd = cc e in above_unused xs fd (omega arith)

abbrev long_path : List ℕ
long_path = replicate 120 b'a'

abbrev no_files : List ℕ → Bool
no_files p = false

unix_server-destroy_example :
    (let left =
        destroy names newest
          (λ fd n. true)
          long_path
          (unix_server names newest (λ fd n. true) long_path 5 [] no_files) in
      (length long_path ≤ 107 → left (sun_path long_path) ≡ false)
      × (107 < length long_path
          → (left (sun_path long_path) ≡ true)
            × ((unix_server names newest (λ fd n. true) long_path 5 [] left).result
                ≡ throw socket_error)))
unfolding unix_server
unix_server-destroy_example =
    unix_server-destroy names newest (λ fd n. true) long_path 5 [] [] no_files 3 3 newest_unused
      refl refl
