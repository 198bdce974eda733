-- ===== src/Tests/SharedMemory.antt =====
-- The shared-memory channel on a short run: two writes and two reads, the second of them too small.
use simple_socket.Prelude.{ℕ, ◌≤◌, ◌≡◌, refl, false, ◌&&◌, List, [], ◌∷◌, ◌++◌, length, arith}
use simple_socket.SharedMemory.{Channel, created, Event, Enabled, step, Reaches}
use simple_socket.SharedMemory.Order.{read_results, never_both, reads_in_order}

abbrev wrote : Channel → List ℕ → Channel
wrote c msg = step (step c Event.write_enters) (Event.write_leaves msg)

abbrev did_read : Channel → ℕ → Channel
did_read c size = step (step c Event.read_enters) (Event.read_leaves size)

abbrev two_messages : Channel
two_messages = did_read (wrote (did_read (wrote created (1 ∷ 2 ∷ [])) 8) (3 ∷ 4 ∷ [])) 1

two_messages_reached : Reaches 16 two_messages
unfolding step Enabled created
two_messages_reached =
    Reaches.next _ (Event.read_leaves 1)
      (Reaches.next _ Event.read_enters
        (Reaches.next _ (Event.write_leaves (3 ∷ 4 ∷ []))
          (Reaches.next _ Event.write_enters
            (Reaches.next _ (Event.read_leaves 8)
              (Reaches.next _ Event.read_enters
                (Reaches.next _ (Event.write_leaves (1 ∷ 2 ∷ []))
                  (Reaches.next _ Event.write_enters Reaches.start (refl, omega arith))
                  (refl, omega arith, omega arith))
                (refl, omega arith))
              (refl, omega arith))
            (refl, omega arith))
          (refl, omega arith, omega arith))
        (refl, omega arith))
      (refl, omega arith)

never_both_example : (two_messages.is_writing && two_messages.is_reading) ≡ false
never_both_example = never_both 16 two_messages two_messages_reached

reads_in_order_example :
    (done : List (List ℕ)) × (rest : List (List ℕ)) × (two_messages.written ≡ done ++ rest)
    × (length rest ≤ 1)
    × (length done ≡ length two_messages.sizes)
    × (two_messages.results ≡ read_results done two_messages.sizes)
reads_in_order_example = reads_in_order 16 two_messages two_messages_reached
