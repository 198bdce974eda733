-- ===== src/Mqtt/WsWrapper.antt =====
-- src/simple_socket/mqtt/WsMqttWrapper.hpp: WebSocket messages as a byte stream for the broker.
--
-- Here the state is the list of messages from the front of `queue_` on, those that will still be
-- pushed included: `read` waits for them on the condition variable. The list ends where `close` is
-- called. WsWrapper/Events has the object with its calls in any order.
pub mod Events
use simple_socket.Prelude.{
  ℕ, zero, suc, ◌≤◌, ◌<◌, ◌≡◌, refl, sym, ap, ◌∙◌, false, List, [], ◌∷◌, ◌++◌, append_assoc,
  if◌then◌else◌, ltb, length, take, drop, All, length-take, length-drop, ltb→lt, take-append-drop,
  take_past, arith, Bool-cases, inl, inr, min,
}
use simple_socket.Connection.{Reader, IsStream, read_exact, read_loop}
use simple_socket.Connection.Segments.{joined}

-- `substr` leaves nothing back where the message was taken whole.
unfoldable pub read_queue : List (List ℕ) → ℕ → List ℕ × List (List ℕ)
read_queue [] n = ([], [])
read_queue (msg ∷ queue) n =
    let to_copy = min n (length msg) in
    (take to_copy msg, (if ltb to_copy (length msg) then drop to_copy msg ∷ queue else queue))

abbrev pub wrapper : Reader (List (List ℕ))
wrapper = record { read = read_queue }

abbrev pub AreNonempty : List (List ℕ) → Type 0
AreNonempty queue = All (λ msg. 0 < length msg) queue

read_queue_keeps : (q : List (List ℕ)) (n : ℕ) → AreNonempty q → AreNonempty (read_queue q n).1
unfolding read_queue
read_queue_keeps [] n v = v
read_queue_keeps (m ∷ q) n (h, v) = elim (Bool-cases (ltb (min n (length m)) (length m))) [
  | inl more ↦ rw more (omega (arith, ltb→lt _ _ more, length-drop (min n (length m)) m), v)
  | inr all ↦ rw all v
]

read_queue_bounded : (q : List (List ℕ)) (n : ℕ) → length (read_queue q n).0 ≤ n
unfolding read_queue
read_queue_bounded [] n = omega arith
read_queue_bounded (m ∷ q) n = omega (arith, length-take (min n (length m)) m)

pub read_queue_in_order :
    (q : List (List ℕ)) (n : ℕ) → joined q ≡ (read_queue q n).0 ++ joined (read_queue q n).1
unfolding read_queue
read_queue_in_order [] n = refl
read_queue_in_order (m ∷ q) n =
    let k = min n (length m) in
    elim (Bool-cases (ltb k (length m))) [
      | inl more ↦ rw more (
          ap (λ x. x ++ joined q) (sym (take-append-drop k m))
          ∙ append_assoc (take k m) (drop k m) (joined q))
      | inr all ↦ rw all (ap (λ x. x ++ joined q) (sym (take_past k m (ground (arith, all)))))
    ]

read_queue_ends :
    (q : List (List ℕ)) (n : ℕ) → AreNonempty q → 0 < n → (read_queue q n).0 ≡ [] → joined q ≡ []
unfolding read_queue
read_queue_ends [] n v h e = refl
read_queue_ends (m ∷ q) n (h', v) h e =
    absurd (omega (arith, length-take (min n (length m)) m, ap length e))

-- Messages none of which is empty make a byte stream: what the readers of the broker rely on.
pub wrapper-IsStream : IsStream wrapper joined AreNonempty
wrapper-IsStream = record {
  keeps = read_queue_keeps;
  bounded = λ q n v. read_queue_bounded q n;
  in_order = λ q n v. read_queue_in_order q n;
  ends = read_queue_ends;
}

read_queue_empty : (q : List (List ℕ)) (n : ℕ) → read_queue ([] ∷ q) n ≡ ([], q)
unfolding read_queue
read_queue_empty q n =
    let none_of_it : min n 0 ≡ 0 = omega arith in rw (read_queue, none_of_it) refl

-- An empty message ends the connection: `read` gives 0 for it, which `readExact` takes for an end,
-- although the bytes that were asked for stand behind it.
pub wrapper_empty_message :
    (n : ℕ) (queue : List (List ℕ))
    → 0 < n
    → n ≤ length (joined queue)
    → read_exact wrapper ([] ∷ queue) n ≡ (false, [], queue)
unfolding read_exact read_loop
wrapper_empty_message zero queue h enough = absurd (omega arith)
wrapper_empty_message (suc n) queue h enough =
    let nothing = read_queue_empty queue (suc n) in
    rw (read_loop, nothing) (ap (λ r. (false, [], r.1)) nothing)
