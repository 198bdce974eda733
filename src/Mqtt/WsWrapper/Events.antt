-- ===== src/Mqtt/WsWrapper/Events.antt =====
-- src/simple_socket/mqtt/WsMqttWrapper.hpp: the object, called by several threads. Each call holds
-- the mutex, so the calls happen in some order.
use simple_socket.Prelude.{
  ℕ, ◌≡◌, refl, sym, ap, ◌∙◌, Bool, true, false, Option, none, some, List, [], ◌∷◌, ◌++◌,
  append_assoc, append-nil, if◌then◌else◌, Bool-cases, inl, inr,
}
use simple_socket.Connection.Segments.{joined}
use simple_socket.Mqtt.WsWrapper.{read_queue, read_queue_in_order}

-- `sent` is what was handed to `connection->send`.
pub record Wrapper : Type 0 where
  pub closed : Bool
  pub queue : List (List ℕ)
  pub sent : List (List ℕ)

abbrev pub fresh_wrapper : Wrapper
fresh_wrapper = record { closed = false; queue = []; sent = [] }

-- Where `read` does not wait: its bytes, or `none` for -1. Where it waits, nothing.
unfoldable pub read : Wrapper → ℕ → Option (Option (List ℕ) × Wrapper)
unfolding read_queue
read w n = elim w.queue [
  | [] ↦ if w.closed then some (none, w) else none
  | msg ∷ rest ↦
      let (got, queue) = read_queue (msg ∷ rest) n in some (some got, record w { queue = queue })
]

-- `up` says whether `send` succeeds.
unfoldable pub write : (List (List ℕ) → Bool) → Wrapper → List ℕ → Bool × Wrapper
write up w bytes =
    if w.closed then (false, w) else (up w.sent, record w { sent = w.sent ++ bytes ∷ [] })

unfoldable pub close : Wrapper → Wrapper
close w = record w { closed = true }

unfoldable pub push_back : Wrapper → List ℕ → Wrapper
push_back w msg = record w { queue = w.queue ++ msg ∷ [] }

pub data Action : Type 0 where
  reads : ℕ → Action
  writes pushes : List ℕ → Action
  closes : Action

-- What the calls brought in, in their order.
abbrev pub pushed : List Action → List (List ℕ)
pushed [] = []
pushed (reads n ∷ calls) = pushed calls
pushed (writes bytes ∷ calls) = pushed calls
pushed (pushes msg ∷ calls) = msg ∷ pushed calls
pushed (closes ∷ calls) = pushed calls

-- The bytes a call gives to the reader. A `read` that waits changes nothing until it is called
-- again.
abbrev pub read_or_wait : Wrapper → Option (Option (List ℕ) × Wrapper) → List ℕ × Wrapper
read_or_wait w none = ([], w)
read_or_wait w (some (none, w')) = ([], w')
read_or_wait w (some (some got, w')) = (got, w')

unfoldable pub act : (List (List ℕ) → Bool) → Wrapper → Action → List ℕ × Wrapper
act up w (reads n) = read_or_wait w (read w n)
act up w (writes bytes) = ([], (write up w bytes).1)
act up w (pushes msg) = ([], push_back w msg)
act up w closes = ([], close w)

unfoldable pub run : (List (List ℕ) → Bool) → Wrapper → List Action → List ℕ × Wrapper
run up w [] = ([], w)
run up w (call ∷ calls) =
    let (got, w') = act up w call in let (more, w'') = run up w' calls in (got ++ more, w'')

pub joined-append : (xs ys : List (List ℕ)) → joined (xs ++ ys) ≡ joined xs ++ joined ys
joined-append [] ys = refl
joined-append (x ∷ xs) ys =
    ap (◌++◌ x) (joined-append xs ys) ∙ sym (append_assoc x (joined xs) (joined ys))

read_keeps :
    (queue : List (List ℕ)) (w : Wrapper) (n : ℕ)
    → w.queue ≡ queue
    → joined w.queue ≡ (read_or_wait w (read w n)).0 ++ joined (read_or_wait w (read w n)).1.queue
unfolding read
read_keeps [] w n e = elim (Bool-cases w.closed) [
  | inl shut ↦ rw (e, read, shut, e) refl
  | inr up ↦ rw (e, read, up) refl
]
read_keeps (msg ∷ rest) w n e = rw (e, read) (read_queue_in_order (msg ∷ rest) n)

write_queue :
    (up : List (List ℕ) → Bool) (w : Wrapper) (bytes : List ℕ)
    → (write up w bytes).1.queue ≡ w.queue
unfolding write
write_queue up w bytes = elim (Bool-cases w.closed) [
  | inl shut ↦ rw shut refl
  | inr up ↦ rw up refl
]

push_queue :
    (queue : List (List ℕ)) (msg rest : List ℕ)
    → joined queue ++ (msg ++ rest) ≡ joined (queue ++ msg ∷ []) ++ rest
push_queue queue msg rest =
    rw (joined-append queue (msg ∷ []), append-nil msg) (sym (append_assoc (joined queue) msg rest))

module _ (up : List (List ℕ) → Bool) where
  -- Whatever is called, in any order: the bytes that the reads gave, and after them those still in
  -- the queue, are the messages that were in the queue before and those pushed, one after the other.
  -- Nothing is lost or repeated, also where the wrapper is closed.
  pub run_in_order :
      (calls : List Action) (w : Wrapper)
      → joined w.queue ++ joined (pushed calls)
        ≡ (run up w calls).0 ++ joined (run up w calls).1.queue
  unfolding run act push_back close
  run_in_order [] w = append-nil (joined w.queue)
  run_in_order (reads n ∷ calls) w =
      let (got, w') = read_or_wait w (read w n) in
      ap (λ b. b ++ joined (pushed calls)) (read_keeps w.queue w n refl)
      ∙ append_assoc got (joined w'.queue) (joined (pushed calls))
      ∙ ap (◌++◌ got) (run_in_order calls w')
      ∙ sym (append_assoc got (run up w' calls).0 (joined (run up w' calls).1.queue))
  run_in_order (writes bytes ∷ calls) w =
      ap (λ q. joined q ++ joined (pushed calls)) (sym (write_queue up w bytes))
      ∙ run_in_order calls (write up w bytes).1
  run_in_order (pushes msg ∷ calls) w =
      push_queue w.queue msg (joined (pushed calls)) ∙ run_in_order calls (push_back w msg)
  run_in_order (closes ∷ calls) w = run_in_order calls (close w)

-- The same, of one call.
pub act_in_order :
    (up : List (List ℕ) → Bool) (call : Action) (w : Wrapper)
    → joined w.queue ++ joined (pushed (call ∷ []))
      ≡ (act up w call).0 ++ joined (act up w call).1.queue
unfolding run
act_in_order up call w =
    run_in_order up (call ∷ []) w
    ∙ ap (λ b. b ++ joined (act up w call).1.queue) (append-nil (act up w call).0)
