-- ===== src/Modbus/Server/Lifecycle.antt =====
-- The threads of `ModbusServer::Impl` in src/simple_socket/modbus/ModbusServer.cpp: `start`, `stop` and the
-- destructor, as steps in any order with those of the thread that accepts.
use simple_socket.Prelude.{
  ℕ, zero, suc, ◌+◌, ◌≤◌, ◌&&◌, Bool-cases, inl, inr, ◌<◌, ◌≡◌, refl, Bool, true, false, ◌==◌,
  if◌then◌else◌, Outcome, ok, fault, arith, ==_iff, ◌>>=◌, List, [], ◌∷◌,
}

-- Where the destructor is: not begun, before the turn of its loop with this number, past the loop, at its end.
pub data Phase : Type 0 where
  alive : Phase
  joining : ℕ → Phase
  waiting gone : Phase

-- `is_accepting`: the thread of `start` is in its loop. `threads` is the length of `clients_`, and `joined` are
-- those of them that were joined.
pub record Pool : Type 0 where
  pub is_accepting : Bool
  pub is_stopped : Bool
  pub threads : ℕ
  pub joined : ℕ → Bool
  pub phase : Phase

abbrev pub started : Pool
started = record {
  is_accepting = true;
  is_stopped = false;
  threads = 0;
  joined = λ i. false;
  phase = Phase.alive;
}

-- `accept` gave a connection; the loop saw `stop_`, or `accept` threw; `stop` was called; the destructor
-- begins, joins the client thread of its turn, leaves its loop, and joins the thread of `start`.
pub data Event : Type 0 where
  accepts leaves stops destroys joins passes finishes : Event

abbrev pub Enabled : Pool → Event → Type 0
Enabled p accepts = p.is_accepting ≡ true
Enabled p leaves = p.is_accepting ≡ true
Enabled p stops = p.phase ≡ Phase.alive
Enabled p destroys = p.phase ≡ Phase.alive
Enabled p joins = (i : ℕ) × (p.phase ≡ Phase.joining i) × (i < p.threads)
Enabled p passes = (i : ℕ) × (p.phase ≡ Phase.joining i) × (p.threads ≤ i)
Enabled p finishes = (p.phase ≡ Phase.waiting) × (p.is_accepting ≡ false)

-- `emplace_back` while the destructor runs over `clients_` is a data race.
abbrev pub accept_at : Phase → Pool → Outcome Pool
accept_at Phase.alive p = ok (record p { threads = p.threads + 1 })
accept_at (Phase.joining i) p = fault
accept_at Phase.waiting p = ok (record p { threads = p.threads + 1 })
accept_at Phase.gone p = fault

-- `client.join()`, and on to the next.
abbrev pub join_at : Phase → Pool → Pool
join_at Phase.alive p = p
join_at (Phase.joining i) p = record p {
  joined = λ j. if j == i then true else p.joined j;
  phase = Phase.joining (i + 1);
}
join_at Phase.waiting p = p
join_at Phase.gone p = p

-- Whether the first `n` threads were joined.
abbrev pub all_joined : (ℕ → Bool) → ℕ → Bool
all_joined joined zero = true
all_joined joined (suc n) = joined n && all_joined joined n

unfoldable pub step : Pool → Event → Outcome Pool
step p accepts = accept_at p.phase p
step p leaves = ok (record p { is_accepting = false })
step p stops = ok (record p { is_stopped = true })
step p destroys = ok (record p { phase = Phase.joining 0 })
step p joins = ok (join_at p.phase p)
step p passes = ok (record p { phase = Phase.waiting })
-- The end of `clients_`: a thread that was not joined calls `std::terminate`.
step p finishes =
    if all_joined p.joined p.threads then ok (record p { phase = Phase.gone }) else fault

pub data Reaches (p : Pool) : Pool → Type 0 where
  here : Reaches p p
  next : (q r : Pool) (e : Event) → Reaches p q → Enabled q e → step q e ≡ ok r → Reaches p r

-- Without the accepting thread: the loop of the destructor has joined the threads before its turn.
abbrev AllJoined : Pool → Phase → Type 0
AllJoined p Phase.alive = Unit {0}
AllJoined p (Phase.joining i) = (i ≤ p.threads) × (all_joined p.joined i ≡ true)
AllJoined p Phase.waiting = all_joined p.joined p.threads ≡ true
AllJoined p Phase.gone = all_joined p.joined p.threads ≡ true

abbrev IsQuiet : Pool → Type 0
IsQuiet p = (p.is_accepting ≡ false) × AllJoined p p.phase

join_more :
    (joined : ℕ → Bool) (i n : ℕ)
    → n ≤ i
    → all_joined joined n ≡ true
    → all_joined (λ j. if j == i then true else joined j) n ≡ true
join_more joined i zero room h = refl
join_more joined i (suc n) room h = elim (Bool-cases (joined n)) [
  | inl t ↦
      let other : (n == i) ≡ false = ground arith in
      rw (other, t) (join_more joined i n (omega arith) (rw t at h))
  | inr t ↦ absurd (ground (arith, h, t))
]

join_this :
    (joined : ℕ → Bool) (i : ℕ)
    → all_joined joined i ≡ true
    → all_joined (λ j. if j == i then true else joined j) (i + 1) ≡ true
join_this joined i h =
    let this : (i == i) ≡ true = (==_iff i i).1 refl in
    let one_more : i + 1 ≡ suc i = omega arith in
    rw one_more (rw this (join_more joined i i (omega arith) h))

step-IsQuiet :
    (p : Pool) (e : Event) → Enabled p e → IsQuiet p → (q : Pool) × (step p e ≡ ok q) × IsQuiet q
unfolding step
step-IsQuiet p accepts can (over, all) = absurd (cc)
step-IsQuiet p leaves can (over, all) = absurd (cc)
step-IsQuiet p stops can (over, all) = (record p { is_stopped = true }, refl, (over, all))
step-IsQuiet p destroys can (over, all) =
    (record p { phase = Phase.joining 0 }, refl, (over, (omega arith, refl)))
step-IsQuiet p joins (i, at, more) (over, all) =
    let (room, before) = rw at at all in
    (join_at (Phase.joining i) p, rw at refl, (over, (omega arith, join_this p.joined i before)))
step-IsQuiet p passes (i, at, last) (over, all) =
    let (room, before) = rw at at all in
    let all_of_them : i ≡ p.threads = omega arith in
    (record p { phase = Phase.waiting }, refl, (over, rw all_of_them at before))
step-IsQuiet p finishes (at, ended) (over, all) =
    let done = rw at at all in (record p { phase = Phase.gone }, rw done refl, (over, done))

Reaches-IsQuiet : {p q : Pool} → IsQuiet p → Reaches p q → IsQuiet q
Reaches-IsQuiet h here = h
Reaches-IsQuiet h (next q r e before can went) =
    let (r₁, went₁, quiet) = step-IsQuiet q e can (Reaches-IsQuiet h before) in
    let same_one : r₁ ≡ r = cc (went, went₁) in rw (← same_one) quiet

all_joined_at : (joined : ℕ → Bool) (n i : ℕ) → all_joined joined n ≡ true → i < n → joined i ≡ true
all_joined_at joined zero i h room = absurd (omega arith)
all_joined_at joined (suc n) i h room = elim (Bool-cases (joined n)) [
  | inr t ↦ absurd (ground (arith, h, t))
  | inl t ↦ elim (Bool-cases (i == n)) [
    | inl same_one ↦ rw ((==_iff i n).0 same_one) t
    | inr other ↦ all_joined_at joined n i (rw t at h) (ground (arith, other, room))
  ]
]

-- Where the thread of `start` has ended before the destructor begins, the server goes down in order,
-- however many clients it has: no step of the destructor goes wrong, and when it waits for that thread or
-- is at its end, each client thread has been joined, so that none calls `std::terminate`.
pub Reaches-step-finishes :
    (p q : Pool) (e : Event)
    → p.is_accepting ≡ false
    → p.phase ≡ Phase.alive
    → Reaches p q
    → Enabled q e
    → (r : Pool) × (step q e ≡ ok r)
      × ((i : ℕ) → i < q.threads → q.phase ≡ Phase.waiting → q.joined i ≡ true)
Reaches-step-finishes p q e over up reached can =
    let start : AllJoined p p.phase = rw up tt in
    let (quiet, all) = Reaches-IsQuiet (over, start) reached in
    let (r, went, after) = step-IsQuiet q e can (quiet, all) in
    (r, went, λ i room at. all_joined_at q.joined q.threads i (rw at at all) room)

unfoldable pub run : Pool → List Event → Outcome Pool
unfolding step
run p [] = ok p
run p (e ∷ events) = step p e >>= λ q. run q events

-- Where it has not, a client that connects while the destructor waits for it is put behind those that
-- were joined, and nobody joins it: the program ends by `std::terminate`. One that connects while the
-- destructor joins the others is a data race.
pub run_late :
    (p : Pool) (i : ℕ)
    → p.joined p.threads ≡ false
    → (p.phase ≡ Phase.waiting → run p (accepts ∷ leaves ∷ finishes ∷ []) ≡ fault)
      × (p.phase ≡ Phase.joining i → run p (accepts ∷ []) ≡ fault)
unfolding run step
run_late p i not_yet = (
  λ at.
      let one_more : p.threads + 1 ≡ suc p.threads = omega arith in
      rw at (rw one_more (rw not_yet refl)),
  λ at. rw at refl,
)
