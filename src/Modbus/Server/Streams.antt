-- ===== src/Modbus/Server/Streams.antt =====
-- The server over a byte stream: whole frames are answered one by one, and a frame that the stream
-- cuts off is completed with what the last request left in the buffer.
use simple_socket.Prelude.{
  ℕ, zero, suc, ◌+◌, ◌*◌, ◌≤◌, ◌<◌, ◌≡◌, refl, ap, ◌∙◌, false, List, [], ◌∷◌, ◌++◌, Outcome, ok,
  ◌>>=◌, length, resize, length-resize, drop, take_past, drop_past, IsByte, All, append-nil, arith,
}
use simple_socket.Connection.{Reader, IsStream, read_exact}
use simple_socket.Connection.Exact.{read_exact_front, read_exact-Delivers}
use simple_socket.Modbus.Registers.{HoldingRegister}
use simple_socket.Modbus.Server.{be16, process_request}
use simple_socket.Modbus.Server.Frames.{Frame, bytes}
use simple_socket.Modbus.Server.Framing.{
  Session, closed, answered, read_body, client_turn, client_thread,
}
use simple_socket.Modbus.Server.Loops.{be16_lem}
use simple_socket.Modbus.Server.Safety.{IsBank, HasData, process_request_total}

-- A frame as a client sends it: bytes, with a length field that counts what follows it, and with the
-- data that a write of several registers announces.
pub record IsWhole (f : Frame) : Type 0 where
  pub of_bytes : All IsByte (bytes f)
  pub measured : f.l₁ * 256 + f.l₀ ≡ 6 + length f.rest
  pub complete : f.code ≡ 0x10 → HasData f.rest

abbrev pub all_bytes : List Frame → List ℕ
all_bytes [] = []
all_bytes (f ∷ fs) = bytes f ++ all_bytes fs

abbrev header : Frame → List ℕ
header f = f.t₁ ∷ f.t₀ ∷ f.p₁ ∷ f.p₀ ∷ f.l₁ ∷ f.l₀ ∷ []

abbrev body : Frame → List ℕ
body f = f.unit ∷ f.code ∷ f.a₁ ∷ f.a₀ ∷ f.q₁ ∷ f.q₀ ∷ f.rest

-- The requests answered in order, each on the bank that the last one left.
abbrev pub answer_all : List Frame → HoldingRegister → Outcome (List (List ℕ) × HoldingRegister)
answer_all [] reg = ok ([], reg)
answer_all (f ∷ fs) reg = do
  (response, reg') ← process_request (bytes f) reg
  (responses, reg'') ← answer_all fs reg'
  ok (response ∷ responses, reg'')

module _ {S : Type 0} {c : Reader S} {pending : S → List ℕ} {IsValid : S → Type 0}
    (stream : IsStream c pending IsValid) where
  read_body_whole :
      (s : S) (request xs ys : List ℕ)
      → IsValid s
      → pending s ≡ xs ++ ys
      → (s' : S) × (read_body c s request (length xs) ≡ (xs, s')) × (pending s' ≡ ys) × IsValid s'
  unfolding read_body
  read_body_whole s request xs ys v e =
      let (s', exact, next, v') = read_exact_front stream s xs ys v e in
      (
        s',
        rw (
          exact,
          drop_past (length xs) (resize request (length xs) 0)
              (omega (arith, length-resize request (length xs) 0)),
          append-nil,
        ),
        next,
        v',
      )

  turn_over : (t : Session S) → IsValid t.conn → pending t.conn ≡ [] → client_turn c t ≡ ok closed
  unfolding client_turn
  turn_over t v e =
      let (done, got, next, v') = read_exact-Delivers stream t.conn 6 v in
      let failed : (read_exact c t.conn 6).0 ≡ false = ground (arith, done, e) in
      rw (failed, client_turn)

  turn_whole :
      (t : Session S) (f : Frame) (ys response : List ℕ) (reg' : HoldingRegister)
      → IsValid t.conn
      → IsWhole f
      → pending t.conn ≡ bytes f ++ ys
      → process_request (bytes f) t.reg ≡ ok (response, reg')
      → (s' : S) × (client_turn c t
          ≡ ok (answered response (record { conn = s'; request = bytes f; reg = reg' })))
        × (pending s' ≡ ys)
        × IsValid s'
  unfolding client_turn
  turn_whole t f ys response reg' v w e p =
      let (s₁, exact, next, v₁) = read_exact_front stream t.conn (header f) (body f ++ ys) v e in
      let (s₂, rest, next', v₂) = read_body_whole s₁ t.request (body f) ys v₁ next in
      let len : be16 f.l₁ f.l₀ ≡ length (body f) =
        omega (arith, be16_lem f.l₁ f.l₀ w.of_bytes.1.1.1.1.0 w.of_bytes.1.1.1.1.1.0, w.measured) in
      (s₂, rw (exact, client_turn, len, rest, p), next', v₂)

  -- Whole frames are answered one by one, however the stream cuts them into reads, and whatever
  -- the buffer held: the answers and the bank are those of the requests in order. Every frame is
  -- answered, and the loop ends when the stream does.
  pub client_thread-answer_all :
      (fs : List Frame) (rounds : ℕ) (t : Session S)
      → IsValid t.conn
      → IsBank t.reg
      → All IsWhole fs
      → pending t.conn ≡ all_bytes fs
      → length fs < rounds
      → (responses : List (List ℕ)) × (reg : HoldingRegister) × (client_thread c rounds t
          ≡ ok (responses, reg))
        × (answer_all fs t.reg ≡ ok (responses, reg))
        × (length responses ≡ length fs)
  unfolding client_thread
  client_thread-answer_all [] zero t v bank w e h = absurd (omega arith)
  client_thread-answer_all [] (suc rounds) t v bank w e h =
      ([], t.reg, rw (turn_over t v e, client_thread), refl, refl)
  client_thread-answer_all (f ∷ fs) zero t v bank w e h = absurd (omega arith)
  client_thread-answer_all (f ∷ fs) (suc rounds) t v bank w e h =
      let (response, reg', answer, bank', kept) =
        process_request_total f t.reg bank w.0.of_bytes w.0.complete in
      let (s', turn, next, v') = turn_whole t f (all_bytes fs) response reg' v w.0 e answer in
      let t' : Session S = record { conn = s'; request = bytes f; reg = reg' } in
      let (responses, reg, loop, all, count) =
        client_thread-answer_all fs rounds t' v' bank' w.1 next (omega arith) in
      (response ∷ responses, reg, rw (turn, client_thread, loop), rw (answer, all), ap suc count)

  read_body_cut :
      (s : S) (request xs : List ℕ) (n : ℕ)
      → IsValid s
      → pending s ≡ xs
      → length xs ≤ n
      → (s' : S) × (read_body c s request n ≡ (xs ++ drop (length xs) (resize request n 0), s'))
  unfolding read_body
  read_body_cut s request xs n v e h =
      let (done, got, next, v') = read_exact-Delivers stream s n v in
      let all : (read_exact c s n).1 ≡ xs = got ∙ rw e (take_past n xs h) in
      ((read_exact c s n).2, rw all)

  -- A frame that the end of the stream cuts off behind its header is not dropped: the missing bytes
  -- are those that the previous request left in the buffer, or zeros, and the result is processed as
  -- a request.
  pub client_turn_cut :
      (t : Session S) (t₁ t₀ p₁ p₀ l₁ l₀ : ℕ) (got made_up response : List ℕ)
      (reg' : HoldingRegister)
      → IsValid t.conn
      → IsByte l₁
      → IsByte l₀
      → pending t.conn ≡ t₁ ∷ t₀ ∷ p₁ ∷ p₀ ∷ l₁ ∷ l₀ ∷ got
      → length got < l₁ * 256 + l₀
      → made_up
        ≡ t₁
          ∷ t₀
          ∷ p₁
          ∷ p₀
          ∷ l₁
          ∷ l₀
          ∷ (got ++ drop (length got) (resize t.request (l₁ * 256 + l₀) 0))
      → process_request made_up t.reg ≡ ok (response, reg')
      → (s' : S) × (client_turn c t
          ≡ ok (answered response (record { conn = s'; request = made_up; reg = reg' })))
  unfolding client_turn
  client_turn_cut t t₁ t₀ p₁ p₀ l₁ l₀ got made_up response reg' v b₁ b₀ e h m p =
      let front : List ℕ = t₁ ∷ t₀ ∷ p₁ ∷ p₀ ∷ l₁ ∷ l₀ ∷ [] in
      let (s₁, exact, next, v₁) = read_exact_front stream t.conn front got v e in
      let (s₂, rest) = read_body_cut s₁ t.request got (l₁ * 256 + l₀) v₁ next (omega arith) in
      (s₂, rw (m, exact, client_turn, be16_lem l₁ l₀ b₁ b₀, rest, rw m at p))
