-- ===== src/Ws/Lifetime.antt =====
-- `send` and `close` of src/simple_socket/ws/WebSocketConnection.hpp, in any order, up to the destructor.
--
-- `written` are the frames handed to the transport; `random` gives the mask of the next one. `conn_closes` and
-- `on_closes` count the calls of `conn_->close()` and `onClose`. `exchange` makes the test and the setting of
-- `closed_` one step, so that the calls of several threads are calls in some order.
use simple_socket.Prelude.{
  ℕ, ◌+◌, ◌≡◌, inl, inr, refl, sym, ap, ◌∙◌, Bool, true, false, List, [], ◌∷◌, ◌++◌, if◌then◌else◌,
  Bool-cases, arith,
}
use simple_socket.Ws.Frames.{Role, build_frame, ws_text, ws_bin, ws_close}

pub record Link : Type 0 where
  pub is_closed : Bool
  pub written : List (List ℕ)
  pub conn_closes : ℕ
  pub on_closes : ℕ

unfoldable pub fresh_link : Link
fresh_link = record { is_closed = false; written = []; conn_closes = 0; on_closes = 0 }

pub data Call : Type 0 where
  send_text send_bytes : List ℕ → Call
  close : Bool → Call

module _ (role : Role) (random : List (List ℕ) → List ℕ) where
  abbrev pub put_frame : Link → ℕ → List ℕ → Link
  put_frame l opcode payload = record l {
    written = l.written ++ build_frame opcode payload role (random l.written) ∷ [];
  }

  -- `close(self)`: only the first call does anything.
  unfoldable pub close_link : Link → Bool → Link
  close_link l by_self =
      let l' = if by_self then put_frame l ws_close (0x03 ∷ 0xe8 ∷ []) else l in
      if l.is_closed then l else record l' {
        is_closed = true;
        conn_closes = l.conn_closes + 1;
        on_closes = l.on_closes + 1;
      }

  unfoldable pub call : Link → Call → Link
  unfolding close_link
  call l (send_text message) = put_frame l ws_text message
  call l (send_bytes message) = put_frame l ws_bin message
  call l (close by_self) = close_link l by_self

  unfoldable pub calls : Link → List Call → Link
  unfolding call
  calls l [] = l
  calls l (x ∷ xs) = calls (call l x) xs

  -- The calls, then the destructor.
  unfoldable pub lifetime : List Call → Link
  unfolding calls
  lifetime xs = close_link (calls fresh_link xs) true

  abbrev pub once : Bool → ℕ
  once b = if b then 1 else 0

  -- Closed once, or open and not closed yet.
  abbrev pub IsCounted : Link → Type 0
  IsCounted l = (l.conn_closes ≡ once l.is_closed) × (l.on_closes ≡ once l.is_closed)

  abbrev pub IsDone : Link → Type 0
  IsDone l = (l.conn_closes ≡ 1) × (l.on_closes ≡ 1) × (l.is_closed ≡ true)

  already_closed : (l : Link) (b : Bool) → l.is_closed ≡ true → close_link l b ≡ l
  unfolding close_link
  already_closed l b e =
      ap
        (λ t.
          let l' = if b then put_frame l ws_close (0x03 ∷ 0xe8 ∷ []) else l in
          if t then l else record l' {
            is_closed = true;
            conn_closes = l.conn_closes + 1;
            on_closes = l.on_closes + 1;
          })
        e

  closes_now :
      (l : Link) (b : Bool)
      → l.is_closed ≡ false
      → ((close_link l b).conn_closes ≡ l.conn_closes + 1)
        × ((close_link l b).on_closes ≡ l.on_closes + 1)
        × ((close_link l b).is_closed ≡ true)
  unfolding close_link
  closes_now l b e = simp e (refl, refl, refl)

  pub closing : (l : Link) (b : Bool) → IsCounted l → IsDone (close_link l b)
  closing l b (conn, on) = elim (Bool-cases l.is_closed) [
    | inl e ↦ let one = ap once e in rw (already_closed l b e) (conn ∙ one, on ∙ one, e)
    | inr e ↦
        let none_yet = ap once e in
        let (more, called, shut) = closes_now l b e in
        (omega (arith, more, conn ∙ none_yet), omega (arith, called, on ∙ none_yet), shut)
  ]

  close_link-IsCounted : (l : Link) (b : Bool) → IsCounted l → IsCounted (close_link l b)
  close_link-IsCounted l b h =
      let (conn, on, shut) = closing l b h in let one = sym (ap once shut) in (conn ∙ one, on ∙ one)

  pub call-IsCounted : (l : Link) (x : Call) → IsCounted l → IsCounted (call l x)
  unfolding call
  call-IsCounted l (send_text message) h = h
  call-IsCounted l (send_bytes message) h = h
  call-IsCounted l (close by_self) h = close_link-IsCounted l by_self h

  calls-IsCounted : (l : Link) (xs : List Call) → IsCounted l → IsCounted (calls l xs)
  unfolding calls
  calls-IsCounted l [] h = h
  calls-IsCounted l (x ∷ xs) h = calls-IsCounted (call l x) xs (call-IsCounted l x h)

  -- Whatever `send` and `close` are called before, in any order and number: when the destructor has run
  -- the connection below was closed once and `onClose` was called once.
  pub lifetime_closes_once :
      (xs : List Call) → ((lifetime xs).conn_closes ≡ 1) × ((lifetime xs).on_closes ≡ 1)
  unfolding lifetime fresh_link
  lifetime_closes_once xs =
      let done = closing (calls fresh_link xs) true (calls-IsCounted fresh_link xs (refl, refl)) in
      (done.0, done.1)
