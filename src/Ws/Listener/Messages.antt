-- ===== src/Ws/Listener/Messages.antt =====
-- What one end sends with `send`, the other end's `listen` delivers; and a length that wraps.
use simple_socket.Prelude.{
  ℕ, zero, suc, ◌+◌, ◌%◌, ◌-◌, ◌^◌, ◌<◌, ◌≤◌, ◌≡◌, refl, sym, ap, ◌∙◌, Bool, true, false, List, [],
  ◌∷◌, ◌++◌, append-nil, append_assoc, if◌then◌else◌, length, length-append, ok, throw,
  length_error, arith, All, map, leb, ltb,
}
use simple_socket.Ws.Frames.{
  Role, Parsed, build_frame, parse_frame, parse_payload, length_bytes, ws_text, ws_bin,
}
use simple_socket.Ws.Frames.Lengths.{read_length-length_bytes, length-length_bytes}
use simple_socket.Ws.Frames.RoundTrip.{peer, parse_frame-build_frame}
use simple_socket.Ws.Listener.Segments.{receive_live}
use simple_socket.Ws.Listener.{Listener, shut, deliver, handle_frame, drain, receive}

-- A message with the four random bytes of its mask.
pub record Message : Type 0 where
  pub is_text : Bool
  pub payload : List ℕ
  pub m₀ : ℕ
  pub m₁ : ℕ
  pub m₂ : ℕ
  pub m₃ : ℕ

-- `buildText` and `buildBin`.
abbrev pub frame_of : Role → Message → List ℕ
frame_of role m =
    build_frame (if m.is_text then ws_text else ws_bin) m.payload role
      (m.m₀ ∷ m.m₁ ∷ m.m₂ ∷ m.m₃ ∷ [])

abbrev pub frames_of : Role → List Message → List ℕ
frames_of role [] = []
frames_of role (m ∷ ms) = frame_of role m ++ frames_of role ms

abbrev pub payloads : List Message → List (List ℕ)
payloads ms = map (λ m. m.payload) ms

parse_frame_of :
    (role : Role) (m : Message) (ys : List ℕ)
    → length m.payload < 2 ^ 63
    → parse_frame (peer role) (frame_of role m ++ ys)
      ≡ Parsed.frame true (if m.is_text then ws_text else ws_bin) m.payload ys
parse_frame_of role m ys h =
    parse_frame-build_frame role (if m.is_text then ws_text else ws_bin) m.payload ys m.m₀ m.m₁ m.m₂
      m.m₃ (ground arith) h

some_bytes : (role : Role) (m : Message) → 0 < length (frame_of role m)
unfolding build_frame
some_bytes role m = omega arith

module _ (role : Role) (random : List (List ℕ) → List ℕ) where
  handle_message :
      (l : Listener) (is_text : Bool) (xs : List ℕ)
      → l.is_continued ≡ false
      → handle_frame (peer role) random l true (if is_text then ws_text else ws_bin) xs
        ≡ record l { delivered = l.delivered ++ xs ∷ [] }
  unfolding handle_frame
  handle_message l true xs e =
      ap
        (λ s.
          if s
          then shut (peer role) random l (0x03 ∷ 0xea ∷ [])
          else deliver (peer role) random l xs)
        e
  handle_message l false xs e =
      ap
        (λ s.
          if s
          then shut (peer role) random l (0x03 ∷ 0xea ∷ [])
          else deliver (peer role) random l xs)
        e

  drain_step :
      (f : ℕ) (l l' : Listener) (fin : Bool) (op : ℕ) (chunk rest : List ℕ)
      → parse_frame (peer role) l.rx ≡ Parsed.frame fin op chunk rest
      → handle_frame (peer role) random (record l { rx = rest }) fin op chunk ≡ l'
      → l'.is_shut ≡ false
      → drain (peer role) random (suc f) l ≡ drain (peer role) random f l'
  unfolding drain
  drain_step f l l' fin op chunk rest p h live =
      rw (p, drain, h) (ap (λ s. if s then ok l' else drain (peer role) random f l') live)

  nothing_yet : parse_frame (peer role) [] ≡ Parsed.more
  unfolding parse_frame
  nothing_yet = refl

  drain_messages :
      (ms : List Message) (f : ℕ) (l : Listener)
      → l.rx ≡ frames_of role ms
      → l.is_shut ≡ false
      → l.is_continued ≡ false
      → All (λ m. length m.payload < 2 ^ 63) ms
      → length (frames_of role ms) < f
      → drain (peer role) random f l
        ≡ ok (record l { rx = []; delivered = l.delivered ++ payloads ms })
  unfolding drain
  drain_messages ms zero l at live fresh short enough = absurd (omega arith)
  drain_messages [] (suc f) l at live fresh short enough =
      let ended = ap (parse_frame (peer role)) at ∙ nothing_yet in
      rw (ended, drain)
        (ap (λ x. ok (record l { rx = x })) at
          ∙ ap (λ d. ok (record l { rx = []; delivered = d })) (sym (append-nil l.delivered)))
  drain_messages (m ∷ ms) (suc f) l at live fresh (h, short) enough =
      let rest = frames_of role ms in
      let l' : Listener = record l { rx = rest; delivered = l.delivered ++ m.payload ∷ [] } in
      let step =
        drain_step f l l' true (if m.is_text then ws_text else ws_bin) m.payload rest
          (ap (parse_frame (peer role)) at ∙ parse_frame_of role m rest h)
          (handle_message (record l { rx = rest }) m.is_text m.payload fresh) live in
      step
      ∙ drain_messages ms f l' refl live fresh short
          (omega (arith, some_bytes role m, length-append (frame_of role m) rest))
      ∙ ap (λ d. ok (record l { rx = []; delivered = d }))
          (append_assoc l.delivered (m.payload ∷ []) (payloads ms))

  -- The messages that one end hands to `send`, text and binary, arriving whole in one read: each is
  -- delivered at the other end as it was sent, once and in order, nothing is left over and nothing
  -- else changes. The payloads are such as a vector can hold; the other end has no bytes left over,
  -- is in no fragmented message and is not shut.
  pub receive-frames_of :
      (ms : List Message) (l : Listener)
      → l.rx ≡ []
      → l.is_shut ≡ false
      → l.is_continued ≡ false
      → All (λ m. length m.payload < 2 ^ 63) ms
      → receive (peer role) random l (frames_of role ms)
        ≡ ok (record l { delivered = l.delivered ++ payloads ms })
  receive-frames_of ms l none_left live fresh short =
      let arrived = frames_of role ms in
      let size = length-append l.rx arrived in
      receive_live (peer role) random l arrived live
      ∙ drain_messages ms (suc (length (l.rx ++ arrived))) (record l { rx = l.rx ++ arrived })
          (ap (λ r. r ++ arrived) none_left) live fresh short (omega arith)
      ∙ ap (λ x. ok (record l { rx = x; delivered = l.delivered ++ payloads ms })) (sym none_left)

parse_frame_wraps :
    (b₀ n : ℕ) (ys : List ℕ)
    → 2 ^ 64 - 14 ≤ n
    → n < 2 ^ 64
    → 4 ≤ length ys
    → parse_frame Role.server (b₀ ∷ 0xff ∷ (length_bytes 8 n ++ ys)) ≡ Parsed.too_long
unfolding parse_frame parse_payload
parse_frame_wraps b₀ n ys large h mask =
    let t = length_bytes 8 n ++ ys in
    let size : length t ≡ 8 + length ys =
      length-append (length_bytes 8 n) ys ∙ ap (λ k. k + length ys) (length-length_bytes 8 n) in
    let two : ltb (suc (suc (length t))) 2 ≡ false = ground arith in
    let ten : ltb (suc (suc (length t))) 10 ≡ false = ground (arith, size) in
    let wrapped : (10 + 4 + n) % 2 ^ 64 ≤ 13 = omega arith in
    let fits : ltb (suc (suc (length t))) ((10 + 4 + n) % 2 ^ 64) ≡ false =
      ground (arith, size, wrapped) in
    let held : leb (2 ^ 63) n ≡ true = ground arith in
    rw (two, ten, read_length-length_bytes n ys h, fits, held) refl

-- A client that announces a payload of 2^64 - 14 bytes or more makes the needed size wrap: the frame
-- counts as complete, and resizing the buffer throws on the thread of `listen`, which nothing
-- catches.
pub receive_wraps :
    (random : List (List ℕ) → List ℕ) (l : Listener) (b₀ n : ℕ) (ys : List ℕ)
    → l.rx ≡ []
    → l.is_shut ≡ false
    → 2 ^ 64 - 14 ≤ n
    → n < 2 ^ 64
    → 4 ≤ length ys
    → receive Role.server random l (b₀ ∷ 0xff ∷ (length_bytes 8 n ++ ys)) ≡ throw length_error
unfolding drain
receive_wraps random l b₀ n ys none_left live large h mask =
    let arrived = b₀ ∷ 0xff ∷ (length_bytes 8 n ++ ys) in
    let wrapped =
      ap (λ r. parse_frame Role.server (r ++ arrived)) none_left
      ∙ parse_frame_wraps b₀ n ys large h mask in
    receive_live Role.server random l arrived live ∙ rw (wrapped, drain) refl
