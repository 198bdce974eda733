-- ===== src/Ws/Listener.antt =====
-- `listen` and `close` of src/simple_socket/ws/WebSocketConnection.hpp: from bytes to messages.
--
-- `delivered` logs the calls of `onMessage`, `sent` the frames written, and `random` gives the mask
-- of the next one. `conn_->close()` and `onClose` follow `shut`, the flag `closed_`.
pub mod Segments
pub mod Messages
pub mod Reads
use simple_socket.Prelude.{
  ℕ, zero, suc, ◌+◌, Bool, true, false, not, ◌||◌, List, [], ◌∷◌, ◌++◌, ◌==◌, if◌then◌else◌, length,
  Outcome, ok, throw, fault, ◌>>=◌, Exception, length_error,
}
use simple_socket.Ws.Frames.{
  Role, Parsed, build_frame, parse_frame, ws_cont, ws_text, ws_bin, ws_close, ws_ping, ws_pong,
}

pub record Listener : Type 0 where
  pub rx : List ℕ
  pub message : List ℕ
  pub is_continued : Bool
  pub start_opcode : ℕ
  pub delivered : List (List ℕ)
  pub sent : List (List ℕ)
  pub is_shut : Bool

unfoldable pub opened : Listener
opened = record {
  rx = [];
  message = [];
  is_continued = false;
  start_opcode = 0;
  delivered = [];
  sent = [];
  is_shut = false;
}

module _ (role : Role) (random : List (List ℕ) → List ℕ) where
  abbrev pub write : Listener → ℕ → List ℕ → Listener
  write l opcode payload = record l {
    sent = l.sent ++ build_frame opcode payload role (random l.sent) ∷ [];
  }

  -- `conn_->write(buildClose(code, role_)); close(false); return`, with the two bytes of the code.
  abbrev pub shut : Listener → List ℕ → Listener
  shut l code = record (write l ws_close code) { is_shut = true }

  abbrev pub deliver : Listener → List ℕ → Listener
  deliver l msg = record l { delivered = l.delivered ++ msg ∷ [] }

  -- What is done with a frame: 1000 is 0x03e8, 1002 is 0x03ea.
  unfoldable pub handle_frame : Listener → Bool → ℕ → List ℕ → Listener
  handle_frame l fin opcode chunk =
      let message = l.message ++ chunk in
      let done =
        if l.start_opcode == ws_text || l.start_opcode == ws_bin then deliver l message else l in
      if opcode == ws_close
      then shut l (0x03 ∷ 0xe8 ∷ [])
      else if opcode == ws_ping
      then write l ws_pong chunk
      else if opcode == ws_pong
      then l
      else if opcode == ws_cont
      then (if not l.is_continued
          then shut l (0x03 ∷ 0xea ∷ [])
          else if fin
          then record done { message = []; is_continued = false; start_opcode = 0 }
          else record l { message = message })
      else if opcode == ws_text || opcode == ws_bin
      then (if l.is_continued
          then shut l (0x03 ∷ 0xea ∷ [])
          else if fin
          then deliver l chunk
          else record l { message = chunk; is_continued = true; start_opcode = opcode })
      else l

  -- The inner loop, until no whole frame is left. A frame takes two bytes at least.
  unfoldable pub drain : ℕ → Listener → Outcome Listener
  drain zero l = ok l
  drain (suc fuel) l = elim (parse_frame role l.rx) [
    | Parsed.more ↦ ok l
    | Parsed.violation ↦ ok (shut l (0x03 ∷ 0xea ∷ []))
    | Parsed.too_long ↦ throw length_error
    | Parsed.frame fin opcode chunk rest ↦
        let l' = handle_frame (record l { rx = rest }) fin opcode chunk in
        let next = drain fuel l' in if l'.is_shut then ok l' else next
  ]

  -- A round of the outer loop: what `read` brought.
  unfoldable pub receive : Listener → List ℕ → Outcome Listener
  receive l got =
      let rx = l.rx ++ got in
      if l.is_shut then ok l else drain (suc (length rx)) (record l { rx = rx })

  unfoldable pub listen : Listener → List (List ℕ) → Outcome Listener
  listen l [] = ok l
  listen l (got ∷ later) = receive l got >>= λ l'. listen l' later
