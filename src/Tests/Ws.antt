-- ===== src/Tests/Ws.antt =====
-- WebSocket frames and the listener on small inputs.
use simple_socket.Prelude.{
  ℕ, ◌-◌, ◌^◌, ◌≡◌, refl, true, List, [], ◌∷◌, ◌++◌, ok, throw, length_error, arith, take, drop,
}
use simple_socket.Ws.Frames.{
  Role, Parsed, build_frame, parse_frame, parse_payload, masked, length_bytes,
}
use simple_socket.Ws.Frames.RoundTrip.{parse_frame-build_frame}
use simple_socket.Ws.Listener.{listen, opened, receive, drain, handle_frame}
use simple_socket.Connection.Segments.{joined}
use simple_socket.Ws.Listener.Reads.{listen-joined}
use simple_socket.Ws.Listener.Segments.{outcome_seen}
use simple_socket.Ws.Listener.Messages.{Message, frames_of, receive-frames_of, receive_wraps}

abbrev no_mask : List (List ℕ) → List ℕ
no_mask sent = 0 ∷ 0 ∷ 0 ∷ 0 ∷ []

abbrev hello : Message
hello = record {
  is_text = true;
  payload = 0x68 ∷ 0x69 ∷ [];
  m₀ = 0x11;
  m₁ = 0x22;
  m₂ = 0x33;
  m₃ = 0x44;
}

parse_frame-build_frame_example :
    parse_frame Role.server
      (build_frame 1 (0x68 ∷ 0x69 ∷ []) Role.client (0x11 ∷ 0x22 ∷ 0x33 ∷ 0x44 ∷ []) ++ 7 ∷ [])
    ≡ Parsed.frame true 1 (0x68 ∷ 0x69 ∷ []) (7 ∷ [])
parse_frame-build_frame_example =
    parse_frame-build_frame Role.client 1 (0x68 ∷ 0x69 ∷ []) (7 ∷ []) 0x11 0x22 0x33 0x44
      (omega arith) (omega arith)

abbrev hello_frame : List ℕ
hello_frame = frames_of Role.client (hello ∷ [])

-- The frame of a greeting, in three reads.
listen-joined_example :
    outcome_seen (
      listen Role.server no_mask opened
        (take 1 hello_frame ∷ take 2 (drop 1 hello_frame) ∷ drop 3 hello_frame ∷ []))
    ≡ outcome_seen (
        receive Role.server no_mask opened
          (joined (take 1 hello_frame ∷ take 2 (drop 1 hello_frame) ∷ drop 3 hello_frame ∷ [])))
unfolding opened
listen-joined_example =
    listen-joined Role.server no_mask (take 2 (drop 1 hello_frame) ∷ drop 3 hello_frame ∷ []) opened
      (take 1 hello_frame) refl

receive-frames_of_example :
    receive Role.server no_mask opened (frames_of Role.client (hello ∷ hello ∷ []))
    ≡ ok (record opened { delivered = (0x68 ∷ 0x69 ∷ []) ∷ (0x68 ∷ 0x69 ∷ []) ∷ [] })
unfolding opened
receive-frames_of_example =
    receive-frames_of Role.client no_mask (hello ∷ hello ∷ []) opened refl refl refl
      (omega arith, (omega arith, tt))

receive_wraps_example :
    receive Role.server no_mask opened
      (0x82 ∷ 0xff ∷ (length_bytes 8 (2 ^ 64 - 1) ++ 1 ∷ 2 ∷ 3 ∷ 4 ∷ []))
    ≡ throw length_error
unfolding opened
receive_wraps_example =
    receive_wraps no_mask opened 0x82 (2 ^ 64 - 1) (1 ∷ 2 ∷ 3 ∷ 4 ∷ []) refl refl (omega arith)
      (omega arith) (omega arith)

-- A text in two fragments with a ping between them, over an open connection: the pong goes out, and
-- the text arrives whole.
abbrev fragments : List ℕ
fragments = 0x01 ∷ 0x01 ∷ 0x68 ∷ 0x89 ∷ 0x00 ∷ 0x80 ∷ 0x01 ∷ 0x69 ∷ []

fragmented_text :
    receive Role.client no_mask opened fragments
    ≡ ok (record opened {
      delivered = (0x68 ∷ 0x69 ∷ []) ∷ [];
      sent = (0x8a ∷ 0x80 ∷ 0 ∷ 0 ∷ 0 ∷ 0 ∷ []) ∷ [];
    })
unfolding opened receive drain parse_frame parse_payload handle_frame build_frame masked
fragmented_text = refl
