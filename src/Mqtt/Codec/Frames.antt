-- ===== src/Mqtt/Codec/Frames.antt =====
-- Whole control packets on a stream: the first byte, the remaining length and the body.
use simple_socket.Prelude.{ℕ, ◌<◌, ◌^◌, ◌≡◌, ◌∙◌, true, List, [], ◌∷◌, ◌++◌, append_assoc, length}
use simple_socket.Connection.{Reader, IsStream, read_exact}
use simple_socket.Connection.Exact.{read_exact_front}
use simple_socket.Mqtt.Codec.{encode_remaining_length, decode_remaining_length}
use simple_socket.Mqtt.Codec.Lengths.{decode_remaining_length-encode_remaining_length}

-- The format.
abbrev pub frame : ℕ × List ℕ → List ℕ
frame (hdr, body) = hdr ∷ (encode_remaining_length (length body) ++ body)

abbrev pub frames : List (ℕ × List ℕ) → List ℕ
frames [] = []
frames (p ∷ ps) = frame p ++ frames ps

module _ {S : Type 0} {r : Reader S} {pending : S → List ℕ} {IsValid : S → Type 0}
    (stream : IsStream r pending IsValid) where
  -- The three reads of a packet, which leave what follows it.
  pub read_frame :
      (s : S) (hdr : ℕ) (body ys : List ℕ)
      → IsValid s
      → length body < 2 ^ 28
      → pending s ≡ frame (hdr, body) ++ ys
      → (s1 : S) × (s2 : S) × (s3 : S) × (read_exact r s 1 ≡ (true, hdr ∷ [], s1))
        × (decode_remaining_length r s1 ≡ (length body, s2))
        × (read_exact r s2 (length body) ≡ (true, body, s3))
        × (pending s3 ≡ ys)
        × IsValid s3
  read_frame s hdr body ys v h e =
      let len = encode_remaining_length (length body) in
      let (s1, first, p1, v1) = read_exact_front stream s (hdr ∷ []) ((len ++ body) ++ ys) v e in
      let (s2, second, p2, v2) =
        decode_remaining_length-encode_remaining_length stream (length body) (body ++ ys) s1 v1 h
          (p1 ∙ append_assoc len body ys) in
      let (s3, third, p3, v3) = read_exact_front stream s2 body ys v2 p2 in
      (s1, s2, s3, first, second, third, p3, v3)
