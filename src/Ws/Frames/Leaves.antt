-- ===== src/Ws/Frames/Leaves.antt =====
-- A frame takes bytes: what is left over is shorter.
use simple_socket.Prelude.{
  ℕ, bit_and, bit_or, shl, get_or, ◌+◌, ◌<◌, Bool, true, false, not, List, [], ◌∷◌, if◌then◌else◌,
  length, arith, ◌==◌, length-drop, drop, ltb, ◌&&◌,
}
use simple_socket.Ws.Frames.{read_length, Role, Parsed, is_client, parse_frame, parse_payload}

-- A bound on what follows a frame.
unfoldable pub Leaves : ℕ → Parsed → Type 0
Leaves n p = elim p [ Parsed.frame fin op chunk rest ↦ length rest < n | _ ↦ Unit {0} ]

Leaves-if :
    (n : ℕ) (b : Bool) (p q : Parsed) → Leaves n p → Leaves n q → Leaves n (if b then p else q)
Leaves-if n true p q hp hq = hp
Leaves-if n false p q hp hq = hq

Leaves-more : (n : ℕ) → Leaves n Parsed.more
unfolding Leaves
Leaves-more n = tt

Leaves-violation : (n : ℕ) → Leaves n Parsed.violation
unfolding Leaves
Leaves-violation n = tt

Leaves-too_long : (n : ℕ) → Leaves n Parsed.too_long
unfolding Leaves
Leaves-too_long n = tt

Leaves-frame :
    (n : ℕ) (fin : Bool) (op : ℕ) (chunk rest : List ℕ)
    → length rest < n
    → Leaves n (Parsed.frame fin op chunk rest)
unfolding Leaves
Leaves-frame n fin op chunk rest h = h

payload-Leaves :
    (fin : Bool) (op : ℕ) (mk : Bool) (hdr len : ℕ) (rx : List ℕ)
    → 0 < hdr
    → 0 < length rx
    → Leaves (length rx) (parse_payload fin op mk hdr len rx)
unfolding parse_payload
payload-Leaves fin op mk hdr len rx h h' = Leaves-if (length rx) _ _ _ (Leaves-more _) (
    Leaves-if (length rx) _ _ _ (Leaves-too_long _)
      (Leaves-frame _ fin op _ _ (shorter (hdr + (if mk then 4 else 0)) (omega arith))))
  where
    shorter : (off : ℕ) → 0 < off → length (drop len (drop off rx)) < length rx
    shorter off h'' = omega (arith, length-drop len (drop off rx), length-drop off rx)

-- A frame takes at least one byte, so the inner loop ends.
pub parse_frame-Leaves : (role : Role) (rx : List ℕ) → Leaves (length rx) (parse_frame role rx)
unfolding parse_frame
parse_frame-Leaves role [] = Leaves-more 0
parse_frame-Leaves role (b ∷ t) =
    let rx = b ∷ t in
    let n = length rx in
    let fin = not (bit_and b 0x80 == 0) in
    let op = bit_and b 0x0f in
    let b₁ = get_or rx 1 0 in
    let mk = not (bit_and b₁ 0x80 == 0) in
    let len = bit_and b₁ 0x7f in
    let rest =
      λ (hdr : ℕ) (l : ℕ) (h : 0 < hdr). payload-Leaves fin op mk hdr l rx h (omega arith) in
    Leaves-if n (ltb n 2) _ _ (Leaves-more n) (
      Leaves-if n (not (is_client role) && not mk) _ _ (Leaves-violation n) (
        Leaves-if n (is_client role && mk) _ _ (Leaves-violation n) (
          Leaves-if n (len == 126) _ _
            (Leaves-if n (ltb n 4) _ _ (Leaves-more n)
              (rest 4 (bit_or (shl 64 (get_or rx 2 0) 8) (get_or rx 3 0)) (omega arith)))
            (Leaves-if n (len == 127) _ _
              (Leaves-if n (ltb n 10) _ _ (Leaves-more n)
                (rest 10 (read_length 8 0 (drop 2 rx)) (omega arith)))
              (rest 2 len (omega arith))))))
