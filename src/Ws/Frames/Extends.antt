-- ===== src/Ws/Frames/Extends.antt =====
-- More bytes behind do not change what was taken from the front.
use simple_socket.Prelude.{
  ℕ, zero, suc, ◌+◌, ◌%◌, ◌^◌, ◌≤◌, ◌≡◌, refl, ap, bit_and, bit_or, Bool, true, false, not, ◌&&◌,
  List, [], ◌∷◌, ◌++◌, ◌==◌, if◌then◌else◌, ltb, leb, length, length-append, length-drop, shl,
  get_or, take, drop, take-append_short, drop-append_short, get_or-append_short, arith, Bool-cases,
  inl, inr,
}
use simple_socket.Ws.Frames.{
  Role, Parsed, is_client, read_length, masked, parse_payload, parse_frame,
}

abbrev pub is_more : Parsed → Bool
is_more Parsed.more = true
is_more other = false

-- The same result, with more bytes after the frame.
abbrev pub followed : Parsed → List ℕ → Parsed
followed (Parsed.frame fin op chunk rest) ys = Parsed.frame fin op chunk (rest ++ ys)
followed other ys = other

read_length_extends :
    (n acc : ℕ) (bs ys : List ℕ)
    → n ≤ length bs
    → read_length n acc (bs ++ ys) ≡ read_length n acc bs
unfolding read_length
read_length_extends zero acc bs ys h = refl
read_length_extends (suc n) acc [] ys h = absurd (omega arith)
read_length_extends (suc n) acc (b ∷ bs) ys h =
    read_length_extends n (bit_or (shl 64 acc 8) b) bs ys (omega arith)

unmask_extends :
    (mk : Bool) (hdr : ℕ) (rx ys chunk : List ℕ)
    → hdr + (if mk then 4 else 0) ≤ length rx
    → (if mk then masked (take 4 (drop hdr (rx ++ ys))) 0 chunk else chunk)
      ≡ (if mk then masked (take 4 (drop hdr rx)) 0 chunk else chunk)
unmask_extends true hdr rx ys chunk h =
    let at = drop-append_short hdr rx ys (omega arith) in
    let m = take-append_short 4 (drop hdr rx) ys (omega (arith, length-drop hdr rx)) in
    rw (at, m) refl
unmask_extends false hdr rx ys chunk h = refl

Extends : List ℕ → Parsed → Parsed → Type 0
Extends ys p q = is_more p ≡ false → q ≡ followed p ys

payload-Extends :
    (fin : Bool) (op : ℕ) (mk : Bool) (hdr len : ℕ) (rx ys : List ℕ)
    → hdr ≤ 10
    → Extends ys (parse_payload fin op mk hdr len rx) (parse_payload fin op mk hdr len (rx ++ ys))
unfolding parse_payload Extends
payload-Extends fin op mk hdr len rx ys h enough =
    let m = if mk then 4 else 0 in
    let need = (hdr + m + len) % 2 ^ 64 in
    elim (Bool-cases (ltb (length rx) need)) [
      | inl short ↦ absurd (ground (arith, short, enough))
      | inr whole ↦
          let whole' : ltb (length (rx ++ ys)) need ≡ false =
            ground (arith, length-append rx ys, whole) in
          elim (Bool-cases (leb (2 ^ 63) len)) [
            | inl large ↦ rw (whole, whole', large) refl
            | inr held ↦
                let off = hdr + m in
                let m_small : m ≤ 4 = ground arith in
                let fits : off + len ≤ length rx = ground (arith, whole, held, m_small) in
                let at = drop-append_short off rx ys (omega arith) in
                let chunk =
                  take-append_short len (drop off rx) ys (omega (arith, length-drop off rx)) in
                let left =
                  drop-append_short len (drop off rx) ys (omega (arith, length-drop off rx)) in
                rw (whole, whole', held, at, chunk, left)
                  (ap (λ c. Parsed.frame fin op c (drop len (drop off rx) ++ ys))
                    (unmask_extends mk hdr rx ys (take len (drop off rx)) (omega arith)))
          ]
    ]

Extends-more : (ys : List ℕ) (q : Parsed) → Extends ys Parsed.more q
unfolding Extends
Extends-more ys q enough = absurd (ground (arith, enough))

Extends-violation : (ys : List ℕ) → Extends ys Parsed.violation Parsed.violation
unfolding Extends
Extends-violation ys enough = refl

Extends-if :
    (ys : List ℕ) (b : Bool) (p p' q q' : Parsed)
    → Extends ys p p'
    → Extends ys q q'
    → Extends ys (if b then p else q) (if b then p' else q')
Extends-if ys true p p' q q' hp hq = hp
Extends-if ys false p p' q q' hp hq = hq

Extends-guard :
    (ys : List ℕ) (k n n' : ℕ) (p p' : Parsed)
    → n ≤ n'
    → (k ≤ n → Extends ys p p')
    → Extends ys (if ltb n k then Parsed.more else p) (if ltb n' k then Parsed.more else p')
unfolding Extends
Extends-guard ys k n n' p p' h ext enough = elim (Bool-cases (ltb n k)) [
  | inl short ↦ absurd (ground (arith, short, enough))
  | inr whole ↦
      let whole' : ltb n' k ≡ false = ground (arith, whole) in
      rw (whole, whole') (ext (ground (arith, whole)) (ground (arith, whole, enough)))
]

frame-Extends :
    (role : Role) (rx ys : List ℕ) → Extends ys (parse_frame role rx) (parse_frame role (rx ++ ys))
unfolding parse_frame
frame-Extends role [] ys = Extends-more ys _
frame-Extends role (b ∷ []) ys = Extends-more ys _
frame-Extends role (b₀ ∷ b₁ ∷ t) ys =
    let fin = not (bit_and b₀ 0x80 == 0) in
    let op = bit_and b₀ 0x0f in
    let mk = not (bit_and b₁ 0x80 == 0) in
    let n = bit_and b₁ 0x7f in
    let rx = b₀ ∷ b₁ ∷ t in
    let longer : length rx ≤ length (rx ++ ys) = omega (arith, length-append t ys) in
    let medium : 4 ≤ length rx
        → Extends ys
            (parse_payload fin op mk 4 (bit_or (shl 64 (get_or t 0 0) 8) (get_or t 1 0)) rx)
            (parse_payload fin op mk 4
              (bit_or (shl 64 (get_or (t ++ ys) 0 0) 8) (get_or (t ++ ys) 1 0)) (rx ++ ys)) =
      λ h.
        rw (get_or-append_short t ys 0 0 (omega arith), get_or-append_short t ys 1 0 (omega arith))
          (payload-Extends fin op mk 4 _ rx ys (omega arith)) in
    let large : 10 ≤ length rx
        → Extends ys (parse_payload fin op mk 10 (read_length 8 0 t) rx)
            (parse_payload fin op mk 10 (read_length 8 0 (t ++ ys)) (rx ++ ys)) =
      λ h.
        rw (read_length_extends 8 0 t ys (omega arith))
          (payload-Extends fin op mk 10 _ rx ys (omega arith)) in
    Extends-guard ys 2 (length rx) (length (rx ++ ys)) _ _ longer (λ h.
      Extends-if ys (not (is_client role) && not mk) _ _ _ _ (Extends-violation ys) (
        Extends-if ys (is_client role && mk) _ _ _ _ (Extends-violation ys) (
          Extends-if ys (n == 126) _ _ _ _
            (Extends-guard ys 4 (length rx) (length (rx ++ ys)) _ _ longer medium)
            (Extends-if ys (n == 127) _ _ _ _
              (Extends-guard ys 10 (length rx) (length (rx ++ ys)) _ _ longer large)
              (payload-Extends fin op mk 2 n rx ys (omega arith))))))

-- A result of `parse_frame` other than `more` stays when more bytes arrive behind.
pub parse_frame-followed :
    (role : Role) (rx ys : List ℕ)
    → is_more (parse_frame role rx) ≡ false
    → parse_frame role (rx ++ ys) ≡ followed (parse_frame role rx) ys
unfolding Extends
parse_frame-followed role rx ys enough = frame-Extends role rx ys enough
