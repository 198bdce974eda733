-- ===== src/Mqtt/Codec/Lengths.antt =====
-- The remaining length: what is written, and that it reads back.
use mathlib.Core.WellFounded.{Acc}
use simple_socket.Prelude.{
  ℕ, zero, suc, ◌+◌, ◌*◌, ◌/◌, ◌%◌, ◌^◌, ◌<◌, ◌≡◌, ap, ◌∙◌, bit_and, List, [], ◌∷◌, ◌++◌, ◌==◌,
  if◌then◌else◌, arith, ltb, Bool-cases, inl, inr, false, ltb→lt,
}
use simple_socket.Prelude.Bits.{bit_or_top_bit, bit_and_seven_bits, bit_and_top_bit}
use simple_socket.Prelude.Order.{lt_wf}
use simple_socket.Connection.{Reader, IsStream}
use simple_socket.Connection.Exact.{read_exact_front}
use simple_socket.Mqtt.Codec.{
  encode_loop, encode_remaining_length, decode_loop, decode_remaining_length,
}

-- The format: groups of seven bits, lowest first, with the top bit set on all but the last. `k` is
-- the number of further groups allowed.
abbrev pub groups : ℕ → ℕ → List ℕ
groups zero len = len % 128 ∷ []
groups (suc k) len =
    let rest = groups k (len / 128) in if ltb len 128 then len ∷ [] else (len % 128 + 128) ∷ rest

encode_loop-groups :
    (k len : ℕ) (w : Acc ◌<◌ len) → len < 128 ^ suc k → encode_loop len w ≡ groups k len
unfolding encode_loop
encode_loop-groups zero len (Acc.intro _ smaller) h = grind arith
encode_loop-groups (suc k) len (Acc.intro _ smaller) h = grind (
  arith,
  bit_or_top_bit (len % 128),
  λ (w : Acc ◌<◌ (len / 128)). encode_loop-groups k (len / 128) w (omega arith),
)

pub encode_remaining_length-groups :
    (k len : ℕ) → len < 128 ^ suc k → encode_remaining_length len ≡ groups k len
unfolding encode_remaining_length
encode_remaining_length-groups k len h = encode_loop-groups k len (lt_wf.apply len) h

value : (len m : ℕ) → len % 128 * m + len / 128 * (m * 128) ≡ len * m
value len m =
    let split : len % 128 + len / 128 * 128 ≡ len = omega arith in
    omega (arith, ap (λ t. t * m) split)

module _ {S : Type 0} {c : Reader S} {pending : S → List ℕ} {IsValid : S → Type 0}
    (stream : IsStream c pending IsValid) where
  -- One round on a byte that is there.
  decode_round :
      (rounds : ℕ) (s : S) (rem_len multiplier b : ℕ) (ys : List ℕ)
      → IsValid s
      → pending s ≡ b ∷ ys
      → let rem_len' = rem_len + bit_and b 0x7f * multiplier in
        (s' : S) × (decode_loop c (suc rounds) s rem_len multiplier ≡ (
          if bit_and b 0x80 == 0
          then (rem_len', s')
          else decode_loop c rounds s' rem_len' (multiplier * 128)))
        × (pending s' ≡ ys)
        × IsValid s'
  unfolding decode_loop
  decode_round rounds s rem_len multiplier b ys v e =
      let (s', exact, next, v') = read_exact_front stream s (b ∷ []) ys v e in
      (s', rw (exact, decode_loop), next, v')

  -- `rounds` rounds read a number of at most `rounds` groups, and of a longer one that many.
  decode_groups :
      (k : ℕ) (s : S) (rem_len multiplier len : ℕ) (ys : List ℕ)
      → IsValid s
      → len < 128 ^ suc k
      → pending s ≡ groups k len ++ ys
      → (s' : S) × (decode_loop c (suc k) s rem_len multiplier ≡ (rem_len + len * multiplier, s'))
        × (pending s' ≡ ys)
        × IsValid s'
  decode_groups zero s rem_len multiplier len ys v h e =
      let b = len % 128 in
      let (s', step, next, v') = decode_round zero s rem_len multiplier b ys v e in
      (s', ground (arith, step, bit_and_seven_bits b, bit_and_top_bit b), next, v')
  decode_groups (suc k) s rem_len multiplier len ys v h e = elim (Bool-cases (ltb len 128)) [
    | inl small ↦
        let front : pending s ≡ len ∷ ys =
          e
          ∙ ap (λ t. (if t then len ∷ [] else (len % 128 + 128) ∷ groups k (len / 128)) ++ ys)
              small in
        let (s', step, next, v') = decode_round (suc k) s rem_len multiplier len ys v front in
        (
          s',
          ground (arith, ltb→lt len 128 small, step, bit_and_seven_bits len, bit_and_top_bit len),
          next,
          v',
        )
    | inr large ↦
        let b = len % 128 + 128 in
        let front : pending s ≡ b ∷ (groups k (len / 128) ++ ys) =
          e
          ∙ ap (λ t. (if t then len ∷ [] else (len % 128 + 128) ∷ groups k (len / 128)) ++ ys)
              large in
        let (s', step, next, v') = decode_round (suc k) s rem_len multiplier b _ v front in
        let rem_len' = rem_len + bit_and b 0x7f * multiplier in
        let flag : (bit_and b 0x80 == 0) ≡ false = ground (arith, bit_and_top_bit b) in
        let digit : bit_and b 0x7f ≡ len % 128 = omega (arith, bit_and_seven_bits b) in
        let (s'', steps, end, v'') =
          decode_groups k s' rem_len' (multiplier * 128) (len / 128) ys v' (omega arith) next in
        (
          s'',
          rw (step, flag, steps)
              (ap (λ t. (t, s''))
                (omega (arith, value len multiplier, ap (λ t. t * multiplier) digit))),
          end,
          v'',
        )
  ]

  -- Over every stream that holds the written form of a length below 2^28, followed by anything,
  -- `decodeRemainingLength` returns that length and takes exactly the bytes that
  -- `encodeRemainingLength` wrote.
  pub decode_remaining_length-encode_remaining_length :
      (len : ℕ) (ys : List ℕ) (s : S)
      → IsValid s
      → len < 2 ^ 28
      → pending s ≡ encode_remaining_length len ++ ys
      → (s' : S) × (decode_remaining_length c s ≡ (len, s')) × (pending s' ≡ ys) × IsValid s'
  unfolding decode_remaining_length
  decode_remaining_length-encode_remaining_length len ys s v h e =
      let (s', steps, next, valid) =
        decode_groups 3 s 0 1 len ys v (omega arith)
          (e ∙ ap (λ t. t ++ ys) (encode_remaining_length-groups 3 len (omega arith))) in
      (s', steps ∙ ap (λ t. (t, s')) (omega arith), next, valid)
