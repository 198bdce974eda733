-- ===== src/Modbus/Words/Texts.antt =====
-- Texts in registers: what `encode_text` followed by `decode_text` gives, on every text.
use simple_socket.Prelude.{
  ℕ, zero, suc, ◌+◌, ◌*◌, ◌/◌, ◌%◌, ◌^◌, ◌≤◌, ◌≡◌, refl, ap, ◌∙◌, bit_or, List, [], ◌∷◌, ltb,
  if◌then◌else◌, length, get_or, take, drop, drop_step, take_all, All, All-get_or, IsByte, IsWord,
  ok, elem-ok, arith,
}
use simple_socket.Prelude.Bits.{bit_and_byte, bit_or_disjoint, bit_or_fields, bit_or_ones}
use simple_socket.Modbus.Words.{decode_text, decode_text_loop, encode_text, char_word}

-- The bytes of a list of words, upper byte first.
abbrev pub bytes_of : List ℕ → List ℕ
bytes_of [] = []
bytes_of (w ∷ ws) = w / 256 ∷ w % 256 ∷ bytes_of ws

decode_text_loop-bytes :
    (words : List ℕ) (num index : ℕ)
    → All IsWord words
    → index + num ≤ length words
    → decode_text_loop words num index ≡ ok (bytes_of (take num (drop index words)))
unfolding decode_text_loop
decode_text_loop-bytes words zero index w h = refl
decode_text_loop-bytes words (suc num) index w h = ground (
  arith,
  elem-ok words index (omega arith),
  drop_step index words 0 (omega arith),
  All-get_or IsWord words index 0 w (omega arith),
  bit_and_byte (get_or words index 0 / 256),
  bit_and_byte (get_or words index 0),
  decode_text_loop-bytes words num (suc index) w (omega arith),
)

-- The two characters of a register. A second character above 127 is sign-extended, and its ones
-- cover the first.
char_pair : ℕ → ℕ → ℕ
char_pair c d = if ltb d 128 then c * 256 + d else 0xff00 + d

or_char :
    (c d : ℕ)
    → IsByte c
    → IsByte d
    → bit_or (char_word c * 2 ^ 8) (char_word d) % 2 ^ 16 ≡ char_pair c d
unfolding char_pair
or_char c d hc hd = ground (
  arith,
  bit_or_disjoint 8 (char_word c) d,
  bit_or_fields 8 (char_word c) 0xff 0 d,
  bit_or_fields 8 0xff 0 c 0xff,
  bit_or_disjoint 8 0 d,
  bit_or_ones 8 c,
)

-- What registers keep of a text: pairs of characters, the last one padded by a zero byte.
abbrev pub padded : List ℕ → List ℕ
padded [] = []
padded (c ∷ []) = c ∷ 0 ∷ []
padded (c ∷ d ∷ text) = (if ltb d 128 then c else 0xff) ∷ d ∷ padded text

or_char_bytes :
    (c d : ℕ)
    → IsByte c
    → IsByte d
    → (char_pair c d / 256 ≡ (if ltb d 128 then c else 0xff)) × (char_pair c d % 256 ≡ d)
unfolding char_pair
or_char_bytes c d hc hd = ground arith

encode_text-words :
    (text : List ℕ)
    → All IsByte text
    → All IsWord (encode_text text) × (bytes_of (encode_text text) ≡ padded text)
unfolding encode_text
encode_text-words [] h = (tt, refl)
encode_text-words (c ∷ []) (hc, _) = ground arith
encode_text-words (c ∷ d ∷ text) (hc, (hd, h)) =
    let (w, e) = encode_text-words text h in
    let (up, low) = or_char_bytes c d hc hd in
    ((ground (arith, or_char c d hc hd, up, low), w), rw (or_char c d hc hd, up, low, e))

-- A text of bytes, encoded into registers and decoded from all of them, comes back with a zero
-- byte behind an odd last character, and with each first character of a pair replaced by 0xff
-- where the second one is above 127.
pub decode_text-encode_text :
    (text : List ℕ)
    → All IsByte text
    → decode_text (encode_text text) (length (encode_text text)) 0 ≡ ok (padded text)
unfolding decode_text
decode_text-encode_text text h =
    let (w, e) = encode_text-words text h in
    let xs = encode_text text in
    decode_text_loop-bytes xs (length xs) 0 w (omega arith) ∙ ap ok (rw (take_all xs) e)
