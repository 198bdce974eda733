-- ===== src/Ws/Frames.antt =====
-- src/simple_socket/ws/WebSocketConnection.hpp: building a frame, and taking one from the bytes that
-- have arrived.
pub mod Lengths
pub mod RoundTrip
pub mod Extends
pub mod Leaves
use simple_socket.Prelude.{
  ℕ, zero, suc, ◌+◌, ◌*◌, ◌/◌, ◌%◌, ◌^◌, bit_and, bit_or, bit_xor, Bool, true, false, not, ◌&&◌,
  List, [], ◌∷◌, ◌++◌, ◌==◌, if◌then◌else◌, ltb, leb, length, shl, shr, get_or, take, drop,
}

abbrev pub ws_cont : ℕ
ws_cont = 0x0

abbrev pub ws_text : ℕ
ws_text = 0x1

abbrev pub ws_bin : ℕ
ws_bin = 0x2

abbrev pub ws_close : ℕ
ws_close = 0x8

abbrev pub ws_ping : ℕ
ws_ping = 0x9

abbrev pub ws_pong : ℕ
ws_pong = 0xa

pub data Role : Type 0 where
  client server : Role

abbrev pub is_client : Role → Bool
is_client Role.client = true
is_client Role.server = false

-- The loop that writes a length in `k` bytes, highest first: `(len >> (i * 8)) & 0xFF`.
unfoldable pub length_bytes : ℕ → ℕ → List ℕ
length_bytes zero len = []
length_bytes (suc i) len = bit_and (shr len (i * 8)) 0xff ∷ length_bytes i len

-- The loop over the data, from index `i` on: `b ^= m[i & 0x03]`, at both ends.
unfoldable pub masked : List ℕ → ℕ → List ℕ → List ℕ
masked m i [] = []
masked m i (b ∷ bs) = bit_xor b (get_or m (bit_and i 0x03) 0) ∷ masked m (suc i) bs

-- `random` are the four bytes of `std::random_device`.
unfoldable pub build_frame : ℕ → List ℕ → Role → List ℕ → List ℕ
build_frame opcode xs role random =
    let len = length xs in
    let bit = if is_client role then 0x80 else 0x00 in
    let size =
      if leb len 125
      then bit_or len bit ∷ []
      else if leb len 0xffff
      then bit_or 126 bit ∷ bit_and (shr len 8) 0xff ∷ bit_and len 0xff ∷ []
      else bit_or 127 bit ∷ length_bytes 8 len in
    let body = if is_client role then random ++ masked random 0 xs else xs in
    bit_or 0x80 (bit_and opcode 0x0f) ∷ (size ++ body)

-- What the bytes from `pos` on begin with: too few bytes for a frame, a frame that breaks the
-- masking rule, a frame whose payload no vector can hold, or a frame and the bytes after it.
pub data Parsed : Type 0 where
  more violation too_long : Parsed
  frame : Bool → ℕ → List ℕ → List ℕ → Parsed

-- `payloadLen = (payloadLen << 8) | rx[…]`, over 64 bits.
unfoldable pub read_length : ℕ → ℕ → List ℕ → ℕ
read_length zero payload_len bs = payload_len
read_length (suc n) payload_len [] = payload_len
read_length (suc n) payload_len (b ∷ bs) = read_length n (bit_or (shl 64 payload_len 8) b) bs

-- From the length on: `hdr` bytes come before the mask. `need` wraps over 64 bits, and where it does
-- `chunk.resize` throws, its argument being above the greatest size of a vector.
unfoldable pub parse_payload : Bool → ℕ → Bool → ℕ → ℕ → List ℕ → Parsed
parse_payload fin opcode is_masked hdr payload_len rx =
    let need = (hdr + (if is_masked then 4 else 0) + payload_len) % 2 ^ 64 in
    let off = hdr + (if is_masked then 4 else 0) in
    let mask = take 4 (drop hdr rx) in
    let chunk = take payload_len (drop off rx) in
    if ltb (length rx) need
    then Parsed.more
    else if leb (2 ^ 63) payload_len
    then Parsed.too_long
    else Parsed.frame fin opcode (if is_masked then masked mask 0 chunk else chunk)
        (drop payload_len (drop off rx))

unfoldable pub parse_frame : Role → List ℕ → Parsed
parse_frame role rx =
    let b₀ = get_or rx 0 0 in
    let b₁ = get_or rx 1 0 in
    let fin = not (bit_and b₀ 0x80 == 0) in
    let opcode = bit_and b₀ 0x0f in
    let is_masked = not (bit_and b₁ 0x80 == 0) in
    let payload_len = bit_and b₁ 0x7f in
    if ltb (length rx) 2
    then Parsed.more
    else if not (is_client role) && not is_masked
    then Parsed.violation
    else if is_client role && is_masked
    then Parsed.violation
    else if payload_len == 126
    then (if ltb (length rx) 4
        then Parsed.more
        else parse_payload fin opcode is_masked 4
            (bit_or (shl 64 (get_or rx 2 0) 8) (get_or rx 3 0)) rx)
    else if payload_len == 127
    then (if ltb (length rx) 10
        then Parsed.more
        else parse_payload fin opcode is_masked 10 (read_length 8 0 (drop 2 rx)) rx)
    else parse_payload fin opcode is_masked 2 payload_len rx
