-- ===== src/Tests/Handshake.antt =====
-- Runs of the opening handshake, and of base 64.
use simple_socket.Connection.Segments.{segments, segments-IsStream, joined}
use simple_socket.Prelude.{
  ℕ, ◌≡◌, refl, ap, sym, ◌∙◌, append-nil, take-append-drop, Option, none, some, List, [], ◌∷◌, ◌++◌,
  ok, throw, socket_error, length, take, drop, arith, if◌then◌else◌,
}
use simple_socket.Text.{codes, same}
use simple_socket.Text.Numbers.{to_string}
use simple_socket.Ws.Handshake.Agree.{handshake-request, perform_handshake-response}
use simple_socket.Ws.Handshake.Base64.{base64_decode, base64_decode-base64_encode}
use simple_socket.Ws.Handshake.Key.{base64_encode, base64_encode-IsKeyByte, letter}
use simple_socket.Ws.Handshake.Reads.{header_rounds_end}
use simple_socket.Ws.Handshake.Texts.{IsKey, is_plain, IsPlain-is_plain}
use simple_socket.Ws.Handshake.{
  request, response, handshake, perform_handshake, write_all, header_rounds,
}

abbrev nonce : List ℕ
nonce = codes "the sample nonce"

abbrev key : List ℕ
key = codes "dGhlIHNhbXBsZSBub25jZQ=="

encodes : base64_encode nonce ≡ key
unfolding base64_encode letter
encodes = refl

base64_decode-base64_encode_example : base64_decode (base64_encode (codes "nonce")) ≡ codes "nonce"
base64_decode-base64_encode_example =
    base64_decode-base64_encode (codes "nonce")
      (omega arith, (omega arith, (omega arith, (omega arith, (omega arith, tt)))))

-- The example of RFC 6455: the digest of the key, in base 64.
abbrev digest : List ℕ
digest =
    0xb3 ∷ 0x7a ∷ 0x4f ∷ 0x2c ∷ 0xc0 ∷ 0x62 ∷ 0x4f ∷ 0x16 ∷ 0x90 ∷ 0xf6 ∷ 0x46 ∷ 0x06 ∷ 0xcf ∷ 0x38
    ∷ 0x59 ∷ 0x45 ∷ 0xb2 ∷ 0xbe ∷ 0xc4 ∷ 0xea ∷ []

abbrev accept : List ℕ
accept = codes "s3pPLMBiTxaQ9kYGzzhZRbK+xOo="

encodes_digest : base64_encode digest ≡ accept
unfolding base64_encode letter
encodes_digest = refl

key-IsKey : IsKey key
key-IsKey = ((λ e. absurd (ground (arith, e))), rw encodes at (base64_encode-IsKeyByte nonce))

accept-IsKey : IsKey accept
accept-IsKey =
    ((λ e. absurd (ground (arith, e))), rw encodes_digest at (base64_encode-IsKeyByte digest))

abbrev pub generate : List ℕ → List ℕ
generate k = if same k key then accept else []

-- A transport whose writes succeed.
abbrev pub write : List (List ℕ) → List ℕ → Option (List (List ℕ))
write s text = some s

abbrev url : List ℕ
url = codes "ws://example.com:8080/chat"

abbrev pub cut : List ℕ → List (List ℕ)
cut xs = take 7 xs ∷ take 60 (drop 7 xs) ∷ drop 60 (drop 7 xs) ∷ []

joined-cut : (xs : List ℕ) → joined (cut xs) ≡ xs
joined-cut xs =
    let rest = drop 7 xs in
    ap (◌++◌ (take 7 xs))
      (ap (◌++◌ (take 60 rest)) (append-nil (drop 60 rest)) ∙ take-append-drop 60 rest)
    ∙ take-append-drop 7 xs

abbrev pub asked : List ℕ
asked = request (codes "/chat") (codes "example.com") 8080 key

asked_size : length asked ≡ 159
unfolding request to_string
asked_size = refl

handshake-request_example :
    (s' : List (List ℕ)) × (raw : List ℕ) × (handshake segments write generate (cut asked)
      ≡ write_all segments write generate s' (response none (generate key)))
    × (raw ++ joined s' ≡ joined (cut asked))
unfolding is_plain
handshake-request_example =
    handshake-request segments-IsStream write generate (codes "/chat") (codes "example.com") key []
      8080 (cut asked) (IsPlain-is_plain (codes "/chat") refl)
      (IsPlain-is_plain (codes "example.com") refl) key-IsKey (omega (arith, asked_size)) tt
      (joined-cut asked ∙ sym (append-nil asked))

abbrev answered : List ℕ
answered = response none accept

perform_handshake-response_example :
    (s' : List (List ℕ)) × (raw : List ℕ) × (perform_handshake segments write generate url
        (codes "example.com")
        8080
        key
        (cut answered)
      ≡ (if same accept (generate key) then ok s' else throw socket_error))
    × (raw ++ joined s' ≡ joined (cut answered))
unfolding response
perform_handshake-response_example =
    perform_handshake-response segments-IsStream write generate url (codes "example.com") key accept
      [] 8080 (cut answered) (cut answered) accept-IsKey (omega arith) refl tt refl

header_rounds_end_example :
    header_rounds segments 20000 [] (cut asked) ≡ header_rounds segments 30000 [] (cut asked)
header_rounds_end_example =
    header_rounds_end segments 20000 30000 [] (cut asked) (omega arith) (omega arith) (omega arith)
