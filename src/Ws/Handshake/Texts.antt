-- ===== src/Ws/Handshake/Texts.antt =====
-- The request of the client and the response of the server as lines, and what their headers say.
use simple_socket.Http.Headers.Lines.{headers_of}
use simple_socket.Http.Headers.{add_header}
use simple_socket.Prelude.{
  ℕ, ◌≡◌, ◌≢◌, refl, ap, ◌∙◌, Bool, true, not, ◌&&◌, ◌==◌, Bool-cases, inl, inr, none, some, List,
  [], ◌∷◌, ◌++◌, append_assoc, All, All-append, All-weaken, arith,
}
use simple_socket.Text.Lines.{lines_text}
use simple_socket.Text.Numbers.{IsDigit, to_string, to_string-IsDigit}
use simple_socket.Text.Trim.{trim-NoSpace, trim_space}
use simple_socket.Text.{nothing, codes, blank_line, index_of, lower, ltrim, rtrim, trim, is_space}
use simple_socket.Ws.Handshake.Blocks.{IsField}
use simple_socket.Ws.Handshake.Key.{IsKeyByte}
use simple_socket.Ws.Handshake.{request, response}

-- Texts without a line break, and keys.
abbrev pub IsPlain : List ℕ → Type 0
IsPlain s = All (λ c. (c ≢ b'\n') × (c ≢ b'\r')) s

abbrev pub IsKey : List ℕ → Type 0
IsKey key = (key ≢ []) × All IsKeyByte key

abbrev pub request_line : List ℕ → List ℕ
request_line path = codes "GET " ++ (path ++ codes " HTTP/1.1")

abbrev pub request_fields : List ℕ → ℕ → List ℕ → List (List ℕ)
request_fields host port key =
    (codes "Host: " ++ (host ++ (b':' ∷ to_string port)))
    ∷ codes "Upgrade: websocket"
    ∷ codes "Connection: Upgrade"
    ∷ (codes "Sec-WebSocket-Key: " ++ key)
    ∷ codes "Sec-WebSocket-Version: 13"
    ∷ []

abbrev pub status_line : List ℕ
status_line = codes "HTTP/1.1 101 Switching Protocols"

abbrev pub response_fields : List ℕ → List (List ℕ)
response_fields accept =
    codes "Upgrade: websocket"
    ∷ codes "Connection: Upgrade"
    ∷ (codes "Sec-WebSocket-Accept: " ++ accept)
    ∷ []

pub request_lines :
    (path host key rest : List ℕ) (port : ℕ)
    → request path host port key ++ rest
      ≡ request_line path ++ lines_text (request_fields host port key) (blank_line ++ rest)
unfolding request
request_lines path host key rest port = simp append_assoc

pub response_lines :
    (accept rest : List ℕ)
    → response none accept ++ rest
      ≡ status_line ++ lines_text (response_fields accept) (blank_line ++ rest)
unfolding response
response_lines accept rest = simp append_assoc

-- A test for plain texts, for the literals.
unfoldable pub is_plain : List ℕ → Bool
is_plain [] = true
is_plain (c ∷ s) = not (c == b'\n') && (not (c == b'\r') && is_plain s)

pub IsPlain-is_plain : (s : List ℕ) → is_plain s ≡ true → IsPlain s
unfolding is_plain
IsPlain-is_plain [] e = tt
IsPlain-is_plain (c ∷ s) e = elim (Bool-cases (is_plain s)) [
  | inl rest ↦ ((ground (arith, e, rest), ground (arith, e, rest)), IsPlain-is_plain s rest)
  | inr stop ↦ absurd (ground (arith, e, stop))
]

IsField-IsPlain : (x : ℕ) (s : List ℕ) → IsPlain (x ∷ s) → IsField (x ∷ s)
IsField-IsPlain x s h = (
  (
    (λ e. absurd (ground (arith, e))),
    All-weaken (λ c. (c ≢ b'\n') × (c ≢ b'\r')) (λ c. c ≢ b'\n') (λ c p. p.0) (x ∷ s) h,
  ),
  All-weaken (λ c. (c ≢ b'\n') × (c ≢ b'\r')) (λ c. c ≢ b'\r') (λ c p. p.1) (x ∷ s) h,
)

pub IsField-append :
    (x : ℕ) (front s : List ℕ) → is_plain (x ∷ front) ≡ true → IsPlain s → IsField (x ∷ front ++ s)
IsField-append x front s e h =
    IsField-IsPlain x (front ++ s) (All-append _ (x ∷ front) s (IsPlain-is_plain (x ∷ front) e) h)

IsPlain-IsKey : (key : List ℕ) → IsKey key → IsPlain key
IsPlain-IsKey key (ne, h) = All-weaken IsKeyByte _ (λ c p. (p.1, p.2)) key h

IsPlain-to_string : (n : ℕ) → IsPlain (to_string n)
IsPlain-to_string n =
    All-weaken IsDigit _ (λ c p. ((λ e. omega arith), (λ e. omega arith))) (to_string n)
      (to_string-IsDigit n)

pub request_line-IsField : (path : List ℕ) → IsPlain path → IsField (request_line path)
unfolding is_plain
request_line-IsField path h =
    IsField-append b'G' (codes "ET ") (path ++ codes " HTTP/1.1") refl
      (All-append _ path (codes " HTTP/1.1") h (IsPlain-is_plain (codes " HTTP/1.1") refl))

pub request_fields-IsField :
    (host : List ℕ) (port : ℕ) (key : List ℕ)
    → IsPlain host
    → IsKey key
    → All IsField (request_fields host port key)
unfolding is_plain
request_fields-IsField host port key h k = (
  IsField-append b'H' (codes "ost: ") (host ++ (b':' ∷ to_string port)) refl (
      All-append _ host (b':' ∷ to_string port) h
        (((λ e. omega arith), (λ e. omega arith)), IsPlain-to_string port)),
  (
    IsField-append b'U' (codes "pgrade: websocket") [] refl tt,
    (
      IsField-append b'C' (codes "onnection: Upgrade") [] refl tt,
      (
        IsField-append b'S' (codes "ec-WebSocket-Key: ") key refl (IsPlain-IsKey key k),
        (IsField-append b'S' (codes "ec-WebSocket-Version: 13") [] refl tt, tt),
      ),
    ),
  ),
)

pub response_fields-IsField :
    (accept : List ℕ) → IsKey accept → All IsField (response_fields accept)
unfolding is_plain
response_fields-IsField accept k = (
  IsField-append b'U' (codes "pgrade: websocket") [] refl tt,
  (
    IsField-append b'C' (codes "onnection: Upgrade") [] refl tt,
    (IsField-append b'S' (codes "ec-WebSocket-Accept: ") accept refl (IsPlain-IsKey accept k), tt),
  ),
)

pub status_line-IsField : IsField status_line
unfolding is_plain
status_line-IsField = IsField-append b'H' (codes "TTP/1.1 101 Switching Protocols") [] refl tt

pub trim-IsKey : (key : List ℕ) → IsKey key → trim key ≡ key
trim-IsKey key (ne, h) = trim-NoSpace key (All-weaken IsKeyByte _ (λ c p. p.0) key h)

trim_key : (key : List ℕ) → IsKey key → trim (b' ' ∷ key) ≡ key
trim_key key (ne, h) = trim_space key ∙ trim-NoSpace key (All-weaken IsKeyByte _ (λ c p. p.0) key h)

-- What the server finds among the headers of the request.
pub request_headers :
    (host : List ℕ) (port : ℕ) (key : List ℕ)
    → IsKey key
    → (let h = headers_of (request_fields host port key) nothing in
        (h (codes "upgrade") ≡ some (codes "websocket"))
        × (h (codes "connection") ≡ some (codes "Upgrade"))
        × (h (codes "sec-websocket-version") ≡ some (codes "13"))
        × (h (codes "sec-websocket-key") ≡ some key)
        × (h (codes "sec-websocket-protocol") ≡ none))
unfolding add_header index_of lower trim ltrim rtrim is_space
request_headers host port key k = (refl, refl, refl, ap some (trim_key key k), refl)

pub response_headers :
    (accept : List ℕ)
    → IsKey accept
    → (let h = headers_of (response_fields accept) nothing in
        (h (codes "upgrade") ≡ some (codes "websocket"))
        × (h (codes "connection") ≡ some (codes "Upgrade"))
        × (h (codes "sec-websocket-accept") ≡ some accept))
unfolding add_header index_of lower trim ltrim rtrim is_space
response_headers accept k = (refl, refl, ap some (trim_key accept k))
