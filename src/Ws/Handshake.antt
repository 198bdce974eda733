-- ===== src/Ws/Handshake.antt =====
-- The opening handshake: src/simple_socket/ws/WebSocketHandshakeCommon.hpp, `handshake` of
-- src/simple_socket/ws/WebSocket.cpp and `performHandshake` of
-- src/simple_socket/ws/WebSocketClient.cpp.
--
-- `generate` is `WebSocketHandshakeKeyGen::generate`, which belongs to another project: it makes the 28
-- characters of the accept value from a key. `write` belongs to the transport.
pub mod Blocks
pub mod Reads
pub mod Key
pub mod Base64
pub mod Texts
pub mod Agree
pub mod Defined
use simple_socket.Connection.{Reader}
use simple_socket.Http.Url.{extract_path}
use simple_socket.Prelude.{
  ℕ, zero, suc, ◌+◌, ◌-◌, ◌<◌, ◌≡◌, Bool, true, false, not, ◌&&◌, ◌||◌, Option, none, some, List,
  [], ◌∷◌, ◌++◌, ◌==◌, if◌then◌else◌, ltb, leb, length, take, drop, Outcome, ok, throw, fault,
  ◌>>=◌, ◌>>◌, throw_if, Exception, socket_error, invalid_argument,
}
use simple_socket.Text.Numbers.{to_string, stoi_word}
use simple_socket.Text.{
  Map, put, nothing, same, find, rfind, index_of, contains, starts_with, is_empty, trim, to_lower,
  codes, blank_line,
}

pub record HttpHeaders : Type 0 where
  pub start_line : List ℕ
  pub headers : Map (List ℕ)

abbrev pub get : HttpHeaders → List ℕ → Option (List ℕ)
get http name = http.headers (to_lower name)

abbrev pub max_bytes : ℕ
max_bytes = 16384

-- Each round brings a byte at least, and none goes on from more than `max_bytes`.
unfoldable pub header_rounds : {S : Type 0} → Reader S → ℕ → List ℕ → S → Outcome (List ℕ × S)
header_rounds c zero raw s = throw socket_error
header_rounds c (suc rounds) raw s = elim (find blank_line raw) [
  | some i ↦ ok (raw, s)
  | none ↦
      let (buffer, s') = c.read s 1024 in
      elim buffer [
        | [] ↦ throw socket_error
        | b ∷ bs ↦
            let next = header_rounds c rounds (raw ++ b ∷ bs) s' in
            if ltb max_bytes (length (raw ++ b ∷ bs)) then throw socket_error else next
      ]
]

unfoldable pub read_http_header_block : {S : Type 0} → Reader S → S → Outcome (List ℕ × S)
unfolding header_rounds
read_http_header_block c s = header_rounds c (suc (suc max_bytes)) [] s

-- The lines that `std::getline` gives one after the other.
unfoldable pub get_lines : List ℕ → List (List ℕ)
get_lines [] = []
get_lines (x ∷ xs) =
    let later = get_lines xs in
    if x == b'\n'
    then [] ∷ later
    else elim later as (λ _. List (List ℕ)) [ [] ↦ (x ∷ []) ∷ [] | l ∷ ls ↦ (x ∷ l) ∷ ls ]

-- `if (!line.empty() && line.back() == '\r') line.pop_back();`
unfoldable pub pop_return : List ℕ → List ℕ
pop_return [] = []
pop_return (x ∷ xs) =
    let rest = pop_return xs in if is_empty xs && (x == b'\r') then [] else x ∷ rest

unfoldable pub add_field : Map (List ℕ) → List ℕ → Map (List ℕ)
add_field h line = elim (index_of b':' line) [
  | none ↦ h
  | some pos ↦ put h (to_lower (trim (take pos line))) (trim (drop (pos + 1) line))
]

unfoldable pub add_fields : List (List ℕ) → Map (List ℕ) → Map (List ℕ)
unfolding add_field pop_return
add_fields [] h = h
add_fields (line ∷ lines) h = add_fields lines (add_field h (pop_return line))

unfoldable pub header_block : List ℕ → List ℕ
header_block raw = elim (find blank_line raw) [ none ↦ raw | some hdr_end ↦ take hdr_end raw ]

unfoldable pub parse_http_headers : List ℕ → Outcome HttpHeaders
unfolding get_lines add_fields pop_return header_block
parse_http_headers raw = elim (get_lines (header_block raw)) [
  | [] ↦ throw socket_error
  | line ∷ lines ↦ ok (record { start_line = pop_return line; headers = add_fields lines nothing })
]

-- A header that must be there and pass a test.
abbrev pub demand : Option (List ℕ) → (List ℕ → Bool) → Outcome (Unit {0})
demand none test = throw socket_error
demand (some value) test = if test value then ok tt else throw socket_error

abbrev pub value_of : Option (List ℕ) → List ℕ
value_of none = []
value_of (some value) = value

unfoldable pub validate_common_handshake_request : HttpHeaders → Outcome (Unit {0})
validate_common_handshake_request http =
    demand (get http (codes "upgrade")) (λ v. same v (codes "websocket"))
    >> demand (get http (codes "connection")) (λ v. contains (codes "upgrade") (to_lower v))

unfoldable pub validate_server_handshake_request : HttpHeaders → Outcome (List ℕ)
unfolding validate_common_handshake_request
validate_server_handshake_request http =
    validate_common_handshake_request http
    >> demand (get http (codes "sec-websocket-version")) (λ v. same (trim v) (codes "13"))
    >> demand (get http (codes "sec-websocket-key")) (λ v. not (is_empty (trim v)))
    >> ok (trim (value_of (get http (codes "sec-websocket-key"))))

-- `start.find(" 101 ")`, or `start.rfind(" 101", start.size() - 3)`.
unfoldable pub is_101 : List ℕ → Bool
is_101 start =
    contains (codes " 101 ") start
    || (leb 3 (length start)
        && elim (rfind (codes " 101") start (length start - 3)) [ none ↦ false | some i ↦ true ])

unfoldable pub validate_client_handshake_response : HttpHeaders → List ℕ → Outcome (Unit {0})
unfolding is_101 validate_common_handshake_request
validate_client_handshake_response http expected_accept =
    throw_if (not (is_101 http.start_line)) socket_error
    >> validate_common_handshake_request http
    >> demand (get http (codes "sec-websocket-accept")) (λ v. same (trim v) expected_accept)

unfoldable pub response : Option (List ℕ) → List ℕ → List ℕ
response protocol accept =
    codes "HTTP/1.1 101 Switching Protocols\r\nUpgrade: websocket\r\nConnection: Upgrade\r\n"
    ++ ((elim protocol as (λ _. List ℕ) [
      | none ↦ []
      | some val ↦
          if contains (codes "mqtt") (to_lower val)
          then codes "Sec-WebSocket-Protocol: mqtt\r\n"
          else []
    ])
        ++ (codes "Sec-WebSocket-Accept: " ++ (accept ++ codes "\r\n\r\n")))

unfoldable pub request : List ℕ → List ℕ → ℕ → List ℕ → List ℕ
request path host port sec_key =
    codes "GET "
    ++ (path
        ++ (codes " HTTP/1.1\r\nHost: "
            ++ (host
                ++ (b':' ∷ to_string port
                    ++ (codes "\r\nUpgrade: websocket\r\nConnection: Upgrade\r\nSec-WebSocket-Key: "
                        ++ (sec_key ++ codes "\r\nSec-WebSocket-Version: 13\r\n\r\n"))))))

module _ {S : Type 0} (c : Reader S) (write : S → List ℕ → Option S)
    (generate : List ℕ → List ℕ) where
  abbrev pub write_all : S → List ℕ → Outcome S
  write_all s text = elim (write s text) [ none ↦ throw socket_error | some s' ↦ ok s' ]

  unfoldable pub handshake : S → Outcome S
  unfolding read_http_header_block parse_http_headers validate_server_handshake_request response
  handshake s = read_http_header_block c s >>= λ r. parse_http_headers r.0 >>= λ http.
      validate_server_handshake_request http >>= λ client_key.
      write_all r.1 (response (get http (codes "sec-websocket-protocol")) (generate client_key))

  -- From the response on.
  unfoldable pub await_response : List ℕ → S → Outcome S
  unfolding read_http_header_block parse_http_headers validate_client_handshake_response
  await_response sec_key s = read_http_header_block c s >>= λ r. parse_http_headers r.0 >>= λ resp.
      validate_client_handshake_response resp (generate sec_key) >> ok r.1

  -- The path of the request is `/` where the URL has none. The variable `hostHeader` is computed and
  -- not used.
  unfoldable pub perform_handshake : List ℕ → List ℕ → ℕ → List ℕ → S → Outcome S
  unfolding await_response request
  perform_handshake url host port sec_key s =
      write_all s (request (extract_path url) host port sec_key) >>= await_response sec_key

unfoldable pub parse_web_socket_url : List ℕ → Outcome (List ℕ × ℕ)
parse_web_socket_url url =
    let cut : List ℕ → ℕ → Outcome (List ℕ × ℕ) = λ host_port default.
      elim (index_of b':' host_port) [
        | none ↦ ok (host_port, default)
        | some colon_pos ↦ stoi_word (drop (colon_pos + 1) host_port) >>= λ port.
            ok (take colon_pos host_port, port)
      ] in
    if starts_with (codes "ws://") url
    then cut (drop 5 url) 80
    else if starts_with (codes "wss://") url
    then cut (drop 6 url) 443
    else throw invalid_argument
