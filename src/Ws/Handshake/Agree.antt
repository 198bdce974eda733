-- ===== src/Ws/Handshake/Agree.antt =====
-- Client and server understand each other, over any connection.
use simple_socket.Connection.{Reader, IsStream}
use simple_socket.Http.Headers.Lines.{headers_of}
use simple_socket.Http.Url.{extract_path}
use simple_socket.Prelude.{
  ℕ, ◌+◌, ◌≤◌, ◌≡◌, refl, sym, ap, ◌∙◌, Bool, true, false, Option, none, some, List, [], ◌++◌,
  if◌then◌else◌, length, take, All, All-weaken, Outcome, ok, throw, ◌>>=◌, ◌>>◌, socket_error,
  take-append_short, append-nil, length-append, arith,
}
use simple_socket.Text.Lines.{
  IsLine, lines_text, lines_text-append, find-blank_line_after, take_lines, line_not_empty,
}
use simple_socket.Text.Search.{find-fits}
use simple_socket.Text.{nothing, same, codes, blank_line, find, lower, trim, ltrim, rtrim, is_space}
use simple_socket.Ws.Handshake.Blocks.{IsField, parse_lines}
use simple_socket.Ws.Handshake.Reads.{read_http_header_block-Block}
use simple_socket.Ws.Handshake.Texts.{
  IsPlain, IsKey, request_line, request_fields, status_line, response_fields, request_lines,
  response_lines, request_line-IsField, request_fields-IsField, response_fields-IsField,
  status_line-IsField, request_headers, response_headers, trim-IsKey,
}
use simple_socket.Ws.Handshake.{
  HttpHeaders, read_http_header_block, header_block, parse_http_headers, is_101,
  validate_server_handshake_request, validate_client_handshake_response, request, response,
  write_all, handshake, await_response, perform_handshake,
}

server_accepts :
    (http : HttpHeaders) (key : List ℕ)
    → IsKey key
    → http.headers (codes "upgrade") ≡ some (codes "websocket")
    → http.headers (codes "connection") ≡ some (codes "Upgrade")
    → http.headers (codes "sec-websocket-version") ≡ some (codes "13")
    → http.headers (codes "sec-websocket-key") ≡ some key
    → validate_server_handshake_request http ≡ ok key
unfolding validate_server_handshake_request lower find is_space trim ltrim rtrim
server_accepts http key k up con ver is =
    rw (up, con, ver, is, trim-IsKey key k, line_not_empty key k.0) refl

client_tests :
    (http : HttpHeaders) (accept expected : List ℕ)
    → IsKey accept
    → http.start_line ≡ status_line
    → http.headers (codes "upgrade") ≡ some (codes "websocket")
    → http.headers (codes "connection") ≡ some (codes "Upgrade")
    → http.headers (codes "sec-websocket-accept") ≡ some accept
    → validate_client_handshake_response http expected
      ≡ (if same accept expected then ok tt else throw socket_error)
unfolding validate_client_handshake_response lower find is_101
client_tests http accept expected k start up con is =
    rw (start, up, con, is, trim-IsKey accept k) refl

goes_on :
    {S : Type 0} (b : Bool) (s : S)
    → ((if b then ok tt else throw socket_error) >> ok s) ≡ (if b then ok s else throw socket_error)
goes_on true s = refl
goes_on false s = refl

module _ {S : Type 0} {c : Reader S} {pending : S → List ℕ} {IsValid : S → Type 0}
    (stream : IsStream c pending IsValid) where
  -- The block of a text of fields is read and parsed, with the end of the last read behind it.
  abbrev Parses : List ℕ → List (List ℕ) → List ℕ → S → Type 0
  Parses first fields bytes s =
      (raw : List ℕ) × (s' : S) × (read_http_header_block c s ≡ ok (raw, s'))
      × (parse_http_headers raw
          ≡ ok (record { start_line = first; headers = headers_of fields nothing }))
      × (raw ++ pending s' ≡ bytes)
      × IsValid s'

  block_of :
      (raw after bytes : List ℕ) (i : ℕ)
      → find blank_line raw ≡ some i
      → raw ++ after ≡ bytes
      → header_block raw ≡ take i bytes
  unfolding header_block
  block_of raw after bytes i at joins =
      let fits = find-fits blank_line raw i at in
      rw (at, header_block)
        (sym (ap (take i) (sym joins) ∙ take-append_short i raw after (omega arith)))

  block_size :
      (first : List ℕ) (fields : List (List ℕ))
      → length (first ++ lines_text fields blank_line) ≡ length (first ++ lines_text fields []) + 4
  block_size first fields = omega (
    arith,
    length-append first (lines_text fields blank_line),
    length-append first (lines_text fields []),
    ap length (lines_text-append fields [] blank_line),
    length-append (lines_text fields []) blank_line,
  )

  parses :
      (first : List ℕ) (fields : List (List ℕ)) (rest : List ℕ) (s : S)
      → IsField first
      → All IsField fields
      → length (first ++ lines_text fields blank_line) ≤ 15360
      → IsValid s
      → pending s ≡ first ++ lines_text fields (blank_line ++ rest)
      → Parses first fields (pending s) s
  parses first fields rest s h hs small v sent =
      let lines = All-weaken IsField IsLine (λ l p. p.0) fields hs in
      let end = find-blank_line_after first fields rest h.0.1 lines in
      let (raw, s', done, at, joins, v') =
        read_http_header_block-Block stream (pending s) (length (first ++ lines_text fields []))
          (ap (find blank_line) sent ∙ end) (omega (arith, small, block_size first fields)) s v
          refl in
      let block = block_of raw (pending s') (pending s) _ at joins in
      let front =
        ap (take (length (first ++ lines_text fields []))) sent
        ∙ take_lines first fields (blank_line ++ rest) in
      (raw, s', done, parse_lines first fields raw h hs (block ∙ front), joins, v')

  module _ (write : S → List ℕ → Option S) (generate : List ℕ → List ℕ) where
    -- Over every byte stream that brings the client's request, of at most 15360 bytes: the server
    -- answers with the accept value of the client's key.
    pub handshake-request :
        (path host key rest : List ℕ) (port : ℕ) (s : S)
        → IsPlain path
        → IsPlain host
        → IsKey key
        → length (request path host port key) ≤ 15360
        → IsValid s
        → pending s ≡ request path host port key ++ rest
        → (s' : S) × (raw : List ℕ) × (handshake c write generate s
            ≡ write_all c write generate s' (response none (generate key)))
          × (raw ++ pending s' ≡ pending s)
    unfolding handshake lower
    handshake-request path host key rest port s hp hh k short v sent =
        let fields = request_fields host port key in
        let lines = sent ∙ request_lines path host key rest port in
        let text =
          sym (append-nil (request path host port key)) ∙ request_lines path host key [] port in
        let size : length (request_line path ++ lines_text fields blank_line) ≤ 15360 =
          omega (arith, short, ap length text) in
        let (raw, s', done, parsed, joins, v') =
          parses (request_line path) fields rest s (request_line-IsField path hp)
            (request_fields-IsField host port key hh k) size v lines in
        let (up, con, ver, is, protocol) = request_headers host port key k in
        let http : HttpHeaders = record {
          start_line = request_line path;
          headers = headers_of fields nothing;
        } in
        let answer = ap (λ p. write_all c write generate s' (response p (generate key))) protocol in
        (
          s',
          raw,
          rw (done, handshake, parsed, server_accepts http key k up con ver is) answer,
          joins,
        )

    await_response-response :
        (key accept rest : List ℕ) (s : S)
        → IsKey accept
        → length (response none accept) ≤ 15360
        → IsValid s
        → pending s ≡ response none accept ++ rest
        → (s' : S) × (raw : List ℕ) × (await_response c write generate key s
            ≡ (if same accept (generate key) then ok s' else throw socket_error))
          × (raw ++ pending s' ≡ pending s)
    unfolding await_response lower
    await_response-response key accept rest s k short v sent =
        let fields = response_fields accept in
        let text = sym (append-nil (response none accept)) ∙ response_lines accept [] in
        let size : length (status_line ++ lines_text fields blank_line) ≤ 15360 =
          omega (arith, short, ap length text) in
        let (raw, s', done, parsed, joins, v') =
          parses status_line fields rest s status_line-IsField (response_fields-IsField accept k)
            size v (sent ∙ response_lines accept rest) in
        let (up, con, is) = response_headers accept k in
        let http : HttpHeaders = record {
          start_line = status_line;
          headers = headers_of fields nothing;
        } in
        (
          s',
          raw,
          rw
              (
                done,
                await_response,
                parsed,
                client_tests http accept (generate key) k refl up con is,
              )
              (goes_on (same accept (generate key)) s'),
          joins,
        )

    -- Over every byte stream that brings a response of the server, of at most 15360 bytes: the client
    -- goes on where the accept value is that of its own key, and throws where it is another.
    pub perform_handshake-response :
        (url host key accept rest : List ℕ) (port : ℕ) (s s₁ : S)
        → IsKey accept
        → length (response none accept) ≤ 15360
        → write s (request (extract_path url) host port key) ≡ some s₁
        → IsValid s₁
        → pending s₁ ≡ response none accept ++ rest
        → (s' : S) × (raw : List ℕ) × (perform_handshake c write generate url host port key s
            ≡ (if same accept (generate key) then ok s' else throw socket_error))
          × (raw ++ pending s' ≡ pending s₁)
    unfolding perform_handshake
    perform_handshake-response url host key accept rest port s s₁ k short sends v sent =
        let (s', raw, done, joins) = await_response-response key accept rest s₁ k short v sent in
        let written =
          ap
            (λ o.
              (elim o as (λ _. Outcome S) [ none ↦ throw socket_error | some x ↦ ok x ])
              >>= await_response c write generate key)
            sends in
        (s', raw, written ∙ done, joins)
