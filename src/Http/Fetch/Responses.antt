-- ===== src/Http/Fetch/Responses.antt =====
-- What `fetchBytes` makes of the responses that servers send, over any connection.
use simple_socket.Connection.{Reader, IsStream}
use simple_socket.Http.Chunks.RoundTrip.{
  Chunk, IsSize, IsChunk, contents, chunks_text, unchunk-chunks_text, unchunk_wraps,
}
use simple_socket.Http.Fetch.Whole.{whole_body, whole_response, read_response-whole_response}
use simple_socket.Http.Fetch.{is_chunked, read_response}
use simple_socket.Http.Headers.Lines.{headers_of, parse_headers-headers_of}
use simple_socket.Http.Headers.{parse_headers}
use simple_socket.Prelude.{
  ℕ, suc, ◌+◌, ◌^◌, ◌≤◌, ◌<◌, ◌≡◌, refl, ap, ◌∙◌, true, false, none, some, List, [], ◌∷◌, ◌++◌,
  if◌then◌else◌, ltb, length, take, drop, All, ok, fault, length-append, length-drop, arith,
}
use simple_socket.Text.Lines.{
  NoNewline, IsLine, lines_text, find-blank_line_after, take_lines, drop_lines,
}
use simple_socket.Text.Numbers.{stoul}
use simple_socket.Text.{nothing, find, codes, blank_line}

-- A status line, header lines, a blank line and the rest.
abbrev pub response_text : List ℕ → List (List ℕ) → List ℕ → List ℕ
response_text status headers body = status ++ lines_text headers (blank_line ++ body)

blank_line_at :
    (bytes : List ℕ) (sep : ℕ)
    → find blank_line bytes ≡ some sep
    → whole_response bytes ≡ whole_body (parse_headers (take sep bytes)) (drop (sep + 4) bytes)
unfolding whole_response
blank_line_at bytes sep e = rw (e, whole_response) refl

whole_response-response_text :
    (status : List ℕ) (ls : List (List ℕ)) (body : List ℕ)
    → NoNewline status
    → All IsLine ls
    → whole_response (response_text status ls body) ≡ whole_body (headers_of ls nothing) body
whole_response-response_text status ls body h hs =
    let bytes = response_text status ls body in
    let block = status ++ lines_text ls [] in
    blank_line_at bytes (length block) (find-blank_line_after status ls body h hs)
    ∙ ap (λ t. whole_body (parse_headers t) (drop (length block + 4) bytes))
        (take_lines status ls (blank_line ++ body))
    ∙ ap (whole_body (parse_headers block)) (drop_lines status ls body)
    ∙ ap (λ m. whole_body m body) (parse_headers-headers_of status ls h hs)

count_chunks :
    (chs : List Chunk) (last : List ℕ) (trailer : List (List ℕ)) (rest : List ℕ)
    → length chs < suc (length (chunks_text chs last trailer rest))
count_chunks [] last trailer rest = omega arith
count_chunks (ch ∷ chs) last trailer rest =
    let next = chunks_text chs last trailer rest in
    let body = ch.content ++ b'\r' ∷ b'\n' ∷ next in
    omega (
      arith,
      count_chunks chs last trailer rest,
      length-append ch.size_line (b'\r' ∷ b'\n' ∷ body),
      length-append ch.content (b'\r' ∷ b'\n' ∷ next),
    )

module _ {S : Type 0} {c : Reader S} {pending : S → List ℕ} {IsValid : S → Type 0}
    (stream : IsStream c pending IsValid) (s : S) (v : IsValid s) (rounds : ℕ)
    (enough : length (pending s) < rounds) (short : length (pending s) < 2 ^ 63) (status : List ℕ)
    (headers : List (List ℕ)) (is_status : NoNewline status) (are_lines : All IsLine headers) where
  read_response-response_text :
      (body : List ℕ)
      → pending s ≡ response_text status headers body
      → read_response c rounds rounds [] s ≡ whole_body (headers_of headers nothing) body
  read_response-response_text body sent =
      read_response-whole_response stream rounds rounds [] s enough enough short v
      ∙ ap whole_response sent
      ∙ whole_response-response_text status headers body is_status are_lines

  body_shorter :
      (body : List ℕ) → pending s ≡ response_text status headers body → length body < 2 ^ 63
  body_shorter body sent =
      let size = ap length (drop_lines status headers body) in
      let at = length (status ++ lines_text headers []) + 4 in
      omega (arith, short, size, ap length sent, length-drop at (response_text status headers body))

  -- Over every connection, however it cuts the bytes into reads: a chunked response gives the contents
  -- of its chunks, one after the other, whatever extensions the size lines have, whatever trailer comes
  -- after the last chunk and whatever follows the body.
  pub read_response-chunks_text :
      (chs : List Chunk) (last : List ℕ) (trailer : List (List ℕ)) (rest : List ℕ)
      → is_chunked (headers_of headers nothing) ≡ true
      → All IsChunk chs
      → IsSize last 0
      → All IsLine trailer
      → pending s ≡ response_text status headers (chunks_text chs last trailer rest)
      → read_response c rounds rounds [] s ≡ ok (some (contents chs))
  unfolding whole_body
  read_response-chunks_text chs last trailer rest chunked are last_size trails sent =
      let body = chunks_text chs last trailer rest in
      read_response-response_text body sent
      ∙ rw (chunked, whole_body)
          (unchunk-chunks_text chs last trailer rest (suc (length body)) 0 are last_size trails
            (count_chunks chs last trailer rest) (omega (arith, body_shorter body sent)))

  -- Over every connection: a response that is not chunked gives, with a content length, the first bytes
  -- of its body, as many as the length says, and nothing where there are fewer; without a content
  -- length it gives all bytes up to the end.
  pub read_response_plain :
      (body : List ℕ)
      → is_chunked (headers_of headers nothing) ≡ false
      → pending s ≡ response_text status headers body
      → ((value : List ℕ) (want : ℕ)
          → headers_of headers nothing (codes "content-length") ≡ some value
          → stoul 10 value ≡ some want
          → read_response c rounds rounds [] s
            ≡ ok (if ltb (length body) want then none else some (take want body)))
        × (headers_of headers nothing (codes "content-length") ≡ none
            → read_response c rounds rounds [] s ≡ ok (some body))
  unfolding whole_body
  read_response_plain body plain sent = (
    λ value want given is.
        read_response-response_text body sent ∙ rw (plain, given, is, whole_body) refl,
    λ missing. read_response-response_text body sent ∙ rw (plain, missing, whole_body) refl,
  )

  -- Over every connection: a first chunk whose size makes the sum `off + chunkSize + 2` wrap over 64
  -- bits passes the test for enough bytes, where a byte or two follow its size line, and the decoder
  -- reads outside its buffer.
  pub read_response_wraps :
      (line body : List ℕ) (m : ℕ)
      → is_chunked (headers_of headers nothing) ≡ true
      → IsSize line (suc m)
      → 2 ^ 64 ≤ length line + 2 + suc m + 2
      → suc m + 2 ≤ 2 ^ 64 + length body
      → pending s ≡ response_text status headers (line ++ b'\r' ∷ b'\n' ∷ body)
      → read_response c rounds rounds [] s ≡ fault
  unfolding whole_body
  read_response_wraps line body m chunked (plain, size) wraps inside sent =
      let text = line ++ b'\r' ∷ b'\n' ∷ body in
      read_response-response_text text sent
      ∙ rw (chunked, whole_body)
          (unchunk_wraps line body (length text) 0 plain m size (omega (arith, wraps)) inside)
