-- ===== src/Tests/Http.antt =====
-- Runs of the HTTP client.
use simple_socket.Connection.Segments.{segments, segments-IsStream}
use simple_socket.Http.Chunks.RoundTrip.{Chunk, chunks_text}
use simple_socket.Http.Chunks.{strip_extensions}
use simple_socket.Http.Fetch.Responses.{
  response_text, read_response-chunks_text, read_response_wraps,
}
use simple_socket.Http.Fetch.Whole.{whole_response, read_response-whole_response}
use simple_socket.Http.Fetch.{is_chunked, read_response}
use simple_socket.Http.Headers.Lines.{headers_of}
use simple_socket.Http.Headers.{add_header}
use simple_socket.Prelude.{
  ℕ, ◌≡◌, refl, some, List, [], ◌∷◌, ◌++◌, ok, fault, take, drop, arith, true, false,
}
use simple_socket.Text.Lines.{IsLine, NoNewline}
use simple_socket.Text.Numbers.{stoul, number, magnitude, scan, digit, sign, skip_prefix}
use simple_socket.Text.{codes, nothing, index_of, find, lower, ltrim, rtrim, trim, is_space}
use simple_socket.Ws.Handshake.Texts.{is_plain, IsField-append}

abbrev status : List ℕ
status = codes "HTTP/1.1 200 OK"

abbrev chunked_headers : List (List ℕ)
chunked_headers = codes "Server: x" ∷ codes "Transfer-Encoding:  Chunked" ∷ []

abbrev sized_headers : List (List ℕ)
sized_headers = codes "Content-Length: 5" ∷ []

abbrev two_chunks : List Chunk
two_chunks =
    record { size_line = codes "5;x=y"; content = codes "hello" }
    ∷ record { size_line = codes "0A"; content = codes "0123456789" }
    ∷ []

abbrev chunked_bytes : List ℕ
chunked_bytes =
    response_text status chunked_headers
      (chunks_text two_chunks (codes "0") (codes "Expires: never" ∷ []) (codes "?"))

-- The bytes in three segments.
abbrev cut : List ℕ → List (List ℕ)
cut xs = take 7 xs ∷ take 60 (drop 7 xs) ∷ drop 67 xs ∷ []

status-NoNewline : NoNewline status
unfolding is_plain
status-NoNewline = (IsField-append b'H' (codes "TTP/1.1 200 OK") [] refl tt).0.1

chunked_headers-IsLine :
    IsLine (codes "Server: x") × (IsLine (codes "Transfer-Encoding:  Chunked") × Unit {0})
unfolding is_plain
chunked_headers-IsLine = (
  (IsField-append b'S' (codes "erver: x") [] refl tt).0,
  ((IsField-append b'T' (codes "ransfer-Encoding:  Chunked") [] refl tt).0, tt),
)

is_chunked_here : is_chunked (headers_of chunked_headers nothing) ≡ true
unfolding is_chunked add_header index_of lower trim ltrim rtrim is_space find
is_chunked_here = refl

size_5 : stoul 16 (strip_extensions (codes "5;x=y")) ≡ some 5
unfolding stoul number magnitude scan digit sign skip_prefix strip_extensions ltrim lower is_space
    index_of
size_5 = refl

size_10 : stoul 16 (strip_extensions (codes "0A")) ≡ some 10
unfolding stoul number magnitude scan digit sign skip_prefix strip_extensions ltrim lower is_space
    index_of
size_10 = refl

size_0 : stoul 16 (strip_extensions (codes "0")) ≡ some 0
unfolding stoul number magnitude scan digit sign skip_prefix strip_extensions ltrim lower is_space
    index_of
size_0 = refl

read_response-chunks_text_example :
    read_response segments 400 400 [] (cut chunked_bytes) ≡ ok (some (codes "hello0123456789"))
unfolding is_plain
read_response-chunks_text_example =
    read_response-chunks_text segments-IsStream (cut chunked_bytes) tt 400 (omega arith)
      (omega arith) status chunked_headers status-NoNewline chunked_headers-IsLine two_chunks
      (codes "0") (codes "Expires: never" ∷ []) (codes "?") is_chunked_here
      (
        (((IsField-append b'5' (codes ";x=y") [] refl tt).0.1, size_5), omega arith),
        ((((IsField-append b'0' (codes "A") [] refl tt).0.1, size_10), omega arith), tt),
      )
      ((IsField-append b'0' [] [] refl tt).0.1, size_0)
      ((IsField-append b'E' (codes "xpires: never") [] refl tt).0, tt) refl

plain_here : is_chunked (headers_of sized_headers nothing) ≡ false
unfolding is_chunked add_header index_of lower trim ltrim rtrim is_space find
plain_here = refl

-- A chunk of 2^64 - 16 bytes: the test asks for 15 bytes.
abbrev huge_size : List ℕ
huge_size = codes "fffffffffffffff0"

abbrev huge_bytes : List ℕ
huge_bytes = response_text status chunked_headers (huge_size ++ codes "\r\n?")

huge : stoul 16 (strip_extensions huge_size) ≡ some 18446744073709551600
unfolding stoul number magnitude scan digit sign skip_prefix strip_extensions ltrim lower is_space
    index_of
huge = refl

read_response_wraps_example : read_response segments 400 400 [] (cut huge_bytes) ≡ fault
unfolding is_plain
read_response_wraps_example =
    read_response_wraps segments-IsStream (cut huge_bytes) tt 400 (omega arith) (omega arith) status
      chunked_headers status-NoNewline chunked_headers-IsLine huge_size (codes "?")
      18446744073709551599 is_chunked_here
      ((IsField-append b'f' (codes "ffffffffffffff0") [] refl tt).0.1, huge) (omega arith)
      (omega arith) refl

read_response-whole_response_example :
    read_response segments 400 400 [] (cut huge_bytes) ≡ whole_response huge_bytes
read_response-whole_response_example =
    read_response-whole_response segments-IsStream 400 400 [] (cut huge_bytes) (omega arith)
      (omega arith) (omega arith) tt
