-- ===== src/Http/Fetch.antt =====
-- `fetchBytes` and `fetch` of src/simple_socket/http/SimpleHttpFetcher.cpp.
--
-- `stash` is empty until a chunked body moves into it, so it has no part before that.
pub mod Whole
pub mod Responses
use simple_socket.Connection.{Reader}
use simple_socket.Http.Chunks.{decode_chunked}
use simple_socket.Http.Headers.{parse_headers}
use simple_socket.Http.Url.{
  parse_host_port, extract_path, bracket_if_ipv6, is_default_port, make_http_request,
}
use simple_socket.Prelude.{
  ℕ, zero, suc, ◌+◌, ◌-◌, ◌<◌, min, Bool, true, false, Option, none, some, List, [], ◌∷◌, ◌++◌,
  if◌then◌else◌, ltb, leb, length, take, drop, Outcome, ok, throw, fault, ◌>>=◌,
}
use simple_socket.Text.{Map, find, contains, to_lower, codes, blank_line}
use simple_socket.Text.Numbers.{stoul, to_string}

-- `toLower(itTE->second).find("chunked") != npos`, where there is such a header.
unfoldable pub is_chunked : Map (List ℕ) → Bool
is_chunked headers = elim (headers (codes "transfer-encoding")) [
  | none ↦ false
  | some encoding ↦ contains (codes "chunked") (to_lower encoding)
]

module _ {S : Type 0} (c : Reader S) where
  -- The loop that reads up to `want` bytes.
  unfoldable pub read_up_to : ℕ → List ℕ → ℕ → S → Option (List ℕ)
  read_up_to zero body want s = if ltb (length body) want then none else some body
  read_up_to (suc rounds) body want s =
      let (buf, s') = c.read s (min 4096 (want - length body)) in
      let more : Option (List ℕ) = elim buf [
        | [] ↦ none
        | b ∷ bs ↦ read_up_to rounds (body ++ b ∷ bs) want s'
      ] in
      if ltb (length body) want then more else some body

  -- The loop that reads until the connection ends.
  unfoldable pub read_to_end : ℕ → List ℕ → S → List ℕ
  read_to_end zero body s = body
  read_to_end (suc rounds) body s =
      let (buf, s') = c.read s 4096 in
      elim buf [ [] ↦ body | b ∷ bs ↦ read_to_end rounds (body ++ b ∷ bs) s' ]

  module _ (rounds : ℕ) where
    -- From the headers on, with the bytes of the body that came with them.
    unfoldable pub read_body : Map (List ℕ) → List ℕ → S → Outcome (Option (List ℕ))
    unfolding is_chunked read_up_to read_to_end
    read_body headers body s =
        if is_chunked headers
        then decode_chunked c rounds rounds body 0 s []
        else elim (headers (codes "content-length")) [
          | none ↦ ok (some (read_to_end rounds body s))
          | some value ↦ elim (stoul 10 value) [
            | none ↦ ok none
            | some want ↦ ok (
                if ltb (length body) want
                then read_up_to rounds body want s
                else some (take want body))
          ]
        ]

    -- The loop that looks for the end of the headers.
    unfoldable pub read_response : ℕ → List ℕ → S → Outcome (Option (List ℕ))
    unfolding read_body
    read_response zero header_accum s = ok none
    read_response (suc fuel) header_accum s = elim (find blank_line header_accum) [
      | some sep ↦ read_body (parse_headers (take sep header_accum)) (drop (sep + 4) header_accum) s
      | none ↦
          let (buf, s') = c.read s 4096 in
          elim buf [ [] ↦ ok none | b ∷ bs ↦ read_response fuel (header_accum ++ b ∷ bs) s' ]
    ]

    -- `context.connect` and `write` belong to the transport. A null connection is dereferenced.
    unfoldable pub fetch_bytes :
        (List ℕ → ℕ → Bool → Option S)
        → (S → List ℕ → Option S)
        → List ℕ
        → Outcome (Option (List ℕ))
    unfolding read_response
    fetch_bytes connect write url = parse_host_port url >>= λ r.
        let (host, port, tls) = r in
        let host_header =
          bracket_if_ipv6 host
          ++ (if is_default_port tls port then [] else b':' ∷ to_string port) in
        elim (connect host port tls) [
          | none ↦ fault
          | some s ↦ elim (write s (make_http_request (extract_path url) host_header)) [
            | none ↦ ok none
            | some s' ↦ read_response rounds [] s'
          ]
        ]

    -- The same bytes as a string.
    unfoldable pub fetch :
        (List ℕ → ℕ → Bool → Option S)
        → (S → List ℕ → Option S)
        → List ℕ
        → Outcome (Option (List ℕ))
    unfolding fetch_bytes
    fetch connect write url = fetch_bytes connect write url
