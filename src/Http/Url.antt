-- ===== src/Http/Url.antt =====
-- `parseHostPort`, `extractPath`, `bracketIfIpv6` and `makeHttpRequest` of
-- src/simple_socket/http/SimpleHttpFetcher.cpp.
pub mod Parts
use simple_socket.Prelude.{
  ℕ, zero, suc, ◌+◌, ◌-◌, ◌<◌, Bool, true, false, not, ◌&&◌, ◌||◌, Option, none, some, List, [],
  ◌∷◌, ◌++◌, ◌==◌, if◌then◌else◌, ltb, leb, length, take, drop, get_or, Outcome, ok, throw, ◌>>=◌,
  Exception, invalid_argument,
}
use simple_socket.Text.{find, index_of, is_empty, starts_with, codes}
use simple_socket.Text.Numbers.{stoul}

-- The scheme, and what follows it.
unfoldable pub scheme : List ℕ → Bool × List ℕ
scheme input =
    if starts_with (codes "https://") input
    then (true, drop 8 input)
    else if starts_with (codes "http://") input
    then (false, drop 7 input)
    else (false, input)

unfoldable pub authority_of : List ℕ → List ℕ
authority_of s = elim (index_of b'/' s) [ none ↦ s | some slash ↦ take slash s ]

-- `std::stoul`, with the test of the range.
unfoldable pub parse_port : List ℕ → Outcome ℕ
parse_port text = elim (stoul 10 text) [
  | none ↦ throw invalid_argument
  | some p ↦ if ltb 65535 p then throw invalid_argument else ok p
]

unfoldable pub count : ℕ → List ℕ → ℕ
count c [] = 0
count c (x ∷ xs) = if x == c then suc (count c xs) else count c xs

-- `[ipv6]:port?`
unfoldable pub bracketed : List ℕ → Outcome (List ℕ × ℕ)
unfolding parse_port
bracketed authority = elim (index_of b']' authority) [
  | none ↦ throw invalid_argument
  | some rb ↦
      let host = take (rb - 1) (drop 1 authority) in
      let port = parse_port (drop (rb + 2) authority) >>= λ p. ok (host, p) in
      if ltb (rb + 1) (length authority) && (get_or authority (rb + 1) 0 == b':')
      then port
      else ok (host, 0)
]

-- One colon comes before a port, several belong to an IPv6 address.
unfoldable pub plain : List ℕ → Outcome (List ℕ × ℕ)
unfolding parse_port count
plain authority =
    if count b':' authority == 1
    then elim (index_of b':' authority) [
      | none ↦ ok (authority, 0)
      | some pos ↦ parse_port (drop (pos + 1) authority) >>= λ p. ok (take pos authority, p)
    ]
    else ok (authority, 0)

unfoldable pub parse_host_port : List ℕ → Outcome (List ℕ × ℕ × Bool)
unfolding scheme
parse_host_port input =
    let (tls, s) = scheme input in
    let authority = authority_of s in
    (if starts_with (b'[' ∷ []) authority then bracketed authority else plain authority) >>= λ r.
    let (host, port) = r in
    if is_empty host
    then throw invalid_argument
    else ok (host, (if port == 0 then (if tls then 443 else 80) else port), tls)

unfoldable pub is_default_port : Bool → ℕ → Bool
is_default_port tls port = (not tls && (port == 80)) || (tls && (port == 443))

unfoldable pub is_bracketed : List ℕ → Bool
is_bracketed h = starts_with (b'[' ∷ []) h && (get_or h (length h - 1) 0 == b']')

unfoldable pub looks_like_ipv6 : List ℕ → Bool
unfolding is_bracketed
looks_like_ipv6 h = is_bracketed h || elim (index_of b':' h) [ none ↦ false | some i ↦ true ]

unfoldable pub bracket_if_ipv6 : List ℕ → List ℕ
unfolding is_bracketed looks_like_ipv6
bracket_if_ipv6 host =
    if leb 2 (length host) && is_bracketed host
    then host
    else if looks_like_ipv6 host
    then b'[' ∷ host ++ b']' ∷ []
    else host

-- The URL from the first slash after the scheme on.
unfoldable pub extract_path : List ℕ → List ℕ
extract_path url =
    let start : ℕ = elim (find (codes "://") url) [ none ↦ 0 | some scheme_pos ↦ scheme_pos + 3 ] in
    elim (index_of b'/' (drop start url)) [ none ↦ b'/' ∷ [] | some i ↦ drop (start + i) url ]

unfoldable pub make_http_request : List ℕ → List ℕ → List ℕ
make_http_request path host_header =
    codes "GET "
    ++ path
    ++ codes " HTTP/1.1\r\nHost: "
    ++ host_header
    ++ codes "\r\nUser-Agent: SimpleSocket/1.0\r\nAccept: */*\r\nAccept-Encoding: identity\r\n"
    ++ codes "Connection: close\r\n\r\n"
