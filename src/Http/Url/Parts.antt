-- ===== src/Http/Url/Parts.antt =====
-- What `parseHostPort` and `extractPath` find in a URL, and what they promise for any text.
use simple_socket.Http.Url.{
  scheme, authority_of, parse_port, count, plain, parse_host_port, extract_path,
}
use simple_socket.Prelude.{
  ℕ, ◌≤◌, ◌<◌, ◌≡◌, ◌≢◌, refl, sym, ap, ◌∙◌, false, some, List, [], ◌∷◌, ◌++◌, ◌==◌, ltb, length,
  drop, All, ok, take-append_left, drop-append_left, drop-drop, append_assoc, All-weaken,
  All-append, arith,
}
use simple_socket.Text.Lines.{line_not_empty}
use simple_socket.Text.Numbers.{stoul}
use simple_socket.Text.{find, index_of, starts_with, codes}

-- The scheme of the URL of a plain server, a host, a port in digits, and a path.
abbrev pub url_text : List ℕ → List ℕ → List ℕ → List ℕ
url_text host digits path = codes "http://" ++ (host ++ b':' ∷ (digits ++ b'/' ∷ path))

-- No colon and no slash.
abbrev pub IsName : List ℕ → Type 0
IsName s = All (λ c. (c ≢ b':') × (c ≢ b'/') × (c ≢ b'[')) s

index_of_past :
    (c : ℕ) (xs ys : List ℕ) → All (λ x. x ≢ c) xs → index_of c (xs ++ c ∷ ys) ≡ some (length xs)
unfolding index_of
index_of_past c [] ys h = ground arith
index_of_past c (x ∷ xs) ys (hx, h) = ground (arith, hx, index_of_past c xs ys h)

count_none : (c : ℕ) (xs : List ℕ) → All (λ x. x ≢ c) xs → count c xs ≡ 0
unfolding count
count_none c [] h = refl
count_none c (x ∷ xs) (hx, h) = ground (arith, hx, count_none c xs h)

count_one :
    (c : ℕ) (xs ys : List ℕ)
    → All (λ x. x ≢ c) xs
    → All (λ x. x ≢ c) ys
    → count c (xs ++ c ∷ ys) ≡ 1
unfolding count
count_one c [] ys h k = ground (arith, count_none c ys k)
count_one c (x ∷ xs) ys (hx, h) k = ground (arith, hx, count_one c xs ys h k)

no_bracket :
    (host rest : List ℕ) → host ≢ [] → IsName host → starts_with (b'[' ∷ []) (host ++ rest) ≡ false
no_bracket [] rest ne h = absurd (ne refl)
no_bracket (x ∷ xs) rest ne (hx, h) = ground (arith, hx)

module _ (host digits path : List ℕ) (p : ℕ) (ne : host ≢ []) (name : IsName host)
    (numeric : All (λ c. (c ≢ b':') × (c ≢ b'/')) digits) (is : stoul 10 digits ≡ some p)
    (positive : 0 < p) (fits : p ≤ 65535) where
  no_colon : All (λ c. c ≢ b':') host
  no_colon = All-weaken _ (λ c. c ≢ b':') (λ c q. q.0) host name

  digits_no_colon : All (λ c. c ≢ b':') digits
  digits_no_colon = All-weaken _ (λ c. c ≢ b':') (λ c q. q.0) digits numeric

  authority_no_slash : All (λ c. c ≢ b'/') (host ++ b':' ∷ digits)
  authority_no_slash =
      All-append (λ c. c ≢ b'/') host (b':' ∷ digits)
        (All-weaken _ (λ c. c ≢ b'/') (λ c q. q.1) host name)
        ((λ e. omega arith), All-weaken _ (λ c. c ≢ b'/') (λ c q. q.1) digits numeric)

  regroup : host ++ b':' ∷ (digits ++ b'/' ∷ path) ≡ (host ++ b':' ∷ digits) ++ b'/' ∷ path
  regroup = sym (append_assoc host (b':' ∷ digits) (b'/' ∷ path))

  authority_is : authority_of (host ++ b':' ∷ (digits ++ b'/' ∷ path)) ≡ host ++ b':' ∷ digits
  unfolding authority_of
  authority_is =
      let authority = host ++ b':' ∷ digits in
      ap authority_of regroup
      ∙ rw (index_of_past b'/' authority path authority_no_slash, authority_of)
          (take-append_left authority (b'/' ∷ path))

  port_is : parse_port digits ≡ ok p
  unfolding parse_port
  port_is =
      let small : ltb 65535 p ≡ false = ground (arith, fits) in rw (is, parse_port, small) refl

  plain_is : plain (host ++ b':' ∷ digits) ≡ ok (host, p)
  unfolding plain
  plain_is =
      let rest = drop-drop (length host) 1 (host ++ b':' ∷ digits) in
      let tail = sym rest ∙ ap (drop 1) (drop-append_left host (b':' ∷ digits)) in
      rw
        (
          count_one b':' host digits no_colon digits_no_colon,
          plain,
          index_of_past b':' host digits no_colon,
          tail,
          port_is,
          take-append_left host (b':' ∷ digits),
        )
        refl

  parse_is : parse_host_port (url_text host digits path) ≡ ok (host, p, false)
  unfolding parse_host_port scheme
  parse_is =
      let not_zero : (p == 0) ≡ false = ground (arith, positive) in
      rw
        (
          authority_is,
          parse_host_port,
          no_bracket host (b':' ∷ digits) ne name,
          plain_is,
          line_not_empty host ne,
          not_zero,
        )
        refl

  path_is : extract_path (url_text host digits path) ≡ b'/' ∷ path
  unfolding extract_path find
  path_is =
      let authority = host ++ b':' ∷ digits in
      let at = ap (index_of b'/') regroup ∙ index_of_past b'/' authority path authority_no_slash in
      let rest = ap (drop (length authority)) regroup ∙ drop-append_left authority (b'/' ∷ path) in
      rw (at, extract_path)
        (sym (drop-drop 7 (length authority) (url_text host digits path)) ∙ rest)

  -- A URL with a plain scheme, a host name, a port from 1 to 65535 in digits and a path: the parts are
  -- found again, the path with its slash.
  pub parse_host_port-url_text :
      (parse_host_port (url_text host digits path) ≡ ok (host, p, false))
      × (extract_path (url_text host digits path) ≡ b'/' ∷ path)
  parse_host_port-url_text = (parse_is, path_is)
