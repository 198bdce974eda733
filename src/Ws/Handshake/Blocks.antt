-- ===== src/Ws/Handshake/Blocks.antt =====
-- `parseHttpHeaders` on a block of lines.
use simple_socket.Http.Headers.Lines.{headers_of}
use simple_socket.Http.Headers.{add_header}
use simple_socket.Prelude.{
  ℕ, ◌≡◌, ◌≢◌, refl, ap, ◌∙◌, List, [], ◌∷◌, ◌++◌, append-nil, All, ok, arith,
}
use simple_socket.Text.Lines.{NoNewline, IsLine, lines_text}
use simple_socket.Text.{Map, nothing}
use simple_socket.Ws.Handshake.{
  get_lines, pop_return, add_field, add_fields, header_block, parse_http_headers,
}

-- A header line as the protocols write it.
abbrev pub IsField : List ℕ → Type 0
IsField l = IsLine l × All (λ c. c ≢ b'\r') l

add_field-add_header : (h : Map (List ℕ)) (l : List ℕ) → add_field h l ≡ add_header h l
unfolding add_field add_header
add_field-add_header h l = refl

pop_return-return : (l : List ℕ) → pop_return (l ++ b'\r' ∷ []) ≡ l
unfolding pop_return
pop_return-return [] = refl
pop_return-return (x ∷ []) = ground (arith, pop_return-return [])
pop_return-return (x ∷ y ∷ l) = ground (arith, pop_return-return (y ∷ l))

pop_return_plain : (l : List ℕ) → All (λ c. c ≢ b'\r') l → pop_return l ≡ l
unfolding pop_return
pop_return_plain [] h = refl
pop_return_plain (x ∷ l) (hx, h) = ground (arith, hx, pop_return_plain l h)

get_lines_break :
    (l rest : List ℕ)
    → NoNewline l
    → get_lines (l ++ b'\r' ∷ b'\n' ∷ rest) ≡ (l ++ b'\r' ∷ []) ∷ get_lines rest
unfolding get_lines
get_lines_break [] rest h = refl
get_lines_break (x ∷ l) rest (hx, h) = ground (arith, hx, get_lines_break l rest h)

get_lines_last : (l : List ℕ) → IsLine l → get_lines l ≡ l ∷ []
unfolding get_lines
get_lines_last [] (ne, h) = absurd (ne refl)
get_lines_last (x ∷ []) (ne, (hx, h)) = ground (arith, hx)
get_lines_last (x ∷ y ∷ l) (ne, (hx, h)) =
    ground (arith, hx, get_lines_last (y ∷ l) ((λ e. absurd (ground (arith, e))), h))

-- The lines as `getline` gives them: each but the last has the return at its end.
abbrev got_lines : List ℕ → List (List ℕ) → List (List ℕ)
got_lines l [] = l ∷ []
got_lines l (k ∷ ks) = (l ++ b'\r' ∷ []) ∷ got_lines k ks

get_lines-got_lines :
    (l : List ℕ) (ls : List (List ℕ))
    → IsField l
    → All IsField ls
    → get_lines (l ++ lines_text ls []) ≡ got_lines l ls
get_lines-got_lines l [] (h, r) hs = ap get_lines (append-nil l) ∙ get_lines_last l h
get_lines-got_lines l (k ∷ ks) ((ne, h), r) (hk, hs) =
    get_lines_break l (k ++ lines_text ks []) h
    ∙ ap (◌∷◌ (l ++ b'\r' ∷ [])) (get_lines-got_lines k ks hk hs)

add_fields-headers_of :
    (l : List ℕ) (ls : List (List ℕ)) (m : Map (List ℕ))
    → IsField l
    → All IsField ls
    → add_fields (got_lines l ls) m ≡ headers_of (l ∷ ls) m
unfolding add_fields
add_fields-headers_of l [] m (h, r) hs =
    ap (add_field m) (pop_return_plain l r) ∙ add_field-add_header m l
add_fields-headers_of l (k ∷ ks) m (h, r) (hk, hs) =
    add_fields-headers_of k ks (add_field m (pop_return (l ++ b'\r' ∷ []))) hk hs
    ∙ ap (headers_of (k ∷ ks)) (ap (add_field m) (pop_return-return l) ∙ add_field-add_header m l)

pub parse_lines :
    (status : List ℕ) (ls : List (List ℕ)) (raw : List ℕ)
    → IsField status
    → All IsField ls
    → header_block raw ≡ status ++ lines_text ls []
    → parse_http_headers raw ≡ ok (record { start_line = status; headers = headers_of ls nothing })
unfolding parse_http_headers
parse_lines status [] raw (h, r) hs e =
    rw
      (
        e,
        get_lines-got_lines status [] (h, r) tt,
        parse_http_headers,
        pop_return_plain status r,
        add_fields,
      )
      refl
parse_lines status (l ∷ ls) raw h (hl, hs) e =
    rw
      (
        e,
        get_lines-got_lines status (l ∷ ls) h (hl, hs),
        parse_http_headers,
        pop_return-return status,
        add_fields-headers_of l ls nothing hl hs,
      )
      refl
