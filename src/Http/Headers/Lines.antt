-- ===== src/Http/Headers/Lines.antt =====
-- `parseHeaders` on a block that is made of lines.
use simple_socket.Http.Headers.{add_header, header_lines, parse_headers}
use simple_socket.Prelude.{
  ℕ, zero, suc, ◌<◌, ◌≡◌, refl, ap, ◌∙◌, List, [], ◌∷◌, ◌++◌, length, All, length-append,
  append-nil, take-append_left, arith,
}
use simple_socket.Text.Lines.{
  NoNewline, IsLine, lines_text, find-crlf, find_no_line, drop_line, line_not_empty,
}
use simple_socket.Text.{Map, nothing}

-- The lines one after the other, so that a later header replaces an earlier one of its name.
abbrev pub headers_of : List (List ℕ) → Map (List ℕ) → Map (List ℕ)
headers_of [] h = h
headers_of (l ∷ ls) h = headers_of ls (add_header h l)

last_line :
    (l : List ℕ) (h : Map (List ℕ)) (fuel : ℕ)
    → IsLine l
    → header_lines (suc fuel) l h ≡ add_header h l
unfolding header_lines
last_line l h fuel (ne, hl) = rw (find_no_line [] l hl, header_lines, line_not_empty l ne) refl

header_lines-headers_of :
    (l : List ℕ) (ls : List (List ℕ)) (h : Map (List ℕ)) (fuel : ℕ)
    → IsLine l
    → All IsLine ls
    → length (l ++ lines_text ls []) < fuel
    → header_lines fuel (l ++ lines_text ls []) h ≡ headers_of (l ∷ ls) h
unfolding header_lines
header_lines-headers_of l ls h zero hl hs enough = absurd (omega arith)
header_lines-headers_of l [] h (suc fuel) hl hs enough =
    ap (λ t. header_lines (suc fuel) t h) (append-nil l) ∙ last_line l h fuel hl
header_lines-headers_of l (k ∷ ks) h (suc fuel) (ne, hl) (hk, hs) enough =
    let rest = k ++ lines_text ks [] in
    rw
      (
        find-crlf l rest hl,
        header_lines,
        take-append_left l (b'\r' ∷ b'\n' ∷ rest),
        line_not_empty l ne,
        drop_line l rest,
      )
      (header_lines-headers_of k ks (add_header h l) fuel hk hs
        (omega (arith, length-append l (b'\r' ∷ b'\n' ∷ rest))))

pub parse_headers-headers_of :
    (status : List ℕ) (ls : List (List ℕ))
    → NoNewline status
    → All IsLine ls
    → parse_headers (status ++ lines_text ls []) ≡ headers_of ls nothing
unfolding parse_headers
parse_headers-headers_of status [] h hs =
    ap parse_headers (append-nil status) ∙ rw (find_no_line [] status h, parse_headers) refl
parse_headers-headers_of status (l ∷ ls) h (hl, hs) =
    let rest = l ++ lines_text ls [] in
    rw (find-crlf status rest h, parse_headers, drop_line status rest)
      (header_lines-headers_of l ls nothing (length (status ++ b'\r' ∷ b'\n' ∷ rest)) hl hs
        (omega (arith, length-append status (b'\r' ∷ b'\n' ∷ rest))))
