-- ===== src/Http/Headers.antt =====
-- `parseHeaders` of src/simple_socket/http/SimpleHttpFetcher.cpp.
pub mod Lines
use simple_socket.Prelude.{
  ℕ, zero, suc, ◌+◌, ◌<◌, Bool, true, false, Option, none, some, List, [], ◌∷◌, if◌then◌else◌,
  length, take, drop,
}
use simple_socket.Text.{Map, put, nothing, find, index_of, is_empty, trim, to_lower, crlf}

-- `h[name] = value` for a line with a colon.
unfoldable pub add_header : Map (List ℕ) → List ℕ → Map (List ℕ)
add_header h line = elim (index_of b':' line) [
  | none ↦ h
  | some colon ↦ put h (to_lower (trim (take colon line))) (trim (drop (colon + 1) line))
]

-- The lines from `pos` on, here the list `rest`. Each round takes two bytes at least.
unfoldable pub header_lines : ℕ → List ℕ → Map (List ℕ) → Map (List ℕ)
unfolding add_header
header_lines zero rest h = h
header_lines (suc fuel) rest h = elim (find crlf rest) [
  | none ↦ if is_empty rest then h else add_header h rest
  | some nl ↦
      let more = header_lines fuel (drop (nl + 2) rest) (add_header h (take nl rest)) in
      if is_empty (take nl rest) then h else more
]

unfoldable pub parse_headers : List ℕ → Map (List ℕ)
unfolding header_lines
parse_headers header_block = elim (find crlf header_block) [
  | none ↦ nothing
  | some eol ↦ header_lines (length header_block) (drop (eol + 2) header_block) nothing
]
