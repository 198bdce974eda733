-- ===== src/Tests/Servers.antt =====
-- The WebSocket server on a small run.
use simple_socket.Connection.Segments.{segments, read_segments}
use simple_socket.Prelude.{ℕ, ◌+◌, length, false, ◌≡◌, refl, none, some, List, [], ◌∷◌, ok}
use simple_socket.Tests.Handshake.{asked, generate, write, cut}
use simple_socket.Text.Numbers.{to_string}
use simple_socket.Text.{codes, find, index_of, trim, is_space, lower}
use simple_socket.Ws.Handshake.{
  handshake, read_http_header_block, header_rounds, parse_http_headers, header_block, get_lines,
  add_fields, add_field, pop_return, validate_server_handshake_request,
  validate_common_handshake_request, response, request,
}
use simple_socket.Ws.Lifetime.{send_text, close}
use simple_socket.Ws.Server.Closes.{AllClosed, taken, run-AllClosed}
use simple_socket.Ws.Server.Present.{AreSends, open_ones, present}
use simple_socket.Ws.Server.Run.{Hub, no_connections, Round, serve_round, serve_rounds, run}

-- `accept` throws, then a connection that is closed by its peer in the next round, in which another comes
-- that says something else than a request.
abbrev three_rounds : List (Round (List (List ℕ)))
three_rounds =
    record { conn = none; waiting = []; serving = [] }
    ∷ record { conn = some (cut asked); waiting = []; serving = (0, send_text (codes "hi")) ∷ [] }
    ∷ record { conn = some (codes "hello" ∷ []); waiting = (0, close false) ∷ []; serving = [] }
    ∷ []

abbrev unmasked : List (List ℕ) → List ℕ
unmasked written = 0 ∷ 0 ∷ 0 ∷ 0 ∷ []

-- A round in which `accept` throws.
abbrev failing : Round (List (List ℕ))
failing = record { conn = none; waiting = []; serving = (0, send_text (codes "yo")) ∷ [] }

run-AllClosed_example :
    (before : Hub) × (next : Hub) × (after : Hub) × (serve_rounds unmasked segments write generate
        no_connections three_rounds
      ≡ ok before)
    × (serve_round unmasked segments write generate before failing ≡ ok next)
    × (next.connections
        ≡ open_ones unmasked (present unmasked segments write generate before failing))
    × (AreSends unmasked failing.waiting
        → AreSends unmasked failing.serving
        → length next.connections ≡ length before.connections + 0)
    × (run unmasked segments write generate three_rounds ≡ ok after)
    × AllClosed unmasked (taken unmasked segments write generate three_rounds) after
run-AllClosed_example = run-AllClosed unmasked segments write generate three_rounds failing

-- Only the second makes a connection.
one_of_three : taken unmasked segments write generate three_rounds ≡ 1
unfolding handshake read_http_header_block header_rounds parse_http_headers header_block get_lines
    add_fields add_field pop_return validate_server_handshake_request
    validate_common_handshake_request response find read_segments request to_string index_of trim
    is_space lower
one_of_three = refl
