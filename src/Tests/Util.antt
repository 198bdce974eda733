-- ===== src/Tests/Util.antt =====
-- Runs of the utilities, the transports and the lifetime of a WebSocket connection.
use simple_socket.Prelude.{ℕ, ◌≡◌, refl, Bool, true, false, some, [], ◌∷◌, ◌==◌}
use simple_socket.Text.Numbers.{stoul, number, magnitude, scan, digit, sign, skip_prefix}
use simple_socket.Text.{codes, lower, ltrim, is_space}
use simple_socket.Util.Ports.{Search, get_available_port, port_loop, is_excluded}

-- Only port 8082 is free.
abbrev one_free : ℕ → Bool
one_free p = p == 8082

finds : get_available_port one_free (8080 ∷ []) 10 true 8080 8085 ≡ Search.found 8082
unfolding get_available_port port_loop is_excluded
finds = refl

abbrev nothing_free : ℕ → Bool
nothing_free p = false

port_8080 : stoul 10 (codes "8080") ≡ some 8080
unfolding stoul number magnitude scan digit sign skip_prefix ltrim lower is_space
port_8080 = refl
