-- ===== src/Tests/Streams.antt =====
-- include/simple_socket/SimpleConnection.hpp over a stream of segments.
use simple_socket.Prelude.{ℕ, List, [], ◌∷◌}
use simple_socket.Connection.{read_exact}
use simple_socket.Connection.Exact.{Delivers, read_exact-Delivers}
use simple_socket.Connection.Segments.{segments, joined, Any, segments-IsStream}

abbrev three_segments : List (List ℕ)
three_segments = (1 ∷ 2 ∷ []) ∷ [] ∷ (3 ∷ 4 ∷ []) ∷ []

read_exact-Delivers_example :
    Delivers joined Any (1 ∷ 2 ∷ 3 ∷ 4 ∷ []) 3 (read_exact segments three_segments 3)
read_exact-Delivers_example = read_exact-Delivers segments-IsStream three_segments 3 tt
