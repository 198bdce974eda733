-- ===== src/Connection/Segments.antt =====
-- A concrete stream: what the peer sent, cut into segments as the network delivered them. A read
-- takes from the first segment that has bytes, and leaves the rest of it.
use simple_socket.Prelude.{
  ℕ, zero, suc, ◌≤◌, ◌<◌, ◌≡◌, refl, sym, ap, ◌∙◌, List, [], ◌∷◌, ◌++◌, length, take, drop,
  length-take, take-append-drop, append_assoc, arith,
}
use simple_socket.Connection.{Reader, IsStream}

abbrev pub joined : List (List ℕ) → List ℕ
joined [] = []
joined (s ∷ ss) = s ++ joined ss

unfoldable pub read_segments : List (List ℕ) → ℕ → List ℕ × List (List ℕ)
read_segments [] n = ([], [])
read_segments ([] ∷ ss) n = read_segments ss n
read_segments ((b ∷ bs) ∷ ss) n = (take n (b ∷ bs), drop n (b ∷ bs) ∷ ss)

abbrev pub segments : Reader (List (List ℕ))
segments = record { read = read_segments }

abbrev pub Any : List (List ℕ) → Type 0
Any ss = Unit {0}

segments_bounded : (ss : List (List ℕ)) (n : ℕ) → length (read_segments ss n).0 ≤ n
unfolding read_segments
segments_bounded [] n = omega arith
segments_bounded ([] ∷ ss) n = segments_bounded ss n
segments_bounded ((b ∷ bs) ∷ ss) n = omega (arith, length-take n (b ∷ bs))

segments_in_order :
    (ss : List (List ℕ)) (n : ℕ)
    → joined ss ≡ (read_segments ss n).0 ++ joined (read_segments ss n).1
unfolding read_segments
segments_in_order [] n = refl
segments_in_order ([] ∷ ss) n = segments_in_order ss n
segments_in_order ((b ∷ bs) ∷ ss) n =
    ap (λ xs. xs ++ joined ss) (sym (take-append-drop n (b ∷ bs)))
    ∙ append_assoc (take n (b ∷ bs)) (drop n (b ∷ bs)) (joined ss)

segments_end : (ss : List (List ℕ)) (n : ℕ) → 0 < n → (read_segments ss n).0 ≡ [] → joined ss ≡ []
unfolding read_segments
segments_end [] n h e = refl
segments_end ([] ∷ ss) n h e = segments_end ss n h e
segments_end ((b ∷ bs) ∷ ss) zero h e = absurd (omega arith)
segments_end ((b ∷ bs) ∷ ss) (suc n) h e = cc

pub segments-IsStream : IsStream segments joined Any
segments-IsStream = record {
  keeps = λ ss n v. tt;
  bounded = λ ss n v. segments_bounded ss n;
  in_order = λ ss n v. segments_in_order ss n;
  ends = λ ss n v. segments_end ss n;
}
