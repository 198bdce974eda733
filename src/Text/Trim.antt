-- ===== src/Text/Trim.antt =====
-- Laws of `trim`.
use simple_socket.Prelude.{ℕ, ◌≡◌, refl, ap, ◌∙◌, false, List, [], ◌∷◌, All}
use simple_socket.Text.{is_space, ltrim, rtrim, trim}

-- No byte of the text is white space.
abbrev pub NoSpace : List ℕ → Type 0
NoSpace s = All (λ c. is_space c ≡ false) s

rtrim-NoSpace : (s : List ℕ) → NoSpace s → rtrim s ≡ s
unfolding rtrim
rtrim-NoSpace [] h = refl
rtrim-NoSpace (c ∷ s) (hc, h) = rw (hc, rtrim, rtrim-NoSpace s h) refl

ltrim-NoSpace : (s : List ℕ) → NoSpace s → ltrim s ≡ s
unfolding ltrim
ltrim-NoSpace [] h = refl
ltrim-NoSpace (c ∷ s) (hc, h) = rw (hc, ltrim) refl

pub trim-NoSpace : (s : List ℕ) → NoSpace s → trim s ≡ s
unfolding trim
trim-NoSpace s h = ap rtrim (ltrim-NoSpace s h) ∙ rtrim-NoSpace s h

pub trim_space : (s : List ℕ) → trim (b' ' ∷ s) ≡ trim s
unfolding trim ltrim is_space
trim_space s = refl
