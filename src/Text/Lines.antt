-- ===== src/Text/Lines.antt =====
-- Texts made of lines: where the searches for CRLF and for a blank line stop.
use simple_socket.Prelude.{
  ℕ, suc, ◌+◌, ◌<◌, ◌≡◌, ◌≢◌, refl, sym, ap, ◌∙◌, false, none, some, List, [], ◌∷◌, ◌++◌, length,
  take, drop, All, length-append, append_assoc, take-append_left, drop-append_left, drop-drop,
  arith,
}
use simple_socket.Text.{find, is_empty, starts_with, crlf, blank_line}

-- No byte of the text ends a line.
abbrev pub NoNewline : List ℕ → Type 0
NoNewline s = All (λ c. c ≢ b'\n') s

abbrev pub IsLine : List ℕ → Type 0
IsLine s = (s ≢ []) × NoNewline s

-- Each line after a CRLF, then `rest`.
abbrev pub lines_text : List (List ℕ) → List ℕ → List ℕ
lines_text [] rest = rest
lines_text (l ∷ ls) rest = b'\r' ∷ b'\n' ∷ l ++ lines_text ls rest

pub lines_text-append :
    (ls : List (List ℕ)) (xs ys : List ℕ) → lines_text ls (xs ++ ys) ≡ lines_text ls xs ++ ys
lines_text-append [] xs ys = refl
lines_text-append (l ∷ ls) xs ys =
    ap (λ t. b'\r' ∷ b'\n' ∷ t)
      (ap (◌++◌ l) (lines_text-append ls xs ys) ∙ sym (append_assoc l (lines_text ls xs) ys))

-- A search for a text that begins with CR LF passes over a line.
module _ (p : List ℕ) where
  not_here :
      (x : ℕ) (xs zs : List ℕ)
      → NoNewline xs
      → starts_with (b'\r' ∷ b'\n' ∷ p) (x ∷ xs ++ b'\r' ∷ zs) ≡ false
  not_here x [] zs h = ground arith
  not_here x (y ∷ ys) zs (hy, h) = ground (arith, hy)

  pub find_past_line :
      (xs zs : List ℕ) (i : ℕ)
      → NoNewline xs
      → find (b'\r' ∷ b'\n' ∷ p) (b'\r' ∷ zs) ≡ some i
      → find (b'\r' ∷ b'\n' ∷ p) (xs ++ b'\r' ∷ zs) ≡ some (length xs + i)
  unfolding find
  find_past_line [] zs i h e = let z : 0 + i ≡ i = omega arith in rw z e
  find_past_line (x ∷ xs) zs i (hx, h) e =
      rw (not_here x xs zs h, find_past_line xs zs i h e) (ground arith)

  pub find_no_line : (xs : List ℕ) → NoNewline xs → find (b'\r' ∷ b'\n' ∷ p) xs ≡ none
  unfolding find
  find_no_line [] h = refl
  find_no_line (x ∷ []) h = ground arith
  find_no_line (x ∷ y ∷ ys) (hx, (hy, h)) = ground (arith, hy, find_no_line (y ∷ ys) (hy, h))

-- The end of a line.
pub find-crlf :
    (xs rest : List ℕ) → NoNewline xs → find crlf (xs ++ b'\r' ∷ b'\n' ∷ rest) ≡ some (length xs)
unfolding find
find-crlf xs rest h =
    let z : length xs + 0 ≡ length xs = omega arith in
    find_past_line [] xs (b'\n' ∷ rest) 0 h (ground arith) ∙ ap some z

text_head :
    (ls : List (List ℕ)) (rest : List ℕ)
    → (zs : List ℕ) × (lines_text ls (blank_line ++ rest) ≡ b'\r' ∷ zs)
text_head [] rest = (b'\n' ∷ b'\r' ∷ b'\n' ∷ rest, refl)
text_head (l ∷ ls) rest = (b'\n' ∷ l ++ lines_text ls (blank_line ++ rest), refl)

line_break :
    (l zs : List ℕ) (i : ℕ)
    → IsLine l
    → find blank_line (l ++ b'\r' ∷ zs) ≡ some i
    → find blank_line (b'\r' ∷ b'\n' ∷ l ++ b'\r' ∷ zs) ≡ some (suc (suc i))
unfolding find
line_break [] zs i (ne, h) e = absurd (ne refl)
line_break (x ∷ []) zs i (ne, h) e = rw e (ground (arith, e))
line_break (x ∷ y ∷ ys) zs i (ne, (hx, (hy, h))) e = ground (arith, hy, e)

-- The blank line after the lines is found.
pub find-blank_line :
    (ls : List (List ℕ)) (rest : List ℕ)
    → All IsLine ls
    → find blank_line (lines_text ls (blank_line ++ rest)) ≡ some (length (lines_text ls []))
unfolding find
find-blank_line [] rest h = refl
find-blank_line (l ∷ ls) rest (hl, h) =
    let (zs, e) = text_head ls rest in
    let later =
      find_past_line (b'\r' ∷ b'\n' ∷ []) l zs _ hl.1
        (ap (find blank_line) (sym e) ∙ find-blank_line ls rest h) in
    rw e (
      line_break l zs _ hl later
      ∙ ap (λ n. some (suc (suc n))) (sym (length-append l (lines_text ls []))))

-- So does the search from within the first line.
pub find-blank_line_after :
    (first : List ℕ) (ls : List (List ℕ)) (rest : List ℕ)
    → NoNewline first
    → All IsLine ls
    → find blank_line (first ++ lines_text ls (blank_line ++ rest))
      ≡ some (length (first ++ lines_text ls []))
find-blank_line_after first ls rest h hs =
    let (zs, e) = text_head ls rest in
    let found = ap (find blank_line) (sym e) ∙ find-blank_line ls rest hs in
    rw e (find_past_line (b'\r' ∷ b'\n' ∷ []) first zs _ h found)
    ∙ ap some (sym (length-append first (lines_text ls [])))

-- The text splits there.
pub take_lines :
    (first : List ℕ) (ls : List (List ℕ)) (rest : List ℕ)
    → take (length (first ++ lines_text ls [])) (first ++ lines_text ls rest)
      ≡ first ++ lines_text ls []
take_lines first ls rest =
    rw (lines_text-append ls [] rest, ← append_assoc first (lines_text ls []) rest)
      (take-append_left (first ++ lines_text ls []) rest)

pub drop_lines :
    (first : List ℕ) (ls : List (List ℕ)) (rest : List ℕ)
    → drop (length (first ++ lines_text ls []) + 4) (first ++ lines_text ls (blank_line ++ rest))
      ≡ rest
drop_lines first ls rest =
    let block = first ++ lines_text ls [] in
    let whole : first ++ lines_text ls (blank_line ++ rest) ≡ block ++ (blank_line ++ rest) =
      ap (◌++◌ first) (lines_text-append ls [] (blank_line ++ rest))
      ∙ sym (append_assoc first (lines_text ls []) (blank_line ++ rest)) in
    ap (drop (length block + 4)) whole
    ∙ sym (drop-drop (length block) 4 (block ++ (blank_line ++ rest)))
    ∙ ap (drop 4) (drop-append_left block (blank_line ++ rest))

-- A line at the front splits off.
pub drop_line : (xs rest : List ℕ) → drop (length xs + 2) (xs ++ b'\r' ∷ b'\n' ∷ rest) ≡ rest
drop_line xs rest =
    sym (drop-drop (length xs) 2 (xs ++ b'\r' ∷ b'\n' ∷ rest))
    ∙ ap (drop 2) (drop-append_left xs (b'\r' ∷ b'\n' ∷ rest))

pub line_not_empty : (l : List ℕ) → l ≢ [] → is_empty l ≡ false
line_not_empty [] h = absurd (h refl)
line_not_empty (x ∷ l) h = refl

pub line_positive : (l : List ℕ) → l ≢ [] → 0 < length l
line_positive [] h = absurd (h refl)
line_positive (x ∷ l) h = omega arith
