-- ===== src/Ws/Listener/Segments.antt =====
-- How the transport cuts the bytes into reads makes no difference.
use simple_socket.Prelude.{
  ℕ, zero, suc, ◌<◌, ◌≡◌, refl, sym, ap, ◌∙◌, Bool, true, false, not, List, [], ◌++◌, append_assoc,
  if◌then◌else◌, length, length-append, Outcome, ok, ◌>>=◌, arith, ◌||◌, ◌==◌,
}
use simple_socket.Ws.Frames.{Role, Parsed, parse_frame}
use simple_socket.Ws.Frames.Extends.{is_more, followed, parse_frame-followed}
use simple_socket.Ws.Listener.{Listener, handle_frame, drain, receive}
use simple_socket.Ws.Frames.Leaves.{Leaves, parse_frame-Leaves}

-- What can be seen of a listener: once it is shut, not the bytes it has left over.
abbrev pub seen : Listener → Listener
seen l = if l.is_shut then record l { rx = [] } else l

abbrev pub outcome_seen : Outcome Listener → Outcome Listener
outcome_seen m = m >>= λ l. ok (seen l)

-- Equal but for the bytes that have arrived, which are `rx` in the first.
SameBut : List ℕ → Listener → Listener → Type 0
SameBut rx l l' = l ≡ record l' { rx = rx }

same_if :
    (rx : List ℕ) (b : Bool) (l l' k k' : Listener)
    → SameBut rx l l'
    → SameBut rx k k'
    → SameBut rx (if b then l else k) (if b then l' else k')
same_if rx true l l' k k' hl hk = hl
same_if rx false l l' k k' hl hk = hk

by_refl : (rx : List ℕ) (l : Listener) → SameBut rx (record l { rx = rx }) l
unfolding SameBut
by_refl rx l = refl

cleared :
    (rx : List ℕ) (l l' : Listener)
    → SameBut rx l l'
    → SameBut rx
        (record l { message = []; is_continued = false; start_opcode = 0 })
        (record l' { message = []; is_continued = false; start_opcode = 0 })
unfolding SameBut
cleared rx l l' h =
    ap (λ (x : Listener). record x { message = []; is_continued = false; start_opcode = 0 }) h

module _ (role : Role) (random : List (List ℕ) → List ℕ) where
  handle_frame_rx :
      (l : Listener) (rx : List ℕ) (fin : Bool) (op : ℕ) (chunk : List ℕ)
      → SameBut rx
          (handle_frame role random (record l { rx = rx }) fin op chunk)
          (handle_frame role random l fin op chunk)
  unfolding handle_frame
  handle_frame_rx l rx fin op chunk =
      let r = λ (x : Listener). by_refl rx x in
      same_if rx (op == 8) _ _ _ _ (r _) (
        same_if rx (op == 9) _ _ _ _ (r _) (
          same_if rx (op == 10) _ _ _ _ (r _) (
            same_if rx (op == 0) _ _ _ _
              (same_if rx (not l.is_continued) _ _ _ _ (r _) (
                same_if rx fin _ _ _ _
                  (cleared rx _ _
                    (same_if rx (l.start_opcode == 1 || l.start_opcode == 2) _ _ _ _ (r _) (r _)))
                  (r _)))
              (same_if rx (op == 1 || op == 2) _ _ _ _
                (same_if rx l.is_continued _ _ _ _ (r _) (same_if rx fin _ _ _ _ (r _) (r _)))
                (r _)))))

  rx_after_frame :
      (l : Listener) (rest : List ℕ) (fin : Bool) (op : ℕ) (chunk : List ℕ)
      → (handle_frame role random (record l { rx = rest }) fin op chunk).rx ≡ rest
  unfolding SameBut
  rx_after_frame l rest fin op chunk = ap (λ x. x.rx) (handle_frame_rx l rest fin op chunk)

  -- Enough fuel is enough.
  drain_fuel :
      (f f' : ℕ) (l : Listener)
      → length l.rx < f
      → length l.rx < f'
      → drain role random f l ≡ drain role random f' l
  unfolding drain Leaves
  drain_fuel zero f' l h h' = absurd (omega arith)
  drain_fuel (suc f) zero l h h' = absurd (omega arith)
  drain_fuel (suc f) (suc f') l h h' =
      step (drain_fuel f f') (parse_frame role l.rx) (parse_frame-Leaves role l.rx) refl
    where
      step :
          ((k : Listener)
            → length k.rx < f
            → length k.rx < f'
            → drain role random f k ≡ drain role random f' k)
          → (p : Parsed) → Leaves (length l.rx) p
          → parse_frame role l.rx ≡ p
          → drain role random (suc f) l ≡ drain role random (suc f') l
      step ih Parsed.more b e = rw (e, drain) refl
      step ih Parsed.violation b e = rw (e, drain) refl
      step ih Parsed.too_long b e = rw (e, drain) refl
      step ih (Parsed.frame fin op chunk rest) b e =
          let l' = handle_frame role random (record l { rx = rest }) fin op chunk in
          let left = rx_after_frame l rest fin op chunk in
          let bound : length l'.rx < length l.rx = rw left b in
          rw (e, drain)
            (ap (λ d. if l'.is_shut then ok l' else d) (ih l' (omega arith) (omega arith)))

  go_on :
      (f f' : ℕ) (k : Listener) (ys : List ℕ) (s : Bool)
      → k.is_shut ≡ s
      → (k.is_shut ≡ false
          → outcome_seen (drain role random f' (record k { rx = k.rx ++ ys }))
            ≡ outcome_seen (drain role random f k >>= λ l'. receive role random l' ys))
      → outcome_seen (
          if s
          then ok (record k { rx = k.rx ++ ys })
          else drain role random f' (record k { rx = k.rx ++ ys }))
        ≡ outcome_seen
            ((if s then ok k else drain role random f k) >>= λ l'. receive role random l' ys)
  unfolding receive
  go_on f f' k ys true e later = rw e refl
  go_on f f' k ys false e later = later e

  drain-append :
      (f f' : ℕ) (l : Listener) (ys : List ℕ)
      → l.is_shut ≡ false
      → length l.rx < f
      → length (l.rx ++ ys) < f'
      → outcome_seen (drain role random f' (record l { rx = l.rx ++ ys }))
        ≡ outcome_seen (drain role random f l >>= λ l'. receive role random l' ys)
  unfolding drain Leaves receive SameBut
  drain-append zero f' l ys live h h' = absurd (omega arith)
  drain-append (suc f) zero l ys live h h' = absurd (omega arith)
  drain-append (suc f) (suc f') l ys live h h' =
      step (λ k. drain-append f f' k ys) (parse_frame role l.rx) (parse_frame-Leaves role l.rx) refl
    where
      step :
          ((k : Listener)
            → k.is_shut ≡ false
            → length k.rx < f
            → length (k.rx ++ ys) < f'
            → outcome_seen (drain role random f' (record k { rx = k.rx ++ ys }))
              ≡ outcome_seen (drain role random f k >>= λ l'. receive role random l' ys))
          → (p : Parsed) → Leaves (length l.rx) p
          → parse_frame role l.rx ≡ p
          → outcome_seen (drain role random (suc f') (record l { rx = l.rx ++ ys }))
            ≡ outcome_seen (drain role random (suc f) l >>= λ l'. receive role random l' ys)
      step ih Parsed.more b e =
          rw (e, drain, live)
            (ap outcome_seen (
              drain_fuel (suc f') (suc (length (l.rx ++ ys))) (record l { rx = l.rx ++ ys }) h'
                (omega arith)))
      step ih Parsed.violation b e =
          let e' = parse_frame-followed role l.rx ys (ap is_more e) ∙ ap (λ p. followed p ys) e in
          rw (e, drain, e', drain) refl
      step ih Parsed.too_long b e =
          let e' = parse_frame-followed role l.rx ys (ap is_more e) ∙ ap (λ p. followed p ys) e in
          rw (e, drain, e', drain) refl
      step ih (Parsed.frame fin op chunk rest) b e =
          let e' = parse_frame-followed role l.rx ys (ap is_more e) ∙ ap (λ p. followed p ys) e in
          let l' = handle_frame role random (record l { rx = rest }) fin op chunk in
          let left = rx_after_frame l rest fin op chunk in
          let bound : length l'.rx < length l.rx = rw left b in
          let same : handle_frame role random (record l { rx = rest ++ ys }) fin op chunk
              ≡ record l' { rx = l'.rx ++ ys } =
            handle_frame_rx l (rest ++ ys) fin op chunk
            ∙ sym (
                ap (λ (x : Listener). record x { rx = rest ++ ys })
                  (handle_frame_rx l rest fin op chunk))
            ∙ ap (λ r. record l' { rx = r ++ ys }) (sym left) in
          rw (e, drain, e', drain, same)
            (go_on f f' l' ys l'.is_shut refl (λ on.
              ih l' on (omega arith)
                (omega (arith, length-append l'.rx ys, length-append l.rx ys))))

  pub receive_live :
      (l : Listener) (got : List ℕ)
      → l.is_shut ≡ false
      → receive role random l got
        ≡ drain role random (suc (length (l.rx ++ got))) (record l { rx = l.rx ++ got })
  unfolding receive
  receive_live l got live =
      ap
        (λ s.
          if s
          then ok l
          else drain role random (suc (length (l.rx ++ got))) (record l { rx = l.rx ++ got }))
        live

  -- Two reads, one after the other, leave a listener where one read of all their bytes does: the
  -- same messages delivered, in the same order, the same frames written, the same part of a message
  -- kept, and the same exception if there is one. The bytes left over are the same too, unless the
  -- connection is shut. So the frames may be cut at any byte. It is about a connection that is not
  -- shut before.
  pub receive-append :
      (l : Listener) (xs ys : List ℕ)
      → l.is_shut ≡ false
      → outcome_seen (receive role random l (xs ++ ys))
        ≡ outcome_seen (receive role random l xs >>= λ l'. receive role random l' ys)
  receive-append l xs ys live =
      let both =
        drain-append (suc (length (l.rx ++ xs))) (suc (length (l.rx ++ (xs ++ ys))))
          (record l { rx = l.rx ++ xs }) ys live (omega arith)
          (omega (
            arith,
            length-append l.rx xs,
            length-append xs ys,
            length-append l.rx (xs ++ ys),
            length-append (l.rx ++ xs) ys,
          )) in
      ap outcome_seen (
        receive_live l (xs ++ ys) live
        ∙ ap (λ rx. drain role random (suc (length (l.rx ++ (xs ++ ys)))) (record l { rx = rx }))
            (sym (append_assoc l.rx xs ys)))
      ∙ both
      ∙ ap (λ m. outcome_seen (m >>= λ l'. receive role random l' ys))
          (sym (receive_live l xs live))
