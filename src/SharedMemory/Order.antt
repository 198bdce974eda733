-- ===== src/SharedMemory/Order.antt =====
-- The semaphores keep the two sides apart, and the messages in order.
use simple_socket.Prelude.{
  ℕ, ◌+◌, ◌≤◌, ◌<◌, ◌≡◌, refl, sym, ap, ◌∙◌, Bool, true, false, ◌&&◌, Option, List, [], ◌∷◌, ◌++◌,
  append-nil, if◌then◌else◌, ltb, length, length-append, arith,
}
use simple_socket.SharedMemory.{Channel, created, Event, Enabled, read_result, step, Reaches}

abbrev count : Bool → ℕ
count b = if b then 1 else 0

-- The reads of some messages, one after the other.
abbrev pub read_results : List (List ℕ) → List ℕ → List (Option (List ℕ))
read_results [] sizes = []
read_results (m ∷ ms) [] = []
read_results (m ∷ ms) (size ∷ sizes) = read_result m size ∷ read_results ms sizes

read_results-append :
    (ms : List (List ℕ)) (m : List ℕ) (sizes : List ℕ) (size : ℕ)
    → length ms ≡ length sizes
    → read_results (ms ++ m ∷ []) (sizes ++ size ∷ [])
      ≡ read_results ms sizes ++ read_result m size ∷ []
read_results-append [] m [] size e = refl
read_results-append [] m (s ∷ sizes) size e = absurd (omega arith)
read_results-append (x ∷ ms) m [] size e = absurd (omega arith)
read_results-append (x ∷ ms) m (s ∷ sizes) size e =
    ap (λ r. read_result x s ∷ r) (read_results-append ms m sizes size (omega arith))

-- The message that is in the buffer and has not been read yet.
abbrev held : Channel → List (List ℕ)
held c = if c.is_reading then c.contents ∷ [] else if ltb 0 c.read_sem then c.contents ∷ [] else []

-- One token goes round; what was written is what was read, and then what the buffer holds.
record IsOrdered (c : Channel) : Type 0 where
  one_token : c.write_sem + c.read_sem + count c.is_writing + count c.is_reading ≡ 1
  done : List (List ℕ)
  history : c.written ≡ done ++ held c
  measured : length done ≡ length c.sizes
  as_read : c.results ≡ read_results done c.sizes

-- What the buffer holds, by who is inside.
writer_alone : (c : Channel) → IsOrdered c → c.is_writing ≡ true → held c ≡ []
writer_alone c i h = ground (arith, h, i.one_token)

held_ready : (c : Channel) → c.is_reading ≡ false → 0 < c.read_sem → held c ≡ c.contents ∷ []
held_ready c h h' = ground (arith, h, h')

held_read : (c : Channel) → c.is_reading ≡ true → held c ≡ c.contents ∷ []
held_read c h = ground (arith, h)

held_after :
    (c : Channel) (msg : List ℕ)
    → IsOrdered c
    → c.is_writing ≡ true
    → held (step c (Event.write_leaves msg)) ≡ msg ∷ []
unfolding step
held_after c msg i h = ground (arith, h, i.one_token)

nothing_held :
    (c : Channel) (size : ℕ)
    → IsOrdered c
    → c.is_reading ≡ true
    → held (step c (Event.read_leaves size)) ≡ []
unfolding step
nothing_held c size i h = ground (arith, h, i.one_token)

step-IsOrdered :
    (buffer_size : ℕ) (c : Channel) (e : Event)
    → IsOrdered c
    → Enabled buffer_size c e
    → IsOrdered (step c e)
unfolding step Enabled
step-IsOrdered n c Event.write_enters i h = record {
  one_token = ground (arith, h.0, h.1, i.one_token);
  done = i.done;
  history = i.history;
  measured = i.measured;
  as_read = i.as_read;
}
step-IsOrdered n c (Event.write_leaves msg) i h = record {
  one_token = ground (arith, h.0, h.1, i.one_token);
  done = i.done;
  history =
      ap (λ w. w ++ msg ∷ [])
        (i.history ∙ ap (λ x. i.done ++ x) (writer_alone c i h.0) ∙ append-nil i.done)
      ∙ ap (λ x. i.done ++ x) (sym (held_after c msg i h.0));
  measured = i.measured;
  as_read = i.as_read;
}
step-IsOrdered n c Event.read_enters i h = record {
  one_token = ground (arith, h.0, h.1, i.one_token);
  done = i.done;
  history = i.history ∙ ap (λ x. i.done ++ x) (held_ready c h.0 h.1);
  measured = i.measured;
  as_read = i.as_read;
}
step-IsOrdered n c (Event.read_leaves size) i h = record {
  one_token = ground (arith, h.0, h.1, i.one_token);
  done = i.done ++ c.contents ∷ [];
  history =
      i.history
      ∙ ap (λ x. i.done ++ x) (held_read c h.0)
      ∙ sym (append-nil (i.done ++ c.contents ∷ []))
      ∙ ap (λ x. (i.done ++ c.contents ∷ []) ++ x) (sym (nothing_held c size i h.0));
  measured = omega (
    arith,
    i.measured,
    length-append i.done (c.contents ∷ []),
    length-append c.sizes (size ∷ []),
  );
  as_read =
      ap (λ r. r ++ read_result c.contents size ∷ []) i.as_read
      ∙ sym (read_results-append i.done c.contents c.sizes size i.measured);
}

Reaches-IsOrdered : (n : ℕ) (c : Channel) → Reaches n c → IsOrdered c
unfolding created
Reaches-IsOrdered n c Reaches.start = record {
  one_token = refl;
  done = [];
  history = refl;
  measured = refl;
  as_read = refl;
}
Reaches-IsOrdered n c (Reaches.next c' e steps h) =
    step-IsOrdered n c' e (Reaches-IsOrdered n c' steps) h

-- In every order of the events of the two processes: the writer and the reader are never both inside,
-- so the buffer and its size are never written and read at once.
pub never_both : (n : ℕ) (c : Channel) → Reaches n c → (c.is_writing && c.is_reading) ≡ false
never_both n c steps = ground (arith, (Reaches-IsOrdered n c steps).one_token)

-- In every order of the events: the reads are those of the messages in the order they were written,
-- one each, without a gap or a repetition, and at most one message is written and not yet read. A
-- read whose buffer is smaller than its message gives -1, and the message is gone.
pub reads_in_order :
    (n : ℕ) (c : Channel)
    → Reaches n c
    → (done : List (List ℕ)) × (rest : List (List ℕ)) × (c.written ≡ done ++ rest)
      × (length rest ≤ 1)
      × (length done ≡ length c.sizes)
      × (c.results ≡ read_results done c.sizes)
reads_in_order n c steps =
    let i = Reaches-IsOrdered n c steps in
    (i.done, held c, i.history, ground arith, i.measured, i.as_read)
