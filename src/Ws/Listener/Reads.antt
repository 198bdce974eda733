-- ===== src/Ws/Listener/Reads.antt =====
-- The whole of `listen`: over any way to cut the bytes into reads.
use simple_socket.Connection.Segments.{joined}
use simple_socket.Prelude.{
  ℕ, ◌≡◌, refl, sym, ap, ◌∙◌, true, false, List, [], ◌∷◌, append-nil, Bool-cases, inl, inr, Outcome,
  ok, throw, fault, ◌>>=◌,
}
use simple_socket.Ws.Frames.{Role}
use simple_socket.Ws.Listener.{Listener, receive, listen}
use simple_socket.Ws.Listener.Segments.{outcome_seen, receive-append}

bind_seen :
    (m : Outcome Listener) (f g : Listener → Outcome Listener)
    → ((l : Listener) → outcome_seen (f l) ≡ outcome_seen (g l))
    → outcome_seen (m >>= f) ≡ outcome_seen (m >>= g)
bind_seen (ok l) f g h = h l
bind_seen (throw e) f g h = refl
bind_seen fault f g h = refl

bind_ok : (m : Outcome Listener) → (m >>= λ l. ok l) ≡ m
bind_ok (ok l) = refl
bind_ok (throw e) = refl
bind_ok fault = refl

module _ (role : Role) (random : List (List ℕ) → List ℕ) where
  receive_shut : (l : Listener) (got : List ℕ) → l.is_shut ≡ true → receive role random l got ≡ ok l
  unfolding receive
  receive_shut l got e = rw (e, receive) refl

  listen_shut :
      (l : Listener) (reads : List (List ℕ)) → l.is_shut ≡ true → listen role random l reads ≡ ok l
  unfolding listen
  listen_shut l [] e = refl
  listen_shut l (got ∷ later) e = rw (receive_shut l got e) (listen_shut l later e)

  -- However the bytes are cut into reads, `listen` leaves what one read of all of them does: the same
  -- messages delivered, in the same order, the same frames written, the same part of a message kept, and
  -- the same exception if there is one. The bytes left over are the same too, unless the connection is
  -- shut. It is about a connection that is not shut before, and one read at least.
  pub listen-joined :
      (later : List (List ℕ)) (l : Listener) (got : List ℕ)
      → l.is_shut ≡ false
      → outcome_seen (listen role random l (got ∷ later))
        ≡ outcome_seen (receive role random l (joined (got ∷ later)))
  unfolding listen
  listen-joined [] l got live =
      ap outcome_seen
        (bind_ok (receive role random l got) ∙ ap (receive role random l) (sym (append-nil got)))
  listen-joined (next ∷ later) l got live =
      bind_seen (receive role random l got) (λ k. listen role random k (next ∷ later))
        (λ k. receive role random k (joined (next ∷ later)))
        (λ k. elim (Bool-cases k.is_shut) [
          | inl shut ↦ ap outcome_seen (
              listen_shut k (next ∷ later) shut ∙ sym (receive_shut k (joined (next ∷ later)) shut))
          | inr on ↦ listen-joined later k next on
        ])
      ∙ sym (receive-append role random l got (joined (next ∷ later)) live)
