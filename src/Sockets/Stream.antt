-- ===== src/Sockets/Stream.antt =====
-- src/simple_socket/SocketConnection.hpp: a connected socket as a `SimpleConnection`.
use simple_socket.Connection.{Reader, IsStream}
use simple_socket.Prelude.{
  ℕ, ◌≤◌, ◌<◌, ◌≡◌, refl, sym, ◌∙◌, Bool, true, false, Option, none, some, List, [], ◌∷◌, ◌++◌,
  length, arith,
}

-- What `::read` and `::write` return: the bytes read, or the number of those taken; or an error.
pub data Readout : Type 0 where
  bytes : List ℕ → Readout
  read_error : Readout

pub data Written : Type 0 where
  took : ℕ → Written
  write_error : Written

pub record System (S : Type 0) : Type 0 where
  pub system_read : S → ℕ → Readout × S
  pub system_write : S → List ℕ → Written × S

-- What the system documents for a socket in blocking mode: `pending s` are the bytes that still
-- come before the end of the stream, or an error.
pub record IsSystem {S : Type 0} (o : System S) (pending : S → List ℕ) : Type 0 where
  pub gives :
      (s : S) (n : ℕ) (bs : List ℕ)
      → (o.system_read s n).0 ≡ bytes bs
      → (length bs ≤ n) × (pending s ≡ bs ++ pending (o.system_read s n).1)
  pub gives_none : (s : S) (n : ℕ) → 0 < n → (o.system_read s n).0 ≡ bytes [] → pending s ≡ []
  pub fails :
      (s : S) (n : ℕ)
      → (o.system_read s n).0 ≡ read_error
      → (pending s ≡ []) × (pending (o.system_read s n).1 ≡ [])

module _ {S : Type 0} (o : System S) where
  -- `none` stands for -1: for an error, and for the end of the stream as well.
  unfoldable pub read : S → ℕ → Option (List ℕ) × S
  read s n =
      let (r, s') = o.system_read s n in
      elim r [
        | bytes bs ↦ elim bs [ [] ↦ (none, s') | b ∷ rest ↦ (some (b ∷ rest), s') ]
        | read_error ↦ (none, s')
      ]

  -- Any number of bytes taken is a success.
  unfoldable pub write : S → List ℕ → Bool × S
  write s buf =
      let (r, s') = o.system_write s buf in
      elim r [ took n ↦ (true, s') | write_error ↦ (false, s') ]

  unfoldable pub arrived : Option (List ℕ) × S → List ℕ × S
  arrived (none, s) = ([], s)
  arrived (some bs, s) = (bs, s)

  unfoldable pub socket : Reader S
  socket = record { read = λ s n. arrived (read s n) }

module _ {S : Type 0} {o : System S} {pending : S → List ℕ} (system : IsSystem o pending) where
  -- What one read gives, in one statement.
  abbrev Gives : List ℕ → ℕ → List ℕ × S → Type 0
  Gives before n (got, s) =
      (length got ≤ n) × (before ≡ got ++ pending s) × (0 < n → got ≡ [] → before ≡ [])

  read_next :
      (s : S) (n : ℕ) (r : Readout) (next : Option (List ℕ))
      → (o.system_read s n).0 ≡ r
      → (elim r as (λ _. Option (List ℕ)) [
        | bytes bs ↦ elim bs [ [] ↦ none | b ∷ rest ↦ some (b ∷ rest) ]
        | read_error ↦ none
      ])
        ≡ next
      → read o s n ≡ (next, (o.system_read s n).1)
  unfolding read
  read_next s n (bytes []) next e h = rw (e, read, ← h) refl
  read_next s n (bytes (b ∷ bs)) next e h = rw (e, read, ← h) refl
  read_next s n read_error next e h = rw (e, read, ← h) refl

  read-Gives :
      (s : S) (n : ℕ) (r : Readout)
      → (o.system_read s n).0 ≡ r
      → Gives (pending s) n (arrived o (read o s n))
  unfolding arrived
  read-Gives s n (bytes []) e =
      let (fits, order) = system.gives s n [] e in
      rw (read_next s n (bytes []) none e refl, arrived)
        (omega arith, order, λ some_room nothing. system.gives_none s n some_room e)
  read-Gives s n (bytes (b ∷ bs)) e =
      let (fits, order) = system.gives s n (b ∷ bs) e in
      rw (read_next s n (bytes (b ∷ bs)) (some (b ∷ bs)) e refl, arrived)
        (fits, order, λ some_room nothing. absurd (ground (arith, nothing)))
  read-Gives s n read_error e =
      let (before, after) = system.fails s n e in
      rw (read_next s n read_error none e refl, arrived)
        (omega arith, before ∙ sym after, λ some_room nothing. before)

  -- A socket is a byte stream: what `readExact` and the protocols on it rely on.
  pub socket-IsStream : IsStream (socket o) pending (λ s. Unit {0})
  unfolding socket
  socket-IsStream = record {
    keeps = λ s n v. tt;
    bounded = λ s n v. (read-Gives s n (o.system_read s n).0 refl).0;
    in_order = λ s n v. (read-Gives s n (o.system_read s n).0 refl).1;
    ends = λ s n v. (read-Gives s n (o.system_read s n).0 refl).2;
  }
