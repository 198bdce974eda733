-- ===== src/Ws/Client.antt =====
-- `WebSocketClient` of src/simple_socket/ws/WebSocketClient.cpp: the object from its construction to its
-- destructor. What `connect` does up to the connection is `connect` of Ws/Server; here it is what that comes
-- to: it goes through, it throws, or it dereferences the null pointer that a failed connection is.
use simple_socket.Prelude.{
  ◌+◌, ◌∙◌, ℕ, ◌≡◌, refl, Bool, true, false, Option, none, some, List, [], ◌∷◌, ◌++◌, Outcome, ok,
  throw, fault, ◌&&◌, ◌>>=◌, All, All-append, arith, length, length-append,
}
use simple_socket.Ws.Frames.{Role}
use simple_socket.Ws.Lifetime.{
  Link, Call, send_text, send_bytes, close, fresh_link, call, close_link, IsCounted, IsDone,
  closing, call-IsCounted,
}

-- `conn`, a null pointer until `connect` has gone through, and the connections that are destroyed.
pub record Client : Type 0 where
  pub conn : Option Link
  pub destroyed : List Link

unfoldable pub fresh_client : Client
fresh_client = record { conn = none; destroyed = [] }

pub data ClientCall : Type 0 where
  connects : Outcome (Unit {0}) → ClientCall
  sends sends_bytes : List ℕ → ClientCall
  closes : ClientCall

module _ (random : List (List ℕ) → List ℕ) where
  -- A call through the pointer.
  unfoldable pub through : Client → Call → Outcome Client
  through c x = elim c.conn [
    | none ↦ fault
    | some l ↦ ok (record c { conn = some (call Role.client random l x) })
  ]

  -- `reset` of a `unique_ptr`: what it held is destroyed.
  unfoldable pub release : Client → List Link
  release c = elim c.conn as (λ _. List Link) [
    | none ↦ c.destroyed
    | some l ↦ c.destroyed ++ close_link Role.client random l true ∷ []
  ]

  unfoldable pub client_call : Client → ClientCall → Outcome Client
  unfolding through release
  client_call c (connects (ok u)) = ok (record { conn = some fresh_link; destroyed = release c })
  client_call c (connects (throw e)) = ok c
  client_call c (connects fault) = fault
  client_call c (sends message) = through c (send_text message)
  client_call c (sends_bytes message) = through c (send_bytes message)
  client_call c closes = through c (close true)

  unfoldable pub client_calls : Client → List ClientCall → Outcome Client
  unfolding client_call
  client_calls c [] = ok c
  client_calls c (x ∷ xs) = client_call c x >>= λ c'. client_calls c' xs

  -- `~Impl` closes the connection, and its pointer destroys it.
  unfoldable pub destroy : Client → Outcome (List Link)
  unfolding through release
  destroy c = through c (close true) >>= λ c'. ok (release c')

  unfoldable pub client_lifetime : List ClientCall → Outcome (List Link)
  unfolding client_calls destroy fresh_client
  client_lifetime xs = client_calls fresh_client xs >>= destroy

  -- Whether all calls find a connection, from a client that has one or has none; the destructor is the
  -- last of them.
  abbrev pub is_served : Bool → List ClientCall → Bool
  is_served has [] = has
  is_served has (connects (ok u) ∷ xs) = is_served true xs
  is_served has (connects (throw e) ∷ xs) = is_served has xs
  is_served has (connects fault ∷ xs) = false
  is_served has (sends message ∷ xs) = has && is_served has xs
  is_served has (sends_bytes message ∷ xs) = has && is_served has xs
  is_served has (closes ∷ xs) = has && is_served has xs

  abbrev pub AreDone : List Link → Type 0
  AreDone ls = All (IsDone Role.client random) ls

  -- How many connections were made.
  abbrev pub connections : List ClientCall → ℕ
  connections [] = 0
  connections (connects (ok u) ∷ xs) = connections xs + 1
  connections (connects (throw e) ∷ xs) = connections xs
  connections (connects fault ∷ xs) = connections xs
  connections (sends message ∷ xs) = connections xs
  connections (sends_bytes message ∷ xs) = connections xs
  connections (closes ∷ xs) = connections xs

  -- With a connection, and the `n` before it closed.
  abbrev IsOpen : ℕ → Link → Client → Type 0
  IsOpen n l c =
      (c.conn ≡ some l)
      × IsCounted Role.client random l
      × AreDone c.destroyed
      × (length c.destroyed ≡ n)

  through-IsOpen :
      (c : Client) (n : ℕ) (l : Link) (x : Call)
      → IsOpen n l c
      → (c' : Client) × (through c x ≡ ok c') × IsOpen n (call Role.client random l x) c'
  unfolding through
  through-IsOpen c n l x (here, counted, done, many) = (
    record c { conn = some (call Role.client random l x) },
    rw here refl,
    (refl, call-IsCounted Role.client random l x counted, done, many),
  )

  -- `n` connections have been made, and each has been closed once.
  abbrev pub AreClosed : ℕ → List Link → Type 0
  AreClosed n ls = AreDone ls × (length ls ≡ n)

  release-AreClosed : (c : Client) (n : ℕ) (l : Link) → IsOpen n l c → AreClosed (n + 1) (release c)
  unfolding release
  release-AreClosed c n l (here, counted, done, many) =
      let last = close_link Role.client random l true ∷ [] in
      rw here (
        All-append (IsDone Role.client random) c.destroyed last done
            (closing Role.client random l true counted, tt),
        omega (arith, length-append c.destroyed last, many),
      )

  abbrev pub Closes : ℕ → Outcome (List Link) → Type 0
  Closes n m = (ls : List Link) × (m ≡ ok ls) × AreClosed n ls

  destroy-Closes : (c : Client) (n : ℕ) (l : Link) → IsOpen n l c → Closes (n + 1) (destroy c)
  unfolding destroy
  destroy-Closes c n l h =
      let (c', went, h') = through-IsOpen c n l (close true) h in
      (release c', rw went refl, release-AreClosed c' n _ h')

  recount : (n k : ℕ) (m : Outcome (List Link)) → n ≡ k → Closes n m → Closes k m
  recount n k m e (ls, ends, (done, many)) = (ls, ends, (done, many ∙ e))

  -- The rest of the calls, from a client with a connection or without.
  abbrev Ends : List ClientCall → Bool → ℕ → Outcome (List Link) → Type 0
  Ends xs has n m = (is_served has xs ≡ true → Closes n m) × (is_served has xs ≡ false → m ≡ fault)

  recount-Ends :
      (xs : List ClientCall) (has : Bool) (n k : ℕ) (m : Outcome (List Link))
      → n ≡ k
      → Ends xs has n m
      → Ends xs has k m
  recount-Ends xs has n k m e (fine, wrong) = ((λ t. recount n k m e (fine t)), wrong)

  calls-Ends :
      (xs : List ClientCall) (c : Client) (n : ℕ) (l : Link)
      → IsOpen n l c
      → Ends xs true (n + connections xs + 1) (client_calls c xs >>= destroy)
  unfolding client_calls client_call fresh_link
  calls-Ends [] c n l h = (
    λ t. recount (n + 1) (n + 0 + 1) (destroy c) (omega arith) (destroy-Closes c n l h),
    λ t. absurd (ground (arith, t)),
  )
  calls-Ends (connects (ok u) ∷ xs) c n l h =
      let c' : Client = record { conn = some fresh_link; destroyed = release c } in
      let (done, many) = release-AreClosed c n l h in
      recount-Ends xs true (n + 1 + connections xs + 1) (n + (connections xs + 1) + 1)
        (client_calls c' xs >>= destroy) (omega arith)
        (calls-Ends xs c' (n + 1) fresh_link (refl, (refl, refl), done, many))
  calls-Ends (connects (throw e) ∷ xs) c n l h = calls-Ends xs c n l h
  calls-Ends (connects fault ∷ xs) c n l h = ((λ t. absurd (ground (arith, t))), (λ t. refl))
  calls-Ends (sends message ∷ xs) c n l h =
      let (c', went, h') = through-IsOpen c n l (send_text message) h in
      rw went (calls-Ends xs c' n _ h')
  calls-Ends (sends_bytes message ∷ xs) c n l h =
      let (c', went, h') = through-IsOpen c n l (send_bytes message) h in
      rw went (calls-Ends xs c' n _ h')
  calls-Ends (closes ∷ xs) c n l h =
      let (c', went, h') = through-IsOpen c n l (close true) h in rw went (calls-Ends xs c' n _ h')

  -- What the life of a client comes to, whatever is called in it. Where each `send` and `close` comes after
  -- a `connect` that went through, and so does the destructor, and no `connect` gets a null pointer for a
  -- connection: nothing goes wrong, and when the client is destroyed, all connections that it made are, and
  -- each has been closed once, with one call of `onClose`. Otherwise a null pointer is dereferenced: by the
  -- call without a connection, by the destructor, also where `connect` was never called, or by a `connect`
  -- whose host does not answer.
  pub client_lifetime-ends :
      (xs : List ClientCall)
      → (is_served false xs ≡ true → Closes (connections xs) (client_lifetime xs))
        × (is_served false xs ≡ false → client_lifetime xs ≡ fault)
  unfolding client_lifetime client_calls client_call fresh_client through destroy fresh_link release
  client_lifetime-ends [] = (λ t. absurd (ground (arith, t)), λ t. refl)
  client_lifetime-ends (connects (ok u) ∷ xs) =
      let c : Client = record { conn = some fresh_link; destroyed = [] } in
      recount-Ends xs true (0 + connections xs + 1) (connections xs + 1)
        (client_calls c xs >>= destroy) (omega arith)
        (calls-Ends xs c 0 fresh_link (refl, (refl, refl), tt, refl))
  client_lifetime-ends (connects (throw e) ∷ xs) = client_lifetime-ends xs
  client_lifetime-ends (connects fault ∷ xs) = (λ t. absurd (ground (arith, t)), λ t. refl)
  client_lifetime-ends (sends message ∷ xs) = (λ t. absurd (ground (arith, t)), λ t. refl)
  client_lifetime-ends (sends_bytes message ∷ xs) = (λ t. absurd (ground (arith, t)), λ t. refl)
  client_lifetime-ends (closes ∷ xs) = (λ t. absurd (ground (arith, t)), λ t. refl)
