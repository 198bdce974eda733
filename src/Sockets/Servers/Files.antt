-- ===== src/Sockets/Servers/Files.antt =====
-- `UnixDomainServer::Impl` of src/simple_socket/UnixDomainSocket.cpp, with the socket files that it makes
-- and removes.
use simple_socket.Mqtt.Topics.{erase}
use simple_socket.Prelude.{
  ℕ, ◌≤◌, ◌<◌, ◌≡◌, ◌≢◌, refl, ap, ◌∙◌, Bool, true, false, List, ◌∷◌, if◌then◌else◌, All, Option,
  none, some, Outcome, ok, throw, socket_error, Option-cases, inl, inr, take_past, length,
  length-take, arith,
}
use simple_socket.Sockets.Descriptors.{GivesUnused, Owns, erase_newest}
use simple_socket.Sockets.Servers.{sun_path}
use simple_socket.Text.{same, same_refl, same-false}

-- The names of files, as the system documents them: `bind` of a socket makes a file, and fails where
-- there is one; `unlink` removes it. Names hold no zero byte.
pub record FileSystem (F : Type 0) : Type 0 where
  pub exists : F → List ℕ → Bool
  pub bind : F → List ℕ → Option F
  pub unlink : F → List ℕ → F
  pub bind_taken : (f : F) (p : List ℕ) → exists f p ≡ true → bind f p ≡ none
  pub bind_makes :
      (f f' : F) (p q : List ℕ)
      → bind f p ≡ some f'
      → exists f' q ≡ (if same p q then true else exists f q)
  pub unlink_lem :
      (f : F) (p q : List ℕ) → exists (unlink f p) q ≡ (if same p q then false else exists f q)

pub record Server (F : Type 0) : Type 0 where
  pub result : Outcome ℕ
  pub sockets : List ℕ
  pub files : F

module _ {F : Type 0} (fs : FileSystem F) (socket : List ℕ → Option ℕ) (listen : ℕ → ℕ → Bool) where
  -- The constructor.
  unfoldable pub unix_server : List ℕ → ℕ → List ℕ → F → Server F
  unix_server domain backlog sockets f = elim (socket sockets) as (λ _. Server F) [
    | none ↦ record { result = throw socket_error; sockets = sockets; files = f }
    | some fd ↦ elim (fs.bind (fs.unlink f domain) (sun_path domain)) as (λ _. Server F) [
      | none ↦ record {
        result = throw socket_error;
        sockets = erase (fd ∷ sockets) fd;
        files = fs.unlink f domain;
      }
      | some f' ↦
          if listen fd backlog
          then record { result = ok fd; sockets = fd ∷ sockets; files = f' }
          else record { result = throw socket_error; sockets = erase (fd ∷ sockets) fd; files = f' }
    ]
  ]

  -- The destructor.
  unfoldable pub destroy : List ℕ → Server F → F
  destroy domain s = fs.unlink s.files domain

  -- One lemma for each way through the constructor.
  refused :
      (domain : List ℕ) (backlog : ℕ) (sockets : List ℕ) (f : F)
      → socket sockets ≡ none
      → unix_server domain backlog sockets f
        ≡ record { result = throw socket_error; sockets = sockets; files = f }
  unfolding unix_server
  refused domain backlog sockets f e = rw (e, unix_server) refl

  module _ (domain : List ℕ) (backlog : ℕ) (sockets : List ℕ) (f : F) (fd : ℕ)
      (made : socket sockets ≡ some fd) where
    taken :
        fs.bind (fs.unlink f domain) (sun_path domain) ≡ none
        → unix_server domain backlog sockets f ≡ record {
          result = throw socket_error;
          sockets = erase (fd ∷ sockets) fd;
          files = fs.unlink f domain;
        }
    unfolding unix_server
    taken e = rw (made, unix_server, e) refl

    bound :
        (f' : F)
        → fs.bind (fs.unlink f domain) (sun_path domain) ≡ some f'
        → unix_server domain backlog sockets f ≡ (
            if listen fd backlog
            then record { result = ok fd; sockets = fd ∷ sockets; files = f' }
            else record {
              result = throw socket_error;
              sockets = erase (fd ∷ sockets) fd;
              files = f';
            })
    unfolding unix_server
    bound f' e = rw (made, unix_server, e) refl

    after_listen :
        (f' : F) (heard : Bool)
        → All (λ y. y ≢ fd) sockets
        → (let s : Server F =
              if heard
              then record { result = ok fd; sockets = fd ∷ sockets; files = f' }
              else record {
                result = throw socket_error;
                sockets = erase (fd ∷ sockets) fd;
                files = f';
              } in
            Owns sockets (s.result, s.sockets) × (s.files ≡ f'))
    after_listen f' true unused = (refl, refl)
    after_listen f' false unused = (erase_newest sockets fd unused, refl)

  pub unix_server-Owns :
      (domain : List ℕ) (backlog : ℕ) (sockets : List ℕ) (f : F)
      → GivesUnused socket
      → Owns sockets (
        (unix_server domain backlog sockets f).result,
        (unix_server domain backlog sockets f).sockets,
      )
  unix_server-Owns domain backlog sockets f unused = elim (Option-cases (socket sockets)) [
    | inl e ↦ rw (refused domain backlog sockets f e) refl
    | inr (fd, made) ↦ elim (Option-cases (fs.bind (fs.unlink f domain) (sun_path domain))) [
      | inl e ↦
          rw (taken domain backlog sockets f fd made e)
            (erase_newest sockets fd (unused sockets fd made))
      | inr (f', e) ↦
          rw (bound domain backlog sockets f fd made f' e)
            (after_listen domain backlog sockets f fd made f' (listen fd backlog)
              (unused sockets fd made)).0
    ]
  ]

  -- The files behind a constructor that returned.
  made_file :
      (domain : List ℕ) (backlog : ℕ) (sockets : List ℕ) (f : F) (fd : ℕ)
      → GivesUnused socket
      → (unix_server domain backlog sockets f).result ≡ ok fd
      → (q : List ℕ)
      → fs.exists (unix_server domain backlog sockets f).files q
        ≡ (if same (sun_path domain) q then true else fs.exists (fs.unlink f domain) q)
  made_file domain backlog sockets f fd unused done q = elim (Option-cases (socket sockets)) [
    | inl e ↦ absurd (cc (ap (λ s. s.result) (refused domain backlog sockets f e), done))
    | inr (fd', made) ↦ elim (Option-cases (fs.bind (fs.unlink f domain) (sun_path domain))) [
      | inl e ↦ absurd (cc (ap (λ s. s.result) (taken domain backlog sockets f fd' made e), done))
      | inr (f', e) ↦
          let files =
            ap (λ s. s.files) (bound domain backlog sockets f fd' made f' e)
            ∙ (after_listen domain backlog sockets f fd' made f' (listen fd' backlog)
                (unused sockets fd' made)).1 in
          rw files (fs.bind_makes (fs.unlink f domain) f' (sun_path domain) q e)
    ]
  ]

  cut_path : (domain : List ℕ) → 107 < length domain → domain ≢ sun_path domain
  cut_path domain long e = absurd (omega (arith, ap length e, length-take 107 domain, long))

  -- When a server has run and is destroyed, its socket file is gone where the path has up to 107 bytes.
  -- A longer path is cut for `bind` and not for `unlink`, so the file stays, and the next server at this
  -- path throws.
  pub unix_server-destroy :
      (domain : List ℕ) (backlog : ℕ) (sockets sockets' : List ℕ) (f : F) (fd fd' : ℕ)
      → GivesUnused socket
      → (unix_server domain backlog sockets f).result ≡ ok fd
      → socket sockets' ≡ some fd'
      → (let left = destroy domain (unix_server domain backlog sockets f) in
          (length domain ≤ 107 → fs.exists left (sun_path domain) ≡ false)
          × (107 < length domain
              → (fs.exists left (sun_path domain) ≡ true)
                × ((unix_server domain backlog sockets' left).result ≡ throw socket_error)))
  unfolding destroy
  unix_server-destroy domain backlog sockets sockets' f fd fd' unused done made =
      let s = unix_server domain backlog sockets f in
      let gone = fs.unlink_lem s.files domain (sun_path domain) in
      let there : fs.exists s.files (sun_path domain) ≡ true =
        made_file domain backlog sockets f fd unused done (sun_path domain)
        ∙ rw (same_refl (sun_path domain)) refl in
      (
        λ short. gone ∙ rw (take_past 107 domain short, same_refl domain) refl,
        λ long.
            let other = same-false domain (sun_path domain) (cut_path domain long) in
            let stays : fs.exists (fs.unlink s.files domain) (sun_path domain) ≡ true =
              gone ∙ rw other there in
            let stays_again : fs.exists (fs.unlink (fs.unlink s.files domain) domain)
                  (sun_path domain)
                ≡ true =
              fs.unlink_lem (fs.unlink s.files domain) domain (sun_path domain) ∙ rw other stays in
            (
              stays,
              ap (λ x. x.result)
                  (taken domain backlog sockets' (fs.unlink s.files domain) fd' made
                    (fs.bind_taken _ (sun_path domain) stays_again)),
            ),
      )
