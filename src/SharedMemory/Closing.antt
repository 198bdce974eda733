-- ===== src/SharedMemory/Closing.antt =====
-- `close` and the destructor of `SharedMemoryConnection::Impl` in
-- src/simple_socket/SharedMemoryConnection.cpp, as the calls of the system that they make.
use simple_socket.Prelude.{
  ℕ, ◌+◌, ◌<◌, ◌≡◌, refl, Bool, true, false, Option, none, some, List, [], ◌∷◌, ◌++◌, ◌==◌, ==_iff,
  if◌then◌else◌, arith,
}
use simple_socket.SharedMemory.Layout.{Mapping, Semaphores, semaphores, total_size, sem_name}
use simple_socket.Text.{codes}

pub data SystemCall : Type 0 where
  munmap : ℕ → ℕ → SystemCall
  closes : ℕ → SystemCall
  sem_closes shm_unlinks sem_unlinks : List ℕ → SystemCall

-- An `Impl`: its mapping, and whether the pointers to the semaphores are still set.
pub record Attached : Type 0 where
  pub name : List ℕ
  pub mapping : Mapping
  pub has_semaphores : Bool

abbrev pub four : (List ℕ → SystemCall) → Semaphores → List SystemCall
four f s = f s.my_write ∷ f s.my_read ∷ f s.peer_write ∷ f s.peer_read ∷ []

-- The names that the server takes away.
unfoldable pub unlinked : List ℕ → List SystemCall
unlinked name =
    shm_unlinks name
    ∷ sem_unlinks (sem_name name (codes "_w") (codes "A"))
    ∷ sem_unlinks (sem_name name (codes "_r") (codes "A"))
    ∷ sem_unlinks (sem_name name (codes "_w") (codes "B"))
    ∷ sem_unlinks (sem_name name (codes "_r") (codes "B"))
    ∷ []

abbrev pub unmaps : Mapping → List SystemCall
unmaps m = if m.shm == 0 then [] else munmap m.shm (total_size m.size) ∷ []

abbrev pub closes_fd : Option ℕ → List SystemCall
closes_fd none = []
closes_fd (some fd) = closes fd ∷ []

-- `close`: the pointers are reset, `fd_` is not.
unfoldable pub close : Attached → List SystemCall × Attached
unfolding semaphores unlinked
close i = (
  unmaps i.mapping
      ++ (closes_fd i.mapping.fd
          ++ ((if i.has_semaphores
                then four sem_closes (semaphores i.name i.mapping.is_server)
                else [])
              ++ (if i.mapping.is_server then unlinked i.name else []))),
  record i { mapping = record i.mapping { shm = 0 }; has_semaphores = false },
)

-- `close` and then the destructor.
unfoldable pub close_and_destroy : Attached → List SystemCall
unfolding close
close_and_destroy i = let (calls, i') = close i in calls ++ (close i').0

-- How often the descriptor is closed, and how much is unmapped.
abbrev pub fd_closes : ℕ → List SystemCall → ℕ
fd_closes fd [] = 0
fd_closes fd (closes d ∷ calls) = (if d == fd then 1 else 0) + fd_closes fd calls
fd_closes fd (munmap a n ∷ calls) = fd_closes fd calls
fd_closes fd (sem_closes s ∷ calls) = fd_closes fd calls
fd_closes fd (shm_unlinks s ∷ calls) = fd_closes fd calls
fd_closes fd (sem_unlinks s ∷ calls) = fd_closes fd calls

abbrev pub unmap_count : List SystemCall → ℕ
unmap_count [] = 0
unmap_count (munmap a n ∷ calls) = 1 + unmap_count calls
unmap_count (closes d ∷ calls) = unmap_count calls
unmap_count (sem_closes s ∷ calls) = unmap_count calls
unmap_count (shm_unlinks s ∷ calls) = unmap_count calls
unmap_count (sem_unlinks s ∷ calls) = unmap_count calls

-- The memory is unmapped once, but its descriptor is closed once by `close` and again by the destructor,
-- when it may be that of a file opened since.
pub close_and_destroy_closes_twice :
    (name : List ℕ) (is_server : Bool) (size fd shm : ℕ)
    → 0 < shm
    → (let i : Attached = record {
      name = name;
      mapping = record { is_server = is_server; size = size; fd = some fd; shm = shm };
      has_semaphores = true;
    } in
        (fd_closes fd (close_and_destroy i) ≡ 2) × (unmap_count (close_and_destroy i) ≡ 1))
unfolding close_and_destroy
close_and_destroy_closes_twice name true size fd shm mapped =
    let there : (shm == 0) ≡ false = ground arith in
    let itself = (==_iff fd fd).1 refl in rw (there, itself) (refl, refl)
close_and_destroy_closes_twice name false size fd shm mapped =
    let there : (shm == 0) ≡ false = ground arith in
    let itself = (==_iff fd fd).1 refl in rw (there, itself) (refl, refl)
