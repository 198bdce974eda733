-- ===== src/SharedMemory/Layout.antt =====
-- How `SharedMemoryConnection::Impl` of src/simple_socket/SharedMemoryConnection.cpp lays the two buffers
-- out, and names the semaphores, on a 64-bit POSIX system.
use simple_socket.Prelude.{
  ℕ, ◌+◌, ◌-◌, ◌*◌, ◌%◌, ◌^◌, ◌≤◌, ◌<◌, ◌≡◌, refl, ◌⊎◌, inl, inr, Bool, true, false, not, List,
  ◌++◌, if◌then◌else◌, Option, none, some, arith,
}
use simple_socket.Text.{codes}

-- `sizeof(BufferControl)`: eight bytes of `size`, one of `data`, and padding. `data` is behind `size`.
abbrev pub size_of_control : ℕ
size_of_control = 16

abbrev pub data_offset : ℕ
data_offset = 8

abbrev pub mod64 : ℕ → ℕ
mod64 n = n % 2 ^ 64

unfoldable pub total_size : ℕ → ℕ
total_size size = mod64 (2 * mod64 (size_of_control - 1 + size))

-- The addresses of `myBuffer_` and `peerBuffer_`.
unfoldable pub my_buffer : ℕ → Bool → ℕ → ℕ
my_buffer shm is_server size =
    mod64 (shm + (if is_server then 0 else mod64 (size_of_control - 1 + size)))

unfoldable pub peer_buffer : ℕ → Bool → ℕ → ℕ
peer_buffer shm is_server size =
    mod64 (shm + (if is_server then mod64 (size_of_control - 1 + size) else 0))

-- The letters of a side and of its peer, and the four names.
abbrev pub sem_base : Bool → List ℕ
sem_base is_server = if is_server then codes "A" else codes "B"

abbrev pub peer_sem_base : Bool → List ℕ
peer_sem_base is_server = if is_server then codes "B" else codes "A"

pub record Semaphores : Type 0 where
  pub my_write : List ℕ
  pub my_read : List ℕ
  pub peer_write : List ℕ
  pub peer_read : List ℕ

abbrev pub sem_name : List ℕ → List ℕ → List ℕ → List ℕ
sem_name name kind base = codes "/" ++ name ++ kind ++ base

unfoldable pub semaphores : List ℕ → Bool → Semaphores
semaphores name is_server = record {
  my_write = sem_name name (codes "_w") (sem_base is_server);
  my_read = sem_name name (codes "_r") (sem_base is_server);
  peer_write = sem_name name (codes "_w") (peer_sem_base is_server);
  peer_read = sem_name name (codes "_r") (peer_sem_base is_server);
}

-- Whether the bytes from `a` up to `a + n` and those from `b` up to `b + m` are apart.
abbrev pub AreApart : ℕ → ℕ → ℕ → ℕ → Type 0
AreApart a n b m = (a + n ≤ b) ⊎ (b + m ≤ a)

-- A mapping at `shm` that the address space holds, of buffers of `size` bytes. Each side's own buffer
-- lies inside, with all that `write` may put there, and apart from the other's; what one side writes to
-- is what the other reads from, and the semaphores of the two are the same, crosswise.
pub layout_fits :
    (shm size : ℕ) (name : List ℕ) (is_server : Bool)
    → shm + 2 * (size + 15) < 2 ^ 64
    → (shm ≤ my_buffer shm is_server size)
      × (my_buffer shm is_server size + data_offset + size ≤ shm + total_size size)
      × AreApart
          (my_buffer shm is_server size)
          (data_offset + size)
          (peer_buffer shm is_server size)
          (data_offset + size)
      × (my_buffer shm is_server size ≡ peer_buffer shm (not is_server) size)
      × ((semaphores name is_server).my_write ≡ (semaphores name (not is_server)).peer_write)
      × ((semaphores name is_server).my_read ≡ (semaphores name (not is_server)).peer_read)
unfolding my_buffer peer_buffer total_size semaphores
layout_fits shm size name true fits =
    (omega arith, omega arith, inl (omega arith), omega arith, refl, refl)
layout_fits shm size name false fits =
    (omega arith, omega arith, inr (omega arith), omega arith, refl, refl)

-- The second buffer starts where the first ends, so its `size` is on a multiple of eight bytes, as the
-- type asks for, only for sizes that leave 1.
pub layout_aligned :
    (shm size : ℕ)
    → shm % 8 ≡ 0
    → shm + 2 * (size + 15) < 2 ^ 64
    → my_buffer shm false size % 8 ≡ 0
    → size % 8 ≡ 1
unfolding my_buffer
layout_aligned shm size page fits e = omega arith

-- The constructor, with `shm_open` (what it gives to a side) and `mmap` (the address, all bits set on a
-- failure).
pub record Mapping : Type 0 where
  pub is_server : Bool
  pub size : ℕ
  pub fd : Option ℕ
  pub shm : ℕ

module _ (shm_open : Bool → Option ℕ) (mmap : ℕ → ℕ → ℕ) where
  unfoldable pub attach : ℕ → Bool → Mapping
  unfolding total_size
  attach size is_server = elim (shm_open is_server) as (λ _. Mapping) [
    | none ↦ record { is_server = is_server; size = size; fd = none; shm = 0 }
    | some fd ↦ record {
      is_server = is_server;
      size = size;
      fd = some fd;
      shm = mmap fd (total_size size);
    }
  ]

  attach-none :
      (size : ℕ) (is_server : Bool)
      → shm_open is_server ≡ none
      → attach size is_server ≡ record { is_server = is_server; size = size; fd = none; shm = 0 }
  unfolding attach
  attach-none size is_server e = rw (e, attach) refl

  -- A side that finds no shared memory goes on with a null pointer: the client's first buffer is where
  -- nothing is mapped, and so is the server's second.
  pub attach_failed :
      (size : ℕ) (is_server : Bool)
      → size < 2 ^ 63
      → shm_open is_server ≡ none
      → ((attach size is_server).shm ≡ 0)
        × (my_buffer (attach size is_server).shm is_server size
            ≡ (if is_server then 0 else size + 15))
  unfolding my_buffer
  attach_failed size true fits e = rw (attach-none size true e) (refl, omega arith)
  attach_failed size false fits e = rw (attach-none size false e) (refl, omega arith)
