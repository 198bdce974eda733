-- ===== src/SharedMemory.antt =====
-- src/simple_socket/SharedMemoryConnection.cpp: one direction of the connection, a buffer between the
-- writer in one process and the reader in another, with its two semaphores.
--
-- The code between `sem_wait` and `sem_post` is not atomic, so entering and leaving are steps of
-- their own; a thread that waits takes no step until the count is positive. Each side has one
-- thread. `written`, `sizes` and `results` log the calls: what was written, the sizes that were
-- asked for, and what `read` gave, `none` for -1.
pub mod Order
pub mod Layout
pub mod Closing
use simple_socket.Prelude.{
  ℕ, ◌+◌, ◌-◌, ◌≤◌, ◌<◌, ◌≡◌, Bool, true, false, Option, none, some, List, [], ◌∷◌, ◌++◌,
  if◌then◌else◌, ltb, length,
}

pub record Channel : Type 0 where
  pub contents : List ℕ
  pub write_sem : ℕ
  pub read_sem : ℕ
  pub is_writing : Bool
  pub is_reading : Bool
  pub written : List (List ℕ)
  pub sizes : List ℕ
  pub results : List (Option (List ℕ))

unfoldable pub created : Channel
created = record {
  contents = [];
  write_sem = 1;
  read_sem = 0;
  is_writing = false;
  is_reading = false;
  written = [];
  sizes = [];
  results = [];
}

pub data Event : Type 0 where
  write_enters read_enters : Event
  write_leaves : List ℕ → Event
  read_leaves : ℕ → Event

-- When an event can come: `sem_wait` passes, or the thread is inside; `write` has looked at the size.
unfoldable pub Enabled : ℕ → Channel → Event → Type 0
Enabled buffer_size c Event.write_enters = (c.is_writing ≡ false) × (0 < c.write_sem)
Enabled buffer_size c Event.read_enters = (c.is_reading ≡ false) × (0 < c.read_sem)
Enabled buffer_size c (Event.write_leaves msg) =
    (c.is_writing ≡ true) × (0 < length msg) × (length msg ≤ buffer_size)
Enabled buffer_size c (Event.read_leaves size) = (c.is_reading ≡ true) × (0 < size)

-- What `read` gives for a message: one that is longer than the buffer of the caller is lost.
abbrev pub read_result : List ℕ → ℕ → Option (List ℕ)
read_result msg size = if ltb size (length msg) then none else some msg

unfoldable pub step : Channel → Event → Channel
step c Event.write_enters = record c { write_sem = c.write_sem - 1; is_writing = true }
step c (Event.write_leaves msg) = record c {
  contents = msg;
  read_sem = c.read_sem + 1;
  is_writing = false;
  written = c.written ++ msg ∷ [];
}
step c Event.read_enters = record c { read_sem = c.read_sem - 1; is_reading = true }
step c (Event.read_leaves size) = record c {
  contents = if ltb size (length c.contents) then c.contents else [];
  write_sem = c.write_sem + 1;
  is_reading = false;
  sizes = c.sizes ++ size ∷ [];
  results = c.results ++ read_result c.contents size ∷ [];
}

-- The channels that some order of events leads to.
pub data Reaches (buffer_size : ℕ) : Channel → Type 0 where
  start : Reaches buffer_size created
  next :
      (c : Channel) (e : Event)
      → Reaches buffer_size c
      → Enabled buffer_size c e
      → Reaches buffer_size (step c e)
