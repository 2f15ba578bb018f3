-- ===== src/Locks.antt =====
-- withLock and tryWithLock of src/core/locks.ts. The entries of `_locks` for different names never meet, so
-- the model is the state of one name.
pub mod Order
pub mod Fifo
pub mod Queue
pub mod Progress
mod Tests
use qq_guardian.Base.{
  ℕ, suc, ◌+◌, ◌≡◌, Bool, true, false, ◌&&◌, not, List, [], ◌∷◌, Option, none, some, ◌==◌,
  if◌then◌else◌, is_none, length,
}

-- A call of `withLock`: it waits for the promise of its predecessor, runs its function, and is over once the
-- function has ended, with a result or an exception.
pub data Phase : Type 0 where
  waiting running done : Phase

abbrev pub is_waiting : Phase → Bool
is_waiting waiting = true
is_waiting running = false
is_waiting done = false

abbrev pub is_done : Phase → Bool
is_done done = true
is_done waiting = false
is_done running = false

pub record Task : Type 0 where
  pub previous : Option ℕ
  pub phase : Phase

-- `tail` is the entry of `_locks`, the promise of a call; the calls made so far, the newest first. A call has
-- as number the count of the calls before it, and its promise is resolved once it is done.
pub record Lock : Type 0 where
  pub tail : Option ℕ
  pub tasks : List Task

abbrev pub task_at : List Task → ℕ → Option Task
task_at [] id = none
task_at (t ∷ ts) id = let rest = task_at ts id in if length ts == id then some t else rest

abbrev pub with_phase : List Task → ℕ → Phase → List Task
with_phase [] id phase = []
with_phase (t ∷ ts) id phase =
    let rest = with_phase ts id phase in
    if length ts == id then record t { phase = phase } ∷ ts else t ∷ rest

-- The promise that a call waits for is resolved.
abbrev pub is_free : List Task → Option ℕ → Bool
is_free ts none = true
is_free ts (some p) = elim (task_at ts p) [ none ↦ false | some t ↦ is_done t.phase ]

-- The part of `withLock` up to its wait. With no predecessor the function starts at once.
unfoldable pub with_lock : Lock → Lock
with_lock s = record {
  tail = some (length s.tasks);
  tasks =
      record { previous = s.tail; phase = if is_none s.tail then running else waiting } ∷ s.tasks;
}

-- `none` is `acquired: false`.
unfoldable pub try_with_lock : Lock → Option Lock
try_with_lock s = if is_none s.tail then some (with_lock s) else none

abbrev pub is_tail : Option ℕ → ℕ → Bool
is_tail none id = false
is_tail (some k) id = k == id

-- The `finally` of a call: its promise is resolved, and the entry goes if it is still its own.
unfoldable pub release : Lock → ℕ → Lock
release s id = record {
  tail = if is_tail s.tail id then none else s.tail;
  tasks = with_phase s.tasks id done;
}

pub data Step (s : Lock) : Lock → Type 0 where
  enter : Step s (with_lock s)
  resume :
      (id : ℕ) (t : Task)
      → task_at s.tasks id ≡ some t
      → is_waiting t.phase ≡ true
      → is_free s.tasks t.previous ≡ true
      → Step s (record s { tasks = with_phase s.tasks id running })
  finish :
      (id : ℕ) (t : Task) → task_at s.tasks id ≡ some t → t.phase ≡ running → Step s (release s id)

abbrev pub unlocked : Lock
unlocked = record { tail = none; tasks = [] }

pub data Reach : Lock → Type 0 where
  start : Reach unlocked
  later : {s t : Lock} → Reach s → Step s t → Reach t
