-- ===== src/Locks/Tests.antt =====
-- Runs of a lock: two calls, of which the first runs and the second waits.
use qq_guardian.Base.{◌≡◌, ◌<◌, refl, true, [], ◌∷◌, none, some, ◌⊎◌, arith}
use qq_guardian.Locks.{
  waiting, running, done, is_done, Task, Lock, with_phase, with_lock, try_with_lock, release, Step,
  enter, resume, finish, Reach, start, later, unlocked,
}
use qq_guardian.Locks.Order.{all_done}
use qq_guardian.Locks.Queue.{pending, QueueStep, started_in_order, Step-QueueStep}
use qq_guardian.Locks.Progress.{work, Advances, lock_progress}

abbrev two_calls : Lock
two_calls = with_lock (with_lock unlocked)

two_calls-Reach : Reach two_calls
two_calls-Reach = later (later start enter) enter

abbrev first_call : Task
first_call = record { previous = none; phase = running }

second_refused : try_with_lock (with_lock unlocked) ≡ none
unfolding try_with_lock with_lock
second_refused = refl

first_released :
    release (with_lock unlocked) 0
    ≡ record { tail = none; tasks = record { previous = none; phase = done } ∷ [] }
unfolding release with_lock
first_released = refl

first_step : Step two_calls (release two_calls 0)
unfolding with_lock
first_step = finish 0 first_call refl refl

abbrev handed_over : Lock
handed_over = record (release two_calls 0) {
  tasks = with_phase (release two_calls 0).tasks 1 running;
}

second_step : Step (release two_calls 0) handed_over
unfolding with_lock release
second_step = resume 1 (record { previous = some 0; phase = waiting }) refl refl refl

started_in_order_example : is_done done ≡ true
unfolding with_lock release
started_in_order_example =
    started_in_order {s = handed_over} 1 0 (record { previous = some 0; phase = running })
      (record { previous = none; phase = done })
      (later (later two_calls-Reach first_step) second_step) refl refl (omega arith) refl

Step-QueueStep_example : QueueStep (pending two_calls.tasks) (pending (release two_calls 0).tasks)
Step-QueueStep_example = Step-QueueStep two_calls-Reach first_step

lock_progress_example :
    ((all_done two_calls.tasks ≡ true) ⊎ (next : Lock) × Advances two_calls next)
    × ((s' : Lock) → Advances two_calls s' → work s'.tasks < work two_calls.tasks)
lock_progress_example = lock_progress two_calls-Reach
