-- ===== src/Locks/Progress.antt =====
-- The calls of a lock come to an end.
use qq_guardian.Base.{
  ℕ, ◌+◌, ◌<◌, ◌≡◌, refl, true, false, List, [], ◌∷◌, Option, none, some, ◌==◌, ==_iff, length,
  arith, ◌⊎◌, inl, inr, Bool-cases, Option-cases, sym, subst,
}
use qq_guardian.Locks.{
  Phase, waiting, running, done, is_waiting, is_done, Task, Lock, task_at, with_phase, is_free,
  with_lock, release, Step, enter, resume, finish, Reach,
}
use qq_guardian.Locks.Order.{all_done, Ordered, Inv, task_at-lt, length-with_phase, done_at}
use qq_guardian.Locks.Fifo.{Reach-Inv}

abbrev pub weight : Phase → ℕ
weight waiting = 2
weight running = 1
weight done = 0

-- What is left to do: a start and an end of each call that waits, an end of the one that runs.
abbrev pub work : List Task → ℕ
work [] = 0
work (t ∷ ts) = weight t.phase + work ts

work-with_phase :
    (ts : List Task) (id : ℕ) (t : Task) (phase : Phase)
    → task_at ts id ≡ some t
    → work (with_phase ts id phase) + weight t.phase ≡ work ts + weight phase
work-with_phase [] id t phase e = absurd (cc)
work-with_phase (u ∷ ts) id t phase e = elim (Bool-cases (length ts == id)) [
  | inl here ↦ let same : u ≡ t = ground arith in rw here (rw same (omega arith))
  | inr older ↦ let rest = work-with_phase ts id t phase (rw older at e) in rw older (omega arith)
]

-- The step is no new call.
abbrev pub Advances : Lock → Lock → Type 0
Advances s s' = Step s s' × (length s'.tasks ≡ length s.tasks)

advance-work :
    {s s' : Lock} → Step s s' → length s'.tasks ≡ length s.tasks → work s'.tasks < work s.tasks
unfolding with_lock release
advance-work {s} enter same = absurd (omega arith)
advance-work {s} (resume id t at waits free) same =
    let w = work-with_phase s.tasks id t running at in ground arith
advance-work {s} (finish id t at runs) same =
    let w = work-with_phase s.tasks id t done at in ground arith

task_exists : (ts : List Task) (id : ℕ) → id < length ts → (t : Task) × (task_at ts id ≡ some t)
task_exists [] id lt = absurd (omega arith)
task_exists (u ∷ ts) id lt = elim (Bool-cases (length ts == id)) [
  | inl here ↦ (u, rw here refl)
  | inr older ↦
      let (t, e) = task_exists ts id (ground (arith, ==_iff (length ts) id)) in (t, rw older e)
]

newer-is_free :
    (u : Task) (ts : List Task) (o : Option ℕ) → is_free ts o ≡ true → is_free (u ∷ ts) o ≡ true
newer-is_free u ts none f = refl
newer-is_free u ts (some p) f = elim (Option-cases (task_at ts p)) [
  | inl missing ↦ absurd (ground arith)
  | inr (v, found) ↦ let lt = task_at-lt ts p v found in ground (arith, ==_iff (length ts) p)
]

-- The oldest call that is not done: nothing keeps it from going on.
oldest_open :
    (ts : List Task)
    → Ordered ts
    → all_done ts ≡ false
    → (id : ℕ) × (t : Task) × (task_at ts id ≡ some t)
      × (is_done t.phase ≡ false)
      × (is_free ts t.previous ≡ true)
oldest_open [] o h = absurd (cc)
oldest_open (u ∷ ts) (link, started, o) h = elim (Bool-cases (all_done ts)) [
  | inr open_one ↦
      let (id, t, at, n, free) = oldest_open ts o open_one in
      let lt = task_at-lt ts id t at in
      (id, t, ground (arith, ==_iff (length ts) id), n, newer-is_free u ts t.previous free)
  | inl quiet ↦ (
    length ts,
    u,
    ground (arith, ==_iff (length ts) (length ts)),
    ground arith,
    elim link [
      | inl (first, _) ↦ rw first refl
      | inr (p, waits, next) ↦
          let (v, found) = task_exists ts p (omega arith) in
          subst (λ o. is_free (u ∷ ts) o ≡ true) (sym waits)
            (newer-is_free u ts (some p) (rw (found, is_free) (done_at ts p v quiet found)))
    ],
  )
]

can_advance : {s : Lock} → Inv s → all_done s.tasks ≡ false → (s' : Lock) × Advances s s'
unfolding release
can_advance {s} h n =
    let (id, t, at, active, free) = oldest_open s.tasks h.ordered n in
    elim (Bool-cases (is_waiting t.phase)) [
      | inl waits ↦ (
        record s { tasks = with_phase s.tasks id running },
        (resume id t at waits free, length-with_phase s.tasks id running),
      )
      | inr started ↦ (
        release s id,
        (finish id t at (is_running t.phase started active), length-with_phase s.tasks id done),
      )
    ]
  where
    is_running : (p : Phase) → is_waiting p ≡ false → is_done p ≡ false → p ≡ running
    is_running waiting a b = absurd (cc)
    is_running running a b = refl
    is_running done a b = absurd (cc)

-- In every state of a lock that is reached, also right after a new call, all calls are done or some step
-- that is no new call can be made; and each such step leaves less work. So without new calls the lock never
-- blocks, and after as many steps as there is work all calls are done.
pub lock_progress :
    {s : Lock}
    → Reach s
    → ((all_done s.tasks ≡ true) ⊎ (next : Lock) × Advances s next)
      × ((s' : Lock) → Advances s s' → work s'.tasks < work s.tasks)
lock_progress {s} r = (
  elim (Bool-cases (all_done s.tasks)) [
    | inl quiet ↦ inl quiet
    | inr busy ↦ inr (can_advance (Reach-Inv r) busy)
  ],
  (λ s' (st, same). advance-work st same),
)
