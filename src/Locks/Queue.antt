-- ===== src/Locks/Queue.antt =====
-- The calls of a lock as a queue.
use mathlib.Core.Path.{ap₂}
use qq_guardian.Base.{
  ℕ, ◌<◌, ◌≡◌, refl, Bool, true, false, List, [], ◌∷◌, ◌++◌, some, ◌==◌, ==_iff, if◌then◌else◌,
  is_none, length, arith, inl, inr, Bool-cases, ap, sym, subst,
}
use qq_guardian.Locks.{
  waiting, running, done, is_waiting, is_done, Task, Lock, task_at, with_phase, with_lock, release,
  Step, enter, resume, finish, Reach,
}
use qq_guardian.Locks.Order.{
  all_done, Ordered, task_at-lt, length-with_phase, done_at, before, is_free-before,
}
use qq_guardian.Locks.Fifo.{Reach-Inv}

-- The calls that are not done, the newest first.
abbrev pub pending : List Task → List ℕ
pending [] = []
pending (t ∷ ts) = let rest = pending ts in if is_done t.phase then rest else length ts ∷ rest

-- What a queue does: a number joins at its end, the one at its head starts, or it leaves.
pub data QueueStep : List ℕ → List ℕ → Type 0 where
  joins : (q : List ℕ) (id : ℕ) → QueueStep q (id ∷ q)
  starts : (q : List ℕ) (id : ℕ) → QueueStep (q ++ id ∷ []) (q ++ id ∷ [])
  leaves : (q : List ℕ) (id : ℕ) → QueueStep (q ++ id ∷ []) q

started-done :
    (ts : List Task) (i j : ℕ) (t u : Task)
    → Ordered ts
    → task_at ts i ≡ some t
    → is_waiting t.phase ≡ false
    → j < i
    → task_at ts j ≡ some u
    → is_done u.phase ≡ true
started-done [] i j t u o e n lt f = absurd (cc)
started-done (v ∷ ts) i j t u (link, started, o) e n lt f = elim (Bool-cases (length ts == i)) [
  | inl here ↦
      let same : v ≡ t = ground arith in
      done_at ts j u (started (rw same n))
        (ground (arith, ==_iff (length ts) i, ==_iff (length ts) j))
  | inr older ↦
      let e' = rw older at e in
      started-done ts i j t u o e' n lt (ground (arith, task_at-lt ts i t e', ==_iff (length ts) j))
]

-- In every state that is reached, a call that has started finds all calls before it done: calls run one at a
-- time, in the order in which they were made.
pub started_in_order :
    {s : Lock} (i j : ℕ) (t u : Task)
    → Reach s
    → task_at s.tasks i ≡ some t
    → is_waiting t.phase ≡ false
    → j < i
    → task_at s.tasks j ≡ some u
    → is_done u.phase ≡ true
started_in_order {s} i j t u r = started-done s.tasks i j t u (Reach-Inv r).ordered

started-before :
    (ts : List Task) (id : ℕ) (t : Task)
    → Ordered ts
    → task_at ts id ≡ some t
    → is_waiting t.phase ≡ false
    → all_done (before ts id) ≡ true
started-before [] id t o e n = refl
started-before (u ∷ ts) id t (link, started, o) e n = elim (Bool-cases (length ts == id)) [
  | inl here ↦ let same : u ≡ t = ground arith in rw here (started (rw same n))
  | inr older ↦ rw older (started-before ts id t o (rw older at e) n)
]

pending-none : (ts : List Task) → all_done ts ≡ true → pending ts ≡ []
pending-none [] h = refl
pending-none (t ∷ ts) h = ground (arith, pending-none ts)

-- The call before which all are done is the oldest of those that are not.
record AtHead (ts : List Task) (id : ℕ) : Type 0 where
  newer : List ℕ
  there : pending ts ≡ newer ++ id ∷ []
  run : pending (with_phase ts id running) ≡ newer ++ id ∷ []
  left : pending (with_phase ts id done) ≡ newer

newer_call :
    (u : Task) (ts : List Task) (id : ℕ)
    → (length ts == id) ≡ false
    → AtHead ts id
    → (over : Bool) → is_done u.phase ≡ over
    → AtHead (u ∷ ts) id
newer_call u ts id older rest true over = record {
  newer = rest.newer;
  there = rw over rest.there;
  run = rw (older, over) rest.run;
  left = rw (older, over) rest.left;
}
newer_call u ts id older rest false over = record {
  newer = length ts ∷ rest.newer;
  there = rw over (ap (λ q. length ts ∷ q) rest.there);
  run = rw older (rw over (ap₂ (λ n q. n ∷ q) (length-with_phase ts id running) rest.run));
  left = rw older (rw over (ap₂ (λ n q. n ∷ q) (length-with_phase ts id done) rest.left));
}

at_head :
    (ts : List Task) (id : ℕ) (t : Task)
    → task_at ts id ≡ some t
    → is_done t.phase ≡ false
    → all_done (before ts id) ≡ true
    → AtHead ts id
at_head [] id t e n h = absurd (cc)
at_head (u ∷ ts) id t e n h = elim (Bool-cases (length ts == id)) [
  | inl here ↦
      let same : u ≡ t = ground arith in
      let none_older = pending-none ts (rw here at h) in
      let active : is_done u.phase ≡ false = rw same n in
      let equal = (==_iff (length ts) id).0 here in
      record {
        newer = [];
        there = rw active (rw (none_older, equal) refl);
        run = rw here (rw (none_older, equal) refl);
        left = rw here none_older;
      }
  | inr older ↦
      newer_call u ts id older (at_head ts id t (rw older at e) n (rw older at h)) (is_done u.phase)
        refl
]

-- Every step of a lock that is reached is a step of a first-in-first-out queue of the calls that are not
-- done: a new call joins at the end, and only the call at the head starts or ends.
pub Step-QueueStep :
    {s s' : Lock} → Reach s → Step s s' → QueueStep (pending s.tasks) (pending s'.tasks)
unfolding with_lock release
Step-QueueStep {s} r enter =
    subst (λ q. QueueStep (pending s.tasks) q) (sym (joined (is_none s.tail)))
      (joins (pending s.tasks) (length s.tasks))
  where
    joined :
        (free : Bool)
        → (if is_done (if free then running else waiting)
            then pending s.tasks
            else length s.tasks ∷ pending s.tasks)
          ≡ length s.tasks ∷ pending s.tasks
    joined true = refl
    joined false = refl
Step-QueueStep {s} r (resume id t at waits free) =
    let head =
      at_head s.tasks id t at (ground arith)
        (is_free-before s.tasks s.tasks id t (λ k lt. refl) (Reach-Inv r).ordered at free) in
    subst (λ q. QueueStep q (pending (with_phase s.tasks id running))) (sym head.there)
      (subst (λ q. QueueStep (head.newer ++ id ∷ []) q) (sym head.run) (starts head.newer id))
Step-QueueStep {s} r (finish id t at runs) =
    let head =
      at_head s.tasks id t at (rw runs refl)
        (started-before s.tasks id t (Reach-Inv r).ordered at (rw runs refl)) in
    subst (λ q. QueueStep q (pending (with_phase s.tasks id done))) (sym head.there)
      (subst (λ q. QueueStep (head.newer ++ id ∷ []) q) (sym head.left) (leaves head.newer id))
