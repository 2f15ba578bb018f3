-- ===== src/Locks/Order.antt =====
-- The order of the calls of a lock: what holds in every state that is reached.
use qq_guardian.Base.{
  ℕ, suc, ◌<◌, ◌≡◌, refl, Bool, true, false, ◌&&◌, List, [], ◌∷◌, Option, none, some, ◌==◌, ==_iff,
  if◌then◌else◌, length, arith, ◌⊎◌, inl, inr, Bool-cases, Option-cases, ◌∙◌, ◌≢◌, sym,
}
use qq_guardian.Locks.{
  Phase, running, done, is_waiting, is_done, Task, Lock, task_at, with_phase, is_free,
}

abbrev pub all_done : List Task → Bool
all_done [] = true
all_done (t ∷ ts) = is_done t.phase && all_done ts

-- A call has no predecessor if all before it were done, or waits for the one just before it; and it has
-- started only if all before it are done.
abbrev pub Ordered : List Task → Type 0
Ordered [] = Unit
Ordered (t ∷ ts) =
    ((t.previous ≡ none) × (all_done ts ≡ true)
      ⊎ (p : ℕ) × (t.previous ≡ some p) × (length ts ≡ suc p))
    × (is_waiting t.phase ≡ false → all_done ts ≡ true)
    × Ordered ts

-- The entry is that of the newest call while it is not done, and there is none if all calls are done.
abbrev pub Tailed : Option ℕ → List Task → Type 0
Tailed tail [] = tail ≡ none
Tailed tail (t ∷ ts) =
    ((tail ≡ none) × (all_done (t ∷ ts) ≡ true))
    ⊎ ((tail ≡ some (length ts)) × (is_done t.phase ≡ false))

pub record Inv (s : Lock) : Type 0 where
  pub ordered : Ordered s.tasks
  pub tailed : Tailed s.tail s.tasks

pub task_at-lt : (ts : List Task) (id : ℕ) (t : Task) → task_at ts id ≡ some t → id < length ts
task_at-lt [] id t e = absurd (cc)
task_at-lt (u ∷ ts) id t e = ground (arith, task_at-lt ts id t, ==_iff (length ts) id)

pub length-with_phase :
    (ts : List Task) (id : ℕ) (phase : Phase) → length (with_phase ts id phase) ≡ length ts
length-with_phase [] id phase = refl
length-with_phase (t ∷ ts) id phase = ground (arith, length-with_phase ts id phase)

-- All calls that are done stay so when a call is done, and all are done if the last one that was not is.
pub all_done-with_phase :
    (ts : List Task) (id : ℕ) → all_done ts ≡ true → all_done (with_phase ts id done) ≡ true
all_done-with_phase [] id h = refl
all_done-with_phase (t ∷ ts) id h = ground (arith, all_done-with_phase ts id)

-- A call before which all are done, and which is done itself, has none open up to it.
done_up_to :
    (ts : List Task) (p : ℕ) (t : Task)
    → Ordered ts
    → task_at ts p ≡ some t
    → is_done t.phase ≡ true
    → length ts ≡ suc p
    → all_done ts ≡ true
done_up_to [] p t o e d l = refl
done_up_to (u ∷ ts) p t (_, started, o) e d l =
    let newest : (length ts == p) ≡ true = ground (arith, ==_iff (length ts) p) in
    ground (arith, started)

pub done_at :
    (ts : List Task) (id : ℕ) (t : Task)
    → all_done ts ≡ true
    → task_at ts id ≡ some t
    → is_done t.phase ≡ true
done_at [] id t h e = absurd (cc)
done_at (u ∷ ts) id t h e = elim (Bool-cases (length ts == id)) [
  | inl here ↦ let same : u ≡ t = ground arith in ground (arith, same)
  | inr older ↦ done_at ts id t (ground arith) (rw older at e)
]

-- The calls before one.
abbrev pub before : List Task → ℕ → List Task
before [] id = []
before (t ∷ ts) id = let rest = before ts id in if length ts == id then ts else rest

-- `ts` are the oldest calls of `all`.
abbrev pub Oldest : List Task → List Task → Type 0
Oldest ts all = (k : ℕ) → k < length ts → task_at all k ≡ task_at ts k

resolved :
    (all : List Task) (previous : Option ℕ) (p : ℕ)
    → previous ≡ some p
    → is_free all previous ≡ true
    → (v : Task) × (task_at all p ≡ some v) × (is_done v.phase ≡ true)
resolved all none p e f = absurd (cc)
resolved all (some q) p e f = elim (Option-cases (task_at all q)) [
  | inl missing ↦ absurd (ground arith)
  | inr (v, found) ↦ (v, (let same : q ≡ p = cc in rw (← same) found), ground arith)
]

pub is_free-before :
    (all ts : List Task) (id : ℕ) (t : Task)
    → Oldest ts all
    → Ordered ts
    → task_at ts id ≡ some t
    → is_free all t.previous ≡ true
    → all_done (before ts id) ≡ true
is_free-before all [] id t same o e f = absurd (cc)
is_free-before all (u ∷ ts) id t same (inl (first, quiet), started, o) e f =
    elim (Bool-cases (length ts == id)) [
      | inl here ↦ rw here quiet
      | inr older ↦ rw older (
          is_free-before all ts id t
            (λ k lt. same k (omega arith) ∙ ground (arith, ==_iff (length ts) k)) o (rw older at e)
            f)
    ]
is_free-before all (u ∷ ts) id t same (inr (p, waits, next), started, o) e f =
    elim (Bool-cases (length ts == id)) [
      | inl here ↦
          let same_task : u ≡ t = ground arith in
          let (v, found, over) = resolved all u.previous p waits (rw same_task f) in
          let found' : task_at ts p ≡ some v =
            sym (same p (omega arith) ∙ ground (arith, ==_iff (length ts) p)) ∙ found in
          rw here (done_up_to ts p v o found' over next)
      | inr older ↦ rw older (
          is_free-before all ts id t
            (λ k lt. same k (omega arith) ∙ ground (arith, ==_iff (length ts) k)) o (rw older at e)
            f)
    ]

pub with_phase-running :
    (ts : List Task) (id : ℕ) (t : Task)
    → Ordered ts
    → task_at ts id ≡ some t
    → is_done t.phase ≡ false
    → all_done (before ts id) ≡ true
    → Ordered (with_phase ts id running)
with_phase-running [] id t o e n h = tt
with_phase-running (u ∷ ts) id t (link, started, o) e n h = elim (Bool-cases (length ts == id)) [
  | inl here ↦ rw here (link, (λ _. rw here at h), o)
  | inr older ↦
      let e' = rw older at e in
      let open_one : all_done ts ≢ true = λ q. ground (arith, done_at ts id t q e') in
      rw older (
        elim link [
          | inl (first, quiet) ↦ absurd (open_one quiet)
          | inr (p, waits, next) ↦ inr (p, waits, length-with_phase ts id running ∙ next)
        ],
        (λ s. absurd (open_one (started s))),
        with_phase-running ts id t o e' n (rw older at h),
      )
]

pub with_phase-done :
    (ts : List Task) (id : ℕ) (t : Task)
    → Ordered ts
    → task_at ts id ≡ some t
    → is_waiting t.phase ≡ false
    → Ordered (with_phase ts id done)
with_phase-done [] id t o e n = tt
with_phase-done (u ∷ ts) id t (link, started, o) e n = elim (Bool-cases (length ts == id)) [
  | inl here ↦ let same : u ≡ t = ground arith in rw here (link, (λ _. started (rw same n)), o)
  | inr older ↦ rw older (
    elim link [
      | inl (first, quiet) ↦ inl (first, all_done-with_phase ts id quiet)
      | inr (p, waits, next) ↦ inr (p, waits, length-with_phase ts id done ∙ next)
    ],
    (λ s. all_done-with_phase ts id (started s)),
    with_phase-done ts id t o (rw older at e) n,
  )
]
