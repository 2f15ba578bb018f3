-- ===== src/Locks/Fifo.antt =====
-- Every step of a lock keeps the order of its calls.
use qq_guardian.Base.{
  ℕ, suc, ◌≡◌, refl, true, false, List, [], ◌∷◌, Option, none, some, ◌==◌, if◌then◌else◌, is_none,
  length, arith, ◌⊎◌, inl, inr, Bool-cases, ◌∙◌,
}
use qq_guardian.Locks.{
  waiting, running, done, is_waiting, is_done, Task, Lock, task_at, with_phase, with_lock, is_tail,
  release, Step, enter, resume, finish, Reach, start, later,
}
use qq_guardian.Locks.Order.{
  all_done, Ordered, Tailed, Inv, length-with_phase, done_at, is_free-before, with_phase-running,
  with_phase-done,
}

with_lock-Inv : (s : Lock) → Inv s → Inv (with_lock s)
unfolding with_lock
with_lock-Inv s h = record {
  ordered = (link s.tail s.tasks h.tailed, (λ e. free s.tail s.tasks h.tailed e), h.ordered);
  tailed = inr (refl, ground arith);
}
  where
    link :
        (tail : Option ℕ) (ts : List Task)
        → Tailed tail ts
        → (tail ≡ none) × (all_done ts ≡ true) ⊎ (p : ℕ) × (tail ≡ some p) × (length ts ≡ suc p)
    link tail [] e = inl (e, refl)
    link tail (t ∷ ts) (inl h) = inl h
    link tail (t ∷ ts) (inr (mine, active)) = inr (length ts, mine, refl)

    free :
        (tail : Option ℕ) (ts : List Task)
        → Tailed tail ts
        → is_waiting (if is_none tail then running else waiting) ≡ false
        → all_done ts ≡ true
    free tail [] h e = refl
    free tail (t ∷ ts) (inl (gone, quiet)) e = quiet
    free tail (t ∷ ts) (inr (mine, active)) e = absurd (ground arith)

resume-Tailed :
    (tail : Option ℕ) (ts : List Task) (id : ℕ) (t : Task)
    → Tailed tail ts
    → task_at ts id ≡ some t
    → is_done t.phase ≡ false
    → Tailed tail (with_phase ts id running)
resume-Tailed tail [] id t h e n = absurd (cc)
resume-Tailed tail (u ∷ ts) id t (inl (gone, quiet)) e n =
    absurd (ground (arith, done_at (u ∷ ts) id t quiet e))
resume-Tailed tail (u ∷ ts) id t (inr (mine, active)) e n = elim (Bool-cases (length ts == id)) [
  | inl here ↦ rw here (inr (mine, refl))
  | inr older ↦ rw older (inr (mine ∙ ground (arith, length-with_phase ts id running), active))
]

release-Tailed :
    (tail : Option ℕ) (ts : List Task) (id : ℕ) (t : Task)
    → Tailed tail ts
    → Ordered ts
    → task_at ts id ≡ some t
    → t.phase ≡ running
    → Tailed (if is_tail tail id then none else tail) (with_phase ts id done)
release-Tailed tail [] id t h o e n = absurd (cc)
release-Tailed tail (u ∷ ts) id t (inl (gone, quiet)) o e n =
    absurd (ground (arith, done_at (u ∷ ts) id t quiet e))
release-Tailed tail (u ∷ ts) id t (inr (mine, active)) (link, started, o) e n =
    elim (Bool-cases (length ts == id)) [
      | inl here ↦
          let same : u ≡ t = ground arith in
          let quiet : all_done ts ≡ true = started (rw (same, n) refl) in
          rw here (inl (ground arith, quiet))
      | inr older ↦ rw older (inr (ground (arith, length-with_phase ts id done), active))
    ]

-- Every step keeps the order.
Step-Inv : {s s' : Lock} → Step s s' → Inv s → Inv s'
unfolding release
Step-Inv {s} enter h = with_lock-Inv s h
Step-Inv {s} (resume id t at waits free) h = record {
  ordered =
      with_phase-running s.tasks id t h.ordered at (ground arith)
        (is_free-before s.tasks s.tasks id t (λ k lt. refl) h.ordered at free);
  tailed = resume-Tailed s.tail s.tasks id t h.tailed at (ground arith);
}
Step-Inv {s} (finish id t at runs) h = record {
  ordered = with_phase-done s.tasks id t h.ordered at (rw runs refl);
  tailed = release-Tailed s.tail s.tasks id t h.tailed h.ordered at runs;
}

pub Reach-Inv : {s : Lock} → Reach s → Inv s
Reach-Inv start = record { ordered = tt; tailed = refl }
Reach-Inv (later r st) = Step-Inv st (Reach-Inv r)
