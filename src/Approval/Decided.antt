-- ===== src/Approval/Decided.antt =====
-- Decided approval records under every step of the service.
use qq_guardian.Base.{
  ℕ, ◌<◌, ◌≡◌, refl, Bool, true, false, not, List, [], ◌∷◌, Option, some, String, leb, arith, find,
  has_key, All-update, Bool-cases, Option-cases, inl, inr, if_cases, subst, ==_iff, find-key, ◌==◌,
}
use qq_guardian.Approval.Records.{
  ApprovalRecord, id_of, is_open, is_pending, is_captcha, find_by_id, expire_pending_if_expired,
  expire_old_pending, is_lapsed, as_expired,
}
use qq_guardian.Approval.Service.{
  Desk, Call, approve_manually, reject_manually, approve_after_captcha, reject_after_captcha_fail,
}
use qq_guardian.Approval.Rows.{
  find-untouched, expire_old_pending-find, expire_old_pending-IsNumbered, approve-records,
  reject-records,
}
use qq_guardian.Approval.Steps.{
  Step, join_requested, approved_by, rejected_by, captcha_passed, captcha_failed, overdue_swept,
  step, run,
}
use qq_guardian.Approval.Kept.{IsDecided, concluded-IsDecided, handle-IsDecided}

module _ (accepts : List Call → Call → Bool) (k : ℕ) (c : ApprovalRecord) where
  -- The record of a manual or captcha decision is open, so it is another one.
  other_record :
      (s : Desk) (id : ℕ) (r : ApprovalRecord)
      → find_by_id s.records id ≡ some r
      → is_open r ≡ true
      → IsDecided k c s
      → has_key id_of r.id c ≡ false
  unfolding find_by_id
  other_record s id r found is_waiting (decided, closed, numbered) =
      let at : r.id ≡ id = find-key id_of id s.records.rows r found in
      let at' : c.id ≡ k = find-key id_of k s.records.rows c decided in
      elim (Bool-cases (c.id == r.id)) [
        | inr other ↦ other
        | inl hit ↦
            let same : k ≡ id = ground (arith, ==_iff c.id r.id) in
            let one : find (has_key id_of id) s.records.rows ≡ some c =
              subst (λ n. find (has_key id_of n) s.records.rows ≡ some c) same decided in
            let equal : r ≡ c = cc in absurd (cc)
      ]

  expired-IsDecided :
      (s : Desk) (id now : ℕ)
      → IsDecided k c s
      → IsDecided k c (record s { records = expire_pending_if_expired s.records id now })
  unfolding find_by_id expire_pending_if_expired
  expired-IsDecided s id now (found, closed, numbered) = (
    find-untouched id_of k (is_lapsed id now) (as_expired now) s.records.rows c (λ _. refl) found
        (ground arith),
    closed,
    All-update (λ (r : ApprovalRecord). r.id < s.records.next_id) (is_lapsed id now)
        (as_expired now) s.records.rows (λ _ _ h. h) numbered,
  )

  swept-IsDecided :
      (s : Desk) (now : ℕ)
      → IsDecided k c s
      → IsDecided k c (record s { records = expire_old_pending s.records now })
  swept-IsDecided s now (found, closed, numbered) = (
    expire_old_pending-find s.records now k c found closed,
    closed,
    expire_old_pending-IsNumbered s.records now numbered,
  )

  approve_manually-IsDecided :
      (s : Desk) (id : ℕ) (operator : String) (now : ℕ)
      → IsDecided k c s
      → IsDecided k c (approve_manually accepts s id operator now).0
  unfolding approve_manually
  approve_manually-IsDecided s id operator now d = elim (Option-cases (find_by_id s.records id)) [
    | inl missing ↦ rw (missing, approve_manually) d
    | inr (r, found) ↦
        rw (found, approve_manually)
          (if_cases (λ (x : Desk × Bool). IsDecided k c x.0) (not (is_pending r.status)) (λ _. d)
            (λ waits.
              if_cases (λ (x : Desk × Bool). IsDecided k c x.0) (leb r.expires_at now)
                (λ _. expired-IsDecided s r.id now d)
                (λ _.
                  concluded-IsDecided accepts k c _ s _ _ _ _ _ _ _ _
                    (approve-records accepts _ _ _ _) (other_record s id r found (ground arith) d)
                    d)))
  ]

  reject_manually-IsDecided :
      (s : Desk) (id : ℕ) (operator reason : String) (now : ℕ)
      → IsDecided k c s
      → IsDecided k c (reject_manually accepts s id operator reason now).0
  unfolding reject_manually
  reject_manually-IsDecided s id operator reason now d =
      elim (Option-cases (find_by_id s.records id)) [
        | inl missing ↦ rw (missing, reject_manually) d
        | inr (r, found) ↦
            rw (found, reject_manually)
              (if_cases (λ (x : Desk × Bool). IsDecided k c x.0) (not (is_pending r.status))
                (λ _. d)
                (λ waits.
                  if_cases (λ (x : Desk × Bool). IsDecided k c x.0) (leb r.expires_at now)
                    (λ _. expired-IsDecided s r.id now d)
                    (λ _.
                      concluded-IsDecided accepts k c _ s _ _ _ _ _ _ _ _
                        (reject-records accepts _ _ _ _)
                        (other_record s id r found (ground arith) d) d)))
      ]

  approve_after_captcha-IsDecided :
      (s : Desk) (id now : ℕ)
      → IsDecided k c s
      → IsDecided k c (approve_after_captcha accepts s id now).0
  unfolding approve_after_captcha
  approve_after_captcha-IsDecided s id now d = elim (Option-cases (find_by_id s.records id)) [
    | inl missing ↦ rw (missing, approve_after_captcha) d
    | inr (r, found) ↦
        rw (found, approve_after_captcha)
          (if_cases (λ (x : Desk × Option Bool). IsDecided k c x.0) (not (is_captcha r.status))
            (λ _. d)
            (λ waits.
              concluded-IsDecided accepts k c _ s _ _ _ _ _ _ _ _ (approve-records accepts _ _ _ _)
                (other_record s id r found (ground arith) d) d))
  ]

  reject_after_captcha_fail-IsDecided :
      (s : Desk) (id : ℕ) (reason : String) (now : ℕ)
      → IsDecided k c s
      → IsDecided k c (reject_after_captcha_fail accepts s id reason now).0
  unfolding reject_after_captcha_fail
  reject_after_captcha_fail-IsDecided s id reason now d =
      elim (Option-cases (find_by_id s.records id)) [
        | inl missing ↦ rw (missing, reject_after_captcha_fail) d
        | inr (r, found) ↦
            rw (found, reject_after_captcha_fail)
              (if_cases (λ (x : Desk × Option Bool). IsDecided k c x.0) (not (is_captcha r.status))
                (λ _. d)
                (λ waits.
                  concluded-IsDecided accepts k c _ s _ _ _ _ _ _ _ _
                    (reject-records accepts _ _ _ _) (other_record s id r found (ground arith) d)
                    d))
      ]

  module _ (test : String → String → Option Bool)
      (builtin_reject builtin_approve : List (String → Bool)) where
    step-IsDecided :
        (s : Desk) (x : Step)
        → IsDecided k c s
        → IsDecided k c (step accepts test builtin_reject builtin_approve s x)
    unfolding step
    step-IsDecided s (join_requested e w) d =
        handle-IsDecided accepts k c test builtin_reject builtin_approve s e w d
    step-IsDecided s (approved_by id operator now) d =
        approve_manually-IsDecided s id operator now d
    step-IsDecided s (rejected_by id operator reason now) d =
        reject_manually-IsDecided s id operator reason now d
    step-IsDecided s (captcha_passed id now) d = approve_after_captcha-IsDecided s id now d
    step-IsDecided s (captcha_failed id reason now) d =
        reject_after_captcha_fail-IsDecided s id reason now d
    step-IsDecided s (overdue_swept now) d = swept-IsDecided s now d

    -- In a table whose numbers are below the next one, a record that is approved or rejected, or that is
    -- expired with no decision about it under way, is the same record after any sequence of join requests,
    -- manual decisions, captcha outcomes and sweeps, whatever the provider answers and whichever sweeps
    -- come in while a decision waits for it. (A decision is one step, so none is under way in a state.)
    pub run-IsDecided :
        (s : Desk) (xs : List Step)
        → IsDecided k c s
        → IsDecided k c (run accepts test builtin_reject builtin_approve s xs)
    unfolding run
    run-IsDecided s [] d = d
    run-IsDecided s (x ∷ xs) d =
        run-IsDecided (step accepts test builtin_reject builtin_approve s x) xs
          (step-IsDecided s x d)
