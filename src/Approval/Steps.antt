-- ===== src/Approval/Steps.antt =====
-- The service as a machine: a step is a join request, a decision of an operator, the outcome of a captcha
-- or the sweep of overdue requests.
use qq_guardian.Base.{ℕ, Bool, List, [], ◌∷◌, Option, String}
use qq_guardian.Approval.Records.{expire_old_pending}
use qq_guardian.Approval.Service.{
  Desk, Call, JoinRequest, Surroundings, handle_join_request, approve_manually, reject_manually,
  approve_after_captcha, reject_after_captcha_fail, with_records,
}

pub data Step : Type 0 where
  join_requested : JoinRequest → Surroundings → Step
  approved_by : (id : ℕ) → (operator : String) → (now : ℕ) → Step
  rejected_by : (id : ℕ) → (operator reason : String) → (now : ℕ) → Step
  captcha_passed : (id now : ℕ) → Step
  captcha_failed : (id : ℕ) → (reason : String) → (now : ℕ) → Step
  overdue_swept : ℕ → Step

module _ (accepts : List Call → Call → Bool) (test : String → String → Option Bool)
    (builtin_reject builtin_approve : List (String → Bool)) where
  -- The state after a step, whether it ends in an exception or not.
  unfoldable pub step : Desk → Step → Desk
  step s (join_requested e w) =
      (handle_join_request accepts test builtin_reject builtin_approve s e w).0
  step s (approved_by id operator now) = (approve_manually accepts s id operator now).0
  step s (rejected_by id operator reason now) = (reject_manually accepts s id operator reason now).0
  step s (captcha_passed id now) = (approve_after_captcha accepts s id now).0
  step s (captcha_failed id reason now) = (reject_after_captcha_fail accepts s id reason now).0
  step s (overdue_swept now) = with_records s (expire_old_pending s.records now)

  unfoldable pub run : Desk → List Step → Desk
  run s [] = s
  run s (x ∷ xs) = run (step s x) xs
