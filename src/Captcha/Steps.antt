-- ===== src/Captcha/Steps.antt =====
-- The captcha service as a machine. A step is a part of an operation that nothing interrupts, in any order;
-- other components change the approval records between the steps.
use qq_guardian.Base.{ℕ, ◌≤◌, Bool, List, [], ◌∷◌, String}
use qq_guardian.Approval.Service.{Desk, Call}
use qq_guardian.Captcha.Sessions.{Office}
use qq_guardian.Captcha.Reconcile.{reconcile_active_sessions}
use qq_guardian.Captcha.Service.{CaptchaConfig, Puzzle, IssueResult, issue, deliver}
use qq_guardian.Captcha.Answers.{
  with_desk, process_answer, handle_private_message, reject_expired_session, expire_all_stale,
}

pub data Step : Type 0 where
  issuing :
      (approval_id : ℕ) (cfg : CaptchaConfig) (puzzle : Puzzle) (uuids : ℕ → ℕ) (read_at now : ℕ)
      → Step
  delivering : (approval_id user : ℕ) (result : IssueResult) (delivered : Bool) → Step
  reconciling : (user now : ℕ) → Step
  message_received : (is_private : Bool) (user : ℕ) (raw_message : String) (now later : ℕ) → Step
  answering : (id : ℕ) (answer : String) (now later : ℕ) → Step
  expiring : (id now : ℕ) → Step
  sweeping : (is_available : ℕ → Bool) (now : ℕ) → Step
  desk_changed : Desk → Step

-- The schema of the configuration takes no smaller number of attempts.
abbrev pub IsConfigured : Step → Type 0
IsConfigured (issuing approval_id cfg puzzle uuids read_at now) = 1 ≤ cfg.max_attempts
IsConfigured (delivering approval_id user result delivered) = Unit
IsConfigured (reconciling user now) = Unit
IsConfigured (message_received is_private user raw now later) = Unit
IsConfigured (answering id answer now later) = Unit
IsConfigured (expiring id now) = Unit
IsConfigured (sweeping is_available now) = Unit
IsConfigured (desk_changed d) = Unit

module _ (accepts : List Call → Call → Bool) (to_lower_case : String → String) (sha256 : String → ℕ)
    (code_of : ℕ → String) (text_of : ℕ → String) where
  unfoldable pub step : Office → Step → Office
  step s (issuing approval_id cfg puzzle uuids read_at now) =
      (issue code_of text_of uuids s approval_id cfg puzzle read_at now).0
  step s (delivering approval_id user result delivered) =
      (deliver s approval_id user result delivered).0
  step s (reconciling user now) = (reconcile_active_sessions code_of s user now).0
  step s (message_received is_private user raw now later) =
      (handle_private_message accepts to_lower_case sha256 code_of s is_private user raw now
        later).0
  step s (answering id answer now later) =
      process_answer accepts to_lower_case sha256 s id answer now later
  step s (expiring id now) = reject_expired_session accepts s id now
  step s (sweeping is_available now) = expire_all_stale accepts s is_available now
  step s (desk_changed d) = with_desk s d

  unfoldable pub run : Office → List Step → Office
  run s [] = s
  run s (x ∷ xs) = run (step s x) xs
