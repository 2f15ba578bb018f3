-- ===== src/Captcha/Keeping.antt =====
-- The table of sessions through every step of the captcha service.
use qq_guardian.Base.{
  ℕ, ◌≤◌, ◌≡◌, refl, Bool, true, false, ◌||◌, not, List, [], ◌∷◌, ◌++◌, String, ltb, leb, any,
  has_key, arith, Option-cases, inl, inr, if_cases, sym, subst, DistinctKeys-add, All-append,
  length,
}
use qq_guardian.Approval.Records.{ApprovalRecord, find_by_id, is_captcha}
use qq_guardian.Captcha.Sessions.{
  Session, Office, key_of, with_sessions, close_session, is_open_session, mark_approval_pending,
}
use qq_guardian.Captcha.Reconcile.{
  Reconciliation, close_retired, reconcile_active_sessions, is_timely_at, has_code,
  max_active_captcha_sessions_per_user,
}
use qq_guardian.Captcha.Service.{
  CaptchaConfig, Puzzle, IssueResult, nothing_issued, capped, failed, issued, new_session,
  is_unsolved_of, drawn, claim, allocate, issue, retired_notice, deliver,
}
use qq_guardian.Captcha.Attempts.{IsWithin, IsSound, closed-IsSound}

close_session-IsSound :
    (s : Office) (id : ℕ) → IsSound s.sessions → IsSound (close_session s id).sessions
unfolding close_session
close_session-IsSound s id h = closed-IsSound (is_open_session id) s.sessions h

close_retired-IsSound :
    (s : Office) (xs : List Session) → IsSound s.sessions → IsSound (close_retired s xs).sessions
unfolding close_retired mark_approval_pending
close_retired-IsSound s [] h = h
close_retired-IsSound s (x ∷ xs) h =
    close_retired-IsSound
      (mark_approval_pending (close_session s x.id) x.approval_id
        "captcha_active_session_limit_migration")
      xs (close_session-IsSound s x.id h)

pub retired_notice-sessions :
    (s : Office) (user : ℕ) (xs : List Session) → (retired_notice s user xs).sessions ≡ s.sessions
retired_notice-sessions s user [] = refl
retired_notice-sessions s user (x ∷ xs) = refl

pub deliver-IsSound :
    (s : Office) (approval_id user : ℕ) (result : IssueResult) (delivered : Bool)
    → IsSound s.sessions
    → IsSound (deliver s approval_id user result delivered).0.sessions
unfolding deliver mark_approval_pending
deliver-IsSound s approval_id user (nothing_issued retired) delivered h =
    subst IsSound (sym (retired_notice-sessions s user retired)) h
deliver-IsSound s approval_id user (capped retired) delivered h =
    subst IsSound (sym (retired_notice-sessions s user retired)) h
deliver-IsSound s approval_id user failed delivered h = h
deliver-IsSound s approval_id user (issued retired id) true h =
    subst IsSound (sym (retired_notice-sessions s user retired)) h
deliver-IsSound s approval_id user (issued retired id) false h =
    close_session-IsSound _ id (subst IsSound (sym (retired_notice-sessions s user retired)) h)

module _ (code_of : ℕ → String) where
  pub reconcile-IsSound :
      (s : Office) (user now : ℕ)
      → IsSound s.sessions
      → IsSound (reconcile_active_sessions code_of s user now).0.sessions
  unfolding reconcile_active_sessions
  reconcile-IsSound s user now h = close_retired-IsSound _ _ (closed-IsSound _ s.sessions h)

  module _ (text_of : ℕ → String) (uuids : ℕ → ℕ) where
    claim-IsSound :
        (s : Office) (r : ApprovalRecord) (retired : List Session) (cfg : CaptchaConfig)
        (puzzle : Puzzle) (id now : ℕ)
        → 1 ≤ cfg.max_attempts
        → IsSound s.sessions
        → IsSound (claim code_of text_of uuids s r retired cfg puzzle id now).0.sessions
    unfolding claim
    claim-IsSound s r retired cfg puzzle id now positive h =
        let x = new_session r cfg puzzle id now in
        if_cases (λ (p : Office × IssueResult). IsSound p.0.sessions)
          (any (has_key key_of id) s.sessions) (λ _. h)
          (λ free.
            let added : IsSound (s.sessions ++ x ∷ []) = (
              DistinctKeys-add key_of s.sessions x free h.0,
              All-append IsWithin s.sessions (x ∷ []) h.1 (((omega arith), (λ _. omega arith)), tt),
            ) in
            if_cases (λ (p : Office × IssueResult). IsSound p.0.sessions)
              (any (is_timely_at r.id now) s.desk.records.rows) (λ _. added)
              (λ _. close_session-IsSound (with_sessions s (s.sessions ++ x ∷ [])) id added))

    allocate-IsSound :
        (s : Office) (rec : Reconciliation) (r : ApprovalRecord) (cfg : CaptchaConfig)
        (puzzle : Puzzle) (now : ℕ)
        → 1 ≤ cfg.max_attempts
        → IsSound s.sessions
        → IsSound (allocate code_of text_of uuids (s, rec) r cfg puzzle now).0.sessions
    unfolding allocate mark_approval_pending
    allocate-IsSound s rec r cfg puzzle now positive h =
        let id = drawn code_of rec.active uuids 8 in
        if_cases (λ (p : Office × IssueResult). IsSound p.0.sessions)
          (leb max_active_captcha_sessions_per_user (length rec.active)) (λ _. h)
          (λ _.
            if_cases (λ (p : Office × IssueResult). IsSound p.0.sessions)
              (has_code code_of rec.active (code_of id)) (λ _. h)
              (λ _. claim-IsSound s r rec.retired cfg puzzle id now positive h))

    pub issue-IsSound :
        (s : Office) (approval_id : ℕ) (cfg : CaptchaConfig) (puzzle : Puzzle) (read_at now : ℕ)
        → 1 ≤ cfg.max_attempts
        → IsSound s.sessions
        → IsSound (issue code_of text_of uuids s approval_id cfg puzzle read_at now).0.sessions
    unfolding issue allocate mark_approval_pending
    issue-IsSound s approval_id cfg puzzle read_at now positive h =
        elim (Option-cases (find_by_id s.desk.records approval_id)) [
          | inl missing ↦ rw (missing, issue) h
          | inr (r, found) ↦
              rw (found, issue)
                (if_cases (λ (p : Office × IssueResult). IsSound p.0.sessions)
                  (not (is_captcha r.status) || ltb r.expires_at read_at) (λ _. h)
                  (λ _.
                    if_cases (λ (p : Office × IssueResult). IsSound p.0.sessions)
                      (any (is_unsolved_of approval_id) s.sessions) (λ _. h)
                      (λ _.
                        allocate-IsSound (reconcile_active_sessions code_of s r.user_id now).0
                          (reconcile_active_sessions code_of s r.user_id now).1 r cfg puzzle now
                          positive (reconcile-IsSound s r.user_id now h))))
        ]
