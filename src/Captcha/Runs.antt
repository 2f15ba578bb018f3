-- ===== src/Captcha/Runs.antt =====
-- Runs of the captcha service: what the answers and the sweeps leave of the table of sessions.
use qq_guardian.Base.{
  ℕ, ◌+◌, ◌≡◌, Bool, List, [], ◌∷◌, some, String, ltb, leb, find, any, select, update_where,
  has_key, if◌then◌else◌, arith, Option-cases, inl, inr, if_cases, sym, subst, All, find-key,
}
use qq_guardian.Approval.Service.{Call}
use qq_guardian.Captcha.Sessions.{
  Session, timed_out, too_many_attempts, Office, key_of, find_session, with_sessions,
  is_open_session, as_solved,
}
use qq_guardian.Captcha.Reconcile.{reconcile_active_sessions}
use qq_guardian.Captcha.Selection.{is_right, select_answer}
use qq_guardian.Captcha.Answers.{
  is_open_in_time, tried, is_stale_of, stalest_first, first_stale, judge, process_answer,
  reject_expired_session, expire_each, expire_all_stale, answer_active, handle_private_message,
}
use qq_guardian.Captcha.Steps.{
  Step, issuing, delivering, reconciling, message_received, answering, expiring, sweeping,
  desk_changed, IsConfigured, step, run,
}
use qq_guardian.Captcha.Attempts.{
  IsSound, tried_closed-IsSound, tried-IsSound, approve_session-sessions, reject_session-sessions,
  reject_session-IsSound,
}
use qq_guardian.Captcha.Keeping.{
  retired_notice-sessions, deliver-IsSound, reconcile-IsSound, issue-IsSound,
}

module _ (accepts : List Call → Call → Bool) where
  expire-IsSound :
      (s : Office) (id now : ℕ)
      → IsSound s.sessions
      → IsSound (reject_expired_session accepts s id now).sessions
  unfolding reject_expired_session
  expire-IsSound s id now h = elim (Option-cases (find_session s id)) [
    | inl missing ↦ rw (missing, reject_expired_session) h
    | inr (x, found) ↦
        rw (found, reject_expired_session)
          (if_cases (λ (s' : Office). IsSound s'.sessions) x.solved (λ _. h)
            (λ _. reject_session-IsSound accepts s x "Captcha expired" (timed_out x.user_id) now h))
  ]

  expire_each-IsSound :
      (s : Office) (xs : List Session) (is_available : ℕ → Bool) (now : ℕ)
      → IsSound s.sessions
      → IsSound (expire_each accepts s xs is_available now).sessions
  unfolding expire_each
  expire_each-IsSound s [] is_available now h = h
  expire_each-IsSound s (x ∷ xs) is_available now h =
      expire_each-IsSound
        (if is_available x.id then reject_expired_session accepts s x.id now else s) xs is_available
        now
        (if_cases (λ (s' : Office). IsSound s'.sessions) (is_available x.id)
          (λ _. expire-IsSound s x.id now h) (λ _. h))

  module _ (to_lower_case : String → String) (sha256 : String → ℕ) where
    counted_attempt-IsSound :
        (s : Office) (id : ℕ) (x : Session) (answer : String) (later : ℕ)
        → find (has_key key_of id) s.sessions ≡ some x
        → IsSound s.sessions
        → IsSound
            (judge accepts to_lower_case sha256
              (with_sessions s (update_where (is_open_in_time id later) tried s.sessions))
              x
              answer
              later).sessions
    unfolding judge
    counted_attempt-IsSound s id x answer later found h =
        let s' = with_sessions s (update_where (is_open_in_time id later) tried s.sessions) in
        let same : id ≡ x.id = sym (find-key key_of id s.sessions x found) in
        let closed : IsSound (update_where (is_open_session x.id) as_solved s'.sessions) =
          subst (λ k. IsSound (update_where (is_open_session k) as_solved s'.sessions)) same
            (tried_closed-IsSound id later s.sessions h) in
        if_cases (λ (t : Office). IsSound t.sessions) (is_right to_lower_case sha256 x answer)
          (λ _. subst IsSound (sym (approve_session-sessions accepts s' x later)) closed)
          (λ _.
            if_cases (λ (t : Office). IsSound t.sessions) (leb x.max_attempts (x.attempts + 1))
              (λ _.
                subst IsSound
                  (sym (
                    reject_session-sessions accepts s' x "Too many wrong attempts"
                      (too_many_attempts x.user_id) later))
                  closed)
              (λ room. tried-IsSound id later s.sessions x found (ground arith) h))

    process_answer-IsSound :
        (s : Office) (id : ℕ) (answer : String) (now later : ℕ)
        → IsSound s.sessions
        → IsSound (process_answer accepts to_lower_case sha256 s id answer now later).sessions
    unfolding process_answer find_session
    process_answer-IsSound s id answer now later h =
        elim (Option-cases (find (has_key key_of id) s.sessions)) [
          | inl missing ↦ rw (missing, process_answer) h
          | inr (x, found) ↦
              rw (found, process_answer)
                (if_cases (λ (t : Office). IsSound t.sessions) x.solved (λ _. h)
                  (λ _.
                    if_cases (λ (t : Office). IsSound t.sessions) (ltb x.expires_at now)
                      (λ _.
                        reject_session-IsSound accepts s x "Captcha expired" (timed_out x.user_id)
                          now h)
                      (λ _.
                        if_cases (λ (t : Office). IsSound t.sessions)
                          (any (is_open_in_time id later) s.sessions)
                          (λ _. counted_attempt-IsSound s id x answer later found h) (λ _. h))))
        ]

    module _ (code_of : ℕ → String) where
      answer_active-IsSound :
          (s : Office) (user : ℕ) (active : List Session) (raw : String) (now later : ℕ)
          → IsSound s.sessions
          → IsSound
              (answer_active accepts to_lower_case sha256 code_of s user active raw now
                later).0.sessions
      answer_active-IsSound s user [] raw now later h =
          elim (Option-cases (
            first_stale accepts to_lower_case sha256 code_of
              (stalest_first (select (is_stale_of user now s.desk.records.rows) s.sessions)))) [
                | inl nothing ↦ rw (nothing, answer_active) h
                | inr (x, found) ↦
                    rw (found, answer_active) (process_answer-IsSound s x.id raw now later h)
              ]
      answer_active-IsSound s user (x ∷ xs) raw now later h =
          elim (Option-cases (select_answer to_lower_case sha256 code_of (x ∷ xs) raw)) [
            | inl unclear ↦ rw (unclear, answer_active) h
            | inr ((y, answer), chosen) ↦
                rw (chosen, answer_active) (process_answer-IsSound s y.id answer now later h)
          ]

      message-IsSound :
          (s : Office) (is_private : Bool) (user : ℕ) (raw : String) (now later : ℕ)
          → IsSound s.sessions
          → IsSound
              (handle_private_message accepts to_lower_case sha256 code_of s is_private user raw now
                later).0.sessions
      unfolding handle_private_message
      message-IsSound s is_private user raw now later h =
          let (s', r) = reconcile_active_sessions code_of s user now in
          if_cases (λ (p : Office × Bool). IsSound p.0.sessions) is_private
            (λ _. subst IsSound (sym (retired_notice-sessions _ user r.retired)) (
              answer_active-IsSound s' user r.active raw now later
                (reconcile-IsSound code_of s user now h)))
            (λ _. h)

      module _ (text_of : ℕ → String) where
        step-IsSound :
            (s : Office) (x : Step)
            → IsConfigured x
            → IsSound s.sessions
            → IsSound (step accepts to_lower_case sha256 code_of text_of s x).sessions
        unfolding step expire_all_stale
        step-IsSound s (issuing approval_id cfg puzzle uuids read_at now) ok h =
            issue-IsSound code_of text_of uuids s approval_id cfg puzzle read_at now ok h
        step-IsSound s (delivering approval_id user result delivered) ok h =
            deliver-IsSound s approval_id user result delivered h
        step-IsSound s (reconciling user now) ok h = reconcile-IsSound code_of s user now h
        step-IsSound s (message_received is_private user raw now later) ok h =
            message-IsSound s is_private user raw now later h
        step-IsSound s (answering id answer now later) ok h =
            process_answer-IsSound s id answer now later h
        step-IsSound s (expiring id now) ok h = expire-IsSound s id now h
        step-IsSound s (sweeping is_available now) ok h = expire_each-IsSound s _ is_available now h
        step-IsSound s (desk_changed d) ok h = h

        -- If every session is issued with at least one attempt, then in whatever order challenges are issued,
        -- answered and swept and the approval records change, ids stay distinct, no session ever takes more
        -- attempts than it was issued with, and one that took them all is closed.
        pub run-IsSound :
            (s : Office) (xs : List Step)
            → All IsConfigured xs
            → IsSound s.sessions
            → IsSound (run accepts to_lower_case sha256 code_of text_of s xs).sessions
        unfolding run
        run-IsSound s [] ok h = h
        run-IsSound s (x ∷ xs) (first, ok) h =
            run-IsSound (step accepts to_lower_case sha256 code_of text_of s x) xs ok
              (step-IsSound s x first h)
