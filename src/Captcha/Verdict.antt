-- ===== src/Captcha/Verdict.antt =====
-- When an answer to a captcha lets the member in.
use qq_guardian.Base.{
  ℕ, suc, ◌+◌, ◌≤◌, ◌≡◌, ◌↔◌, refl, Bool, true, false, ◌&&◌, not, List, Option, none, some, String,
  leb, ==_iff, find, any, update_where, has_key, if◌then◌else◌, arith, count_where, Bool-cases,
  Option-cases, inl, inr, if_cases, ap, ◌∙◌, DistinctKeys, All, All-find, find_unique, find-key,
  find_of_any, any_found,
}
use qq_guardian.Approval.Records.{is_captcha, find_by_id}
use qq_guardian.Approval.Service.{
  Desk, Call, approve, reject, conclude, answered, approve_request, reject_request,
  approve_after_captcha, reject_after_captcha_fail,
}
use qq_guardian.Approval.Door.{is_approval}
use qq_guardian.Approval.Calls.{count-append, conclude-calls, approve-calls, reject-calls}
use qq_guardian.Captcha.Sessions.{
  Session, Message, timed_out, too_many_attempts, Office, key_of, find_session, with_sessions,
  close_session,
}
use qq_guardian.Captcha.Selection.{is_right}
use qq_guardian.Captcha.Answers.{
  awaits, is_open_in_time, tried, after_approval, after_rejection, approve_session_locked,
  reject_session_locked, judge, process_answer,
}

-- A row with a key is the one that the search finds.
any_at_key :
    (q : Session → Bool) (id : ℕ) (xs : List Session) (x : Session)
    → All (λ y. has_key key_of id y ≡ true → y ≡ x) xs
    → find (has_key key_of id) xs ≡ some x
    → (any (λ y. has_key key_of id y && q y) xs ≡ true) ↔ (q x ≡ true)
any_at_key q id xs x one found =
    let at : has_key key_of id x ≡ true = (==_iff x.id id).1 (find-key key_of id xs x found) in
    (
      (λ h.
          let (y, e) = find_of_any (λ y. has_key key_of id y && q y) xs h in
          let (same, holds) =
            All-find (λ y. has_key key_of id y ≡ true → y ≡ x) (λ y. has_key key_of id y && q y) xs
              one e in
          let equal : y ≡ x = same (ground arith) in rw (← equal) (ground arith)),
      (λ h.
          any_found (λ y. has_key key_of id y && q y) (has_key key_of id) xs x found
            (ground arith)),
    )

module _ (accepts : List Call → Call → Bool) where
  -- How many requests were approved at the provider.
  abbrev pub approvals : Desk → ℕ
  approvals d = count_where is_approval d.calls

  answered-first : (p : Desk × Bool) → (answered accepts p).0 ≡ p.0
  answered-first (d, done) = refl

  approve_after-approvals :
      (d : Desk) (id now : ℕ)
      → awaits (find_by_id d.records id) ≡ true
      → approvals (approve_after_captcha accepts d id now).0 ≡ suc (approvals d)
  unfolding approve_after_captcha
  approve_after-approvals d id now waits = elim (Option-cases (find_by_id d.records id)) [
    | inl missing ↦ absurd (let g = rw missing at waits in cc)
    | inr (r, found) ↦
        let is : is_captcha r.status ≡ true = rw found at waits in
        rw (found, approve_after_captcha, is)
          (ap approvals (
              answered-first (
                conclude accepts (approve accepts d r.flag none "captcha_passed") r.id r.group_id _
                  _ _ _ _ now))
            ∙ ap (count_where is_approval)
                (conclude-calls accepts _ _ _ _ _ _ _ _ _ ∙ approve-calls accepts d r.flag _ _)
            ∙ ground (arith, count-append is_approval d.calls (approve_request r.flag)))
  ]

  reject_after-approvals :
      (d : Desk) (id : ℕ) (reason : String) (now : ℕ)
      → approvals (reject_after_captcha_fail accepts d id reason now).0 ≡ approvals d
  unfolding reject_after_captcha_fail
  reject_after-approvals d id reason now = elim (Option-cases (find_by_id d.records id)) [
    | inl missing ↦ rw (missing, reject_after_captcha_fail) refl
    | inr (r, found) ↦
        rw (found, reject_after_captcha_fail)
          (if_cases (λ (p : Desk × Option Bool). approvals p.0 ≡ approvals d)
            (not (is_captcha r.status)) (λ _. refl)
            (λ _.
              ap approvals (
                answered-first (
                  conclude accepts (reject accepts d r.flag reason none) r.id r.group_id _ _ _ _ _
                    now))
              ∙ ap (count_where is_approval)
                  (conclude-calls accepts _ _ _ _ _ _ _ _ _ ∙ reject-calls accepts d r.flag _ _)
              ∙ ground (arith, count-append is_approval d.calls (reject_request r.flag reason))))
  ]

  after_approval-desk :
      (s : Office) (x : Session) (p : Desk × Option Bool)
      → (after_approval accepts s x p).desk ≡ p.0
  unfolding close_session
  after_approval-desk s x (d, none) = refl
  after_approval-desk s x (d, some true) = refl
  after_approval-desk s x (d, some false) = refl

  after_rejection-desk :
      (s : Office) (x : Session) (notice : Message) (p : Desk × Option Bool)
      → (after_rejection accepts s x notice p).desk ≡ p.0
  unfolding close_session
  after_rejection-desk s x notice (d, none) = refl
  after_rejection-desk s x notice (d, some true) = refl
  after_rejection-desk s x notice (d, some false) = refl

  approve_session-approvals :
      (s : Office) (x : Session) (now : ℕ)
      → approvals (approve_session_locked accepts s x now).desk
        ≡ approvals s.desk + (if awaits (find_by_id s.desk.records x.approval_id) then 1 else 0)
  unfolding approve_session_locked close_session
  approve_session-approvals s x now =
      elim (Bool-cases (awaits (find_by_id s.desk.records x.approval_id))) [
        | inl waits ↦
            rw (waits, approve_session_locked)
              (ap approvals
                  (after_approval-desk s x (approve_after_captcha accepts s.desk x.approval_id now))
                ∙ approve_after-approvals s.desk x.approval_id now waits
                ∙ ground arith)
        | inr over ↦ rw (over, approve_session_locked) (omega arith)
      ]

  reject_session-approvals :
      (s : Office) (x : Session) (reason : String) (notice : Message) (now : ℕ)
      → approvals (reject_session_locked accepts s x reason notice now).desk ≡ approvals s.desk
  unfolding reject_session_locked close_session
  reject_session-approvals s x reason notice now =
      if_cases (λ (s' : Office). approvals s'.desk ≡ approvals s.desk)
        (awaits (find_by_id s.desk.records x.approval_id))
        (λ _.
          ap approvals (
            after_rejection-desk s x notice
              (reject_after_captcha_fail accepts s.desk x.approval_id reason now))
          ∙ reject_after-approvals s.desk x.approval_id reason now)
        (λ _. refl)

  module _ (to_lower_case : String → String) (sha256 : String → ℕ) where
    -- With a table of distinct ids, processing an answer approves the join request at the provider, with one
    -- call, if and only if the session is open, its time is not over when the answer comes in or when it is
    -- counted, the answer is right, and the request still waits for the captcha.
    pub process_answer-approves_iff :
        (s : Office) (id : ℕ) (answer : String) (now later : ℕ) (x : Session)
        → DistinctKeys key_of s.sessions
        → find_session s id ≡ some x
        → (approvals (process_answer accepts to_lower_case sha256 s id answer now later).desk
            ≡ suc (approvals s.desk))
          ↔ ((x.solved ≡ false)
              × (now ≤ x.expires_at)
              × (later ≤ x.expires_at)
              × (is_right to_lower_case sha256 x answer ≡ true)
              × (awaits (find_by_id s.desk.records x.approval_id) ≡ true))
    unfolding process_answer judge find_session
    process_answer-approves_iff s id answer now later x distinct found =
        let one : All (λ y. has_key key_of id y ≡ true → y ≡ x) s.sessions =
          find_unique key_of id s.sessions x distinct found in
        let open_row =
          any_at_key (λ y. not y.solved && leb later y.expires_at) id s.sessions x one found in
        let tried_s = with_sessions s (update_where (is_open_in_time id later) tried s.sessions) in
        rw (found, process_answer)
          (ground (
            arith,
            open_row,
            approve_session-approvals tried_s x later,
            reject_session-approvals tried_s x "Too many wrong attempts"
                (too_many_attempts x.user_id) later,
            reject_session-approvals s x "Captcha expired" (timed_out x.user_id) now,
          ))
