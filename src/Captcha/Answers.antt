-- ===== src/Captcha/Answers.antt =====
-- The answers of CaptchaService of src/modules/captcha/index.ts, and the sweep of the sessions that lapse.
use qq_guardian.Base.{
  ℕ, ◌+◌, ◌-◌, Bool, true, false, ◌&&◌, ◌||◌, not, List, [], ◌∷◌, Option, none, some, String, ltb,
  leb, ◌==◌, any, select, update_where, has_key, if◌then◌else◌, map,
}
use qq_guardian.Approval.Records.{ApprovalRecord, is_captcha, find_by_id}
use qq_guardian.Approval.Service.{Desk, Call, approve_after_captcha, reject_after_captcha_fail}
use qq_guardian.Captcha.Sessions.{
  Session, Message, selection_hint, wrong_answer, verified, pending_review, timed_out,
  too_many_attempts, captchas_passed, Office, key_of, with_sessions, told, find_session,
  close_session, is_waiting_at,
}
use qq_guardian.Captcha.Reconcile.{reconcile_active_sessions}
use qq_guardian.Captcha.Selection.{is_right, select_answer}
use qq_guardian.Captcha.Service.{bumped, retired_notice}

abbrev pub awaits : Option ApprovalRecord → Bool
awaits none = false
awaits (some r) = is_captcha r.status

abbrev pub with_desk : Office → Desk → Office
with_desk s d = record s { desk = d }

-- `id = ? AND solved = 0 AND expires_at >= ?`
abbrev pub is_open_in_time : (id now : ℕ) → Session → Bool
is_open_in_time id now x = has_key key_of id x && (not x.solved && leb now x.expires_at)

abbrev pub tried : Session → Session
tried x = record x { attempts = x.attempts + 1 }

-- `expires_at < ? AND solved = 0`, of a user whose approval waits.
abbrev pub is_stale_of : (user now : ℕ) → List ApprovalRecord → Session → Bool
is_stale_of user now rows x =
    (x.user_id == user)
    && (not x.solved && (ltb x.expires_at now && any (is_waiting_at x.approval_id) rows))

abbrev pub is_stale : ℕ → Session → Bool
is_stale now x = not x.solved && ltb x.expires_at now

-- ORDER BY expires_at ASC, created_at ASC, id ASC
abbrev pub is_staler : Session → Session → Bool
is_staler x y =
    ltb x.expires_at y.expires_at
    || ((x.expires_at == y.expires_at)
        && (ltb x.created_at y.created_at || ((x.created_at == y.created_at) && ltb x.id y.id)))

abbrev pub insert_stale : Session → List Session → List Session
insert_stale x [] = x ∷ []
insert_stale x (y ∷ ys) =
    let rest = insert_stale x ys in if is_staler y x then y ∷ rest else x ∷ y ∷ ys

abbrev pub stalest_first : List Session → List Session
stalest_first [] = []
stalest_first (x ∷ xs) = insert_stale x (stalest_first xs)

module _ (accepts : List Call → Call → Bool) where
  -- After the call of the approval service: `none` is an exception.
  abbrev pub after_approval : Office → Session → Desk × Option Bool → Office
  after_approval s x (d, none) =
      told (close_session (with_desk s d) x.id) (pending_review x.user_id)
  after_approval s x (d, some false) = close_session (with_desk s d) x.id
  after_approval s x (d, some true) =
      told (bumped (close_session (with_desk s d) x.id) captchas_passed x.group_id)
        (verified x.user_id)

  unfoldable pub approve_session_locked : Office → Session → (now : ℕ) → Office
  approve_session_locked s x now =
      if awaits (find_by_id s.desk.records x.approval_id)
      then after_approval s x (approve_after_captcha accepts s.desk x.approval_id now)
      else close_session s x.id

  abbrev pub after_rejection : Office → Session → Message → Desk × Option Bool → Office
  after_rejection s x notice (d, none) =
      told (close_session (with_desk s d) x.id) (pending_review x.user_id)
  after_rejection s x notice (d, some false) = close_session (with_desk s d) x.id
  after_rejection s x notice (d, some true) = told (close_session (with_desk s d) x.id) notice

  unfoldable pub reject_session_locked :
      Office → Session → (reason : String) → Message → (now : ℕ) → Office
  reject_session_locked s x reason notice now =
      if awaits (find_by_id s.desk.records x.approval_id)
      then after_rejection s x notice
          (reject_after_captcha_fail accepts s.desk x.approval_id reason now)
      else close_session s x.id

  -- The part of an expiry that runs when the lock and a slot are free.
  unfoldable pub reject_expired_session : Office → (id now : ℕ) → Office
  reject_expired_session s id now = elim (find_session s id) [
    | none ↦ s
    | some x ↦
        if x.solved
        then s
        else reject_session_locked s x "Captcha expired" (timed_out x.user_id) now
  ]

  -- `is_available id` tells whether the lock of a session and a slot are free when its turn comes.
  unfoldable pub expire_each :
      Office → List Session → (is_available : ℕ → Bool) → (now : ℕ) → Office
  expire_each s [] is_available now = s
  expire_each s (x ∷ xs) is_available now =
      expire_each (if is_available x.id then reject_expired_session s x.id now else s) xs
        is_available now

  unfoldable pub expire_all_stale : Office → (is_available : ℕ → Bool) → (now : ℕ) → Office
  expire_all_stale s is_available now =
      expire_each s (stalest_first (select (is_stale now) s.sessions)) is_available now

  module _ (to_lower_case : String → String) (sha256 : String → ℕ) where
    -- After the attempt is counted; `x` is the row as it was before.
    unfoldable pub judge : Office → Session → (answer : String) → (now : ℕ) → Office
    judge s x answer now =
        if is_right to_lower_case sha256 x answer
        then approve_session_locked s x now
        else if leb x.max_attempts (x.attempts + 1)
        then reject_session_locked s x "Too many wrong attempts" (too_many_attempts x.user_id) now
        else told s (wrong_answer x.user_id (x.max_attempts - (x.attempts + 1)))

    -- `now` and `later` are the two times that it reads.
    unfoldable pub process_answer : Office → (id : ℕ) → (answer : String) → (now later : ℕ) → Office
    process_answer s id answer now later = elim (find_session s id) [
      | none ↦ s
      | some x ↦
          if x.solved
          then s
          else if ltb x.expires_at now
          then reject_session_locked s x "Captcha expired" (timed_out x.user_id) now
          else if any (is_open_in_time id later) s.sessions
          then judge (with_sessions s (update_where (is_open_in_time id later) tried s.sessions)) x
              answer later
          else s
    ]

    module _ (code_of : ℕ → String) where
      abbrev pub first_stale : List Session → Option Session
      first_stale [] = none
      first_stale (x ∷ xs) = some x

      abbrev pub answer_active :
          Office
          → (user : ℕ) → (active : List Session) → (raw_message : String) → (now later : ℕ)
          → Office × Bool
      answer_active s user [] raw now later =
          elim (first_stale
            (stalest_first (select (is_stale_of user now s.desk.records.rows) s.sessions))) [
              | none ↦ (s, false)
              | some x ↦ (process_answer s x.id raw now later, true)
            ]
      answer_active s user (x ∷ xs) raw now later =
          elim (select_answer to_lower_case sha256 code_of (x ∷ xs) raw) [
            | none ↦ (told s (selection_hint user (map key_of (x ∷ xs))), true)
            | some (y, answer) ↦ (process_answer s y.id answer now later, true)
          ]

      -- A message; `true` beside the state if the captcha took it.
      unfoldable pub handle_private_message :
          Office
          → (is_private : Bool) → (user : ℕ) → (raw_message : String) → (now later : ℕ)
          → Office × Bool
      handle_private_message s is_private user raw now later =
          let (s', r) = reconcile_active_sessions code_of s user now in
          let (s'', taken) = answer_active s' user r.active raw now later in
          if is_private then (retired_notice s'' user r.retired, taken) else (s, false)
