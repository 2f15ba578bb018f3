-- ===== src/Captcha/Service.antt =====
-- CaptchaService of src/modules/captcha/index.ts. What runs under the lock of the user or of the approval is
-- one step here, apart from the delivery of a challenge.
use qq_guardian.Base.{
  ℕ, zero, suc, ◌+◌, ◌*◌, Bool, true, false, ◌&&◌, ◌||◌, not, List, [], ◌∷◌, ◌++◌, none, some,
  String, ltb, leb, ◌==◌, any, update_where, has_key, if◌then◌else◌, length, map,
}
use qq_guardian.Approval.Records.{ApprovalRecord, is_captcha, find_by_id}
use qq_guardian.Captcha.Sessions.{
  Session, challenge_issued, sessions_retired, session_limit, Counter, captchas_total, Office,
  key_of, with_sessions, with_approvals, told, close_session, mark_approval_pending,
}
use qq_guardian.Captcha.Reconcile.{
  max_active_captcha_sessions_per_user, is_timely_at, Reconciliation, has_code,
  reconcile_active_sessions,
}

-- `captcha` of the configuration, and what `_generate` returns.
pub record CaptchaConfig : Type 0 where
  pub ttl_seconds : ℕ
  pub max_attempts : ℕ

pub record Puzzle : Type 0 where
  pub challenge : String
  pub answer : String

pub data IssueResult : Type 0 where
  nothing_issued : (retired : List Session) → IssueResult
  capped : (retired : List Session) → IssueResult
  issued : (retired : List Session) (id : ℕ) → IssueResult
  failed : IssueResult

abbrev pub bumped : Office → Counter → (group : ℕ) → Office
bumped s counter group = record s { counts = s.counts ++ (counter, group) ∷ [] }

abbrev pub is_unsolved_of : (approval : ℕ) → Session → Bool
is_unsolved_of approval x = (x.approval_id == approval) && not x.solved

abbrev pub with_captcha : String → (now : ℕ) → ApprovalRecord → ApprovalRecord
with_captcha id now r = record r { captcha_id = some id; processed_at = some now }

-- The draws of `randomUUID`: the first of `uuids` whose code is free, the last one after `attempts` more.
abbrev pub drawn : (code_of : ℕ → String) → List Session → (uuids : ℕ → ℕ) → (attempts : ℕ) → ℕ
drawn code_of active uuids zero = uuids 0
drawn code_of active uuids (suc n) =
    let rest = drawn code_of active (λ k. uuids (suc k)) n in
    if has_code code_of active (code_of (uuids 0)) then rest else uuids 0

abbrev pub new_session : ApprovalRecord → CaptchaConfig → Puzzle → (id now : ℕ) → Session
new_session r cfg puzzle id now = record {
  id = id;
  group_id = r.group_id;
  user_id = r.user_id;
  approval_id = r.id;
  challenge = puzzle.challenge;
  answer = puzzle.answer;
  attempts = 0;
  max_attempts = cfg.max_attempts;
  created_at = now;
  expires_at = now + cfg.ttl_seconds * 1000;
  solved = false;
}

-- `code_of` gives the codes, `text_of` the text of a UUID, `uuids` what `randomUUID` draws.
module _ (code_of : ℕ → String) (text_of : ℕ → String) (uuids : ℕ → ℕ) where
  -- The insertion of a session, which fails if its id is taken, and the claim of its approval.
  unfoldable pub claim :
      Office
      → ApprovalRecord
      → (retired : List Session) → CaptchaConfig
      → Puzzle
      → (id now : ℕ) → Office × IssueResult
  claim s r retired cfg puzzle id now =
      let inserted = with_sessions s (s.sessions ++ new_session r cfg puzzle id now ∷ []) in
      let claimed = with_approvals inserted (
        update_where (is_timely_at r.id now) (with_captcha (text_of id) now) s.desk.records.rows) in
      if any (has_key key_of id) s.sessions
      then (s, failed)
      else if any (is_timely_at r.id now) s.desk.records.rows
      then (bumped claimed captchas_total r.group_id, issued retired id)
      else (close_session inserted id, nothing_issued retired)

  unfoldable pub allocate :
      Office × Reconciliation → ApprovalRecord → CaptchaConfig → Puzzle → ℕ → Office × IssueResult
  allocate (s, r) current cfg puzzle now =
      let id = drawn code_of r.active uuids 8 in
      if leb max_active_captcha_sessions_per_user (length r.active)
      then (mark_approval_pending s current.id "captcha_active_session_limit", capped r.retired)
      else if has_code code_of r.active (code_of id)
      then (s, failed)
      else claim s current r.retired cfg puzzle id now

  -- What runs under the lock of the user; `read_at` and `now` are the two times that it reads.
  unfoldable pub issue :
      Office → (approval_id : ℕ) → CaptchaConfig → Puzzle → (read_at now : ℕ) → Office × IssueResult
  issue s approval_id cfg puzzle read_at now = elim (find_by_id s.desk.records approval_id) [
    | none ↦ (s, nothing_issued [])
    | some current ↦
        if not (is_captcha current.status) || ltb current.expires_at read_at
        then (s, nothing_issued [])
        else if any (is_unsolved_of approval_id) s.sessions
        then (s, nothing_issued [])
        else allocate (reconcile_active_sessions code_of s current.user_id now) current cfg puzzle
            now
  ]

abbrev pub retired_notice : Office → (user : ℕ) → List Session → Office
retired_notice s user [] = s
retired_notice s user (x ∷ xs) = told s (sessions_retired user (map key_of (x ∷ xs)))

-- The messages after `issue`; `delivered` tells whether the provider takes the challenge. A `false` beside the
-- state is an exception.
unfoldable pub deliver :
    Office → (approval_id user : ℕ) → IssueResult → (delivered : Bool) → Office × Bool
deliver s approval_id user (nothing_issued retired) delivered =
    (retired_notice s user retired, true)
deliver s approval_id user (capped retired) delivered =
    (told (retired_notice s user retired) (session_limit user), true)
deliver s approval_id user failed delivered = (s, false)
deliver s approval_id user (issued retired id) true =
    (told (retired_notice s user retired) (challenge_issued user id), true)
deliver s approval_id user (issued retired id) false = (
  mark_approval_pending
      (close_session (told (retired_notice s user retired) (challenge_issued user id)) id)
      approval_id "captcha_delivery_failed",
  false,
)
