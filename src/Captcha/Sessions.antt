-- ===== src/Captcha/Sessions.antt =====
-- The table captcha_sessions, and the statements of src/modules/captcha/index.ts on it and on the
-- approval records.
use qq_guardian.Base.{
  ℕ, Bool, true, ◌&&◌, not, List, [], ◌∷◌, ◌++◌, Option, none, some, String, find, update_where,
  has_key,
}
use qq_guardian.Approval.Records.{ApprovalRecord, is_captcha, pending, id_of}
use qq_guardian.Approval.Service.{Desk, with_records}

-- `id` stands for a UUID, in the order of its text.
pub record Session : Type 0 where
  pub id : ℕ
  pub group_id : ℕ
  pub user_id : ℕ
  pub approval_id : ℕ
  pub challenge : String
  pub answer : String
  pub attempts : ℕ
  pub max_attempts : ℕ
  pub created_at : ℕ
  pub expires_at : ℕ
  pub solved : Bool

-- The calls `send_private_msg`, by what they say.
pub data Message : Type 0 where
  challenge_issued : (user id : ℕ) → Message
  sessions_retired : (user : ℕ) (retired : List ℕ) → Message
  session_limit : (user : ℕ) → Message
  selection_hint : (user : ℕ) (choices : List ℕ) → Message
  wrong_answer : (user remaining : ℕ) → Message
  verified : (user : ℕ) → Message
  pending_review : (user : ℕ) → Message
  timed_out : (user : ℕ) → Message
  too_many_attempts : (user : ℕ) → Message

pub data Counter : Type 0 where
  captchas_total captchas_passed : Counter

-- What the service reads and writes: the approval service with its table, the table of sessions, and what is
-- sent and counted, in order.
pub record Office : Type 0 where
  pub desk : Desk
  pub sessions : List Session
  pub messages : List Message
  pub counts : List (Counter × ℕ)

abbrev pub key_of : Session → ℕ
key_of x = x.id

abbrev pub with_sessions : Office → List Session → Office
with_sessions s xs = record s { sessions = xs }

abbrev pub with_approvals : Office → List ApprovalRecord → Office
with_approvals s rows = record s {
  desk = with_records s.desk (record s.desk.records { rows = rows });
}

abbrev pub told : Office → Message → Office
told s m = record s { messages = s.messages ++ m ∷ [] }

unfoldable pub find_session : Office → ℕ → Option Session
find_session s id = find (has_key key_of id) s.sessions

abbrev pub as_solved : Session → Session
as_solved x = record x { solved = true }

-- `id = ? AND solved = 0`
abbrev pub is_open_session : ℕ → Session → Bool
is_open_session id x = has_key key_of id x && not x.solved

unfoldable pub close_session : Office → ℕ → Office
close_session s id = with_sessions s (update_where (is_open_session id) as_solved s.sessions)

-- `id = ? AND status = 'captcha'`
abbrev pub is_waiting_at : ℕ → ApprovalRecord → Bool
is_waiting_at id r = has_key id_of id r && is_captcha r.status

abbrev pub as_pending : String → ApprovalRecord → ApprovalRecord
as_pending reason r = record r {
  status = pending;
  reason = some reason;
  operator_id = none;
  processed_at = none;
}

unfoldable pub mark_approval_pending : Office → ℕ → String → Office
mark_approval_pending s id code =
    with_approvals s (update_where (is_waiting_at id) (as_pending code) s.desk.records.rows)
