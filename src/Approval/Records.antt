-- ===== src/Approval/Records.antt =====
-- ApprovalRepository of src/database/repositories/approval.ts.
use qq_guardian.Base.{
  ℕ, suc, ◌+◌, ◌*◌, Bool, true, false, ◌&&◌, ◌||◌, List, [], ◌∷◌, ◌++◌, Option, none, some, String,
  str_eq, ltb, leb, find, select, update_where, if◌then◌else◌, has_key,
}

pub data Status : Type 0 where
  pending approved rejected expired captcha : Status

pub record ApprovalRecord : Type 0 where
  pub id : ℕ
  pub group_id : ℕ
  pub user_id : ℕ
  pub flag : String
  pub comment : String
  pub status : Status
  pub reason : Option String
  pub operator_id : Option String
  pub captcha_id : Option String
  pub created_at : ℕ
  pub processed_at : Option ℕ
  pub expires_at : ℕ

-- The table: its rows in the order of their creation, and the next value of AUTOINCREMENT.
pub record Records : Type 0 where
  pub rows : List ApprovalRecord
  pub next_id : ℕ

abbrev pub is_pending : Status → Bool
is_pending pending = true
is_pending approved = false
is_pending rejected = false
is_pending expired = false
is_pending captcha = false

abbrev pub is_captcha : Status → Bool
is_captcha captcha = true
is_captcha pending = false
is_captcha approved = false
is_captcha rejected = false
is_captcha expired = false

-- `status IN ('pending','captcha')`
abbrev pub is_open : ApprovalRecord → Bool
is_open r = is_pending r.status || is_captcha r.status

abbrev pub id_of : ApprovalRecord → ℕ
id_of r = r.id

unfoldable pub find_by_id : Records → ℕ → Option ApprovalRecord
find_by_id t id = find (has_key id_of id) t.rows

-- ORDER BY created_at DESC LIMIT 1
unfoldable pub latest : List ApprovalRecord → Option ApprovalRecord
latest [] = none
latest (r ∷ rs) =
    let rest = latest rs in
    elim rest [ none ↦ some r | some q ↦ if ltb r.created_at q.created_at then some q else some r ]

unfoldable pub find_by_flag : Records → String → Option ApprovalRecord
find_by_flag t flag = latest (select (λ (r : ApprovalRecord). str_eq r.flag flag) t.rows)

unfoldable pub new_record :
    ℕ → (group user : ℕ) → (flag comment : String) → Status → (ttl_seconds now : ℕ) → ApprovalRecord
new_record id group user flag comment status ttl_seconds now = record {
  id = id;
  group_id = group;
  user_id = user;
  flag = flag;
  comment = comment;
  status = status;
  reason = none;
  operator_id = none;
  captcha_id = none;
  created_at = now;
  processed_at = none;
  expires_at = now + ttl_seconds * 1000;
}

-- The new record has the number `next_id`.
unfoldable pub create :
    Records → (group user : ℕ) → (flag comment : String) → Status → (ttl_seconds now : ℕ) → Records
create t group user flag comment status ttl_seconds now = record {
  rows = t.rows ++ new_record t.next_id group user flag comment status ttl_seconds now ∷ [];
  next_id = suc t.next_id;
}

-- The columns that the UPDATE statements set.
abbrev pub with_status :
    Status → (operator reason : Option String) → ℕ → ApprovalRecord → ApprovalRecord
with_status status operator reason now r = record r {
  status = status;
  operator_id = operator;
  reason = reason;
  captcha_id = none;
  processed_at = some now;
}

abbrev pub with_failure : String → ApprovalRecord → ApprovalRecord
with_failure failure r = record r {
  status = pending;
  reason = some failure;
  operator_id = none;
  processed_at = none;
}

abbrev pub as_expired : ℕ → ApprovalRecord → ApprovalRecord
as_expired now r = record r { status = expired; processed_at = some now }

unfoldable pub update_status :
    Records → ℕ → Status → (operator reason : Option String) → ℕ → Records
update_status t id status operator reason now = record t {
  rows = update_where (has_key id_of id) (with_status status operator reason now) t.rows;
}

-- `id = ? AND status = 'pending' AND expires_at <= ?`
abbrev pub is_lapsed : (id now : ℕ) → ApprovalRecord → Bool
is_lapsed id now r = has_key id_of id r && (is_pending r.status && leb r.expires_at now)

unfoldable pub expire_pending_if_expired : Records → (id now : ℕ) → Records
expire_pending_if_expired t id now = record t {
  rows = update_where (is_lapsed id now) (as_expired now) t.rows;
}

abbrev pub is_overdue : ℕ → ApprovalRecord → Bool
is_overdue now r = is_open r && leb r.expires_at now

unfoldable pub expire_old_pending : Records → ℕ → Records
expire_old_pending t now = record t { rows = update_where (is_overdue now) (as_expired now) t.rows }

-- The sweeps at the given times, one after another.
unfoldable pub swept_at : Records → List ℕ → Records
swept_at t [] = t
swept_at t (now ∷ times) = swept_at (expire_old_pending t now) times

-- `id = ? AND status IN ('pending', 'captcha')`
abbrev pub is_open_at : ℕ → ApprovalRecord → Bool
is_open_at id r = has_key id_of id r && is_open r

-- `_markActionFailure` of the approval service.
unfoldable pub mark_action_failure : Records → ℕ → String → Records
mark_action_failure t id failure = record t {
  rows = update_where (is_open_at id) (with_failure failure) t.rows;
}
