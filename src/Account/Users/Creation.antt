-- ===== src/Account/Users/Creation.antt =====
-- UserRepository of src/database/repositories/user.ts: the rows, their creation and the recovery of a super
-- administrator.
use qq_guardian.Base.{
  ℕ, suc, Bool, true, false, ◌&&◌, ◌||◌, Option, none, some, List, [], ◌∷◌, ◌++◌, String, ◌==◌,
  opt_eq, or_else, is_some, is_none, str_eq, if◌then◌else◌, find, any, count_where, update_where,
}
use qq_guardian.Account.Model.{
  Role, super_admin, User, AuthSession, MutationError, RecoveryMode, created, reset, AuditAction,
  user_created, bootstrap_admin_created, super_admin_recovered, Audit, Database, locked_audits,
}
use qq_guardian.Account.Usable.{count_other_usable_super_admins}

-- `threw` is an exception of SQLite, here a UNIQUE column.
pub data Outcome {ℓ} (A : Type ℓ) : Type ℓ where
  ok : A → Outcome A
  err : MutationError → Outcome A
  threw : Outcome A

pub record CreateInput : Type 0 where
  pub qq_id : Option ℕ
  pub username : Option String
  pub password_hash : Option String
  pub role : Role

-- A field that is absent is `none`; `locked_until` may be set to null.
pub record AdministrativeUpdate : Type 0 where
  pub password_hash : Option String
  pub role : Option Role
  pub login_attempts : Option ℕ
  pub locked_until : Option (Option ℕ)

abbrev pub opt_str_eq : Option String → Option String → Bool
opt_str_eq none none = true
opt_str_eq none (some t) = false
opt_str_eq (some s) none = false
opt_str_eq (some s) (some t) = str_eq s t

unfoldable pub find_by_id : Database → ℕ → Option User
find_by_id db id = find (λ (u : User). u.id == id) db.users

-- SQL's `username = ?`, which NULL does not satisfy.
unfoldable pub has_username : String → User → Bool
has_username name u = is_some u.username && opt_str_eq u.username (some name)

unfoldable pub find_by_username : Database → String → Option User
find_by_username db name = find (has_username name) db.users

abbrev pub write_audit : Database → AuditAction → Option ℕ → ℕ → ℕ → Database
write_audit db action actor target now = record db {
  audits =
      db.audits
      ++ (record { action = action; actor_id = actor; target_id = target; created_at = now } ∷ []);
}

-- The audit rows of the trigger, for each row that the update touches.
unfoldable pub trigger_audits : ℕ → (User → User) → ℕ → List User → List Audit
trigger_audits id f now [] = []
trigger_audits id f now (u ∷ us) =
    (if u.id == id then locked_audits u (f u) now else []) ++ trigger_audits id f now us

-- `UPDATE users SET … WHERE id = ?`
unfoldable pub update_user : Database → ℕ → (User → User) → ℕ → Database
update_user db id f now = record db {
  users = update_where (λ (u : User). u.id == id) f db.users;
  audits = db.audits ++ trigger_audits id f now db.users;
}

-- A value that another row has in a UNIQUE column; NULLs differ from each other.
abbrev pub violates_unique : List User → CreateInput → Bool
violates_unique users input =
    any
      (λ (u : User).
        (is_some input.username && opt_str_eq u.username input.username)
        || (is_some input.qq_id && opt_eq u.qq_id input.qq_id))
      users

abbrev pub new_row : ℕ → CreateInput → ℕ → User
new_row id input now = record {
  id = id;
  qq_id = input.qq_id;
  username = input.username;
  password_hash = input.password_hash;
  role = input.role;
  login_attempts = 0;
  locked_until = none;
  last_login = none;
  created_at = now;
  updated_at = now;
}

-- `insert`: the new row, and the database with it; `none` if a UNIQUE column refuses it.
unfoldable pub insert : Database → CreateInput → ℕ → Option (Database × User)
insert db input now =
    if violates_unique db.users input
    then none
    else some (
      record db {
        users = db.users ++ (new_row db.next_user_id input now ∷ []);
        next_user_id = suc db.next_user_id;
      },
      new_row db.next_user_id input now,
    )

unfoldable pub create_by_administrator : Database → CreateInput → ℕ → ℕ → Database × Outcome User
create_by_administrator db input actor now = elim (insert db input now) [
  | none ↦ (db, threw)
  | some (db', user) ↦ (
    write_audit db' (user_created user.username user.qq_id user.role) (some actor) user.id now,
    ok user,
  )
]

-- `SELECT id FROM users LIMIT 1` finds nothing.
abbrev pub is_empty : List User → Bool
is_empty [] = true
is_empty (u ∷ us) = false

unfoldable pub create_bootstrap_admin :
    Database → CreateInput → ℕ → Database × Outcome (Option User)
create_bootstrap_admin db input now =
    if is_empty db.users
    then elim (insert db input now) [
      | none ↦ (db, threw)
      | some (db', user) ↦
          (write_audit db' (bootstrap_admin_created user.username) none user.id now, ok (some user))
    ]
    else (db, ok none)

-- `auth_sessions SET revoked_at = ? WHERE user_id = ? AND revoked_at IS NULL`
abbrev pub is_live_of : ℕ → AuthSession → Bool
is_live_of user_id s = s.user_id == user_id && is_none s.revoked_at

abbrev pub revoked_by_now : ℕ → AuthSession → AuthSession
revoked_by_now now s = record s { revoked_at = some now }

-- `revokeSessions`, with the number of rows changed.
unfoldable pub revoke_sessions : Database → ℕ → ℕ → Database × ℕ
revoke_sessions db user_id now = (
  record db { sessions = update_where (is_live_of user_id) (revoked_by_now now) db.sessions },
  count_where (is_live_of user_id) db.sessions,
)

abbrev pub recovered_row : String → ℕ → User → User
recovered_row hash now u = record u {
  password_hash = some hash;
  role = super_admin;
  login_attempts = 0;
  locked_until = none;
  updated_at = now;
}

-- `findById(id)!` after a write of the row `u`.
abbrev pub reread : Database → User → User
reread db u = or_else (find_by_id db u.id) u

unfoldable pub recover_existing :
    Database → User → String → ℕ → Database × Outcome (Option (User × RecoveryMode))
recover_existing db u hash now =
    let updated = update_user db u.id (recovered_row hash now) now in
    let (db', revoked) = revoke_sessions updated u.id now in
    let user = reread db' u in
    (
      write_audit db' (super_admin_recovered user.username reset (some u.role) revoked) none user.id
          now,
      ok (some (user, reset)),
    )

abbrev pub recovery_input : String → String → CreateInput
recovery_input name hash = record {
  qq_id = none;
  username = some name;
  password_hash = some hash;
  role = super_admin;
}

unfoldable pub recover_new :
    Database → String → String → ℕ → Database × Outcome (Option (User × RecoveryMode))
recover_new db name hash now = elim (insert db (recovery_input name hash) now) [
  | none ↦ (db, threw)
  | some (db', user) ↦ (
    write_audit db' (super_admin_recovered user.username created none 0) none user.id now,
    ok (some (user, created)),
  )
]

unfoldable pub recover_super_admin :
    Database → String → String → ℕ → Database × Outcome (Option (User × RecoveryMode))
unfolding recover_existing recover_new
recover_super_admin db name hash now =
    if count_other_usable_super_admins db none now == 0
    then elim (find_by_username db name) [
      | some u ↦ recover_existing db u hash now
      | none ↦ recover_new db name hash now
    ]
    else (db, ok none)
