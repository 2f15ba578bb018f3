-- ===== src/Account/Model.antt =====
-- Rows of the tables users, auth_sessions, audit_logs and login_logs (src/database/models/index.ts),
-- and the database that holds them. Times are milliseconds; an account or user id is a number.
use qq_guardian.Base.{
  ℕ, ◌*◌, ◌/◌, ◌<◌, Bool, true, false, Option, none, some, List, [], ◌∷◌, String, ltb, ◌==◌,
  if◌then◌else◌, All, DistinctKeys,
}

pub data Role : Type 0 where
  super_admin group_admin auditor viewer member : Role

pub record User : Type 0 where
  pub id : ℕ
  pub qq_id : Option ℕ
  pub username : Option String
  pub password_hash : Option String
  pub role : Role
  pub login_attempts : ℕ
  pub locked_until : Option ℕ
  pub last_login : Option ℕ
  pub created_at : ℕ
  pub updated_at : ℕ

pub data SessionKind : Type 0 where
  access refresh : SessionKind

pub record AuthSession : Type 0 where
  pub token_id : String
  pub user_id : ℕ
  pub kind : SessionKind
  pub issued_at : ℕ
  pub expires_at : ℕ
  pub revoked_at : Option ℕ

-- The codes of `UserAdminMutationError`.
pub data MutationError : Type 0 where
  user_not_found self_delete last_usable_super_admin : MutationError

-- What `changedAdministrativeFields` names.
pub data ChangedField : Type 0 where
  password role_field attempts_field lock_field : ChangedField

pub data Attempted : Type 0 where
  update_attempt delete_attempt : Attempted

pub data RecoveryMode : Type 0 where
  created reset : RecoveryMode

-- The `action` of an audit row, with the fields of its JSON `details`.
pub data AuditAction : Type 0 where
  user_created : Option String → Option ℕ → Role → AuditAction
  bootstrap_admin_created : Option String → AuditAction
  super_admin_recovered :
      Option String → RecoveryMode → (previous : Option Role) → (sessions_revoked : ℕ) → AuditAction
  user_mutation_rejected :
      Attempted
      → MutationError
      → List ChangedField
      → (current_role requested_role : Option Role) → AuditAction
  user_updated :
      List ChangedField → (previous_role new_role : Role) → (sessions_revoked : ℕ) → AuditAction
  user_deleted : Option String → Role → (sessions_removed : ℕ) → AuditAction
  account_locked : AuditAction

pub record Audit : Type 0 where
  pub action : AuditAction
  pub actor_id : Option ℕ
  pub target_id : ℕ
  pub created_at : ℕ

pub record LoginLog : Type 0 where
  pub user_id : ℕ
  pub success : Bool
  pub created_at : ℕ

-- `next_user_id` is the key that AUTOINCREMENT gives to the next user.
pub record Database : Type 0 where
  pub users : List User
  pub next_user_id : ℕ
  pub sessions : List AuthSession
  pub audits : List Audit
  pub login_logs : List LoginLog

-- What SQLite's keys give: user ids are distinct and below the counter.
pub record IsKeyed (db : Database) : Type 0 where
  pub distinct : DistinctKeys (λ (u : User). u.id) db.users
  pub below : All (λ (u : User). u.id < db.next_user_id) db.users

-- The rank of a role, `ROLE_RANK`.
abbrev pub rank : Role → ℕ
rank super_admin = 5
rank group_admin = 4
rank auditor = 3
rank viewer = 2
rank member = 1

abbrev pub is_super_admin : Role → Bool
is_super_admin super_admin = true
is_super_admin _ = false

-- Two roles are equal exactly if their ranks are.
abbrev pub role_eq : Role → Role → Bool
role_eq a b = rank a == rank b

abbrev pub kind_eq : SessionKind → SessionKind → Bool
kind_eq access access = true
kind_eq refresh refresh = true
kind_eq _ _ = false

-- The trigger trg_users_account_locked_audit fires on an update of `locked_until` that sets a lock
-- later than the old one.
abbrev pub lock_rises : Option ℕ → Option ℕ → Bool
lock_rises old none = false
lock_rises none (some t) = true
lock_rises (some s) (some t) = ltb s t

-- The audit rows that the trigger adds when one row is updated. Its clock has whole seconds.
unfoldable pub locked_audits : User → User → ℕ → List Audit
locked_audits old new now =
    if lock_rises old.locked_until new.locked_until
    then record {
      action = account_locked;
      actor_id = none;
      target_id = new.id;
      created_at = now / 1000 * 1000;
    }
      ∷ []
    else []
