-- ===== src/Account/Users/Administration.antt =====
-- UserRepository of src/database/repositories/user.ts: updates and deletions by an administrator.
use qq_guardian.Base.{
  ℕ, Bool, true, false, ◌&&◌, not, Option, none, some, List, [], ◌∷◌, ◌++◌, ◌==◌, opt_eq, or_else,
  is_some, if◌then◌else◌, count_where, delete_where,
}
use qq_guardian.Account.Model.{
  User, AuthSession, MutationError, user_not_found, self_delete, last_usable_super_admin,
  ChangedField, password, role_field, attempts_field, lock_field, update_attempt, delete_attempt,
  user_mutation_rejected, user_updated, user_deleted, Database, role_eq,
}
use qq_guardian.Account.Usable.{is_usable_super_admin, count_other_usable_super_admins}
use qq_guardian.Account.Users.Creation.{
  Outcome, AdministrativeUpdate, opt_str_eq, find_by_id, write_audit, update_user, revoke_sessions,
  reread, ok, err,
}

-- `a ?? b` of two nullable values.
abbrev pub given_or {ℓ} : {A : Type ℓ} → Option A → Option A → Option A
given_or none b = b
given_or (some a) b = some a

-- `projected`, and what `applyAdministrativeUpdate` writes apart from `updated_at`.
unfoldable pub project : User → AdministrativeUpdate → User
project u d = record u {
  password_hash = given_or d.password_hash u.password_hash;
  role = or_else d.role u.role;
  login_attempts = or_else d.login_attempts u.login_attempts;
  locked_until = or_else d.locked_until u.locked_until;
}

abbrev pub changed_if : Bool → ChangedField → List ChangedField
changed_if true f = f ∷ []
changed_if false f = []

unfoldable pub changed_administrative_fields : User → User → List ChangedField
changed_administrative_fields u v =
    changed_if (not (opt_str_eq u.password_hash v.password_hash)) password
    ++ (changed_if (not (role_eq u.role v.role)) role_field
        ++ (changed_if (not (u.login_attempts == v.login_attempts)) attempts_field
            ++ changed_if (not (opt_eq u.locked_until v.locked_until)) lock_field))

-- `Object.keys(data)`, in the order of the record.
abbrev pub given_fields : AdministrativeUpdate → List ChangedField
given_fields d =
    changed_if (is_some d.password_hash) password
    ++ (changed_if (is_some d.role) role_field
        ++ (changed_if (is_some d.login_attempts) attempts_field
            ++ changed_if (is_some d.locked_until) lock_field))

abbrev pub apply_update : AdministrativeUpdate → ℕ → User → User
apply_update d now u = record (project u d) { updated_at = now }

-- The update would take away the last usable super administrator.
unfoldable pub removes_last : Database → User → User → ℕ → Bool
removes_last db current projected now =
    is_usable_super_admin current now
    && not (is_usable_super_admin projected now)
    && count_other_usable_super_admins db (some current.id) now == 0

unfoldable pub commit_update :
    Database → User → AdministrativeUpdate → List ChangedField → ℕ → ℕ → Database × Outcome User
commit_update db current d changed actor now =
    let applied = update_user db current.id (apply_update d now) now in
    let (db', revoked) = revoke_sessions applied current.id now in
    let updated = reread db' current in
    (
      write_audit db' (user_updated changed current.role updated.role revoked) (some actor)
          current.id now,
      ok updated,
    )

unfoldable pub update_existing :
    Database → User → AdministrativeUpdate → ℕ → ℕ → Database × Outcome User
unfolding commit_update
update_existing db current d actor now =
    let projected = project current d in
    elim (changed_administrative_fields current projected) [
      | [] ↦ (db, ok current)
      | f ∷ fs ↦
          if removes_last db current projected now
          then (
            write_audit db
                (user_mutation_rejected update_attempt last_usable_super_admin (f ∷ fs)
                  (some current.role) (some projected.role))
                (some actor) current.id now,
            err last_usable_super_admin,
          )
          else commit_update db current d (f ∷ fs) actor now
    ]

unfoldable pub update_by_administrator :
    Database → ℕ → AdministrativeUpdate → ℕ → ℕ → Database × Outcome User
unfolding update_existing
update_by_administrator db id d actor now = elim (find_by_id db id) [
  | none ↦ (
    write_audit db (user_mutation_rejected update_attempt user_not_found (given_fields d) none none)
        (some actor) id now,
    err user_not_found,
  )
  | some current ↦ update_existing db current d actor now
]

unfoldable pub rejected_delete :
    Database → MutationError → ℕ → ℕ → ℕ → Database × Outcome (Unit {0})
rejected_delete db e id actor now = (
  write_audit db (user_mutation_rejected delete_attempt e [] none none) (some actor) id now,
  err e,
)

-- The audit row counts the sessions that the foreign key removes with the user.
unfoldable pub commit_delete : Database → User → ℕ → ℕ → Database × Outcome (Unit {0})
commit_delete db u actor now =
    let sessions = count_where (λ (s : AuthSession). s.user_id == u.id) db.sessions in
    let audited = write_audit db (user_deleted u.username u.role sessions) (some actor) u.id now in
    (
      record audited {
        users = delete_where (λ (v : User). v.id == u.id) db.users;
        sessions = delete_where (λ (s : AuthSession). s.user_id == u.id) db.sessions;
      },
      ok tt,
    )

unfoldable pub delete_by_administrator : Database → ℕ → ℕ → ℕ → Database × Outcome (Unit {0})
unfolding rejected_delete commit_delete
delete_by_administrator db id actor now = elim (find_by_id db id) [
  | none ↦ rejected_delete db user_not_found id actor now
  | some current ↦
      if id == actor
      then rejected_delete db self_delete id actor now
      else if is_usable_super_admin current now
          && count_other_usable_super_admins db (some id) now == 0
      then rejected_delete db last_usable_super_admin id actor now
      else commit_delete db current actor now
]
