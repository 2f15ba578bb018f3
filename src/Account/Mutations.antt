-- ===== src/Account/Mutations.antt =====
-- What the administrative mutations answer, write and revoke.
use qq_guardian.Base.{
  ℕ, ◌≡◌, ◌↔◌, refl, true, ◌&&◌, List, [], ◌∷◌, ◌++◌, Option, none, some, arith, Option-cases,
  if_cases, inl, inr, ◌==◌, String, str_eq_iff, opt_eq, subst,
}
use qq_guardian.Account.Model.{
  User, Database, MutationError, user_not_found, self_delete, last_usable_super_admin, ChangedField,
  Attempted, update_attempt, delete_attempt, user_mutation_rejected, Role, role_eq,
}
use qq_guardian.Account.Usable.{is_usable_super_admin, count_other_usable_super_admins}
use qq_guardian.Account.Users.{
  Outcome, err, AdministrativeUpdate, find_by_id, update_by_administrator, update_existing,
  delete_by_administrator, project, removes_last, changed_administrative_fields, write_audit,
  opt_str_eq,
}
use qq_guardian.Account.Change.{found_by_id}

-- A mutation that answers an error wrote one row of the audit log, about the rejection, and nothing else.
pub record OnlyAudited (db db' : Database) (a : Attempted) (e : MutationError) (id actor now : ℕ)
    : Type 0 where
  pub users_same : db'.users ≡ db.users
  pub sessions_same : db'.sessions ≡ db.sessions
  pub counter_same : db'.next_user_id ≡ db.next_user_id
  pub changed : List ChangedField
  pub current_role : Option Role
  pub requested_role : Option Role
  pub one_audit :
      db'.audits
      ≡ db.audits
        ++ (record {
          action = user_mutation_rejected a e changed current_role requested_role;
          actor_id = some actor;
          target_id = id;
          created_at = now;
        }
            ∷ [])

audited :
    (db : Database) (a : Attempted) (e : MutationError) (id actor now : ℕ) (fs : List ChangedField)
    (r q : Option Role)
    → OnlyAudited db
        (write_audit db (user_mutation_rejected a e fs r q) (some actor) id now)
        a
        e
        id
        actor
        now
audited db a e id actor now fs r q = record {
  users_same = refl;
  sessions_same = refl;
  counter_same = refl;
  changed = fs;
  current_role = r;
  requested_role = q;
  one_audit = refl;
}

-- An answer that is an error comes with nothing but its audit row.
abbrev Refuses {ℓ} : {A : Type ℓ} → Database → Attempted → ℕ → ℕ → ℕ → Database × Outcome A → Type ℓ
Refuses {A} db a id actor now r =
    (e : MutationError) → r.1 ≡ err e → OnlyAudited db r.0 a e id actor now

Refuses-err {ℓ} :
    {A : Type ℓ} (db : Database) (a : Attempted) (e : MutationError) (id actor now : ℕ)
    (fs : List ChangedField) (r q : Option Role)
    → Refuses {A = A} db a id actor now
        (write_audit db (user_mutation_rejected a e fs r q) (some actor) id now, err e)
Refuses-err db a e id actor now fs r q e' h =
    subst
      (λ x.
        OnlyAudited db (write_audit db (user_mutation_rejected a e fs r q) (some actor) id now) a x
          id actor now)
      (cc) (audited db a e id actor now fs r q)

-- An administrator's update that is refused, for an unknown user or for the last usable super
-- administrator, changes no user and no session, and adds exactly one audit row with the reason.
pub update-error_audited :
    (db : Database) (id : ℕ) (d : AdministrativeUpdate) (actor now : ℕ) (e : MutationError)
    → (update_by_administrator db id d actor now).1 ≡ err e
    → OnlyAudited db (update_by_administrator db id d actor now).0 update_attempt e id actor now
unfolding update_by_administrator
update-error_audited db id d actor now = elim (Option-cases (find_by_id db id)) [
  | inl missing ↦
      rw (missing, update_by_administrator)
        (Refuses-err db update_attempt user_not_found id actor now _ _ _)
  | inr (c, found) ↦
      rw (found, update_by_administrator)
        (subst (λ k. Refuses db update_attempt k actor now (update_existing db c d actor now))
          (found_by_id db id c found)
          (on_fields c (changed_administrative_fields c (project c d)) refl))
]
  where
    on_fields :
        (c : User) (fs : List ChangedField)
        → changed_administrative_fields c (project c d) ≡ fs
        → Refuses db update_attempt c.id actor now (update_existing db c d actor now)
    on_fields c [] e = rw (e, update_existing) (λ e' h. absurd (cc))
    on_fields c (f ∷ fs) e =
        rw (e, update_existing)
          (if_cases (λ (r : Database × Outcome User). Refuses db update_attempt c.id actor now r)
            (removes_last db c (project c d) now)
            (λ _. Refuses-err db update_attempt last_usable_super_admin c.id actor now _ _ _)
            (λ _ e' h. absurd (cc)))

-- So is a deletion that is refused, for an unknown user, for the actor's own account or for the last
-- usable super administrator.
pub delete-error_audited :
    (db : Database) (id actor now : ℕ) (e : MutationError)
    → (delete_by_administrator db id actor now).1 ≡ err e
    → OnlyAudited db (delete_by_administrator db id actor now).0 delete_attempt e id actor now
unfolding delete_by_administrator
delete-error_audited db id actor now = elim (Option-cases (find_by_id db id)) [
  | inl missing ↦
      rw (missing, delete_by_administrator)
        (Refuses-err db delete_attempt user_not_found id actor now _ _ _)
  | inr (c, found) ↦
      rw (found, delete_by_administrator)
        (if_cases Refused (id == actor)
          (λ _. Refuses-err db delete_attempt self_delete id actor now _ _ _)
          (λ _.
            if_cases Refused
              (is_usable_super_admin c now && count_other_usable_super_admins db (some id) now == 0)
              (λ _. Refuses-err db delete_attempt last_usable_super_admin id actor now _ _ _)
              (λ _ e' h. absurd (cc))))
]
  where
    Refused : Database × Outcome (Unit {0}) → Type 0
    Refused r = Refuses db delete_attempt id actor now r

opt_str_eq_iff : (a b : Option String) → (opt_str_eq a b ≡ true) ↔ (a ≡ b)
opt_str_eq_iff none none = ground arith
opt_str_eq_iff none (some t) = ground arith
opt_str_eq_iff (some s) none = ground arith
opt_str_eq_iff (some s) (some t) = ground (arith, str_eq_iff s t)

opt_eq_iff : (a b : Option ℕ) → (opt_eq a b ≡ true) ↔ (a ≡ b)
opt_eq_iff a b = ground arith

role_eq_iff : (a b : Role) → (role_eq a b ≡ true) ↔ (a ≡ b)
role_eq_iff a b = ground arith

-- An update counts as changing nothing exactly if it would write the row that is there.
pub changed_fields_iff :
    (u : User) (d : AdministrativeUpdate)
    → (changed_administrative_fields u (project u d) ≡ []) ↔ (project u d ≡ u)
unfolding changed_administrative_fields project
changed_fields_iff u d =
    let v = project u d in
    let hash_iff = opt_str_eq_iff u.password_hash v.password_hash in
    let role_iff = role_eq_iff u.role v.role in
    let lock_iff = opt_eq_iff u.locked_until v.locked_until in
    (
      (λ e. ground (arith, hash_iff, role_iff, lock_iff)),
      (λ e. ground (arith, hash_iff, role_iff, lock_iff)),
    )
