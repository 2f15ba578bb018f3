-- ===== src/Account/Refusal.antt =====
-- When the guard of the last super administrator refuses.
use qq_guardian.Base.{
  ℕ, ◌≡◌, ◌≢◌, ◌↔◌, refl, true, false, ◌&&◌, not, List, [], ◌∷◌, some, arith, any, update_where,
  delete_where, All, All-map, any_untouched, any_undeleted, any_found, any_weaken, count_of_any,
  Bool-cases, if_cases, inl, inr, ◌==◌, sym, subst, ◌∙◌,
}
use qq_guardian.Account.Model.{User, Database, last_usable_super_admin, ChangedField}
use qq_guardian.Account.Usable.{
  IsPlain, is_usable_super_admin, sql_usable, sql_usable-eq, count_other_usable_super_admins,
}
use qq_guardian.Account.Users.{
  Outcome, err, AdministrativeUpdate, find_by_id, update_by_administrator, update_existing,
  delete_by_administrator, project, apply_update, removes_last, changed_administrative_fields,
}
use qq_guardian.Account.Requests.{IsSound}
use qq_guardian.Account.Change.{HasUsable, found_by_id, found_again, apply_update-usable}
use qq_guardian.Account.LastAdmin.{only_row, rewritten-HasUsable, removed-HasUsable}
use qq_guardian.Account.Mutations.{changed_fields_iff}

-- The users without the one with an id, and with that one written anew.
abbrev pub without : Database → ℕ → Database
without db id = record db { users = delete_where (λ (u : User). u.id == id) db.users }

abbrev pub with_update : Database → ℕ → AdministrativeUpdate → ℕ → Database
with_update db id d now = record db {
  users = update_where (λ (u : User). u.id == id) (apply_update d now) db.users;
}

-- No other is usable, if SQL counts none.
none_other :
    (db : Database) (now : ℕ) (c : User)
    → All IsPlain db.users
    → count_other_usable_super_admins db (some c.id) now ≡ 0
    → any (λ (u : User). not (u.id == c.id) && is_usable_super_admin u now) db.users ≡ true
    → ⊥
unfolding count_other_usable_super_admins
none_other db now c plain zero h =
    let pos = count_of_any _ db.users (
      any_weaken (λ (u : User). not (u.id == c.id) && is_usable_super_admin u now)
        (λ (u : User). not (u.id == c.id) && sql_usable u now) db.users
        (All-map db.users (λ u p e. rw (sql_usable-eq u now p) e) plain) h) in
    absurd (omega arith)

removes_last_parts :
    (db : Database) (c p : User) (now : ℕ)
    → removes_last db c p now ≡ true
    → (is_usable_super_admin c now ≡ true)
      × (is_usable_super_admin p now ≡ false)
      × (count_other_usable_super_admins db (some c.id) now ≡ 0)
unfolding removes_last
removes_last_parts db c p now h = (ground arith, ground arith, ground arith)

module _ (db : Database) (now : ℕ) (c : User) (s : IsSound db)
    (at : find_by_id db c.id ≡ some c) where
  usable_at : is_usable_super_admin c now ≡ true → HasUsable db now
  unfolding find_by_id
  usable_at h = any_found (λ u. is_usable_super_admin u now) _ db.users c at h

  removes_last_iff :
      (d : AdministrativeUpdate)
      → (removes_last db c (project c d) now ≡ true)
        ↔ (HasUsable db now × ¬ HasUsable (with_update db c.id d now) now)
  unfolding removes_last
  removes_last_iff d = (to, from)
    where
      gone :
          removes_last db c (project c d) now ≡ true → ¬ HasUsable (with_update db c.id d now) now
      gone h after =
          let (usable, lost, zero) = removes_last_parts db c (project c d) now h in
          none_other db now c s.plain zero (
            any_untouched (λ u. is_usable_super_admin u now) (λ (u : User). u.id == c.id)
              (apply_update d now) db.users
              (All-map db.users (λ u only e. rw (only e, apply_update-usable d now c) lost)
                (only_row db now c s at))
              after)

      to :
          removes_last db c (project c d) now ≡ true
          → HasUsable db now × ¬ HasUsable (with_update db c.id d now) now
      to h = (usable_at (removes_last_parts db c (project c d) now h).0, gone h)

      from :
          HasUsable db now × ¬ HasUsable (with_update db c.id d now) now
          → removes_last db c (project c d) now ≡ true
      from (before, after) = elim (Bool-cases (removes_last db c (project c d) now)) [
        | inl refused ↦ refused
        | inr fine ↦ absurd (
            after (
              rewritten-HasUsable db now c s at (apply_update d now)
                (rw (apply_update-usable d now c) fine) before))
      ]

  unchanged_keeps :
      (d : AdministrativeUpdate)
      → project c d ≡ c
      → HasUsable db now
      → HasUsable (with_update db c.id d now) now
  unchanged_keeps d e before = elim (Bool-cases (is_usable_super_admin c now)) [
    | inl usable ↦
        rewritten-HasUsable db now c s at (apply_update d now)
          (let stays : is_usable_super_admin (apply_update d now c) now ≡ true =
              apply_update-usable d now c
              ∙ subst (λ v. is_usable_super_admin v now ≡ true) (sym e) usable in
            rw stays (ground arith))
          before
    | inr unusable ↦
        rewritten-HasUsable db now c s at (apply_update d now) (rw unusable refl) before
  ]

  update_existing-refused_iff :
      (d : AdministrativeUpdate) (actor : ℕ)
      → ((update_existing db c d actor now).1 ≡ err last_usable_super_admin)
        ↔ (HasUsable db now × ¬ HasUsable (with_update db c.id d now) now)
  unfolding update_existing
  update_existing-refused_iff d actor =
      on_fields (changed_administrative_fields c (project c d)) refl
    where
      Answers : Database × Outcome User → Type 0
      Answers r =
          (r.1 ≡ err last_usable_super_admin)
          ↔ (HasUsable db now × ¬ HasUsable (with_update db c.id d now) now)

      on_fields :
          (fs : List ChangedField)
          → changed_administrative_fields c (project c d) ≡ fs
          → Answers (update_existing db c d actor now)
      on_fields [] e =
          rw (e, update_existing)
            (
              (λ h. absurd (cc)),
              (λ (before, after).
                  absurd (after (unchanged_keeps d ((changed_fields_iff c d).0 e) before))),
            )
      on_fields (f ∷ fs) e =
          rw (e, update_existing)
            (if_cases Answers (removes_last db c (project c d) now)
              (λ last. ((λ _. (removes_last_iff d).0 last), λ _. refl))
              (λ fine.
                ((λ h. absurd (cc)), (λ p. let r = (removes_last_iff d).1 p in absurd (cc)))))

  commit_delete_guard_iff :
      ((is_usable_super_admin c now && count_other_usable_super_admins db (some c.id) now == 0)
        ≡ true)
      ↔ (HasUsable db now × ¬ HasUsable (without db c.id) now)
  commit_delete_guard_iff = (to, from)
    where
      Guard : Type 0
      Guard =
          (is_usable_super_admin c now && count_other_usable_super_admins db (some c.id) now == 0)
          ≡ true

      to : Guard → HasUsable db now × ¬ HasUsable (without db c.id) now
      to h = (
        usable_at (ground arith),
        λ after. none_other db now c s.plain (ground arith) (
            any_undeleted (λ u. is_usable_super_admin u now) (λ (u : User). u.id == c.id) db.users
              after),
      )

      from : HasUsable db now × ¬ HasUsable (without db c.id) now → Guard
      from (before, after) =
          elim (Bool-cases (
            is_usable_super_admin c now
            && count_other_usable_super_admins db (some c.id) now == 0)) [
              | inl last ↦ last
              | inr fine ↦ absurd (after (removed-HasUsable db now c s at (ground arith) before))
            ]

-- An update of a known user is refused as one of the last super administrator exactly if a usable
-- super administrator exists and none would exist once the row is rewritten. The database is sound.
pub update-refused_iff :
    (db : Database) (now id : ℕ) (c : User) (d : AdministrativeUpdate) (actor : ℕ)
    → IsSound db
    → find_by_id db id ≡ some c
    → ((update_by_administrator db id d actor now).1 ≡ err last_usable_super_admin)
      ↔ (HasUsable db now × ¬ HasUsable (with_update db id d now) now)
unfolding update_by_administrator
update-refused_iff db now id c d actor s found =
    subst
      (λ k.
        ((update_by_administrator db id d actor now).1 ≡ err last_usable_super_admin)
        ↔ (HasUsable db now × ¬ HasUsable (with_update db k d now) now))
      (found_by_id db id c found)
      (rw (found, update_by_administrator)
        (update_existing-refused_iff db now c s (found_again db id c found) d actor))

-- A deletion of a known user who is not the actor is refused exactly if a usable super administrator
-- exists and none would without that user. The database is sound.
pub delete-refused_iff :
    (db : Database) (now id : ℕ) (c : User) (actor : ℕ)
    → IsSound db
    → find_by_id db id ≡ some c
    → id ≢ actor
    → ((delete_by_administrator db id actor now).1 ≡ err last_usable_super_admin)
      ↔ (HasUsable db now × ¬ HasUsable (without db id) now)
unfolding delete_by_administrator
delete-refused_iff db now id c actor s found other =
    let same = found_by_id db id c found in
    let guard =
      subst
        (λ k.
          ((is_usable_super_admin c now && count_other_usable_super_admins db (some k) now == 0)
            ≡ true)
          ↔ (HasUsable db now × ¬ HasUsable (without db k) now))
        same (commit_delete_guard_iff db now c s (found_again db id c found)) in
    rw (found, delete_by_administrator)
      (if_cases Answers (id == actor) (λ e. absurd (ground arith))
        (λ _.
          if_cases Answers
            (is_usable_super_admin c now && count_other_usable_super_admins db (some id) now == 0)
            (λ last. ((λ _. guard.0 last), λ _. refl))
            (λ fine. ((λ h. absurd (cc)), (λ p. let r = guard.1 p in absurd (cc))))))
  where
    Answers : Database × Outcome (Unit {0}) → Type 0
    Answers r =
        (r.1 ≡ err last_usable_super_admin) ↔ (HasUsable db now × ¬ HasUsable (without db id) now)
