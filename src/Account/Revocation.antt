-- ===== src/Account/Revocation.antt =====
-- What a mutation that succeeds leaves behind: the row and the sessions.
use qq_guardian.Base.{
  ℕ, ◌≡◌, ◌≢◌, refl, Bool, false, ◌&&◌, not, List, [], ◌∷◌, some, arith, any, select, update_where,
  delete_where, ◌⊎◌, true, or_else, Option, none, is_none, ap, sym, ◌∙◌, if◌then◌else◌, Bool-cases,
  any-update_clear, any-delete_clear, find-update, Option-cases, if_cases, inl, inr, ◌==◌, subst,
}
use qq_guardian.Account.Model.{User, Database, AuthSession, ChangedField, last_usable_super_admin}
use qq_guardian.Account.Usable.{is_usable_super_admin, count_other_usable_super_admins}
use qq_guardian.Account.Users.{
  Outcome, ok, err, AdministrativeUpdate, find_by_id, update_by_administrator, update_existing,
  commit_update, update_user, revoke_sessions, delete_by_administrator, commit_delete, project,
  apply_update, removes_last, changed_administrative_fields, is_live_of, revoked_by_now,
}
use qq_guardian.Account.Change.{found_by_id, found_again}

-- Some session of the user is not revoked.
abbrev pub has_live_session : Database → ℕ → Bool
has_live_session db id = any (is_live_of id) db.sessions

-- The sessions of the other users.
abbrev pub others_sessions : ℕ → List AuthSession → List AuthSession
others_sessions id = select (λ (s : AuthSession). not (s.user_id == id))

-- Each session of the user that was not revoked is revoked now, and every other session is as it was.
abbrev pub IsRevocation : (id now : ℕ) → (before after : List AuthSession) → Type 0
IsRevocation id now [] [] = Unit
IsRevocation id now [] (t ∷ ts) = ⊥
IsRevocation id now (s ∷ ss) [] = ⊥
IsRevocation id now (s ∷ ss) (t ∷ ts) =
    (t ≡ (if s.user_id == id then record s { revoked_at = some (or_else s.revoked_at now) } else s))
    × IsRevocation id now ss ts

revoked-IsRevocation :
    (id now : ℕ) (ss : List AuthSession)
    → IsRevocation id now ss (update_where (is_live_of id) (revoked_by_now now) ss)
revoked-IsRevocation id now [] = tt
revoked-IsRevocation id now (s ∷ ss) =
    (marked (s.user_id == id) s.revoked_at refl, revoked-IsRevocation id now ss)
  where
    marked :
        (own : Bool) (o : Option ℕ)
        → s.revoked_at ≡ o
        → (if own && is_none o then revoked_by_now now s else s)
          ≡ (if own then record s { revoked_at = some (or_else o now) } else s)
    marked false o e = refl
    marked true none e = refl
    marked true (some t) e = ap (λ o. record s { revoked_at = o }) e

delete-others :
    (id : ℕ) (ss : List AuthSession)
    → others_sessions id (delete_where (λ (s : AuthSession). s.user_id == id) ss)
      ≡ others_sessions id ss
delete-others id [] = refl
delete-others id (s ∷ ss) = ground (arith, delete-others id ss)

revoke_sessions-clear :
    (db : Database) (id now : ℕ) → has_live_session (revoke_sessions db id now).0 id ≡ false
unfolding revoke_sessions
revoke_sessions-clear db id now =
    any-update_clear (is_live_of id) (is_live_of id) (revoked_by_now now) db.sessions (λ s e. e)
      (λ s. ground arith)

-- What an update with changed fields leaves: the projected row under the id, answered as it stands
-- there, and the live sessions of the user revoked, with all other sessions as they were.
pub record Updated (db db' : Database) (c : User) (d : AdministrativeUpdate) (now : ℕ)
    (answer : Outcome User) : Type 0 where
  pub answered : answer ≡ ok (apply_update d now c)
  pub stored : find_by_id db' c.id ≡ some (apply_update d now c)
  pub none_live : has_live_session db' c.id ≡ false
  pub revoked : IsRevocation c.id now db.sessions db'.sessions

commit_update-Updated :
    (db : Database) (c : User) (d : AdministrativeUpdate) (fs : List ChangedField) (actor now : ℕ)
    → find_by_id db c.id ≡ some c
    → let r = commit_update db c d fs actor now in Updated db r.0 c d now r.1
unfolding commit_update update_user revoke_sessions find_by_id project
commit_update-Updated db c d fs actor now found =
    let stored =
      find-update (λ (u : User). u.id) c.id (apply_update d now) db.users c (λ u. refl) found in
    record {
      answered = rw stored;
      stored = stored;
      none_live = unfold revoke_sessions in revoke_sessions-clear db c.id now;
      revoked = revoked-IsRevocation c.id now db.sessions;
    }

-- An update of a known user that changes a field and is not refused writes the projected row, which
-- it answers, and revokes every live session of the user and no other session.
pub update-Updated :
    (db : Database) (id : ℕ) (c : User) (d : AdministrativeUpdate) (actor now : ℕ)
    → find_by_id db id ≡ some c
    → changed_administrative_fields c (project c d) ≢ []
    → removes_last db c (project c d) now ≡ false
    → let r = update_by_administrator db id d actor now in Updated db r.0 c d now r.1
unfolding update_by_administrator
update-Updated db id c d actor now found differs allowed =
    rw (found, update_by_administrator)
      (on_fields (changed_administrative_fields c (project c d)) refl)
  where
    on_fields :
        (fs : List ChangedField)
        → changed_administrative_fields c (project c d) ≡ fs
        → let r = update_existing db c d actor now in Updated db r.0 c d now r.1
    on_fields [] e = absurd (differs e)
    on_fields (f ∷ fs) e =
        rw (e, allowed, update_existing)
          (commit_update-Updated db c d (f ∷ fs) actor now (found_again db id c found))

-- An update that succeeds is one of a known user, and it either changes no field, no row and no session and
-- answers the row, or changes a field and is as above.
abbrev pub Answered :
    (db db' : Database) (id : ℕ) (d : AdministrativeUpdate) (now : ℕ) (answer : User) → Type 0
Answered db db' id d now answer =
    (c : User) × (find_by_id db id ≡ some c)
    × (((changed_administrative_fields c (project c d) ≡ []) × (db' ≡ db) × (answer ≡ c))
        ⊎ ((changed_administrative_fields c (project c d) ≢ [])
            × Updated db db' c d now (ok answer)))

-- An update that succeeds is one of a known user. If it changes no field it leaves the database alone;
-- otherwise it writes the projected row, which it answers, revokes exactly those sessions of the user that
-- are not revoked, and leaves every other session as it was.
pub update-Answered :
    (db : Database) (id : ℕ) (d : AdministrativeUpdate) (actor now : ℕ) (answer : User)
    → (update_by_administrator db id d actor now).1 ≡ ok answer
    → Answered db (update_by_administrator db id d actor now).0 id d now answer
unfolding update_by_administrator
update-Answered db id d actor now answer = elim (Option-cases (find_by_id db id)) [
  | inl missing ↦ rw (missing, update_by_administrator) (λ h. absurd (cc))
  | inr (c, found) ↦ on_fields c found (changed_administrative_fields c (project c d)) refl
]
  where
    on_fields :
        (c : User)
        → find_by_id db id ≡ some c
        → (fs : List ChangedField) → changed_administrative_fields c (project c d) ≡ fs
        → (update_by_administrator db id d actor now).1 ≡ ok answer
        → Answered db (update_by_administrator db id d actor now).0 id d now answer
    on_fields c found [] e h =
        let left : update_by_administrator db id d actor now ≡ (db, ok c) =
          rw (found, update_by_administrator) (rw (e, update_existing) refl) in
        let given : ok c ≡ ok answer = sym (ap (λ r. r.1) left) ∙ h in
        (c, found, inl (e, ap (λ r. r.0) left, cc))
    on_fields c found (f ∷ fs) e h = elim (Bool-cases (removes_last db c (project c d) now)) [
      | inl refused ↦
          let turned_away : (update_by_administrator db id d actor now).1
              ≡ err last_usable_super_admin =
            rw (found, update_by_administrator) (rw (e, refused, update_existing) refl) in
          absurd (clash (sym turned_away ∙ h))
      | inr allowed ↦
          let differs : changed_administrative_fields c (project c d) ≢ [] =
            λ n. nonempty (sym e ∙ n) in
          let r = update_by_administrator db id d actor now in
          (
            c,
            found,
            inr (
              differs,
              subst (λ o. Updated db r.0 c d now o) h
                  (update-Updated db id c d actor now found differs allowed),
            ),
          )
    ]
      where
        refusal : Outcome User
        refusal = err last_usable_super_admin

        clash : refusal ≡ ok answer → ⊥
        clash x = cc

        nonempty : f ∷ fs ≡ [] → ⊥
        nonempty x = cc

-- What a deletion leaves: no row with the id and no session of the user, live or not, with the
-- sessions of all others as they were.
pub record Deleted (db db' : Database) (id : ℕ) : Type 0 where
  pub gone : any (λ (u : User). u.id == id) db'.users ≡ false
  pub no_session : any (λ (s : AuthSession). s.user_id == id) db'.sessions ≡ false
  pub others : others_sessions id db'.sessions ≡ others_sessions id db.sessions

-- A deletion that succeeds removes the user and every session of the user, and no other session;
-- nobody deletes the own account.
pub delete-Deleted :
    (db : Database) (id actor now : ℕ)
    → (delete_by_administrator db id actor now).1 ≡ ok tt
    → Deleted db (delete_by_administrator db id actor now).0 id × (id ≢ actor)
unfolding delete_by_administrator
delete-Deleted db id actor now = elim (Option-cases (find_by_id db id)) [
  | inl missing ↦ rw (missing, delete_by_administrator) (λ h. absurd (cc))
  | inr (c, found) ↦
      rw (found, delete_by_administrator)
        (if_cases Removes (id == actor) (λ _ h. absurd (cc))
          (λ other.
            if_cases Removes
              (is_usable_super_admin c now && count_other_usable_super_admins db (some id) now == 0)
              (λ _ h. absurd (cc))
              (λ _ _. (
                subst (λ k. Deleted db (commit_delete db c actor now).0 k)
                    (found_by_id db id c found) (committed c),
                ground arith,
              ))))
]
  where
    Removes : Database × Outcome (Unit {0}) → Type 0
    Removes r = r.1 ≡ ok tt → Deleted db r.0 id × (id ≢ actor)

    committed : (c : User) → Deleted db (commit_delete db c actor now).0 c.id
    committed c = record {
      gone = any-delete_clear _ _ db.users (λ u e. e);
      no_session = any-delete_clear _ _ db.sessions (λ s e. e);
      others = delete-others c.id db.sessions;
    }
