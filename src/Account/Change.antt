-- ===== src/Account/Change.antt =====
-- What a mutation does to the table of users: nothing, one more row, one row rewritten or one row
-- removed, the last two under the guard that protects the last super administrator.
use qq_guardian.Base.{
  ℕ, suc, ◌<◌, ◌≡◌, refl, Bool, true, false, ◌&&◌, not, List, [], ◌∷◌, ◌++◌, none, some, String,
  arith, inl, inr, any, update_where, delete_where, All, any_weaken, count_of_any, All-map,
  Bool-cases, Option-cases, if_cases, ◌==◌, sym, find-key, find-again, subst,
}
use qq_guardian.Account.Model.{User, ChangedField, Database}
use qq_guardian.Account.Usable.{
  IsPlain, is_usable_super_admin, sql_usable-eq, count_other_usable_super_admins,
}
use qq_guardian.Account.Users.{
  Outcome, CreateInput, AdministrativeUpdate, new_row, insert, update_user, recovered_row, project,
  apply_update, create_by_administrator, create_bootstrap_admin, recover_super_admin,
  update_by_administrator, delete_by_administrator, find_by_id, find_by_username,
  changed_administrative_fields, removes_last, violates_unique, is_empty, update_existing,
  recover_existing, recover_new, recovery_input, revoke_sessions,
}
use qq_guardian.Account.Requests.{
  Request, create, bootstrap, recover, update, delete, handle, NameAgrees, HashAgrees,
  IsPlainRequest, IsSound,
}
use qq_guardian.Account.Keeping.{
  IsSound-of_users, IsSound-append, IsSound-update, IsSound-delete, apply_update-IsPlain,
}

-- Some user is a usable super administrator.
abbrev pub HasUsable : Database → ℕ → Type 0
HasUsable db now = any (λ u. is_usable_super_admin u now) db.users ≡ true

-- The guard: a usable row is taken away only while another is counted.
abbrev pub IsGuarded : Database → ℕ → User → Bool → Type 0
IsGuarded db now c stays =
    (is_usable_super_admin c now
      && not stays
      && count_other_usable_super_admins db (some c.id) now == 0)
    ≡ false

pub data Change (db : Database) (now : ℕ) (db' : Database) : Type 0 where
  unchanged : db'.users ≡ db.users → db'.next_user_id ≡ db.next_user_id → Change db now db'
  appended :
      (input : CreateInput)
      → NameAgrees input.username
      → HashAgrees input.password_hash
      → db'.users ≡ db.users ++ (new_row db.next_user_id input now ∷ [])
      → db'.next_user_id ≡ suc db.next_user_id
      → Change db now db'
  rewritten :
      (c : User) (f : User → User)
      → find_by_id db c.id ≡ some c
      → ((u : User) → (f u).id ≡ u.id)
      → ((u : User) → IsPlain u → IsPlain (f u))
      → (HasUsable db now → IsGuarded db now c (is_usable_super_admin (f c) now))
      → db'.users ≡ update_where (λ (u : User). u.id == c.id) f db.users
      → db'.next_user_id ≡ db.next_user_id
      → Change db now db'
  removed :
      (c : User)
      → find_by_id db c.id ≡ some c
      → IsGuarded db now c false
      → db'.users ≡ delete_where (λ (u : User). u.id == c.id) db.users
      → db'.next_user_id ≡ db.next_user_id
      → Change db now db'

-- A change keeps a sound database sound.
pub Change-IsSound : {db db' : Database} {now : ℕ} → Change db now db' → IsSound db → IsSound db'
Change-IsSound {db} {db'} (unchanged e f) s = IsSound-of_users db db' e f s
Change-IsSound {db} {db'} {now} (appended input n h e f) s =
    IsSound-append db db' input now n h e f s
Change-IsSound {db} {db'} (rewritten c f at same plain guard e g) s =
    IsSound-update db db' _ f same plain e g s
Change-IsSound {db} {db'} (removed c at guard e g) s = IsSound-delete db db' _ e g s

create-Change :
    (db : Database) (now : ℕ) (input : CreateInput) (actor : ℕ)
    → IsPlainRequest (create input actor)
    → Change db now (create_by_administrator db input actor now).0
unfolding create_by_administrator insert
create-Change db now input actor (n, h) = elim (Bool-cases (violates_unique db.users input)) [
  | inl bad ↦ rw (bad, create_by_administrator) (unchanged refl refl)
  | inr fine ↦ rw (fine, create_by_administrator) (appended input n h refl refl)
]

bootstrap-Change :
    (db : Database) (now : ℕ) (input : CreateInput)
    → IsPlainRequest (bootstrap input)
    → Change db now (create_bootstrap_admin db input now).0
unfolding create_bootstrap_admin insert
bootstrap-Change db now input (n, h) =
    if_cases (λ (r : Database × Outcome _). Change db now r.0) (is_empty db.users)
      (λ _. elim (Bool-cases (violates_unique db.users input)) [
        | inl bad ↦ rw bad (unchanged refl refl)
        | inr fine ↦ rw fine (appended input n h refl refl)
      ])
      (λ _. unchanged refl refl)

pub found_by_id : (db : Database) (id : ℕ) (c : User) → find_by_id db id ≡ some c → c.id ≡ id
unfolding find_by_id
found_by_id db id c e = find-key (λ (u : User). u.id) id db.users c e

pub found_again :
    (db : Database) (id : ℕ) (c : User) → find_by_id db id ≡ some c → find_by_id db c.id ≡ some c
found_again db id c e = subst (λ k. find_by_id db k ≡ some c) (sym (found_by_id db id c e)) e

guard_at :
    (db : Database) (now id : ℕ) (c : User)
    → c.id ≡ id
    → (is_usable_super_admin c now && count_other_usable_super_admins db (some id) now == 0) ≡ false
    → IsGuarded db now c false
guard_at db now id c e h =
    let at_row =
      subst
        (λ k.
          (is_usable_super_admin c now && count_other_usable_super_admins db (some k) now == 0)
          ≡ false)
        (sym e) h in
    ground arith

delete-Change :
    (db : Database) (now id actor : ℕ) → Change db now (delete_by_administrator db id actor now).0
unfolding delete_by_administrator
delete-Change db now id actor = elim (Option-cases (find_by_id db id)) [
  | inl missing ↦ rw (missing, delete_by_administrator) (unchanged refl refl)
  | inr (c, found) ↦
      let same = found_by_id db id c found in
      rw (found, delete_by_administrator)
        (if_cases (λ (r : Database × Outcome _). Change db now r.0) (id == actor)
          (λ _. unchanged refl refl)
          (λ _.
            if_cases (λ (r : Database × Outcome _). Change db now r.0)
              (is_usable_super_admin c now && count_other_usable_super_admins db (some id) now == 0)
              (λ _. unchanged refl refl)
              (λ fine.
                removed c (found_again db id c found) (guard_at db now id c same fine) refl refl)))
]

pub apply_update-usable :
    (d : AdministrativeUpdate) (now : ℕ) (c : User)
    → is_usable_super_admin (apply_update d now c) now ≡ is_usable_super_admin (project c d) now
unfolding is_usable_super_admin
apply_update-usable d now c = refl

update-Change :
    (db : Database) (now id : ℕ) (d : AdministrativeUpdate) (actor : ℕ)
    → HashAgrees d.password_hash
    → Change db now (update_by_administrator db id d actor now).0
unfolding update_by_administrator update_user removes_last revoke_sessions project
update-Change db now id d actor h = elim (Option-cases (find_by_id db id)) [
  | inl missing ↦ rw (missing, update_by_administrator) (unchanged refl refl)
  | inr (c, found) ↦
      rw (found, update_by_administrator)
        (on_fields c (found_again db id c found) (changed_administrative_fields c (project c d))
          refl)
]
  where
    on_fields :
        (c : User)
        → find_by_id db c.id ≡ some c
        → (fs : List ChangedField) → changed_administrative_fields c (project c d) ≡ fs
        → Change db now (update_existing db c d actor now).0
    on_fields c found [] e = rw (e, update_existing) (unchanged refl refl)
    on_fields c found (f ∷ fs) e =
        rw (e, update_existing)
          (if_cases (λ (r : Database × Outcome User). Change db now r.0)
            (removes_last db c (project c d) now) (λ _. unchanged refl refl)
            (λ fine.
              rewritten c (apply_update d now) found (λ u. refl)
                (λ u p. apply_update-IsPlain d now u h p)
                (λ _. rw (apply_update-usable d now c) fine) refl refl))

recover_existing-Change :
    (db : Database) (now : ℕ) (c : User) (hash : String)
    → HashAgrees (some hash)
    → find_by_id db c.id ≡ some c
    → (HasUsable db now → ⊥)
    → Change db now (recover_existing db c hash now).0
unfolding recover_existing update_user revoke_sessions
recover_existing-Change db now c hash h found unusable =
    rewritten c (recovered_row hash now) found (λ u. refl)
      (λ u p. record { name_agrees = p.name_agrees; hash_agrees = h }) (λ e. absurd (unusable e))
      refl refl

recover_new-Change :
    (db : Database) (now : ℕ) (name hash : String)
    → IsPlainRequest (recover name hash)
    → Change db now (recover_new db name hash now).0
unfolding recover_new insert
recover_new-Change db now name hash (n, h) =
    elim (Bool-cases (violates_unique db.users (recovery_input name hash))) [
      | inl bad ↦ rw (bad, recover_new) (unchanged refl refl)
      | inr fine ↦ rw (fine, recover_new) (appended (recovery_input name hash) n h refl refl)
    ]

-- With a usable super administrator the SQL count is not 0.
pub counted_of_HasUsable :
    (db : Database) (now : ℕ)
    → All IsPlain db.users
    → HasUsable db now
    → 0 < count_other_usable_super_admins db none now
unfolding count_other_usable_super_admins
counted_of_HasUsable db now plain h = count_of_any _ db.users (
    any_weaken (λ u. is_usable_super_admin u now) _ db.users
      (All-map db.users (λ u p e. rw (sql_usable-eq u now p) e) plain) h)

recover-Change :
    (db : Database) (now : ℕ) (name hash : String)
    → IsPlainRequest (recover name hash)
    → IsSound db
    → Change db now (recover_super_admin db name hash now).0
unfolding recover_super_admin find_by_id find_by_username
recover-Change db now name hash (n, h) s =
    if_cases (λ (r : Database × Outcome _). Change db now r.0)
      (count_other_usable_super_admins db none now == 0)
      (λ zero. elim (Option-cases (find_by_username db name)) [
        | inl fresh ↦ rw (fresh) (recover_new-Change db now name hash (n, h))
        | inr (c, found) ↦ rw (found) (
            recover_existing-Change db now c hash h
              (find-again (λ (u : User). u.id) _ db.users c s.keyed.distinct found)
              (λ e. ground (arith, counted_of_HasUsable db now s.plain e)))
      ])
      (λ _. unchanged refl refl)

-- Every administrative request is such a change.
pub handle-Change :
    (db : Database) (now : ℕ) (r : Request)
    → IsPlainRequest r
    → IsSound db
    → Change db now (handle db now r)
unfolding handle
handle-Change db now (create input actor) p s = create-Change db now input actor p
handle-Change db now (bootstrap input) p s = bootstrap-Change db now input p
handle-Change db now (recover name hash) p s = recover-Change db now name hash p s
handle-Change db now (update id d actor) p s = update-Change db now id d actor p
handle-Change db now (delete id actor) p s = delete-Change db now id actor
