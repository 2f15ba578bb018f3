-- ===== src/Account/LastAdmin.antt =====
-- The last usable super administrator under the administrative mutations.
use qq_guardian.Base.{
  ℕ, ◌<◌, ◌≤◌, ◌≡◌, refl, Bool, true, false, ◌&&◌, not, List, [], ◌∷◌, some, arith, any,
  update_where, delete_where, All, All-map, All-trivial, any-append, any-update_All,
  any-update_other, any-delete, any_outside, any_weaken, any_of_count, find_unique, Bool-cases,
  ◌==◌, inl, inr,
}
use qq_guardian.Account.Model.{User, Database}
use qq_guardian.Account.Usable.{
  IsPlain, is_usable_super_admin, sql_usable-eq, count_other_usable_super_admins,
}
use qq_guardian.Account.Users.{new_row, find_by_id}
use qq_guardian.Account.Requests.{
  Request, handle, handle_all, IsPlainRequest, IsOrdered, end_of, IsSound,
}
use qq_guardian.Account.Change.{
  HasUsable, IsGuarded, Change, unchanged, appended, rewritten, removed, Change-IsSound,
  handle-Change,
}

-- The count of the others that SQL makes finds a usable row that is not `c`.
other_usable :
    (db : Database) (now : ℕ) (c : User)
    → All IsPlain db.users
    → 0 < count_other_usable_super_admins db (some c.id) now
    → any (λ (u : User). not (u.id == c.id) && is_usable_super_admin u now) db.users ≡ true
unfolding count_other_usable_super_admins
other_usable db now c plain pos =
    any_weaken _ _ db.users (All-map db.users (λ u p e. rw (← sql_usable-eq u now p) e) plain)
      (any_of_count _ db.users pos)

others_counted :
    (db : Database) (now : ℕ) (c : User) (stays : Bool)
    → is_usable_super_admin c now ≡ true
    → stays ≡ false
    → IsGuarded db now c stays
    → 0 < count_other_usable_super_admins db (some c.id) now
others_counted db now c stays usable goes guard = ground arith

-- Rows with the key of `c` are `c` itself.
module _ (db : Database) (now : ℕ) (c : User) (s : IsSound db)
    (at : find_by_id db c.id ≡ some c) where
  pub only_row : All (λ (u : User). (u.id == c.id) ≡ true → u ≡ c) db.users
  unfolding find_by_id
  only_row = find_unique (λ (u : User). u.id) c.id db.users c s.keyed.distinct at

  other_of_unusable :
      is_usable_super_admin c now ≡ false
      → HasUsable db now
      → any (λ (u : User). not (u.id == c.id) && is_usable_super_admin u now) db.users ≡ true
  other_of_unusable unusable h =
      any_outside (λ u. is_usable_super_admin u now) (λ (u : User). u.id == c.id) db.users
        (All-map db.users (λ u only e. rw (only e) unusable) only_row) h

  pub rewritten-HasUsable :
      (f : User → User)
      → IsGuarded db now c (is_usable_super_admin (f c) now)
      → HasUsable db now
      → any
          (λ u. is_usable_super_admin u now)
          (update_where (λ (u : User). u.id == c.id) f db.users)
        ≡ true
  rewritten-HasUsable f guard h = elim (Bool-cases (is_usable_super_admin (f c) now)) [
    | inl stays ↦
        any-update_All _ _ f db.users (All-map db.users (λ u only e _. rw (only e) stays) only_row)
          h
    | inr goes ↦ elim (Bool-cases (is_usable_super_admin c now)) [
      | inl usable ↦
          any-update_other _ _ f db.users
            (other_usable db now c s.plain (others_counted db now c _ usable goes guard))
      | inr unusable ↦ any-update_other _ _ f db.users (other_of_unusable unusable h)
    ]
  ]

  pub removed-HasUsable :
      IsGuarded db now c false
      → HasUsable db now
      → any (λ u. is_usable_super_admin u now) (delete_where (λ (u : User). u.id == c.id) db.users)
        ≡ true
  removed-HasUsable guard h = elim (Bool-cases (is_usable_super_admin c now)) [
    | inl usable ↦
        any-delete _ _ db.users
          (other_usable db now c s.plain (others_counted db now c false usable refl guard))
    | inr unusable ↦ any-delete _ _ db.users (other_of_unusable unusable h)
  ]

Change-HasUsable :
    {db db' : Database} {now : ℕ}
    → IsSound db
    → Change db now db'
    → HasUsable db now
    → HasUsable db' now
Change-HasUsable s (unchanged e _) h = rw e h
Change-HasUsable {db} {now} s (appended input _ _ e _) h =
    rw (e, any-append _ db.users (new_row db.next_user_id input now ∷ [])) (rw h refl)
Change-HasUsable {db} {now} s (rewritten c f at _ _ guard e _) h =
    rw e (rewritten-HasUsable db now c s at f (guard h) h)
Change-HasUsable {db} {now} s (removed c at guard e _) h =
    rw e (removed-HasUsable db now c s at guard h)

-- A lock that has run out stays so.
usable_later :
    (u : User) (now later : ℕ)
    → now ≤ later
    → is_usable_super_admin u now ≡ true
    → is_usable_super_admin u later ≡ true
unfolding is_usable_super_admin
usable_later u now later h e = ground arith

HasUsable-later :
    (db : Database) (now later : ℕ) → now ≤ later → HasUsable db now → HasUsable db later
HasUsable-later db now later h e =
    any_weaken _ _ db.users (All-trivial db.users (λ u. usable_later u now later h)) e

-- While a usable super administrator exists, no administrative request takes the last one away: not
-- a creation, an update, a deletion, a recovery or a bootstrap, whoever asks for it. The database
-- has distinct user ids, and its texts and those of the request are plain (JavaScript's and SQLite's
-- tests for emptiness agree on them).
pub handle-HasUsable :
    (db : Database) (now : ℕ) (r : Request)
    → IsPlainRequest r
    → IsSound db
    → HasUsable db now
    → HasUsable (handle db now r) now
handle-HasUsable db now r p s h = Change-HasUsable s (handle-Change db now r p s) h

-- After any history of plain administrative requests in the order of time, from a sound database
-- with a usable super administrator, one still exists at the time of the last request, and the
-- database is sound.
pub handle_all-HasUsable :
    (db : Database) (from : ℕ) (rs : List (ℕ × Request))
    → IsSound db
    → IsOrdered from rs
    → HasUsable db from
    → HasUsable (handle_all db rs) (end_of from rs) × IsSound (handle_all db rs)
unfolding handle_all
handle_all-HasUsable db from [] s o h = (h, s)
handle_all-HasUsable db from ((now, r) ∷ rs) s (le, p, o) h =
    let c = handle-Change db now r p s in
    handle_all-HasUsable (handle db now r) now rs (Change-IsSound c s) o
      (Change-HasUsable s c (HasUsable-later db from now le h))
