-- ===== src/Account/Keeping.antt =====
-- Distinct user ids below the counter, and plain texts, under the administrative mutations.
use qq_guardian.Base.{
  ℕ, suc, ◌<◌, ◌≡◌, refl, Bool, [], ◌∷◌, ◌++◌, Option, none, some, String, arith, update_where,
  delete_where, All-append, All-update, All-delete, All-map, DistinctKeys-update,
  DistinctKeys-delete, DistinctKeys-append,
}
use qq_guardian.Account.Model.{User, Database}
use qq_guardian.Account.Usable.{IsPlain}
use qq_guardian.Account.Users.{
  CreateInput, AdministrativeUpdate, new_row, project, apply_update, given_or,
}
use qq_guardian.Account.Requests.{NameAgrees, HashAgrees, IsSound}

-- Soundness reads the users and the counter alone.
pub IsSound-of_users :
    (db : Database) (db' : Database)
    → db'.users ≡ db.users
    → db'.next_user_id ≡ db.next_user_id
    → IsSound db
    → IsSound db'
IsSound-of_users db db' e f s = record {
  keyed = record { distinct = rw e s.keyed.distinct; below = rw (e, f) s.keyed.below };
  plain = rw e s.plain;
}

pub IsSound-append :
    (db : Database) (db' : Database) (input : CreateInput) (now : ℕ)
    → NameAgrees input.username
    → HashAgrees input.password_hash
    → db'.users ≡ db.users ++ (new_row db.next_user_id input now ∷ [])
    → db'.next_user_id ≡ suc db.next_user_id
    → IsSound db
    → IsSound db'
IsSound-append db db' input now n h e f s = record {
  keyed = record {
    distinct = rw e (
        DistinctKeys-append (λ (u : User). u.id) db.users (new_row db.next_user_id input now)
          db.next_user_id refl s.keyed.below s.keyed.distinct);
    below =
        rw (e, f)
          (All-append (λ (u : User). u.id < suc db.next_user_id) db.users _
            (All-map db.users (λ u lt. omega arith) s.keyed.below) (omega arith, tt));
  };
  plain =
      rw e
        (All-append IsPlain db.users _ s.plain (record { name_agrees = n; hash_agrees = h }, tt));
}

pub IsSound-update :
    (db : Database) (db' : Database) (p : User → Bool) (f : User → User)
    → ((u : User) → (f u).id ≡ u.id)
    → ((u : User) → IsPlain u → IsPlain (f u))
    → db'.users ≡ update_where p f db.users
    → db'.next_user_id ≡ db.next_user_id
    → IsSound db
    → IsSound db'
IsSound-update db db' p f same plain e g s = record {
  keyed = record {
    distinct = rw e (DistinctKeys-update (λ (u : User). u.id) p f db.users same s.keyed.distinct);
    below =
        rw (e, g)
          (All-update (λ (u : User). u.id < db.next_user_id) p f db.users (λ u _ lt. rw (same u) lt)
            s.keyed.below);
  };
  plain = rw e (All-update IsPlain p f db.users (λ u _. plain u) s.plain);
}

pub IsSound-delete :
    (db : Database) (db' : Database) (p : User → Bool)
    → db'.users ≡ delete_where p db.users
    → db'.next_user_id ≡ db.next_user_id
    → IsSound db
    → IsSound db'
IsSound-delete db db' p e g s = record {
  keyed = record {
    distinct = rw e (DistinctKeys-delete (λ (u : User). u.id) p db.users s.keyed.distinct);
    below = rw (e, g) (All-delete (λ (u : User). u.id < db.next_user_id) p db.users s.keyed.below);
  };
  plain = rw e (All-delete IsPlain p db.users s.plain);
}

pub apply_update-IsPlain :
    (d : AdministrativeUpdate) (now : ℕ) (u : User)
    → HashAgrees d.password_hash
    → IsPlain u
    → IsPlain (apply_update d now u)
unfolding project
apply_update-IsPlain d now u h p = record {
  name_agrees = p.name_agrees;
  hash_agrees = given_agrees d.password_hash h p.hash_agrees;
}
  where
    given_agrees :
        (o : Option String)
        → HashAgrees o
        → HashAgrees u.password_hash
        → HashAgrees (given_or o u.password_hash)
    given_agrees none _ k = k
    given_agrees (some hash) k _ = k
