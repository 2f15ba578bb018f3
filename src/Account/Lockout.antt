-- ===== src/Account/Lockout.antt =====
-- Wrong passwords and the lock of an account.
use qq_guardian.Base.{
  ℕ, suc, ◌+◌, ◌*◌, ◌≤◌, ◌<◌, ◌≡◌, refl, ◌⊎◌, Bool, true, false, List, [], ◌∷◌, none, some, String,
  arith, All, find-updated, length, subst, Bool-cases, inl, inr, ltb, leb,
}
use qq_guardian.Account.Model.{User, Database}
use qq_guardian.Account.Usable.{is_nonempty, holds_of}
use qq_guardian.Account.Users.{find_by_username, has_username, update_user}
use qq_guardian.Account.Login.{
  TokenService, AuthConfig, LoginResult, invalid_credentials, login_start, login_finish,
  failed_once, record_login_failure,
}

-- A login during whose wait nothing else happens.
module _ (tokens : TokenService) (config : AuthConfig) (name : String) where
  abbrev pub login :
      Database
      → (password_matches : Bool) → (access_id refresh_id : String) → ℕ
      → Database × LoginResult
  login db matches a r now =
      login_finish tokens db config (login_start tokens db (some name)) matches a r now

  -- One login with a wrong password after another, at the given times.
  unfoldable pub fail_all : Database → List ℕ → Database
  fail_all db [] = db
  fail_all db (now ∷ times) = fail_all (login db false "" "" now).0 times

  -- Locked until `deadline` at least, or not locked, with a count of failures.
  abbrev Counts : ℕ → ℕ → User → Type 0
  Counts deadline n u =
      ((u.locked_until ≡ none) × (u.login_attempts ≡ n) × (n < config.max_login_attempts))
      ⊎ ((t : ℕ) × (u.locked_until ≡ some t) × (deadline ≤ t))

  -- The row of the name, which can log in with a password, is counted or locked.
  record Failing (deadline n : ℕ) (db : Database) : Type 0 where
    row : User
    found : find_by_username db name ≡ some row
    with_password : holds_of is_nonempty row.password_hash ≡ true
    counts : Counts deadline n row

  failed-Counts :
      (deadline n now : ℕ) (u : User)
      → deadline ≤ now + config.lockout_seconds * 1000
      → u.locked_until ≡ none
      → u.login_attempts ≡ n
      → Counts deadline
          (suc n)
          (failed_once config.max_login_attempts (now + config.lockout_seconds * 1000) now u)
  failed-Counts deadline n now u h unlocked count =
      elim (Bool-cases (leb config.max_login_attempts (suc u.login_attempts))) [
        | inl reached ↦ inr (now + config.lockout_seconds * 1000, rw reached refl, h)
        | inr short ↦ inl (rw short unlocked, ground arith, ground arith)
      ]

  login-fails :
      (deadline n now : ℕ) (db : Database)
      → deadline ≤ now + config.lockout_seconds * 1000
      → now < deadline
      → Failing deadline n db
      → Failing deadline (suc n) (login db false "" "" now).0
  unfolding login_start login_finish record_login_failure update_user find_by_username has_username
  login-fails deadline n now db h before f = by_lock f.counts
    where
      u : User
      u = f.row

      by_lock : Counts deadline n u → Failing deadline (suc n) (login db false "" "" now).0
      by_lock (inl (unlocked, count, below)) =
          rw (f.found, f.with_password, unlocked, login_finish)
            (record {
              row =
                  failed_once config.max_login_attempts (now + config.lockout_seconds * 1000) now u;
              found =
                  find-updated (λ (x : User). x.id) (has_username name) _ db.users u (λ x. refl)
                    f.found;
              with_password = f.with_password;
              counts = failed-Counts deadline n now u h unlocked count;
            })
      by_lock (inr (t, locked, late)) =
          let still : ltb now t ≡ true = ground arith in
          rw (f.found, f.with_password, locked, still, login_finish)
            (record {
              row = u;
              found = f.found;
              with_password = f.with_password;
              counts = inr (t, locked, late);
            })

  fail_all-Failing :
      (deadline n : ℕ) (db : Database) (times : List ℕ)
      → All (λ now. (deadline ≤ now + config.lockout_seconds * 1000) × (now < deadline)) times
      → Failing deadline n db
      → Failing deadline (n + length times) (fail_all db times)
  unfolding fail_all
  fail_all-Failing deadline n db [] h f = subst (λ k. Failing deadline k db) (omega arith) f
  fail_all-Failing deadline n db (now ∷ times) ((reach, before), h) f =
      subst (λ k. Failing deadline k (fail_all (login db false "" "" now).0 times)) (omega arith)
        (fail_all-Failing deadline (suc n) _ times h (login-fails deadline n now db reach before f))

  login-locked :
      (deadline n later : ℕ) (db db' : Database) (matches : Bool) (a r : String)
      → config.max_login_attempts ≤ n
      → later < deadline
      → Failing deadline n db
      → (login_finish tokens db' config (login_start tokens db (some name)) matches a r later).1
        ≡ invalid_credentials
  unfolding login_start login_finish
  login-locked deadline n later db db' matches a r enough before f = by_lock f.counts
    where
      by_lock :
          Counts deadline n f.row
          → (login_finish tokens db' config (login_start tokens db (some name)) matches a r later).1
            ≡ invalid_credentials
      by_lock (inl (unlocked, count, below)) = absurd (omega arith)
      by_lock (inr (t, locked, late)) =
          let still : ltb later t ≡ true = ground arith in
          rw (f.found, f.with_password, locked, still, login_finish)

  -- From an unlocked account with a password and no failed attempt, make an unbroken run of at least as many
  -- logins with a wrong password as are allowed (one at least), all within one lockout period before `deadline`. A login
  -- with that name that reads the account right after them and ends before `deadline` fails, also with the
  -- right password and whatever happens to the database while it waits.
  pub lockout :
      (db db' : Database) (u : User) (times : List ℕ) (deadline later : ℕ) (matches : Bool)
      (a r : String)
      → find_by_username db name ≡ some u
      → holds_of is_nonempty u.password_hash ≡ true
      → u.locked_until ≡ none
      → u.login_attempts ≡ 0
      → 0 < config.max_login_attempts
      → config.max_login_attempts ≤ length times
      → All (λ now. (deadline ≤ now + config.lockout_seconds * 1000) × (now < deadline)) times
      → later < deadline
      → (login_finish tokens db' config
          (login_start tokens (fail_all db times) (some name))
          matches
          a
          r
          later).1
        ≡ invalid_credentials
  lockout db db' u times deadline later matches a r found password unlocked zero_attempts positive
        enough within before =
      login-locked deadline (0 + length times) later (fail_all db times) db' matches a r
        (omega arith) before
        (fail_all-Failing deadline 0 db times within (record {
          row = u;
          found = found;
          with_password = password;
          counts = inl (unlocked, zero_attempts, positive);
        }))
