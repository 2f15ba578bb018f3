-- ===== src/Account/Tests.antt =====
-- Runs of the account operations on small databases.
use qq_guardian.Base.{
  ℕ, ◌≡◌, ◌≢◌, ◌↔◌, refl, true, [], ◌∷◌, none, some, String, arith, str_eq, if◌then◌else◌,
}
use qq_guardian.Account.Model.{
  Role, User, super_admin, viewer, AuthSession, access, refresh, Database, user_not_found,
  last_usable_super_admin, update_attempt,
}
use qq_guardian.Account.Usable.{
  is_usable_super_admin, trim_is_visible, sql_trim_is_visible, is_nonempty, sql_is_nonempty,
}
use qq_guardian.Account.Users.{
  AdministrativeUpdate, err, find_by_id, find_by_username, has_username, update_by_administrator,
  delete_by_administrator, changed_administrative_fields, project, removes_last,
}
use qq_guardian.Account.Requests.{update, delete, handle_all, IsSound}
use qq_guardian.Account.Change.{HasUsable}
use qq_guardian.Account.Sessions.{find_active, revoke, create as create_session, purge_expired}
use qq_guardian.Account.Login.{
  Payload, TokenService, AuthConfig, invalid_credentials, refresh_tokens, authenticate_access_token,
  logout, login_start, login_finish, issue_tokens, store_tokens, verify_access_token, exchange,
}
use qq_guardian.Account.Mutations.{OnlyAudited, update-error_audited}
use qq_guardian.Account.LastAdmin.{handle_all-HasUsable}
use qq_guardian.Account.Users.{ok, commit_update, apply_update, revoke_sessions, update_user}
use qq_guardian.Account.Revocation.{Answered, Deleted, update-Answered, delete-Deleted}
use qq_guardian.Account.Refusal.{with_update, update-refused_iff}
use qq_guardian.Account.Expulsion.{update-expels, logout-expels, refresh-once}
use qq_guardian.Account.Lockout.{fail_all, lockout}

abbrev account : ℕ → String → Role → User
account id name role = record {
  id = id;
  qq_id = none;
  username = some name;
  password_hash = some "hash";
  role = role;
  login_attempts = 0;
  locked_until = none;
  last_login = none;
  created_at = 0;
  updated_at = 0;
}

abbrev session_of : String → ℕ → AuthSession
session_of token user = record {
  token_id = token;
  user_id = user;
  kind = refresh;
  issued_at = 0;
  expires_at = 1000;
  revoked_at = none;
}

-- A super administrator, with a session, and a viewer.
abbrev office : Database
office = record {
  users = account 1 "root" super_admin ∷ account 2 "ann" viewer ∷ [];
  next_user_id = 3;
  sessions = session_of "1:r" 1 ∷ [];
  audits = [];
  login_logs = [];
}

abbrev demotion : AdministrativeUpdate
demotion = record {
  password_hash = none;
  role = some viewer;
  login_attempts = none;
  locked_until = none;
}

abbrev new_password : AdministrativeUpdate
new_password = record {
  password_hash = some "other";
  role = none;
  login_attempts = none;
  locked_until = none;
}

office-IsSound : IsSound office
unfolding trim_is_visible sql_trim_is_visible is_nonempty sql_is_nonempty
office-IsSound = record {
  keyed = record {
    distinct = (((λ e. omega arith), tt), (tt, tt));
    below = ((omega arith), ((omega arith), tt));
  };
  plain = (
    record { name_agrees = refl; hash_agrees = refl },
    (record { name_agrees = refl; hash_agrees = refl }, tt),
  );
}

handle_all-HasUsable_example :
    HasUsable (handle_all office ((5, delete 1 2) ∷ (6, update 1 demotion 2) ∷ [])) 6
    × IsSound (handle_all office ((5, delete 1 2) ∷ (6, update 1 demotion 2) ∷ []))
unfolding is_usable_super_admin trim_is_visible is_nonempty
handle_all-HasUsable_example =
    handle_all-HasUsable office 5 ((5, delete 1 2) ∷ (6, update 1 demotion 2) ∷ []) office-IsSound
      ((omega arith), tt, ((omega arith), refl, tt)) refl

update-error_audited_example :
    OnlyAudited office
      (update_by_administrator office 7 demotion 1 5).0
      update_attempt
      user_not_found
      7
      1
      5
unfolding update_by_administrator find_by_id
update-error_audited_example = update-error_audited office 7 demotion 1 5 user_not_found refl

new_password_accepted :
    (update_by_administrator office 1 new_password 2 5).1
    ≡ ok (apply_update new_password 5 (account 1 "root" super_admin))
unfolding update_by_administrator find_by_id changed_administrative_fields project removes_last
    is_usable_super_admin trim_is_visible is_nonempty commit_update revoke_sessions update_user
new_password_accepted = refl

update-Answered_example :
    Answered office
      (update_by_administrator office 1 new_password 2 5).0
      1
      new_password
      5
      (apply_update new_password 5 (account 1 "root" super_admin))
update-Answered_example =
    update-Answered office 1 new_password 2 5
      (apply_update new_password 5 (account 1 "root" super_admin)) new_password_accepted

delete-Deleted_example :
    Deleted office (delete_by_administrator office 2 1 5).0 2 × (◌≢◌ {A = ℕ} 2 1)
unfolding delete_by_administrator find_by_id is_usable_super_admin trim_is_visible is_nonempty
delete-Deleted_example = delete-Deleted office 2 1 5 refl

update-refused_iff_example :
    ((update_by_administrator office 1 demotion 2 5).1 ≡ err last_usable_super_admin)
    ↔ (HasUsable office 5 × ¬ HasUsable (with_update office 1 demotion 5) 5)
unfolding find_by_id
update-refused_iff_example =
    update-refused_iff office 5 1 (account 1 "root" super_admin) demotion 2 office-IsSound refl

-- Tokens that verify until time 1000: the refresh token "1:r" of user 1.
abbrev tokens : TokenService
tokens = record {
  verify_token = λ now token.
      if str_eq token "1:r"
      then some (record { sub = 1; jti = "1:r"; kind = refresh; role = none; exp = 1000 })
      else if str_eq token "n"
      then some (record { sub = 1; jti = "n"; kind = refresh; role = none; exp = 1000 })
      else some
          (record { sub = 1; jti = token; kind = access; role = some "super_admin"; exp = 1000 });
  sign_access_token = λ now sub role jti. jti;
  sign_refresh_token = λ now sub jti. jti;
}

abbrev payload : Payload
payload = record { sub = 1; jti = "1:r"; kind = refresh; role = none; exp = 1000 }

update-expels_example :
    (authenticate_access_token tokens (update_by_administrator office 1 new_password 2 5).0 "1:r" 6
      ≡ none)
    × ((refresh_tokens tokens
          (update_by_administrator office 1 new_password 2 5).0
          "1:r"
          "a"
          "b"
          6).1
        ≡ none)
unfolding find_by_id changed_administrative_fields project removes_last is_usable_super_admin
    trim_is_visible is_nonempty
update-expels_example =
    update-expels tokens office 1 (account 1 "root" super_admin) new_password 2 5 "1:r" "a" "b" 6
      payload refl (λ e. cc) refl refl refl

logout-expels_example :
    (authenticate_access_token tokens (logout tokens office "1:r" 5) "1:r" 6 ≡ none)
    × ((refresh_tokens tokens (logout tokens office "1:r" 5) "1:r" "a" "b" 6).1 ≡ none)
logout-expels_example = logout-expels tokens office "1:r" "a" "b" 5 6 payload refl refl

refresh-once_example :
    (refresh_tokens tokens (refresh_tokens tokens office "1:r" "a" "n" 5).0 "1:r" "c" "d" 6).1
    ≡ none
unfolding refresh_tokens exchange issue_tokens store_tokens find_active find_by_id
    verify_access_token revoke create_session purge_expired
refresh-once_example =
    refresh-once tokens office "1:r" "a" "n" "c" "d" 5 6 payload
      (record { access_token = "a"; refresh_token = "n" }) refl refl refl

abbrev two_tries : AuthConfig
two_tries = record { max_login_attempts = 2; lockout_seconds = 60 }

lockout_example :
    (login_finish tokens office two_tries
      (login_start tokens (fail_all tokens two_tries "ann" office (5 ∷ 6 ∷ [])) (some "ann"))
      true
      "a"
      "b"
      9).1
    ≡ invalid_credentials
unfolding find_by_username has_username is_nonempty
lockout_example =
    lockout tokens two_tries "ann" office office (account 2 "ann" viewer) (5 ∷ 6 ∷ []) 1000 9 true
      "a" "b" refl refl refl refl (omega arith) (omega arith)
      (((omega arith), (omega arith)), (((omega arith), (omega arith)), tt)) (omega arith)
