-- ===== src/Account/Login.antt =====
-- login, refreshTokens, authenticateAccessToken, logout and issueTokens of src/modules/auth/index.ts,
-- and the login-state writes of UserRepository. `login` waits for scrypt between its read of the user
-- and its writes, so it stands as two parts: the second runs on the database as it is by then, with
-- the row that the first part read.
use qq_guardian.Base.{
  ℕ, suc, ◌+◌, ◌*◌, ◌==◌, Bool, true, false, ◌&&◌, ◌||◌, not, [], ◌∷◌, ◌++◌, Option, none, some,
  String, ltb, leb, is_some, or_else, str_eq, if◌then◌else◌,
}
use qq_guardian.Account.Model.{
  Role, super_admin, group_admin, auditor, viewer, member, User, SessionKind, access, refresh,
  kind_eq, Database, rank,
}
use qq_guardian.Account.Usable.{is_nonempty, holds_of}
use qq_guardian.Account.Users.{find_by_id, find_by_username, update_user, given_or}
use qq_guardian.Account.Sessions.{create, find_active, revoke, purge_expired, revoke_all_for_user}

-- What the authentication needs of src/core/crypto: the payload of a token that verifies at a time,
-- and the tokens signed at a time. `exp` is in seconds.
pub record Payload : Type 0 where
  pub sub : ℕ
  pub jti : String
  pub kind : SessionKind
  pub role : Option String
  pub exp : ℕ

pub record TokenService : Type 0 where
  pub verify_token : ℕ → String → Option Payload
  pub sign_access_token : ℕ → (sub : ℕ) → (role : String) → (jti : String) → String
  pub sign_refresh_token : ℕ → (sub : ℕ) → (jti : String) → String

abbrev pub role_name : Role → String
role_name super_admin = "super_admin"
role_name group_admin = "group_admin"
role_name auditor = "auditor"
role_name viewer = "viewer"
role_name member = "member"

unfoldable pub has_role : Role → Role → Bool
has_role user_role required = leb (rank required) (rank user_role)

pub record AuthenticationUpdate : Type 0 where
  pub last_login : Option ℕ
  pub login_attempts : Option ℕ
  pub locked_until : Option (Option ℕ)

abbrev pub write_authentication : AuthenticationUpdate → ℕ → User → User
write_authentication d now u = record u {
  last_login = given_or d.last_login u.last_login;
  login_attempts = or_else d.login_attempts u.login_attempts;
  locked_until = or_else d.locked_until u.locked_until;
  updated_at = now;
}

unfoldable pub update_authentication_state : Database → ℕ → AuthenticationUpdate → ℕ → Database
update_authentication_state db id d now =
    if is_some d.last_login || is_some d.login_attempts || is_some d.locked_until
    then update_user db id (write_authentication d now) now
    else db

unfoldable pub reset_login_attempts : Database → ℕ → ℕ → Database
reset_login_attempts db id now =
    update_authentication_state db id
      (record { last_login = some now; login_attempts = some 0; locked_until = some none }) now

abbrev pub failed_once : ℕ → ℕ → ℕ → User → User
failed_once max_attempts locked_until now u = record u {
  login_attempts = suc u.login_attempts;
  locked_until =
      if leb max_attempts (suc u.login_attempts) then some locked_until else u.locked_until;
  updated_at = now;
}

-- The answer is the count of attempts and whether the account is locked, if the row exists.
unfoldable pub record_login_failure : Database → ℕ → ℕ → ℕ → ℕ → Database × Option (ℕ × Bool)
record_login_failure db id max_attempts locked_until now =
    let db' = update_user db id (failed_once max_attempts locked_until now) now in
    (
      db',
      elim (find_by_id db' id) [
        | none ↦ none
        | some u ↦
            some
              (u.login_attempts, elim u.locked_until [ none ↦ false | some t ↦ leb locked_until t ])
      ],
    )

abbrev pub log_login : Database → ℕ → Bool → ℕ → Database
log_login db id success now = record db {
  login_logs = db.login_logs ++ (record { user_id = id; success = success; created_at = now } ∷ []);
}

-- `user.locked_until && now < user.locked_until`
abbrev pub is_locked : User → ℕ → Bool
is_locked u now = elim u.locked_until [ none ↦ false | some t ↦ ltb now t ]

pub record TokenPair : Type 0 where
  pub access_token : String
  pub refresh_token : String

pub data LoginResult : Type 0 where
  logged_in : TokenPair → LoginResult
  invalid_credentials : LoginResult
  threw : LoginResult

pub record AuthConfig : Type 0 where
  pub max_login_attempts : ℕ
  pub lockout_seconds : ℕ

module _ (tokens : TokenService) where
  open tokens use {verify_token, sign_access_token, sign_refresh_token}

  -- `verifyAccessToken`
  unfoldable pub verify_access_token : ℕ → String → Option Payload
  verify_access_token now token = elim (verify_token now token) [
    | none ↦ none
    | some p ↦ if kind_eq p.kind access && is_some p.role then some p else none
  ]

  -- The writes of `issueTokens` after its clock reading; they stand one by one, so that an exception
  -- of a later one leaves the earlier ones. The ids are `randomUUID()`s.
  unfoldable pub store_tokens :
      Database
      → ℕ
      → (access_id refresh_id : String) → (access_exp refresh_exp now : ℕ) → Database × Bool
  store_tokens db user_id access_id refresh_id access_exp refresh_exp now =
      let purged = (purge_expired db.sessions now).0 in
      elim (create db.users purged access_id user_id access now (access_exp * 1000)) [
        | none ↦ (record db { sessions = purged }, false)
        | some first ↦
            elim (create db.users first refresh_id user_id refresh now (refresh_exp * 1000)) [
              | none ↦ (record db { sessions = first }, false)
              | some both ↦ (record db { sessions = both }, true)
            ]
      ]

  unfoldable pub issue_tokens :
      Database → User → (access_id refresh_id : String) → ℕ → Database × Option TokenPair
  issue_tokens db user access_id refresh_id now =
      let access_token = sign_access_token now user.id (role_name user.role) access_id in
      let refresh_token = sign_refresh_token now user.id refresh_id in
      elim (verify_access_token now access_token) [
        | none ↦ (db, none)
        | some a ↦ elim (verify_token now refresh_token) [
          | none ↦ (db, none)
          | some r ↦
              let (db', stored) = store_tokens db user.id access_id refresh_id a.exp r.exp now in
              if a.exp == 0 || r.exp == 0 then (db, none) else (
                db',
                if stored
                    then some
                        (record { access_token = access_token; refresh_token = refresh_token })
                    else none,
              )
        ]
      ]

  -- Before the wait: the row of the normalized user name, if the name is valid.
  unfoldable pub login_start : Database → Option String → Option User
  login_start db username = elim username [ none ↦ none | some name ↦ find_by_username db name ]

  -- After the wait, with its result.
  unfoldable pub login_finish :
      Database
      → AuthConfig
      → Option User
      → (password_matches : Bool) → (access_id refresh_id : String) → ℕ
      → Database × LoginResult
  login_finish db config none matches access_id refresh_id now = (db, invalid_credentials)
  login_finish db config (some user) matches access_id refresh_id now =
      if not (holds_of is_nonempty user.password_hash)
      then (db, invalid_credentials)
      else if is_locked user now
      then (log_login db user.id false now, invalid_credentials)
      else if not matches
      then (
        log_login
            (record_login_failure db user.id config.max_login_attempts
              (now + config.lockout_seconds * 1000) now).0
            user.id false now,
        invalid_credentials,
      )
      else let (db', pair) =
          issue_tokens (log_login (reset_login_attempts db user.id now) user.id true now) user
            access_id refresh_id now in
        (db', elim pair [ none ↦ threw | some p ↦ logged_in p ])

  -- The end of `refreshTokens`: the old token is revoked, and a pair is issued if it was live.
  unfoldable pub exchange :
      Database → Payload → User → (access_id refresh_id : String) → ℕ → Database × Option TokenPair
  exchange db p user access_id refresh_id now =
      let (sessions, revoked) = revoke db.sessions p.jti now in
      let db' = record db { sessions = sessions } in
      if revoked then issue_tokens db' user access_id refresh_id now else (db', none)

  -- `none` is a refusal or an exception of SQLite.
  unfoldable pub refresh_tokens :
      Database → String → (access_id refresh_id : String) → ℕ → Database × Option TokenPair
  refresh_tokens db token access_id refresh_id now = elim (verify_token now token) [
    | none ↦ (db, none)
    | some p ↦
        if not (kind_eq p.kind refresh)
        then (db, none)
        else elim (find_active db.sessions p.jti p.sub refresh now) [
          | none ↦ (db, none)
          | some session ↦ elim (find_by_id db p.sub) [
            | none ↦ (db, none)
            | some user ↦
                if is_locked user now
                then (db, none)
                else exchange db p user access_id refresh_id now
          ]
        ]
  ]

  unfoldable pub authenticate_access_token : Database → String → ℕ → Option (User × Role)
  authenticate_access_token db token now = elim (verify_access_token now token) [
    | none ↦ none
    | some p ↦ elim (find_active db.sessions p.jti p.sub access now) [
      | none ↦ none
      | some session ↦ elim (find_by_id db p.sub) [
        | none ↦ none
        | some user ↦
            if is_locked user now || not (str_eq (role_name user.role) (or_else p.role ""))
            then none
            else some (user, user.role)
      ]
    ]
  ]

  unfoldable pub logout : Database → String → ℕ → Database
  logout db token now = elim (verify_token now token) [
    | none ↦ db
    | some p ↦ record db { sessions = (revoke db.sessions p.jti now).0 }
  ]

unfoldable pub revoke_user_sessions : Database → ℕ → ℕ → Database
revoke_user_sessions db user_id now = record db {
  sessions = (revoke_all_for_user db.sessions user_id now).0;
}
