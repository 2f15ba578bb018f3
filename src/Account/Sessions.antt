-- ===== src/Account/Sessions.antt =====
-- AuthSessionRepository of src/database/repositories/session.ts, over the table auth_sessions. Where
-- an operation gives the number of rows changed, the number stands beside the table.
use qq_guardian.Base.{
  ℕ, Bool, ◌&&◌, ◌||◌, not, List, [], ◌∷◌, ◌++◌, Option, none, some, String, ltb, leb, ◌==◌,
  is_none, str_eq, if◌then◌else◌, find, any, count_where, update_where, delete_where,
}
use qq_guardian.Account.Model.{AuthSession, SessionKind, kind_eq, User}
use qq_guardian.Account.Users.{is_live_of, revoked_by_now}

abbrev pub has_token : String → AuthSession → Bool
has_token token s = str_eq s.token_id token

-- `INSERT INTO auth_sessions`; `none` where SQLite throws: the token id is taken (the primary key), or
-- no user has the id (the foreign key).
unfoldable pub create :
    List User → List AuthSession → String → ℕ → SessionKind → ℕ → ℕ → Option (List AuthSession)
create users ss token user_id kind issued expires =
    if any (has_token token) ss || not (any (λ (u : User). u.id == user_id) users)
    then none
    else some (
        ss
        ++ (record {
          token_id = token;
          user_id = user_id;
          kind = kind;
          issued_at = issued;
          expires_at = expires;
          revoked_at = none;
        }
            ∷ []))

abbrev pub is_active : String → ℕ → SessionKind → ℕ → AuthSession → Bool
is_active token user_id kind now s =
    has_token token s
    && s.user_id == user_id
    && kind_eq s.kind kind
    && is_none s.revoked_at
    && ltb now s.expires_at

unfoldable pub find_active : List AuthSession → String → ℕ → SessionKind → ℕ → Option AuthSession
find_active ss token user_id kind now = find (is_active token user_id kind now) ss

abbrev pub is_live_token : String → AuthSession → Bool
is_live_token token s = has_token token s && is_none s.revoked_at

-- `changes > 0`
unfoldable pub revoke : List AuthSession → String → ℕ → List AuthSession × Bool
revoke ss token now = (
  update_where (is_live_token token) (revoked_by_now now) ss,
  ltb 0 (count_where (is_live_token token) ss),
)

unfoldable pub revoke_all_for_user : List AuthSession → ℕ → ℕ → List AuthSession × ℕ
revoke_all_for_user ss user_id now =
    (update_where (is_live_of user_id) (revoked_by_now now) ss, count_where (is_live_of user_id) ss)

abbrev pub is_expired : ℕ → AuthSession → Bool
is_expired now s = leb s.expires_at now

unfoldable pub purge_expired : List AuthSession → ℕ → List AuthSession × ℕ
purge_expired ss now = (delete_where (is_expired now) ss, count_where (is_expired now) ss)
