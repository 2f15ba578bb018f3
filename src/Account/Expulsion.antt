-- ===== src/Account/Expulsion.antt =====
-- Tokens after an administrator's update, after a logout, and after the use of a refresh token.
use qq_guardian.Base.{
  ℕ, ◌≡◌, ◌≢◌, refl, Bool, true, false, ◌&&◌, ◌||◌, not, List, [], ◌∷◌, ◌++◌, Option, none, some,
  String, arith, any, find, delete_where, any-append, any-update, any-delete, any-update_clear,
  any_weaken, any_undeleted, All-trivial, ◌*◌, Bool-cases, Option-cases, if_cases, inl, inr, ◌==◌,
  is_some, str_eq, str_eq_iff, subst, sym, ltb,
}
use qq_guardian.Account.Model.{User, Database, AuthSession, SessionKind, access, refresh, kind_eq}
use qq_guardian.Account.Users.{
  AdministrativeUpdate, find_by_id, update_by_administrator, project, removes_last,
  changed_administrative_fields, is_live_of, revoked_by_now,
}
use qq_guardian.Account.Sessions.{
  has_token, create, is_active, find_active, is_live_token, revoke, purge_expired, is_expired,
}
use qq_guardian.Account.Revocation.{update-Updated}
use qq_guardian.Account.Login.{
  Payload, TokenService, TokenPair, verify_access_token, store_tokens, issue_tokens, exchange,
  refresh_tokens, authenticate_access_token, logout, is_locked, role_name,
}

find-none_of {ℓ} :
    {A : Type ℓ} (p q : A → Bool) (xs : List A)
    → ((x : A) → p x ≡ true → q x ≡ true)
    → any q xs ≡ false
    → find p xs ≡ none
find-none_of p q [] sub h = refl
find-none_of p q (x ∷ xs) sub h = ground (arith, sub x, find-none_of p q xs sub)

-- Without a live session of the user no session of the user is active.
find_active-revoked :
    (ss : List AuthSession) (token : String) (id : ℕ) (kind : SessionKind) (now : ℕ)
    → any (is_live_of id) ss ≡ false
    → find_active ss token id kind now ≡ none
unfolding find_active
find_active-revoked ss token id kind now h =
    find-none_of (is_active token id kind now) (is_live_of id) ss (λ s e. ground arith) h

-- Without a live session under a token id none under it is active.
find_active-used :
    (ss : List AuthSession) (token : String) (id : ℕ) (kind : SessionKind) (now : ℕ)
    → any (is_live_token token) ss ≡ false
    → find_active ss token id kind now ≡ none
unfolding find_active
find_active-used ss token id kind now h =
    find-none_of (is_active token id kind now) (is_live_token token) ss (λ s e. ground arith) h

-- What stays of a token id once it is revoked: a row with it, which a purge at `now` leaves, and no
-- live row.
abbrev pub is_kept : String → ℕ → AuthSession → Bool
is_kept token now s = has_token token s && ltb now s.expires_at

record IsSpent (token : String) (now : ℕ) (ss : List AuthSession) : Type 0 where
  taken : any (is_kept token now) ss ≡ true
  not_live : any (is_live_token token) ss ≡ false

module _ (token : String) (now : ℕ) where
  any_kept :
      (ss : List AuthSession) → any (is_kept token now) ss ≡ true → any (has_token token) ss ≡ true
  any_kept [] h = h
  any_kept (s ∷ ss) h = ground (arith, any_kept ss)

  find_active-kept :
      (ss : List AuthSession) (id : ℕ) (kind : SessionKind) (s : AuthSession)
      → find_active ss token id kind now ≡ some s
      → any (is_kept token now) ss ≡ true
  unfolding find_active
  find_active-kept [] id kind s h = cc
  find_active-kept (x ∷ xs) id kind s h = ground (arith, find_active-kept xs id kind s)

  revoke-kept :
      (ss : List AuthSession) (at : ℕ)
      → any (is_kept token now) ss ≡ true
      → any (is_kept token now) (revoke ss token at).0 ≡ true
  unfolding revoke
  revoke-kept ss at h =
      any-update (is_kept token now) (is_live_token token) (revoked_by_now at) ss (λ s _ e. e) h

  purge-IsSpent :
      (ss : List AuthSession) → IsSpent token now ss → IsSpent token now (purge_expired ss now).0
  unfolding purge_expired
  purge-IsSpent ss h = record { taken = kept ss h.taken; not_live = dead ss h.not_live }
    where
      kept :
          (xs : List AuthSession)
          → any (is_kept token now) xs ≡ true
          → any (is_kept token now) (delete_where (is_expired now) xs) ≡ true
      kept xs g = any-delete (is_kept token now) (is_expired now) xs (
          any_weaken (is_kept token now) (λ s. not (is_expired now s) && is_kept token now s) xs
            (All-trivial xs (λ s e. ground arith)) g)

      dead :
          (xs : List AuthSession)
          → any (is_live_token token) xs ≡ false
          → any (is_live_token token) (delete_where (is_expired now) xs) ≡ false
      dead xs g = elim (Bool-cases (any (is_live_token token) (delete_where (is_expired now) xs))) [
        | inr none_live ↦ none_live
        | inl live ↦
            let there =
              any_weaken (λ s. not (is_expired now s) && is_live_token token s)
                (is_live_token token) xs (All-trivial xs (λ s e. ground arith))
                (any_undeleted (is_live_token token) (is_expired now) xs live) in
            absurd (cc)
      ]

  create-IsSpent :
      (users : List User) (ss out : List AuthSession) (t : String) (id : ℕ) (kind : SessionKind)
      (issued expires : ℕ)
      → create users ss t id kind issued expires ≡ some out
      → IsSpent token now ss
      → IsSpent token now out
  unfolding create
  create-IsSpent users ss out t id kind issued expires e h =
      elim (Bool-cases (any (has_token t) ss || not (any (λ (u : User). u.id == id) users))) [
        | inl bad ↦ absurd (let g = rw bad at e in cc)
        | inr fine ↦
            let same : ss ++ (row ∷ []) ≡ out = let g = rw fine at e in cc in
            subst (IsSpent token now) same (record {
              taken = rw (any-append (is_kept token now) ss (row ∷ []), h.taken) refl;
              not_live =
                  rw (any-append (is_live_token token) ss (row ∷ []), h.not_live)
                    (fresh (ground arith));
            })
      ]
    where
      row : AuthSession
      row = record {
        token_id = t;
        user_id = id;
        kind = kind;
        issued_at = issued;
        expires_at = expires;
        revoked_at = none;
      }

      fresh : any (has_token t) ss ≡ false → any (is_live_token token) (row ∷ []) ≡ false
      fresh none_has = elim (Bool-cases (str_eq t token)) [
        | inr other ↦ ground arith
        | inl equal ↦
            let there =
              subst (λ k. any (has_token k) ss ≡ true) (sym ((str_eq_iff t token).0 equal))
                (any_kept ss h.taken) in
            absurd (cc)
      ]

module _ (tokens : TokenService) where
  open tokens use {verify_token, sign_access_token, sign_refresh_token}

  refresh-inactive :
      (db : Database) (token a r : String) (now : ℕ) (p : Payload)
      → verify_token now token ≡ some p
      → find_active db.sessions p.jti p.sub refresh now ≡ none
      → (refresh_tokens tokens db token a r now).1 ≡ none
  unfolding refresh_tokens
  refresh-inactive db token a r now p e h = rw (e, h, refresh_tokens) (ground arith)

  authenticate-idle :
      (db : Database) (token : String) (now : ℕ) (p : Payload)
      → verify_token now token ≡ some p
      → find_active db.sessions p.jti p.sub access now ≡ none
      → authenticate_access_token tokens db token now ≡ none
  unfolding authenticate_access_token verify_access_token
  authenticate-idle db token now p e h =
      elim (Bool-cases (kind_eq p.kind access && is_some p.role)) [
        | inl good ↦ rw (e, authenticate_access_token, verify_access_token) (rw good (rw h refl))
        | inr bad ↦ rw (e, authenticate_access_token, verify_access_token) (rw bad refl)
      ]

  -- Once an administrator's update has changed a field of a user, no access token of the user is
  -- accepted on the database that it leaves, whenever, and no refresh token is exchanged.
  pub update-expels :
      (db : Database) (id : ℕ) (c : User) (d : AdministrativeUpdate) (actor now : ℕ)
      (token a r : String) (later : ℕ) (p : Payload)
      → find_by_id db id ≡ some c
      → changed_administrative_fields c (project c d) ≢ []
      → removes_last db c (project c d) now ≡ false
      → verify_token later token ≡ some p
      → p.sub ≡ c.id
      → (authenticate_access_token tokens (update_by_administrator db id d actor now).0 token later
          ≡ none)
        × ((refresh_tokens tokens (update_by_administrator db id d actor now).0 token a r later).1
            ≡ none)
  update-expels db id c d actor now token a r later p found differs allowed e same =
      let u = update-Updated db id c d actor now found differs allowed in
      let db' = (update_by_administrator db id d actor now).0 in
      let idle = λ (k : SessionKind).
        subst (λ n. find_active db'.sessions p.jti n k later ≡ none) (sym same)
          (find_active-revoked db'.sessions p.jti c.id k later u.none_live) in
      (
        authenticate-idle db' token later p e (idle access),
        refresh-inactive db' token a r later p e (idle refresh),
      )

  revoked-clear :
      (ss : List AuthSession) (token : String) (now : ℕ)
      → any (is_live_token token) (revoke ss token now).0 ≡ false
  unfolding revoke
  revoked-clear ss token now =
      any-update_clear (is_live_token token) (is_live_token token) (revoked_by_now now) ss
        (λ s e. e) (λ s. ground arith)

  -- After a logout with a token, that token is accepted no more, neither as an access token nor for a
  -- refresh, at any time at which it verifies to the same payload.
  pub logout-expels :
      (db : Database) (token a r : String) (now later : ℕ) (p : Payload)
      → verify_token now token ≡ some p
      → verify_token later token ≡ some p
      → (authenticate_access_token tokens (logout tokens db token now) token later ≡ none)
        × ((refresh_tokens tokens (logout tokens db token now) token a r later).1 ≡ none)
  unfolding logout
  logout-expels db token a r now later p e e' =
      let db' = record db { sessions = (revoke db.sessions p.jti now).0 } in
      let idle = λ (k : SessionKind).
        find_active-used db'.sessions p.jti p.sub k later (revoked-clear db.sessions p.jti now) in
      rw (e, logout)
        (
          authenticate-idle db' token later p e' (idle access),
          refresh-inactive db' token a r later p e' (idle refresh),
        )

  store-IsSpent :
      (jti : String) (db : Database) (id : ℕ) (a r : String) (m n now : ℕ)
      → IsSpent jti now db.sessions
      → IsSpent jti now (store_tokens tokens db id a r m n now).0.sessions
  unfolding store_tokens
  store-IsSpent jti db id a r m n now h =
      let purged = (purge_expired db.sessions now).0 in
      let spent = purge-IsSpent jti now db.sessions h in
      elim (Option-cases (create db.users purged a id access now (m * 1000))) [
        | inl bad ↦ rw (bad, store_tokens) spent
        | inr (first, e) ↦
            let spent' =
              create-IsSpent jti now db.users purged first a id access now (m * 1000) e spent in
            elim (Option-cases (create db.users first r id refresh now (n * 1000))) [
              | inl bad ↦ rw (e, store_tokens) (rw bad spent')
              | inr (both, e') ↦
                  rw (e, store_tokens)
                    (rw e' (
                      create-IsSpent jti now db.users first both r id refresh now (n * 1000) e'
                        spent'))
            ]
      ]

  issue-IsSpent :
      (jti : String) (db : Database) (user : User) (a r : String) (now : ℕ)
      → IsSpent jti now db.sessions
      → IsSpent jti now (issue_tokens tokens db user a r now).0.sessions
  unfolding issue_tokens
  issue-IsSpent jti db user a r now h =
      elim (Option-cases
        (verify_access_token tokens now (sign_access_token now user.id (role_name user.role) a))) [
          | inl bad ↦ rw (bad, issue_tokens) h
          | inr (x, e) ↦ elim (Option-cases (verify_token now (sign_refresh_token now user.id r))) [
            | inl bad ↦ rw (e, issue_tokens) (rw bad h)
            | inr (y, e') ↦
                rw (e, issue_tokens)
                  (rw e' (
                    if_cases (λ (z : Database × Option TokenPair). IsSpent jti now z.0.sessions)
                      (x.exp == 0 || y.exp == 0) (λ _. h)
                      (λ _. store-IsSpent jti db user.id a r x.exp y.exp now h)))
          ]
        ]

  exchange-IsSpent :
      (db : Database) (p : Payload) (user : User) (a r : String) (now : ℕ)
      → any (is_kept p.jti now) db.sessions ≡ true
      → IsSpent p.jti now (exchange tokens db p user a r now).0.sessions
  unfolding exchange
  exchange-IsSpent db p user a r now kept =
      let spent : IsSpent p.jti now (revoke db.sessions p.jti now).0 = record {
        taken = revoke-kept p.jti now db.sessions now kept;
        not_live = revoked-clear db.sessions p.jti now;
      } in
      if_cases (λ (x : Database × Option TokenPair). IsSpent p.jti now x.0.sessions)
        (revoke db.sessions p.jti now).1 (λ _. issue-IsSpent p.jti _ user a r now spent)
        (λ _. spent)

  refresh-IsSpent :
      (db : Database) (token a r : String) (now : ℕ) (p : Payload) (pair : TokenPair)
      → verify_token now token ≡ some p
      → (refresh_tokens tokens db token a r now).1 ≡ some pair
      → IsSpent p.jti now (refresh_tokens tokens db token a r now).0.sessions
  unfolding refresh_tokens
  refresh-IsSpent db token a r now p pair e =
      rw (e, refresh_tokens)
        (if_cases Spends (not (kind_eq p.kind refresh)) (λ _ h. absurd (cc))
          (λ _. elim (Option-cases (find_active db.sessions p.jti p.sub refresh now)) [
            | inl idle ↦ rw idle (λ h. absurd (cc))
            | inr (s, active) ↦ rw active (elim (Option-cases (find_by_id db p.sub)) [
              | inl unknown ↦ rw unknown (λ h. absurd (cc))
              | inr (user, found) ↦ rw found (
                  if_cases Spends (is_locked user now) (λ _ h. absurd (cc))
                    (λ _ _.
                      exchange-IsSpent db p user a r now
                        (find_active-kept p.jti now db.sessions p.sub refresh s active)))
            ])
          ]))
    where
      Spends : Database × Option TokenPair → Type 0
      Spends x = x.1 ≡ some pair → IsSpent p.jti now x.0.sessions

  -- A refresh token is good for one exchange: once it gave a pair of tokens it gives none again, at any
  -- time at which it verifies to the same payload, whatever ids are drawn.
  pub refresh-once :
      (db : Database) (token a r a' r' : String) (now later : ℕ) (p : Payload) (pair : TokenPair)
      → verify_token now token ≡ some p
      → verify_token later token ≡ some p
      → (refresh_tokens tokens db token a r now).1 ≡ some pair
      → (refresh_tokens tokens (refresh_tokens tokens db token a r now).0 token a' r' later).1
        ≡ none
  refresh-once db token a r a' r' now later p pair e e' h =
      let db' = (refresh_tokens tokens db token a r now).0 in
      let spent = refresh-IsSpent db token a r now p pair e h in
      refresh-inactive db' token a' r' later p e'
        (find_active-used db'.sessions p.jti p.sub refresh later spent.not_live)
