-- ===== src/Captcha/Attempts.antt =====
-- The attempts of the sessions under every step.
use qq_guardian.Base.{
  ℕ, ◌+◌, ◌≤◌, ◌<◌, ◌≡◌, refl, Bool, true, false, List, [], ◌∷◌, Option, none, some, String, find,
  update_where, has_key, arith, if_cases, sym, subst, DistinctKeys, DistinctKeys-update, All,
  All-update, find_unique,
}
use qq_guardian.Approval.Records.{find_by_id}
use qq_guardian.Approval.Service.{Desk, Call}
use qq_guardian.Captcha.Sessions.{
  Session, Message, Office, key_of, close_session, is_open_session, as_solved,
}
use qq_guardian.Captcha.Answers.{
  awaits, is_open_in_time, tried, after_approval, after_rejection, approve_session_locked,
  reject_session_locked,
}

-- The session took no more attempts than it has, and one that is open has one left.
abbrev pub IsWithin : Session → Type 0
IsWithin x = (x.attempts ≤ x.max_attempts) × (x.solved ≡ false → x.attempts < x.max_attempts)

-- The ids are distinct, and every session is within its attempts.
abbrev pub IsSound : List Session → Type 0
IsSound xs = DistinctKeys key_of xs × All IsWithin xs

module _ {ℓ κ} {A : Type ℓ} (P Q : A → Type κ) where
  All-updated :
      (p : A → Bool) (f : A → A) (xs : List A)
      → ((x : A) → p x ≡ true → P x → Q (f x))
      → ((x : A) → p x ≡ false → P x → Q x)
      → All P xs
      → All Q (update_where p f xs)
  All-updated p f [] touched left h = tt
  All-updated p f (x ∷ xs) touched left (px, h) = (
    if_cases Q (p x) (λ hit. touched x hit px) (λ miss. left x miss px),
    All-updated p f xs touched left h,
  )

  All-both : (xs : List A) → All P xs → All Q xs → All (λ x. P x × Q x) xs
  All-both [] h k = tt
  All-both (x ∷ xs) (p, h) (q, k) = ((p, q), All-both xs h k)

pub closed-IsSound :
    (u : Session → Bool) (xs : List Session) → IsSound xs → IsSound (update_where u as_solved xs)
closed-IsSound u xs (distinct, within) = (
  DistinctKeys-update key_of u as_solved xs (λ x. refl) distinct,
  All-update IsWithin u as_solved xs (λ x _ h. (h.0, (λ open_. absurd (cc)))) within,
)

module _ (accepts : List Call → Call → Bool) where
  after_approval-sessions :
      (s : Office) (x : Session) (p : Desk × Option Bool)
      → (after_approval accepts s x p).sessions
        ≡ update_where (is_open_session x.id) as_solved s.sessions
  unfolding close_session
  after_approval-sessions s x (d, none) = refl
  after_approval-sessions s x (d, some true) = refl
  after_approval-sessions s x (d, some false) = refl

  after_rejection-sessions :
      (s : Office) (x : Session) (notice : Message) (p : Desk × Option Bool)
      → (after_rejection accepts s x notice p).sessions
        ≡ update_where (is_open_session x.id) as_solved s.sessions
  unfolding close_session
  after_rejection-sessions s x notice (d, none) = refl
  after_rejection-sessions s x notice (d, some true) = refl
  after_rejection-sessions s x notice (d, some false) = refl

  -- In every case the session is closed.
  pub approve_session-sessions :
      (s : Office) (x : Session) (now : ℕ)
      → (approve_session_locked accepts s x now).sessions
        ≡ update_where (is_open_session x.id) as_solved s.sessions
  unfolding approve_session_locked close_session
  approve_session-sessions s x now =
      if_cases
        (λ (s' : Office). s'.sessions ≡ update_where (is_open_session x.id) as_solved s.sessions)
        (awaits (find_by_id s.desk.records x.approval_id)) (λ _. after_approval-sessions s x _)
        (λ _. refl)

  pub reject_session-sessions :
      (s : Office) (x : Session) (reason : String) (notice : Message) (now : ℕ)
      → (reject_session_locked accepts s x reason notice now).sessions
        ≡ update_where (is_open_session x.id) as_solved s.sessions
  unfolding reject_session_locked close_session
  reject_session-sessions s x reason notice now =
      if_cases
        (λ (s' : Office). s'.sessions ≡ update_where (is_open_session x.id) as_solved s.sessions)
        (awaits (find_by_id s.desk.records x.approval_id))
        (λ _. after_rejection-sessions s x notice _) (λ _. refl)

  pub reject_session-IsSound :
      (s : Office) (x : Session) (reason : String) (notice : Message) (now : ℕ)
      → IsSound s.sessions
      → IsSound (reject_session_locked accepts s x reason notice now).sessions
  reject_session-IsSound s x reason notice now h =
      subst IsSound (sym (reject_session-sessions s x reason notice now))
        (closed-IsSound (is_open_session x.id) s.sessions h)

-- A counted attempt whose session is closed.
pub tried_closed-IsSound :
    (id later : ℕ) (xs : List Session)
    → IsSound xs
    → IsSound (
        update_where
          (is_open_session id)
          as_solved
          (update_where (is_open_in_time id later) tried xs))
tried_closed-IsSound id later xs (distinct, within) =
    let Between : Session → Type 0 = λ x.
      (x.attempts ≤ x.max_attempts)
      × (x.solved ≡ false → has_key key_of id x ≡ false → x.attempts < x.max_attempts) in
    (
      DistinctKeys-update key_of (is_open_session id) as_solved _ (λ x. refl)
          (DistinctKeys-update key_of (is_open_in_time id later) tried xs (λ x. refl) distinct),
      All-updated Between IsWithin (is_open_session id) as_solved _
          (λ x _ h. (h.0, (λ e. absurd (cc)))) (λ x miss h. (h.0, (λ e. h.1 e (ground arith))))
          (All-updated IsWithin Between (is_open_in_time id later) tried xs
            (λ x hit h.
              ((let less = h.1 (ground arith) in omega arith), (λ _ other. absurd (ground arith))))
            (λ x miss h. (h.0, (λ e _. h.1 e))) within),
    )

-- A counted attempt after which one is left.
pub tried-IsSound :
    (id later : ℕ) (xs : List Session) (x : Session)
    → find (has_key key_of id) xs ≡ some x
    → x.attempts + 1 < x.max_attempts
    → IsSound xs
    → IsSound (update_where (is_open_in_time id later) tried xs)
tried-IsSound id later xs x found room (distinct, within) =
    let one = find_unique key_of id xs x distinct found in
    let Here : Session → Type 0 = λ y. has_key key_of id y ≡ true → y ≡ x in
    (
      DistinctKeys-update key_of (is_open_in_time id later) tried xs (λ x. refl) distinct,
      All-updated (λ y. IsWithin y × Here y) IsWithin (is_open_in_time id later) tried xs
          (λ y hit h.
            (let same : y ≡ x = h.1 (ground arith) in
              subst (λ z. IsWithin (tried z)) (sym same) ((omega arith), (λ _. omega arith))))
          (λ y miss h. h.0) (All-both IsWithin Here xs within one),
    )
