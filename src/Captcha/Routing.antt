-- ===== src/Captcha/Routing.antt =====
-- Which session an answer is for.
use qq_guardian.Base.{
  ℕ, ◌≡◌, refl, Bool, true, false, List, [], ◌∷◌, some, String, find, length, arith, Bool-cases,
  Option-cases, ◌⊎◌, inl, inr, ◌∙◌,
}
use qq_guardian.Captcha.Text.{
  is_empty, trim, first_token, after_token, has_hash, without_first, is_challenge_code, same_code,
}
use qq_guardian.Captcha.Sessions.{Session}
use qq_guardian.Captcha.Selection.{is_right, sole, sole_right, by_code, routed, select_answer}

-- The session is one of a list.
abbrev pub IsAmong : List Session → Session → Type 0
IsAmong [] x = ⊥
IsAmong (y ∷ ys) x = (y ≡ x) ⊎ IsAmong ys x

module _ (to_lower_case : String → String) (sha256 : String → ℕ) (code_of : ℕ → String) where
  -- The session is the single one, and the text is its right answer or does not begin with `#`; or the first
  -- word of the text is `#` with the code of the session, and the answer is the rest.
  abbrev pub IsAddressed : List Session → (text : String) → Session → (answer : String) → Type 0
  IsAddressed xs text x answer =
      IsAmong xs x
      × (((length xs ≡ 1)
            × (answer ≡ text)
            × ((is_right to_lower_case sha256 x text ≡ true)
                ⊎ (has_hash (first_token text) ≡ false)))
          ⊎ ((is_challenge_code (first_token text) ≡ true)
              × (same_code (code_of x.id) (without_first (first_token text)) ≡ true)
              × (answer ≡ trim (after_token text))))

  find-IsAmong :
      (p : Session → Bool) (xs : List Session) (x : Session)
      → find p xs ≡ some x
      → IsAmong xs x × (p x ≡ true)
  find-IsAmong p [] x e = absurd (cc)
  find-IsAmong p (y ∷ ys) x e = elim (Bool-cases (p y)) [
    | inl hit ↦ let same : y ≡ x = ground arith in (inl same, rw (← same) hit)
    | inr miss ↦ let (there, holds) = find-IsAmong p ys x (rw miss at e) in (inr there, holds)
  ]

  sole-IsAddressed :
      (xs : List Session) (text : String) (x : Session) (answer : String)
      → has_hash (first_token text) ≡ false
      → sole to_lower_case sha256 code_of xs text ≡ some (x, answer)
      → IsAddressed xs text x answer
  sole-IsAddressed [] text x answer plain e = absurd (cc)
  sole-IsAddressed (y ∷ []) text x answer plain e =
      let same : y ≡ x = cc in (inl same, inl (refl, (cc), inr plain))
  sole-IsAddressed (y ∷ z ∷ xs) text x answer plain e = absurd (cc)

  sole_right-IsAddressed :
      (xs : List Session) (text : String) (x : Session) (answer : String)
      → sole_right to_lower_case sha256 code_of xs text ≡ some (x, answer)
      → IsAddressed xs text x answer
  sole_right-IsAddressed [] text x answer e = absurd (cc)
  sole_right-IsAddressed (y ∷ []) text x answer e =
      elim (Bool-cases (is_right to_lower_case sha256 y text)) [
        | inl right ↦
            let same : y ≡ x = ground arith in
            (inl same, inl (refl, (ground arith), inl (rw (← same) right)))
        | inr wrong ↦ absurd (ground arith)
      ]
  sole_right-IsAddressed (y ∷ z ∷ xs) text x answer e = absurd (cc)

  by_code-IsAddressed :
      (xs : List Session) (text : String) (x : Session) (answer : String)
      → is_challenge_code (first_token text) ≡ true
      → by_code to_lower_case sha256 code_of xs (first_token text) (trim (after_token text))
        ≡ some (x, answer)
      → IsAddressed xs text x answer
  by_code-IsAddressed xs text x answer is_code e =
      elim (Option-cases
        (find (λ (y : Session). same_code (code_of y.id) (without_first (first_token text))) xs)) [
          | inl missing ↦ absurd (let g = rw (missing, by_code) at e in cc)
          | inr (y, found) ↦
              let same : y ≡ x = (let g = rw (found, by_code) at e in cc) in
              let given : answer ≡ trim (after_token text) =
                (let g = rw (found, by_code) at e in cc) in
              let (there, named) = find-IsAmong _ xs y found in
              (rw (← same) there, inr (is_code, rw (← same) named, given))
        ]

  routed-IsAddressed :
      (xs : List Session) (text : String) (x : Session) (answer : String)
      → routed to_lower_case sha256 code_of xs text ≡ some (x, answer)
      → IsAddressed xs text x answer
  routed-IsAddressed xs text x answer e = elim (Bool-cases (is_challenge_code (first_token text))) [
    | inl is_code ↦ elim (Bool-cases (is_empty (trim (after_token text)))) [
      | inl blank ↦ absurd (ground arith)
      | inr filled ↦ by_code-IsAddressed xs text x answer is_code (ground arith)
    ]
    | inr other ↦ elim (Bool-cases (has_hash (first_token text))) [
      | inl hash ↦ absurd (ground arith)
      | inr plain ↦ sole-IsAddressed xs text x answer plain (ground arith)
    ]
  ]

  -- An answer goes to a session of those offered: to the only one, if the message is its right answer or does
  -- not begin with `#`, or to the one whose code the message begins with, after `#`; the answer is the whole
  -- message or what follows the code.
  pub select_answer-IsAddressed :
      (xs : List Session) (raw : String) (x : Session) (answer : String)
      → select_answer to_lower_case sha256 code_of xs raw ≡ some (x, answer)
      → IsAddressed xs (trim raw) x answer
  unfolding select_answer
  select_answer-IsAddressed xs raw x answer e =
      elim (Option-cases (sole_right to_lower_case sha256 code_of xs (trim raw))) [
        | inr (choice, right) ↦
            sole_right-IsAddressed xs (trim raw) x answer (right ∙ (rw (right, select_answer) at e))
        | inl not_right ↦
            routed-IsAddressed xs (trim raw) x answer (rw (not_right, select_answer) at e)
      ]
