-- ===== src/Captcha/Selection.antt =====
-- _selectAnswer of src/modules/captcha/index.ts.
use qq_guardian.Base.{
  ℕ, Bool, ◌&&◌, not, List, [], ◌∷◌, Option, none, some, String, ◌==◌, find, if◌then◌else◌,
}
use qq_guardian.Captcha.Text.{
  is_empty, trim, first_token, after_token, has_hash, without_first, is_challenge_code, same_code,
}
use qq_guardian.Captcha.Sessions.{Session}

-- `to_lower_case` is the method of JavaScript's strings, `sha256` the hash, as a number.
module _ (to_lower_case : String → String) (sha256 : String → ℕ) where
  abbrev pub digest : String → ℕ
  digest value = sha256 (to_lower_case (trim value))

  abbrev pub is_right : Session → String → Bool
  is_right x answer = digest answer == digest x.answer

  module _ (code_of : ℕ → String) where
    abbrev pub sole : List Session → String → Option (Session × String)
    sole [] answer = none
    sole (x ∷ []) answer = some (x, answer)
    sole (x ∷ y ∷ xs) answer = none

    -- The single session, if the text is its right answer.
    abbrev pub sole_right : List Session → String → Option (Session × String)
    sole_right [] answer = none
    sole_right (x ∷ []) answer = if is_right x answer then some (x, answer) else none
    sole_right (x ∷ y ∷ xs) answer = none

    abbrev pub by_code : List Session → (token answer : String) → Option (Session × String)
    by_code xs token answer =
        elim (find (λ (x : Session). same_code (code_of x.id) (without_first token)) xs) [
          | none ↦ none
          | some x ↦ some (x, answer)
        ]

    abbrev pub routed : List Session → (text : String) → Option (Session × String)
    routed xs text =
        let token = first_token text in
        let answer = trim (after_token text) in
        if has_hash token && not (is_challenge_code token)
        then none
        else if is_challenge_code token
        then (if is_empty answer then none else by_code xs token answer)
        else sole xs text

    unfoldable pub select_answer : List Session → (raw_message : String) → Option (Session × String)
    select_answer xs raw =
        let text = trim raw in
        elim (sole_right xs text) [ some choice ↦ some choice | none ↦ routed xs text ]
