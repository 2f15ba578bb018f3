-- ===== src/Commands/Printing.antt =====
-- Commands that are written as text.
use Prim.Native.Char.{code}
use qq_guardian.Base.{
  ◌≡◌, refl, Bool, true, false, ◌&&◌, ◌||◌, not, List, [], ◌∷◌, none, some, String, if◌then◌else◌,
  join_text, All, arith, ap, ◌∙◌, ==_iff,
}
use qq_guardian.Account.Usable.{is_white_space}
use qq_guardian.Approval.Screening.{starts_with}
use qq_guardian.Captcha.Text.{is_empty, trim, trim_start, trim_end}
use qq_guardian.Commands.Parsing.{
  with_letter, after_prefix, starts_blank, words, command_of_words, parse_command,
}

-- No character is white space.
abbrev pub is_solid : String → Bool
is_solid String.[] = true
is_solid (String.◌∷◌ c s) = not (is_white_space (code c)) && is_solid s

abbrev pub IsWord : String → Type 0
IsWord w = (is_empty w ≡ false) × (is_solid w ≡ true)

-- Words, each after a space.
abbrev pub spaced : List String → String
spaced [] = ""
spaced (w ∷ ws) = join_text " " (join_text w (spaced ws))

-- A command as it is typed.
abbrev pub typed : (prefix name : String) → (args : List String) → String
typed prefix name args = join_text prefix (spaced (name ∷ args))

then_branch : {A : Type 0} (b : Bool) (x y : A) → b ≡ true → (if b then x else y) ≡ x
then_branch true x y e = refl
then_branch false x y e = absurd (cc)

else_branch : {A : Type 0} (b : Bool) (x y : A) → b ≡ false → (if b then x else y) ≡ y
else_branch true x y e = absurd (cc)
else_branch false x y e = refl

first_of : (a b : Bool) → (not a && b) ≡ true → a ≡ false
first_of true b e = absurd (cc)
first_of false b e = refl

second_of : (a b : Bool) → (not a && b) ≡ true → b ≡ true
second_of true b e = absurd (cc)
second_of false b e = e

and_false : (a b : Bool) → b ≡ false → (a && b) ≡ false
and_false true b e = e
and_false false b e = refl

and_first : (a b : Bool) → a ≡ false → (a && b) ≡ false
and_first true b e = absurd (cc)
and_first false b e = refl

is_empty-join : (w s : String) → is_empty w ≡ false → is_empty (join_text w s) ≡ false
is_empty-join String.[] s e = absurd (cc)
is_empty-join (String.◌∷◌ c w) s e = refl

trim_end-word :
    (w s : String) → is_solid w ≡ true → trim_end (join_text w s) ≡ join_text w (trim_end s)
unfolding trim_end
trim_end-word String.[] s h = refl
trim_end-word (String.◌∷◌ c w) s h =
    let solid = first_of (is_white_space (code c)) (is_solid w) h in
    let rest = trim_end-word w s (second_of (is_white_space (code c)) (is_solid w) h) in
    else_branch (is_empty (trim_end (join_text w s)) && is_white_space (code c)) _ _
      (and_false (is_empty (trim_end (join_text w s))) (is_white_space (code c)) solid)
    ∙ ap (String.◌∷◌ c) rest

trim_end-space :
    (s : String)
    → is_empty (trim_end s) ≡ false
    → trim_end (join_text " " s) ≡ join_text " " (trim_end s)
unfolding trim_end
trim_end-space s filled =
    else_branch (is_empty (trim_end s) && true) _ _ (and_first (is_empty (trim_end s)) true filled)

trim_end-spaced : (ws : List String) → All IsWord ws → trim_end (spaced ws) ≡ spaced ws
unfolding trim_end
trim_end-spaced [] h = refl
trim_end-spaced (w ∷ ws) ((filled, solid), h) =
    let rest = trim_end-word w (spaced ws) solid ∙ ap (join_text w) (trim_end-spaced ws h) in
    trim_end-space (join_text w (spaced ws)) (ap is_empty rest ∙ is_empty-join w (spaced ws) filled)
    ∙ ap (join_text " ") rest

starts_with-joined : (p s : String) → starts_with (join_text p s) p ≡ true
unfolding starts_with
starts_with-joined String.[] String.[] = refl
starts_with-joined String.[] (String.◌∷◌ c s) = refl
starts_with-joined (String.◌∷◌ c p) s =
    ground (arith, starts_with-joined p s, ==_iff (code c) (code c))

after_prefix-joined : (p s : String) → after_prefix (join_text p s) p ≡ s
unfolding after_prefix
after_prefix-joined String.[] String.[] = refl
after_prefix-joined String.[] (String.◌∷◌ c s) = refl
after_prefix-joined (String.◌∷◌ c p) s = after_prefix-joined p s

spaced-starts_blank : (ws : List String) → starts_blank (spaced ws) ≡ true
spaced-starts_blank [] = refl
spaced-starts_blank (w ∷ ws) = refl

words-joined :
    (w : String) (ws : List String)
    → IsWord w
    → words (join_text w (spaced ws)) ≡ w ∷ words (spaced ws)
words-joined String.[] ws (filled, solid) = absurd (cc)
words-joined (String.◌∷◌ c String.[]) ws (filled, solid) =
    else_branch (is_white_space (code c)) _ _ (first_of (is_white_space (code c)) true solid)
    ∙ then_branch (starts_blank (spaced ws)) _ _ (spaced-starts_blank ws)
words-joined (String.◌∷◌ c (String.◌∷◌ d w)) ws (filled, solid) =
    let later = second_of (is_white_space (code c)) (is_solid (String.◌∷◌ d w)) solid in
    else_branch (is_white_space (code c)) _ _
      (first_of (is_white_space (code c)) (is_solid (String.◌∷◌ d w)) solid)
    ∙ else_branch (is_white_space (code d)) _ _
        (first_of (is_white_space (code d)) (is_solid w) later)
    ∙ ap (with_letter c) (words-joined (String.◌∷◌ d w) ws (refl, later))

words-spaced : (ws : List String) → All IsWord ws → words (spaced ws) ≡ ws
words-spaced [] h = refl
words-spaced (w ∷ ws) (word, h) = words-joined w ws word ∙ ap (λ xs. w ∷ xs) (words-spaced ws h)

trimmed : (w s : String) → IsWord w → trim_end s ≡ s → trim (join_text w s) ≡ join_text w s
unfolding trim trim_start
trimmed String.[] s (filled, solid) e = absurd (cc)
trimmed (String.◌∷◌ c w) s (filled, solid) e =
    ap trim_end (
      else_branch (is_white_space (code c)) _ _
        (first_of (is_white_space (code c)) (is_solid w) solid))
    ∙ trim_end-word (String.◌∷◌ c w) s solid
    ∙ ap (join_text (String.◌∷◌ c w)) e

-- A command that is typed as a prefix and words, each after a space, is read as the first word in lower case
-- and the others, if the prefix and the words hold no white space and are not empty.
pub parse_command-typed :
    (to_lower_case : String → String) (prefix name : String) (args : List String)
    → IsWord prefix
    → All IsWord (name ∷ args)
    → parse_command to_lower_case (typed prefix name args) prefix
      ≡ some (record { name = to_lower_case name; args = args })
unfolding parse_command trim
parse_command-typed to_lower_case prefix name args word h =
    let rest = spaced (name ∷ args) in
    let whole = typed prefix name args in
    let same = trimmed prefix rest word (trim_end-spaced (name ∷ args) h) in
    ap
      (λ (t : String).
        if is_empty prefix || not (starts_with t prefix)
        then none
        else if not (starts_blank (after_prefix t prefix))
        then none
        else some (command_of_words to_lower_case (words (after_prefix t prefix))))
      same
    ∙ else_branch (is_empty prefix || not (starts_with whole prefix)) _ _
        (ground (arith, starts_with-joined prefix rest))
    ∙ ap
        (λ (t : String).
          if not (starts_blank t) then none else some (command_of_words to_lower_case (words t)))
        (after_prefix-joined prefix rest)
    ∙ ap (λ (ws : List String). some (command_of_words to_lower_case ws))
        (words-spaced (name ∷ args) h)
