-- ===== src/Commands/Parsing.antt =====
-- extractCommandInput and parseCommand of src/modules/commands/index.ts.
use Prim.Native.Char.{Char, code}
use qq_guardian.Base.{
  ℕ, Bool, true, false, ◌||◌, not, List, [], ◌∷◌, ◌++◌, Option, none, some, String, or_else,
  if◌then◌else◌, join_text,
}
use qq_guardian.Account.Usable.{is_white_space}
use qq_guardian.Approval.Screening.{starts_with}
use qq_guardian.Captcha.Text.{is_empty, trim}
use qq_guardian.Commands.{normalize_one_bot_id}

-- The segments of a message that are read: `none` is a text that is missing.
pub data Segment : Type 0 where
  text_segment : Option String → Segment
  reply_segment : Segment
  at_segment : (qq : String) → Segment
  other_segment : Segment

pub record CommandInput : Type 0 where
  pub text : String
  pub at_targets : List ℕ
  pub has_reply : Bool

abbrev pub listed_id : List ℕ → Option ℕ → List ℕ
listed_id ids none = ids
listed_id ids (some id) = ids ++ id ∷ []

abbrev pub with_segment : CommandInput → Segment → CommandInput
with_segment i (text_segment s) = record i { text = join_text i.text (or_else s "") }
with_segment i reply_segment = record i { has_reply = true }
with_segment i (at_segment qq) = record i {
  at_targets = listed_id i.at_targets (normalize_one_bot_id qq);
}
with_segment i other_segment = i

abbrev pub with_segments : CommandInput → List Segment → CommandInput
with_segments i [] = i
with_segments i (s ∷ segments) = with_segments (with_segment i s) segments

-- `none` is a message that is no array.
unfoldable pub extract_command_input : Option (List Segment) → (raw_message : String) → CommandInput
extract_command_input none raw = record { text = raw; at_targets = []; has_reply = false }
extract_command_input (some []) raw = record { text = raw; at_targets = []; has_reply = false }
extract_command_input (some (s ∷ segments)) raw =
    with_segments (record { text = ""; at_targets = []; has_reply = false }) (s ∷ segments)

-- `text.slice(prefix.length)`
unfoldable pub after_prefix : String → (prefix : String) → String
after_prefix s String.[] = s
after_prefix String.[] (String.◌∷◌ d prefix) = String.[]
after_prefix (String.◌∷◌ c s) (String.◌∷◌ d prefix) = after_prefix s prefix

-- The text is empty or begins with white space.
abbrev pub starts_blank : String → Bool
starts_blank String.[] = true
starts_blank (String.◌∷◌ c s) = is_white_space (code c)

-- A letter before the first word.
abbrev pub with_letter : Char → List String → List String
with_letter c [] = String.◌∷◌ c String.[] ∷ []
with_letter c (w ∷ ws) = String.◌∷◌ c w ∷ ws

-- `split(/\s+/).filter(Boolean)`
abbrev pub words : String → List String
words String.[] = []
words (String.◌∷◌ c s) =
    let rest = words s in
    if is_white_space (code c)
    then rest
    else if starts_blank s
    then String.◌∷◌ c String.[] ∷ rest
    else with_letter c rest

pub record ParsedCommand : Type 0 where
  pub name : String
  pub args : List String

abbrev pub command_of_words : (to_lower_case : String → String) → List String → ParsedCommand
command_of_words to_lower_case [] = record { name = to_lower_case "help"; args = [] }
command_of_words to_lower_case (w ∷ ws) = record { name = to_lower_case w; args = ws }

-- `to_lower_case` is the method of JavaScript's strings.
unfoldable pub parse_command :
    (to_lower_case : String → String) → String → (prefix : String) → Option ParsedCommand
parse_command to_lower_case s prefix =
    let trimmed = trim s in
    let rest = after_prefix trimmed prefix in
    if is_empty prefix || not (starts_with trimmed prefix)
    then none
    else if not (starts_blank rest)
    then none
    else some (command_of_words to_lower_case (words rest))
