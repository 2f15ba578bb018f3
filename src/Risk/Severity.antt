-- ===== src/Risk/Severity.antt =====
-- The consequences of a detection in src/modules/risk/index.ts.
use qq_guardian.Base.{ℕ, List, [], ◌∷◌, Option, none, some, String, str_eq, ltb, if◌then◌else◌}

-- RiskDetectorAction without `off`, which is `none` in the model.
pub data RiskAction : Type 0 where
  log_only notify_admin mute kick : RiskAction

abbrev pub action_severity : RiskAction → ℕ
action_severity log_only = 0
action_severity notify_admin = 1
action_severity mute = 2
action_severity kick = 3

unfoldable pub normalize_rule_action : String → Option RiskAction
normalize_rule_action action =
    if str_eq action "mute"
    then some mute
    else if str_eq action "kick"
    then some kick
    else if str_eq action "notify_admin"
    then some notify_admin
    else if str_eq action "log_only"
    then some log_only
    else if str_eq action "off"
    then none
    else some mute

abbrev pub more_severe : (winner a : RiskAction) → RiskAction
more_severe winner a = if ltb (action_severity winner) (action_severity a) then a else winner

abbrev pub most_severe_from : RiskAction → List RiskAction → RiskAction
most_severe_from winner [] = winner
most_severe_from winner (a ∷ actions) = most_severe_from (more_severe winner a) actions

unfoldable pub pick_most_severe : List RiskAction → RiskAction
pick_most_severe actions = most_severe_from log_only actions
