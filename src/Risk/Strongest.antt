-- ===== src/Risk/Strongest.antt =====
-- The strongest of several consequences.
use qq_guardian.Base.{◌≡◌, refl, Bool, true, false, ◌||◌, List, [], ◌∷◌, any, if◌then◌else◌, ◌∙◌}
use qq_guardian.Risk.Severity.{
  RiskAction, log_only, notify_admin, mute, kick, more_severe, most_severe_from,
}

abbrev pub is_kick_action : RiskAction → Bool
is_kick_action kick = true
is_kick_action mute = false
is_kick_action notify_admin = false
is_kick_action log_only = false

abbrev pub is_mute_action : RiskAction → Bool
is_mute_action kick = false
is_mute_action mute = true
is_mute_action notify_admin = false
is_mute_action log_only = false

abbrev pub is_notice : RiskAction → Bool
is_notice kick = false
is_notice mute = false
is_notice notify_admin = true
is_notice log_only = false

-- The strongest of an action and those of a list, by what is among them.
abbrev pub strongest : RiskAction → List RiskAction → RiskAction
strongest w xs =
    if is_kick_action w || any is_kick_action xs
    then kick
    else if is_mute_action w || any is_mute_action xs
    then mute
    else if is_notice w || any is_notice xs
    then notify_admin
    else log_only

strongest-more_severe :
    (w x : RiskAction) (xs : List RiskAction)
    → strongest (more_severe w x) xs ≡ strongest w (x ∷ xs)
strongest-more_severe log_only log_only xs = refl
strongest-more_severe log_only notify_admin xs = refl
strongest-more_severe log_only mute xs = refl
strongest-more_severe log_only kick xs = refl
strongest-more_severe notify_admin log_only xs = refl
strongest-more_severe notify_admin notify_admin xs = refl
strongest-more_severe notify_admin mute xs = refl
strongest-more_severe notify_admin kick xs = refl
strongest-more_severe mute log_only xs = refl
strongest-more_severe mute notify_admin xs = refl
strongest-more_severe mute mute xs = refl
strongest-more_severe mute kick xs = refl
strongest-more_severe kick log_only xs = refl
strongest-more_severe kick notify_admin xs = refl
strongest-more_severe kick mute xs = refl
strongest-more_severe kick kick xs = refl

pub most_severe_from-strongest :
    (w : RiskAction) (xs : List RiskAction) → most_severe_from w xs ≡ strongest w xs
most_severe_from-strongest log_only [] = refl
most_severe_from-strongest notify_admin [] = refl
most_severe_from-strongest mute [] = refl
most_severe_from-strongest kick [] = refl
most_severe_from-strongest w (x ∷ xs) =
    most_severe_from-strongest (more_severe w x) xs ∙ strongest-more_severe w x xs
