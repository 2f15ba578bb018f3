-- ===== src/Curfew/Tests.antt =====
-- Runs of the curfew.
use qq_guardian.Base.{
  zero, suc, ◌+◌, ◌-◌, ◌%◌, ◌<◌, ◌≡◌, ◌↔◌, refl, Bool, true, false, List, [], ◌∷◌, none, some,
  lookup, arith, count_where,
}
use qq_guardian.Approval.Group.{PluginConfig, GroupApprovalConfig, manual, resolve_group_config}
use qq_guardian.Curfew.Window.{parse_hhmm, is_in_curfew_window, is_in_curfew_window_iff}
use qq_guardian.Curfew.Clock.{codes, print_hhmm, parse_hhmm_iff}
use qq_guardian.Curfew.Scheduler.{
  Call, set_group_whole_ban, Scheduler, tick, tick_group, apply_state, desired_state, stop_curfew,
  unmute_managed_groups,
}
use qq_guardian.Curfew.Agreement.{is_muted}
use qq_guardian.Curfew.Ticks.{wanted, tick-settles}
use qq_guardian.Curfew.Sparing.{is_call_to, tick-spares}

midnight_is_inside : is_in_curfew_window 0 1380 420 ≡ true
unfolding is_in_curfew_window
midnight_is_inside = refl

is_in_curfew_window_iff_example :
    (is_in_curfew_window 30 1380 420 ≡ true)
    ↔ ((30 + (1440 - 1380)) % 1440 < (420 + (1440 - 1380)) % 1440)
is_in_curfew_window_iff_example =
    is_in_curfew_window_iff 30 1380 420 (omega arith) (omega arith) (omega arith)

parse_hhmm_iff_example :
    (parse_hhmm "07:05" ≡ some 425) ↔ ((425 < 1440) × (codes "07:05" ≡ print_hhmm 425))
parse_hhmm_iff_example = parse_hhmm_iff "07:05" 425

-- Group 1 has a curfew, group 2 none.
abbrev night : GroupApprovalConfig
night = record {
  enabled = some true;
  action = none;
  approve_keywords = none;
  reject_keywords = none;
  approve_patterns = none;
  reject_patterns = none;
  reject_reason = none;
  risk_enabled = none;
  auto_kick_blacklisted = none;
  notify_on_risk = none;
  notify_on_join = none;
  group_name = none;
  welcome_enabled = none;
  welcome_template = none;
  curfew_enabled = some true;
  curfew_start = none;
  curfew_end = none;
}

abbrev settings : PluginConfig
settings = record {
  default_group_enabled = true;
  default_action = manual;
  groups = λ id. elim id [ zero ↦ none | suc n ↦ elim n [ zero ↦ some night | suc _ ↦ none ] ];
  pending_ttl_seconds = 60;
  use_builtin_reject_keywords = true;
  use_builtin_approve_keywords = false;
  risk_enabled = true;
  auto_kick_on_join = true;
}

abbrev obliging : List Call → Call → Bool
obliging before c = true

abbrev refusing : List Call → Call → Bool
refusing before c = false

abbrev running : List Call → Bool
running before = true

abbrev at_boot : Scheduler
at_boot = record { applied = []; calls = []; events = [] }

muted_at_midnight :
    (tick obliging running at_boot settings 0 (1 ∷ 2 ∷ [])).calls ≡ set_group_whole_ban 1 true ∷ []
unfolding tick tick_group apply_state desired_state parse_hhmm is_in_curfew_window
    resolve_group_config
muted_at_midnight = refl

lifted_at_stop :
    (stop_curfew obliging running (tick obliging running at_boot settings 0 (1 ∷ 2 ∷ []))).calls
    ≡ set_group_whole_ban 1 true ∷ set_group_whole_ban 1 false ∷ []
unfolding stop_curfew unmute_managed_groups tick tick_group apply_state desired_state parse_hhmm
    is_in_curfew_window resolve_group_config
lifted_at_stop = refl

tick-settles_example :
    let s = tick obliging running at_boot settings 0 (1 ∷ 2 ∷ []) in
    (is_muted obliging 1 false s.calls ≡ wanted settings 0 1)
    × (lookup s.applied 1 ≡ some (wanted settings 0 1))
    × (tick refusing running s settings 0 (1 ∷ 2 ∷ []) ≡ s)
tick-settles_example =
    tick-settles obliging running at_boot settings 0 (1 ∷ 2 ∷ []) 1 false refusing running 0
      ((λ before c. refl), (λ before. refl)) refl refl (λ i. refl)

tick-spares_example :
    count_where (is_call_to 2) (tick obliging running at_boot settings 0 (1 ∷ 2 ∷ [])).calls ≡ 0
unfolding resolve_group_config
tick-spares_example = tick-spares obliging running 2 at_boot settings 0 (1 ∷ 2 ∷ []) refl refl
