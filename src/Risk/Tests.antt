-- ===== src/Risk/Tests.antt =====
-- Runs of the risk detection.
use qq_guardian.Base.{
  String, Bool, true, false, str_eq, Option, none, ℕ, ◌≤◌, ◌≡◌, ◌↔◌, refl, true, false, List, [],
  ◌∷◌, count_where, All, DistinctKeys, arith,
}
use qq_guardian.Risk.History.{dup_window_ms, is_flood, track_message, swept}
use qq_guardian.Risk.Severity.{normalize_rule_action, kick, mute, log_only, pick_most_severe}
use qq_guardian.Risk.Handling.{recalled_ids}
use qq_guardian.Risk.Log.{Sent, tracked, is_sent, fresh}
use qq_guardian.Risk.Flood.{is_flood_iff}
use qq_guardian.Risk.Recall.{is_due, recalled_ids-due}
use qq_guardian.Risk.Detection.{Sources, RiskConfig, detect, cheap_hits}
use qq_guardian.Risk.Handling.{
  GroupMessage, Watch, delete_msg, act, respond, handle_group_message, has_card_segment,
}
use qq_guardian.Approval.Group.{ResolvedGroupConfig, manual}
use qq_guardian.Moderation.Records.{create}
use qq_guardian.Moderation.Service.{
  Action, set_group_kick, State, Thresholds, decimal, kick_user, kick_locked, call,
  check_escalation_locked, maybe_blacklist_locked,
}

abbrev sent : (key message at : ℕ) → Sent
sent key message at = record { key = key; message = message; at = at }

abbrev burst : List Sent
burst =
    sent 1 10 100000
    ∷ sent 1 11 101000
    ∷ sent 2 12 101500
    ∷ sent 1 13 102000
    ∷ sent 1 14 103000
    ∷ sent 1 15 104000
    ∷ []

sees_burst : is_flood (tracked fresh burst) 1 105000 ≡ true
unfolding is_flood track_message swept
sees_burst = refl

forgets_burst : is_flood (tracked fresh burst) 1 110000 ≡ false
unfolding is_flood track_message swept
forgets_burst = refl

recalls_burst : recalled_ids (tracked fresh burst) 1 15 105000 ≡ 15 ∷ 10 ∷ 11 ∷ 13 ∷ 14 ∷ []
unfolding recalled_ids track_message swept
recalls_burst = refl

kick_wins : pick_most_severe (mute ∷ kick ∷ log_only ∷ []) ≡ kick
unfolding pick_most_severe
kick_wins = refl

is_flood_iff_example :
    (is_flood (tracked fresh burst) 1 105000 ≡ true)
    ↔ (5 ≤ count_where (is_sent 1 dup_window_ms 105000) burst)
is_flood_iff_example = is_flood_iff burst 1 105000 (
  (omega arith),
  (
    (omega arith),
    ((omega arith), ((omega arith), ((omega arith), ((omega arith), (omega arith))))),
  ),
)

recalled_ids-due_example :
    let ids = recalled_ids (tracked fresh burst) 1 15 105000 in
    (All (λ id. is_due burst 1 15 105000 id ≡ true) ids) × DistinctKeys (λ (k : ℕ). k) ids
recalled_ids-due_example = recalled_ids-due burst 1 15 105000 (
  (omega arith),
  (
    (omega arith),
    ((omega arith), ((omega arith), ((omega arith), ((omega arith), (omega arith))))),
  ),
)

-- A rule that kicks for the word.
abbrev says_spam : String → Bool
says_spam said = str_eq said "spam"

abbrev sources : Sources
sources = record {
  builtin = [];
  rules = record { name = "ads"; test = says_spam; action = "kick" } ∷ [];
  keywords = [];
}

abbrev watching : RiskConfig
watching = record {
  detector_actions = λ name. none;
  mute_duration_seconds = 600;
  ai_min_score = 80;
  recall_message = true;
}

abbrev guarded : ResolvedGroupConfig
guarded = record {
  enabled = true;
  action = manual;
  approve_keywords = [];
  reject_keywords = [];
  approve_patterns = [];
  reject_patterns = [];
  reject_reason = "no";
  risk_enabled = true;
  auto_kick_blacklisted = true;
  notify_on_risk = false;
  notify_on_join = true;
  group_name = "";
  welcome_enabled = true;
  welcome_template = "hello";
  curfew_enabled = false;
  curfew_start = "23:00";
  curfew_end = "07:00";
}

abbrev quiet : State
quiet = record {
  ledger = record { rows = []; next_id = 1 };
  blacklist = record { entries = []; next_id = 1 };
  calls = [];
  audits = [];
  counted = [];
}

abbrev watch : Watch
watch = record { history = fresh; memo = []; moderation = quiet; calls = []; detections = [] }

abbrev spam : GroupMessage
spam = record {
  group_id = 3;
  user_id = 9;
  key = 1;
  message_id = 10;
  raw_message = "spam";
  segments = "text" ∷ [];
}

abbrev obliging : List Action → Action → Bool
obliging before a = true

abbrev lenient : Thresholds
lenient = record { escalate_to_kick_after = 0; escalate_to_blacklist_after = 0 }

abbrev no_hash : String → ℕ
no_hash s = 0

abbrev no_answer : String → Option ℕ
no_answer s = none

spam_is_kicked_and_recalled :
    let s =
      handle_group_message obliging lenient no_hash no_answer watch watching guarded sources []
        (decimal 1)
        spam
        50 in
    (s.moderation.calls ≡ set_group_kick 3 9 false ∷ []) × (s.calls ≡ delete_msg 10 ∷ [])
unfolding handle_group_message detect cheap_hits is_flood track_message swept normalize_rule_action
    respond pick_most_severe act recalled_ids has_card_segment kick_user kick_locked call
    check_escalation_locked maybe_blacklist_locked create
spam_is_kicked_and_recalled = (refl, refl)
