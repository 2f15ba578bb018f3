-- ===== src/Risk/Handling.antt =====
-- handleGroupMessage of RiskService in src/modules/risk/index.ts.
use qq_guardian.Base.{
  join_text, ℕ, Bool, true, false, ◌&&◌, ◌||◌, not, List, [], ◌∷◌, ◌++◌, Option, some, map, String,
  str_eq, ◌==◌, any, or_else, if◌then◌else◌,
}
use qq_guardian.Approval.Group.{ResolvedGroupConfig}
use qq_guardian.Moderation.Blacklist.{text}
use qq_guardian.Moderation.Service.{Action, State, Thresholds, RawActor, mute_user, kick_user}
use qq_guardian.Risk.History.{
  History, RecentMsg, recall_window_ms, is_recent, entries_of, track_message,
}
use qq_guardian.Risk.Severity.{RiskAction, log_only, notify_admin, mute, kick, pick_most_severe}
use qq_guardian.Risk.Detection.{Hit, RiskConfig, Sources, Memo, hit_if, detect}

-- `key` is the number of the pair of user and group in the history; `segments` the types of the parts.
pub record GroupMessage : Type 0 where
  pub group_id : ℕ
  pub user_id : ℕ
  pub key : ℕ
  pub message_id : ℕ
  pub raw_message : String
  pub segments : List String

-- The calls `delete_msg` and `send_private_msg`, whose failures are ignored.
pub data Call : Type 0 where
  delete_msg : ℕ → Call
  notify : (admin group user : ℕ) (detectors : List String) → Call

pub record Watch : Type 0 where
  pub history : History
  pub memo : Memo
  pub moderation : State
  pub calls : List Call
  pub detections : List ℕ

abbrev pub name_of : Hit → String
name_of h = h.name

abbrev pub action_of_hit : Hit → RiskAction
action_of_hit h = h.action

-- `names.join(', ')`
abbrev pub join_names : List String → String
join_names [] = ""
join_names (x ∷ []) = x
join_names (x ∷ y ∷ xs) = join_text x (join_text ", " (join_names (y ∷ xs)))

unfoldable pub has_card_segment : List String → Bool
has_card_segment segments = any (λ kind. str_eq kind "json" || str_eq kind "miniapp") segments

-- `new Set([trigger])` with the recent messages added.
abbrev pub add_id : List ℕ → ℕ → List ℕ
add_id ids id = if any (λ k. k == id) ids then ids else ids ++ id ∷ []

abbrev pub add_recent : (now : ℕ) → List ℕ → List RecentMsg → List ℕ
add_recent now ids [] = ids
add_recent now ids (m ∷ ms) =
    add_recent now (if is_recent recall_window_ms now m then add_id ids m.id else ids) ms

unfoldable pub recalled_ids : History → (key trigger now : ℕ) → List ℕ
recalled_ids h key trigger now = add_recent now (trigger ∷ []) (entries_of h key)

abbrev pub notified : Watch → (super_admins : List ℕ) → GroupMessage → List String → Watch
notified s super_admins e names = record s {
  calls = s.calls ++ map (λ admin. notify admin e.group_id e.user_id names) super_admins;
}

abbrev pub is_notify_admin : RiskAction → Bool
is_notify_admin notify_admin = true
is_notify_admin log_only = false
is_notify_admin mute = false
is_notify_admin kick = false

module _ (accepts : List Action → Action → Bool) (thresholds : Thresholds) (md5 : String → ℕ)
    (analyze : String → Option ℕ) where
  -- An exception of the punishment is logged only.
  unfoldable pub act :
      Watch
      → RiskConfig
      → (super_admins : List ℕ) → RawActor
      → GroupMessage
      → List String
      → RiskAction
      → (now : ℕ) → Watch
  act s cfg super_admins self_id e names mute now = record s {
    moderation =
        (mute_user accepts thresholds s.moderation e.group_id e.user_id cfg.mute_duration_seconds
          (text (join_text "Risk: " (join_names names))) self_id now).0;
  }
  act s cfg super_admins self_id e names kick now = record s {
    moderation =
        (kick_user accepts thresholds s.moderation e.group_id e.user_id
          (text (join_text "Risk: " (join_names names))) self_id false now).0;
  }
  act s cfg super_admins self_id e names notify_admin now = notified s super_admins e names
  act s cfg super_admins self_id e names log_only now = s

  unfoldable pub respond :
      Watch
      → RiskConfig
      → ResolvedGroupConfig
      → (super_admins : List ℕ) → RawActor
      → GroupMessage
      → List Hit
      → (now : ℕ) → Watch
  respond s cfg group super_admins self_id e [] now = s
  respond s cfg group super_admins self_id e (hit ∷ hits) now =
      let names = map name_of (hit ∷ hits) in
      let action = pick_most_severe (map action_of_hit (hit ∷ hits)) in
      let counted = record s { detections = s.detections ++ e.group_id ∷ [] } in
      let acted = act counted cfg super_admins self_id e names action now in
      let recalled =
        if cfg.recall_message
        then record acted {
          calls = acted.calls ++ map delete_msg (recalled_ids acted.history e.key e.message_id now);
        }
        else acted in
      if group.notify_on_risk && not (is_notify_admin action)
      then notified recalled super_admins e names
      else recalled

  unfoldable pub handle_group_message :
      Watch
      → RiskConfig
      → ResolvedGroupConfig
      → Sources
      → (super_admins : List ℕ) → RawActor
      → GroupMessage
      → (now : ℕ) → Watch
  handle_group_message s cfg group from super_admins self_id e now =
      let tracked_s = record s { history = track_message s.history e.key e.message_id now } in
      let (memo, hits) =
        detect md5 analyze cfg from tracked_s.history s.memo e.raw_message e.key now in
      let card =
        hit_if (has_card_segment e.segments) "cardMessage"
          (or_else (cfg.detector_actions "cardMessage") (some log_only)) in
      if group.enabled && group.risk_enabled
      then respond (record tracked_s { memo = memo }) cfg group super_admins self_id e
          (hits ++ card) now
      else s
