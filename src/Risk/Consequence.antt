-- ===== src/Risk/Consequence.antt =====
-- What the handling of a message does to its sender.
use qq_guardian.Base.{ℕ, ◌≡◌, Bool, false, List, [], ◌∷◌, ◌++◌, Option, some, String, or_else}
use qq_guardian.Moderation.Service.{Action, set_group_ban, set_group_kick, State, Thresholds}
use qq_guardian.Moderation.Calls.{Extends}
use qq_guardian.Risk.History.{track_message}
use qq_guardian.Risk.Severity.{RiskAction, log_only, notify_admin, mute, kick}
use qq_guardian.Risk.Detection.{Hit, RiskConfig, Sources, hit_if, detect}
use qq_guardian.Risk.Handling.{GroupMessage, Watch, has_card_segment}

module _ (accepts : List Action → Action → Bool) (thresholds : Thresholds) (md5 : String → ℕ)
    (analyze : String → Option ℕ) where
  -- All that matched the message, at the time that it is handled.
  abbrev pub hits_of : Watch → RiskConfig → Sources → GroupMessage → (now : ℕ) → List Hit
  hits_of s cfg from e now =
      (detect md5 analyze cfg from (track_message s.history e.key e.message_id now) s.memo
        e.raw_message e.key now).1
      ++ hit_if (has_card_segment e.segments) "cardMessage"
          (or_else (cfg.detector_actions "cardMessage") (some log_only))

  -- What a consequence does: a kick or a mute is the next call to the provider; any other leaves the
  -- punishments alone.
  abbrev pub IsPunished : State → RiskConfig → GroupMessage → RiskAction → State → Type 0
  IsPunished before cfg e kick after =
      Extends (before.calls ++ set_group_kick e.group_id e.user_id false ∷ []) after
  IsPunished before cfg e mute after =
      Extends (before.calls ++ set_group_ban e.group_id e.user_id cfg.mute_duration_seconds ∷ [])
        after
  IsPunished before cfg e notify_admin after = after ≡ before
  IsPunished before cfg e log_only after = after ≡ before
