-- ===== src/MemberJoin/Tests.antt =====
-- Runs of the admission of a member who joined.
use qq_guardian.Base.{ℕ, ◌≡◌, refl, Bool, true, false, List, [], ◌∷◌, Option, none, some, arith}
use qq_guardian.Moderation.Blacklist.{text, is_blacklisted}
use qq_guardian.Moderation.Service.{Action, Thresholds}
use qq_guardian.Approval.Group.{ResolvedGroupConfig, manual}
use qq_guardian.MemberJoin.{
  StageResult, proceed, stop, Stage, stopped, Hall, MemberJoinEvent, handle_blacklist_member_join,
  handle_member_join,
}
use qq_guardian.MemberJoin.Order.{blacklisted-stopped}

-- Stages over a number: one that counts and one that stops.
abbrev counting : Stage ℕ
counting = record { name = "count"; run = λ n. (7, some proceed) }

abbrev stopping : Stage ℕ
stopping = record { name = "stop"; run = λ n. (n, some stop) }

abbrev refusing : List Action → Action → Bool
refusing before a = false

abbrev lenient : Thresholds
lenient = record { escalate_to_kick_after = 0; escalate_to_blacklist_after = 0 }

abbrev guarded : ResolvedGroupConfig
guarded = record {
  enabled = true;
  action = manual;
  approve_keywords = [];
  reject_keywords = [];
  approve_patterns = [];
  reject_patterns = [];
  reject_reason = "no";
  risk_enabled = true;
  auto_kick_blacklisted = true;
  notify_on_risk = false;
  notify_on_join = true;
  group_name = "";
  welcome_enabled = true;
  welcome_template = "hello";
  curfew_enabled = false;
  curfew_start = "23:00";
  curfew_end = "07:00";
}

abbrev hall : Hall
hall = record {
  state = record {
    ledger = record { rows = []; next_id = 1 };
    blacklist = record {
      entries =
          record {
            id = 1;
            user_id = 7;
            group_id = some 3;
            reason = text "spam";
            created_by = none;
            created_at = 0;
            expires_at = none;
          }
          ∷ [];
      next_id = 2;
    };
    calls = [];
    audits = [];
    counted = [];
  };
  notices = [];
  welcomed = [];
}

abbrev joined : MemberJoinEvent
joined = record { group_id = 3; user_id = 7 }

abbrev greet : MemberJoinEvent → Hall → Hall × Option StageResult
greet e h = (record h { welcomed = (e.user_id, e.group_id) ∷ h.welcomed }, some proceed)

abbrev pass : MemberJoinEvent → Hall → Hall × Option StageResult
pass e h = (h, some proceed)

blacklisted-stopped_example :
    let r = handle_member_join refusing lenient pass greet guarded [] 1 50 joined hall in
    (r.1 ≡ stopped "blacklist")
    × (r.0.welcomed ≡ [])
    × (r.0 ≡ (handle_blacklist_member_join refusing lenient guarded [] 1 50 joined hall).0)
unfolding is_blacklisted
blacklisted-stopped_example =
    blacklisted-stopped refusing lenient pass greet guarded [] 1 50 joined hall (λ e. omega arith)
      refl refl refl
