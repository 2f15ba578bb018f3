-- ===== src/Commands/Actions.antt =====
-- `_runAction` of src/modules/commands/index.ts.
use qq_guardian.Base.{
  ℕ, ◌*◌, Bool, true, false, not, List, none, some, String, opt_eq, is_some, select,
}
use qq_guardian.Moderation.Blacklist.{Reason, Addition, add, remove}
use qq_guardian.Moderation.Records.{find_by_user}
use qq_guardian.Moderation.Service.{
  Action, State, Thresholds, decimal, is_active_mute, mute_user, kick_user, unban_user,
}
use qq_guardian.Commands.{
  Command, help, status, mute, unmute, kick, ban, unban, unknown, revoke_each, is_unrevoked_kick,
  resolve_minutes, normalize_one_bot_id,
}

abbrev pub ban_addition : (group target : ℕ) → Reason → (operator : ℕ) → Addition
ban_addition group target reason operator = record {
  user_id = target;
  group_id = some group;
  reason = reason;
  created_by = some operator;
  expires_at = none;
}

-- The two reasons are the texts that the code builds from the operator and the arguments of a `ban`.
module _ (accepts : List Action → Action → Bool) (cfg : Thresholds) (command_reason : ℕ → Reason)
    (ban_reason : List String → Reason) where
  -- `false` is an exception.
  unfoldable pub run_action :
      State → Command → (group target : ℕ) → List String → (operator now : ℕ) → State × Bool
  run_action s mute group target args operator now =
      let minutes =
        resolve_minutes (select (λ a. not (opt_eq (normalize_one_bot_id a) (some target))) args) in
      let (s', p) =
        mute_user accepts cfg s group target (minutes * 60) (command_reason operator)
          (decimal operator) now in
      (s', is_some p)
  run_action s unmute group target args operator now =
      let mutes = select (is_active_mute now) (find_by_user s.ledger target group) in
      unban_user accepts cfg (record s { ledger = revoke_each s.ledger mutes (some operator) now })
        group target (decimal operator)
  run_action s kick group target args operator now =
      let (s', p) =
        kick_user accepts cfg s group target (command_reason operator) (decimal operator) false
          now in
      (s', is_some p)
  run_action s ban group target args operator now =
      let (s', p) =
        kick_user accepts cfg s group target (ban_reason args) (decimal operator) false now in
      elim p [
        | none ↦ (s', false)
        | some _ ↦ (
          record s' {
            blacklist =
                (add s'.blacklist (ban_addition group target (ban_reason args) operator) now).0;
          },
          true,
        )
      ]
  run_action s unban group target args operator now =
      let kicks = select is_unrevoked_kick (find_by_user s.ledger target group) in
      (
        record s {
          blacklist = (remove s.blacklist target (some group)).0;
          ledger = revoke_each s.ledger kicks (some operator) now;
        },
        true,
      )
  run_action s help group target args operator now = (s, true)
  run_action s status group target args operator now = (s, true)
  run_action s unknown group target args operator now = (s, true)
