-- ===== src/Commands/Gates.antt =====
-- What a message of a group can change through the commands.
use qq_guardian.Base.{
  ℕ, ◌≡◌, refl, Bool, true, not, List, some, String, ◌⊎◌, inl, inr, if_cases, Option-cases, arith,
}
use qq_guardian.Moderation.Blacklist.{Reason}
use qq_guardian.Moderation.Service.{Action, State, Thresholds}
use qq_guardian.Commands.{
  TargetRoleLookup, Invocation, Refusal, protection_off, quoted_message, many_targets, no_target,
  bot_itself, super_admin_target, unauthorized, check_action,
}
use qq_guardian.Commands.Actions.{run_action}
use qq_guardian.Commands.Cooldown.{pass_cooldown}
use qq_guardian.Commands.Parsing.{extract_command_input, ParsedCommand, parse_command}
use qq_guardian.Commands.Handling.{
  command_of, is_action, GroupEvent, CommandConfig, Post, prefix_of, is_admin, invocation_of,
  target_of, carried_out, handle_parsed, handle_group_command,
}

outcome_cases : (x : Refusal ⊎ ℕ) → ((r : Refusal) × (x ≡ inl r)) ⊎ ((n : ℕ) × (x ≡ inr n))
outcome_cases (inl r) = inl (r, refl)
outcome_cases (inr n) = inr (n, refl)

module _ (accepts : List Action → Action → Bool) (cfg : Thresholds) (command_reason : ℕ → Reason)
    (ban_reason : List String → Reason) (to_lower_case : String → String) where
  -- What the gates let through: a command by an administrator, outside the cooldown, that passes the checks.
  pub record IsGated (s : Post) (config : CommandConfig) (e : GroupEvent)
      (lookup : ℕ → TargetRoleLookup) (now : ℕ) (after : State) : Type 0 where
    cmd : ParsedCommand
    found : ℕ
    parsed :
        parse_command to_lower_case
          (extract_command_input e.message e.raw_message).text
          (prefix_of config)
        ≡ some cmd
    by_admin : is_admin config e ≡ true
    passed : (pass_cooldown s.last_commands e.key now).1 ≡ true
    is_known : is_action (command_of cmd.name) ≡ true
    checked :
        let v = invocation_of config e (extract_command_input e.message e.raw_message) cmd in
        check_action v (lookup (target_of v)) ≡ inr found
    ran :
        after
        ≡ (run_action accepts cfg command_reason ban_reason s.moderation
            (command_of cmd.name)
            e.group_id
            found
            cmd.args
            e.user_id
            now).0

  carried_out-moderation :
      (s : Post) (v : Invocation) (r : Refusal) (now : ℕ)
      → (carried_out accepts cfg command_reason ban_reason to_lower_case s v (inl r) now).moderation
        ≡ s.moderation
  carried_out-moderation s v protection_off now = refl
  carried_out-moderation s v quoted_message now = refl
  carried_out-moderation s v many_targets now = refl
  carried_out-moderation s v no_target now = refl
  carried_out-moderation s v bot_itself now = refl
  carried_out-moderation s v super_admin_target now = refl
  carried_out-moderation s v (unauthorized reason) now = refl

  -- A message of a group leaves the punishments, the blacklist and the provider alone, unless the commands are
  -- switched on, the message is a command of an administrator outside the cooldown, and the checks let it through;
  -- then it does what its action does to the target that was checked, and nothing else.
  pub handle-IsGated :
      (s : Post) (config : CommandConfig) (e : GroupEvent) (lookup : ℕ → TargetRoleLookup) (now : ℕ)
      → let after =
          (handle_group_command accepts cfg command_reason ban_reason to_lower_case s config e
            lookup now).0.moderation in
        (after ≡ s.moderation) ⊎ ((config.enabled ≡ true) × IsGated s config e lookup now after)
  unfolding handle_group_command handle_parsed
  handle-IsGated s config e lookup now =
      let input = extract_command_input e.message e.raw_message in
      elim (Option-cases (parse_command to_lower_case input.text (prefix_of config))) [
        | inl other ↦ rw (other, handle_group_command) (inl refl)
        | inr (cmd, parsed) ↦
            let v = invocation_of config e input cmd in
            let Done : Post × Bool → Type 0 = λ p.
              (p.0.moderation ≡ s.moderation)
              ⊎ ((config.enabled ≡ true) × IsGated s config e lookup now p.0.moderation) in
            rw (parsed, handle_group_command)
              (if_cases Done config.enabled
                (λ on.
                  if_cases Done (not (is_admin config e)) (λ _. inl refl)
                    (λ by_admin.
                      if_cases Done (not (pass_cooldown s.last_commands e.key now).1)
                        (λ _. inl refl)
                        (λ passed.
                          if_cases (λ (p : Post). Done (p, true)) (is_action v.command)
                            (λ known. elim (outcome_cases (check_action v (lookup (target_of v)))) [
                              | inl (r, refused) ↦
                                  inl (rw refused (carried_out-moderation _ v r now))
                              | inr (found, checked) ↦ inr (
                                on,
                                record {
                                  cmd = cmd;
                                  found = found;
                                  parsed = parsed;
                                  by_admin = ground arith;
                                  passed = ground arith;
                                  is_known = known;
                                  checked = checked;
                                  ran = rw checked refl;
                                },
                              )
                            ])
                            (λ _. inl refl))))
                (λ _. inl refl))
      ]
