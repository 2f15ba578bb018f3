-- ===== src/Commands/Handling.antt =====
-- handleGroupCommand of src/modules/commands/index.ts.
use qq_guardian.Base.{
  ℕ, Bool, true, false, ◌||◌, not, List, [], ◌∷◌, ◌++◌, Option, none, some, String, str_eq, or_else,
  ◌⊎◌, inl, inr, if◌then◌else◌,
}
use qq_guardian.Moderation.Blacklist.{Reason}
use qq_guardian.Moderation.Service.{Action, State, Thresholds}
use qq_guardian.Captcha.Text.{is_empty, trim}
use qq_guardian.Commands.{
  TargetGroupRole, plain_member, admin, owner, TargetRoleLookup, DenialReason, Command, help,
  status, mute, unmute, kick, ban, unban, unknown, Invocation, Refusal, unauthorized, is_member_of,
  resolve_target, check_action,
}
use qq_guardian.Commands.Actions.{run_action}
use qq_guardian.Commands.Cooldown.{LastCommands, pass_cooldown}
use qq_guardian.Commands.Parsing.{
  Segment, CommandInput, extract_command_input, ParsedCommand, parse_command,
}

-- ACTION_COMMANDS and the cases of the `switch`.
abbrev pub command_of : String → Command
command_of name =
    if str_eq name "help"
    then help
    else if str_eq name "status"
    then status
    else if str_eq name "mute"
    then mute
    else if str_eq name "unmute"
    then unmute
    else if str_eq name "kick"
    then kick
    else if str_eq name "ban"
    then ban
    else if str_eq name "unban"
    then unban
    else unknown

abbrev pub is_action : Command → Bool
is_action help = false
is_action status = false
is_action unknown = false
is_action _ = true

-- The fields of the event that are read; `key` is the number of its group and user in the cooldown.
pub record GroupEvent : Type 0 where
  pub message : Option (List Segment)
  pub raw_message : String
  pub group_id : ℕ
  pub user_id : ℕ
  pub key : ℕ
  pub self_id : ℕ
  pub sender_role : Option TargetGroupRole

pub record CommandConfig : Type 0 where
  pub enabled : Bool
  pub prefix : Option String
  pub super_admins : List ℕ
  pub self_id : ℕ
  pub group_enabled : Bool

-- The events `AuditCreated`.
pub data CommandAudit : Type 0 where
  authorization_denied : (user target : ℕ) → DenialReason → CommandAudit
  command_ran : (name : String) (user group : ℕ) → CommandAudit

pub record Post : Type 0 where
  pub last_commands : LastCommands
  pub moderation : State
  pub audits : List CommandAudit

-- `cfg.commands.prefix?.trim() || '/guard'`
abbrev pub prefix_of : CommandConfig → String
prefix_of cfg =
    let prefix = trim (or_else cfg.prefix "") in if is_empty prefix then "/guard" else prefix

abbrev pub is_rank : Option TargetGroupRole → Bool
is_rank none = false
is_rank (some owner) = true
is_rank (some admin) = true
is_rank (some plain_member) = false

abbrev pub is_admin : CommandConfig → GroupEvent → Bool
is_admin cfg e = is_rank e.sender_role || is_member_of e.user_id cfg.super_admins

abbrev pub invocation_of : CommandConfig → GroupEvent → CommandInput → ParsedCommand → Invocation
invocation_of cfg e input cmd = record {
  command = command_of cmd.name;
  args = cmd.args;
  at_targets = input.at_targets;
  has_reply = input.has_reply;
  group_id = e.group_id;
  user_id = e.user_id;
  self_id = e.self_id;
  sender_role = e.sender_role;
  super_admins = cfg.super_admins;
  core_self_id = cfg.self_id;
  group_enabled = cfg.group_enabled;
}

-- The target that the command names; 0 is no id.
abbrev pub target_of : Invocation → ℕ
target_of v = or_else (resolve_target v.at_targets v.args) 0

abbrev pub audited : Post → CommandAudit → Post
audited s a = record s { audits = s.audits ++ a ∷ [] }

abbrev pub denied : Post → (user target : ℕ) → Refusal → Post
denied s user target (unauthorized reason) = audited s (authorization_denied user target reason)
denied s user target _ = s

module _ (accepts : List Action → Action → Bool) (cfg : Thresholds) (command_reason : ℕ → Reason)
    (ban_reason : List String → Reason) (to_lower_case : String → String) where
  -- An exception of the action is logged and answered only.
  abbrev pub carried_out : Post → Invocation → Refusal ⊎ ℕ → (now : ℕ) → Post
  carried_out s v (inl refusal) now = denied s v.user_id (target_of v) refusal
  carried_out s v (inr found) now = record s {
    moderation =
        (run_action accepts cfg command_reason ban_reason s.moderation v.command v.group_id found
          v.args v.user_id now).0;
  }

  abbrev pub executed : Post → Invocation → (lookup : ℕ → TargetRoleLookup) → (now : ℕ) → Post
  executed s v lookup now =
      if is_action v.command then carried_out s v (check_action v (lookup (target_of v))) now else s

  unfoldable pub handle_parsed :
      Post
      → CommandConfig
      → GroupEvent
      → CommandInput
      → ParsedCommand
      → (lookup : ℕ → TargetRoleLookup) → (now : ℕ) → Post × Bool
  handle_parsed s config e input cmd lookup now =
      let (last, passed) = pass_cooldown s.last_commands e.key now in
      let noted_s = record s { last_commands = last } in
      if not (is_admin config e) then (s, false) else if not passed then (s, true) else (
        audited (executed noted_s (invocation_of config e input cmd) lookup now)
            (command_ran cmd.name e.user_id e.group_id),
        true,
      )

  -- `true` beside the state if the message was a command. `lookup` gives the answer of the lookup of the role
  -- of a user in the group.
  unfoldable pub handle_group_command :
      Post → CommandConfig → GroupEvent → (lookup : ℕ → TargetRoleLookup) → (now : ℕ) → Post × Bool
  handle_group_command s config e lookup now =
      let input = extract_command_input e.message e.raw_message in
      elim (parse_command to_lower_case input.text (prefix_of config)) [
        | none ↦ (s, false)
        | some cmd ↦
            if config.enabled then handle_parsed s config e input cmd lookup now else (s, false)
      ]
