-- ===== src/Commands/Tests.antt =====
-- Runs of the chat commands.
use qq_guardian.Base.{
  ℕ, String, arith, ◌⊎◌, ◌≡◌, ◌↔◌, refl, Bool, true, false, ◌&&◌, ◌||◌, not, List, [], ◌∷◌, none,
  some, ◌==◌, any, inr,
}
use qq_guardian.Moderation.Blacklist.{Reason, text, is_blacklisted}
use qq_guardian.Moderation.Records.{create, find_by_user, Punishment, kick}
use qq_guardian.Moderation.Service.{
  set_group_kick, kick_user, kick_locked, call, check_escalation_locked, maybe_blacklist_locked,
  Action, State, Thresholds, decimal, check_and_reapply_on_join,
}
use qq_guardian.Moderation.Listing.{listed}
use qq_guardian.Commands.{
  TargetRoleLookup, normalize_one_bot_id, authorize_destructive_target, mute, unban, Invocation,
  found_member, plain_member, admin, invoker_is_super, is_member_of, is_owner, check_action,
  resolve_target, resolve_minutes, many, digits_from,
}
use qq_guardian.Commands.Actions.{run_action}
use qq_guardian.Commands.Permission.{may_be_struck, check_action_iff}
use qq_guardian.Commands.Pardon.{RemovesNobody, is_standing_kick, unban-readmits}
use qq_guardian.Approval.Screening.{starts_with}
use qq_guardian.Captcha.Text.{trim, trim_start, trim_end}
use qq_guardian.Commands.Cooldown.{Attempt, accepted, pass_cooldown, IsSpaced, accepted-IsSpaced}
use qq_guardian.Commands.Parsing.{extract_command_input, after_prefix, parse_command}
use qq_guardian.Commands.Printing.{typed, parse_command-typed}
use qq_guardian.Commands.Handling.{
  Post, CommandConfig, GroupEvent, handle_parsed, handle_group_command,
}
use qq_guardian.Commands.Gates.{IsGated, handle-IsGated}

abbrev typed_mute : Invocation
typed_mute = record {
  command = mute;
  args = "12345" ∷ "30" ∷ [];
  at_targets = [];
  has_reply = false;
  group_id = 3;
  user_id = 9;
  self_id = 1;
  sender_role = some admin;
  super_admins = [];
  core_self_id = 1;
  group_enabled = true;
}

thirty_minutes : resolve_minutes ("30" ∷ []) ≡ 30
unfolding resolve_minutes digits_from
thirty_minutes = refl

check_action_iff_example :
    (check_action typed_mute (found_member plain_member) ≡ inr 12345)
    ↔ ((typed_mute.group_enabled && (not typed_mute.has_reply && not (many typed_mute.at_targets)))
        ≡ true)
      × (resolve_target typed_mute.at_targets typed_mute.args ≡ some 12345)
      × ((12345 == typed_mute.self_id || 12345 == typed_mute.core_self_id) ≡ false)
      × ((is_member_of 12345 typed_mute.super_admins && not (invoker_is_super typed_mute)) ≡ false)
      × (may_be_struck
            (found_member plain_member)
            (is_owner typed_mute.sender_role)
            (invoker_is_super typed_mute)
          ≡ true)
check_action_iff_example = check_action_iff typed_mute (found_member plain_member) 12345 refl

abbrev old_kick : Punishment
old_kick = record {
  id = 1;
  group_id = 3;
  user_id = 7;
  kind = kick;
  duration_seconds = none;
  reason = text "spam";
  operator_id = none;
  created_at = 0;
  expires_at = none;
  revoked_at = none;
  revoked_by = none;
}

abbrev before_pardon : State
before_pardon = record {
  ledger = record { rows = old_kick ∷ []; next_id = 2 };
  blacklist = record { entries = []; next_id = 1 };
  calls = [];
  audits = [];
  counted = [];
}

abbrev obliging : List Action → Action → Bool
obliging before a = true

abbrev lenient : Thresholds
lenient = record { escalate_to_kick_after = 0; escalate_to_blacklist_after = 0 }

unban-readmits_example :
    let r =
      run_action obliging lenient
        (λ operator. text "command")
        (λ args. text "ban")
        before_pardon
        unban
        3
        7
        []
        9
        40 in
    (r.1 ≡ true)
    × (is_blacklisted r.0.blacklist 7 (some 3) 50
        ≡ listed before_pardon.blacklist.entries 7 none 50)
    × (any (is_standing_kick 3 7) r.0.ledger.rows ≡ false)
    × RemovesNobody obliging lenient r.0
        (check_and_reapply_on_join obliging lenient r.0 true (decimal 1) 3 7 50)
unban-readmits_example =
    unban-readmits obliging lenient (λ operator. text "command") (λ args. text "ban") before_pardon
      3 7 [] 9 40 true (decimal 1) 50

abbrev attempts : List Attempt
attempts =
    record { key = 1; at = 5000 }
    ∷ record { key = 1; at = 6000 }
    ∷ record { key = 2; at = 6500 }
    ∷ record { key = 1; at = 7000 }
    ∷ []

drops_the_second :
    accepted [] attempts
    ≡ record { key = 1; at = 5000 }
      ∷ record { key = 2; at = 6500 }
      ∷ record { key = 1; at = 7000 }
      ∷ []
unfolding pass_cooldown
drops_the_second = refl

accepted-IsSpaced_example : IsSpaced (accepted [] attempts)
accepted-IsSpaced_example =
    accepted-IsSpaced [] attempts 0 tt
      ((omega arith), ((omega arith), ((omega arith), ((omega arith), tt))))

abbrev unchanged : String → String
unchanged s = s

parse_command-typed_example :
    parse_command unchanged (typed "/guard" "mute" ("12345" ∷ "30" ∷ [])) "/guard"
    ≡ some (record { name = "mute"; args = "12345" ∷ "30" ∷ [] })
parse_command-typed_example =
    parse_command-typed unchanged "/guard" "mute" ("12345" ∷ "30" ∷ []) (refl, refl)
      ((refl, refl), ((refl, refl), ((refl, refl), tt)))

no_other_command : parse_command unchanged "/guardian mute" "/guard" ≡ none
unfolding parse_command trim trim_start trim_end starts_with after_prefix
no_other_command = refl

abbrev takes_all : List Action → Action → Bool
takes_all before a = true

abbrev no_escalation : Thresholds
no_escalation = record { escalate_to_kick_after = 0; escalate_to_blacklist_after = 0 }

abbrev by_operator : ℕ → Reason
by_operator n = text "command"

abbrev by_words : List String → Reason
by_words ws = text "command"

abbrev post : Post
post = record { last_commands = []; moderation = before_pardon; audits = [] }

abbrev switched_on : CommandConfig
switched_on = record {
  enabled = true;
  prefix = some " /guard ";
  super_admins = [];
  self_id = 1;
  group_enabled = true;
}

abbrev typed_kick : GroupEvent
typed_kick = record {
  message = none;
  raw_message = "/guard kick 12345";
  group_id = 3;
  user_id = 9;
  key = 5;
  self_id = 1;
  sender_role = some admin;
}

abbrev members : ℕ → TargetRoleLookup
members n = found_member plain_member

handle-IsGated_example :
    let after =
      (handle_group_command takes_all no_escalation by_operator by_words unchanged post switched_on
        typed_kick members 5000).0.moderation in
    (after ≡ post.moderation)
    ⊎ ((switched_on.enabled ≡ true)
        × IsGated takes_all no_escalation by_operator by_words unchanged post switched_on typed_kick
            members 5000 after)
handle-IsGated_example =
    handle-IsGated takes_all no_escalation by_operator by_words unchanged post switched_on
      typed_kick members 5000

kick_is_sent :
    (handle_group_command takes_all no_escalation by_operator by_words unchanged post switched_on
      typed_kick members 5000).0.moderation.calls
    ≡ set_group_kick 3 12345 false ∷ []
unfolding handle_group_command handle_parsed parse_command trim trim_start trim_end starts_with
    after_prefix extract_command_input pass_cooldown check_action resolve_target
    normalize_one_bot_id digits_from authorize_destructive_target run_action kick_user kick_locked
    call check_escalation_locked maybe_blacklist_locked create find_by_user
kick_is_sent = refl
