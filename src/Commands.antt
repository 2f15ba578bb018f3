-- ===== src/Commands.antt =====
-- The chat commands of src/modules/commands/index.ts; this file has the checks before an action. Texts of
-- replies are left out; a reply never throws.
pub mod Actions
pub mod Cooldown
pub mod Parsing
pub mod Printing
pub mod Handling
pub mod Gates
pub mod Permission
pub mod Pardon
mod Tests
use Prim.Native.Char.{code}
use qq_guardian.Base.{
  ℕ, suc, ◌+◌, ◌-◌, ◌*◌, min, max, Bool, true, false, ◌&&◌, ◌||◌, not, List, [], ◌∷◌, ◌++◌, Option,
  none, some, String, str_eq, ltb, leb, ◌==◌, opt_eq, is_none, is_some, any, find, select, inl, inr,
  ◌⊎◌, if◌then◌else◌,
}
use qq_guardian.Moderation.Blacklist.{Reason, text, add, remove}
use qq_guardian.Moderation.Records.{Punishment, Ledger, is_kick, find_by_user, revoke}
use qq_guardian.Moderation.Service.{
  Action, State, Thresholds, RawActor, decimal, uint64_max, is_active_mute, mute_user, kick_user,
  unban_user,
}

abbrev pub max_mute_minutes : ℕ
max_mute_minutes = 43200

abbrev pub default_mute_minutes : ℕ
default_mute_minutes = 10

pub data TargetGroupRole : Type 0 where
  plain_member admin owner : TargetGroupRole

pub data LookupFailure : Type 0 where
  action_failed malformed_response : LookupFailure

pub data TargetRoleLookup : Type 0 where
  found_member : TargetGroupRole → TargetRoleLookup
  absent : TargetRoleLookup
  unavailable : LookupFailure → TargetRoleLookup

pub data DenialReason : Type 0 where
  target_privileged target_absent target_role_unavailable : DenialReason

-- A response of `get_group_member_info` that is an object, its ids by `normalizeOneBotId`.
pub record MemberInfo : Type 0 where
  pub role : String
  pub group_id : Option ℕ
  pub user_id : Option ℕ

abbrev pub role_of : String → Option TargetGroupRole
role_of role =
    if str_eq role "member"
    then some plain_member
    else if str_eq role "admin"
    then some admin
    else if str_eq role "owner"
    then some owner
    else none

-- `none` is a response that is no object.
unfoldable pub classify_target_role_response :
    Option MemberInfo → (group user : ℕ) → TargetRoleLookup
classify_target_role_response none group user = unavailable malformed_response
classify_target_role_response (some info) group user = elim (role_of info.role) [
  | none ↦ unavailable malformed_response
  | some role ↦
      if opt_eq info.group_id (some group) && opt_eq info.user_id (some user)
      then found_member role
      else unavailable malformed_response
]

abbrev pub is_privileged : TargetGroupRole → Bool
is_privileged plain_member = false
is_privileged admin = true
is_privileged owner = true

-- `none` is `allowed: true`.
unfoldable pub authorize_destructive_target :
    TargetRoleLookup → (invoker_is_owner is_super_admin : Bool) → Option DenialReason
authorize_destructive_target (unavailable failure) invoker_is_owner is_super_admin =
    some target_role_unavailable
authorize_destructive_target absent invoker_is_owner is_super_admin = some target_absent
authorize_destructive_target (found_member role) invoker_is_owner is_super_admin =
    if is_privileged role && not invoker_is_owner && not is_super_admin
    then some target_privileged
    else none

abbrev pub is_digit : ℕ → Bool
is_digit c = leb 48 c && leb c 57

-- The value and the length of a text of digits only.
unfoldable pub digits_from : (value count : ℕ) → String → Option (ℕ × ℕ)
digits_from value count String.[] = some (value, count)
digits_from value count (String.◌∷◌ c rest) =
    let more = digits_from (value * 10 + (code c - 48)) (suc count) rest in
    if is_digit (code c) then more else none

abbrev pub has_digits : (least most : ℕ) → String → Bool
has_digits least most a = elim (digits_from 0 0 a) [
  | none ↦ false
  | some (v, n) ↦ leb least n && leb n most
]

abbrev pub value_of : String → ℕ
value_of a = elim (digits_from 0 0 a) [ none ↦ 0 | some (v, n) ↦ v ]

-- `normalizeOneBotId` of a text.
unfoldable pub normalize_one_bot_id : String → Option ℕ
normalize_one_bot_id a =
    if has_digits 1 128 a && not (value_of a == 0) && leb (value_of a) uint64_max
    then some (value_of a)
    else none

unfoldable pub resolve_target : (at_targets : List ℕ) → (args : List String) → Option ℕ
resolve_target (t ∷ ts) args = some t
resolve_target [] args = elim (find (has_digits 5 20) args) [
  | none ↦ none
  | some a ↦ normalize_one_bot_id a
]

unfoldable pub resolve_minutes : List String → ℕ
resolve_minutes args =
    min
      (max (elim (find (has_digits 1 5) args) [ none ↦ default_mute_minutes | some a ↦ value_of a ])
        1)
      max_mute_minutes

pub data Command : Type 0 where
  help status mute unmute kick ban unban unknown : Command

abbrev pub is_destructive : Command → Bool
is_destructive mute = true
is_destructive kick = true
is_destructive ban = true
is_destructive _ = false

-- What the event, its parsed command and the configuration say.
pub record Invocation : Type 0 where
  pub command : Command
  pub args : List String
  pub at_targets : List ℕ
  pub has_reply : Bool
  pub group_id : ℕ
  pub user_id : ℕ
  pub self_id : ℕ
  pub sender_role : Option TargetGroupRole
  pub super_admins : List ℕ
  pub core_self_id : ℕ
  pub group_enabled : Bool

pub data Refusal : Type 0 where
  protection_off quoted_message many_targets no_target bot_itself super_admin_target : Refusal
  unauthorized : DenialReason → Refusal

abbrev pub is_owner : Option TargetGroupRole → Bool
is_owner (some owner) = true
is_owner _ = false

abbrev pub is_member_of : ℕ → List ℕ → Bool
is_member_of n ns = any (λ k. k == n) ns

abbrev pub invoker_is_super : Invocation → Bool
invoker_is_super e = is_member_of e.user_id e.super_admins

abbrev pub many : List ℕ → Bool
many (a ∷ b ∷ rest) = true
many _ = false

-- The checks of an action command before it runs, in order. `lookup` is the answer of the lookup of the
-- target's role, which only a destructive command asks for.
unfoldable pub check_action : Invocation → (lookup : TargetRoleLookup) → Refusal ⊎ ℕ
check_action e lookup =
    if not e.group_enabled
    then inl protection_off
    else if e.has_reply
    then inl quoted_message
    else if many e.at_targets
    then inl many_targets
    else elim (resolve_target e.at_targets e.args) [
      | none ↦ inl no_target
      | some target ↦
          if target == e.self_id || target == e.core_self_id
          then inl bot_itself
          else if is_member_of target e.super_admins && not (invoker_is_super e)
          then inl super_admin_target
          else if not (is_destructive e.command)
          then inr target
          else elim (authorize_destructive_target lookup (is_owner e.sender_role)
              (invoker_is_super e)) [ some reason ↦ inl (unauthorized reason) | none ↦ inr target ]
    ]

-- One `punishmentRepo.revoke` after the other.
unfoldable pub revoke_each : Ledger → List Punishment → Option ℕ → ℕ → Ledger
revoke_each l [] by now = l
revoke_each l (p ∷ ps) by now = revoke_each (revoke l p.id by now) ps by now

abbrev pub is_unrevoked_kick : Punishment → Bool
is_unrevoked_kick p = is_kick p.kind && is_none p.revoked_at
