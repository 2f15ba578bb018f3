-- ===== src/Commands/Permission.antt =====
-- Whom a chat command may be turned against.
use qq_guardian.Base.{
  ℕ, ◌≡◌, ◌↔◌, Bool, true, false, ◌&&◌, ◌||◌, not, none, some, arith, ◌==◌, inl, inr, Option-cases,
}
use qq_guardian.Commands.{
  is_destructive, Invocation, TargetRoleLookup, found_member, unavailable, absent, is_privileged,
  is_owner, invoker_is_super, is_member_of, check_action, resolve_target,
  authorize_destructive_target, many,
}

-- The lookup found the target, and as a plain member unless the invoker is the owner or a super administrator.
abbrev pub may_be_struck : TargetRoleLookup → (by_owner by_super : Bool) → Bool
may_be_struck (found_member role) by_owner by_super =
    not (is_privileged role) || by_owner || by_super
may_be_struck absent by_owner by_super = false
may_be_struck (unavailable failure) by_owner by_super = false

authorize-none :
    (lookup : TargetRoleLookup) (o s : Bool)
    → (authorize_destructive_target lookup o s ≡ none) ↔ (may_be_struck lookup o s ≡ true)
unfolding authorize_destructive_target
authorize-none (found_member role) o s = ground arith
authorize-none absent o s = ground arith
authorize-none (unavailable failure) o s = ground arith

-- A destructive command goes on against a target if and only if the group is protected, the message quotes
-- nothing and names the one target, which is not the bot, a super administrator only if the invoker is one
-- too, and which the lookup found, as a plain member unless the invoker is the owner or a super administrator.
pub check_action_iff :
    (e : Invocation) (lookup : TargetRoleLookup) (target : ℕ)
    → is_destructive e.command ≡ true
    → (check_action e lookup ≡ inr target)
      ↔ ((e.group_enabled && (not e.has_reply && not (many e.at_targets))) ≡ true)
        × (resolve_target e.at_targets e.args ≡ some target)
        × ((target == e.self_id || target == e.core_self_id) ≡ false)
        × ((is_member_of target e.super_admins && not (invoker_is_super e)) ≡ false)
        × (may_be_struck lookup (is_owner e.sender_role) (invoker_is_super e) ≡ true)
unfolding check_action
check_action_iff e lookup target d = elim (Option-cases (resolve_target e.at_targets e.args)) [
  | inl missing ↦ rw missing (ground arith)
  | inr (t, found) ↦
      rw found (ground (arith, authorize-none lookup (is_owner e.sender_role) (invoker_is_super e)))
]
