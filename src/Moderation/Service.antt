-- ===== src/Moderation/Service.antt =====
-- PunishmentService of src/modules/punishment/index.ts. The OneBot provider is a parameter: whether it
-- accepts a call may depend on all calls before. Each operation runs under the lock of its group and
-- user, so it stands as one step; `now` is the clock, which is taken not to move within one.
use qq_guardian.Base.{
  ℕ, ◌+◌, ◌-◌, ◌/◌, max, Bool, true, false, ◌&&◌, ◌||◌, not, List, [], ◌∷◌, ◌++◌, Option, none,
  some, ltb, leb, ◌==◌, is_some, find, any, select, if◌then◌else◌,
}
use qq_guardian.Moderation.Blacklist.{
  Blacklist, Addition, Reason, auto_blacklist, auto_kick, evasion, is_blacklisted, add,
}
use qq_guardian.Moderation.Records.{
  Punishment, mute, kick, is_kick, is_mute, Ledger, find_by_id, find_by_user, is_active,
  count_active_punishments, count_active_kicks, create, revoke,
}

-- The calls of the OneBot API.
pub data Action : Type 0 where
  set_group_ban : (group user duration : ℕ) → Action
  set_group_kick : (group user : ℕ) (reject_add_request : Bool) → Action

-- The events `AuditCreated`.
pub data AuditEvent : Type 0 where
  muted : (group user seconds : ℕ) → Option ℕ → AuditEvent
  kicked : (group user : ℕ) → Option ℕ → AuditEvent
  unbanned : (group user : ℕ) → Option ℕ → (via_revoke : Bool) → AuditEvent
  revoked : (punishment group : ℕ) → Option ℕ → (unbanned : Bool) → AuditEvent
  auto_blacklisted : (group user kicks threshold : ℕ) → Option ℕ → AuditEvent
  auto_kicked : (group user count threshold : ℕ) → Option ℕ → AuditEvent
  evasion_rekick : (group user original : ℕ) → AuditEvent
  evasion_remute : (group user seconds original : ℕ) → AuditEvent

-- `counted` lists the groups for which `punishments_total` was bumped.
pub record State : Type 0 where
  pub ledger : Ledger
  pub blacklist : Blacklist
  pub calls : List Action
  pub audits : List AuditEvent
  pub counted : List ℕ

pub record Thresholds : Type 0 where
  pub escalate_to_kick_after : ℕ
  pub escalate_to_blacklist_after : ℕ

-- An operator id: absent, a decimal number, or another text. The number 0 is the unset system actor.
pub data RawActor : Type 0 where
  unset : RawActor
  decimal : ℕ → RawActor
  malformed : RawActor

abbrev pub uint64_max : ℕ
uint64_max = 18446744073709551615

-- `canonicalActorId`; the outer `none` is the exception.
abbrev pub canonical_actor_id : RawActor → Option (Option ℕ)
canonical_actor_id unset = some none
canonical_actor_id malformed = none
canonical_actor_id (decimal n) =
    if n == 0 then some none else if leb n uint64_max then some (some n) else none

abbrev pub audit : State → AuditEvent → State
audit s e = record s { audits = s.audits ++ (e ∷ []) }

abbrev pub is_active_mute : ℕ → Punishment → Bool
is_active_mute now p = is_mute p.kind && is_active now p

abbrev pub auto_addition : (group user kicks : ℕ) → Option ℕ → Addition
auto_addition group user kicks actor = record {
  user_id = user;
  group_id = some group;
  reason = auto_blacklist kicks;
  created_by = actor;
  expires_at = none;
}

module _ (accepts : List Action → Action → Bool) (cfg : Thresholds) where
  -- `callAction`: the state with the call, and whether the provider accepted it.
  unfoldable pub call : State → Action → State × Bool
  call s a = (record s { calls = s.calls ++ (a ∷ []) }, accepts s.calls a)

  -- `none` is the provider's exception.
  unfoldable pub mute_locked :
      State → (group user seconds : ℕ) → Reason → Option ℕ → ℕ → State × Option Punishment
  mute_locked s group user seconds reason actor now =
      let (s', accepted) = call s (set_group_ban group user seconds) in
      let (ledger, p) = create s'.ledger group user mute (some seconds) reason actor now in
      if accepted
      then (
        audit (record s' { ledger = ledger; counted = s'.counted ++ (group ∷ []) })
            (muted group user seconds actor),
        some p,
      )
      else (s', none)

  unfoldable pub kick_locked :
      State → (group user : ℕ) → Reason → Option ℕ → Bool → ℕ → State × Option Punishment
  kick_locked s group user reason actor reject_future now =
      let (s', accepted) = call s (set_group_kick group user reject_future) in
      let (ledger, p) = create s'.ledger group user kick none reason actor now in
      if accepted
      then (
        audit (record s' { ledger = ledger; counted = s'.counted ++ (group ∷ []) })
            (kicked group user actor),
        some p,
      )
      else (s', none)

  unfoldable pub unban_locked : State → (group user : ℕ) → Option ℕ → State × Bool
  unban_locked s group user actor =
      let (s', accepted) = call s (set_group_ban group user 0) in
      if accepted then (audit s' (unbanned group user actor false), true) else (s', false)

  unfoldable pub maybe_blacklist_locked : State → (group user : ℕ) → Option ℕ → ℕ → State × Bool
  maybe_blacklist_locked s group user actor now =
      let threshold = cfg.escalate_to_blacklist_after in
      let kicks = count_active_kicks s.ledger user group now in
      let blacklist = (add s.blacklist (auto_addition group user kicks actor) now).0 in
      if threshold == 0
      then (s, false)
      else if leb threshold kicks && not (is_blacklisted s.blacklist user (some group) now)
      then (
        audit (record s { blacklist = blacklist })
            (auto_blacklisted group user kicks threshold actor),
        true,
      )
      else (s, false)

  -- The kick that escalation adds, with its own check of the blacklist. A refused kick is logged only.
  unfoldable pub escalate_kick : State → (group user count : ℕ) → Option ℕ → ℕ → State
  escalate_kick s group user count actor now =
      let (s', p) = kick_locked s group user (auto_kick count) actor false now in
      elim p [
        | none ↦ s'
        | some _ ↦
            (maybe_blacklist_locked
              (audit s' (auto_kicked group user count cfg.escalate_to_kick_after actor)) group user
              actor now).0
      ]

  unfoldable pub check_escalation_locked : State → (group user : ℕ) → Option ℕ → ℕ → State
  check_escalation_locked s group user actor now =
      let (s', blacklisted) = maybe_blacklist_locked s group user actor now in
      let threshold = cfg.escalate_to_kick_after in
      let count = count_active_punishments s'.ledger user group now in
      if blacklisted
        || threshold == 0
        || ltb count threshold
        || ltb 0 (count_active_kicks s'.ledger user group now)
      then s'
      else escalate_kick s' group user count actor now

  -- The public operations; `none` is an exception.
  unfoldable pub mute_user :
      State → (group user seconds : ℕ) → Reason → RawActor → ℕ → State × Option Punishment
  mute_user s group user seconds reason operator now = elim (canonical_actor_id operator) [
    | none ↦ (s, none)
    | some actor ↦
        let (s', p) = mute_locked s group user seconds reason actor now in
        elim p [
          | none ↦ (s', none)
          | some q ↦ (check_escalation_locked s' group user actor now, some q)
        ]
  ]

  unfoldable pub kick_user :
      State → (group user : ℕ) → Reason → RawActor → Bool → ℕ → State × Option Punishment
  kick_user s group user reason operator reject_future now = elim (canonical_actor_id operator) [
    | none ↦ (s, none)
    | some actor ↦
        let (s', p) = kick_locked s group user reason actor reject_future now in
        elim p [
          | none ↦ (s', none)
          | some q ↦ (check_escalation_locked s' group user actor now, some q)
        ]
  ]

  unfoldable pub unban_user : State → (group user : ℕ) → RawActor → State × Bool
  unban_user s group user operator = elim (canonical_actor_id operator) [
    | none ↦ (s, false)
    | some actor ↦ unban_locked s group user actor
  ]

  -- The part of `revoke` under the lock, for the record that is read again there.
  unfoldable pub revoke_record : State → Punishment → Option ℕ → ℕ → State × Bool
  revoke_record s p actor now =
      let others =
        any (λ (q : Punishment). not (q.id == p.id) && is_active_mute now q)
          (find_by_user s.ledger p.user_id p.group_id) in
      let unban = is_active_mute now p && not others in
      let (s', accepted) = call s (set_group_ban p.group_id p.user_id 0) in
      if unban
      then if accepted
        then (
          audit
              (audit (record s' { ledger = revoke s'.ledger p.id actor now })
                (unbanned p.group_id p.user_id actor true))
              (revoked p.id p.group_id actor true),
          true,
        )
        else (s', false)
      else (
        audit (record s { ledger = revoke s.ledger p.id actor now })
            (revoked p.id p.group_id actor false),
        true,
      )

  -- `false` is an exception.
  unfoldable pub revoke_punishment : State → ℕ → RawActor → ℕ → State × Bool
  revoke_punishment s id operator now = elim (canonical_actor_id operator) [
    | none ↦ (s, false)
    | some actor ↦ elim (find_by_id s.ledger id) [
      | none ↦ (s, false)
      | some p ↦ if is_some p.revoked_at then (s, true) else revoke_record s p actor now
    ]
  ]

  -- `Math.max(1, Math.ceil((expires_at - now) / 1000))`, for a time that is still to come.
  abbrev pub remaining_seconds : ℕ → ℕ → ℕ
  remaining_seconds expires now = max 1 ((expires - now + 999) / 1000)

  unfoldable pub rekick :
      State → (group user : ℕ) → (original : ℕ) → RawActor → ℕ → State × Option Bool
  rekick s group user original self_id now = elim (canonical_actor_id self_id) [
    | none ↦ (s, none)
    | some actor ↦
        let (s', p) = kick_locked s group user evasion actor false now in
        elim p [
          | none ↦ (s', none)
          | some _ ↦ (
            check_escalation_locked (audit s' (evasion_rekick group user original)) group user actor
                now,
            some true,
          )
        ]
  ]

  unfoldable pub remute : State → (group user expires original now : ℕ) → State × Option Bool
  remute s group user expires original now =
      let seconds = remaining_seconds expires now in
      let (s', accepted) = call s (set_group_ban group user seconds) in
      if accepted
      then (audit s' (evasion_remute group user seconds original), some false)
      else (s', none)

  -- The result tells whether the member was removed again; `none` is an exception. `enabled` is the
  -- group's `resolveGroupConfig(…).enabled`, `self_id` the configuration's `core.selfId`.
  unfoldable pub check_and_reapply_on_join :
      State → (enabled : Bool) → (self_id : RawActor) → (group user now : ℕ) → State × Option Bool
  check_and_reapply_on_join s enabled self_id group user now =
      let active = select (is_active now) (find_by_user s.ledger user group) in
      if not enabled
      then (s, some false)
      else elim (find (λ (p : Punishment). is_kick p.kind) active) [
        | some p ↦ rekick s group user p.id self_id now
        | none ↦ elim (find (λ (p : Punishment). is_mute p.kind) active) [
          | none ↦ (s, some false)
          | some p ↦ elim p.expires_at [
            | none ↦ (s, some false)
            | some expires ↦ remute s group user expires p.id now
          ]
        ]
      ]
