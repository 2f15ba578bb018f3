-- ===== src/Approval/Service.antt =====
-- ApprovalService of src/modules/approval/index.ts. What a method does under the lock of its flag is one
-- step here, but for the sweeps of the maintenance, which come in while the provider is waited for. `now`
-- is the time that the step reads.
use qq_guardian.Base.{
  ℕ, Bool, true, false, ◌&&◌, not, List, [], ◌∷◌, ◌++◌, Option, none, some, String, str_eq, leb,
  is_none, any, if◌then◌else◌,
}
use qq_guardian.Account.Usable.{is_nonempty}
use qq_guardian.Moderation.Blacklist.{Blacklist, is_blacklisted}
use qq_guardian.Moderation.Records.{Punishment, Ledger, is_kick, find_by_user}
use qq_guardian.Approval.Group.{
  auto_approve, auto_reject, manual, ResolvedGroupConfig, PluginConfig, resolve_group_config,
}
use qq_guardian.Approval.Group.{captcha as by_captcha}
use qq_guardian.Approval.Records.{
  Status, Records, pending, approved, rejected, captcha, is_pending, is_captcha, find_by_id,
  find_by_flag, create, update_status, expire_pending_if_expired, mark_action_failure, swept_at,
}
use qq_guardian.Approval.Screening.{
  Feed, AutomaticApprovalReason, custom_keyword_matched, custom_pattern_matched,
  builtin_referral_heuristic, policy_auto_approve, match_approve_comment, match_reject,
}

-- The call `set_group_add_request`.
pub data Call : Type 0 where
  approve_request : String → Call
  reject_request : (flag reason : String) → Call

pub data Event : Type 0 where
  approve_audit : (operator : Option String) (flag reason : String) → Event
  reject_audit : (operator : Option String) (flag reason : String) → Event
  captcha_required : (approval_id group user : ℕ) → Event

pub data Counter : Type 0 where
  approvals_total approvals_passed approvals_rejected : Counter

-- What the service changes: the records, and what it sent, emitted and counted, in order. The last
-- field is no state: after the calls so far, it gives the times at which the hourly maintenance, which takes
-- no lock, sweeps the records while the last of these calls is waited for.
pub record Desk : Type 0 where
  pub records : Records
  pub calls : List Call
  pub events : List Event
  pub counts : List (Counter × ℕ)
  pub sweeps : List Call → List ℕ

-- The fields of the event that are read.
pub record JoinRequest : Type 0 where
  pub request_type : String
  pub sub_type : String
  pub group_id : ℕ
  pub user_id : ℕ
  pub flag : String
  pub comment : Option String

-- What a decision reads besides the records.
pub record Surroundings : Type 0 where
  pub cfg : PluginConfig
  pub blacklist : Blacklist
  pub ledger : Ledger
  pub feed : Feed
  pub now : ℕ

abbrev pub reason_text : AutomaticApprovalReason → String
reason_text custom_keyword_matched = "custom_keyword_matched"
reason_text custom_pattern_matched = "custom_pattern_matched"
reason_text builtin_referral_heuristic = "builtin_referral_heuristic"
reason_text policy_auto_approve = "policy_auto_approve"

abbrev pub comment_of : JoinRequest → String
comment_of e = elim e.comment [ none ↦ "" | some text ↦ text ]

unfoldable pub bump : Desk → ℕ → Counter → Desk
bump s group counter = record s { counts = s.counts ++ (counter, group) ∷ [] }

abbrev pub with_records : Desk → Records → Desk
with_records s t = record s { records = t }

-- What happens while the last call is waited for.
abbrev pub meanwhile : Desk → Desk
meanwhile s = with_records s (swept_at s.records (s.sweeps s.calls))

-- An unrevoked kick of the user in the group is on record.
abbrev pub has_active_kick : Ledger → (user group : ℕ) → Bool
has_active_kick l user group =
    any (λ (p : Punishment). is_kick p.kind && is_none p.revoked_at) (find_by_user l user group)

abbrev pub is_enforced : Option Bool → Bool
is_enforced none = false
is_enforced (some enforced) = enforced

-- `accepts sent call` tells whether the provider answers a call after the calls `sent`; a `false` beside
-- a state is an exception.
module _ (accepts : List Call → Call → Bool) where
  -- `_approve` and `_reject`
  unfoldable pub approve : Desk → String → Option String → String → Desk × Bool
  approve s flag operator reason =
      let asked = record s { calls = s.calls ++ approve_request flag ∷ [] } in
      if accepts s.calls (approve_request flag)
      then (record asked { events = asked.events ++ approve_audit operator flag reason ∷ [] }, true)
      else (asked, false)

  unfoldable pub reject : Desk → String → String → Option String → Desk × Bool
  reject s flag reason operator =
      let asked = record s { calls = s.calls ++ reject_request flag reason ∷ [] } in
      if accepts s.calls (reject_request flag reason)
      then (record asked { events = asked.events ++ reject_audit operator flag reason ∷ [] }, true)
      else (asked, false)

  -- The call and its `try … catch`, then the status, whatever it is by now, and the counter.
  unfoldable pub conclude :
      Desk × Bool
      → (id group : ℕ) → Status
      → (operator reason : Option String) → Counter
      → String
      → ℕ
      → Desk × Bool
  conclude (s, false) id group status operator reason counter failure now =
      let m = meanwhile s in (with_records m (mark_action_failure m.records id failure), false)
  conclude (s, true) id group status operator reason counter failure now =
      let m = meanwhile s in
      (
        bump (with_records m (update_status m.records id status operator reason now)) group counter,
        true,
      )

  unfoldable pub created : Desk → JoinRequest → Status → (ttl now : ℕ) → Desk
  created s e status ttl now =
      with_records s (create s.records e.group_id e.user_id e.flag (comment_of e) status ttl now)

  unfoldable pub approve_recorded :
      Desk → JoinRequest → (ttl : ℕ) → AutomaticApprovalReason → ℕ → Desk × Bool
  approve_recorded s e ttl reason now =
      conclude (approve (created s e pending ttl now) e.flag none (reason_text reason))
        s.records.next_id e.group_id approved none (some (reason_text reason)) approvals_passed
        "automatic_approval_failed" now

  unfoldable pub reject_recorded :
      Desk → JoinRequest → (reason : String) → (ttl : ℕ) → ℕ → Desk × Bool
  reject_recorded s e reason ttl now =
      conclude (reject (created s e pending ttl now) e.flag reason none) s.records.next_id
        e.group_id rejected none (some reason) approvals_rejected "automatic_rejection_failed" now

  unfoldable pub route_to_captcha : Desk → JoinRequest → (ttl now : ℕ) → Desk
  route_to_captcha s e ttl now =
      let s' = created s e captcha ttl now in
      record s' {
        events = s'.events ++ captcha_required s.records.next_id e.group_id e.user_id ∷ [];
      }

  unfoldable pub route_by_action :
      Desk → JoinRequest → ResolvedGroupConfig → (ttl now : ℕ) → Desk × Bool
  route_by_action s e group ttl now = elim group.action [
    | auto_approve ↦ approve_recorded s e ttl policy_auto_approve now
    | auto_reject ↦ reject_recorded s e group.reject_reason ttl now
    | by_captcha ↦ (route_to_captcha s e ttl now, true)
    | manual ↦ (created s e pending ttl now, true)
  ]

  -- The parameters of the screening.
  module _ (test : String → String → Option Bool)
      (builtin_reject builtin_approve : List (String → Bool)) where
    -- The first reason to turn the request away, in the order of the code: `if (rejectReason)` takes an
    -- empty text for no reason.
    unfoldable pub rejection : JoinRequest → ResolvedGroupConfig → Surroundings → Option String
    rejection e group w =
        if is_blacklisted w.blacklist e.user_id (some e.group_id) w.now
        then some "You are on the group blacklist."
        else if has_active_kick w.ledger e.user_id e.group_id
        then some "您此前被移出本群且处罚未撤销 / A prior removal penalty is still active."
        else if is_enforced (w.feed.red_flag e.user_id)
        then some "云端风控名单命中 / Flagged by the live risk list."
        else elim (match_reject test builtin_reject builtin_approve (comment_of e) group w.cfg
            w.feed) [ none ↦ none | some reason ↦ if is_nonempty reason then some reason else none ]

    unfoldable pub decide : Desk → JoinRequest → ResolvedGroupConfig → Surroundings → Desk × Bool
    decide s e group w = elim (rejection e group w) [
      | some reason ↦ reject_recorded s e reason w.cfg.pending_ttl_seconds w.now
      | none ↦
          elim (match_approve_comment test builtin_reject builtin_approve (comment_of e) group
            w.cfg.use_builtin_approve_keywords) [
              | some reason ↦ approve_recorded s e w.cfg.pending_ttl_seconds reason w.now
              | none ↦ route_by_action s e group w.cfg.pending_ttl_seconds w.now
            ]
    ]

    abbrev pub is_routed : JoinRequest → Surroundings → Bool
    is_routed e w =
        str_eq e.request_type "group"
        && (str_eq e.sub_type "add" && (resolve_group_config w.cfg e.group_id).enabled)

    unfoldable pub handle_join_request : Desk → JoinRequest → Surroundings → Desk × Bool
    handle_join_request s e w =
        if is_routed e w
        then elim (find_by_flag s.records e.flag) [
          | some _ ↦ (s, true)
          | none ↦
              decide (bump s e.group_id approvals_total) e (resolve_group_config w.cfg e.group_id) w
        ]
        else (s, true)

  -- An operator's decision; a lapsed request is expired instead.
  unfoldable pub approve_manually : Desk → (id : ℕ) → (operator : String) → (now : ℕ) → Desk × Bool
  approve_manually s id operator now = elim (find_by_id s.records id) [
    | none ↦ (s, false)
    | some r ↦
        if not (is_pending r.status)
        then (s, false)
        else if leb r.expires_at now
        then (with_records s (expire_pending_if_expired s.records r.id now), false)
        else conclude (approve s r.flag (some operator) "manual_operator") r.id r.group_id approved
            (some operator) none approvals_passed "manual_approval_failed" now
  ]

  unfoldable pub reject_manually :
      Desk → (id : ℕ) → (operator reason : String) → (now : ℕ) → Desk × Bool
  reject_manually s id operator reason now = elim (find_by_id s.records id) [
    | none ↦ (s, false)
    | some r ↦
        if not (is_pending r.status)
        then (s, false)
        else if leb r.expires_at now
        then (with_records s (expire_pending_if_expired s.records r.id now), false)
        else conclude (reject s r.flag reason (some operator)) r.id r.group_id rejected
            (some operator) (some reason) approvals_rejected "manual_rejection_failed" now
  ]

  -- The answers of the captcha: `some false` when the record no longer waits for one.
  abbrev pub answered : Desk × Bool → Desk × Option Bool
  answered (s, done) = (s, if done then some true else none)

  unfoldable pub approve_after_captcha : Desk → (id : ℕ) → (now : ℕ) → Desk × Option Bool
  approve_after_captcha s id now = elim (find_by_id s.records id) [
    | none ↦ (s, some false)
    | some r ↦
        if not (is_captcha r.status)
        then (s, some false)
        else answered (
            conclude (approve s r.flag none "captcha_passed") r.id r.group_id approved none
              (some "captcha_passed") approvals_passed "captcha_approval_failed" now)
  ]

  unfoldable pub reject_after_captcha_fail :
      Desk → (id : ℕ) → (reason : String) → (now : ℕ) → Desk × Option Bool
  reject_after_captcha_fail s id reason now = elim (find_by_id s.records id) [
    | none ↦ (s, some false)
    | some r ↦
        if not (is_captcha r.status)
        then (s, some false)
        else answered (
            conclude (reject s r.flag reason none) r.id r.group_id rejected none (some reason)
              approvals_rejected "captcha_rejection_failed" now)
  ]
