-- ===== src/Approval/Door.antt =====
-- Who gets in: when routing approves a join request.
use qq_guardian.Base.{
  ℕ, suc, ◌+◌, ◌≡◌, ◌↔◌, refl, Bool, true, false, ◌&&◌, ◌||◌, List, Option, none, some, String,
  arith, any, count_where, Option-cases, inl, inr, is_some, is_none, if◌then◌else◌, ◌∙◌, ap,
}
use qq_guardian.Account.Usable.{is_nonempty}
use qq_guardian.Moderation.Blacklist.{is_blacklisted}
use qq_guardian.Approval.Group.{
  auto_approve, auto_reject, manual, ResolvedGroupConfig, resolve_group_config, RoutingAction,
  PluginConfig,
}
use qq_guardian.Approval.Group.{captcha as by_captcha}
use qq_guardian.Approval.Records.{find_by_flag}
use qq_guardian.Approval.Screening.{
  match_approve_comment, match_reject, pattern_matches, includes, Feed,
}
use qq_guardian.Approval.Service.{
  Desk, Call, approve_request, reject_request, JoinRequest, Surroundings, bump, created,
  approvals_total, route_to_captcha, route_by_action, rejection, decide, is_routed,
  handle_join_request, comment_of, has_active_kick, is_enforced,
}
use qq_guardian.Approval.Calls.{count-append, approve_recorded-calls, reject_recorded-calls}

abbrev pub is_approval : Call → Bool
is_approval (approve_request f) = true
is_approval (reject_request f reason) = false

abbrev pub is_auto_approve : RoutingAction → Bool
is_auto_approve auto_approve = true
is_auto_approve auto_reject = false
is_auto_approve manual = false
is_auto_approve by_captcha = false

-- The user is on the blacklist, was kicked before, or is on the enforced list of the feed.
abbrev pub is_barred : JoinRequest → Surroundings → Bool
is_barred e w =
    is_blacklisted w.blacklist e.user_id (some e.group_id) w.now
    || has_active_kick w.ledger e.user_id e.group_id
    || is_enforced (w.feed.red_flag e.user_id)

-- The tests of a rejection, in order, find a reason if and only if one of them holds.
reasons-is_some :
    (a b c m n : Bool) (x y z r : String)
    → is_nonempty r ≡ n
    → is_some (
        if a
        then some x
        else if b
        then some y
        else if c
        then some z
        else elim (if m then some r else none) [
          | none ↦ none
          | some t ↦ if is_nonempty t then some t else none
        ])
      ≡ ((a || b || c) || m && n)
reasons-is_some true b c m n x y z r e = refl
reasons-is_some false true c m n x y z r e = refl
reasons-is_some false false true m n x y z r e = refl
reasons-is_some false false false false n x y z r e = refl
reasons-is_some false false false true true x y z r e = rw e refl
reasons-is_some false false false true false x y z r e = rw e refl

module _ (accepts : List Call → Call → Bool) (test : String → String → Option Bool)
    (builtin_reject builtin_approve : List (String → Bool)) where
  -- Some rule turns the comment away.
  abbrev pub is_unwelcome : String → ResolvedGroupConfig → PluginConfig → Feed → Bool
  is_unwelcome comment group cfg feed =
      any (includes comment) group.reject_keywords
      || any (pattern_matches test builtin_reject builtin_approve comment) group.reject_patterns
      || cfg.use_builtin_reject_keywords && any (λ p. p comment) builtin_reject
      || any (λ p. p comment) feed.enforced_reject_patterns

  -- Some rule, or the group's action, lets the comment pass.
  abbrev pub is_welcome : String → ResolvedGroupConfig → PluginConfig → Bool
  is_welcome comment group cfg =
      is_some (
        match_approve_comment test builtin_reject builtin_approve comment group
          cfg.use_builtin_approve_keywords)
      || is_auto_approve group.action

  rejection-is_some :
      (e : JoinRequest) (group : ResolvedGroupConfig) (w : Surroundings)
      → is_some (rejection accepts test builtin_reject builtin_approve e group w) ≡ (
          is_barred e w
          || is_unwelcome (comment_of e) group w.cfg w.feed && is_nonempty group.reject_reason)
  unfolding rejection match_reject
  rejection-is_some e group w =
      reasons-is_some (is_blacklisted w.blacklist e.user_id (some e.group_id) w.now)
        (has_active_kick w.ledger e.user_id e.group_id) (is_enforced (w.feed.red_flag e.user_id))
        (is_unwelcome (comment_of e) group w.cfg w.feed) (is_nonempty group.reject_reason) _ _ _
        group.reject_reason refl

  abbrev approvals : Desk → ℕ
  approvals s = count_where is_approval s.calls

  route-approvals :
      (s : Desk) (e : JoinRequest) (group : ResolvedGroupConfig) (action : RoutingAction)
      (ttl now : ℕ)
      → group.action ≡ action
      → approvals (route_by_action accepts s e group ttl now).0
        ≡ approvals s + (if is_auto_approve group.action then 1 else 0)
  unfolding route_by_action route_to_captcha created
  route-approvals s e group auto_approve ttl now is = rw is (
      ap (count_where is_approval) (approve_recorded-calls accepts s e ttl _ now)
      ∙ count-append is_approval s.calls _)
  route-approvals s e group auto_reject ttl now is = rw is (
      ap (count_where is_approval) (reject_recorded-calls accepts s e _ ttl now)
      ∙ count-append is_approval s.calls _)
  route-approvals s e group by_captcha ttl now is = rw is (omega arith)
  route-approvals s e group manual ttl now is = rw is (omega arith)

  decide-approvals :
      (s : Desk) (e : JoinRequest) (group : ResolvedGroupConfig) (w : Surroundings)
      → approvals (decide accepts test builtin_reject builtin_approve s e group w).0
        ≡ approvals s
          + (if is_none (rejection accepts test builtin_reject builtin_approve e group w)
                && is_welcome (comment_of e) group w.cfg
              then 1
              else 0)
  unfolding decide
  decide-approvals s e group w =
      elim (Option-cases (rejection accepts test builtin_reject builtin_approve e group w)) [
        | inr (reason, turned_away) ↦
            rw (turned_away, decide)
              (ap (count_where is_approval) (reject_recorded-calls accepts s e reason _ _)
                ∙ count-append is_approval s.calls _)
        | inl passed ↦
            elim (Option-cases (
              match_approve_comment test builtin_reject builtin_approve (comment_of e) group
                w.cfg.use_builtin_approve_keywords)) [
                  | inr (reason, matched) ↦
                      rw (passed, matched, decide)
                        (ap (count_where is_approval)
                            (approve_recorded-calls accepts s e _ reason _)
                          ∙ count-append is_approval s.calls _)
                  | inl unmatched ↦
                      rw (passed, unmatched, decide)
                        (route-approvals s e group group.action _ _ refl)
                ]
      ]

  -- A request that is new and routed is approved if and only if nothing bars the user (the blacklist, an
  -- unrevoked kick, an enforced red flag), the comment is not turned away by a rule for which the group has
  -- a reason that is not empty, and an approval rule matches the comment or the group approves everyone.
  pub handle-approves_iff :
      (s : Desk) (e : JoinRequest) (w : Surroundings)
      → is_routed accepts test builtin_reject builtin_approve e w ≡ true
      → find_by_flag s.records e.flag ≡ none
      → let group = resolve_group_config w.cfg e.group_id in
        let s' = (handle_join_request accepts test builtin_reject builtin_approve s e w).0 in
        (count_where is_approval s'.calls ≡ suc (count_where is_approval s.calls)) ↔ (
          (is_barred e w ≡ false)
          × ((is_unwelcome (comment_of e) group w.cfg w.feed && is_nonempty group.reject_reason)
              ≡ false)
          × (is_welcome (comment_of e) group w.cfg ≡ true))
  unfolding handle_join_request bump
  handle-approves_iff s e w routed fresh =
      let group = resolve_group_config w.cfg e.group_id in
      let counted = decide-approvals (bump s e.group_id approvals_total) e group w in
      let asked = rejection-is_some e group w in
      rw (routed, fresh, handle_join_request) (ground (arith, counted, asked))
