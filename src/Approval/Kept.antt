-- ===== src/Approval/Kept.antt =====
-- Decided approval records under the routing of join requests.
use qq_guardian.Base.{
  ℕ, suc, ◌<◌, ◌≡◌, refl, Bool, false, List, Option, none, some, String, arith, has_key, All-map,
  All-append, Option-cases, inl, inr, if_cases, subst, sym, ==_iff, All-find,
}
use qq_guardian.Approval.Group.{
  auto_approve, auto_reject, manual, ResolvedGroupConfig, resolve_group_config, RoutingAction,
}
use qq_guardian.Approval.Group.{captcha as by_captcha}
use qq_guardian.Approval.Records.{
  Status, ApprovalRecord, id_of, is_open, find_by_flag, find_by_id, create, new_record, pending,
  captcha,
}
use qq_guardian.Approval.Screening.{AutomaticApprovalReason, match_approve_comment}
use qq_guardian.Approval.Service.{
  Desk, Call, Counter, JoinRequest, Surroundings, conclude, bump, created, approve_recorded,
  reject_recorded, route_to_captcha, route_by_action, rejection, decide, is_routed,
  handle_join_request,
}
use qq_guardian.Approval.Rows.{
  IsNumbered, find-before, approve-records, reject-records, conclude-find, conclude-IsNumbered,
}

-- The record with this number has been decided: it is approved, rejected or expired.
abbrev pub IsDecided : ℕ → ApprovalRecord → Desk → Type 0
IsDecided k c s = (find_by_id s.records k ≡ some c) × (is_open c ≡ false) × IsNumbered s.records

module _ (accepts : List Call → Call → Bool) (k : ℕ) (c : ApprovalRecord) where
  -- A decision on a record with another number.
  pub concluded-IsDecided :
      (r : Desk × Bool) (s : Desk) (id group : ℕ) (status : Status)
      (operator reason : Option String) (counter : Counter) (failure : String) (now : ℕ)
      → r.0.records ≡ s.records
      → has_key id_of id c ≡ false
      → IsDecided k c s
      → IsDecided k c (conclude accepts r id group status operator reason counter failure now).0
  concluded-IsDecided r s id group status operator reason counter failure now same other
        (found, closed, numbered) =
      (
        conclude-find accepts id group status operator reason counter failure now r k c
            (subst (λ t. find_by_id t k ≡ some c) (sym same) found) closed other,
        closed,
        conclude-IsNumbered accepts id group status operator reason counter failure now r
            (subst IsNumbered (sym same) numbered),
      )

  created-IsDecided :
      (s : Desk) (e : JoinRequest) (status : Status) (ttl now : ℕ)
      → IsDecided k c s
      → IsDecided k c (created accepts s e status ttl now)
  unfolding created create new_record find_by_id
  created-IsDecided s e status ttl now (found, closed, numbered) = (
    find-before id_of k s.records.rows _ c found,
    closed,
    All-append (λ (r : ApprovalRecord). r.id < suc s.records.next_id) s.records.rows _
        (All-map s.records.rows (λ r h. omega arith) numbered) ((omega arith), tt),
  )

  -- The number of a new record is another one.
  new_number : (s : Desk) → IsDecided k c s → has_key id_of s.records.next_id c ≡ false
  unfolding find_by_id
  new_number s (found, closed, numbered) =
      let (below, _) =
        All-find (λ (r : ApprovalRecord). r.id < s.records.next_id) (has_key id_of k) s.records.rows
          numbered found in
      ground (arith, ==_iff c.id s.records.next_id)

  approve_recorded-IsDecided :
      (s : Desk) (e : JoinRequest) (ttl : ℕ) (reason : AutomaticApprovalReason) (now : ℕ)
      → IsDecided k c s
      → IsDecided k c (approve_recorded accepts s e ttl reason now).0
  unfolding approve_recorded
  approve_recorded-IsDecided s e ttl reason now d =
      concluded-IsDecided _ (created accepts s e pending ttl now) _ _ _ _ _ _ _ _
        (approve-records accepts _ _ _ _) (new_number s d) (created-IsDecided s e pending ttl now d)

  reject_recorded-IsDecided :
      (s : Desk) (e : JoinRequest) (reason : String) (ttl now : ℕ)
      → IsDecided k c s
      → IsDecided k c (reject_recorded accepts s e reason ttl now).0
  unfolding reject_recorded
  reject_recorded-IsDecided s e reason ttl now d =
      concluded-IsDecided _ (created accepts s e pending ttl now) _ _ _ _ _ _ _ _
        (reject-records accepts _ _ _ _) (new_number s d) (created-IsDecided s e pending ttl now d)

  route_by_action-IsDecided :
      (s : Desk) (e : JoinRequest) (group : ResolvedGroupConfig) (action : RoutingAction)
      (ttl now : ℕ)
      → group.action ≡ action
      → IsDecided k c s
      → IsDecided k c (route_by_action accepts s e group ttl now).0
  unfolding route_by_action route_to_captcha
  route_by_action-IsDecided s e group auto_approve ttl now is d =
      rw is (approve_recorded-IsDecided s e ttl _ now d)
  route_by_action-IsDecided s e group auto_reject ttl now is d =
      rw is (reject_recorded-IsDecided s e _ ttl now d)
  route_by_action-IsDecided s e group by_captcha ttl now is d =
      rw is (created-IsDecided s e captcha ttl now d)
  route_by_action-IsDecided s e group manual ttl now is d =
      rw is (created-IsDecided s e pending ttl now d)

  bumped-IsDecided :
      (s : Desk) (group : ℕ) (counter : Counter)
      → IsDecided k c s
      → IsDecided k c (bump s group counter)
  unfolding bump
  bumped-IsDecided s group counter d = d

  module _ (test : String → String → Option Bool)
      (builtin_reject builtin_approve : List (String → Bool)) where
    decide-IsDecided :
        (s : Desk) (e : JoinRequest) (group : ResolvedGroupConfig) (w : Surroundings)
        → IsDecided k c s
        → IsDecided k c (decide accepts test builtin_reject builtin_approve s e group w).0
    unfolding decide
    decide-IsDecided s e group w d =
        elim (Option-cases (rejection accepts test builtin_reject builtin_approve e group w)) [
          | inr (reason, turned_away) ↦
              rw (turned_away, decide) (reject_recorded-IsDecided s e reason _ _ d)
          | inl passed ↦
              elim (Option-cases (
                match_approve_comment test builtin_reject builtin_approve
                  (elim e.comment [ none ↦ "" | some text ↦ text ]) group
                  w.cfg.use_builtin_approve_keywords)) [
                    | inr (reason, matched) ↦
                        rw (passed, matched, decide) (approve_recorded-IsDecided s e _ reason _ d)
                    | inl unmatched ↦
                        rw (passed, unmatched, decide)
                          (route_by_action-IsDecided s e group group.action _ _ refl d)
                  ]
        ]

    pub handle-IsDecided :
        (s : Desk) (e : JoinRequest) (w : Surroundings)
        → IsDecided k c s
        → IsDecided k c (handle_join_request accepts test builtin_reject builtin_approve s e w).0
    unfolding handle_join_request
    handle-IsDecided s e w d = elim (Option-cases (find_by_flag s.records e.flag)) [
      | inr (r, known) ↦
          rw (known, handle_join_request)
            (if_cases (λ (r : Desk × Bool). IsDecided k c r.0)
              (is_routed accepts test builtin_reject builtin_approve e w) (λ _. d) (λ _. d))
      | inl fresh ↦
          rw (fresh, handle_join_request)
            (if_cases (λ (r : Desk × Bool). IsDecided k c r.0)
              (is_routed accepts test builtin_reject builtin_approve e w)
              (λ _.
                decide-IsDecided (bump s e.group_id _) e (resolve_group_config w.cfg e.group_id) w
                  (bumped-IsDecided s e.group_id _ d))
              (λ _. d))
    ]
