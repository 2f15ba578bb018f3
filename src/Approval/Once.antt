-- ===== src/Approval/Once.antt =====
-- Repeated deliveries of a join request to the routing of src/modules/approval/index.ts.
use qq_guardian.Base.{
  ℕ, ◌+◌, ◌≤◌, ◌≡◌, refl, Bool, true, false, List, [], ◌∷◌, Option, String, str_eq, str_eq_iff,
  arith, count_where, Bool-cases, Option-cases, inl, inr, if_cases, is_some, if◌then◌else◌, ◌∙◌,
  sym, ap, subst, ◌⊎◌,
}
use qq_guardian.Approval.Group.{ResolvedGroupConfig, resolve_group_config}
use qq_guardian.Approval.Records.{find_by_flag}
use qq_guardian.Approval.Screening.{match_approve_comment}
use qq_guardian.Approval.Service.{
  Desk, Call, Counter, approvals_total, JoinRequest, Surroundings, bump, rejection, decide,
  is_routed, handle_join_request, comment_of,
}
use qq_guardian.Approval.Rows.{has_flag, find_by_flag-is_some}
use qq_guardian.Approval.Calls.{
  is_about, IsRouted, approve_recorded-IsRouted, reject_recorded-IsRouted, route_by_action-IsRouted,
}

-- The sum of the calls about a request and those still to come from routing.
abbrev budget : Desk → String → ℕ
budget s flag =
    count_where (is_about flag) s.calls + (if has_flag flag s.records.rows then 0 else 1)

routed-budget :
    (s s' : Desk) (e : JoinRequest) (flag : String)
    → has_flag e.flag s.records.rows ≡ false
    → IsRouted s e s'
    → budget s' flag ≤ budget s flag
routed-budget s s' e flag fresh (known, kept, few) = elim (Bool-cases (str_eq e.flag flag)) [
  | inl same ↦
      let equal = (str_eq_iff e.flag flag).0 same in
      let known' : has_flag flag s'.records.rows ≡ true =
        subst (λ f. has_flag f s'.records.rows ≡ true) equal known in
      let fresh' : has_flag flag s.records.rows ≡ false =
        subst (λ f. has_flag f s.records.rows ≡ false) equal fresh in
      ground (arith, few flag)
  | inr other ↦ ground (arith, few flag, kept flag)
]

module _ (accepts : List Call → Call → Bool) (test : String → String → Option Bool)
    (builtin_reject builtin_approve : List (String → Bool)) where
  decide-IsRouted :
      (s : Desk) (e : JoinRequest) (group : ResolvedGroupConfig) (w : Surroundings)
      → IsRouted s e (decide accepts test builtin_reject builtin_approve s e group w).0
  unfolding decide
  decide-IsRouted s e group w =
      elim (Option-cases (rejection accepts test builtin_reject builtin_approve e group w)) [
        | inr (reason, turned_away) ↦
            rw (turned_away, decide) (reject_recorded-IsRouted accepts s e reason _ _)
        | inl passed ↦
            elim (Option-cases (
              match_approve_comment test builtin_reject builtin_approve (comment_of e) group
                w.cfg.use_builtin_approve_keywords)) [
                  | inr (reason, matched) ↦
                      rw (passed, matched, decide)
                        (approve_recorded-IsRouted accepts s e _ reason _)
                  | inl unmatched ↦
                      rw (passed, unmatched, decide)
                        (route_by_action-IsRouted accepts s e group group.action _ _ refl)
                ]
      ]

  bumped-IsRouted :
      (s s' : Desk) (e : JoinRequest) (group : ℕ) (counter : Counter)
      → IsRouted (bump s group counter) e s'
      → IsRouted s e s'
  unfolding bump
  bumped-IsRouted s s' e group counter routed = routed

  -- Either the request changes nothing, or its flag was not on record and it is routed.
  pub handle-cases :
      (s : Desk) (e : JoinRequest) (w : Surroundings)
      → let r = handle_join_request accepts test builtin_reject builtin_approve s e w in
        ((is_routed accepts test builtin_reject builtin_approve e w ≡ false)
            ⊎ (has_flag e.flag s.records.rows ≡ true))
          × (r ≡ (s, true))
        ⊎ (has_flag e.flag s.records.rows ≡ false) × IsRouted s e r.0
  unfolding handle_join_request
  handle-cases s e w = elim (Option-cases (find_by_flag s.records e.flag)) [
    | inr (r, known) ↦
        let on_record : has_flag e.flag s.records.rows ≡ true =
          sym (find_by_flag-is_some s.records e.flag) ∙ ap is_some known in
        inl (
          inr on_record,
          rw (known, handle_join_request)
              (if_cases (λ (x : Desk × Bool). x ≡ (s, true))
                (is_routed accepts test builtin_reject builtin_approve e w) (λ _. refl)
                (λ _. refl)),
        )
    | inl fresh ↦
        let unknown : has_flag e.flag s.records.rows ≡ false =
          sym (find_by_flag-is_some s.records e.flag) ∙ ap is_some fresh in
        elim (Bool-cases (is_routed accepts test builtin_reject builtin_approve e w)) [
          | inr outside ↦ inl (inl outside, rw (outside, handle_join_request) refl)
          | inl inside ↦ inr (
            unknown,
            rw (inside, fresh, handle_join_request)
                (let group = resolve_group_config w.cfg e.group_id in
                  let counted = bump s e.group_id approvals_total in
                  bumped-IsRouted s
                    (decide accepts test builtin_reject builtin_approve counted e group w).0 e
                    e.group_id approvals_total (decide-IsRouted counted e group w)),
          )
        ]
  ]

  true_is_not_false : ¬ (true ≡ false)
  true_is_not_false e = cc

  -- Once a request is routed, no other delivery of it changes anything or fails, with whatever settings,
  -- lists and time it is seen again, and also when the provider refused the first decision.
  pub handle-again :
      (s : Desk) (e : JoinRequest) (w : Surroundings) (e' : JoinRequest) (w' : Surroundings)
      → is_routed accepts test builtin_reject builtin_approve e w ≡ true
      → e'.flag ≡ e.flag
      → let s' = (handle_join_request accepts test builtin_reject builtin_approve s e w).0 in
        handle_join_request accepts test builtin_reject builtin_approve s' e' w' ≡ (s', true)
  handle-again s e w e' w' routed same =
      let s' = (handle_join_request accepts test builtin_reject builtin_approve s e w).0 in
      let known : has_flag e.flag s'.records.rows ≡ true = elim (handle-cases s e w) [
        | inl (inl outside, _) ↦ absurd (cc)
        | inl (inr on_record, unchanged) ↦
            subst (λ (r : Desk × Bool). has_flag e.flag r.0.records.rows ≡ true) (sym unchanged)
              on_record
        | inr (_, (known, _, _)) ↦ known
      ] in
      elim (handle-cases s' e' w') [
        | inl (_, unchanged) ↦ unchanged
        | inr (unknown, _) ↦ absurd (
            true_is_not_false
              (sym known ∙ subst (λ f. has_flag f s'.records.rows ≡ false) same unknown))
      ]

  handle-budget :
      (s : Desk) (e : JoinRequest) (w : Surroundings) (flag : String)
      → budget (handle_join_request accepts test builtin_reject builtin_approve s e w).0 flag
        ≤ budget s flag
  handle-budget s e w flag = elim (handle-cases s e w) [
    | inl (_, unchanged) ↦
        subst (λ (r : Desk × Bool). budget r.0 flag ≤ budget s flag) (sym unchanged) (omega arith)
    | inr (fresh, routed) ↦
        routed-budget s (handle_join_request accepts test builtin_reject builtin_approve s e w).0 e
          flag fresh routed
  ]

  unfoldable pub handle_all : Desk → List (JoinRequest × Surroundings) → Desk
  handle_all s [] = s
  handle_all s ((e, w) ∷ es) =
      handle_all (handle_join_request accepts test builtin_reject builtin_approve s e w).0 es

  handle_all-budget :
      (s : Desk) (es : List (JoinRequest × Surroundings)) (flag : String)
      → budget (handle_all s es) flag ≤ budget s flag
  unfolding handle_all
  handle_all-budget s [] flag = omega arith
  handle_all-budget s ((e, w) ∷ es) flag =
      let rest =
        handle_all-budget (handle_join_request accepts test builtin_reject builtin_approve s e w).0
          es flag in
      let first = handle-budget s e w flag in omega arith

  -- However often and in whatever order requests are delivered, routing sends the provider at most one
  -- call about a request, and none about one that is on record.
  pub handle_all-once :
      (s : Desk) (es : List (JoinRequest × Surroundings)) (flag : String)
      → count_where (is_about flag) (handle_all s es).calls
        ≤ count_where (is_about flag) s.calls + (if has_flag flag s.records.rows then 0 else 1)
  handle_all-once s es flag = let spent = handle_all-budget s es flag in omega arith
