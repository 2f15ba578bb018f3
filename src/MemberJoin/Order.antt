-- ===== src/MemberJoin/Order.antt =====
-- What a stage that stops the admission keeps from happening.
use qq_guardian.Base.{
  String, sym, subst, ℕ, ◌≡◌, ◌≢◌, refl, Bool, true, false, ◌||◌, not, List, [], ◌∷◌, ◌++◌, Option,
  none, some, ==_iff, arith, ◌==◌, if_cases,
}
use qq_guardian.Moderation.Blacklist.{is_blacklisted}
use qq_guardian.Moderation.Service.{Action, Thresholds}
use qq_guardian.Approval.Group.{ResolvedGroupConfig}
use qq_guardian.MemberJoin.{
  StageResult, proceed, stop, Stage, PipelineResult, completed, stopped, after_stage,
  run_member_join_pipeline, Hall, MemberJoinEvent, handle_blacklist_member_join, stages,
  handle_member_join,
}

module _ {ℓ} {S : Type ℓ} where
  -- The result of the later stages counts only if the earlier ones let the member through.
  abbrev pub then_run : List (Stage S) → S × PipelineResult → S × PipelineResult
  then_run ys (s, completed) = run_member_join_pipeline ys s
  then_run ys (s, r) = (s, r)

  then_run-after_stage :
      (ys : List (Stage S)) (name : String) (r : S × Option StageResult) (a b : S × PipelineResult)
      → a ≡ then_run ys b
      → after_stage name r a ≡ then_run ys (after_stage name r b)
  then_run-after_stage ys name (s, none) a b e = refl
  then_run-after_stage ys name (s, some stop) a b e = refl
  then_run-after_stage ys name (s, some proceed) a b e = e

  after_stage-stop :
      (name : String) (r : S × Option StageResult) (rest : S × PipelineResult)
      → r.1 ≡ some stop
      → after_stage name r rest ≡ (r.0, stopped name)
  after_stage-stop name (s, some stop) rest e = refl
  after_stage-stop name (s, some proceed) rest e = absurd (cc)
  after_stage-stop name (s, none) rest e = absurd (cc)

  -- The pipeline of two lists of stages is that of the first, and that of the second on the state it leaves
  -- if and only if no stage of the first stopped or failed.
  pub run-append :
      (xs ys : List (Stage S)) (s : S)
      → run_member_join_pipeline (xs ++ ys) s ≡ then_run ys (run_member_join_pipeline xs s)
  unfolding run_member_join_pipeline
  run-append [] ys s = refl
  run-append (x ∷ xs) ys s =
      then_run-after_stage ys x.name (x.run s) _ _ (run-append xs ys (x.run s).0)

module _ (accepts : List Action → Action → Bool) (cfg : Thresholds) where
  stage-stops :
      (group : ResolvedGroupConfig) (super_admins : List ℕ) (self_id now : ℕ) (e : MemberJoinEvent)
      (h : Hall)
      → group.enabled ≡ true
      → group.auto_kick_blacklisted ≡ true
      → is_blacklisted h.state.blacklist e.user_id (some e.group_id) now ≡ true
      → let r = handle_blacklist_member_join accepts cfg group super_admins self_id now e h in
        (r.1 ≡ some stop) × (r.0.welcomed ≡ h.welcomed)
  unfolding handle_blacklist_member_join
  stage-stops group super_admins self_id now e h enabled removes listed = ground arith

  -- A blacklisted member of a group that removes such members is stopped at the first stage, whatever the
  -- provider answers and whatever the later stages would do: they change nothing, no welcome is sent.
  pub blacklisted-stopped :
      (intel welcome : MemberJoinEvent → Hall → Hall × Option StageResult)
      (group : ResolvedGroupConfig) (super_admins : List ℕ) (self_id now : ℕ) (e : MemberJoinEvent)
      (h : Hall)
      → e.user_id ≢ self_id
      → group.enabled ≡ true
      → group.auto_kick_blacklisted ≡ true
      → is_blacklisted h.state.blacklist e.user_id (some e.group_id) now ≡ true
      → let r = handle_member_join accepts cfg intel welcome group super_admins self_id now e h in
        (r.1 ≡ stopped "blacklist")
        × (r.0.welcomed ≡ h.welcomed)
        × (r.0 ≡ (handle_blacklist_member_join accepts cfg group super_admins self_id now e h).0)
  unfolding handle_member_join stages run_member_join_pipeline
  blacklisted-stopped intel welcome group super_admins self_id now e h other enabled removes
        listed =
      let (stops, silent) = stage-stops group super_admins self_id now e h enabled removes listed in
      let not_self : (e.user_id == self_id) ≡ false = ground (arith, ==_iff e.user_id self_id) in
      let stage = handle_blacklist_member_join accepts cfg group super_admins self_id now e h in
      if_cases
        (λ (r : Hall × PipelineResult).
          (r.1 ≡ stopped "blacklist") × (r.0.welcomed ≡ h.welcomed) × (r.0 ≡ stage.0))
        (e.user_id == self_id || not group.enabled) (λ ignores. absurd (ground arith))
        (λ _.
          subst
            (λ (r : Hall × PipelineResult).
              (r.1 ≡ stopped "blacklist") × (r.0.welcomed ≡ h.welcomed) × (r.0 ≡ stage.0))
            (sym (after_stage-stop "blacklist" stage _ stops)) (refl, silent, refl))
