-- ===== src/MemberJoin.antt =====
-- The admission of a member who joined: src/application/member-join.ts and src/modules/blacklist/index.ts.
pub mod Order
mod Tests
use qq_guardian.Base.{
  ℕ, Bool, true, false, ◌&&◌, ◌||◌, not, List, [], ◌∷◌, ◌++◌, Option, none, some, map, String, ◌==◌,
  if◌then◌else◌,
}
use qq_guardian.Moderation.Blacklist.{Reason, text, is_blacklisted}
use qq_guardian.Moderation.Service.{
  Action, State, Thresholds, RawActor, decimal, kick_user, check_and_reapply_on_join,
}
use qq_guardian.Approval.Group.{ResolvedGroupConfig}

pub data StageResult : Type 0 where
  proceed stop : StageResult

-- A stage; `none` is an exception.
pub record Stage {ℓ} (S : Type ℓ) : Type ℓ where
  pub name : String
  pub run : S → S × Option StageResult

pub data PipelineResult : Type 0 where
  completed ignored : PipelineResult
  stopped failed : String → PipelineResult

abbrev pub after_stage {ℓ} :
    {S : Type ℓ} → String → S × Option StageResult → S × PipelineResult → S × PipelineResult
after_stage name (s, none) rest = (s, failed name)
after_stage name (s, some stop) rest = (s, stopped name)
after_stage name (s, some proceed) rest = rest

unfoldable pub run_member_join_pipeline {ℓ} : {S : Type ℓ} → List (Stage S) → S → S × PipelineResult
run_member_join_pipeline [] s = (s, completed)
run_member_join_pipeline (x ∷ xs) s =
    let rest = run_member_join_pipeline xs (x.run s).0 in after_stage x.name (x.run s) rest

-- What the stages change: the moderation, and the messages sent, to whom and about which member and group.
pub record Hall : Type 0 where
  pub state : State
  pub notices : List (ℕ × (ℕ × ℕ))
  pub welcomed : List (ℕ × ℕ)

pub record MemberJoinEvent : Type 0 where
  pub group_id : ℕ
  pub user_id : ℕ

abbrev pub notify_join : List ℕ → MemberJoinEvent → Hall → Hall
notify_join super_admins e h = record h {
  notices = h.notices ++ map (λ admin. (admin, (e.user_id, e.group_id))) super_admins;
}

module _ (accepts : List Action → Action → Bool) (cfg : Thresholds) where
  -- A failed removal stops the pipeline too.
  unfoldable pub handle_blacklist_member_join :
      ResolvedGroupConfig
      → (super_admins : List ℕ) → (self_id now : ℕ) → MemberJoinEvent
      → Hall
      → Hall × Option StageResult
  handle_blacklist_member_join group super_admins self_id now e h =
      let notified =
        λ (g : Hall). if group.notify_on_join then notify_join super_admins e g else g in
      if not group.enabled
      then (h, some proceed)
      else if not group.auto_kick_blacklisted
          || not (is_blacklisted h.state.blacklist e.user_id (some e.group_id) now)
      then (notified h, some proceed)
      else let (s, p) =
          kick_user accepts cfg h.state e.group_id e.user_id (text "Blacklisted user")
            (decimal self_id) false now in
        (notified (record h { state = s }), some stop)

  abbrev pub stage_result : Option Bool → Option StageResult
  stage_result none = none
  stage_result (some true) = some stop
  stage_result (some false) = some proceed

  unfoldable pub punishment_stage :
      ResolvedGroupConfig → (self_id now : ℕ) → MemberJoinEvent → Hall → Hall × Option StageResult
  punishment_stage group self_id now e h =
      let (s, removed) =
        check_and_reapply_on_join accepts cfg h.state group.enabled (decimal self_id) e.group_id
          e.user_id now in
      (record h { state = s }, stage_result removed)

  -- The stages in order; those of the intelligence feed and of the welcome are given.
  unfoldable pub stages :
      (intel welcome : MemberJoinEvent → Hall → Hall × Option StageResult)
      → ResolvedGroupConfig
      → (super_admins : List ℕ) → (self_id now : ℕ) → MemberJoinEvent
      → List (Stage Hall)
  stages intel welcome group super_admins self_id now e =
      record {
        name = "blacklist";
        run = handle_blacklist_member_join group super_admins self_id now e;
      }
      ∷ record { name = "punishment"; run = punishment_stage group self_id now e }
      ∷ record { name = "intel"; run = intel e }
      ∷ record { name = "welcome"; run = welcome e }
      ∷ []

  unfoldable pub handle_member_join :
      (intel welcome : MemberJoinEvent → Hall → Hall × Option StageResult)
      → ResolvedGroupConfig
      → (super_admins : List ℕ) → (self_id now : ℕ) → MemberJoinEvent
      → Hall
      → Hall × PipelineResult
  handle_member_join intel welcome group super_admins self_id now e h =
      if e.user_id == self_id || not group.enabled
      then (h, ignored)
      else run_member_join_pipeline (stages intel welcome group super_admins self_id now e) h
