-- ===== src/Curfew/Agreement.antt =====
-- The whole-group mutes that the calls of the scheduler leave, and what it holds to be applied.
use mathlib.Core.List.{append-nil, append_assoc}
use qq_guardian.Base.{
  ℕ, ◌≡◌, Bool, true, false, ◌&&◌, not, List, [], ◌∷◌, ◌++◌, Option, none, some, String, lookup,
  put, lookup-put, arith, ◌==◌, ==_iff, if_cases, if◌then◌else◌, ◌∙◌, sym, Bool-cases, inl, inr, ap,
}
use qq_guardian.Approval.Group.{PluginConfig, resolve_group_config}
use qq_guardian.Curfew.Scheduler.{
  Call, set_group_whole_ban, announce_start, announce_end, Scheduler, is_on, is_that, is_managed,
  desired_state, announced, apply_state, tick_group, tick,
}

-- Whether the group is muted after a call that was answered.
abbrev ban_after : ℕ → Call → Bool → Bool
ban_after g (set_group_whole_ban k enable) b = if k == g then enable else b
ban_after g (announce_start k until) b = b
ban_after g (announce_end k) b = b

module _ (accepts : List Call → Call → Bool) (g : ℕ) where
  abbrev muted_from : (before : List Call) → Bool → List Call → Bool
  muted_from before b [] = b
  muted_from before b (c ∷ cs) =
      muted_from (before ++ c ∷ []) (if accepts before c then ban_after g c b else b) cs

  -- Whether the group is muted after the calls, of which those count that the provider answered. `b` tells
  -- whether it was muted before.
  abbrev pub is_muted : (b : Bool) → List Call → Bool
  is_muted b calls = muted_from [] b calls

  muted_from-snoc :
      (before : List Call) (b : Bool) (cs : List Call) (c : Call)
      → muted_from before b (cs ++ c ∷ []) ≡ (
          if accepts (before ++ cs) c
          then ban_after g c (muted_from before b cs)
          else muted_from before b cs)
  muted_from-snoc before b [] c =
      ap (λ xs. if accepts xs c then ban_after g c b else b) (sym (append-nil before))
  muted_from-snoc before b (x ∷ cs) c =
      muted_from-snoc (before ++ x ∷ []) _ cs c
      ∙ ap
          (λ xs.
            if accepts xs c
            then ban_after g c (muted_from before b (x ∷ cs))
            else muted_from before b (x ∷ cs))
          (append_assoc before (x ∷ []) cs)

  module _ (current : List Call → Bool) (b : Bool) where
    -- The group is muted by the calls made if and only if the scheduler holds it to be.
    abbrev pub Agrees : Scheduler → Type 0
    Agrees s = is_muted b s.calls ≡ is_on (lookup s.applied g)

    announced-Agrees :
        (s : Scheduler) (group : ℕ) (enable : Bool) (previous : Option Bool) (until : String)
        → Agrees s
        → Agrees (announced accepts current s group enable previous until)
    announced-Agrees s group true none until h = h
    announced-Agrees s group true (some p) until h =
        muted_from-snoc [] b s.calls (announce_start group until)
        ∙ if_cases (λ x. x ≡ is_on (lookup s.applied g)) _ (λ _. h) (λ _. h)
    announced-Agrees s group false (some true) until h =
        muted_from-snoc [] b s.calls (announce_end group)
        ∙ if_cases (λ x. x ≡ is_on (lookup s.applied g)) _ (λ _. h) (λ _. h)
    announced-Agrees s group false (some false) until h = h
    announced-Agrees s group false none until h = h

    apply_state-Agrees :
        (s : Scheduler) (group : ℕ) (enable : Bool) (until : String)
        → Agrees s
        → Agrees (apply_state accepts current s group enable until)
    unfolding apply_state
    apply_state-Agrees s group enable until h =
        let call = set_group_whole_ban group enable in
        let next = muted_from-snoc [] b s.calls call in
        if_cases Agrees (not (current s.calls)) (λ _. h)
          (λ _. elim (Bool-cases (accepts s.calls call)) [
            | inr refused ↦ rw refused (next ∙ (rw refused h))
            | inl taken ↦
                let done : is_muted b (s.calls ++ call ∷ [])
                    ≡ is_on (lookup (put s.applied group enable) g) =
                  next ∙ (ground (arith, lookup-put s.applied group enable g)) in
                rw taken (
                  if_cases Agrees (not (current (s.calls ++ call ∷ []))) (λ _. done)
                    (λ _. announced-Agrees _ group enable (lookup s.applied group) until done))
          ])

    tick_group-Agrees :
        (s : Scheduler) (cfg : PluginConfig) (now id : ℕ)
        → Agrees s
        → Agrees (tick_group accepts current s cfg now id)
    unfolding tick_group
    tick_group-Agrees s cfg now id h =
        let group = resolve_group_config cfg id in
        if_cases Agrees (not (is_managed group) && not (is_on (lookup s.applied id)))
          (λ free. h ∙ (ground (arith, lookup-put s.applied id false g, ==_iff id g)))
          (λ _.
            if_cases Agrees
              (is_that (lookup s.applied id) (is_managed group && desired_state group now)) (λ _. h)
              (λ _. apply_state-Agrees s id _ _ h))

    pub tick-Agrees :
        (s : Scheduler) (cfg : PluginConfig) (now : ℕ) (ids : List ℕ)
        → Agrees s
        → Agrees (tick accepts current s cfg now ids)
    unfolding tick
    tick-Agrees s cfg now [] h = h
    tick-Agrees s cfg now (id ∷ ids) h =
        if_cases Agrees (current s.calls)
          (λ _.
            tick-Agrees (tick_group accepts current s cfg now id) cfg now ids
              (tick_group-Agrees s cfg now id h))
          (λ _. h)
