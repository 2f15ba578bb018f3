-- ===== src/Curfew/Sparing.antt =====
-- Groups that the scheduler does not manage, and the stop.
use qq_guardian.Base.{
  ℕ, ◌≡◌, refl, Bool, true, false, ◌&&◌, not, List, [], ◌∷◌, ◌++◌, Option, none, some, String,
  lookup, put, lookup-put, count_where, count_where-append, arith, ◌==◌, ==_iff, if_cases,
  Bool-cases, inl, inr, ◌∙◌, sym, subst,
}
use qq_guardian.Approval.Group.{PluginConfig, resolve_group_config}
use qq_guardian.Curfew.Scheduler.{
  Call, set_group_whole_ban, announce_start, announce_end, Scheduler, is_on, is_that, is_managed,
  desired_state, announced, apply_state, tick_group, tick,
}

-- The call mutes, unmutes or tells the group.
abbrev pub is_call_to : ℕ → Call → Bool
is_call_to g (set_group_whole_ban k enable) = k == g
is_call_to g (announce_start k until) = k == g
is_call_to g (announce_end k) = k == g

-- The group is not muted by the scheduler, and as many calls as in `s` were about it.
abbrev IsSpared : ℕ → Scheduler → Scheduler → Type 0
IsSpared g s s' =
    (is_on (lookup s.applied g) ≡ is_on (lookup s'.applied g))
    × (count_where (is_call_to g) s'.calls ≡ count_where (is_call_to g) s.calls)

module _ (accepts : List Call → Call → Bool) (current : List Call → Bool) (g : ℕ) where
  sent-calls :
      (xs : List Call) (c : Call)
      → is_call_to g c ≡ false
      → count_where (is_call_to g) (xs ++ c ∷ []) ≡ count_where (is_call_to g) xs
  sent-calls xs c other = ground (arith, count_where-append (is_call_to g) xs (c ∷ []))

  announced-IsSpared :
      (s : Scheduler) (group : ℕ) (enable : Bool) (previous : Option Bool) (until : String)
      → (group == g) ≡ false
      → IsSpared g s (announced accepts current s group enable previous until)
  announced-IsSpared s group true none until other = (refl, refl)
  announced-IsSpared s group true (some b) until other =
      (refl, sent-calls s.calls (announce_start group until) other)
  announced-IsSpared s group false (some true) until other =
      (refl, sent-calls s.calls (announce_end group) other)
  announced-IsSpared s group false (some false) until other = (refl, refl)
  announced-IsSpared s group false none until other = (refl, refl)

  apply_state-IsSpared :
      (s : Scheduler) (group : ℕ) (enable : Bool) (until : String)
      → (group == g) ≡ false
      → IsSpared g s (apply_state accepts current s group enable until)
  unfolding apply_state
  apply_state-IsSpared s group enable until other =
      let call = set_group_whole_ban group enable in
      let quiet = sent-calls s.calls call other in
      let kept : is_on (lookup s.applied g) ≡ is_on (lookup (put s.applied group enable) g) =
        ground (arith, lookup-put s.applied group enable g) in
      if_cases (λ (r : Scheduler). IsSpared g s r) (not (current s.calls)) (λ _. (refl, refl))
        (λ _.
          if_cases (λ (r : Scheduler). IsSpared g s r) (not (accepts s.calls call))
            (λ _. (refl, quiet))
            (λ _.
              if_cases (λ (r : Scheduler). IsSpared g s r) (not (current (s.calls ++ call ∷ [])))
                (λ _. (kept, quiet))
                (λ _.
                  let (same, said) =
                    announced-IsSpared _ group enable (lookup s.applied group) until other in
                  (kept ∙ same, said ∙ quiet))))

  tick_group-IsSpared :
      (s : Scheduler) (cfg : PluginConfig) (now id : ℕ)
      → is_managed (resolve_group_config cfg g) ≡ false
      → is_on (lookup s.applied g) ≡ false
      → IsSpared g s (tick_group accepts current s cfg now id)
  unfolding tick_group
  tick_group-IsSpared s cfg now id free off = elim (Bool-cases (id == g)) [
    | inl here ↦
        subst (λ k. IsSpared g s (tick_group accepts current s cfg now k))
          (sym ((==_iff id g).0 here))
          (if_cases (λ (r : Scheduler). IsSpared g s r)
            (not (is_managed (resolve_group_config cfg g)) && not (is_on (lookup s.applied g)))
            (λ _. (ground (arith, lookup-put s.applied g false g), refl))
            (λ no_one. absurd (ground arith)))
    | inr other ↦
        if_cases (λ (r : Scheduler). IsSpared g s r)
          (not (is_managed (resolve_group_config cfg id)) && not (is_on (lookup s.applied id)))
          (λ _. (ground (arith, lookup-put s.applied id false g), refl))
          (λ _.
            if_cases (λ (r : Scheduler). IsSpared g s r)
              (is_that (lookup s.applied id) (
                is_managed (resolve_group_config cfg id)
                && desired_state (resolve_group_config cfg id) now))
              (λ _. (refl, refl)) (λ _. apply_state-IsSpared s id _ _ other))
  ]

  -- A group with no curfew that the scheduler does not hold to be muted gets no call from any tick, no mute, no
  -- unmute and no message, whatever the provider does: a mute that a human set stays.
  pub tick-spares :
      (s : Scheduler) (cfg : PluginConfig) (now : ℕ) (ids : List ℕ)
      → is_managed (resolve_group_config cfg g) ≡ false
      → is_on (lookup s.applied g) ≡ false
      → count_where (is_call_to g) (tick accepts current s cfg now ids).calls
        ≡ count_where (is_call_to g) s.calls
  unfolding tick
  tick-spares s cfg now [] free off = refl
  tick-spares s cfg now (id ∷ ids) free off =
      let (same, quiet) = tick_group-IsSpared s cfg now id free off in
      if_cases
        (λ (r : Scheduler). count_where (is_call_to g) r.calls ≡ count_where (is_call_to g) s.calls)
        (current s.calls)
        (λ _.
          tick-spares (tick_group accepts current s cfg now id) cfg now ids free (sym same ∙ off)
          ∙ quiet)
        (λ _. refl)
