-- ===== src/Curfew/Ticks.antt =====
-- What the groups are after a tick, and which calls it makes.
use qq_guardian.Base.{
  ℕ, ◌≡◌, refl, Bool, true, false, ◌&&◌, ◌||◌, not, List, [], ◌∷◌, ◌++◌, Option, none, some, String,
  if◌then◌else◌, lookup, put, lookup-put, any, arith, ◌==◌, ==_iff, if_cases, ◌∙◌, ap, sym,
}
use qq_guardian.Approval.Group.{PluginConfig, resolve_group_config}
use qq_guardian.Curfew.Agreement.{is_muted, tick-Agrees}
use qq_guardian.Curfew.Scheduler.{
  Call, set_group_whole_ban, Scheduler, is_on, is_that, is_managed, desired_state, announced,
  apply_state, tick_group, tick,
}

-- The state that a group is to have: muted inside the window of a curfew that the configuration manages.
abbrev pub wanted : PluginConfig → (now_minutes group : ℕ) → Bool
wanted cfg now id =
    let group = resolve_group_config cfg id in is_managed group && desired_state group now

-- The provider answers every call, and no stop comes in.
abbrev pub Always : (List Call → Call → Bool) → (List Call → Bool) → Type 0
Always accepts current =
    ((before : List Call) (c : Call) → accepts before c ≡ true)
    × ((before : List Call) → current before ≡ true)

one_more :
    (f : ℕ → Bool) (id i : ℕ) (b : Bool) (x y : Option Bool)
    → x ≡ (if id == i then some (f id) else y)
    → (if b then some (f i) else x) ≡ (if (id == i) || b then some (f i) else y)
one_more f id i b x y e = ground (arith, ==_iff id i, λ (h : id ≡ i). ap f h)

put-same : (m : List (ℕ × Bool)) (k : ℕ) (b : Bool) → lookup m k ≡ some b → put m k b ≡ m
put-same [] k b e = absurd (cc)
put-same ((j, c) ∷ m) k b e = ground (arith, put-same m k b)

module _ (accepts : List Call → Call → Bool) (current : List Call → Bool) where
  announced-applied :
      (s : Scheduler) (group : ℕ) (enable : Bool) (previous : Option Bool) (until : String)
      → (announced accepts current s group enable previous until).applied ≡ s.applied
  announced-applied s group true none until = refl
  announced-applied s group true (some b) until = refl
  announced-applied s group false (some true) until = refl
  announced-applied s group false (some false) until = refl
  announced-applied s group false none until = refl

  apply_state-lookup :
      (s : Scheduler) (group : ℕ) (enable : Bool) (until : String) (i : ℕ)
      → Always accepts current
      → lookup (apply_state accepts current s group enable until).applied i
        ≡ (if group == i then some enable else lookup s.applied i)
  unfolding apply_state
  apply_state-lookup s group enable until i (answers, stays) =
      rw
        (
          stays s.calls,
          answers s.calls (set_group_whole_ban group enable),
          stays (s.calls ++ set_group_whole_ban group enable ∷ []),
        )
        (ap (λ m. lookup m i) (announced-applied _ group enable (lookup s.applied group) until)
          ∙ lookup-put s.applied group enable i)

  is_that_iff : (o : Option Bool) (b : Bool) → is_that o b ≡ true → o ≡ some b
  is_that_iff none b e = absurd (cc)
  is_that_iff (some true) true e = refl
  is_that_iff (some false) false e = refl
  is_that_iff (some true) false e = absurd (cc)
  is_that_iff (some false) true e = absurd (cc)

  not_that : (o : Option Bool) (b : Bool) → o ≡ some b → is_that o b ≡ false → ⊥
  not_that none b e n = cc
  not_that (some true) true e n = cc
  not_that (some false) false e n = cc
  not_that (some true) false e n = cc
  not_that (some false) true e n = cc

  tick_group-lookup :
      (s : Scheduler) (cfg : PluginConfig) (now id i : ℕ)
      → Always accepts current
      → lookup (tick_group accepts current s cfg now id).applied i
        ≡ (if id == i then some (wanted cfg now id) else lookup s.applied i)
  unfolding tick_group
  tick_group-lookup s cfg now id i always =
      let group = resolve_group_config cfg id in
      if_cases
        (λ (r : Scheduler).
          lookup r.applied i ≡ (if id == i then some (wanted cfg now id) else lookup s.applied i))
        (not (is_managed group) && not (is_on (lookup s.applied id)))
        (λ free. ground (arith, lookup-put s.applied id false i))
        (λ _.
          if_cases
            (λ (r : Scheduler).
              lookup r.applied i
              ≡ (if id == i then some (wanted cfg now id) else lookup s.applied i))
            (is_that (lookup s.applied id) (wanted cfg now id))
            (λ there.
              ground
                (arith, is_that_iff (lookup s.applied id) (wanted cfg now id) there, ==_iff id i))
            (λ _. apply_state-lookup s id (wanted cfg now id) group.curfew_end i always))

  tick-lookup :
      (s : Scheduler) (cfg : PluginConfig) (now : ℕ) (ids : List ℕ) (i : ℕ)
      → Always accepts current
      → lookup (tick accepts current s cfg now ids).applied i
        ≡ (if any (λ k. k == i) ids then some (wanted cfg now i) else lookup s.applied i)
  unfolding tick
  tick-lookup s cfg now [] i always = refl
  tick-lookup s cfg now (id ∷ ids) i always = rw (always.1 s.calls) (
      tick-lookup (tick_group accepts current s cfg now id) cfg now ids i always
      ∙ one_more (wanted cfg now) id i (any (λ k. k == i) ids) _ _
          (tick_group-lookup s cfg now id i always))

  -- A group that has the state it is to have is left alone.
  tick_group-settled :
      (s : Scheduler) (cfg : PluginConfig) (now id : ℕ)
      → lookup s.applied id ≡ some (wanted cfg now id)
      → tick_group accepts current s cfg now id ≡ s
  unfolding tick_group
  tick_group-settled s cfg now id there =
      let group = resolve_group_config cfg id in
      if_cases (λ (r : Scheduler). r ≡ s)
        (not (is_managed group) && not (is_on (lookup s.applied id)))
        (λ free.
          let same : put s.applied id false ≡ s.applied =
            put-same s.applied id false (there ∙ ap some (ground arith)) in
          ap (λ m. record s { applied = m }) same)
        (λ _.
          if_cases (λ (r : Scheduler). r ≡ s) (is_that (lookup s.applied id) (wanted cfg now id))
            (λ _. refl)
            (λ moves. absurd (not_that (lookup s.applied id) (wanted cfg now id) there moves)))

  tick-settled :
      (s : Scheduler) (cfg : PluginConfig) (now : ℕ) (ids : List ℕ)
      → ((i : ℕ) → any (λ k. k == i) ids ≡ true → lookup s.applied i ≡ some (wanted cfg now i))
      → tick accepts current s cfg now ids ≡ s
  unfolding tick
  tick-settled s cfg now [] h = refl
  tick-settled s cfg now (id ∷ ids) h =
      if_cases (λ (r : Scheduler). r ≡ s) (current s.calls)
        (λ _.
          rw (tick_group-settled s cfg now id (h id (ground (arith, ==_iff id id))))
            (tick-settled s cfg now ids (λ i e. h i (ground arith))))
        (λ _. refl)

chosen : (b : Bool) (x y : Option Bool) → b ≡ true → (if b then x else y) ≡ x
chosen true x y e = refl
chosen false x y e = absurd (cc)

-- If the provider answers and no stop comes in, a tick over the groups of the configuration leaves each of
-- them muted or not, by the calls made, as it is to be, if it was muted before (which `muted` tells) exactly
-- when the scheduler holds it to be; the scheduler holds it to be so. While no window of a curfew begins or
-- ends, a further tick changes nothing and makes no call, whatever the provider does then.
pub tick-settles :
    (accepts : List Call → Call → Bool) (current : List Call → Bool) (s : Scheduler)
    (cfg : PluginConfig) (now : ℕ) (ids : List ℕ) (id : ℕ) (muted : Bool)
    (accepts' : List Call → Call → Bool) (current' : List Call → Bool) (later : ℕ)
    → Always accepts current
    → any (λ k. k == id) ids ≡ true
    → is_muted accepts id muted s.calls ≡ is_on (lookup s.applied id)
    → ((i : ℕ) → wanted cfg later i ≡ wanted cfg now i)
    → let s' = tick accepts current s cfg now ids in
      (is_muted accepts id muted s'.calls ≡ wanted cfg now id)
      × (lookup s'.applied id ≡ some (wanted cfg now id))
      × (tick accepts' current' s' cfg later ids ≡ s')
tick-settles accepts current s cfg now ids id muted accepts' current' later always listed agrees
      same =
    let reached : (i : ℕ)
        → any (λ k. k == i) ids ≡ true
        → lookup (tick accepts current s cfg now ids).applied i ≡ some (wanted cfg now i) =
      λ i e.
        tick-lookup accepts current s cfg now ids i always ∙ chosen (any (λ k. k == i) ids) _ _ e in
    (
      tick-Agrees accepts id current muted s cfg now ids agrees ∙ ap is_on (reached id listed),
      reached id listed,
      tick-settled accepts' current' (tick accepts current s cfg now ids) cfg later ids
          (λ i e. reached i e ∙ ap some (sym (same i))),
    )
