-- ===== src/Moderation/Calls.antt =====
-- The calls that a punishment makes.
use mathlib.Core.List.{append-nil}
use qq_guardian.Base.{
  ℕ, ◌≡◌, refl, Bool, false, ◌&&◌, ◌||◌, not, List, [], ◌∷◌, ◌++◌, Option, some, ltb, leb, ◌==◌,
  Option-cases, inl, inr, if_cases, ap, sym, ◌∙◌,
}
use qq_guardian.Moderation.Blacklist.{Reason, auto_kick, is_blacklisted}
use qq_guardian.Moderation.Records.{Punishment, count_active_punishments, count_active_kicks}
use qq_guardian.Moderation.Service.{
  Action, set_group_ban, set_group_kick, State, Thresholds, RawActor, canonical_actor_id, call,
  mute_locked, kick_locked, maybe_blacklist_locked, escalate_kick, check_escalation_locked,
  mute_user, kick_user,
}

-- The calls of a state are the ones given, and more.
abbrev pub Extends : List Action → State → Type 0
Extends before s = (rest : List Action) × (s.calls ≡ before ++ rest)

module _ (accepts : List Action → Action → Bool) (cfg : Thresholds) where
  maybe_blacklist-calls :
      (s : State) (group user : ℕ) (actor : Option ℕ) (now : ℕ)
      → (maybe_blacklist_locked accepts cfg s group user actor now).0.calls ≡ s.calls
  unfolding maybe_blacklist_locked
  maybe_blacklist-calls s group user actor now =
      if_cases (λ (r : State × Bool). r.0.calls ≡ s.calls) (cfg.escalate_to_blacklist_after == 0)
        (λ _. refl)
        (λ _.
          if_cases (λ (r : State × Bool). r.0.calls ≡ s.calls)
            (leb cfg.escalate_to_blacklist_after (count_active_kicks s.ledger user group now)
              && not (is_blacklisted s.blacklist user (some group) now))
            (λ _. refl) (λ _. refl))

  kick_locked-calls :
      (s : State) (group user : ℕ) (reason : Reason) (actor : Option ℕ) (future : Bool) (now : ℕ)
      → (kick_locked accepts cfg s group user reason actor future now).0.calls
        ≡ s.calls ++ set_group_kick group user future ∷ []
  unfolding kick_locked call
  kick_locked-calls s group user reason actor future now =
      if_cases
        (λ (r : State × Option Punishment).
          r.0.calls ≡ s.calls ++ set_group_kick group user future ∷ [])
        (accepts s.calls (set_group_kick group user future)) (λ _. refl) (λ _. refl)

  mute_locked-calls :
      (s : State) (group user seconds : ℕ) (reason : Reason) (actor : Option ℕ) (now : ℕ)
      → (mute_locked accepts cfg s group user seconds reason actor now).0.calls
        ≡ s.calls ++ set_group_ban group user seconds ∷ []
  unfolding mute_locked call
  mute_locked-calls s group user seconds reason actor now =
      if_cases
        (λ (r : State × Option Punishment).
          r.0.calls ≡ s.calls ++ set_group_ban group user seconds ∷ [])
        (accepts s.calls (set_group_ban group user seconds)) (λ _. refl) (λ _. refl)

  escalate_kick-Extends :
      (s : State) (group user count : ℕ) (actor : Option ℕ) (now : ℕ)
      → Extends s.calls (escalate_kick accepts cfg s group user count actor now)
  unfolding escalate_kick
  escalate_kick-Extends s group user count actor now =
      let kicked = kick_locked-calls s group user (auto_kick count) actor false now in
      (
        set_group_kick group user false ∷ [],
        elim (Option-cases
            (kick_locked accepts cfg s group user (auto_kick count) actor false now).1) [
              | inl refused ↦ rw (refused, escalate_kick) kicked
              | inr (p, taken) ↦
                  rw (taken, escalate_kick) (maybe_blacklist-calls _ group user actor now ∙ kicked)
            ],
      )

  check_escalation-Extends :
      (s : State) (group user : ℕ) (actor : Option ℕ) (now : ℕ)
      → Extends s.calls (check_escalation_locked accepts cfg s group user actor now)
  unfolding check_escalation_locked
  check_escalation-Extends s group user actor now =
      let (s', blacklisted) = maybe_blacklist_locked accepts cfg s group user actor now in
      let same : s'.calls ≡ s.calls = maybe_blacklist-calls s group user actor now in
      let count = count_active_punishments s'.ledger user group now in
      let (rest, e) = escalate_kick-Extends s' group user count actor now in
      if_cases (Extends s.calls)
        (blacklisted
          || cfg.escalate_to_kick_after == 0
          || ltb count cfg.escalate_to_kick_after
          || ltb 0 (count_active_kicks s'.ledger user group now))
        (λ _. ([], same ∙ sym (append-nil s.calls))) (λ _. (rest, e ∙ ap (λ xs. xs ++ rest) same))

  -- A mute or a kick by a valid actor asks the provider for it first, whatever follows.
  pub mute_user-Extends :
      (s : State) (group user seconds : ℕ) (reason : Reason) (operator : RawActor)
      (actor : Option ℕ) (now : ℕ)
      → canonical_actor_id operator ≡ some actor
      → Extends
          (s.calls ++ set_group_ban group user seconds ∷ [])
          (mute_user accepts cfg s group user seconds reason operator now).0
  unfolding mute_user
  mute_user-Extends s group user seconds reason operator actor now valid =
      let asked = mute_locked-calls s group user seconds reason actor now in
      let s' = (mute_locked accepts cfg s group user seconds reason actor now).0 in
      elim (Option-cases (mute_locked accepts cfg s group user seconds reason actor now).1) [
        | inl refused ↦
            rw (valid, refused, mute_user)
              ([], asked ∙ sym (append-nil (s.calls ++ set_group_ban group user seconds ∷ [])))
        | inr (p, taken) ↦
            let (rest, e) = check_escalation-Extends s' group user actor now in
            rw (valid, taken, mute_user) (rest, e ∙ ap (λ xs. xs ++ rest) asked)
      ]

  pub kick_user-Extends :
      (s : State) (group user : ℕ) (reason : Reason) (operator : RawActor) (future : Bool)
      (actor : Option ℕ) (now : ℕ)
      → canonical_actor_id operator ≡ some actor
      → Extends
          (s.calls ++ set_group_kick group user future ∷ [])
          (kick_user accepts cfg s group user reason operator future now).0
  unfolding kick_user
  kick_user-Extends s group user reason operator future actor now valid =
      let asked = kick_locked-calls s group user reason actor future now in
      let s' = (kick_locked accepts cfg s group user reason actor future now).0 in
      elim (Option-cases (kick_locked accepts cfg s group user reason actor future now).1) [
        | inl refused ↦
            rw (valid, refused, kick_user)
              ([], asked ∙ sym (append-nil (s.calls ++ set_group_kick group user future ∷ [])))
        | inr (p, taken) ↦
            let (rest, e) = check_escalation-Extends s' group user actor now in
            rw (valid, taken, kick_user) (rest, e ∙ ap (λ xs. xs ++ rest) asked)
      ]
