-- ===== src/Moderation/Escalation.antt =====
-- Escalation after a mute or a kick, and calls that the provider refuses.
use qq_guardian.Base.{
  ℕ, ◌<◌, ◌≡◌, Bool, true, false, ◌||◌, List, [], ◌∷◌, ◌++◌, Option, none, some, arith, ltb, ◌==◌,
  Option-cases, inl, inr, sym, ◌⊎◌, if_cases, count_where-append, subst,
}
use qq_guardian.Moderation.Blacklist.{Blacklist, Reason, auto_kick, is_blacklisted, add}
use qq_guardian.Moderation.Listing.{add-listed}
use qq_guardian.Moderation.Records.{
  Punishment, kick, create, count_active_kicks, count_active_punishments, is_active_kick_of,
  new_punishment,
}
use qq_guardian.Moderation.Service.{
  Action, set_group_kick, auto_kicked, audit, State, Thresholds, RawActor, canonical_actor_id,
  auto_addition, call, mute_locked, kick_locked, maybe_blacklist_locked, escalate_kick,
  check_escalation_locked, mute_user, kick_user,
}

-- The user is on the group's blacklist if the active kicks reach the threshold.
abbrev pub BlacklistEscalated : Thresholds → State → (group user now : ℕ) → Type 0
BlacklistEscalated cfg s group user now =
    (cfg.escalate_to_blacklist_after ≡ 0)
    ⊎ (count_active_kicks s.ledger user group now < cfg.escalate_to_blacklist_after)
    ⊎ (is_blacklisted s.blacklist user (some group) now ≡ true)

-- There is an active kick if the active punishments reach the threshold.
abbrev pub KickEscalated : Thresholds → State → (group user now : ℕ) → Type 0
KickEscalated cfg s group user now =
    (cfg.escalate_to_kick_after ≡ 0)
    ⊎ (count_active_punishments s.ledger user group now < cfg.escalate_to_kick_after)
    ⊎ (0 < count_active_kicks s.ledger user group now)

module _ (accepts : List Action → Action → Bool) (cfg : Thresholds) where
  auto_added :
      (b : Blacklist) (group user kicks : ℕ) (actor : Option ℕ) (now : ℕ)
      → is_blacklisted (add b (auto_addition group user kicks actor) now).0 user (some group) now
        ≡ true
  unfolding is_blacklisted
  auto_added b group user kicks actor now =
      ground (arith, add-listed b (auto_addition group user kicks actor) now user (some group) now)

  maybe_blacklist-escalated :
      (s : State) (group user : ℕ) (actor : Option ℕ) (now : ℕ)
      → BlacklistEscalated cfg
          (maybe_blacklist_locked accepts cfg s group user actor now).0
          group
          user
          now
  unfolding maybe_blacklist_locked
  maybe_blacklist-escalated s group user actor now = ground (
    arith,
    auto_added s.blacklist group user (count_active_kicks s.ledger user group now) actor now,
  )

  -- A kick that is recorded counts as an active kick.
  kick_locked-counted :
      (s : State) (group user : ℕ) (reason : Reason) (actor : Option ℕ) (reject : Bool) (now : ℕ)
      (p : Punishment)
      → (kick_locked accepts cfg s group user reason actor reject now).1 ≡ some p
      → 0
        < count_active_kicks
            (kick_locked accepts cfg s group user reason actor reject now).0.ledger
            user
            group
            now
  unfolding kick_locked create call count_active_kicks
  kick_locked-counted s group user reason actor reject now p e = ground (
    arith,
    count_where-append (is_active_kick_of group user now) s.ledger.rows
        (new_punishment s.ledger.next_id group user kick none reason actor now ∷ []),
  )

  -- The blacklist check leaves the punishments alone.
  maybe_blacklist-ledger :
      (s : State) (group user : ℕ) (actor : Option ℕ) (now : ℕ)
      → (maybe_blacklist_locked accepts cfg s group user actor now).0.ledger ≡ s.ledger
  unfolding maybe_blacklist_locked
  maybe_blacklist-ledger s group user actor now = ground arith

  -- It answers `true` only with a kick on record.
  maybe_blacklist-kicked :
      (s : State) (group user : ℕ) (actor : Option ℕ) (now : ℕ)
      → (maybe_blacklist_locked accepts cfg s group user actor now).1 ≡ true
      → 0 < count_active_kicks s.ledger user group now
  unfolding maybe_blacklist_locked
  maybe_blacklist-kicked s group user actor now h = ground arith

  -- The provider takes every kick.
  abbrev pub TakesKicks : Type 0
  TakesKicks =
      (before : List Action) (group user : ℕ) (reject : Bool)
      → accepts before (set_group_kick group user reject) ≡ true

  Escalated : State → ℕ → ℕ → ℕ → Type 0
  Escalated s group user now =
      BlacklistEscalated cfg s group user now × (TakesKicks → KickEscalated cfg s group user now)

  kick_locked-refused :
      (s : State) (group user : ℕ) (reason : Reason) (actor : Option ℕ) (reject : Bool) (now : ℕ)
      → (kick_locked accepts cfg s group user reason actor reject now).1 ≡ none
      → ((kick_locked accepts cfg s group user reason actor reject now).0
          ≡ record s { calls = s.calls ++ (set_group_kick group user reject ∷ []) })
        × (accepts s.calls (set_group_kick group user reject) ≡ false)
  unfolding kick_locked call
  kick_locked-refused s group user reason actor reject now e = (ground arith, ground arith)

  escalate_kick-Escalated :
      (s : State) (group user count : ℕ) (actor : Option ℕ) (now : ℕ)
      → BlacklistEscalated cfg s group user now
      → Escalated (escalate_kick accepts cfg s group user count actor now) group user now
  unfolding escalate_kick Escalated
  escalate_kick-Escalated s group user count actor now h =
      let r = kick_locked accepts cfg s group user (auto_kick count) actor false now in
      elim (Option-cases r.1) [
        | inl refused ↦
            let (same, denied) =
              kick_locked-refused s group user (auto_kick count) actor false now refused in
            rw (refused, escalate_kick)
              (rw same h, λ takes. absurd (let t = takes s.calls group user false in cc))
        | inr (p, taken) ↦
            let kicked =
              kick_locked-counted s group user (auto_kick count) actor false now p taken in
            let after = audit r.0 (auto_kicked group user count cfg.escalate_to_kick_after actor) in
            rw (taken, escalate_kick)
              (
                maybe_blacklist-escalated after group user actor now,
                λ _. inr (
                    inr (
                      subst (λ l. 0 < count_active_kicks l user group now)
                        (sym (maybe_blacklist-ledger after group user actor now)) kicked)),
              )
      ]

  check_escalation-Escalated :
      (s : State) (group user : ℕ) (actor : Option ℕ) (now : ℕ)
      → Escalated (check_escalation_locked accepts cfg s group user actor now) group user now
  unfolding check_escalation_locked Escalated
  check_escalation-Escalated s group user actor now =
      let m = maybe_blacklist_locked accepts cfg s group user actor now in
      let listed_now = maybe_blacklist-escalated s group user actor now in
      let count = count_active_punishments m.0.ledger user group now in
      if_cases (λ s'. Escalated s' group user now)
        (m.1
          || cfg.escalate_to_kick_after == 0
          || ltb count cfg.escalate_to_kick_after
          || ltb 0 (count_active_kicks m.0.ledger user group now))
        (λ stops. (listed_now, λ _. by_test stops))
        (λ _. escalate_kick-Escalated m.0 group user count actor now listed_now)
    where
      by_test :
          let m = maybe_blacklist_locked accepts cfg s group user actor now in
          (m.1
              || cfg.escalate_to_kick_after == 0
              || ltb (count_active_punishments m.0.ledger user group now) cfg.escalate_to_kick_after
              || ltb 0 (count_active_kicks m.0.ledger user group now))
            ≡ true
          → KickEscalated cfg m.0 group user now
      by_test h = ground (
        arith,
        maybe_blacklist-kicked s group user actor now,
        maybe_blacklist-ledger s group user actor now,
      )

-- A mute or a kick by a command or the WebUI.
pub data Penalty : Type 0 where
  mute_for : (seconds : ℕ) → Penalty
  kick_out : (reject_future : Bool) → Penalty

module _ (accepts : List Action → Action → Bool) (cfg : Thresholds) where
  unfoldable pub punish :
      State → (group user : ℕ) → Reason → RawActor → ℕ → Penalty → State × Option Punishment
  punish s group user reason operator now (mute_for seconds) =
      mute_user accepts cfg s group user seconds reason operator now
  punish s group user reason operator now (kick_out reject) =
      kick_user accepts cfg s group user reason operator reject now

  punish-Escalated :
      (s : State) (group user : ℕ) (reason : Reason) (operator : RawActor) (now : ℕ)
      (penalty : Penalty) (p : Punishment)
      → (punish s group user reason operator now penalty).1 ≡ some p
      → Escalated accepts cfg (punish s group user reason operator now penalty).0 group user now
  unfolding punish mute_user kick_user
  punish-Escalated s group user reason operator now (mute_for seconds) p =
      elim (Option-cases (canonical_actor_id operator)) [
        | inl bad ↦ rw (bad, mute_user) (λ e. absurd (cc))
        | inr (actor, good) ↦
            let r = mute_locked accepts cfg s group user seconds reason actor now in
            rw (good, mute_user)
              (elim (Option-cases r.1) [
                | inl refused ↦ rw refused (λ e. absurd (cc))
                | inr (q, taken) ↦
                    rw taken (λ _. check_escalation-Escalated accepts cfg r.0 group user actor now)
              ])
      ]
  punish-Escalated s group user reason operator now (kick_out reject) p =
      elim (Option-cases (canonical_actor_id operator)) [
        | inl bad ↦ rw (bad, kick_user) (λ e. absurd (cc))
        | inr (actor, good) ↦
            let r = kick_locked accepts cfg s group user reason actor reject now in
            rw (good, kick_user)
              (elim (Option-cases r.1) [
                | inl refused ↦ rw refused (λ e. absurd (cc))
                | inr (q, taken) ↦
                    rw taken (λ _. check_escalation-Escalated accepts cfg r.0 group user actor now)
              ])
      ]

  -- After a mute or a kick that succeeded, a user whose active kicks reach the threshold of the
  -- blacklist (if it is not 0) is on the group's blacklist, whatever the provider answered since.
  pub punish-BlacklistEscalated :
      (s : State) (group user : ℕ) (reason : Reason) (operator : RawActor) (now : ℕ)
      (penalty : Penalty) (p : Punishment)
      → (punish s group user reason operator now penalty).1 ≡ some p
      → BlacklistEscalated cfg (punish s group user reason operator now penalty).0 group user now
  unfolding Escalated
  punish-BlacklistEscalated s group user reason operator now penalty p e =
      (punish-Escalated s group user reason operator now penalty p e).0

  -- If moreover the provider takes every kick, a user whose active punishments reach the threshold of
  -- the automatic kick (if it is not 0) has an active kick on record.
  pub punish-KickEscalated :
      (s : State) (group user : ℕ) (reason : Reason) (operator : RawActor) (now : ℕ)
      (penalty : Penalty) (p : Punishment)
      → TakesKicks accepts cfg
      → (punish s group user reason operator now penalty).1 ≡ some p
      → KickEscalated cfg (punish s group user reason operator now penalty).0 group user now
  unfolding Escalated
  punish-KickEscalated s group user reason operator now penalty p takes e =
      (punish-Escalated s group user reason operator now penalty p e).1 takes

  -- What a state records, apart from the calls that were made.
  abbrev pub SameRecords : State → State → Type 0
  SameRecords s s' =
      (s'.ledger ≡ s.ledger)
      × (s'.blacklist ≡ s.blacklist)
      × (s'.audits ≡ s.audits)
      × (s'.counted ≡ s.counted)

  -- A mute or a kick that the provider refuses, or whose operator id is malformed, throws and records
  -- nothing: no punishment, no blacklist entry, no audit event and no count.
  pub punish-refused :
      (s : State) (group user : ℕ) (reason : Reason) (operator : RawActor) (now : ℕ)
      (penalty : Penalty)
      → (punish s group user reason operator now penalty).1 ≡ none
      → SameRecords s (punish s group user reason operator now penalty).0
  unfolding punish mute_user kick_user mute_locked kick_locked call
  punish-refused s group user reason operator now (mute_for seconds) e = ground arith
  punish-refused s group user reason operator now (kick_out reject) e = ground arith
