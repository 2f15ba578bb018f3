-- ===== src/Moderation/Lifting.antt =====
-- Revoking a punishment.
use qq_guardian.Base.{
  ℕ, ◌≡◌, refl, Bool, ◌&&◌, ◌||◌, not, List, [], ◌∷◌, ◌++◌, Option, none, some, arith, ◌==◌, any,
  select, if◌then◌else◌, ◌∙◌, ap,
}
use qq_guardian.Moderation.Records.{
  Punishment, Ledger, find_by_id, find_by_user, newest_first, insert_newest, is_of,
}
use qq_guardian.Moderation.Service.{
  Action, set_group_ban, State, Thresholds, RawActor, canonical_actor_id, call, revoke_record,
  revoke_punishment, is_active_mute,
}

any-insert :
    (q : Punishment → Bool) (p : Punishment) (ps : List Punishment)
    → any q (insert_newest p ps) ≡ (q p || any q ps)
any-insert q p [] = refl
any-insert q p (x ∷ ps) = ground (arith, any-insert q p ps)

-- The order of a query changes nothing in what it holds.
any-newest_first :
    (q : Punishment → Bool) (ps : List Punishment) → any q (newest_first ps) ≡ any q ps
unfolding newest_first
any-newest_first q [] = refl
any-newest_first q (p ∷ ps) =
    any-insert q p (newest_first ps) ∙ ap (λ b. q p || b) (any-newest_first q ps)

pub any-select :
    (q r : Punishment → Bool) (ps : List Punishment)
    → any q (select r ps) ≡ any (λ p. r p && q p) ps
any-select q r [] = refl
any-select q r (p ∷ ps) = ground (arith, any-select q r ps)

pub any-find_by_user :
    (q : Punishment → Bool) (l : Ledger) (user group : ℕ)
    → any q (find_by_user l user group) ≡ any (λ p. is_of group user p && q p) l.rows
unfolding find_by_user
any-find_by_user q l user group = any-newest_first q _ ∙ any-select q (is_of group user) l.rows

module _ (accepts : List Action → Action → Bool) (cfg : Thresholds) where
  -- Another mute of the same member that is still in force.
  abbrev pub other_mute : Ledger → Punishment → ℕ → Bool
  other_mute l p now =
      any (λ q. is_of p.group_id p.user_id q && (not (q.id == p.id) && is_active_mute now q)) l.rows

  -- A revocation of a known record that is not revoked calls the provider at most once, to unmute the
  -- member: exactly if the record is a mute in force and no other mute of the member is.
  pub revoke-unmutes_iff :
      (s : State) (id : ℕ) (operator : RawActor) (actor : Option ℕ) (now : ℕ) (p : Punishment)
      → canonical_actor_id operator ≡ some actor
      → find_by_id s.ledger id ≡ some p
      → p.revoked_at ≡ none
      → (revoke_punishment accepts cfg s id operator now).0.calls ≡ (
          if is_active_mute now p && not (other_mute s.ledger p now)
          then s.calls ++ (set_group_ban p.group_id p.user_id 0 ∷ [])
          else s.calls)
  unfolding revoke_punishment revoke_record call
  revoke-unmutes_iff s id operator actor now p canonical found fresh =
      let same =
        any-find_by_user (λ q. not (q.id == p.id) && is_active_mute now q) s.ledger p.user_id
          p.group_id in
      rw (canonical, found, fresh, revoke_punishment, revoke_record) ground (arith, same)
