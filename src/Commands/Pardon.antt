-- ===== src/Commands/Pardon.antt =====
-- A pardon by the command `unban`.
use qq_guardian.Base.{
  count_where, count_where-append, String, ℕ, ◌≡◌, ◌≢◌, refl, Bool, true, false, ◌&&◌, ◌||◌, not,
  List, [], ◌∷◌, Option, none, some, arith, ◌==◌, ==_iff, any, find, select, if_cases, All, All-map,
  Option-cases, inl, inr, ◌∙◌,
}
use qq_guardian.Moderation.Records.{
  Punishment, Ledger, is_of, is_kick, is_mute, is_active, find_by_user, revoke,
}
use qq_guardian.Moderation.Lifting.{any-find_by_user, any-select}
use qq_guardian.Moderation.Service.{
  Action, set_group_kick, set_group_ban, remaining_seconds, State, Thresholds, RawActor, remute,
  call, check_and_reapply_on_join,
}
use qq_guardian.Moderation.Blacklist.{Reason, Blacklist, is_blacklisted, remove}
use qq_guardian.Moderation.Listing.{listed, remove-listed}
use qq_guardian.Commands.Actions.{run_action}
use qq_guardian.Commands.{unban, revoke_each, is_unrevoked_kick}

-- A kick of the user in the group that is not revoked.
abbrev pub is_standing_kick : (group user : ℕ) → Punishment → Bool
is_standing_kick group user p = is_of group user p && is_unrevoked_kick p

abbrev is_named : List Punishment → Punishment → Bool
is_named ps r = any (λ (p : Punishment). p.id == r.id) ps

-- Revoking a record takes exactly that record out of the standing kicks.
revoke-standing :
    (group user : ℕ) (ps : List Punishment) (id : ℕ) (by : Option ℕ) (now next : ℕ)
    (rows : List Punishment)
    → any
        (λ r. is_standing_kick group user r && not (is_named ps r))
        (revoke (record { rows = rows; next_id = next }) id by now).rows
      ≡ any (λ r. is_standing_kick group user r && not (id == r.id || is_named ps r)) rows
unfolding revoke
revoke-standing group user ps id by now next [] = refl
revoke-standing group user ps id by now next (r ∷ rows) =
    ground
      (arith, revoke-standing group user ps id by now next rows, ==_iff r.id id, ==_iff id r.id)

any-and_true :
    (q : Punishment → Bool) (rows : List Punishment) → any q rows ≡ any (λ r. q r && true) rows
any-and_true q [] = refl
any-and_true q (r ∷ rows) = ground (arith, any-and_true q rows)

revoke_each-standing :
    (group user : ℕ) (ps : List Punishment) (l : Ledger) (by : Option ℕ) (now : ℕ)
    → any (is_standing_kick group user) (revoke_each l ps by now).rows
      ≡ any (λ r. is_standing_kick group user r && not (is_named ps r)) l.rows
unfolding revoke_each
revoke_each-standing group user [] l by now = any-and_true (is_standing_kick group user) l.rows
revoke_each-standing group user (p ∷ ps) l by now =
    revoke_each-standing group user ps (revoke l p.id by now) by now
    ∙ revoke-standing group user ps p.id by now l.next_id l.rows

-- Every standing kick is among those that the command looks up.
abbrev is_looked_up : (group user : ℕ) → List Punishment → Punishment → Bool
is_looked_up group user rows r =
    any (λ p. is_of group user p && (is_unrevoked_kick p && p.id == r.id)) rows

standing-is_looked_up :
    (group user : ℕ) (rows : List Punishment)
    → All (λ r. is_standing_kick group user r ≡ true → is_looked_up group user rows r ≡ true) rows
standing-is_looked_up group user [] = tt
standing-is_looked_up group user (x ∷ rows) = (
  (λ e. ground (arith, ==_iff x.id x.id)),
  All-map rows (λ r h e. ground (arith, h)) (standing-is_looked_up group user rows),
)

none_left :
    (q n : Punishment → Bool) (rows : List Punishment)
    → All (λ r. q r ≡ true → n r ≡ true) rows
    → any (λ r. q r && not (n r)) rows ≡ false
none_left q n [] h = refl
none_left q n (r ∷ rows) (h, hs) = ground (arith, h, none_left q n rows hs)

find-none : (q : Punishment → Bool) (xs : List Punishment) → any q xs ≡ false → find q xs ≡ none
find-none q [] e = refl
find-none q (x ∷ xs) e = ground (arith, find-none q xs)

-- No standing kick is left once each of those that are looked up is revoked.
revoked-none_standing :
    (group user : ℕ) (l : Ledger) (by : Option ℕ) (now : ℕ)
    → any
        (is_standing_kick group user)
        (revoke_each l (select is_unrevoked_kick (find_by_user l user group)) by now).rows
      ≡ false
revoked-none_standing group user l by now =
    revoke_each-standing group user (select is_unrevoked_kick (find_by_user l user group)) l by now
    ∙ none_left (is_standing_kick group user)
        (is_named (select is_unrevoked_kick (find_by_user l user group))) l.rows
        (All-map l.rows
          (λ r h e.
            any-select (λ p. p.id == r.id) is_unrevoked_kick (find_by_user l user group)
            ∙ any-find_by_user (λ p. is_unrevoked_kick p && p.id == r.id) l user group
            ∙ h e)
          (standing-is_looked_up group user l.rows))

not_active :
    (group user later : ℕ) (rows : List Punishment)
    → any (is_standing_kick group user) rows ≡ false
    → any (λ p. is_of group user p && (is_active later p && is_kick p.kind)) rows ≡ false
not_active group user later [] e = refl
not_active group user later (r ∷ rows) e = ground (arith, not_active group user later rows)

abbrev pub is_kick_call : Action → Bool
is_kick_call (set_group_kick group user reject) = true
is_kick_call (set_group_ban group user seconds) = false

module _ (accepts : List Action → Action → Bool) (cfg : Thresholds) where
  unlisted :
      (b : Blacklist) (user group later : ℕ)
      → is_blacklisted (remove b user (some group)).0 user (some group) later
        ≡ listed b.entries user none later
  unfolding is_blacklisted
  unlisted b user group later = ground (
    arith,
    remove-listed b user (some group) user none later,
    remove-listed b user (some group) user (some group) later,
    ==_iff user user,
    ==_iff group group,
  )

  -- The check removed nobody: it reports no removal and asked the provider for no kick.
  abbrev pub RemovesNobody : State → State × Option Bool → Type 0
  RemovesNobody s r =
      (r.1 ≢ some true) × (count_where is_kick_call r.0.calls ≡ count_where is_kick_call s.calls)

  remute-RemovesNobody :
      (s : State) (group user expires original now : ℕ)
      → RemovesNobody s (remute accepts cfg s group user expires original now)
  unfolding remute call
  remute-RemovesNobody s group user expires original now =
      let muted = set_group_ban group user (remaining_seconds accepts cfg expires now) in
      let quiet = count_where-append is_kick_call s.calls (muted ∷ []) in
      if_cases (RemovesNobody s) (accepts s.calls muted) (λ _. (ground arith, omega arith))
        (λ _. (ground arith, omega arith))

  reapply-none_standing :
      (s : State) (enabled : Bool) (self_id : RawActor) (group user later : ℕ)
      → any (is_standing_kick group user) s.ledger.rows ≡ false
      → RemovesNobody s (check_and_reapply_on_join accepts cfg s enabled self_id group user later)
  unfolding check_and_reapply_on_join
  reapply-none_standing s enabled self_id group user later none_standing =
      let active = select (is_active later) (find_by_user s.ledger user group) in
      let no_kick : find (λ (p : Punishment). is_kick p.kind) active ≡ none = find-none _ active (
        any-select (λ p. is_kick p.kind) (is_active later) (find_by_user s.ledger user group)
        ∙ any-find_by_user (λ p. is_active later p && is_kick p.kind) s.ledger user group
        ∙ not_active group user later s.ledger.rows none_standing) in
      rw no_kick (
        if_cases (RemovesNobody s) (not enabled) (λ _. (ground arith, refl))
          (λ _. elim (Option-cases (find (λ (p : Punishment). is_mute p.kind) active)) [
            | inl no_mute ↦ rw no_mute (ground arith, refl)
            | inr (p, muted) ↦ rw muted (elim (Option-cases p.expires_at) [
              | inl forever ↦ rw forever (ground arith, refl)
              | inr (t, until) ↦ rw until (remute-RemovesNobody s group user t p.id later)
            ])
          ]))

  -- After `unban` of a member, which never fails, the member is blacklisted in the group, at any time, exactly
  -- if on the global blacklist before; no kick of the member in the group stands; and the check for
  -- punishments that are evaded when the member joins again, whenever, asks for no kick and reports no
  -- removal; whatever the provider answers.
  pub unban-readmits :
      (command_reason : ℕ → Reason) (ban_reason : List String → Reason) (s : State)
      (group target : ℕ) (args : List String) (operator now : ℕ) (enabled : Bool)
      (self_id : RawActor) (later : ℕ)
      → let r =
          run_action accepts cfg command_reason ban_reason s unban group target args operator now in
        (r.1 ≡ true)
        × (is_blacklisted r.0.blacklist target (some group) later
            ≡ listed s.blacklist.entries target none later)
        × (any (is_standing_kick group target) r.0.ledger.rows ≡ false)
        × RemovesNobody r.0
            (check_and_reapply_on_join accepts cfg r.0 enabled self_id group target later)
  unfolding run_action
  unban-readmits command_reason ban_reason s group target args operator now enabled self_id later =
      let left = revoked-none_standing group target s.ledger (some operator) now in
      (
        refl,
        unlisted s.blacklist target group later,
        left,
        reapply-none_standing _ enabled self_id group target later left,
      )
