-- ===== src/Moderation/Listing.antt =====
-- What the blacklist answers after each of its operations.
use qq_guardian.Base.{
  ℕ, zero, suc, ◌≤◌, ◌≡◌, ◌↔◌, refl, Bool, true, false, ◌&&◌, List, [], ◌∷◌, ◌++◌, Option, none,
  some, arith, ◌==◌, opt_eq, any, count_where, update_where, delete_where, if◌then◌else◌,
  any-append, Bool-cases, inl, inr, ◌∙◌,
}
use qq_guardian.Moderation.Blacklist.{
  Entry, Blacklist, Addition, unexpired, matches, in_force, is_blacklisted, rewrite, entry_of, add,
  remove, purge, purge_expired,
}

-- Two pairs of a user and a group are one.
abbrev pub same_pair : ℕ → Option ℕ → ℕ → Option ℕ → Bool
same_pair user group user' group' = user == user' && opt_eq group group'

pair_iff : (u v : ℕ) (g h : Option ℕ) → (same_pair u g v h ≡ true) ↔ ((u ≡ v) × (g ≡ h))
pair_iff u v g h = ground arith

-- The answer for one pair alone, without the global entry of the user.
abbrev pub listed : List Entry → ℕ → Option ℕ → ℕ → Bool
listed es user group now = any (in_force user group now) es

module _ (user : ℕ) (group : Option ℕ) (later : ℕ) (a : Addition) (now : ℕ) where
  update-other :
      (es : List Entry)
      → same_pair user group a.user_id a.group_id ≡ false
      → listed (update_where (matches a.user_id a.group_id) (rewrite a now) es) user group later
        ≡ listed es user group later
  update-other [] other = refl
  update-other (e ∷ es) other =
      ground (arith, update-other es other, pair_iff e.user_id a.user_id e.group_id a.group_id)

  update-none :
      (es : List Entry)
      → same_pair user group a.user_id a.group_id ≡ true
      → any (matches a.user_id a.group_id) es ≡ false
      → listed (update_where (matches a.user_id a.group_id) (rewrite a now) es) user group later
        ≡ false
  update-none [] same absent = refl
  update-none (e ∷ es) same absent =
      ground (arith, update-none es same, pair_iff user a.user_id group a.group_id)

  -- Where a row of the pair is rewritten, it alone decides.
  update-same :
      (es : List Entry)
      → same_pair user group a.user_id a.group_id ≡ true
      → any (matches a.user_id a.group_id) es ≡ true
      → listed (update_where (matches a.user_id a.group_id) (rewrite a now) es) user group later
        ≡ unexpired a.expires_at later
  update-same [] same has = cc
  update-same (e ∷ es) same has = elim (Bool-cases (any (matches a.user_id a.group_id) es)) [
    | inl more ↦ ground (
      arith,
      update-same es same more,
      pair_iff user a.user_id group a.group_id,
      pair_iff e.user_id a.user_id e.group_id a.group_id,
    )
    | inr last ↦ ground (
      arith,
      update-none es same last,
      pair_iff user a.user_id group a.group_id,
      pair_iff e.user_id a.user_id e.group_id a.group_id,
    )
  ]

  appended :
      (es : List Entry) (id : ℕ)
      → any (matches a.user_id a.group_id) es ≡ false
      → listed
          (update_where (matches a.user_id a.group_id) (rewrite a now) es
            ++ (entry_of id a now ∷ []))
          user
          group
          later
        ≡ (if same_pair user group a.user_id a.group_id
            then unexpired a.expires_at later
            else listed es user group later)
  appended es id absent =
      any-append _ (update_where (matches a.user_id a.group_id) (rewrite a now) es)
        (entry_of id a now ∷ [])
      ∙ elim (Bool-cases (same_pair user group a.user_id a.group_id)) [
        | inl same ↦
            ground (arith, update-none es same absent, pair_iff user a.user_id group a.group_id)
        | inr other ↦ ground (
          arith,
          update-other es other,
          pair_iff a.user_id user a.group_id group,
          pair_iff user a.user_id group a.group_id,
        )
      ]

count_where-zero_iff :
    (p : Entry → Bool) (es : List Entry) → ((count_where p es == 0) ≡ true) ↔ (any p es ≡ false)
count_where-zero_iff p [] = ground arith
count_where-zero_iff p (e ∷ es) = ground (arith, count_where-zero_iff p es)

-- After an addition the pair of user and group that it names is listed exactly as long as the addition
-- lasts, whatever stood there before, and every other pair as before.
pub add-listed :
    (b : Blacklist) (a : Addition) (now : ℕ) (user : ℕ) (group : Option ℕ) (later : ℕ)
    → listed (add b a now).0.entries user group later ≡ (
        if same_pair user group a.user_id a.group_id
        then unexpired a.expires_at later
        else listed b.entries user group later)
unfolding add
add-listed b a now user group later =
    elim (Bool-cases (any (matches a.user_id a.group_id) b.entries)) [
      | inr absent ↦
          rw ((count_where-zero_iff (matches a.user_id a.group_id) b.entries).1 absent)
            (appended user group later a now b.entries b.next_id absent)
      | inl present ↦
          let some_row : (count_where (matches a.user_id a.group_id) b.entries == 0) ≡ false =
            ground (arith, count_where-zero_iff (matches a.user_id a.group_id) b.entries) in
          rw some_row (elim (Bool-cases (same_pair user group a.user_id a.group_id)) [
            | inl same ↦ rw same (update-same user group later a now b.entries same present)
            | inr other ↦ rw other (update-other user group later a now b.entries other)
          ])
    ]

-- After a removal the pair that it names is listed at no time, and every other pair as before.
pub remove-listed :
    (b : Blacklist) (user' : ℕ) (group' : Option ℕ) (user : ℕ) (group : Option ℕ) (later : ℕ)
    → listed (remove b user' group').0.entries user group later
      ≡ (if same_pair user group user' group' then false else listed b.entries user group later)
unfolding remove
remove-listed b user' group' user group later = on b.entries
  where
    on :
        (es : List Entry)
        → listed (delete_where (matches user' group') es) user group later
          ≡ (if same_pair user group user' group' then false else listed es user group later)
    on [] = ground arith
    on (e ∷ es) = ground (
      arith,
      on es,
      pair_iff e.user_id user' e.group_id group',
      pair_iff e.user_id user e.group_id group,
      pair_iff user user' group group',
    )

purge-keeps :
    (now later : ℕ) (es : List Entry) (limit user : ℕ) (group : Option ℕ)
    → now ≤ later
    → listed (purge now es limit) user group later ≡ listed es user group later
unfolding purge
purge-keeps now later [] limit user group h = refl
purge-keeps now later (e ∷ es) zero user group h = refl
purge-keeps now later (e ∷ es) (suc limit) user group h = ground (
  arith,
  purge-keeps now later es limit user group h,
  purge-keeps now later es (suc limit) user group h,
)

-- A purge of expired rows, however many it may drop, changes no answer at its time or later.
pub purge_expired-is_blacklisted :
    (b : Blacklist) (limit now later user : ℕ) (group : Option ℕ)
    → now ≤ later
    → is_blacklisted (purge_expired b limit now).0 user group later
      ≡ is_blacklisted b user group later
unfolding purge_expired is_blacklisted
purge_expired-is_blacklisted b limit now later user none h =
    purge-keeps now later b.entries limit user none h
purge_expired-is_blacklisted b limit now later user (some group) h = ground (
  arith,
  purge-keeps now later b.entries limit user none h,
  purge-keeps now later b.entries limit user (some group) h,
)
