-- ===== src/Intel/Trust.antt =====
-- Where a red flag comes from: src/modules/intel/index.ts.
use mathlib.Core.List.{Memᴰ}
use qq_guardian.Base.{
  ◌≡◌, refl, sym, ap, subst, ◌∙◌, arith, inl, inr, ℕ, Bool, true, false, not, ◌&&◌, String, str_eq,
  str_eq_iff, List, [], ◌∷◌, Option, none, some, lookup, put, delete_where, All, All-append,
  Bool-cases, Option-cases, lookup-put, ==_iff, if◌then◌else◌, if_cases, ◌==◌,
}
use qq_guardian.Intel.{
  RedFlagAction, IntelRedFlag, Feed, IntelConfig, IntelPolicy, IntelService, IntelRedFlagMatch, get,
  has, read_intel_policy, merged, flagged, flag_table, activate_configured_feeds,
  reconcile_intel_source_feeds, reconcile_configured_sources, is_other, is_revoked, get_red_flag,
  replaces,
}

get-delete {ℓ} :
    {A : Type ℓ} (p : String → Bool) (m : List (String × A)) (url : String)
    → get (delete_where (λ (e : String × A). p e.0) m) url ≡ (if p url then none else get m url)
get-delete p [] url = if_cases (λ o. none ≡ o) (p url) (λ _. refl) (λ _. refl)
get-delete {A = A} p ((key, b) ∷ m) url =
    let rest = get-delete p m url in
    elim (Bool-cases (str_eq key url)) [
      | inl here ↦
          let same : p key ≡ p url = ap p ((str_eq_iff key url).0 here) in
          elim (Bool-cases (p key)) [ inl hit ↦ ground arith | inr miss ↦ ground arith ]
      | inr other ↦ elim (Bool-cases (p key)) [ inl hit ↦ ground arith | inr miss ↦ ground arith ]
    ]

get-kept {ℓ} :
    {A : Type ℓ} (p : String → Bool) (m : List (String × A)) (url : String) (a : A)
    → get (delete_where (λ (e : String × A). p e.0) m) url ≡ some a
    → (p url ≡ false) × (get m url ≡ some a)
get-kept p m url a e =
    let found = sym (get-delete p m url) ∙ e in
    elim (Bool-cases (p url)) [ inl hit ↦ absurd (ground arith) | inr miss ↦ (miss, ground arith) ]

All-mem {ℓ κ} : {A : Type ℓ} (P : A → Type κ) (xs : List A) → ((x : A) → Memᴰ x xs → P x) → All P xs
All-mem P [] h = tt
All-mem P (x ∷ xs) h = (h x (Memᴰ.head refl), All-mem P xs (λ y m. h y (Memᴰ.tail m)))

-- What holds of every flag of a list holds of those of its table.
module _ (P : ℕ → RedFlagAction → String → Type 0) where
  unfoldable HoldsFlag : IntelRedFlag → Type 0
  HoldsFlag f = P f.user_id f.action f.reason

  unfoldable HoldsTable : List (ℕ × (RedFlagAction × String)) → Type 0
  HoldsTable m = (u : ℕ) (e : RedFlagAction × String) → lookup m u ≡ some e → P u e.0 e.1

  put-HoldsTable :
      (m : List (ℕ × (RedFlagAction × String))) (f : IntelRedFlag)
      → HoldsTable m
      → HoldsFlag f
      → HoldsTable (put m f.user_id (f.action, f.reason))
  unfolding HoldsFlag HoldsTable
  put-HoldsTable m f h p u (a, r) found =
      let known = sym (lookup-put m f.user_id (f.action, f.reason) u) ∙ found in
      elim (Bool-cases (f.user_id == u)) [
        | inl here ↦
            let same = (==_iff f.user_id u).0 here in
            let entry : (f.action, f.reason) ≡ (a, r) = ground (arith) in
            subst (λ (e : RedFlagAction × String). P u e.0 e.1) entry
              (subst (λ k. P k f.action f.reason) same p)
        | inr other ↦ h u (a, r) (ground (arith))
      ]

  flagged-HoldsTable :
      (m : List (ℕ × (RedFlagAction × String))) (f : IntelRedFlag)
      → HoldsTable m
      → HoldsFlag f
      → HoldsTable (flagged m f)
  flagged-HoldsTable m f h p = elim (Option-cases (lookup m f.user_id)) [
    | inl fresh ↦ rw (fresh, flagged) (put-HoldsTable m f h p)
    | inr (prior, known) ↦
        rw (known, flagged)
          (if_cases HoldsTable (replaces prior.0 f.action) (λ _. put-HoldsTable m f h p) (λ _. h))
  ]

  flag_table-HoldsTable :
      (m : List (ℕ × (RedFlagAction × String))) (fs : List IntelRedFlag)
      → HoldsTable m
      → All HoldsFlag fs
      → HoldsTable (flag_table m fs)
  flag_table-HoldsTable m [] h k = h
  flag_table-HoldsTable m (f ∷ fs) h (p, k) =
      flag_table-HoldsTable (flagged m f) fs (flagged-HoldsTable m f h p) k

merged-All :
    (P : IntelRedFlag → Type 0) (feeds : List (String × Feed)) (urls : List String)
    → ((url : String) (feed : Feed) → get feeds url ≡ some feed → All P feed.red_flags)
    → All P (merged feeds urls).red_flags
merged-All P feeds [] h = tt
merged-All P feeds (url ∷ urls) h =
    let rest = merged-All P feeds urls h in
    elim (Option-cases (get feeds url)) [
      | inl none_held ↦ rw (none_held, All) rest
      | inr (feed, held) ↦
          rw (held, All)
            (All-append P feed.red_flags (merged feeds urls).red_flags (h url feed held) rest)
    ]

other-false : (d : Option String) (pin : String) → is_other d pin ≡ false → d ≡ some pin
other-false none pin e = cc
other-false (some d) pin e = elim (Bool-cases (str_eq d pin)) [
  | inl same ↦ ap some ((str_eq_iff d pin).0 same)
  | inr differ ↦ ground arith
]

-- A pin of the policy for the URL, which the digest of the data is.
abbrev pub IsPinned : IntelPolicy → IntelService → String → Type 0
IsPinned policy s url =
    (pin : String) × (get policy.pins url ≡ some pin) × (get s.source_digests url ≡ some pin)

kept-IsPinned :
    (policy : IntelPolicy) (s : IntelService) (url : String)
    → is_revoked policy s.source_digests url ≡ false
    → (has policy.urls url ≡ true)
      × ((pin : String) → get policy.pins url ≡ some pin → get s.source_digests url ≡ some pin)
      × (policy.enforces ≡ true → IsPinned policy s url)
kept-IsPinned policy s url e = elim (Bool-cases (has policy.urls url)) [
  | inr out ↦ absurd (ground arith)
  | inl configured ↦ elim (Option-cases (get policy.pins url)) [
    | inl unpinned ↦ (configured, λ pin h. ground arith, λ on. absurd (ground arith))
    | inr (pin, pinned) ↦
        let same = other-false (get s.source_digests url) pin (ground arith) in
        (configured, λ q h. same ∙ (sym pinned ∙ h), λ _. (pin, pinned, same))
  ]
]

-- A red flag of the user in the data that the service holds for the URL.
abbrev pub IsListed : (feed : Feed) (u : ℕ) (action : RedFlagAction) (reason : String) → Type 0
IsListed feed u action reason =
    Memᴰ (record { user_id = u; action = action; reason = reason }) feed.red_flags

-- The flag is in data that the service held before for a URL of the policy, and the data is pinned.
abbrev pub IsBacked :
    IntelPolicy → IntelService → (u : ℕ) (action : RedFlagAction) (reason : String) → Type 0
IsBacked policy s u action reason =
    (url : String) × (feed : Feed) × (has policy.urls url ≡ true)
    × (get s.source_feeds url ≡ some feed)
    × IsListed feed u action reason
    × ((pin : String) → get policy.pins url ≡ some pin → get s.source_digests url ≡ some pin)
    × (policy.enforces ≡ true → IsPinned policy s url)

held-IsBacked :
    (policy : IntelPolicy) (s : IntelService) (url : String) (feed : Feed)
    → get
        (delete_where
          (λ (e : String × Feed). not (has policy.urls e.0))
          (delete_where
            (λ (e : String × Feed). is_revoked policy s.source_digests e.0)
            s.source_feeds))
        url
      ≡ some feed
    → All (λ f. IsBacked policy s f.user_id f.action f.reason) feed.red_flags
held-IsBacked policy s url feed e =
    let revoked = is_revoked policy s.source_digests in
    let kept = delete_where (λ (e : String × Feed). revoked e.0) s.source_feeds in
    let (_, still) = get-kept (λ k. not (has policy.urls k)) kept url feed e in
    let (trusted, held) = get-kept revoked s.source_feeds url feed still in
    let (configured, pinned, enforced) = kept-IsPinned policy s url trusted in
    All-mem (λ f. IsBacked policy s f.user_id f.action f.reason) feed.red_flags
      (λ f listed. (url, feed, configured, held, listed, pinned, enforced))

reconciled-IsBacked :
    (policy : IntelPolicy) (s : IntelService) (u : ℕ) (e : RedFlagAction × String)
    → lookup (reconcile_configured_sources s policy).red_flags u ≡ some e
    → IsBacked policy s u e.0 e.1
unfolding reconcile_configured_sources activate_configured_feeds reconcile_intel_source_feeds
    HoldsTable HoldsFlag
reconciled-IsBacked policy s u e found =
    let revoked = is_revoked policy s.source_digests in
    let kept = delete_where (λ (e : String × Feed). revoked e.0) s.source_feeds in
    let feeds = delete_where (λ (e : String × Feed). not (has policy.urls e.0)) kept in
    flag_table-HoldsTable (IsBacked policy s) [] (merged feeds policy.urls).red_flags
      (λ v d none_there. absurd (ground arith))
      (merged-All (λ f. IsBacked policy s f.user_id f.action f.reason) feeds policy.urls
        (λ url feed. held-IsBacked policy s url feed))
      u e found

-- When the service has reconciled its data with the settings, a red flag that it gives for a user is one,
-- with its action and reason, in data that it held for a URL of the policy. The digest of that data is the
-- pin of the URL if the URL has one, and if the flag is enforced the URL has a pin.
pub get_red_flag-IsBacked :
    (canonical : String → Option String) (config : IntelConfig) (s : IntelService) (u : ℕ)
    (match : IntelRedFlagMatch)
    → let policy = read_intel_policy canonical config in
      get_red_flag config (reconcile_configured_sources s policy) u ≡ some match
      → IsBacked policy s u match.action match.reason × (match.enforced ≡ policy.enforces)
unfolding get_red_flag read_intel_policy
get_red_flag-IsBacked canonical config s u match e =
    let policy = read_intel_policy canonical config in
    let after = reconcile_configured_sources s policy in
    elim (Bool-cases config.enabled) [
      | inr off ↦ absurd (ground arith)
      | inl on ↦ elim (Option-cases (lookup after.red_flags u)) [
        | inl absent ↦ absurd (ground arith)
        | inr ((action, reason), known) ↦
            let shown : IntelRedFlagMatch = record {
              action = action;
              reason = reason;
              enforced = config.enabled && config.enforces;
            } in
            let given : shown ≡ match = ground arith in
            subst
              (λ (m : IntelRedFlagMatch).
                IsBacked policy s u m.action m.reason × (m.enforced ≡ policy.enforces))
              given
              (
                reconciled-IsBacked policy s u (action, reason) known,
                ap (λ b. b && config.enforces) on,
              )
      ]
    ]
