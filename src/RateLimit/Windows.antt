-- ===== src/RateLimit/Windows.antt =====
-- The current window of a bucket and the attempts that it counts.
use qq_guardian.Base.{
  ℕ, suc, ◌+◌, ◌-◌, min, ◌<◌, ◌≡◌, ◌≢◌, refl, Bool, true, false, not, ◌&&◌, ◌||◌, List, [], ◌∷◌,
  ◌++◌, Option, none, some, arith, ltb, leb, ==_iff, find, any, delete_where, Bool-cases,
  Option-cases, if_cases, inl, inr, All, length, if◌then◌else◌, DistinctKeys, DistinctKeys-delete,
  DistinctKeys-update, find-update, find-key, sym, subst, ◌∙◌, ap,
}
use qq_guardian.RateLimit.{
  Window, Limiter, Verdict, is_over, has_bucket, prune_expired, counted, opened, upsert, consume,
  cleanup_interval_ms,
}

-- The row of a bucket that counts at a time: a window that is over is none.
abbrev pub unless_over : ℕ → Option Window → Option Window
unless_over now none = none
unless_over now (some w) = if is_over now w then none else some w

unfoldable pub current : List Window → ℕ → ℕ → Option Window
current ws b now = unless_over now (find (has_bucket b) ws)

abbrev pub AreKeyed : List Window → Type 0
AreKeyed ws = DistinctKeys (λ (w : Window). w.bucket) ws

-- The window after one more attempt.
abbrev pub after_attempt : ℕ → ℕ → ℕ → Option Window → Window
after_attempt b window_ms now none = opened b window_ms now
after_attempt b window_ms now (some w) = record w { attempts = suc w.attempts; updated_at = now }

find-absent :
    (b : ℕ) (ws : List Window) → any (has_bucket b) ws ≡ false → find (has_bucket b) ws ≡ none
find-absent b [] h = refl
find-absent b (w ∷ ws) h = ground (arith, find-absent b ws)

find-appended :
    (b : ℕ) (ws : List Window) (w : Window)
    → any (has_bucket b) ws ≡ false
    → has_bucket b w ≡ true
    → find (has_bucket b) (ws ++ (w ∷ [])) ≡ some w
find-appended b [] w h e = ground arith
find-appended b (x ∷ ws) w h e = ground (arith, find-appended b ws w)

any-find : (b : ℕ) (ws : List Window) → any (has_bucket b) ws ≡ true → find (has_bucket b) ws ≢ none
any-find b [] h e = cc
any-find b (w ∷ ws) h e = ground (arith, any-find b ws)

-- The upsert leaves the window after one more attempt under the bucket.
upsert-find :
    (ws : List Window) (b window_ms now : ℕ)
    → find (has_bucket b) (upsert ws b window_ms now)
      ≡ some (after_attempt b window_ms now (current ws b now))
unfolding upsert current
upsert-find ws b window_ms now = elim (Bool-cases (any (has_bucket b) ws)) [
  | inr new ↦ rw (new, find-absent b ws new) (find-appended b ws _ new (ground arith))
  | inl old ↦ elim (Option-cases (find (has_bucket b) ws)) [
    | inl missing ↦ absurd (any-find b ws old missing)
    | inr (w, found) ↦
        let at : w.bucket ≡ b = find-key (λ (x : Window). x.bucket) b ws w found in
        let stored =
          find-update (λ (x : Window). x.bucket) b (counted window_ms now) ws w (λ x. refl) found in
        rw (old, found) (stored ∙ by_age w at)
  ]
]
  where
    by_age :
        (w : Window)
        → w.bucket ≡ b
        → some (counted window_ms now w)
          ≡ some (after_attempt b window_ms now (unless_over now (some w)))
    by_age w at = ground arith

others_absent :
    (b : ℕ) (w : Window) (xs : List Window)
    → has_bucket b w ≡ true
    → All (λ (x : Window). x.bucket ≢ w.bucket) xs
    → any (has_bucket b) xs ≡ false
others_absent b w [] e h = refl
others_absent b w (x ∷ xs) e (n, h) = elim (Bool-cases (has_bucket b x)) [
  | inr other ↦ rw other (others_absent b w xs e h)
  | inl same ↦ absurd (n ((==_iff x.bucket b).0 same ∙ sym ((==_iff w.bucket b).0 e)))
]

-- Pruning takes no row that counts.
find-prune :
    (ws : List Window) (b now : ℕ)
    → AreKeyed ws
    → unless_over now (find (has_bucket b) (delete_where (is_over now) ws))
      ≡ unless_over now (find (has_bucket b) ws)
find-prune [] b now d = refl
find-prune (w ∷ ws) b now (fresh, d) = elim (Bool-cases (is_over now w)) [
  | inr live ↦ rw live (ground (arith, find-prune ws b now d))
  | inl over ↦ elim (Bool-cases (has_bucket b w)) [
    | inr other ↦ rw (over, other) (find-prune ws b now d)
    | inl here ↦
        rw (over, here)
          (find-prune ws b now d
            ∙ rw (find-absent b ws (others_absent b w ws here fresh), over) refl)
  ]
]

prune_expired-current :
    (l : Limiter) (b now : ℕ) (force : Bool)
    → AreKeyed l.windows
    → (current (prune_expired l now force).0.windows b now ≡ current l.windows b now)
      × AreKeyed (prune_expired l now force).0.windows
unfolding prune_expired current
prune_expired-current l b now force d =
    if_cases
      (λ (r : Limiter × ℕ).
        (current r.0.windows b now ≡ current l.windows b now) × AreKeyed r.0.windows)
      (not force && ltb (now - l.last_cleanup_at) cleanup_interval_ms) (λ _. (refl, d))
      (λ _. (
        find-prune l.windows b now d,
        DistinctKeys-delete (λ (w : Window). w.bucket) _ l.windows d,
      ))

append-AreKeyed :
    (b : ℕ) (ws : List Window) (w : Window)
    → any (has_bucket b) ws ≡ false
    → w.bucket ≡ b
    → AreKeyed ws
    → AreKeyed (ws ++ (w ∷ []))
append-AreKeyed b [] w h e d = (tt, tt)
append-AreKeyed b (x ∷ ws) w h e (fresh, d) =
    (ends ws fresh, append-AreKeyed b ws w (ground arith) e d)
  where
    differs : w.bucket ≢ x.bucket
    differs q =
        let hit : has_bucket b x ≡ true = (==_iff x.bucket b).1 (sym q ∙ e) in absurd (ground arith)

    ends :
        (zs : List Window)
        → All (λ (z : Window). z.bucket ≢ x.bucket) zs
        → All (λ (z : Window). z.bucket ≢ x.bucket) (zs ++ (w ∷ []))
    ends [] g = (differs, tt)
    ends (z ∷ zs) (n, g) = (n, ends zs g)

upsert-AreKeyed :
    (ws : List Window) (b window_ms now : ℕ) → AreKeyed ws → AreKeyed (upsert ws b window_ms now)
unfolding upsert
upsert-AreKeyed ws b window_ms now d = elim (Bool-cases (any (has_bucket b) ws)) [
  | inl old ↦ rw old (DistinctKeys-update (λ (w : Window). w.bucket) _ _ ws (λ w. refl) d)
  | inr new ↦ rw new (append-AreKeyed b ws _ new refl d)
]

abbrev pub verdict_on : ℕ → Window → Verdict
verdict_on limit w = record {
  allowed = leb w.attempts limit;
  attempts = w.attempts;
  reset_at = w.reset_at;
}

-- With positive limits an attempt always gets a verdict. It is the verdict on the bucket's current
-- window with one more attempt, or on a new window with one; that window is then stored, and the
-- buckets stay distinct.
pub consume_lem :
    (l : Limiter) (b limit window_ms now : ℕ)
    → AreKeyed l.windows
    → 0 < limit
    → 0 < window_ms
    → let w = after_attempt b window_ms now (current l.windows b now) in
      (l' : Limiter) × (consume l b limit window_ms now ≡ some (l', some (verdict_on limit w)))
      × (find (has_bucket b) l'.windows ≡ some w)
      × AreKeyed l'.windows
unfolding consume
consume_lem l b limit window_ms now d pos_limit pos_window =
    let pruned = (prune_expired l now false).0 in
    let (same, d') = prune_expired-current l b now false d in
    let stored =
      subst
        (λ c.
          find (has_bucket b) (upsert pruned.windows b window_ms now)
          ≡ some (after_attempt b window_ms now c))
        same (upsert-find pruned.windows b window_ms now) in
    let good : (ltb limit 1 || ltb window_ms 1) ≡ false = ground arith in
    (
      record pruned { windows = upsert pruned.windows b window_ms now },
      rw good (rw stored refl),
      stored,
      upsert-AreKeyed pruned.windows b window_ms now d',
    )

consume_on :
    (l : Limiter) (b limit window_ms now : ℕ) (c : Option Window)
    → AreKeyed l.windows
    → 0 < limit
    → 0 < window_ms
    → current l.windows b now ≡ c
    → let w = after_attempt b window_ms now c in
      (l' : Limiter) × (consume l b limit window_ms now ≡ some (l', some (verdict_on limit w)))
      × (find (has_bucket b) l'.windows ≡ some w)
      × AreKeyed l'.windows
consume_on l b limit window_ms now c d p q e =
    subst
      (λ c.
        let w = after_attempt b window_ms now c in
        (l' : Limiter) × (consume l b limit window_ms now ≡ some (l', some (verdict_on limit w)))
        × (find (has_bucket b) l'.windows ≡ some w)
        × AreKeyed l'.windows)
      e (consume_lem l b limit window_ms now d p q)

-- How many of a row of attempts on one bucket are allowed.
unfoldable pub allowed_in : Limiter → (b limit window_ms : ℕ) → List ℕ → ℕ
allowed_in l b limit window_ms [] = 0
allowed_in l b limit window_ms (now ∷ times) = elim (consume l b limit window_ms now) [
  | some (l', some v) ↦
      let rest = allowed_in l' b limit window_ms times in if v.allowed then suc rest else rest
  | _ ↦ 0
]

allowed_in-window :
    (l : Limiter) (b limit window_ms n reset_at : ℕ) (times : List ℕ) (w : Window)
    → AreKeyed l.windows
    → 0 < limit
    → 0 < window_ms
    → All (λ now. now < reset_at) times
    → find (has_bucket b) l.windows ≡ some w
    → w.attempts ≡ n
    → w.reset_at ≡ reset_at
    → allowed_in l b limit window_ms times ≡ min (length times) (limit - n)
unfolding allowed_in current
allowed_in-window l b limit window_ms n reset_at [] w d p q h f a r = omega arith
allowed_in-window l b limit window_ms n reset_at (now ∷ times) w d p q (before, h) f a r =
    let live : is_over now w ≡ false = ground arith in
    let at : current l.windows b now ≡ some w = rw (f, live) refl in
    let (l', e, stored, d') = consume_on l b limit window_ms now (some w) d p q at in
    let ih =
      allowed_in-window l' b limit window_ms (suc n) reset_at times _ d' p q h stored (ap suc a)
        r in
    rw (e, allowed_in) (ground arith)

-- A burst of attempts on a bucket without a current window, all within one window from the first:
-- exactly the first `limit` of them are allowed, or all if there are no more.
pub allowed_in-burst :
    (l : Limiter) (b limit window_ms start : ℕ) (times : List ℕ)
    → AreKeyed l.windows
    → 0 < limit
    → 0 < window_ms
    → current l.windows b start ≡ none
    → All (λ now. now < start + window_ms) times
    → allowed_in l b limit window_ms (start ∷ times) ≡ min (suc (length times)) limit
unfolding allowed_in
allowed_in-burst l b limit window_ms start times d p q fresh h =
    let (l', e, stored, d') = consume_on l b limit window_ms start none d p q fresh in
    let ih =
      allowed_in-window l' b limit window_ms 1 (start + window_ms) times _ d' p q h stored refl
        refl in
    rw (e, allowed_in) (ground arith)
