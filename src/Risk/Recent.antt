-- ===== src/Risk/Recent.antt =====
-- Lists of recent messages in the order of time.
use qq_guardian.Base.{
  ℕ, ◌≤◌, ◌≡◌, refl, min, Bool, true, false, List, [], ◌∷◌, ◌++◌, ltb, select, any, count_where,
  length, arith, if_cases, All, All-append,
}
use qq_guardian.Risk.History.{recall_window_ms, RecentMsg, is_recent, keep_last}

-- The times of a history are in order.
abbrev pub IsSorted : List RecentMsg → Type 0
IsSorted [] = Unit
IsSorted (m ∷ ms) = All (λ (n : RecentMsg). m.ts ≤ n.ts) ms × IsSorted ms

pub length-select :
    (p : RecentMsg → Bool) (ms : List RecentMsg) → length (select p ms) ≡ count_where p ms
length-select p [] = refl
length-select p (m ∷ ms) = ground (arith, length-select p ms)

pub count_where-length : (p : RecentMsg → Bool) (ms : List RecentMsg) → count_where p ms ≤ length ms
count_where-length p [] = omega arith
count_where-length p (m ∷ ms) = ground (arith, count_where-length p ms)

-- If the first message is recent, so are all later ones.
pub recent_from :
    (window now : ℕ) (m : RecentMsg) (ms : List RecentMsg)
    → All (λ (n : RecentMsg). m.ts ≤ n.ts) ms
    → is_recent window now m ≡ true
    → count_where (is_recent window now) ms ≡ length ms
recent_from window now m [] h r = refl
recent_from window now m (n ∷ ms) (later, h) r = ground (arith, recent_from window now m ms h)

-- Of sorted messages the last ones hold as many recent ones as fit.
pub keep_last-count :
    (window now max : ℕ) (ms : List RecentMsg)
    → IsSorted ms
    → count_where (is_recent window now) (keep_last max ms)
      ≡ min max (count_where (is_recent window now) ms)
keep_last-count window now max [] s = ground arith
keep_last-count window now max (m ∷ ms) (first, s) = ground (
  arith,
  recent_from window now m ms first,
  count_where-length (is_recent window now) ms,
  keep_last-count window now max ms s,
)

pub keep_last-All :
    (P : RecentMsg → Type 0) (max : ℕ) (ms : List RecentMsg) → All P ms → All P (keep_last max ms)
keep_last-All P max [] h = tt
keep_last-All P max (m ∷ ms) (p, h) =
    if_cases (All P) (ltb max (length (m ∷ ms))) (λ _. keep_last-All P max ms h) (λ _. (p, h))

pub keep_last-IsSorted : (max : ℕ) (ms : List RecentMsg) → IsSorted ms → IsSorted (keep_last max ms)
keep_last-IsSorted max [] s = tt
keep_last-IsSorted max (m ∷ ms) (first, s) =
    if_cases IsSorted (ltb max (length (m ∷ ms))) (λ _. keep_last-IsSorted max ms s)
      (λ _. (first, s))

pub select-All :
    (P : RecentMsg → Type 0) (p : RecentMsg → Bool) (ms : List RecentMsg)
    → All P ms
    → All P (select p ms)
select-All P p [] h = tt
select-All P p (m ∷ ms) (q, h) =
    if_cases (All P) (p m) (λ _. (q, select-All P p ms h)) (λ _. select-All P p ms h)

pub select-IsSorted :
    (p : RecentMsg → Bool) (ms : List RecentMsg) → IsSorted ms → IsSorted (select p ms)
select-IsSorted p [] s = tt
select-IsSorted p (m ∷ ms) (first, s) =
    if_cases IsSorted (p m)
      (λ _. (select-All (λ (n : RecentMsg). m.ts ≤ n.ts) p ms first, select-IsSorted p ms s))
      (λ _. select-IsSorted p ms s)

pub add-IsSorted :
    (ms : List RecentMsg) (n : RecentMsg)
    → All (λ (m : RecentMsg). m.ts ≤ n.ts) ms
    → IsSorted ms
    → IsSorted (ms ++ n ∷ [])
add-IsSorted [] n h s = (tt, tt)
add-IsSorted (m ∷ ms) n (le, h) (first, s) =
    (All-append (λ (k : RecentMsg). m.ts ≤ k.ts) ms (n ∷ []) first (le, tt), add-IsSorted ms n h s)

-- What is recent later was recent before in a longer window.
pub select-count :
    (t now window : ℕ) (ms : List RecentMsg)
    → t ≤ now
    → window ≤ recall_window_ms
    → count_where (is_recent window now) (select (is_recent recall_window_ms t) ms)
      ≡ count_where (is_recent window now) ms
select-count t now window [] le short = refl
select-count t now window (m ∷ ms) le short = ground (arith, select-count t now window ms le short)

pub idle-count :
    (t now window : ℕ) (ms : List RecentMsg)
    → t ≤ now
    → window ≤ recall_window_ms
    → any (is_recent recall_window_ms t) ms ≡ false
    → count_where (is_recent window now) ms ≡ 0
idle-count t now window [] le short none_left = refl
idle-count t now window (m ∷ ms) le short none_left =
    ground (arith, idle-count t now window ms le short)
