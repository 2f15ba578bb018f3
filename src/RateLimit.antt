-- ===== src/RateLimit.antt =====
-- LoginRateLimitRepository of src/database/repositories/rate-limit.ts: fixed windows of login attempts,
-- one row per scope and bucket. A scope and its key are one bucket number here.
pub mod Windows
mod Tests
use qq_guardian.Base.{
  ℕ, suc, ◌+◌, ◌-◌, Bool, true, false, ◌&&◌, ◌||◌, not, List, [], ◌∷◌, ◌++◌, Option, none, some,
  ltb, leb, ◌==◌, find, count_where, update_where, delete_where, if◌then◌else◌, any,
}

pub record Window : Type 0 where
  pub bucket : ℕ
  pub attempts : ℕ
  pub reset_at : ℕ
  pub updated_at : ℕ

pub record Limiter : Type 0 where
  pub windows : List Window
  pub last_cleanup_at : ℕ

pub record Verdict : Type 0 where
  pub allowed : Bool
  pub attempts : ℕ
  pub reset_at : ℕ

abbrev pub cleanup_interval_ms : ℕ
cleanup_interval_ms = 60000

abbrev pub is_over : ℕ → Window → Bool
is_over now w = leb w.reset_at now

abbrev pub has_bucket : ℕ → Window → Bool
has_bucket b w = w.bucket == b

-- With a clock that went back the difference is negative, and so below the interval.
unfoldable pub prune_expired : Limiter → ℕ → (force : Bool) → Limiter × ℕ
prune_expired l now force =
    if not force && ltb (now - l.last_cleanup_at) cleanup_interval_ms then (l, 0) else (
      record { windows = delete_where (is_over now) l.windows; last_cleanup_at = now },
      count_where (is_over now) l.windows,
    )

-- The DO UPDATE clause.
abbrev pub counted : ℕ → ℕ → Window → Window
counted window_ms now w = record w {
  attempts = if leb w.reset_at now then 1 else suc w.attempts;
  reset_at = if leb w.reset_at now then now + window_ms else w.reset_at;
  updated_at = now;
}

abbrev pub opened : ℕ → ℕ → ℕ → Window
opened b window_ms now = record {
  bucket = b;
  attempts = 1;
  reset_at = now + window_ms;
  updated_at = now;
}

-- INSERT … ON CONFLICT DO UPDATE
unfoldable pub upsert : List Window → ℕ → ℕ → ℕ → List Window
upsert ws b window_ms now =
    if any (has_bucket b) ws
    then update_where (has_bucket b) (counted window_ms now) ws
    else ws ++ (opened b window_ms now ∷ [])

-- `none` is the RangeError of an argument that is not positive. (The bucket key is not empty.)
unfoldable pub consume :
    Limiter → (bucket limit window_ms now : ℕ) → Option (Limiter × Option Verdict)
consume l b limit window_ms now =
    if ltb limit 1 || ltb window_ms 1
    then none
    else let pruned = (prune_expired l now false).0 in
      let ws = upsert pruned.windows b window_ms now in
      some (
        record pruned { windows = ws },
        elim (find (has_bucket b) ws) [
          | none ↦ none
          | some w ↦ some (record {
            allowed = leb w.attempts limit;
            attempts = w.attempts;
            reset_at = w.reset_at;
          })
        ],
      )
