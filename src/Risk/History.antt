-- ===== src/Risk/History.antt =====
-- The message history of RiskService in src/modules/risk/index.ts.
use qq_guardian.Base.{
  ℕ, ◌-◌, Bool, not, List, [], ◌∷◌, ◌++◌, ltb, leb, select, delete_where, any, length, lookup, put,
  or_else, if◌then◌else◌,
}

abbrev pub recall_window_ms : ℕ
recall_window_ms = 120000

abbrev pub recall_max_messages : ℕ
recall_max_messages = 30

abbrev pub dup_window_ms : ℕ
dup_window_ms = 10000

pub record RecentMsg : Type 0 where
  pub ts : ℕ
  pub id : ℕ

-- `recent_msgs` has as key one number for the user and the group of `${userId}:${groupId}`.
pub record History : Type 0 where
  pub recent_msgs : List (ℕ × List RecentMsg)
  pub last_sweep : ℕ

-- `now - m.ts < window`; a time in the future is recent there too.
abbrev pub is_recent : (window now : ℕ) → RecentMsg → Bool
is_recent window now m = ltb (now - m.ts) window

abbrev pub entries_of : History → (key : ℕ) → List RecentMsg
entries_of h key = or_else (lookup h.recent_msgs key) []

-- `entries.splice(0, entries.length - max)` if there are more.
abbrev pub keep_last : (max : ℕ) → List RecentMsg → List RecentMsg
keep_last max [] = []
keep_last max (m ∷ ms) =
    let rest = keep_last max ms in if ltb max (length (m ∷ ms)) then rest else m ∷ ms

abbrev pub is_idle : (now : ℕ) → ℕ × List RecentMsg → Bool
is_idle now (key, ms) = not (any (is_recent recall_window_ms now) ms)

unfoldable pub swept : History → (now : ℕ) → History
swept h now =
    if ltb 60000 (now - h.last_sweep)
    then record { recent_msgs = delete_where (is_idle now) h.recent_msgs; last_sweep = now }
    else h

unfoldable pub track_message : History → (key message now : ℕ) → History
track_message h key message now =
    let entries =
      select (is_recent recall_window_ms now) (entries_of h key)
      ++ record { ts = now; id = message } ∷ [] in
    swept (record h { recent_msgs = put h.recent_msgs key (keep_last recall_max_messages entries) })
      now

-- The duplicate detector.
unfoldable pub is_flood : History → (key now : ℕ) → Bool
is_flood h key now = leb 5 (length (select (is_recent dup_window_ms now) (entries_of h key)))
