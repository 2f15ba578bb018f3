-- ===== src/Risk/Flood.antt =====
-- The detector of floods against the log of all messages.
use qq_guardian.Base.{ℕ, ◌≤◌, ◌≡◌, ◌↔◌, true, List, [], count_where, arith}
use qq_guardian.Risk.History.{dup_window_ms, is_recent, entries_of, is_flood}
use qq_guardian.Risk.Recent.{length-select}
use qq_guardian.Risk.Log.{
  is_sent, tracked, IsTimely, tracked-IsFaithful, fresh, fresh-IsFaithful, Sent, IsFaithful,
}

-- After a log of messages in the order of time the detector sees a flood of a user in a group if and only if
-- the log has five messages of the user to the group within ten seconds, whatever the other users send, the
-- bound of the history cuts off and the sweeps delete.
pub is_flood_iff :
    (log : List Sent) (key now : ℕ)
    → IsTimely 0 log now
    → (is_flood (tracked fresh log) key now ≡ true)
      ↔ (5 ≤ count_where (is_sent key dup_window_ms now) log)
unfolding is_flood
is_flood_iff log key now timely =
    let f : IsFaithful (tracked fresh log) log now =
      tracked-IsFaithful fresh [] log 0 now timely fresh-IsFaithful in
    ground (
      arith,
      f.counted key now dup_window_ms,
      length-select (is_recent dup_window_ms now) (entries_of (tracked fresh log) key),
    )
