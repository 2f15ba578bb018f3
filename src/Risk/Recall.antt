-- ===== src/Risk/Recall.antt =====
-- Which messages a recall deletes.
use mathlib.Core.List.{append-nil, append_assoc}
use qq_guardian.Base.{
  ℕ, ◌-◌, ◌≡◌, Bool, true, ◌&&◌, ◌||◌, List, [], ◌∷◌, ◌++◌, ltb, ◌==◌, ==_iff, select, any,
  any-append, if◌then◌else◌, arith, inl, inr, if_cases, sym, subst, All, All-append, All-map,
  DistinctKeys, DistinctKeys-add,
}
use qq_guardian.Risk.History.{
  recall_window_ms, recall_max_messages, RecentMsg, History, is_recent, entries_of, swept,
  track_message,
}
use qq_guardian.Risk.Handling.{add_id, add_recent, recalled_ids}
use qq_guardian.Risk.Recent.{keep_last-All, select-All}
use qq_guardian.Risk.Log.{
  tracked, IsTimely, recorded, entries_with, entries-recorded, recorded-IsFaithful, entries-swept,
  swept-IsFaithful, fresh, fresh-IsFaithful, Sent, IsFaithful,
}

-- The log has the message of an entry.
abbrev pub is_entry : (key : ℕ) → RecentMsg → Sent → Bool
is_entry key n m = (m.key == key) && ((m.message == n.id) && (m.at == n.ts))

-- Every entry is a message of the log.
abbrev IsKnown : History → List Sent → Type 0
IsKnown h past = (key : ℕ) → All (λ n. any (is_entry key n) past ≡ true) (entries_of h key)

recorded-IsKnown :
    (h : History) (past : List Sent) (m : Sent)
    → IsKnown h past
    → IsKnown (recorded h m) (past ++ m ∷ [])
recorded-IsKnown h past m k i =
    subst (All (λ n. any (is_entry i n) (past ++ m ∷ []) ≡ true)) (sym (entries-recorded h m i)) (
      if_cases (All (λ n. any (is_entry i n) (past ++ m ∷ []) ≡ true)) (m.key == i)
        (λ here.
          keep_last-All (λ n. any (is_entry i n) (past ++ m ∷ []) ≡ true) recall_max_messages
            (entries_with h m)
            (subst (λ j. All (λ n. any (is_entry j n) (past ++ m ∷ []) ≡ true) (entries_with h m))
              ((==_iff m.key i).0 here)
              (All-append (λ n. any (is_entry m.key n) (past ++ m ∷ []) ≡ true)
                (select (is_recent recall_window_ms m.at) (entries_of h m.key))
                (record { ts = m.at; id = m.message } ∷ [])
                (select-All (λ n. any (is_entry m.key n) (past ++ m ∷ []) ≡ true)
                  (is_recent recall_window_ms m.at) (entries_of h m.key)
                  (All-map (entries_of h m.key)
                    (λ n known. ground (arith, any-append (is_entry m.key n) past (m ∷ [])))
                    (k m.key)))
                (
                  ground (
                    arith,
                    any-append (is_entry m.key (record { ts = m.at; id = m.message })) past
                        (m ∷ []),
                    ==_iff m.key m.key,
                    ==_iff m.message m.message,
                    ==_iff m.at m.at,
                  ),
                  tt,
                ))))
        (λ _.
          All-map (entries_of h i)
            (λ n known. ground (arith, any-append (is_entry i n) past (m ∷ []))) (k i)))

swept-IsKnown :
    (h : History) (past : List Sent) (t : ℕ)
    → IsFaithful h past t
    → IsKnown h past
    → IsKnown (swept h t) past
swept-IsKnown h past t f k i = elim (entries-swept h t i f.distinct) [
  | inl same ↦ subst (All (λ n. any (is_entry i n) past ≡ true)) (sym same) (k i)
  | inr (gone, _) ↦ subst (All (λ n. any (is_entry i n) past ≡ true)) (sym gone) tt
]

tracked-IsKnown :
    (h : History) (past log : List Sent) (t now : ℕ)
    → IsTimely t log now
    → IsFaithful h past t
    → IsKnown h past
    → IsKnown (tracked h log) (past ++ log)
unfolding track_message
tracked-IsKnown h past [] t now timely f k = subst (IsKnown h) (sym (append-nil past)) k
tracked-IsKnown h past (m ∷ log) t now (le, timely) f k =
    let f' = recorded-IsFaithful h past t m le f in
    let k' = recorded-IsKnown h past m k in
    subst (IsKnown (tracked (swept (recorded h m) m.at) log)) (append_assoc past (m ∷ []) log) (
      tracked-IsKnown (swept (recorded h m) m.at) (past ++ m ∷ []) log m.at now timely
        (swept-IsFaithful (recorded h m) (past ++ m ∷ []) m.at f')
        (swept-IsKnown (recorded h m) (past ++ m ∷ []) m.at f' k'))

-- The user sent the message to the group within the window.
abbrev pub is_own : (key now id : ℕ) → Sent → Bool
is_own key now id m = (m.key == key) && ((m.message == id) && ltb (now - m.at) recall_window_ms)

-- The message is the one that set off the detection, or is in the log as the user's.
abbrev pub is_due : (log : List Sent) (key trigger now id : ℕ) → Bool
is_due log key trigger now id = (id == trigger) || any (is_own key now id) log

entry-is_own :
    (key now : ℕ) (n : RecentMsg) (log : List Sent)
    → is_recent recall_window_ms now n ≡ true
    → any (is_entry key n) log ≡ true
    → any (is_own key now n.id) log ≡ true
entry-is_own key now n [] recent known = known
entry-is_own key now n (m ∷ log) recent known = ground (
  arith,
  entry-is_own key now n log recent,
  ==_iff m.at n.ts,
  ==_iff m.key key,
  ==_iff m.message n.id,
)

add_id-All : (P : ℕ → Type 0) (ids : List ℕ) (id : ℕ) → P id → All P ids → All P (add_id ids id)
add_id-All P ids id p h =
    if_cases (All P) (any (λ k. k == id) ids) (λ _. h) (λ _. All-append P ids (id ∷ []) h (p, tt))

add_id-DistinctKeys :
    (ids : List ℕ) (id : ℕ)
    → DistinctKeys (λ (k : ℕ). k) ids
    → DistinctKeys (λ (k : ℕ). k) (add_id ids id)
add_id-DistinctKeys ids id d =
    if_cases (DistinctKeys (λ (k : ℕ). k)) (any (λ k. k == id) ids) (λ _. d)
      (λ free. DistinctKeys-add (λ (k : ℕ). k) ids id free d)

add_recent-due :
    (log : List Sent) (key trigger now : ℕ) (ids : List ℕ) (ms : List RecentMsg)
    → All (λ n. any (is_entry key n) log ≡ true) ms
    → (All (λ id. is_due log key trigger now id ≡ true) ids) × DistinctKeys (λ (k : ℕ). k) ids
    → (All (λ id. is_due log key trigger now id ≡ true) (add_recent now ids ms))
      × DistinctKeys (λ (k : ℕ). k) (add_recent now ids ms)
add_recent-due log key trigger now ids [] known h = h
add_recent-due log key trigger now ids (m ∷ ms) (here, known) (due, d) =
    add_recent-due log key trigger now
      (if is_recent recall_window_ms now m then add_id ids m.id else ids) ms known
      (if_cases
        (λ xs. All (λ id. is_due log key trigger now id ≡ true) xs × DistinctKeys (λ (k : ℕ). k) xs)
        (is_recent recall_window_ms now m)
        (λ recent. (
          add_id-All (λ id. is_due log key trigger now id ≡ true) ids m.id
              (ground (arith, entry-is_own key now m log recent here)) due,
          add_id-DistinctKeys ids m.id d,
        ))
        (λ _. (due, d)))

-- A recall asks once for each message, and only for the message that set off the detection and for messages
-- that the log has of the same user in the same group within two minutes.
pub recalled_ids-due :
    (log : List Sent) (key trigger now : ℕ)
    → IsTimely 0 log now
    → let ids = recalled_ids (tracked fresh log) key trigger now in
      (All (λ id. is_due log key trigger now id ≡ true) ids) × DistinctKeys (λ (k : ℕ). k) ids
unfolding recalled_ids
recalled_ids-due log key trigger now timely =
    let known = tracked-IsKnown fresh [] log 0 now timely fresh-IsFaithful (λ _. tt) in
    add_recent-due log key trigger now (trigger ∷ []) (entries_of (tracked fresh log) key)
      (known key) ((ground (arith, ==_iff trigger trigger), tt), (tt, tt))
