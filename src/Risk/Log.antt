-- ===== src/Risk/Log.antt =====
-- The history of messages against the log of all of them.
use mathlib.Core.List.{append-nil, append_assoc}
use qq_guardian.Base.{
  ℕ, ◌-◌, ◌≤◌, ◌≡◌, refl, min, Bool, true, false, ◌&&◌, List, [], ◌∷◌, ◌++◌, Option, none, some,
  ltb, ◌==◌, ==_iff, select, delete_where, any, count_where, count_where-append, lookup, put,
  lookup-put, or_else, if◌then◌else◌, arith, Bool-cases, inl, inr, if_cases, ap, sym, subst, ◌∙◌,
  ◌⊎◌, All, All-append, All-map, DistinctKeys, DistinctKeys-put, DistinctKeys-delete, lookup-delete,
}
use qq_guardian.Risk.History.{
  recall_window_ms, recall_max_messages, RecentMsg, History, is_recent, entries_of, keep_last,
  is_idle, swept, track_message,
}
use qq_guardian.Risk.Recent.{
  IsSorted, keep_last-count, keep_last-All, keep_last-IsSorted, select-All, select-IsSorted,
  add-IsSorted, select-count, idle-count,
}

-- A message of the log, by the number for its user and group, and its time.
pub record Sent : Type 0 where
  pub key : ℕ
  pub message : ℕ
  pub at : ℕ

-- The messages of the log that a user sent to a group within a window.
abbrev pub is_sent : (key window now : ℕ) → Sent → Bool
is_sent key window now m = (m.key == key) && ltb (now - m.at) window

-- The history after a log, and the order of its times.
abbrev pub tracked : History → List Sent → History
tracked h [] = h
tracked h (m ∷ log) = tracked (track_message h m.key m.message m.at) log

abbrev pub IsTimely : (since : ℕ) → List Sent → (now : ℕ) → Type 0
IsTimely t [] now = t ≤ now
IsTimely t (m ∷ log) now = (t ≤ m.at) × IsTimely m.at log now

-- The history holds the last recent messages of the log `past`, which ends by the time `t`.
pub record IsFaithful (h : History) (past : List Sent) (t : ℕ) : Type 0 where
  pub distinct : DistinctKeys (λ (p : ℕ × List RecentMsg). p.0) h.recent_msgs
  pub sorted : (key : ℕ) → IsSorted (entries_of h key)
  pub over : (key : ℕ) → All (λ (m : RecentMsg). m.ts ≤ t) (entries_of h key)
  pub counted :
      (key now window : ℕ)
      → t ≤ now
      → window ≤ recall_window_ms
      → count_where (is_recent window now) (entries_of h key)
        ≡ min recall_max_messages (count_where (is_sent key window now) past)

-- The history with the new message, before the sweep.
abbrev pub recorded : History → Sent → History
recorded h m = record h {
  recent_msgs = put h.recent_msgs m.key (
      keep_last recall_max_messages (
        select (is_recent recall_window_ms m.at) (entries_of h m.key)
        ++ record { ts = m.at; id = m.message } ∷ []));
}

-- The entries of the sender, with the new one.
abbrev pub entries_with : History → Sent → List RecentMsg
entries_with h m =
    select (is_recent recall_window_ms m.at) (entries_of h m.key)
    ++ record { ts = m.at; id = m.message } ∷ []

or_else-if :
    (b : Bool) (ms : List RecentMsg) (o : Option (List RecentMsg))
    → or_else (if b then some ms else o) [] ≡ (if b then ms else or_else o [])
or_else-if true ms o = refl
or_else-if false ms o = refl

pub entries-recorded :
    (h : History) (m : Sent) (i : ℕ)
    → entries_of (recorded h m) i
      ≡ (if m.key == i then keep_last recall_max_messages (entries_with h m) else entries_of h i)
entries-recorded h m i =
    ap (λ (o : Option (List RecentMsg)). or_else o [])
      (lookup-put h.recent_msgs m.key (keep_last recall_max_messages (entries_with h m)) i)
    ∙ or_else-if (m.key == i) (keep_last recall_max_messages (entries_with h m))
        (lookup h.recent_msgs i)

module _ (h : History) (past : List Sent) (t : ℕ) (m : Sent) (le : t ≤ m.at)
    (f : IsFaithful h past t) where
  over_now : (key : ℕ) → All (λ (n : RecentMsg). n.ts ≤ m.at) (entries_of h key)
  over_now key = All-map (entries_of h key) (λ n early. omega arith) (f.over key)

  entries_with-over : All (λ (n : RecentMsg). n.ts ≤ m.at) (entries_with h m)
  entries_with-over =
      All-append (λ (n : RecentMsg). n.ts ≤ m.at)
        (select (is_recent recall_window_ms m.at) (entries_of h m.key))
        (record { ts = m.at; id = m.message } ∷ [])
        (select-All (λ (n : RecentMsg). n.ts ≤ m.at) (is_recent recall_window_ms m.at)
          (entries_of h m.key) (over_now m.key))
        ((omega arith), tt)

  entries_with-IsSorted : IsSorted (entries_with h m)
  entries_with-IsSorted =
      add-IsSorted (select (is_recent recall_window_ms m.at) (entries_of h m.key))
        (record { ts = m.at; id = m.message })
        (select-All (λ (n : RecentMsg). n.ts ≤ m.at) (is_recent recall_window_ms m.at)
          (entries_of h m.key) (over_now m.key))
        (select-IsSorted (is_recent recall_window_ms m.at) (entries_of h m.key) (f.sorted m.key))

  counted_sender :
      (now window : ℕ)
      → m.at ≤ now
      → window ≤ recall_window_ms
      → count_where (is_recent window now) (entries_of (recorded h m) m.key)
        ≡ min recall_max_messages (count_where (is_sent m.key window now) (past ++ m ∷ []))
  counted_sender now window later short =
      let here : entries_of (recorded h m) m.key
          ≡ keep_last recall_max_messages (entries_with h m) =
        entries-recorded h m m.key ∙ ground (arith, ==_iff m.key m.key) in
      ap (count_where (is_recent window now)) here
      ∙ ground (
        arith,
        keep_last-count window now recall_max_messages (entries_with h m) entries_with-IsSorted,
        count_where-append (is_recent window now)
            (select (is_recent recall_window_ms m.at) (entries_of h m.key))
            (record { ts = m.at; id = m.message } ∷ []),
        select-count m.at now window (entries_of h m.key) later short,
        f.counted m.key now window (omega arith) short,
        count_where-append (is_sent m.key window now) past (m ∷ []),
        ==_iff m.key m.key,
      )

  counted_other :
      (i now window : ℕ)
      → (m.key == i) ≡ false
      → m.at ≤ now
      → window ≤ recall_window_ms
      → count_where (is_recent window now) (entries_of (recorded h m) i)
        ≡ min recall_max_messages (count_where (is_sent i window now) (past ++ m ∷ []))
  counted_other i now window other later short =
      let same : entries_of (recorded h m) i ≡ entries_of h i =
        entries-recorded h m i ∙ rw other refl in
      ap (count_where (is_recent window now)) same
      ∙ ground (
        arith,
        f.counted i now window (omega arith) short,
        count_where-append (is_sent i window now) past (m ∷ []),
      )

  pub recorded-IsFaithful : IsFaithful (recorded h m) (past ++ m ∷ []) m.at
  recorded-IsFaithful = record {
    distinct = DistinctKeys-put h.recent_msgs m.key _ f.distinct;
    sorted = λ i. subst IsSorted (sym (entries-recorded h m i)) (
        if_cases IsSorted (m.key == i)
          (λ _. keep_last-IsSorted recall_max_messages (entries_with h m) entries_with-IsSorted)
          (λ _. f.sorted i));
    over = λ i. subst (All (λ (n : RecentMsg). n.ts ≤ m.at)) (sym (entries-recorded h m i)) (
        if_cases (All (λ (n : RecentMsg). n.ts ≤ m.at)) (m.key == i)
          (λ _.
            keep_last-All (λ (n : RecentMsg). n.ts ≤ m.at) recall_max_messages (entries_with h m)
              entries_with-over)
          (λ _. over_now i));
    counted = λ i now window later short. elim (Bool-cases (m.key == i)) [
      | inl here ↦
          subst
            (λ k.
              count_where (is_recent window now) (entries_of (recorded h m) k)
              ≡ min recall_max_messages (count_where (is_sent k window now) (past ++ m ∷ [])))
            ((==_iff m.key i).0 here) (counted_sender now window later short)
      | inr other ↦ counted_other i now window other later short
    ];
  }

-- A sweep deletes only entries that no window can see any more.
abbrev pub IsSwept : (t : ℕ) (before after : List RecentMsg) → Type 0
IsSwept t before after =
    (after ≡ before) ⊎ ((after ≡ []) × (any (is_recent recall_window_ms t) before ≡ false))

pub entries-swept :
    (h : History) (t i : ℕ)
    → DistinctKeys (λ (p : ℕ × List RecentMsg). p.0) h.recent_msgs
    → IsSwept t (entries_of h i) (entries_of (swept h t) i)
unfolding swept
entries-swept h t i d =
    if_cases (λ (h' : History). IsSwept t (entries_of h i) (entries_of h' i))
      (ltb 60000 (t - h.last_sweep))
      (λ _. gone (lookup h.recent_msgs i) (lookup-delete (is_idle t) h.recent_msgs i d))
      (λ _. inl refl)
  where
    gone :
        (o : Option (List RecentMsg))
        → lookup (delete_where (is_idle t) h.recent_msgs) i
          ≡ elim o [ none ↦ none | some a ↦ if is_idle t (i, a) then none else some a ]
        → IsSwept t (or_else o []) (or_else (lookup (delete_where (is_idle t) h.recent_msgs) i) [])
    gone none e = rw e (inl refl)
    gone (some a) e = elim (Bool-cases (is_idle t (i, a))) [
      | inl idle ↦
          inr (ap (λ (x : Option (List RecentMsg)). or_else x []) (rw idle at e), ground arith)
      | inr busy ↦ inl (ap (λ (x : Option (List RecentMsg)). or_else x []) (rw busy at e))
    ]

pub swept-IsFaithful :
    (h : History) (past : List Sent) (t : ℕ) → IsFaithful h past t → IsFaithful (swept h t) past t
unfolding swept
swept-IsFaithful h past t f = record {
  distinct =
      if_cases (λ (h' : History). DistinctKeys (λ (p : ℕ × List RecentMsg). p.0) h'.recent_msgs)
        (ltb 60000 (t - h.last_sweep))
        (λ _.
          DistinctKeys-delete (λ (p : ℕ × List RecentMsg). p.0) (is_idle t) h.recent_msgs
            f.distinct)
        (λ _. f.distinct);
  sorted = λ i. elim (entries-swept h t i f.distinct) [
    | inl same ↦ subst IsSorted (sym same) (f.sorted i)
    | inr (gone, _) ↦ subst IsSorted (sym gone) tt
  ];
  over = λ i. elim (entries-swept h t i f.distinct) [
    | inl same ↦ subst (All (λ (n : RecentMsg). n.ts ≤ t)) (sym same) (f.over i)
    | inr (gone, _) ↦ subst (All (λ (n : RecentMsg). n.ts ≤ t)) (sym gone) tt
  ];
  counted = λ i now window later short. elim (entries-swept h t i f.distinct) [
    | inl same ↦ ap (count_where (is_recent window now)) same ∙ f.counted i now window later short
    | inr (gone, idle) ↦
        ap (count_where (is_recent window now)) gone
        ∙ sym (idle-count t now window (entries_of h i) later short idle)
        ∙ f.counted i now window later short
  ];
}

pub tracked-IsFaithful :
    (h : History) (past log : List Sent) (t now : ℕ)
    → IsTimely t log now
    → IsFaithful h past t
    → IsFaithful (tracked h log) (past ++ log) now
unfolding track_message
tracked-IsFaithful h past [] t now timely f =
    subst (λ xs. IsFaithful h xs now) (sym (append-nil past))
      (record {
        distinct = f.distinct;
        sorted = f.sorted;
        over = λ i. All-map (entries_of h i) (λ n early. omega arith) (f.over i);
        counted = λ i later window after short. f.counted i later window (omega arith) short;
      })
tracked-IsFaithful h past (m ∷ log) t now (le, timely) f =
    subst (λ xs. IsFaithful (tracked (swept (recorded h m) m.at) log) xs now)
      (append_assoc past (m ∷ []) log)
      (tracked-IsFaithful (swept (recorded h m) m.at) (past ++ m ∷ []) log m.at now timely (
        swept-IsFaithful (recorded h m) (past ++ m ∷ []) m.at
          (recorded-IsFaithful h past t m le f)))

-- The history of a new service.
abbrev pub fresh : History
fresh = record { recent_msgs = []; last_sweep = 0 }

pub fresh-IsFaithful : IsFaithful fresh [] 0
fresh-IsFaithful = record {
  distinct = tt;
  sorted = λ _. tt;
  over = λ _. tt;
  counted = λ _ _ _ _ _. ground arith;
}
