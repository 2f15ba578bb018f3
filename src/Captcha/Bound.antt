-- ===== src/Captcha/Bound.antt =====
-- How many sessions of a user a reconciliation leaves.
use qq_guardian.Base.{
  count_where-update_le, any-update_back, count_where-select, count_where-ext, length-count_where,
  length-add, count_where-none, ℕ, ◌+◌, ◌≤◌, ◌≡◌, refl, Bool, true, false, ◌&&◌, not, List, [], ◌∷◌,
  String, str_eq, str_eq_iff, ltb, ◌==◌, ==_iff, any, select, update_where, if◌then◌else◌, length,
  arith, count_where, Bool-cases, ◌⊎◌, inl, inr, if_cases, count_where-append, any-append, subst,
}
use qq_guardian.Approval.Records.{ApprovalRecord, as_expired}
use qq_guardian.Captcha.Sessions.{
  Session, Office, is_waiting_at, with_approvals, with_sessions, as_solved, as_pending,
  is_open_session, close_session, mark_approval_pending,
}
use qq_guardian.Captcha.Reconcile.{
  is_late, is_orphan, is_timely_at, is_candidate, insert_newest, newest_first, Reconciliation,
  close_retired, has_code, placed, partition, reconcile_active_sessions,
}

-- The id of the session is one of those of a list.
abbrev pub has_id_in : List Session → Session → Bool
has_id_in ys x = any (λ (y : Session). y.id == x.id) ys

insert_newest-count :
    (g : Session → Bool) (x : Session) (xs : List Session)
    → count_where g (insert_newest x xs) ≡ count_where g (x ∷ xs)
insert_newest-count g x [] = refl
insert_newest-count g x (y ∷ ys) = ground (arith, insert_newest-count g x ys)

newest_first-count :
    (g : Session → Bool) (xs : List Session) → count_where g (newest_first xs) ≡ count_where g xs
newest_first-count g [] = refl
newest_first-count g (x ∷ xs) =
    ground (arith, newest_first-count g xs, insert_newest-count g x (newest_first xs))

timely-closed :
    (id now : ℕ) (k : ℕ) (reason : String) (rows : List ApprovalRecord)
    → any (is_timely_at id now) (update_where (is_waiting_at k) (as_pending reason) rows) ≡ true
    → any (is_timely_at id now) rows ≡ true
timely-closed id now k reason rows h =
    any-update_back (is_timely_at id now) (is_waiting_at k) (as_pending reason) rows
      (λ r _. ground arith) h

close_retired-count :
    (user now : ℕ) (q : Session → Bool) (s : Office) (ys : List Session)
    → let s' = close_retired s ys in
      count_where (λ x. is_candidate user now s'.desk.records.rows x && q x) s'.sessions
      ≤ count_where
          (λ x. is_candidate user now s.desk.records.rows x && (not (has_id_in ys x) && q x))
          s.sessions
unfolding close_retired mark_approval_pending close_session
close_retired-count user now q s [] = omega arith
close_retired-count user now q s (y ∷ ys) =
    let closed =
      mark_approval_pending (close_session s y.id) y.approval_id
        "captcha_active_session_limit_migration" in
    let rest = close_retired-count user now q closed ys in
    let here : count_where
          (λ x. is_candidate user now closed.desk.records.rows x && (not (has_id_in ys x) && q x))
          closed.sessions
        ≤ count_where
            (λ x.
              is_candidate user now s.desk.records.rows x && (not (has_id_in (y ∷ ys) x) && q x))
            s.sessions =
      count_where-update_le
        (λ x. is_candidate user now closed.desk.records.rows x && (not (has_id_in ys x) && q x))
        (λ x. is_candidate user now s.desk.records.rows x && (not (has_id_in (y ∷ ys) x) && q x))
        (is_open_session y.id) as_solved s.sessions (λ x _. ground arith)
        (λ x other kept. ground (
          arith,
          timely-closed x.approval_id now y.approval_id "captcha_active_session_limit_migration"
              s.desk.records.rows,
          ==_iff y.id x.id,
          ==_iff x.id y.id,
        )) in
    omega arith

module _ (code_of : ℕ → String) where
  partition-keeps :
      (P : Reconciliation → Type 0) (r : Reconciliation) (xs : List Session)
      → ((r : Reconciliation) (x : Session) → P r → P (placed code_of r x))
      → P r
      → P (partition code_of r xs)
  unfolding partition
  partition-keeps P r [] step h = h
  partition-keeps P r (x ∷ xs) step h = partition-keeps P (placed code_of r x) xs step (step r x h)

  placed-length :
      (r : Reconciliation) (x : Session)
      → length r.active ≤ 5
      → length (placed code_of r x).active ≤ 5
  placed-length r x h =
      if_cases (λ (r' : Reconciliation). length r'.active ≤ 5)
        (ltb (length r.active) 5 && not (has_code code_of r.active (code_of x.id)))
        (λ room. ground (arith, length-add r.active x)) (λ _. h)

  placed-codes :
      (code : String) (r : Reconciliation) (x : Session)
      → count_where (λ (y : Session). str_eq (code_of y.id) code) r.active ≤ 1
      → count_where (λ (y : Session). str_eq (code_of y.id) code) (placed code_of r x).active ≤ 1
  placed-codes code r x h =
      if_cases
        (λ (r' : Reconciliation).
          count_where (λ (y : Session). str_eq (code_of y.id) code) r'.active ≤ 1)
        (ltb (length r.active) 5 && not (has_code code_of r.active (code_of x.id)))
        (λ room. elim (Bool-cases (str_eq (code_of x.id) code)) [
          | inl same ↦
              let one : code_of x.id ≡ code = (str_eq_iff (code_of x.id) code).0 same in
              let unused : has_code code_of r.active code ≡ false =
                subst (λ c. has_code code_of r.active c ≡ false) one (ground arith) in
              ground (
                arith,
                count_where-append (λ (y : Session). str_eq (code_of y.id) code) r.active (x ∷ []),
                count_where-none (λ (y : Session). str_eq (code_of y.id) code) r.active unused,
              )
          | inr other ↦ ground (
            arith,
            count_where-append (λ (y : Session). str_eq (code_of y.id) code) r.active (x ∷ []),
          )
        ])
        (λ _. h)

  placed-retired :
      (p : Session → Bool) (r : Reconciliation) (x : Session)
      → any p r.retired ≡ true
      → any p (placed code_of r x).retired ≡ true
  placed-retired p r x h =
      if_cases (λ (r' : Reconciliation). any p r'.retired ≡ true)
        (ltb (length r.active) 5 && not (has_code code_of r.active (code_of x.id))) (λ _. h)
        (λ _. ground (arith, any-append p r.retired (x ∷ [])))

  placed-cases :
      (q : Session → Bool) (r : Reconciliation) (x : Session)
      → ((has_id_in (placed code_of r x).retired x ≡ true)
          × ((placed code_of r x).active ≡ r.active))
        ⊎ (count_where q (placed code_of r x).active
            ≡ count_where q r.active + (if q x then 1 else 0))
  placed-cases q r x =
      if_cases
        (λ (r' : Reconciliation).
          ((has_id_in r'.retired x ≡ true) × (r'.active ≡ r.active))
          ⊎ (count_where q r'.active ≡ count_where q r.active + (if q x then 1 else 0)))
        (ltb (length r.active) 5 && not (has_code code_of r.active (code_of x.id)))
        (λ _. inr (ground (arith, count_where-append q r.active (x ∷ []))))
        (λ _. inl (
          ground (
            arith,
            any-append (λ (y : Session). y.id == x.id) r.retired (x ∷ []),
            ==_iff x.id x.id,
          ),
          refl,
        ))

  -- Of the candidates only those that become active are not retired.
  partition-count :
      (q : Session → Bool) (r : Reconciliation) (xs : List Session)
      → let r' = partition code_of r xs in
        count_where (λ x. not (has_id_in r'.retired x) && q x) xs + count_where q r.active
        ≤ count_where q r'.active
  unfolding partition
  partition-count q r [] = omega arith
  partition-count q r (x ∷ xs) =
      let rest = partition-count q (placed code_of r x) xs in
      elim (placed-cases q r x) [
        | inl (out, same) ↦
            let gone : has_id_in (partition code_of (placed code_of r x) xs).retired x ≡ true =
              partition-keeps (λ (r' : Reconciliation). has_id_in r'.retired x ≡ true)
                (placed code_of r x) xs
                (λ r' y h. placed-retired (λ (z : Session). z.id == x.id) r' y h) out in
            let less : count_where q (placed code_of r x).active ≡ count_where q r.active =
              rw same refl in
            ground arith
        | inr more ↦ ground arith
      ]

  reconcile-count :
      (q : Session → Bool) (s : Office) (user now : ℕ)
      → let (s', r) = reconcile_active_sessions code_of s user now in
        count_where (λ x. is_candidate user now s'.desk.records.rows x && q x) s'.sessions
        ≤ count_where q r.active
  unfolding reconcile_active_sessions
  reconcile-count q s user now =
      let s1 =
        with_approvals s (update_where (is_late user now) (as_expired now) s.desk.records.rows) in
      let s2 =
        with_sessions s1
          (update_where (is_orphan user s1.desk.records.rows) as_solved s1.sessions) in
      let selected = select (is_candidate user now s2.desk.records.rows) s2.sessions in
      let none_yet : Reconciliation = record { active = []; retired = [] } in
      let r = partition code_of none_yet (newest_first selected) in
      let left : Session → Bool = λ x. not (has_id_in r.retired x) && q x in
      let closed = close_retired-count user now q s2 r.retired in
      let chosen =
        count_where-select (is_candidate user now s2.desk.records.rows) left s2.sessions in
      let ordered = newest_first-count left selected in
      let kept = partition-count q none_yet (newest_first selected) in omega arith

  active-length :
      (s : Office) (user now : ℕ)
      → length (reconcile_active_sessions code_of s user now).1.active ≤ 5
  unfolding reconcile_active_sessions
  active-length s user now =
      partition-keeps (λ (r : Reconciliation). length r.active ≤ 5) _ _ placed-length (omega arith)

  active-codes :
      (code : String) (s : Office) (user now : ℕ)
      → count_where
          (λ x. str_eq (code_of x.id) code)
          (reconcile_active_sessions code_of s user now).1.active
        ≤ 1
  unfolding reconcile_active_sessions
  active-codes code s user now =
      partition-keeps
        (λ (r : Reconciliation).
          count_where (λ (x : Session). str_eq (code_of x.id) code) r.active ≤ 1)
        _ _ (λ r x h. placed-codes code r x h) (omega arith)

  -- After a reconciliation at most five sessions of the user can be answered, and no two of them have one
  -- code, however many there were before.
  pub reconcile-bounded :
      (s : Office) (user now : ℕ)
      → let s' = (reconcile_active_sessions code_of s user now).0 in
        (count_where (is_candidate user now s'.desk.records.rows) s'.sessions ≤ 5)
        × ((code : String)
            → count_where
                (λ x. is_candidate user now s'.desk.records.rows x && str_eq (code_of x.id) code)
                s'.sessions
              ≤ 1)
  reconcile-bounded s user now =
      let (s', r) = reconcile_active_sessions code_of s user now in
      let can = is_candidate user now s'.desk.records.rows in
      (
        ground (
          arith,
          reconcile-count (λ x. true) s user now,
          count_where-ext (λ x. can x && true) can s'.sessions (λ x. ground arith),
          length-count_where r.active,
          active-length s user now,
        ),
        (λ code. ground (
          arith,
          reconcile-count (λ x. str_eq (code_of x.id) code) s user now,
          active-codes code s user now,
        )),
      )
