-- ===== src/Approval/Rows.antt =====
-- Lemmas on the rows of the approval table under its operations.
use qq_guardian.Base.{
  ltb, ℕ, ◌<◌, ◌≡◌, refl, ◌∙◌, Bool, true, false, ◌||◌, List, [], ◌∷◌, ◌++◌, Option, some, String,
  str_eq, arith, find, any, select, update_where, has_key, All, All-update, Bool-cases,
  Option-cases, inl, inr, if_cases, is_some,
}
use qq_guardian.Approval.Records.{
  Status, ApprovalRecord, Records, id_of, is_open, latest, find_by_flag, find_by_id, update_status,
  is_open_at, with_failure, with_status, mark_action_failure, swept_at, is_overdue, as_expired,
  expire_old_pending,
}
use qq_guardian.Approval.Service.{Desk, Call, Counter, approve, reject, conclude, bump, meanwhile}

-- The numbers of the records are below the next one.
abbrev pub IsNumbered : Records → Type 0
IsNumbered t = All (λ (r : ApprovalRecord). r.id < t.next_id) t.rows

abbrev pub has_flag : String → List ApprovalRecord → Bool
has_flag flag rows = any (λ (r : ApprovalRecord). str_eq r.flag flag) rows

latest-is_some :
    (p : ApprovalRecord → Bool) (rows : List ApprovalRecord)
    → is_some (latest (select p rows)) ≡ any p rows
unfolding latest
latest-is_some p [] = refl
latest-is_some p (r ∷ rows) = elim (Bool-cases (p r)) [
  | inr miss ↦ rw miss (latest-is_some p rows)
  | inl hit ↦ rw hit (elim (Option-cases (latest (select p rows))) [
    | inl empty ↦ rw empty refl
    | inr (q, newest) ↦ rw newest (
        if_cases (λ (x : Option ApprovalRecord). is_some x ≡ true) (ltb r.created_at q.created_at)
          (λ _. refl) (λ _. refl))
  ])
]

pub find_by_flag-is_some :
    (t : Records) (flag : String) → is_some (find_by_flag t flag) ≡ has_flag flag t.rows
unfolding find_by_flag
find_by_flag-is_some t flag = latest-is_some (λ r. str_eq r.flag flag) t.rows

pub has_flag-update :
    (flag : String) (p : ApprovalRecord → Bool) (f : ApprovalRecord → ApprovalRecord)
    (rows : List ApprovalRecord)
    → ((r : ApprovalRecord) → (f r).flag ≡ r.flag)
    → has_flag flag (update_where p f rows) ≡ has_flag flag rows
has_flag-update flag p f [] same = refl
has_flag-update flag p f (r ∷ rows) same =
    ground (arith, same r, has_flag-update flag p f rows same)

pub has_flag-append :
    (flag : String) (rows : List ApprovalRecord) (r : ApprovalRecord)
    → has_flag flag (rows ++ r ∷ []) ≡ (has_flag flag rows || str_eq r.flag flag)
has_flag-append flag [] r = ground arith
has_flag-append flag (x ∷ rows) r = ground (arith, has_flag-append flag rows r)

module _ {ℓ} {A : Type ℓ} (key : A → ℕ) where
  pub find-untouched :
      (k : ℕ) (p : A → Bool) (f : A → A) (xs : List A) (c : A)
      → ((x : A) → key (f x) ≡ key x)
      → find (has_key key k) xs ≡ some c
      → p c ≡ false
      → find (has_key key k) (update_where p f xs) ≡ some c
  find-untouched k p f [] c same e n = cc
  find-untouched k p f (x ∷ xs) c same e n = ground (arith, same x, find-untouched k p f xs c same)

  pub find-before :
      (k : ℕ) (xs ys : List A) (c : A)
      → find (has_key key k) xs ≡ some c
      → find (has_key key k) (xs ++ ys) ≡ some c
  find-before k [] ys c e = cc
  find-before k (x ∷ xs) ys c e = ground (arith, find-before k xs ys c)

-- The sweeps keep the flags, the numbers and every record that is not open.
pub swept_at-has_flag :
    (t : Records) (times : List ℕ) (flag : String)
    → has_flag flag (swept_at t times).rows ≡ has_flag flag t.rows
unfolding swept_at expire_old_pending
swept_at-has_flag t [] flag = refl
swept_at-has_flag t (now ∷ times) flag =
    swept_at-has_flag (expire_old_pending t now) times flag
    ∙ has_flag-update flag (is_overdue now) (as_expired now) t.rows (λ _. refl)

pub expire_old_pending-find :
    (t : Records) (now k : ℕ) (c : ApprovalRecord)
    → find_by_id t k ≡ some c
    → is_open c ≡ false
    → find_by_id (expire_old_pending t now) k ≡ some c
unfolding expire_old_pending find_by_id
expire_old_pending-find t now k c found closed =
    find-untouched id_of k (is_overdue now) (as_expired now) t.rows c (λ _. refl) found
      (ground arith)

pub expire_old_pending-IsNumbered :
    (t : Records) (now : ℕ) → IsNumbered t → IsNumbered (expire_old_pending t now)
unfolding expire_old_pending
expire_old_pending-IsNumbered t now numbered =
    All-update (λ (r : ApprovalRecord). r.id < t.next_id) (is_overdue now) (as_expired now) t.rows
      (λ _ _ h. h) numbered

swept_at-find :
    (t : Records) (times : List ℕ) (k : ℕ) (c : ApprovalRecord)
    → find_by_id t k ≡ some c
    → is_open c ≡ false
    → find_by_id (swept_at t times) k ≡ some c
unfolding swept_at
swept_at-find t [] k c found closed = found
swept_at-find t (now ∷ times) k c found closed =
    swept_at-find (expire_old_pending t now) times k c
      (expire_old_pending-find t now k c found closed) closed

swept_at-IsNumbered : (t : Records) (times : List ℕ) → IsNumbered t → IsNumbered (swept_at t times)
unfolding swept_at
swept_at-IsNumbered t [] numbered = numbered
swept_at-IsNumbered t (now ∷ times) numbered =
    swept_at-IsNumbered (expire_old_pending t now) times
      (expire_old_pending-IsNumbered t now numbered)

-- The calls of the provider change no record.
module _ (accepts : List Call → Call → Bool) (s : Desk) (flag reason : String)
    (operator : Option String) where
  pub approve-records : (approve accepts s flag operator reason).0.records ≡ s.records
  unfolding approve
  approve-records =
      if_cases (λ (r : Desk × Bool). r.0.records ≡ s.records) _ (λ _. refl) (λ _. refl)

  pub reject-records : (reject accepts s flag reason operator).0.records ≡ s.records
  unfolding reject
  reject-records = if_cases (λ (r : Desk × Bool). r.0.records ≡ s.records) _ (λ _. refl) (λ _. refl)

module _ (accepts : List Call → Call → Bool) (id group : ℕ) (status : Status)
    (operator reason : Option String) (counter : Counter) (failure : String) (now : ℕ) where
  pub conclude-has_flag :
      (r : Desk × Bool) (flag : String)
      → has_flag flag
          (conclude accepts r id group status operator reason counter failure now).0.records.rows
        ≡ has_flag flag r.0.records.rows
  unfolding conclude bump update_status mark_action_failure
  conclude-has_flag (s, false) flag =
      has_flag-update flag (is_open_at id) (with_failure failure) (meanwhile s).records.rows
        (λ _. refl)
      ∙ swept_at-has_flag s.records (s.sweeps s.calls) flag
  conclude-has_flag (s, true) flag =
      has_flag-update flag (has_key id_of id) (with_status status operator reason now)
        (meanwhile s).records.rows (λ _. refl)
      ∙ swept_at-has_flag s.records (s.sweeps s.calls) flag

  pub conclude-find :
      (r : Desk × Bool) (k : ℕ) (c : ApprovalRecord)
      → find_by_id r.0.records k ≡ some c
      → is_open c ≡ false
      → has_key id_of id c ≡ false
      → find_by_id
          (conclude accepts r id group status operator reason counter failure now).0.records
          k
        ≡ some c
  unfolding conclude bump update_status mark_action_failure find_by_id
  conclude-find (s, false) k c found closed other =
      find-untouched id_of k (is_open_at id) (with_failure failure) (meanwhile s).records.rows c
        (λ _. refl) (swept_at-find s.records (s.sweeps s.calls) k c found closed) (ground arith)
  conclude-find (s, true) k c found closed other =
      find-untouched id_of k (has_key id_of id) (with_status status operator reason now)
        (meanwhile s).records.rows c (λ _. refl)
        (swept_at-find s.records (s.sweeps s.calls) k c found closed) other

  pub conclude-IsNumbered :
      (r : Desk × Bool)
      → IsNumbered r.0.records
      → IsNumbered
          (conclude accepts r id group status operator reason counter failure now).0.records
  unfolding conclude bump update_status mark_action_failure
  conclude-IsNumbered (s, false) numbered =
      let m = (meanwhile s).records in
      All-update (λ (r : ApprovalRecord). r.id < m.next_id) (is_open_at id) (with_failure failure)
        m.rows (λ _ _ h. h) (swept_at-IsNumbered s.records (s.sweeps s.calls) numbered)
  conclude-IsNumbered (s, true) numbered =
      let m = (meanwhile s).records in
      All-update (λ (r : ApprovalRecord). r.id < m.next_id) (has_key id_of id)
        (with_status status operator reason now) m.rows (λ _ _ h. h)
        (swept_at-IsNumbered s.records (s.sweeps s.calls) numbered)
