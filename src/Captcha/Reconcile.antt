-- ===== src/Captcha/Reconcile.antt =====
-- _reconcileActiveSessions of src/modules/captcha/index.ts.
use qq_guardian.Base.{
  ℕ, Bool, ◌&&◌, ◌||◌, not, List, [], ◌∷◌, ◌++◌, String, str_eq, ltb, leb, ◌==◌, any, select,
  update_where, if◌then◌else◌, length,
}
use qq_guardian.Approval.Records.{ApprovalRecord, is_captcha, as_expired}
use qq_guardian.Captcha.Sessions.{
  Session, Office, with_sessions, with_approvals, is_waiting_at, as_solved, close_session,
  mark_approval_pending,
}

abbrev pub max_active_captcha_sessions_per_user : ℕ
max_active_captcha_sessions_per_user = 5

-- `user_id = ? AND status = 'captcha' AND expires_at < ?`
abbrev pub is_late : (user now : ℕ) → ApprovalRecord → Bool
is_late user now r = (r.user_id == user) && (is_captcha r.status && ltb r.expires_at now)

abbrev pub is_orphan : (user : ℕ) → List ApprovalRecord → Session → Bool
is_orphan user rows x =
    (x.user_id == user) && (not x.solved && not (any (is_waiting_at x.approval_id) rows))

-- The approval of the session waits for it, and is in time.
abbrev pub is_timely_at : (id now : ℕ) → ApprovalRecord → Bool
is_timely_at id now r = is_waiting_at id r && leb now r.expires_at

-- The rows of the SELECT with its JOIN.
abbrev pub is_candidate : (user now : ℕ) → List ApprovalRecord → Session → Bool
is_candidate user now rows x =
    (x.user_id == user)
    && (not x.solved && (leb now x.expires_at && any (is_timely_at x.approval_id now) rows))

-- ORDER BY created_at DESC, id DESC
abbrev pub is_newer : Session → Session → Bool
is_newer x y = ltb y.created_at x.created_at || ((x.created_at == y.created_at) && ltb y.id x.id)

abbrev pub insert_newest : Session → List Session → List Session
insert_newest x [] = x ∷ []
insert_newest x (y ∷ ys) =
    let rest = insert_newest x ys in if is_newer y x then y ∷ rest else x ∷ y ∷ ys

abbrev pub newest_first : List Session → List Session
newest_first [] = []
newest_first (x ∷ xs) = insert_newest x (newest_first xs)

pub record Reconciliation : Type 0 where
  pub active : List Session
  pub retired : List Session

unfoldable pub close_retired : Office → List Session → Office
close_retired s [] = s
close_retired s (x ∷ xs) =
    close_retired
      (mark_approval_pending (close_session s x.id) x.approval_id
        "captcha_active_session_limit_migration")
      xs

-- `code_of` is `captchaChallengeCode`, ten hexadecimal digits of a hash of the id.
module _ (code_of : ℕ → String) where
  abbrev pub has_code : List Session → String → Bool
  has_code xs code = any (λ (x : Session). str_eq (code_of x.id) code) xs

  -- The loop over the candidates; `codes` holds the codes of the active sessions.
  abbrev pub placed : Reconciliation → Session → Reconciliation
  placed r x =
      if ltb (length r.active) max_active_captcha_sessions_per_user
        && not (has_code r.active (code_of x.id))
      then record r { active = r.active ++ x ∷ [] }
      else record r { retired = r.retired ++ x ∷ [] }

  unfoldable pub partition : Reconciliation → List Session → Reconciliation
  partition r [] = r
  partition r (x ∷ xs) = partition (placed r x) xs

  unfoldable pub reconcile_active_sessions : Office → (user now : ℕ) → Office × Reconciliation
  reconcile_active_sessions s user now =
      let s1 =
        with_approvals s (update_where (is_late user now) (as_expired now) s.desk.records.rows) in
      let s2 =
        with_sessions s1
          (update_where (is_orphan user s1.desk.records.rows) as_solved s1.sessions) in
      let candidates =
        newest_first (select (is_candidate user now s2.desk.records.rows) s2.sessions) in
      let r = partition (record { active = []; retired = [] }) candidates in
      (close_retired s2 r.retired, r)
