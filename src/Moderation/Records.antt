-- ===== src/Moderation/Records.antt =====
-- PunishmentRepository of src/database/repositories/punishment.ts.
use qq_guardian.Base.{
  ℕ, suc, ◌+◌, ◌*◌, Bool, true, false, ◌&&◌, List, [], ◌∷◌, ◌++◌, Option, none, some, ltb, leb,
  ◌==◌, is_none, find, count_where, select, update_where, if◌then◌else◌,
}
use qq_guardian.Moderation.Blacklist.{Reason}

pub data Kind : Type 0 where
  mute kick : Kind

abbrev pub is_kick : Kind → Bool
is_kick kick = true
is_kick mute = false

abbrev pub is_mute : Kind → Bool
is_mute mute = true
is_mute kick = false

pub record Punishment : Type 0 where
  pub id : ℕ
  pub group_id : ℕ
  pub user_id : ℕ
  pub kind : Kind
  pub duration_seconds : Option ℕ
  pub reason : Reason
  pub operator_id : Option ℕ
  pub created_at : ℕ
  pub expires_at : Option ℕ
  pub revoked_at : Option ℕ
  pub revoked_by : Option ℕ

pub record Ledger : Type 0 where
  pub rows : List Punishment
  pub next_id : ℕ

abbrev pub is_of : ℕ → ℕ → Punishment → Bool
is_of group user p = p.user_id == user && p.group_id == group

-- `revoked_at IS NULL AND (expires_at IS NULL OR expires_at > ?)`
abbrev pub is_active : ℕ → Punishment → Bool
is_active now p = is_none p.revoked_at && elim p.expires_at [ none ↦ true | some t ↦ ltb now t ]

abbrev pub insert_newest : Punishment → List Punishment → List Punishment
insert_newest p [] = p ∷ []
insert_newest p (q ∷ qs) =
    let rest = insert_newest p qs in if leb q.created_at p.created_at then p ∷ q ∷ qs else q ∷ rest

-- ORDER BY created_at DESC
unfoldable pub newest_first : List Punishment → List Punishment
newest_first [] = []
newest_first (p ∷ ps) = insert_newest p (newest_first ps)

unfoldable pub find_by_id : Ledger → ℕ → Option Punishment
find_by_id l id = find (λ (p : Punishment). p.id == id) l.rows

unfoldable pub find_by_user : Ledger → (user group : ℕ) → List Punishment
find_by_user l user group = newest_first (select (is_of group user) l.rows)

unfoldable pub count_active_punishments : Ledger → (user group now : ℕ) → ℕ
count_active_punishments l user group now =
    count_where (λ p. is_of group user p && is_active now p) l.rows

abbrev pub is_active_kick_of : ℕ → ℕ → ℕ → Punishment → Bool
is_active_kick_of group user now p = is_of group user p && is_kick p.kind && is_active now p

unfoldable pub count_active_kicks : Ledger → (user group now : ℕ) → ℕ
count_active_kicks l user group now = count_where (is_active_kick_of group user now) l.rows

abbrev pub expiry : Option ℕ → ℕ → Option ℕ
expiry none now = none
expiry (some seconds) now = some (now + seconds * 1000)

abbrev pub new_punishment :
    ℕ → (group user : ℕ) → Kind → Option ℕ → Reason → Option ℕ → ℕ → Punishment
new_punishment id group user kind seconds reason operator now = record {
  id = id;
  group_id = group;
  user_id = user;
  kind = kind;
  duration_seconds = seconds;
  reason = reason;
  operator_id = operator;
  created_at = now;
  expires_at = expiry seconds now;
  revoked_at = none;
  revoked_by = none;
}

unfoldable pub create :
    Ledger → (group user : ℕ) → Kind → Option ℕ → Reason → Option ℕ → ℕ → Ledger × Punishment
create l group user kind seconds reason operator now =
    let p = new_punishment l.next_id group user kind seconds reason operator now in
    (record { rows = l.rows ++ (p ∷ []); next_id = suc l.next_id }, p)

unfoldable pub revoke : Ledger → ℕ → Option ℕ → ℕ → Ledger
revoke l id by now = record l {
  rows =
      update_where (λ (p : Punishment). p.id == id)
        (λ (p : Punishment). record p { revoked_at = some now; revoked_by = by }) l.rows;
}
