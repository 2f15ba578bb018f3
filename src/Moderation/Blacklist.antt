-- ===== src/Moderation/Blacklist.antt =====
-- BlacklistRepository of src/database/repositories/blacklist.ts. An entry without a group is global.
use qq_guardian.Base.{
  ℕ, zero, suc, min, Bool, true, false, ◌&&◌, ◌||◌, List, [], ◌∷◌, ◌++◌, Option, none, some, String,
  ltb, ◌==◌, opt_eq, find, any, count_where, update_where, delete_where, if◌then◌else◌,
}

-- The reasons that the program writes: a text that is handed in, or one of its own with the count in it.
pub data Reason : Type 0 where
  text : String → Reason
  auto_blacklist : (kicks : ℕ) → Reason
  auto_kick : (punishments : ℕ) → Reason
  evasion : Reason

pub record Entry : Type 0 where
  pub id : ℕ
  pub user_id : ℕ
  pub group_id : Option ℕ
  pub reason : Reason
  pub created_by : Option ℕ
  pub created_at : ℕ
  pub expires_at : Option ℕ

-- `next_id` is the key of the next row.
pub record Blacklist : Type 0 where
  pub entries : List Entry
  pub next_id : ℕ

-- `expires_at IS NULL OR expires_at > ?`
abbrev pub unexpired : Option ℕ → ℕ → Bool
unexpired none now = true
unexpired (some t) now = ltb now t

abbrev pub matches : ℕ → Option ℕ → Entry → Bool
matches user group e = e.user_id == user && opt_eq e.group_id group

abbrev pub in_force : ℕ → Option ℕ → ℕ → Entry → Bool
in_force user group now e = matches user group e && unexpired e.expires_at now

unfoldable pub is_blacklisted : Blacklist → ℕ → Option ℕ → ℕ → Bool
is_blacklisted b user none now = any (in_force user none now) b.entries
is_blacklisted b user (some group) now =
    any (in_force user none now) b.entries || any (in_force user (some group) now) b.entries

pub record Addition : Type 0 where
  pub user_id : ℕ
  pub group_id : Option ℕ
  pub reason : Reason
  pub created_by : Option ℕ
  pub expires_at : Option ℕ

abbrev pub rewrite : Addition → ℕ → Entry → Entry
rewrite a now e = record e {
  reason = a.reason;
  created_by = a.created_by;
  created_at = now;
  expires_at = a.expires_at;
}

abbrev pub entry_of : ℕ → Addition → ℕ → Entry
entry_of id a now = record {
  id = id;
  user_id = a.user_id;
  group_id = a.group_id;
  reason = a.reason;
  created_by = a.created_by;
  created_at = now;
  expires_at = a.expires_at;
}

-- The row is updated, and inserted if there is none. The answer is the row that is read back.
unfoldable pub add : Blacklist → Addition → ℕ → Blacklist × Option Entry
add b a now =
    let updated = update_where (matches a.user_id a.group_id) (rewrite a now) b.entries in
    let b' =
      if count_where (matches a.user_id a.group_id) b.entries == 0
      then record { entries = updated ++ (entry_of b.next_id a now ∷ []); next_id = suc b.next_id }
      else record b { entries = updated } in
    (b', find (matches a.user_id a.group_id) b'.entries)

unfoldable pub remove : Blacklist → ℕ → Option ℕ → Blacklist × Bool
remove b user group = (
  record b { entries = delete_where (matches user group) b.entries },
  ltb 0 (count_where (matches user group) b.entries),
)

abbrev pub is_stale : ℕ → Entry → Bool
is_stale now e = elim e.expires_at [ none ↦ false | some t ↦ ltb t now ]

-- DELETE of the first `limit` rows that are stale. The rows stand in the order of their ids.
unfoldable pub purge : ℕ → List Entry → ℕ → List Entry
purge now [] limit = []
purge now (e ∷ es) zero = e ∷ es
purge now (e ∷ es) (suc limit) =
    let dropped = purge now es limit in
    let kept = purge now es (suc limit) in if is_stale now e then dropped else e ∷ kept

unfoldable pub purge_expired : Blacklist → (limit now : ℕ) → Blacklist × ℕ
purge_expired b limit now = (
  record b { entries = purge now b.entries limit },
  min (count_where (is_stale now) b.entries) limit,
)
