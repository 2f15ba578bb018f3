-- ===== src/Account/Usable.antt =====
-- When a user counts as a usable super administrator: `isUsableSuperAdmin` in JavaScript, and the
-- WHERE clause of `countOtherUsableSuperAdmins` in SQL.
use Prim.Native.Char.{code}
use qq_guardian.Base.{
  ℕ, Bool, true, false, ◌&&◌, ◌||◌, not, Option, none, some, ◌≡◌, String, leb, ◌==◌, arith,
  if◌then◌else◌, count_where,
}
use qq_guardian.Account.Model.{User, is_super_admin, Database}

-- The code points that `String.prototype.trim` removes.
abbrev pub is_white_space : ℕ → Bool
is_white_space c =
    (leb 9 c && leb c 13)
    || c == 32
    || c == 160
    || c == 5760
    || (leb 8192 c && leb c 8202)
    || c == 8232
    || c == 8233
    || c == 8239
    || c == 8287
    || c == 12288
    || c == 65279

-- `Boolean(text.trim())`
unfoldable pub trim_is_visible : String → Bool
trim_is_visible String.[] = false
trim_is_visible (String.◌∷◌ c s) =
    let rest = trim_is_visible s in if is_white_space (code c) then rest else true

-- `length(trim(text)) > 0` in SQLite: `trim` removes spaces alone, `length` stops at a NUL.
unfoldable pub sql_trim_is_visible : String → Bool
sql_trim_is_visible String.[] = false
sql_trim_is_visible (String.◌∷◌ c s) =
    let rest = sql_trim_is_visible s in if code c == 32 then rest else not (code c == 0)

-- `Boolean(text)`
unfoldable pub is_nonempty : String → Bool
is_nonempty String.[] = false
is_nonempty (String.◌∷◌ c s) = true

-- `length(text) > 0` in SQLite.
unfoldable pub sql_is_nonempty : String → Bool
sql_is_nonempty String.[] = false
sql_is_nonempty (String.◌∷◌ c s) = not (code c == 0)

-- A test on a nullable column; NULL does not pass.
abbrev pub holds_of : (String → Bool) → Option String → Bool
holds_of p none = false
holds_of p (some s) = p s

-- `locked_until === null || locked_until <= now`
abbrev pub is_unlocked : Option ℕ → ℕ → Bool
is_unlocked none now = true
is_unlocked (some t) now = leb t now

unfoldable pub is_usable_super_admin : User → ℕ → Bool
is_usable_super_admin u now =
    is_super_admin u.role
    && holds_of trim_is_visible u.username
    && holds_of is_nonempty u.password_hash
    && is_unlocked u.locked_until now

unfoldable pub sql_usable : User → ℕ → Bool
sql_usable u now =
    is_super_admin u.role
    && holds_of sql_trim_is_visible u.username
    && holds_of sql_is_nonempty u.password_hash
    && is_unlocked u.locked_until now

-- `excludedId === null ? '' : 'AND id <> ?'`
abbrev pub not_excluded : Option ℕ → User → Bool
not_excluded none u = true
not_excluded (some k) u = not (u.id == k)

unfoldable pub count_other_usable_super_admins : Database → Option ℕ → ℕ → ℕ
count_other_usable_super_admins db excluded now =
    count_where (λ (u : User). not_excluded excluded u && sql_usable u now) db.users

-- A text on which both languages agree: what `normalizeUsername` and the password hashes produce.
pub record IsPlain (u : User) : Type 0 where
  pub name_agrees : holds_of trim_is_visible u.username ≡ holds_of sql_trim_is_visible u.username
  pub hash_agrees : holds_of is_nonempty u.password_hash ≡ holds_of sql_is_nonempty u.password_hash

-- On such a row the two tests agree.
pub sql_usable-eq :
    (u : User) (now : ℕ) → IsPlain u → sql_usable u now ≡ is_usable_super_admin u now
unfolding sql_usable is_usable_super_admin
sql_usable-eq u now p = ground arith
