-- ===== src/Account/Requests.antt =====
-- The administrative mutations as requests, and histories of them.
use qq_guardian.Base.{ℕ, ◌≤◌, ◌≡◌, List, [], ◌∷◌, Option, some, String, All}
use qq_guardian.Account.Model.{Database, IsKeyed}
use qq_guardian.Account.Usable.{
  holds_of, trim_is_visible, sql_trim_is_visible, is_nonempty, sql_is_nonempty, IsPlain,
}
use qq_guardian.Account.Users.{
  CreateInput, AdministrativeUpdate, create_by_administrator, create_bootstrap_admin,
  recover_super_admin, update_by_administrator, delete_by_administrator,
}

pub data Request : Type 0 where
  create : CreateInput → (actor : ℕ) → Request
  bootstrap : CreateInput → Request
  recover : (name hash : String) → Request
  update : (id : ℕ) → AdministrativeUpdate → (actor : ℕ) → Request
  delete : (id actor : ℕ) → Request

-- The database after a request at a time.
unfoldable pub handle : Database → ℕ → Request → Database
handle db now (create input actor) = (create_by_administrator db input actor now).0
handle db now (bootstrap input) = (create_bootstrap_admin db input now).0
handle db now (recover name hash) = (recover_super_admin db name hash now).0
handle db now (update id d actor) = (update_by_administrator db id d actor now).0
handle db now (delete id actor) = (delete_by_administrator db id actor now).0

-- A text, if there is one, on which JavaScript's and SQLite's tests agree.
abbrev pub NameAgrees : Option String → Type 0
NameAgrees name = holds_of trim_is_visible name ≡ holds_of sql_trim_is_visible name

abbrev pub HashAgrees : Option String → Type 0
HashAgrees hash = holds_of is_nonempty hash ≡ holds_of sql_is_nonempty hash

abbrev pub IsPlainRequest : Request → Type 0
IsPlainRequest (create input actor) = NameAgrees input.username × HashAgrees input.password_hash
IsPlainRequest (bootstrap input) = NameAgrees input.username × HashAgrees input.password_hash
IsPlainRequest (recover name hash) = NameAgrees (some name) × HashAgrees (some hash)
IsPlainRequest (update id d actor) = HashAgrees d.password_hash
IsPlainRequest (delete id actor) = Unit

-- A history: each request with its time, from the time `now` on.
unfoldable pub handle_all : Database → List (ℕ × Request) → Database
handle_all db [] = db
handle_all db ((now, r) ∷ rs) = handle_all (handle db now r) rs

abbrev pub IsOrdered : ℕ → List (ℕ × Request) → Type 0
IsOrdered from [] = Unit
IsOrdered from ((now, r) ∷ rs) = (from ≤ now) × IsPlainRequest r × IsOrdered now rs

-- The last time of a history.
abbrev pub end_of : ℕ → List (ℕ × Request) → ℕ
end_of from [] = from
end_of from ((now, r) ∷ rs) = end_of now rs

pub record IsSound (db : Database) : Type 0 where
  pub keyed : IsKeyed db
  pub plain : All IsPlain db.users
