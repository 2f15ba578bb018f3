-- ===== src/Account/Users.antt =====
-- UserRepository of src/database/repositories/user.ts. Each operation is one transaction: it gives the
-- database that is committed, which is the old one where an exception rolls it back. `now` is the
-- clock, which is taken not to move within one operation.
pub mod Creation
pub mod Administration
unfoldable pub use Creation.*
unfoldable pub use Administration.*
