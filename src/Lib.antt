-- ===== src/Lib.antt =====
-- A model of the decision core of the QQ Guardian plugin: who may administer it, how its users log in,
-- how members are punished and blacklisted, and how requests to join a group are decided.
--
-- The parts, and the files of the repository that they model:
--   Base        lists as tables (SELECT, UPDATE and DELETE with a condition), keys and Boolean tests.
--   Account     src/database/repositories/user.ts and session.ts, and login, refresh and logout of
--               src/modules/auth/index.ts. `Database` holds the rows of users, auth_sessions, audit_logs
--               and login_logs. Each method is a function with its name in snake case; what the code
--               throws is an error of `Outcome` or a value of the result. A transaction is one function.
--   RateLimit   src/database/repositories/rate-limit.ts.
--   Moderation  src/database/repositories/blacklist.ts and punishment.ts, src/modules/punishment/index.ts.
--   Approval    src/core/config/group.ts, src/database/repositories/approval.ts,
--               src/modules/approval/index.ts and sync.ts.
--   Commands    src/modules/commands/index.ts and the ids of src/types/onebot.ts: the parsing of a
--               message, the cooldown, the checks and the actions; replies are left out.
--   Locks       src/core/locks.ts: the calls of one lock, their order and phases, as a step relation.
--   Curfew      src/modules/curfew/index.ts: the times of day, the window, the tick of the scheduler and
--               its stop. `Scheduler` holds what was last applied to each group and the calls made.
--   Captcha     src/modules/captcha/index.ts, on the approval service of Approval. `Office` holds the
--               records, the table captcha_sessions and the messages; `issue` is what issueChallenge does
--               under the lock of the user and `deliver` what it does afterwards. A machine of steps
--               (`run`) takes the operations in any order.
--   Risk        src/modules/risk/index.ts: the history of messages (`History`), the detection, and
--               `handle_group_message`, which punishes by the service of Moderation and recalls.
--   Intel       src/modules/intel/index.ts and src/core/config/intel.ts: the feeds that IntelService holds,
--               what it drops when the settings change, and its red flags (`IntelService`).
--   MemberJoin  src/application/member-join.ts and src/modules/blacklist/index.ts. The stages of the
--               intelligence feed and of the welcome are arguments.
--
-- How they interact: the routing of a join request and the admission of a member read the blacklist and
-- the punishments of Moderation, which the chat commands and the risk detection change; the captcha decides
-- the approval records that wait for it; the account operations write the sessions that the login issues and
-- every token is checked against.
--
-- The clock is an argument of each operation, in milliseconds. The OneBot provider is a parameter
-- `accepts`, which tells for each call, given the calls before it, whether it is answered or throws. Token
-- signing and password hashing are the parameter `TokenService` and a Boolean. Regular expressions are a
-- parameter, a test of a pattern and a text; so are the hash, the codes, the UUIDs and the generated
-- questions of the captcha. Ids are natural numbers, which stand for the decimal texts and row
-- numbers of the code. What runs under a lock (src/core/locks.ts) or in a transaction is one step
-- outside Locks, and a sequence of operations is any order of such steps; the sweep of the hourly maintenance,
-- which takes no lock, also comes in while a decision about a join request waits for the provider (the
-- field `sweeps` of `Desk`). All loops are recursion on lists; there is no fuel.
--
-- Not modelled: file and network input and output, logging, the HTTP API, the migrations of the schema,
-- the timers of the curfew, the captcha and the admission sync, the custom rules of the risk detection, the
-- parsing and the download of the intelligence feeds, and the other modules.
pub mod Base
pub mod Account
pub mod RateLimit
pub mod Moderation
pub mod Approval
pub mod Locks
pub mod Captcha
pub mod Risk
pub mod Intel
pub mod Curfew
pub mod Commands
pub mod MemberJoin
