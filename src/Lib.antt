-- ===== src/Lib.antt =====
-- The ledger server (server/, in Rust) keeps books of double-entry transactions for devices that work
-- offline and synchronise. A device logs in, pushes a batch of mutations of its book and gets a receipt
-- for each, pulls the changes of the book behind a cursor, page by page, or starts from a snapshot.
-- This library models the server as it runs without a database: one store in memory, which the
-- handlers read and write under a lock. A handler is a function from the store to its answer and the new
-- store. The lock that `push` holds for each mutation makes a batch a sequence of such steps.
--
-- Files, and the code that they model:
-- Domain: server/crates/ledger-domain/src/lib.rs (`Money::new`, `validate_balanced`); Domain/Balance
--   says what is accepted.
-- Contracts: server/crates/ledger-contracts/src/lib.rs, the bodies of requests and answers.
-- ApiError: server/src/error.rs.
-- State, State/Defaults: server/src/state.rs (`MemoryStore`, the default accounts, `ensure_demo_book`).
-- Authz: server/src/transport/http/authz.rs (`ensure_session_active`, `require_book_member`,
--   `require_plan`).
-- Sync: server/src/transport/http/sync.rs. Receipt and Parse are the helpers, Account and Transaction
--   `process_account_mutation_mem`, `process_mutation_mem` and `process_delete_mem`, Push, Pull and
--   Bootstrap the handlers. Refusals and Effects describe every way in which a mutation ends, and the
--   other proofs go through them: Log, DoubleEntry, Hierarchy, References, Frame, Versions, Creation, Capture and
--   Replay on `push`, Paging, Pages, Commits and HighWater on `pull` and `bootstrap`, Access on who
--   may call.
-- Ledger: server/src/transport/http/ledger.rs (`create_transaction`); Ledger/Posting on what it stores.
-- Auth: server/src/transport/http/auth.rs (`register`, `login`, `rotate_refresh_token`, `logout` and
--   their validation in Auth/Email and Auth/Validation); Auth/Sessions and Auth/Rotation on sessions,
--   Auth/History and Auth/Replay on the calls behind an exchange, Auth/Registration on the way from
--   `register` to `login`.
-- Attachments: server/src/transport/http/commercial.rs. Plan and Parts are the arithmetic and the list of
--   the parts, Objects the interface of the object store and the access to a record, Session, Upload,
--   Complete and Catalog the handlers, Requests the routes. Steps and Checks describe how a handler may
--   leave the store, Receive, Recording, Soundness, Frame and Completion go through them.
-- Storage: server/src/infrastructure/object_store.rs. Keys, Signing and Local are the keys, the signed
--   URLs and the backend on a disk, which fills the interface of the attachments; Access and Multipart
--   are on them.
-- Books: server/src/transport/http/books.rs and billing.rs; Books/Opening on a new book and a new plan.
-- Budgets: the invites, budgets and recurring rules of server/src/transport/http/commercial.rs, and
--   `list_revisions`.
-- Reports: server/src/transport/http/reports.rs. Reports itself is the summary, Months and its child
--   Periods the trend and the budget report, Rates the exchange rates; Categories and
--   Months/Arithmetic are on them.
-- Audit: server/src/infrastructure/audit.rs and server/src/transport/http/audit.rs; Trail and Privacy
--   are on them. A handler that records an event takes a `Recorder` for it, with the clock and the UUID of
--   the event and the id of the request.
-- Settings: `Config::validate` and the parsers of server/src/config.rs.
-- Json and Text are the parts of serde_json and of Rust's texts that the code uses; Prelude has the
--   shared names, maps, lists, results and machine integers.
--
-- Integers: `i64` and `i128` are integers that wrap at every `+`, `-` and cast, as in a release build.
-- Texts are Unicode texts, with `len` in bytes and `chars().count()` in characters. A hash map is a list
-- of pairs; where the code takes the first match of an iteration (the book of a user, the duplicate of
-- an event), the model takes the first of the list. Two definitions run on fuel: printing a number,
-- with the number itself as fuel, since each digit divides it by ten, and the device that pulls page
-- after page, for which one pull more than there are changes is enough. All else is by recursion on
-- the data. A handler that unwraps or indexes answers an `Option`, with `none` for the panic. Handlers run
-- one after another; the two that release the lock between reading and writing an attachment are
-- made of two halves.
--
-- Parameters: the crate `time` (`TimeLib`, `Calendar`), the clock and the UUIDs that a call draws
-- (`Fresh`, `Draws`), Argon2, SHA-256 and the signature of access tokens (`Crypto`), HMAC, `f64`
-- (`Floats`), the parser of the crate `url`, `ObjectPath::from` of the crate `object_store`, and the length of a value as JSON.
--
-- Not modelled: the Postgres paths of the handlers, which are SQL; the S3 backend and the backup of
-- objects; rate limiter, backups, jobs;
-- reading the environment, routing, logs and metrics; the client. On the local disk no path is a directory of
-- another or lies under `.multipart`, and only a missing file or directory is an error.
pub mod Prelude
pub mod Text
pub mod Json
pub mod Domain
pub mod Contracts
pub mod ApiError
pub mod State
pub mod Authz
pub mod Sync
pub mod Ledger
pub mod Auth
pub mod Attachments
pub mod Storage
pub mod Books
pub mod Budgets
pub mod Reports
pub mod Audit
pub mod Settings
pub mod Tests
