-- ===== src/Lib.antt =====
-- oidc-exchange: a token exchange. It trades an upstream identity for its own access and refresh
-- tokens, keeps refresh-token families in a session store, lets operators administer users, and
-- limits callers. This library models access tokens, the redemption and the revocation of tokens
-- and the administration of users, the session store on LMDB and the user table on SQLite, over
-- which they run, and both rate limiters.
--
-- - Base: the names that all modules share. A text is the list of its code points, whose order
--   is that of its UTF-8 bytes, an LMDB database a list of entries in the order of their keys
--   (Base/Maps), a hash map of `std` a list of entries with the newest key first (Base/Keyed).
-- - Error: crates/core/src/error.rs. `Result` has a third case for a panic, by which assertions
--   end.
-- - Domain: crates/core/src/domain/session.rs, user.rs, audit.rs and operator.rs.
-- - Token: the access tokens of crates/core/src/service/mod.rs and claims.rs. Token mints and
--   validates them, Token/Claims resolves their custom claims, Token/Duration reads durations.
--   base64, serde_json and the key manager are records of functions (`Codec`, `KeyManager`);
--   what is relied on of them is in Token/Lawful, and Tests/Toy has an instance.
-- - Service: crates/core/src/service/mod.rs (emission of audit events, collaborators),
--   refresh.rs (Service/Refresh), revoke.rs (Service/Revoke), assertion.rs (Service/Assertion)
--   and user_admin.rs (Service/UserAdmin). A flow takes the world, which is the store and the
--   events handed to the sink, to its result and the world after it; Service/Flow says how flows
--   compose. The repositories are records of operations: `SessionRepository`, which Service/Lmdb
--   fills with the methods of the LMDB store, and `UserRepository`, which Sqlite/Repository
--   fills. Digests, random draws, the signing in a redemption and the sink's answers are
--   parameters.
-- - Sqlite: the user table of crates/adapters/src/sqlite/mod.rs. A statement reads or writes the
--   table at once; `meanwhile` is what other writers do between the two statements of an update.
--   Sqlite/Listing pages through it by the cursors of crates/core/src/cursor.rs (Cursor), whose
--   codecs of dates, JSON and base64 are a record, `CursorCodec`; `walk` asks for page after page
--   on fuel, a unit for each page.
-- - Lmdb: crates/adapters/src/lmdb/mod.rs. `Lmdb` is `LmdbSessionRepository`; a method of the
--   port is a function from its arguments and the repository to its result and the repository
--   after it. Sessions, Listing, SingleUse and Cleanup hold the methods. Consistent is the
--   invariant of the databases and its proof for each operation on entries, Rotation and Family
--   the proofs of a redemption and of the revocation of a family, Calls and Reach the sequences
--   of calls.
-- - Server/ApiError: crates/server/src/error.rs, the response that an error is answered with. A
--   response is its status, its body, the recorded code and the hint of `Retry-After`.
-- - RateLimit: crates/server/src/middleware/throttle.rs (FixedWindow) and
--   crates/adapters/src/rate_limit/mod.rs (AdminAuth), with the keys of
--   crates/core/src/domain/audit.rs (Key). Window and Lockout say what one call does, Among what
--   the calls of one key or peer are answered among those of others.
-- - Tests: the theorems applied to concrete states.
--
-- How the code is modelled. An instant is a number of nanoseconds, and in an access token of
-- seconds, with no bound but where a configured number is added to it or a date is read: the
-- deadline of a retirement record wraps and panics as the cast and `chrono` do, and one before
-- the epoch is kept as the epoch; a method takes each reading of the clock as an argument.
-- `serde_json` reads back the rows it wrote, so rows are kept decoded. An LMDB transaction
-- commits all of its writes or none; `faults` says which transactions to come LMDB fails. A
-- panic inside a blocking task comes back as the error `join_error`, one outside it is
-- `panicked`. The batch loop of the cleanup runs on fuel, with a unit for each expired row; a
-- batch removes one row from the queue at least. A user id has no colon, since the user index
-- separates by one. What core guarantees of a session that it mints (a hash never used before)
-- is a hypothesis at the call, `Installable` and `Minted`.
--
-- Not modelled: the exchange of credentials in crates/core/src/service/exchange.rs, the sessions
-- of the other stores, the upstream providers, the rest of the HTTP server, the configuration;
-- the iteration order of a hash map where two buckets are equally old; a lock that another
-- thread holds, since calls come one at a time, but for the interleavings that a theorem names.
pub mod Base
pub mod Cursor
pub mod Domain
pub mod Error
pub mod Lmdb
pub mod RateLimit
pub mod Server
pub mod Service
pub mod Sqlite
pub mod Tests
pub mod Token
