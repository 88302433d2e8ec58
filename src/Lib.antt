-- ===== src/Lib.antt =====
-- dp-beget-bridge: a bridge that lets a chat assistant work in terminals and files of a host. This
-- library models the stores that carry its state and its security.
--
-- The program's parts. apps/mcp serves the assistant: it checks an OAuth access token and passes a
-- request on to apps/agent. packages/auth holds who may do what: packages/auth/src/auth-store.js
-- keeps the owner, the registered clients, their grants, and the families of refresh tokens in
-- auth.sqlite. apps/agent and apps/session-host run terminals: apps/agent/src/state-store.js keeps
-- the sessions and the ledger of managed operations in state.sqlite, with the files that an
-- operation leaves behind.
--
-- The files. Base holds what the others share: tests, texts, tables as lists of rows (`find`,
-- `update`, `delete`, `count` for SELECT, UPDATE, DELETE and the number of changed rows), and
-- actions on a state that return or throw, with transactions. An action gives the state back
-- beside an error too, since what was written before a throw outside a transaction stays written.
--   Auth is packages/auth/src/auth-store.js, with one method of `AuthStore` per definition: Model
-- (rows and statuses), Platform (checks of texts, digests, times), Owners (createOwnerBootstrap,
-- consumeOwnerBootstrap), Clients (registerClient), Scopes and Grants (createGrant, getGrant),
-- Families (createTokenFamily, getTokenFamily), Rotation (rotateRefreshToken), Revocation
-- (revokeTokenFamily, revokeRefreshToken, revokeGrant, revokeOwnerAccess, resetOwnerAccess,
-- ownerAccessSummary), Consistent (the invariant of the database), Calls (histories of calls).
--   Oauth is packages/auth/src/oauth-spike.js, an `OAuthSpike` with an auth store: Model (the Maps
-- of transactions, codes and access tokens beside the database), Authorize (beginAuthorization,
-- approve), Tokens (issueAccessToken and the exchanges of codes and of refresh tokens), Access
-- (revoke, authenticate), Calls (sequences of calls, and what they keep); the theorems are in Codes,
-- Approvals and Bearer.
--   Agent is apps/agent/src/state-store.js: Model (rows and files), Completion (the exit record of
-- an operation), Sessions (save, closeSession, updateTranscript, purge), Ledger (admitOperation,
-- updateOperation, interruptActiveOperation), Recovery (reconcileUncertainOperations), Invariant,
-- Calls, and the theorems in Admission, Interrupt, Lifecycle.
--   Auth.Context is packages/auth/src/agent-context.js, the signed context of a request from the MCP
-- server to the agent; Agent.Owners is apps/agent/src/session-owner-store.js; Agent.Shell is
-- `shellQuote` and Agent.Utf8 `utf8SafePrefixLength` of apps/agent/src/tmux.js, and beside the
-- first stands how a shell reads a word; Mcp.Downloads is apps/mcp/src/download-tokens.js.
--   Transcript is scripts/transcript-segments.mjs (Segments: the files of a transcript, their
-- inventory and the reads of them) and scripts/transcript-capture.mjs (Capture: the loop that
-- appends a terminal's output). The other modules there carry the proofs: the names of the files
-- (Names, Fresh), what a directory holds (Files, Layout, Inventories, Recovered, Contents), the reads
-- (Parts, Reading), one pass of the loop (Progress, Opening, Passes), all of them (Loops, Beginning,
-- Scarcity, Outcome, Captured), and a capture followed by reads (Stored).
--   Terminal is the part of apps/agent/src/tmux.js that reads a transcript, over Transcript and the
-- state store: Cursors (encodeCursor, parseCursor), Status (observeCaptureStop,
-- enforceCaptureReserve, outputRange, enforceCaptureCeiling) and Pages (readOutput).
--   Release is scripts/release/migration-journal.mjs with validateLegacyServiceActivity of
-- scripts/release/legacy-service-activity.mjs: Records (readMigrationJournal and its checks), Journal
-- (startMigrationJournal, advanceMigrationJournal) and History, the histories of calls that may be
-- killed at any step.
--   Tests holds runs at concrete inputs.
--
-- What stands for code outside the repository: `Platform` has the URL parser and SHA-256 as
-- parameters, with no assumption on them, `Config` the digest of a PKCE verifier and the injected
-- client registry, `Signing` JSON with base64url and HMAC. A time is its number of milliseconds,
-- and `none` where Date.parse fails; a call reads the clock once, and the clock and the random
-- identifiers are arguments. SQLite is the tables with the constraints of the schema (primary and
-- unique keys, the partial index of one writer, foreign keys with their cascade). Messages of
-- errors are left out; codes and the details of session_busy are kept, with the HTTP statuses
-- where the stores and the OAuth server set them. The files of a transcript are a directory as a
-- value: a call of the file system is a lookup in it or a change of it, and the free space is a
-- parameter. Two definitions have fuel: the loop over one chunk of a capture has the length of
-- the chunk, and each pass takes a byte at least, so that it never runs out; and the decimal
-- numeral of n has n + 1, more than it has digits. The other loops are over a list.
--
-- Not modelled: opening and migrating the database files, the OAuth routes and metadata, the rest
-- of tmux.js with its calls of tmux and the monitors of operations, file operations and the path
-- policy, telemetry, the servers' routing, and the other scripts of installation and release. Times
-- before 1970 and an explicit `undefined` among the details of an advance are no values of the
-- model. An exit record that cannot be read (other than by ENOENT) is `unreadable`, and every call
-- of the file system in an advance may fail (`Failure`); a start whose write fails leaves what one
-- that is killed there leaves.
pub mod Base
pub mod Auth
pub mod Oauth
pub mod Agent
pub mod Mcp
pub mod Transcript
pub mod Terminal
pub mod Release
mod Tests
