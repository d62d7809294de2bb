-- ===== src/Lib.antt =====
-- Verification of vtafarm-api, the service that provisions verifiable trust agents (VTAs) for
-- users and keeps an inventory of prebuilt ones.
--
-- The program's parts that are modelled, and how they interact. A setup session is one VTA. Its
-- administrator is bound by a reservation (internal/connection): the owner shows a QR code, a wallet
-- claims it with its DID, the owner confirms, and the setup or a grant then provisions that DID. The
-- inventory (internal/pool) hands out reservations of prebuilt sessions, confirms and rejects them for
-- anonymous visitors, and tears down sessions that nobody took. Wallets send trust tasks, which the
-- replay guard (internal/trusttask/replay.go) executes at most once, and log in with the bindings that
-- released reservations give them (internal/walletauth). Their DIDs are keys (internal/didkey) or have
-- a log whose entries are validated (internal/webvh). The owner of a domain creates records that are
-- checked with public resolvers (internal/dnscheck). Administrators roll out images in
-- batches (internal/upgrade). Public routes are limited by address (internal/middleware), and the
-- planner (internal/capacity) simulates how many more sessions fit. The versions to choose from are
-- the image tags of a registry (internal/ghcr).
--
-- Files and the code they model:
--   Base            names and helpers that all parts share: tests on numbers and texts (Base/Tests),
--                   lists as tables (Base/Lists).
--   Store           the database as a record of tables (Store/Rows, from internal/model), and
--                   transactions that fail and roll back (Store/Monad, for gorm's Transaction).
--   Connection      internal/connection/store.go. Rules: Ready, operationFor, finalStatus, Current,
--                   lockSession and the row updates. Reserve: Change and ChangePool. Claim: Claim,
--                   ClaimAndRecord, Confirm, Reject. Provision: beginProvision, StartProvisioning,
--                   MarkReleased, MarkFailed, Reconcile. Settle: AcceptManual, CancelPending, Stop,
--                   AcquireRedeemPoll, ReleaseRedeemPoll. Lifecycle is the specification of a row, a
--                   step relation on its status; Table, Valid and Grows that of the table; Moves,
--                   Change, Steps and Settled show that each operation implements it; History puts the
--                   operations in sequence; Claimed, Results and Duplicate are about single
--                   operations.
--   Pool            internal/pool. Rows: the queries. Identifiers: generateUniqueIDs. Filling:
--                   createUsers, createSetupSessions, createPoolMembershipsAndResources. Admission:
--                   LookupBatch, Admit. Addition: AddInventory. Claims: Reserve, ReservePublic, SetPublicSignup,
--                   Confirm, Reject, RetryActivation, RetryBuild. Cleanup: QueueCleanup,
--                   QueueBatchCleanup, queueCleanupBulk and the finalisation of batches. Worker:
--                   runOne and reconcile of runner.go. Noted says what a run may write. Reserved,
--                   Protected, Teardown, Frame, Repeated, Bounded, Lengths and Fits hold the proofs;
--                   Requests has examples of admissions.
--   Capacity        internal/capacity/capacity.go. Placement: placePod, placeVolume, placeSession.
--                   Estimates: PlanningHeadroom, EstimateMode, ReserveMode, simulate. Agreement,
--                   WorstFit, Budget, Replicas and Totals hold the proofs.
--   Replay          internal/trusttask/replay.go. Guard: Claim, RecordResponse, Release. Final and
--                   Lease hold the proofs.
--   RateLimit       internal/middleware/ratelimit.go. Window: RateLimit. Keys, Answers and Bound hold
--                   the proofs; Answers has the description that the handler is measured against.
--   Upgrade         internal/upgrade/runner.go and internal/model/upgrade.go. Rows, Task (runTask and
--                   what it calls) and Run (run, finalize). Effects, FailFast, Success and Resume hold the
--                   proofs.
--   Wallet          internal/walletauth/store.go. Bindings: ActiveBindings, materializeReleasedClaims,
--                   RevokeBinding. Polls: AcquireRedeemPoll, ReleaseRedeemPoll. Revoked, Materialized
--                   and Exclusive hold the proofs.
--   Dns             internal/dnscheck/checker.go. Answers: resolveHost, allCloudflare. Hosts: checkHost,
--                   CheckHosts. Addresses: LookupIPAddr. Txt: CheckTXT. Verdict and Parallel hold the
--                   proofs.
--   Keys            internal/didresolver/didkey.go and internal/didkey/didkey.go. Base58:
--                   EncodeBase58BTC, DecodeBase58BTC. DidKey: ResolveAuthenticationKey, FromPublicKey.
--                   Digits, Alphabet, RoundTrip and Canonical hold the proofs.
--   Webvh           internal/webvh/log.go. Result: errors and early returns. Json: values and what
--                   json.Unmarshal makes of them. Params: applyParameters. Entry: parseLogEntry,
--                   parseProof. Log: the checks and the loop of validateLog. Lines: validateLog. Chain,
--                   Updates, Authority, Order and Identity hold the proofs.
--   Tags            internal/ghcr/client.go. Sorting: sort.SliceStable. Semver: parseSemver and
--                   sortSemverDesc. Listing: ListTags, resolveTag, orderChannelsFirst. Listed holds
--                   the proofs.
--   Each part has a module Examples with the theorems at concrete states.
--
-- Conventions. A time is a number of nanoseconds, and the clock that an operation reads is an argument
-- of it, as are random ids and handles. Statements of the database succeed unless the code relies on
-- their failure (a missing row, a unique index, a failing transaction); row locks make each operation
-- one step. Ids of reservations, text in the code, are numbers, which are compared in the same way.
-- The state of a document's execution, text with two values, is a Boolean. A user's passkeys are
-- counted in the user's row. Third-party and cryptographic code is an argument: the validation of a
-- DID, the digest of a claimant, the answers of Kubernetes, the functions that build and clean up a
-- VTA; canonical JSON, SHA-256, Ed25519 and the reading of clock texts; the answers of DNS and of
-- the registry. Texts are
-- strings, or lists of bytes where the code reads their bytes (Keys, Webvh, Tags). Random identifiers come
-- from a source, which answers each draw. Amounts of resources are numbers that are not negative and
-- stay far below 2 ^ 63.
--
-- Bounds and fuel. simulate stops after 100000 sessions in the code as well; its loop is recursion on
-- the sessions left, with that number. generateUniqueIDs stops after count * 20 + 100 draws, createUsers
-- and createSetupSessions after five attempts; their loops are recursions on what is left of these. The
-- digits of a number are taken with the number itself as fuel, which is enough as each division makes
-- it smaller. All other loops are recursions on lists or on a count.
--
-- Not modelled: the setup orchestrator, the resolution of DIDs over the network and the HTTP
-- handlers; upgrade batches with more than one task at a time. Clients of Kubernetes, Vault,
-- Cloudflare, DID hosting and the VTA are input and output, and so are configuration and commands.
pub mod Base
pub mod Store
pub mod Connection
pub mod Pool
pub mod Capacity
pub mod Replay
pub mod RateLimit
pub mod Upgrade
pub mod Wallet
pub mod Dns
pub mod Keys
pub mod Webvh
pub mod Tags
