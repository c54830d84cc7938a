-- ===== src/Lib.antt =====
-- The market-data scanner: studies, access, subscriptions, snapshots, change detection, limits.
--
-- The program keeps one row of indicator columns per symbol and date in a SQLite table (the
-- snapshot). A study is a WHERE clause over those columns; an editor sends a study as identifiers
-- only, and the compiler makes the SQL. The detector runs a study on two dates and reports the
-- symbols that entered or left. Users subscribe to studies, save results, sign in, and have roles
-- whose limits the throttler counts against.
--
-- Which file models which part (paths from the repository's root):
--   Predicate   internal/predicate/registry.go, compile.go, catalog.go. Registry holds the
--               vocabulary, Matrix what the package builds from it at start (`buildOperands`, `Compatibility`, the
--               indices), Compile the function `Compile` and its helpers, one for one, Catalog what
--               the browser is shown. Meaning, Valid, Vocabulary, Offered and Ordered hold theorems.
--   User        internal/user/user.go: tiers, roles, groups; User/Registry is `LoadJSONL` and `Find`,
--               User/Store the SQL-backed store. Indexed, Stored and Reopened hold theorems.
--   Study       internal/study/study.go: Access is `LoadJSONL`, `Accessible` and `visibleTo`, Clause
--               is `ValidateClause`; Store is internal/study/store.go. Load, Visible, Denied and
--               Stored hold theorems.
--   Indicators  internal/indicators: Price, Returns, Trend, Parabolic (`PSAR`), Volatility, Volume,
--               Momentum, Directional (`ADX`) and Flow (`CMF`, `UltimateOsc`) hold the functions, one
--               definition for each series that a function returns; the file Indicators has the numbers
--               and the loop over a window. Window holds its lemmas; Earlier, Traded, Smoothed, Bands,
--               Directed, Present, Extremes and WarmUp hold theorems.
--   Screen      internal/screen/screen.go: Row is `Build` over the indicators, Presets the presets and the
--               breadth; Signals is `Scan` of internal/scanner/scanner.go with a theorem. Crossed,
--               Ranked and Breadth hold theorems.
--   Sentinel    internal/sentinel/sentinel.go: Gate is `Tier0` and `Counts`; Order and Flagged hold
--               theorems.
--   Cache       internal/scan/cache.go: Store has the table, `BulkLoad` and the two queries; Keyed, Read,
--               Listed and Qualifying hold theorems.
--   Backtest    internal/backtest: Run is backtest.go, which moves the active date of the snapshot store
--               and so returns the store, Replay is replay.go. Trades and Held hold theorems.
--   Results     internal/results/results.go: Store has the tables and the operations on one result,
--               Access the access lists, Transfer lists, export and import. Listed, Imported and Kept
--               hold theorems.
--   Subscription internal/study/subscription.go: Store has the state (the map of maps as `subs`, the
--               table as `rows`) and one function per method, Lines is `splitLines`. Memory, Shape,
--               Synced and Opened hold theorems.
--   Snapshot    internal/snapshot/snapshot.go: Store has the table, the three fields of metadata and
--               the operations, Batch `Load` and `LoadHistoryBatch`, Query the SQL texts of `Run`.
--               Loading, Keyed, Present and Whole hold theorems.
--   Alert       internal/alert/alert.go: Detect is the detector, which moves the active date of the
--               snapshot store and so returns the store; Changes and Between hold theorems.
--   Permissions internal/permissions: Bits is permissions.go, Checker is access.go over the interface
--               `AccessChecker`, Tables is db_access.go, which fills that interface; Triples and
--               Grants hold theorems.
--   Roles       internal/roles/roles.go: `Get` and `HasCapability`.
--   Throttle    internal/throttle/throttle.go: Tables has the rows and the statements on them,
--               Limiter the methods; Middleware is `trackUsage` of internal/api/router.go,
--               over the handler that it wraps. Windows,
--               Enforced, Admitted and Overrides hold theorems.
--   Groups      internal/groups/groups.go: Store has the two tables and the operations; Members, Referenced,
--               Teams and Modelled hold theorems. Enforcing foreign keys is an argument.
--   Auth        internal/auth/session.go and guard.go.
--   Base        shared names, tests, lists, maps, results, texts, signed numbers.
--   Examples    concrete inputs.
--
-- How the code is read:
--   - A method that changes its receiver takes the state and returns it with the result. A mutex
--     makes each method one step. A Go map is an association list with one entry to a key; the order
--     in which Go ranges over a map is not fixed, and no theorem rests on the order of ours.
--   - A SQL statement is a function on the rows of its table. Whether the driver carries it out is an
--     argument (`up`, `Driver`): where it does not, the table is unchanged and the caller sees an
--     error. What SQLite answers to a study's SQL text, JSON decoders and encoders, SHA-256, the
--     clock, the random tokens and the answers of session and token checks are parameters.
--   - Dates and times are Unix seconds and not negative, as are masks and row numbers. A limit is
--     signed. Texts are strings where the code only compares and joins them, and lists of bytes where
--     it looks inside; lower case and white space are those of ASCII.
--   - A float is a value of a type with the operations that the code uses (`Number`); no theorem takes
--     an arithmetic law of it, and the extremes, the rankings, the gate and the cache take a few laws of
--     its comparisons, NaN aside, as hypotheses, which IEEE numbers meet. A series is
--     read by its index; where a function asks for the length, it is an argument, and an index past the
--     end holds anything. The windows are not negative, as in all calls.
--   - ORDER BY over saved results and access lists is an argument, as SQLite breaks ties as it likes.
--   - Loops are structural recursion. `decimal` alone takes fuel, one more than the number, which is
--     enough since each step divides by ten.
--
-- Not modelled: the checking of passwords, the writing side of roles, the sorted lists of groups, the
-- orchestration of scans, bearer tokens, configuration; HTML, HTTP decoding, mail, logging,
-- migrations and the command line are I/O. The error of a scanner that meets a line longer than its
-- buffer is left out.
pub mod Base
pub mod User
pub mod Study
pub mod Subscription
pub mod Snapshot
pub mod Alert
pub mod Permissions
pub mod Roles
pub mod Throttle
pub mod Auth
pub mod Predicate
pub mod Groups
pub mod Backtest
pub mod Cache
pub mod Indicators
pub mod Results
pub mod Screen
pub mod Sentinel
pub mod Examples
