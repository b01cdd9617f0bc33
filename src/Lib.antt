-- ===== src/Lib.antt =====
-- The parts of Kubo that decide what is kept, rewritten and run: the garbage collection of blocks, the
-- migrations of a repository and its sharing among clients, the plugins of a node, its custom routers,
-- its forwarded streams, its log of requests, its notice about carrier-grade NAT, the values of its
-- config, and the strategy by which it provides content.
--
-- Common holds what the parts share: Boolean tests and equality (Common.Tests), lists (Common.Lists),
-- maps (Common.Maps), slices by index (Common.Arrays), integers (Common.Integers), results
-- (Common.Results) and actions that change a state and may fail (Common.Acts).
--
-- Gc models gc/gc.go, blocks/blockstoreutil/remove.go and core/corerepo/gc.go.
--   World: the packages that a collection calls (go-cid, the pinner, the blockstore, dag.Walk) as
--     parameters, and the state that its closures share: the set, the errors flag, the results sent,
--     the keys that were deleted. A select on the context takes its branch from a schedule.
--   Mark: toCidV1, Descendants, ColoredSet. Sweep: the rest of GC. A goroutine that feeds a channel is
--     the list that it feeds.
--   Walk: what is assumed of dag.Walk, as a relation between the pending keys and the states; the
--     order of a concurrent walk is left open by it.
--   Growth, Coverage, Roots, Reached, Colored: what the stages of the mark phase keep, mark and close.
--   Safety, Exact: the collection as a whole. Remove: RmBlocks and FilterPinned.
--   Repo, Limits: NewGC, BestEffortRoots, CollectResult, maybeGC. Sizes are uint64 with their wrap.
--
-- Migrations models repo/fsrepo/migrations.
--   Repo: the version file, the config and its backups, with common/utils.go and repoVersion. Every
--     call of the operating system may fail, each with an error of its own.
--   Embedded: common/base.go and RunEmbeddedMigration. Backup, Works: what Apply and Revert do.
--   Plan: findMigrations, fetchMigrations and RunMigration, on binaries that are parameters.
--   Hybrid: runEmbeddedMigrationsUnlocked and RunHybridMigrations.
--   Tree: a config as a tree of JSON, with the helpers of common/config_helpers.go. AutoConf,
--     ProvideSection: the conversions of 16-to-17 and of 17-to-18 on such trees. Bootstrapped, Converted:
--     what these make of a config.
--   Reach, Target, Success, Outcome: a plan is a chain of versions, and where a run over it ends.
--
-- Plugins models plugin/loader/loader.go.
--   Loader: the loader's states and methods; a plugin is what its interfaces answer.
--   Life, Calls: what is started and closed, over any sequence of calls. Names: the loaded names.
--   Starts: a Start without errors.
--
-- Provide models config/provide.go.
--   Strategy: the parser of the strategy and ShouldProvideForStrategy. A ProvideStrategy is its bits.
--   Config: the Provide section and ValidateProvideConfig, with signed 64-bit values.
--   Meaning, Consistent, Bounds: what a parsed strategy and a validated section promise.
--
-- Routing models config/routing.go and routing/delegated.go.
--   Config: the configured routers, Methods.Check and HasHTTPProviderConfigured. Methods: what Check
--     accepts. Parse: Parse and its recursion, with a tree for the composed routers and the record
--     Composer. Entries: the loop of Parse with a list in place of the Composer.
--   Termination: the measure of the recursion. Built: the routers that a configuration describes;
--     Soundness, Unique, Pending, Complete: that these are the routers of Parse. Trees, Providing:
--     the composed routers against HasHTTPProviderConfigured.
--
-- Repos models repo/onlyone.go.
--   OnlyOne: Open and Close on a heap of references. Handles, Opened: the handles of each reference.
--   Shared: clients, as a relation on states and handles.
--
-- Requests models commands/reqlog.go. Log: the log and its entries, shared with the callers. Cleanup:
--   the loop that compacts the slice. Entries, Kept: calls in any order. An ID is an int of 64 bits.
--
-- Forwarding models p2p/stream.go and p2p/listener.go. Streams, Listeners: the two registries. Peers:
--   the counts of connections. Running: calls in any order.
--
-- Cgnat models core/node/libp2p/cgnat.go. Detect: the classification of a host and the latch of the
--   monitor. Notices: what is reported over any checks.
--
-- Values models config/types.go. Json: encoding/json, time and go-humanize as parameters. Flags,
--   Optional: the value types with their JSON and defaults. RoundTrips, Panics: reading back what was
--   written, and where the use of a value panics.
--
-- Routing.Config and Routing.Parse meet in the configuration: the same routers are read by Parse and
-- by HasHTTPProviderConfigured. Collections and migrations meet in the repository only: a migration
-- runs before a node opens it.
--
-- Functions are total, by recursion on a list or on a count of versions. Parse passes its recursion a
-- fuel of one more than the number of configured routers, which is enough since each call visits a
-- new name; routerSupportsHTTPProviding takes its depth as an argument, since the code has no bound.
--
-- Not modelled: the texts of logs and errors, metrics, locks, temporary files, the reading and writing
-- of JSON (the conversion of a text is a parameter of Migrations.Embedded) and the rest of the
-- repository.
pub mod Common
pub mod Provide
pub mod Gc
pub mod Migrations
pub mod Plugins
pub mod Routing
pub mod Repos
pub mod Requests
pub mod Forwarding
pub mod Values
pub mod Cgnat
