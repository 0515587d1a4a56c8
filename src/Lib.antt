-- ===== src/Lib.antt =====
-- warpbox serves the files of a TorBox account as a WebDAV tree: it syncs the account's items into
-- a database, lists and filters them as virtual paths, and plays a file by fetching a CDN URL for it
-- and proxying the bytes.
--
-- The parts and the files that model them:
--   Metadata/Record  internal/metadata/store.go, the data types: FileRecord, FileSource, map keys.
--   Metadata/Store   internal/metadata/store.go: the table `files` and the counter of `meta` as one
--     record, each SQL statement as a function on its rows (UpsertFile is upsert_file, GetCDNURL is
--     get_cdn_url, PruneBySyncTag is prune_by_sync_tag, and so on). The driver's error, if a
--     statement fails, is an argument.
--   Metadata/Store/Dir  the same file: ListDir, with SQLite's LIKE.
--   Metadata/Store/Reads  the same file: the look-ups by TorBox's ids, and the counts.
--   Metadata/Sync    internal/metadata/sync.go: buildFileRecord and syncOnce as sync_once, a function
--     of the worker, the store and a record Cycle of what the cycle meets outside.
--   Metadata/Worker  internal/metadata/sync.go: Start, runLoop, Stop, Restart and SyncNow as the steps of
--     any number of goroutines around the guard of syncOnce.
--   Torbox/Client    internal/torbox/client.go: Client.do as do_request, IsRetryable, the decoding.
--   Torbox/Listing   internal/torbox/client.go: listGeneric as list_generic.
--   Library/Filter   internal/library/filter.go: a compiled regular expression is its MatchString.
--   Server/State     internal/server/server.go: Config, the part of Server that the models below
--     read or write, and a record World of what the server meets outside.
--   Server/Health    internal/server/server.go: recordOutcome, globalDegraded, requestdlHealth.
--   Server/Breaker   internal/server/get.go: classifyTorboxError, isTorrentStale and
--     recordTorrentFailure, the circuit breaker of an item.
--   Server/Sweep     internal/server/server.go: sweepNegativeCache, sweepCircuitBreaker.
--   Server/Missing   internal/server/server.go: PruneBreakerForMissingItems, and the OnSyncDone of
--     cmd/warpbox/main.go that calls it.
--   Server/Fetch     internal/server/get.go: getCDNURLWithRetry, fetchCDNURL, tryCDNFallback.
--   Server/Range     internal/server/get.go: parseRange, parseCDNTrueSize.
--   Server/Answer    internal/server/get.go: what handlers answer, and the steps that the two ways to
--     proxy a file share: the CDN slots, cached URLs, the correction of sizes.
--   Server/Hang      internal/server/get.go: handleGetCDNHang, its loop on fuel.
--   Server/Stream    internal/server/get.go: streamFileContent.
--   Server/Setup     cmd/warpbox/main.go and internal/server/server.go: the server's settings from the
--     configuration as server_config, buildFilters and makeVirtualPathMap.
--   Server/Listing   internal/server/get.go and propfind.go: serveDirListing and handlePropfind, as the
--     entries that they render.
--   Server/Dispatch  internal/server: handleWebDAV, handleGet and handleHead.
--   Server/Browser   internal/server/http_browser.go, and encodeDAVHref of propfind.go: the path of a
--     request, the entries of a directory with their sizes, and their order.
--   Server/Page      internal/server/http_browser.go: handleHTTP, and the page before it is written.
--   Server/Logs      internal/server/logs.go: the ring buffer of log lines.
--   Server/Actions   internal/server/actions.go: the handlers of /actions.
--   Server/Routes    internal/server/server.go and auth.go: the table of registerRoutes, requireAuth and
--     csrfMiddleware.
--   Server/Metrics   internal/server/server.go: throttleStats.
--   Server/Series    internal/server/server.go: recordStats as record_server_stats, the ticks of
--     startCleanupLoop that call it, and the query of handleStatsJSON.
--   Metadata/Stats   internal/metadata/stats.go: the table of the time series and its statements.
--   Config           internal/config/config.go: the fields as records. Config/Defaults is setDefaults,
--     Config/Validate is validate, validateLibrary and Load behind the YAML parser, and Config/Level is
--     UpdateLogLevel on the YAML tree.
--   Config/Size      internal/library/size.go: ParseFileSize.
--   Throttle/Limiter internal/throttle/queue.go: Limiter.Wait, one round of its loop a step.
--   Throttle/Queue   the same file: the counters and the window behind Stats.
--   Base             shared: Go's int64, strings and maps, lists, tests, error results.
--   Examples         the theorems at concrete inputs.
-- The sync cycle calls the client for the two lists and writes the store; a fetch of a CDN URL reads
-- the store for alternatives, calls the client, and keeps the breaker, the negative cache and the
-- window of outcomes. A WebDAV request is dispatched to the listings, which read the store, or to the
-- proxy, which takes a cached URL from the store or fetches one, asks the CDN, and writes URLs and sizes
-- back; the HTML browser uses the same store and proxy. The end of a sync cycle tells the server which
-- items are left, and the server forgets the failures of the others. The configuration that Load accepts sets the server and its filters up.
--
-- Conventions. A string is the list of its character codes. A time or a duration is a number of
-- nanoseconds, and 0 is Go's zero time; products of settings and seconds are not wrapped. int64
-- values are the integers of Base/Int, with wrap64 where arithmetic can leave the range. A Go map is
-- an association list, so an iteration is in one of the orders that Go allows. A block under a mutex
-- is one step, and a function is a run of steps without another goroutine's between them; Metadata/Worker is the
-- exception, where goroutines interleave. What is logged is left out.
--
-- Parameters of the model are the network and the clock (World), regexp.Compile, the float64
-- arithmetic, fmt's %q, url.PathEscape with its decoding, html.EscapeString, what slog writes for a time
-- and a value, the sort of sort.Slice, the order of rows with one name, and the order in which
-- Go ranges over a map.
--
-- Fuel. prune_by_sync_tag takes the number of batches that it may run: one for each row and one more
-- is enough, and sync_once gives it so. list_generic takes the number of pages: the length of
-- the list divided by the page size, and one more, is enough. The hanging mode, and what calls it, takes
-- the number of rounds of its loop, which only a reply or the client ends: if the client leaves during
-- the k-th wait, k + 1 rounds are enough. The other loops are structural.
-- A run is that of one handler, with the slots of the CDN that others hold fixed: where all are taken,
-- AcquireCDNConn blocks, and the run has no result.
--
-- Not modelled: the rendering of listings as XML and HTML, formatSize, the copy of a body's bytes, the channel
-- and the loop of the throttle queue (a call of the API is one event of World), the YAML parser, the files of the configuration but for the change of the log level, the router,
-- the tickers of startCleanupLoop, the landing page and the tools: most of them is
-- I/O. From the struct types, the fields that no modelled code reads are left out.
pub mod Base
pub mod Config
pub mod Metadata
pub mod Library
pub mod Torbox
pub mod Server
pub mod Throttle
pub mod Examples
