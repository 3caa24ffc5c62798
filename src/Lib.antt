-- ===== src/Lib.antt =====
-- auto-cert, a monitor that mails before certificates and domain registrations expire. One run is a
-- pipeline (internal/runner/runner.go): discoverers name the domains, RDAP and TLS lookups find
-- their dates, the engine raises alerts, a store of what was sent decides if a mail goes out.
--
-- Which file models which part:
--   Model, Time, Files        internal/model/types.go, and what is used of `time` and `os`
--   Discovery                 internal/discovery/discovery.go: `dedup`, `aggregate`
--   Discovery/Static          internal/discovery/static.go: `expand`, `discover`
--   Discovery/Hosts           internal/discovery/route53.go: `normalizeHost`, `isExcluded`,
--                             `isMonitorableHost`
--   Discovery/Collector       the closure `add` of the two providers
--   Discovery/Route53         internal/discovery/route53.go: `Discover` and its listings
--   Discovery/NameCom         internal/discovery/namecom.go: `Discover` and its listings
--   Http                      internal/rdap/client.go, internal/discovery/namecom.go: a GET request
--   Rdap/Client               internal/rdap/client.go: `loadBootstrap`, `endpointFor`, `Lookup`
--   Rdap/Cache                internal/rdap/cache.go: `memBackend`, `CachedLooker`, `NoopCache`
--   Rdap/FileCache            internal/rdap/file_cache.go: `NewFileCache`, `load`, `Flush`
--   Rdap/Looker               internal/rdap/enrich.go: the interface `Looker`, with its law
--   Rdap/Enrich, Rdap/Through internal/rdap/enrich.go: `groupByApex`, `processGroup`, `Enrich`
--   Tls                       internal/tlscheck/checker.go: `Check`, `CheckAll`
--   Alert                     internal/alert/engine.go: `Evaluate`, `evalOne`, `daysBetween`
--   State, State/FileStore    internal/state/store.go, internal/state/file_store.go
--   Notify/Summary            internal/notify/summary.go: `BuildSummary`
--   Notify/Bucket             internal/notify/html.go: `bucketAndDedup`
--   Notify/Render             internal/notify/render.go: the subject and the plain text
--   Notify/Html               internal/notify/html.go: `RenderHTML`; its children hold the parts
--   Notify/Mime               internal/notify/notifier.go: `BuildMIME`; Notify/Mime/Reading and
--                             Notify/Mime/Contents are a reader of its messages
--   Notify/Notifier           internal/notify/notifier.go: `DryRun.Notify`, `SMTP.Notify`
--   Inventory                 internal/inventory/inventory.go: `Build`
--   Inventory/FileSink        internal/inventory/file_sink.go: `Save`
--   Inventory/Workbook        internal/inventory/xlsx.go: `MarshalXLSX`
--   Runner                    internal/runner/runner.go: `Run`
--   Runner/Build              internal/runner/build.go: `BuildDeps`
--   Config                    internal/config/config.go: `Load`, `applyDefaults`, `flattenCSV`
--   Healthcheck               internal/healthcheck/healthcheck.go: `New`, `Success`, `Failure`
--   Base                      lists, texts, maps, sorting and results, shared by all
--   Tests                     concrete inputs
--
-- State. A Go map is a list of keys and values, in an order of its own. The disk is a map from
-- paths to contents; each call of the operating system may fail, and a write that fails may leave a
-- part of its text behind. The goroutines of `Aggregate`, `Enrich` and `CheckAll` write to places
-- of their own or under a lock, so a run of them is the order in which they finish: the definitions
-- take that order. The clock is a function of what it is read for: the group of `Enrich`, the job of
-- `CheckAll`. A run of the pipeline is the list of its outward calls and its error. The
-- cancellation of a context is not modelled.
--
-- The run of the pipeline looks a domain up by a function. The RDAP client and the cache keep a
-- state, so there a lookup is a step of a state. Rdap/Through is about Enrich over such steps, whose
-- law Rdap/Client/Steady and Rdap/Cache/Steady are about.
--
-- Code that is not in the repository is a parameter: the AWS SDK, as finite lists of pages that end
-- or break off; the library of the workbook, by its calls and what it makes of them; HTTP, JSON and
-- YAML decoding, base64, the layouts of dates, the public suffix list and the network, as functions.
-- The JSON of the store and of the cache is a codec of which theorems suppose that it reads back
-- what it wrote and writes no empty text. The boundaries of a mail, which are drawn at random, are
-- arguments.
--
-- Numbers. `int` is an integer without bounds, as ports, days and counts are small; a duration is
-- clamped to 64 bits as `Time.Sub` does. Texts are lists of code points; changes of case are those
-- of ASCII letters, the only ones that the names of hosts have. The loops over the pages of
-- name.com run on fuel, one round for each page: page numbers grow from 1, so a bound on the page
-- numbers that the server names is a bound on the rounds. The lines of an attachment are cut off
-- in at most one round for each of its characters. Every other loop is a recursion over its list.
--
-- Not modelled: logging but that of the health check, reading the secrets, the list of discoverers
-- that the configuration names, and the entry point.
pub mod Base
pub mod Time
pub mod Model
pub mod Files
pub mod Alert
pub mod State
pub mod Discovery
pub mod Rdap
pub mod Notify
pub mod Http
pub mod Inventory
pub mod Tls
pub mod Runner
pub mod Config
pub mod Healthcheck
pub mod Tests
