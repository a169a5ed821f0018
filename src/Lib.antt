-- ===== src/Lib.antt =====
-- proxpulse-judge is an HTTP service that tells a proxy checker how it was seen: from which
-- address a request came, what its headers reveal of the client behind a proxy, in which country
-- and kind of network the address is, and all of this in a signed answer.
--
-- How the parts interact. `main` looks at its flags, and a start reads the settings
-- (`Config::from_lookup`), opens the databases (`GeoPool::open`) and makes the shared state
-- (`AppState::new`). The accept loop (`serve`) hands each connection's requests, with its peer,
-- to the service. A request passes the layers of `build_app`: counters, response headers, rate
-- limit, concurrency limit and timeout. A handler then works out the client address
-- (`client_ip`), the headers as they were before our own proxy (`pre_edge_xff`, `proxy_view`),
-- the anonymity level (`anonymity_level`), the data of the address (`GeoPool::lookup`,
-- `maybe_rdns`, `classify_ip`), and `judge` signs the answer (`Signer::sign`).
--
-- Files. The repository's code is in src/logic.rs, src/ratelimit.rs, src/sign.rs,
-- src/metrics.rs, src/config.rs, src/geo.rs, src/app.rs, src/server.rs and src/main.rs. A
-- definition has the name of the Rust function.
-- - Base, Str, Addr, Dict: what the code uses of the language and its library. Numbers, lists
--   and tests; `str` functions on code points; `IpAddr` with its parser and printer; maps.
-- - Float: `f64`, as an interface. Cache: `moka`, as an interface whose entries may vanish at any
--   time.
-- - Host, Client, Anonymity, Classify: src/logic.rs. Anonymity/Unordered has the map of headers
--   without an order.
-- - RateLimit: src/ratelimit.rs. Basic has the bucket and the limiter, Bucket and Window are about
--   one bucket, Clients and Product about the buckets of all clients.
-- - Sign: src/sign.rs. Metrics: src/metrics.rs. Config: src/config.rs, Probe the address of the
--   health check.
-- - Geo: src/geo.rs. Value is a decoded record, Info its fields, Pool the look-up, Open the
--   files. Kinds, Verify and Notices are about what is opened, what passes and which licences
--   are named.
-- - Mmdb: the module test_mmdb of src/geo.rs, which writes the bytes of a test database.
-- - App: src/app.rs. State is `AppState`; Request what is read from headers; Middleware the
--   layers; Rdns and PublicIp the policy for reverse DNS; Handlers, Json and Judge the routes.
--   Token is about who may read the metrics, Lower and View about the headers that handlers see,
--   Verdict and Order about the level that `judge` gives, Reply about its answer through all
--   layers, Endings and Lookups about reverse DNS. Schema has the shapes of the JSON answers,
--   Shapes and Answers are about who has them.
-- - Server: src/server.rs. Basic has the accept loop, one event at a time, and the service of a
--   connection; Moves its steps, Permits its semaphore, Shutdown its end, Peer whom it serves.
-- - Main: src/main.rs. Health is `healthcheck`, Reads and StatusLine what it reads, Run is
--   `main`, Signal what ends it.
-- - Examples: the theorems at concrete inputs.
-- - UnitTests: the tests under cfg(test), with the names they have there, as Booleans that compute
--   to true. Notation, Api and Wire have their helpers.
--
-- Choices. A text is the list of its code points and a `Vec<u8>` that of its bytes. State is
-- passed explicitly: an operation takes a state and gives one back. What runs beside a request -
-- the clock, other tasks while one waits, a permit or a timeout - is an argument, so that a
-- theorem holds for all of it. The tokens of a bucket are values of the interface of
-- `f64`, which has laws that doubles obey, so a theorem takes no result for exact that is
-- rounded; an instance with fixed-point numbers evaluates the tests. A `RateLimit` keeps
-- its buckets in a list and the cache holds their places, as the program shares them by `Arc`.
-- The counters wrap around at 2 ^ 64. The readers of numbers recurse on the most digits that the
-- format has (three for an octet, four for a group), and the reader of groups on the eight
-- groups of an address; `print_u64` has twenty digits, and every u64 has at most these. The
-- health check reads on fuel: each round but the last brings a byte or more, and it stops at
-- 1024 bytes, so 1025 rounds are enough. The accept loop is a function from a state and an event
-- to the next state, and what may come when is left to the environment; where `select!` finds
-- two branches ready, either may be taken. All other loops follow a list.
--
-- Parameters. Ed25519, SHA-256 and base64 (`Crypto`), the cache (`Cache`), Unicode's table of
-- alphanumeric characters, lossy UTF-8 decoding, JSON text, `f64` (`F64`), the test of a header name
-- and of a header value, the debug form of a text, a database reader and a directory, the command
-- line and the network of a host. The laws they come with are those that their documentation
-- gives.
--
-- How `axum` reads a query is not code of the repository: a request has what the extractor reads
-- or the text with which it refuses (400). The routes answer GET and HEAD, and 405 to another
-- method.
--
-- Not modelled: log lines, which are all that `access_log_mw` adds; what hyper and tokio do with
-- the bytes of a connection, the timeout on request headers among it; of the tests the two that
-- open sockets and the known vector of a signature; scripts and containers.
pub mod Base
pub mod Str
pub mod Addr
pub mod Dict
pub mod Host
pub mod Client
pub mod Anonymity
pub mod Classify
pub mod Float
pub mod Cache
pub mod RateLimit
pub mod Sign
pub mod Metrics
pub mod Config
pub mod Geo
pub mod Mmdb
pub mod App
pub mod Server
pub mod Main
pub mod Examples
pub mod UnitTests
