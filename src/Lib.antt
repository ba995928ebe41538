-- ===== src/Lib.antt =====
-- Verification of the system design lab: the Go programs of interview-prep and the core of the
-- music service beatstream.
--
-- The programs of interview-prep
-- * Ring (interview-prep/consistent-hashing/main.go): `Ring` is the struct, with its map as an
--   association list; `new_ring`, `add`, `remove` and `get` are NewRing, Add, Remove and Get.
--   Ring/Crc is the checksum that `hash` calls, Ring/Sorting and Ring/Search are sort.Slice and
--   sort.Search at their documented behaviour. Ring/Owner, Ring/Invariant, Ring/Lookup and
--   Ring/Remap hold the proofs.
-- * Timeline (interview-prep/twitter-timeline/main.go): `Store` is InMemoryStore, `follow`,
--   `post_tweet` and `get_timeline` its methods; the id counter wraps around at 2 ^ 64.
-- * Shortener (interview-prep/url-shortener/main.go): the store and both handlers. The random bytes
--   are an argument; Shortener/Base64 is the encoding.
-- * Limits/Bucket `allow_script` and `allow` (interview-prep/rate-limiter/main.go).
-- * Ring/Demo, Timeline/Demo and Limits/Demo are the functions main of three programs, as the lines
--   that they print.
--
-- The service beatstream
-- * Limits (beatstream/internal/middleware/ratelimit.go): `stream_limit` and `login_limit` are
--   StreamRateLimit and LoginRateLimit, Limits/Bucket `take_token` is the Lua script. Tokens are
--   scaled to whole units, so that no fraction is rounded as Lua's floats are; times are nanoseconds.
-- * Redis is the interface of the Redis commands that the limits and the caches use, with their
--   documented laws, with `cache_get` and `cache_set` (beatstream/internal/cache/redis.go); Redis/Memory
--   is an instance of it, on which the examples run.
-- * Gin is the part of a gin context that the code reads and writes. A middleware is a function to a
--   `Verdict`: go on, or stop with a status.
-- * Middleware (beatstream/internal/middleware): Jwt is jwt.go, with the package that parses tokens
--   as a parameter; Cors is security_headers.go, with ALLOWED_ORIGINS as an argument; Audit is
--   audit.go; Stamps is what requestid.go and prometheus.go decide and the level of a log line, and
--   Logging the rest of the line in zap_logger.go, with its panic. Access and Origins hold the proofs.
-- * Api (beatstream/cmd/api/main.go): the route table with the guards of every route, and a request's
--   way through the audit log, the guards and the handler. The handlers are a parameter there.
--   Api/Stack has the middleware around all routes, the health endpoints, gin's 404, its recovery
--   from a panic and its redirection for a slash at the end of a path, which a Bool decides. Api/Protection and Api/Headers hold the proofs.
-- * Database (beatstream/internal/db/postgres.go): the tables as lists of rows. Each SQL statement is
--   a function on them, with its constraints: keys, references and cascades. A UUID is a number.
--   Database/Schema is `Migrate`, on a schema of the names of tables, columns and indexes;
--   Database/Tracks and Database/Migration hold the proofs.
-- * Search (beatstream/internal/search): opensearch.go and document.go. A request's body is its JSON
--   value (Search/Body); sending a request and decoding an answer are the parameter `Transport`.
-- * Worker/Queue `consume_until` is Consumer.Consume (beatstream/internal/queue/kafka.go), `consume`
--   is one poll of it, and
--   Worker/Offsets `poll` is the same with the offsets that it marks, over an interface to the
--   client's offsets. Worker/Upload is upload.go and transcode.go of beatstream/internal/worker,
--   Worker/Indexing the document that upload.go sends to the search index at its end, and
--   Worker/Analytics is analytics.go. Whether a call fails is an argument, for each call of its own,
--   so a theorem holds for every combination of failures. A transaction works on a copy that the
--   commit puts in place. Worker/Race is a step relation: the statements that any number of
--   deliveries of one event run, in any order, each of which may be cut off. Pipeline, Delivery, Rows, Formats, Catalogue and Plays
--   hold the proofs.
-- * Handlers (beatstream/internal/handler): Playlists, Favorites, Auth, Tracks, Artists, Admin, Search
--   and Recommendations are the files of these names, Stream is the streaming handler and the reader
--   of bytes in tracks.go. Each handler takes the request and the tables to a reply and the tables.
--   Handlers/Auth has bcrypt, the token package and the validator of addresses as parameters,
--   Handlers/Search has PostgreSQL's text search, and the cache is the interface Redis at the
--   responses that it stores. Owners, Marks, Accounts, Releases, Order, Ranking, Cursor, Pages, Paging,
--   Fallback, Erasure, Listening and Reading hold the proofs.
-- * App (beatstream/cmd/api/main.go) connects all of these: `dispatch` calls each route's handler on
--   one state, which holds the tables, the objects, the topics and the keys of Redis, and `server` adds
--   the guards, the two limits and the insertion of the audit row, with the references that the schema
--   gives it. S3_BUCKET and KAFKA_BROKERS are set (`connected`). App/System is a step relation: requests, deliveries
--   to the two workers and pauses, in any order, where a delivery runs to its end. Frames, Kept, Audio, Transcoding and Routing say what
--   single operations do to the state; Serving, Isolation, Log, Unlogged and Streaming hold the proofs
--   on the whole.
-- * Startup (beatstream/cmd): Api and Workers are the starts of the two processes, with what they read
--   from the environment; Storage and Kafka are the constructors of beatstream/internal/storage/s3.go
--   and beatstream/internal/queue/kafka.go, whose clients are the settings that they are given, and
--   the calls for objects; Tracing is beatstream/internal/telemetry/otel.go, Logger is
--   beatstream/internal/logger/logger.go, and Serving and Stopping are the ends of the two processes.
--   Ready and Unqueued hold the proofs.
--
-- Prelude has the lists, maps, texts and tests that all of them share.
--
-- A loop is a recursion on the list that it goes over. Four definitions run on fuel: `search`
-- (Ring/Search), whose fuel is the length, since each round makes the interval shorter, `itoa`
-- (Prelude/Texts), whose 20 digits hold every 64-bit number, `read_until` (Handlers/Reading),
-- which needs at most one call more than there are bytes, and `read_pages` (Handlers/Paging), which
-- needs at most one page more than there are tracks.
--
-- A request is one step: what two requests do at the same time is modelled only as one after the
-- other, and so are deliveries but in Worker/Race. The rows of a table come in one order, where
-- PostgreSQL leaves it open, but for the rows of OpenSearch's hits. A query that fails does so before
-- its first row, and an id that is no UUID fails at the execution, which the code does not look at. Not modelled are: a worker
-- without S3_BUCKET, whose first delivery panics; the goroutines' use of a gin context after its request;
-- the closing of the clients; a URL of OpenSearch that does not parse; writing logs, metrics and traces, and the declarations of the
-- metrics; the types of the columns; the web frontend and the infrastructure, which are in other languages.
pub mod Prelude
pub mod Redis
pub mod Gin
pub mod Ring
pub mod Timeline
pub mod Shortener
pub mod Limits
pub mod Middleware
pub mod Api
pub mod Database
pub mod Worker
pub mod Search
pub mod Handlers
pub mod App
pub mod Startup
