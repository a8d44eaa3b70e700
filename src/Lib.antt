-- ===== src/Lib.antt =====
-- A model of ocfp, a proxy that routes LLM requests over several egresses: the parts that decide
-- whether a configuration is accepted, which route a request takes, in which order its egresses are
-- tried, which of them are healthy, how many requests each may carry, which session id a
-- conversation gets upstream, how bodies are read line by line, and how tokens are accounted.
--
-- How the parts interact: internal/config decodes a document, checks it (File.Validate) and builds
-- the snapshot that every request holds (File.Resolve). internal/router takes a snapshot, matches a
-- route (Runtime.MatchRoute), filters its egresses and asks the scheduler of internal/routing for a
-- plan. internal/upstream walks the plan: it asks the limiter for a slot, dials, classifies a
-- failure, and reports each outcome to the registry of internal/health. The store of internal/config
-- polls the file and swaps the snapshot under running requests. Before a dial, ResolveSession asks
-- internal/identity for the conversation's id; the client walks redirects itself and hands the lines
-- of a streamed body to the relay; internal/usage reads and completes the token counts of a reply.
--
-- Files, and the sources they model:
--   Config/File, Egress, Error, Validate, Runtime, Resolve  internal/config/file.go
--   Health                                                  internal/health/health.go
--   Routing                                                 internal/routing/routing.go
--   Upstream/Failure                                        internal/upstream/failure.go
--   Upstream/Limiter                                        internal/upstream/limits.go
--   Upstream/Client, ErrorBody                              internal/upstream/client.go
--   Config/Interpolate                                      internal/config/file.go
--   Config/Store                                            internal/config/store.go
--   Upstream/Redirects, Lines                               internal/upstream/client.go
--   Upstream/Socks                                          internal/upstream/socks5.go
--   Relay/Frames                                            internal/relay/sse.go
--   Translate/Modality                                      internal/translate/modality.go
--   Identity/Session                                        internal/identity/session.go
--   Identity/UserAgent                                      internal/identity/useragent.go
--   Identity/Cache, Clients                                 internal/identity/sessionresolver.go
--   Identity/Clients/Resolving                              internal/identity/clienttool.go and
--                                                           internal/upstream/executor.go
--   Jsonx                                                   internal/jsonx/jsonx.go
--   Usage                                                   internal/usage/usage.go
--   Upstream/Recorder                                       internal/upstream/evidence.go
--   Upstream/Executor                                       internal/upstream/fallback.go
--   Router                                                  internal/router/server.go
-- A child module of these holds theorems: Config/Validate/Sound what an accepted document satisfies,
-- Config/Resolve/Matching which route is matched, Routing/Lifecycle when rotation state is kept,
-- Routing/WeightedTurns the share that a head gets, Router/Eligible what makes a head eligible,
-- Relay/Frames/Cleaning what is cleaned from a body, Health/Requests what concurrent requests can
-- rely on, Upstream/Limiter/Holders the count of the gate, Upstream/Client/Retries how the retries
-- of one egress end, Upstream/Executor/Verdicts what the walk over a plan returns,
-- Upstream/Redirects/Leaks what a redirect chain carries, Upstream/Lines/Delivery what ScanLines
-- delivers, Upstream/Socks/Handshake what a SOCKS5 handshake leaves, and
-- Identity/Clients/Resolving/Shape and Stable what a session id can be relied on for.
-- Prelude holds byte strings, integers, decimal texts and Go maps. Tests holds concrete inputs.
--
-- Correspondence: a Go method of a type with a mutex is a function from the state before to the
-- state after and the results; a concurrent run is a sequence of such steps (Step and Reach). A Go
-- map is an association list with replacement; where the source iterates over one, the order of the
-- list is any order, so a theorem for all lists holds for every order. A Go string is a list
-- of bytes, a nil pointer is `none`, an error is a value of a result type. A time is a count of
-- nanoseconds, and the two readings of the clock that one observation can take are two arguments.
-- Deep copies are not seen, since no value of the model can be written to.
--
-- Integers: `int` and `int64` values of a document are unbounded integers, and so are counters and
-- cursors at run time, which would pass 63 bits only after that many requests. The wrap-around of
-- 64 bits is written out (wrap64) in the conversion of the sync interval from seconds (seconds), and
-- in the sums of a weighted selection (poll, charge), since Validate bounds a weight only from below.
-- Routing/Exact is the selection in integers that do not wrap, with which the code's is compared.
--
-- Parameters: path.Match, url.Parse and strings.TrimSpace of Go's standard library are a record of
-- functions (Config/Std), about which nothing is assumed. sort.SliceStable is written out as an
-- insertion sort, the one result that a stable sort can have. What the network answers at each dial
-- is a function of the attempt and the dial, and so are the moments at which the context is done;
-- decoding an error body, the clock and whether a client exists for an egress are functions too.
--
-- The YAML decoder, the environment, SHA-256, crypto/rand, json's decoder and encoder, utf8's
-- decoding of a rune, and net/http and net/url as the redirect chain uses them are parameters as
-- well; where a theorem relies on one, what it relies on stands in the theorem as a named hypothesis
-- (IsSum, IsRandom, IsDecoder, IsCodec, Reparses). float64 is a type with operations (Floats,
-- Numbers), of which one theorem assumes that 0 < 0 is false. A decoded JSON value is a tree of six
-- shapes.
--
-- A connection to a SOCKS5 proxy is what the proxy still sends, what it was sent, and how many bytes
-- it takes before a write fails.
--
-- Concurrency of ScanLines: reader and caller are two sides of one step relation, with the channel
-- of lines as a queue. Warm of the User-Agent cache is two steps, with its fetch between them.
--
-- Fuel: the retry loop runs on fuel 4. The rules allow at most three retries from a shared count,
-- so it always ends within that. The redirect chain runs on fuel 21, one more than its cap; UTF16Len
-- on the length of its text, a byte or more being taken per round.
--
-- Not modelled: the close of a served response's body, which frees its slot, and what other
-- requests do to the registry and the limiter while one request walks its plan; the sanitized
-- texts, fingerprints and rate-limit headers of evidence rows; the constructors of clients; the
-- stop of the poller and the stamps of files; the other dialers and TLS fingerprints, the relays of
-- bodies, the rewriting between protocols, cloaking, the fetches of the User-Agent probe, logging,
-- and the HTTP handlers.
pub mod Prelude
pub mod Config
pub mod Health
pub mod Jsonx
pub mod Identity
pub mod Usage
pub mod Translate
pub mod Relay
pub mod Routing
pub mod Upstream
pub mod Tests
pub mod Router
