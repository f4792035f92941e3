-- ===== src/Lib.antt =====
-- The Aegis LLM gateway: a proxy that takes a request with a virtual key, checks it, chooses a
-- provider channel, and forwards it. This library models the parts of the Go program that decide, as
-- functions on explicit states, and proves what makes them correct.
--
-- The parts, and the files that model them:
--
-- Prelude: what the other files share. `Int` has Go's `int64` with its wrap-around (`add64`, `sub64`)
-- over signed numbers, `Text` has strings as lists of bytes with `strings.TrimSpace`, `Maps` has maps
-- as association lists, `Fallible` has the pair of a value and an error.
--
-- Breaker: the circuit breaker of internal/middleware/router.go. Each operation runs under the mutex of
-- the breaker, so a concurrent run is a sequence of operations; `Leases` has that sequence as a step
-- relation over the breaker and the leases that requests hold, `Trip` has the runs of one breaker.
--
-- Router: the rest of internal/middleware/router.go. `Channel` and `Pick` have `supportsModel`,
-- `isModelAllowed` and `pickWeighted`; `Table` has `Route`, `hasUnusedCandidate` and the settlement of
-- leases; `Failover` has `routerWithTable` with its loop; `Scan`, `Selection`, `Attempts` and `Probes`
-- have their proofs. One request runs at a time on a table; the breakers alone are modelled under
-- interleaving. The source of random numbers, the clock and encoding/json are arguments. The loop has
-- fuel; each round that goes on adds a channel to those tried, so that one round per channel and one
-- more are enough.
--
-- Server: internal/server/pipeline.go and internal/requestid. `Context` is `RequestContext` with its
-- response writer, `Pipeline` has `execute`, the infrastructure middleware and `ServeHTTP`; `Lifecycle`
-- is `handlerLifecycle` of internal/server/server.go, as runs of its operations. A middleware
-- is a function of the rest of the chain, and a call ends with a return or a panic. The type of
-- dollar amounts is a parameter. The router's loop calls the rest of the chain in this form.
--
-- Middleware: the other files of internal/middleware. `Body` is the body that the middleware share;
-- the router and the adapter read and replace it. `Auth` calls the check of virtual keys and the
-- revocation reader, `Admission` has its proofs. `Keys` is `KMSInjector`, `Adapter` the middleware
-- over provider adapters, `Formats` the adapters that keep the client's format, `Capture` the writer
-- that holds an attempt back, `Proxy` the attempt itself; `Replay`, `Retry`, `Chain` and
-- `Honest` have their proofs. The engine behind `Proxy` is a function that says what a dispatch writes and returns. The
-- router calls key, adapter and proxy as one chain, and the proof that it never mixes two attempts,
-- in Router/Single, is about both sides.
--
-- VirtualKey: internal/virtualkey/virtualkey.go. `Claims` has `Issue` up to the signing of the claims
-- and `validateClaims`, with the saturating difference of `time.Time.Sub`; `Issue` has their proof.
-- `Token` has the signed text and `ValidateAt`, with base64, HMAC-SHA-256 and encoding/json as a parameter
-- `Crypto`; `RoundTrip` has `IsCrypto`, which says what the proofs rely on: what is written is read back,
-- and base64 has no dots.
--
-- Egress: internal/egress/egress.go. `Port` and `Authority` have the parsing of endpoints, `Rules` the
-- allowlist, `Address` the addresses of DNS answers; `Allowed`, `Parsed`, `Source`, `Entries` and `Public`
-- have their proofs. The parsing and printing of addresses by net/netip, and net/url, are parameters.
--
-- Quota: internal/quota/quota.go and internal/middleware/quota.go. `Pricing`, `Store` and `Manager` are the
-- parts of the first, `Middleware` is the second, with the store passed through the rest of the chain;
-- `Ledger` and `Gate` have their proofs. The amounts, `float64`, are a parameter `Amounts`.
--
--
-- Redaction: internal/middleware/redaction.go. `Rules` has the rules, `Sort` and `Spans` the union of their
-- matches, `Text` the rewriting of a text, `Number` the second spelling of a number, `Processor`,
-- `Structure` and `Json` the processor that reads a body token by token, `Inspect` and `Parts` the content
-- parts of a message, `Gate` the scanner and the middleware; the other files have their proofs.
-- `semanticJSONProcessor` is passed from step to step, and its errors leave it behind. regexp is a
-- parameter that answers with a match test and the matches; the decoder and the encoder of encoding/json
-- are a parameter whose answers the proofs do not restrict. The calls of processValue have fuel for the
-- depth, 66 levels from the root, and each loop has fuel one more than its bound (100000 values, 4096
-- members or parts): the bound is reached first.
--
-- KeyStore: internal/kms/local/local.go. `Envelope` has the two formats of an encrypted key, `Backend` the
-- interface to storage with `MemoryBackend`, `Store` the operations on single keys, `Migrate` the rewriting
-- of legacy blobs over two backends; `Opened` and `Preserved` have their proofs. AES-GCM, SHA-256,
-- encoding/hex, the random nonces and the end of a context are parameters; the lock makes a call one step.
-- RateLimit: internal/middleware/ratelimit.go. `Window` has the sliding window of `memoryLimiter` with
-- its head and compaction, `Limiter` has the operations, `Middleware` has `rateLimiter`, which calls
-- them around a request; `Prune`, `Admission` and `Bound` have the proofs. Times are nanoseconds. The
-- trackers of concurrent requests are objects with identity, named by a number.
--
-- Revocation: internal/revocation/revocation.go. `Snapshot` has `validateSnapshot`, `File` has the
-- directory and the file with the faults of an atomic write, `Writer` has `Init` and `Revoke`, `Reader`
-- has `Refresh` and `Check`; `Kept`, `Revoke` and `Published` have the proofs. encoding/json with the
-- scan for duplicate members before it, SHA-256 and the UTF-8 test are a parameter `Codec`, and
-- `IsCodec` is what the proofs rely on: what is written is read back when its texts are UTF-8, and what
-- is read consists of such texts.
--
-- Not modelled: the configuration, the engine of the proxy with its streams, the adapters of Anthropic
-- and Google, the file backend of keys, the listeners and commands. They are input and output
-- for the most part, or parts of their own. The clearing of memory and the log text have no result to
-- state.
pub mod Prelude
pub mod Breaker
pub mod Server
pub mod Middleware
pub mod Router
pub mod RateLimit
pub mod Revocation
pub mod VirtualKey
pub mod Egress
pub mod Quota
pub mod Redaction
pub mod KeyStore
