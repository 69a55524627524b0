-- ===== src/Lib.antt =====
-- The gateway NextAPI: one address for clients of four chat protocols, in front of many upstreams.
--
-- A request comes to `run_gateway` (src/gateway.rs). It is checked there against its key, its rate, its tokens and its
-- quota (src/limit), then routed: the routes whose pattern matches the model give candidates, which the breaker
-- (src/routing) and the guard of credentials (src/upstream/cred.rs) may strike out; what is left is ordered into
-- attempts. A request with an idempotency key is registered (src/idempotency.rs). Then the loops of retries and of
-- failover call the upstreams, tell the breaker, and end with an answer or the last error. Streams pass through the
-- parser and the encoder of events (src/protocol/sse.rs). Where client and upstream speak different protocols, bodies
-- go through an intermediate representation (src/protocol/ir.rs); errors are translated on their own
-- (src/protocol/errors.rs). What a response cost is read from its usage (src/upstream/usage.rs) and priced by the rules of
-- the upstream in two currencies (src/billing).
--
-- Files, and the code that they model:
--   Base and its children: shared names, numbers, lists, sorting, tables, JSON values.
--   Entities, Entities/Caps: the rows of src/entities.rs and their methods `model_allowed`, `is_usable`,
--     `debug_active`, `auto_disable_allowed_in`, `capabilities`, `missing`.
--   ApiError: src/error.rs. Protocol: the enum of src/protocol/ir.rs, and the protocols of an upstream.
--   Routing/Pattern: `pattern_matches`; Glob says what a pattern means, Split and Correct relate the two.
--   Routing/Select: `match_routes` and `weighted_pick`; Order and Pick are what they promise.
--   Routing/Breaker: `Breaker` with `allow`, `on_success`, `on_failure`, `reset`, and the pure functions; the state is the
--     two maps, what a method sends to the database is returned as a value. Cooldown, Invariant, Step, Trip, Store prove.
--   Routing/Sticky: `StickyMap`; Bounded proves.
--   Limit: `RateLimiter`, `window_allow`, `tpm_precheck`; Limit/Quota: `check_quota` and `QuotaCache`; Window and Status
--     prove.
--   Idempotency: the table of src/idempotency.rs and its statements; Sessions proves what requests are answered.
--   Upstream, Upstream/Guard: `UpstreamError` of src/upstream/mod.rs, `classify` and `AuthGuard` of src/upstream/cred.rs.
--   Gateway/Request: what is read from a request. Gateway/Admission: the checks of `run_gateway` before any call, as one
--     function on the shared state; Order and Sound prove. Gateway/Candidates: `decide_mode`, `order_candidates`,
--     `reorder_pinned_first`; Grouped and Choice prove. Gateway/Failover: the two loops of `run_gateway`, with the
--     channel of each pass (a websocket of Codex may give way to HTTP within one); Bounds, Settle and Stop prove.
--   Protocol/Ir: the types of src/protocol/ir.rs and `ConvCtx` of src/protocol/mod.rs. Protocol/Finish:
--     `normalize_finish_reason`.
--   Protocol/Chat: src/protocol/chat.rs. Parts, Message, Tools and Request are the two directions of a request, Response and
--     Usage those of a response, Chunk those of a stream; Trip below each, and Chunk/Line, are what is read back from what
--     was written.
--   Protocol/Anthropic: src/protocol/anthropic.rs. Blocks, Message, Tools and Request read a request, Body writes it (Order
--     proves); Response (Spoken, Trip) and Usage (Trip) are those of a response. Events is the state of a stream and its events,
--     Events/Write makes them of chunks and Events/Read chunks of them; Events/Grammar says what a client may read, Legal,
--     Chunk and Stream prove that it is kept, Pieces and Back that nothing is lost, Twice is on a second finish reason.
--   Protocol/Gemini: src/protocol/gemini.rs. Parts, Contents and Request read a request, Body writes it (Contents/Pairs
--     proves); Response and Usage are those of a response, Stream and Stream/Read those of a stream, whose calls Once, Known
--     and Sent count.
--   Protocol/Errors: src/protocol/errors.rs; Laws proves.
--   Upstream/Usage: src/upstream/usage.rs; Agree compares it with the usage of the Chat adapter, Stream is on streams.
--   Billing/Decimal: what is asked of decimal numbers. Billing/Rule: price rules and segments of src/billing/mod.rs;
--     Order proves. Billing/Price: the candidates and lines of `price_with_rules`; Best proves. Billing/Total: the sums
--     and `price_with_rules`; Both proves. Billing/Fx: `build_fx_set` and `convert` of src/billing/fx.rs; Laws proves.
--   Sse: `SseParser` and `encode_event`; Chunks and Trip prove.
--   Tests: the theorems at concrete rows, requests and bytes.
--
-- Instants are nanoseconds, and a `Uuid` is a number. A method that holds its lock is one step; the statements on the
-- idempotency table are steps of their own. The 32-bit counters of the breaker and the cast of a queue's length wrap as in
-- a release build. The wildcard loop runs on fuel, which is shown to be enough; every other loop is structural.
-- A JSON number with a fraction is kept as its text. An object is a sequence of keys, each met once.
-- Parameters: the clock, the random draws, the answers of the database and of the upstreams, what building a request
-- gives, the decoding of UTF-8; the text of JSON values and back (`Serde`), decimal numbers (`Decimals`), the weekday and
-- minute in the billing zone (`Local`), the numbers and segments that rules are read from (`Readers`).
--
-- Not modelled: the adapter of Responses, the dispatch over the protocols, the transports (HTTP, WebSocket, Codex, Devin), the batch
-- of prices over the database and the record of prices for the log, media tasks, the log, the administration API, the login,
-- the front end. They need formats or services outside this repository, or are outside this development. The admission
-- takes the pin of the sticky table as an input.
pub mod Base
pub mod Billing
pub mod Entities
pub mod ApiError
pub mod Gateway
pub mod Idempotency
pub mod Limit
pub mod Protocol
pub mod Routing
pub mod Sse
pub mod Upstream
mod Tests
