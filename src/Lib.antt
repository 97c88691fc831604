-- ===== src/Lib.antt =====
-- Verification of tower-rate-tier, rate limiting by tier as a tower middleware.
--
-- A request comes to a service (src/service.rs, or src/buffered.rs, which reads the body first).
-- The service asks an identifier who the user is and which tier they have, and the checks of
-- src/check.rs for the quota and the cost of the request. It then asks a storage
-- (src/storage/mod.rs) for a decision, and either calls the wrapped service, and adds headers to
-- its reply, or replies itself (src/response.rs). A storage keeps one arrival time for each bucket,
-- a user within a tier, and decides by the generic cell rate algorithm (src/gcra.rs): in memory
-- (src/storage/memory.rs), in Redis (src/storage/redis.rs with src/storage/gcra.lua), or in
-- whichever works, through a circuit breaker (src/storage/breaker.rs). A collector (src/gc.rs)
-- removes the entries of the memory storage that have expired.
--
-- Which file is about which code:
--   Prelude              names of the standard library, words of fixed width, panics, texts,
--                        and decimal numbers
--   Duration             durations, and ceil_secs of src/gcra.rs
--   SystemTime           the wall clock that the reset header is computed from
--   HashMap              the map of the tiers
--   Quota                src/quota.rs; Bounds is about what its constructors guarantee
--   Gcra                 src/gcra.rs; Decision, Tokens and Retry are about its results
--   Storage              src/storage/mod.rs; Serve is a history of requests to any storage,
--                        Limits what a storage promises about the rate of a bucket, and that the
--                        memory storage keeps it
--   Storage.DashMap      the map under the memory storage, a parameter
--   Storage.Memory       src/storage/memory.rs; Buckets is about one operation; Runs, Rate,
--                        Collection, Remaining and Idle are about histories of operations
--   Storage.Breaker      src/storage/breaker.rs with Transition and Event; Flights is the relation
--                        of its overlapping calls, Probe and Failures are about them; Threshold,
--                        Serving, Histories, Log, Rate and Failover are about calls one after the
--                        other (Local tells which of them the fallback answers, Levels and Primary
--                        what they charge to the fallback and to the primary), and Frames about the
--                        parts of the state that a step leaves
--   Storage.Redis        src/storage/redis.rs with Key; Script is src/storage/gcra.lua on numbers, and
--                        Lua on its strings; Parsed compares the two. Collisions is about
--                        keys, Units about the arguments of the script, Writes and Effective about
--                        what it stores, and Agreement compares it with src/gcra.rs. Server is a
--                        server that runs the script, Faults a connection to it that fails at times;
--                        Served is about one call to it, Rate about a history of calls of several
--                        instances
--   Storage.Failover     the breaker in front of such a Redis storage, as in
--                        examples/axum_redis_fallback.rs; Levels is about one of its calls, Rate about
--                        a history of them
--   Policy               src/on_missing.rs, src/on_unknown_tier.rs, src/on_storage_error.rs, and
--                        the identity of src/identifier.rs
--   Http                 the types of the crate http, a parameter
--   Layer                src/layer.rs, src/identifier.rs and src/event.rs
--   Response             src/response.rs; Headers is about the headers of replies, Reset about the
--                        moment that one of them tells, Escape about the strings in their bodies
--   Tier                 src/tier.rs; Calls and Rate are about histories of its check, Errors has the
--                        texts of its errors. Builder is its builder, Default and Made are about
--                        what it guarantees
--   Check                src/check.rs
--   Service              src/service.rs; Buffered is src/buffered.rs, Verdict is about how a
--                        request ends, Kinds names the ways, Agreement compares the two services,
--                        and Direct the service with the check of src/tier.rs. Layers are the layers
--                        of src/layer.rs and src/buffered.rs, Charged is about the cost layer, and
--                        Readiness about which instance of the wrapped service a call takes.
--                        Requests is a history of requests, Answers and Handled are about one of
--                        them, Passed and Rate about what the wrapped service gets of it, and Retry
--                        about a refused request that comes back
--   Cost, Clock, Gc      src/cost.rs, src/clock.rs (Advance is about its loop), src/gc.rs (Sweep
--                        is about what its task leaves)
--   Apps                 the programs of examples/: Basic, Jwt, ApiKey (Unknown is about keys that
--                        have no tier) and RedisFallback (Limiter is the limiter that it builds,
--                        Answered is about what it answers)
--   Examples             concrete runs
--
-- How the code is modelled. Rust's integers are natural numbers with the saturation, the casts and
-- the panics written out; a computation that may panic returns an option. A Duration is its number
-- of nanoseconds, a String the list of its code points. A future is run to its end, and a method
-- that changes shared state takes and returns that state. The breaker is modelled twice: as such a
-- method, and as a system in which the futures of any number of calls are made, polled, answered,
-- finished and dropped in any order. The only fuel is that of Prelude.Text.decimal, which is
-- above the number, and so above the number of its digits; the loop of FakeClock::advance runs over
-- the list of the turns that it gets.
--
-- What is not under the repository is a parameter: the map of the crate dashmap (with what its
-- documentation says of its operations), header maps and request parts of the crate http, the
-- reading of a body by http-body-util, the digest of sha1_smol, the connection to Redis, Lua's
-- tonumber, when Redis drops an expired key, the clock, the runtime, the crates that read the
-- token of examples/axum_jwt.rs, and the callbacks, identifiers and services that a user passes.
-- Examples.Table and Examples.Service give concrete ones.
--
-- use_client_clock of src/storage/redis.rs is modelled, but what is stated of calls of a server that
-- several instances share is about instances without it: it sends the clock of each instance.
--
-- Not modelled: Debug output, the scheduling of Tokio's tasks, the rounding of Lua's doubles beyond
-- 2 ^ 53, and lock poisoning.
pub mod Prelude
pub mod Duration
pub mod SystemTime
pub mod HashMap
pub mod Quota
pub mod Gcra
pub mod Storage
pub mod Policy
pub mod Http
pub mod Response
pub mod Tier
pub mod Layer
pub mod Check
pub mod Service
pub mod Cost
pub mod Clock
pub mod Gc
pub mod Apps
pub mod Examples
