-- ===== src/Lib.antt =====
-- Nimburion is a Go framework for services. This library models the parts that decide what
-- becomes of work that fails: retries, circuit breaking, the transactional patterns (outbox,
-- inbox, idempotency, deduplication), sagas, the consumption of events and the job worker; and
-- sessions in memory, semantic versions, policies, when scheduled tasks run, feature flags, the
-- health of a service, the cache of HTTP responses, requests across origins and their tokens, and
-- publishing within a process.
--
-- Files and the code they are about:
--   Base            numbers, texts and lists. A Go int or time.Duration is a ℤ whose operations
--                   wrap at 64 bits where the source adds, doubles or halves; a string is the
--                   list of its code points, so it is valid UTF-8; a time is its nanoseconds, the
--                   zero time 0
--   Errors          error values: pkg/reliability/retry/retry.go (tags), pkg/jobs/errors.go, and
--                   Go's errors and fmt packages
--   Effect          calls of the environment: a run maps the calls made so far to its result and
--                   the calls made then, the last one first
--   Retry           pkg/reliability/retry/retry.go
--   Breaker         pkg/resilience/circuitbreaker.go and timeout.go
--   Transaction     the transaction executors that outbox, inbox and idempotency share
--   Outbox          pkg/reliability/outbox/outbox.go; Outbox/Relay is its relay
--   Inbox           pkg/reliability/inbox/inbox.go
--   Idempotency     pkg/reliability/idempotency/idempotency.go
--   Dedup           pkg/reliability/dedup/dedup.go
--   Saga            pkg/reliability/saga/saga.go
--   EventBus        pkg/eventbus/retry_dlq.go; EventBus/Consume is ConsumeWithRetry
--   Jobs            pkg/jobs/contract.go, backend.go, errors.go and the configuration of
--                   worker.go; Jobs/Processing is the worker itself, and
--                   Jobs/Messages the exchange with event-bus messages,
--                   Jobs/Lifecycle its Start and Stop, and Jobs/Leases the in-process backend
--                   of pkg/jobs/runtime_backend.go
--   Session         pkg/session/store_inmemory.go
--   Version         pkg/version/semver.go; Version/Reading is Parse
--   Policy          pkg/policy/policy.go
--   Scheduler       pkg/scheduler/task.go, and the start and stop of runtime.go; Scheduler/Cron
--                   is the parser of cron expressions, Scheduler/Dispatch is dispatchTask, and
--                   what the loops of runtime.go dispatch when they wake up
--   Health          pkg/health/registry.go and checkers.go
--   FeatureFlag     pkg/featureflag/featureflag.go; FeatureFlag/Posture is posture.go
--   CacheStore      pkg/cache/store_inmemory.go
--   HttpCache       pkg/http/cache/cache.go: its configuration; HttpCache/Keys is buildCacheKey,
--                   with the escape of a text's bytes, HttpCache/Headers what it reads and makes of
--                   headers, HttpCache/Entries the middleware and its entries, HttpCache/Group
--                   the group of requests that share a computation
--   Cors            pkg/http/cors/cors.go
--   Csrf            pkg/http/csrf/csrf.go
--   PubSub          pkg/pubsub/inmemory.go
--   Http            the headers and texts that HttpCache, Cors and Csrf share
--
-- How they interact: EventBus and Jobs ask Retry what to do with a failure, EventBus runs its
-- attempts through a Breaker, the Scheduler makes jobs of Jobs, and the first two hand what they
-- give up to a dead-letter topic or a quarantine. The worker of Jobs takes its jobs from a backend
-- such as Jobs/Leases, the posture of FeatureFlag registers its checks with Health, and HttpCache
-- keeps its entries in a CacheStore. Outbox has a backoff of its own beside that of
-- Retry. A function keeps its name in snake_case (`ConsumeWithRetry` is `consume_with_retry`,
-- `handleFailure` is `handle_failure`); the helpers beside it are the branches and inner
-- functions of the source.
--
-- State and concurrency: the breaker's methods run under its mutex, so each is one step from a
-- state to a state, and callers interleave between steps. Stores, brokers, handlers, sinks and
-- clocks are parameters whose answers may depend on every call made so far. What is assumed of
-- them is named: `IsTransactional` (a transaction is committed as a whole or not at all),
-- `Remembers` (a mark that was written is found) and `ReadsBack` (a time that was formatted is
-- parsed back). Jobs/Leases, HttpCache/Group and PubSub/Buffers give the interleavings of their
-- locked sections as step relations; a delivery that Reserve receives is one that nobody has
-- received, and a token is new when its lease is recorded. Other parameters are
-- time.ParseDuration and the local calendar, the conversion of the float 2^63 to int, url.Parse,
-- the SHA-256 digest, the JSON form of an entry of the cache, the random token of a session, and
-- the seconds of a Duration, which go by a float64.
--
-- Loops: the retry loop has `MaxRetries + 1` rounds and the backoff loops `attempt - 1`, counted
-- down, so no fuel can run out; the loops of the relay and the cleaners follow the list of the
-- signals that arrive, and that of a queue a number of rounds, since they end only with their
-- context. The search for a next run has the source's own limit of rounds. The loop over the
-- values of a cron field has 200 rounds: its limits are below 64 and a step is at least 1; one
-- that wraps at 2^63 is so close to it that two of them make the value smaller, until it is
-- negative, and the step behind that passes the end. The digits of a number n are printed on fuel
-- n + 1, enough because each division by ten makes a positive number smaller.
--
-- Not modelled: log lines, traces, the registration of metrics, SQL schemas, panics but those of
-- a cached handler, the propagation of contexts except where one ends a wait, and the packages
-- that adapt foreign libraries (HTTP beside its cache, CORS and CSRF, gRPC, brokers, databases,
-- caches, mail).
pub mod Base
pub mod Errors
pub mod Effect
pub mod Retry
pub mod Breaker
pub mod Transaction
pub mod Outbox
pub mod Inbox
pub mod Idempotency
pub mod Dedup
pub mod Saga
pub mod EventBus
pub mod Jobs
pub mod Session
pub mod Version
pub mod Policy
pub mod Health
pub mod FeatureFlag
pub mod CacheStore
pub mod Http
pub mod HttpCache
pub mod Cors
pub mod Csrf
pub mod PubSub
pub mod Scheduler
