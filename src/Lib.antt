-- ===== src/Lib.antt =====
-- The core of fapilog, an asynchronous logging library: what stands between a call of a logger and
-- the write of a sink.
--
-- A logger puts events into a bounded queue; workers take them out in batches and pass each event
-- through filters, enrichers, redactors, serialization and processors to the sink. A pressure
-- monitor samples the fill of the queue and of circuit breakers and reacts with stricter filters,
-- more workers and shedding. Paths are from the repository's root.
--
-- Files and code:
--   Queue           src/fapilog/core/concurrency.py: Ring (NonBlockingRingQueue), Dual (DualQueue),
--                   Priority (PriorityAwareQueue), Level (_is_protected of both)
--   Worker          src/fapilog/core/worker.py: the stages of LoggerWorker._flush_batch; Worker.Flush
--                   the two phases, writes and counters; Worker.Loop the passes of run
--   Redactors       src/fapilog/plugins/redactors/__init__.py: redact_in_order; FieldBlocker is
--                   field_blocker.py
--   Enrichers       src/fapilog/plugins/enrichers/__init__.py: enrich_parallel, _deep_merge
--   Filters         src/fapilog/plugins/filters/__init__.py (Chain), level.py (Gate), rate_limit.py,
--                   first_occurrence.py; src/fapilog/core/filter_ladder.py (Ladder)
--   Levels          src/fapilog/core/levels.py
--   Bucket          the token bucket of diagnostics.py and rate_limit.py
--   Diagnostics     src/fapilog/core/diagnostics.py
--   Breaker         src/fapilog/core/circuit_breaker.py: SinkCircuitBreaker
--   Pressure        src/fapilog/core/pressure.py: EscalationStateMachine; Pressure.Monitor PressureMonitor
--   Cache           src/fapilog/caching/cache.py: HighPerformanceLRUCache
--   WorkerPool      src/fapilog/core/worker_pool.py: WorkerPool
--   Routing         src/fapilog/core/routing.py: RoutingSinkWriter, with the breakers of Breaker
--   Fallback        src/fapilog/plugins/sinks/fallback.py: minimal_redact, _write_to_stderr
--   Retry           src/fapilog/core/retry.py: AsyncRetrier
--   Resources       src/fapilog/core/resources.py: AsyncResourcePool
--   Audit           packages/fapilog-audit/src/fapilog_audit/audit.py: Event (AuditEvent), Entry (what
--                   log_event builds), Trail (queue, numbers, hashes, files), Verify
--   Tamper          packages/fapilog-tamper/src/fapilog_tamper: Record (types.py, canonical.py),
--                   Enricher (enricher.py, chain_state.py), Verify (verify.py), Sealed (sealed_sink.py)
--   Prelude         tests, lists, texts, dictionaries and the values that events hold
--
-- A class is a record of its attributes and a method a function from the record (and what it reads
-- from outside: the clock, a random draw, the stop flag) to the new record and its result. A method
-- that holds the class's lock is one step. An exception is a case of the result: `none`, or a
-- constructor of an error type. Functions carry the source's names without leading underscores.
--
-- Numbers: ratios are exact fractions and times are natural numbers in one unit; where the code
-- subtracts and takes `max(0, ..)`, the subtraction of the natural numbers does it. Tokens of a
-- bucket are counted in parts, so that refills are whole. The code's floats round, the model does
-- not.
--
-- Fuel: the loops that drain a queue run on one more than the number of events that wait, and each
-- of them is shown to empty the queue. The loop of the retrier runs on the attempts
-- that are left. All other loops are over lists and trees.
--
-- The audit trail and the tamper package chain the events that they write by hashes. Their files
-- are read back by verifiers; JSON, base64, hashes, signatures and pydantic's reader are parameters,
-- and what a theorem relies on of them (that decoding undoes encoding, that a written line is read
-- as its event) is among its hypotheses.
--
-- Parameters: the round trip through orjson and the two serializers (`copy`, `envelope`, `mapping`
-- of a Pipeline), the plugins and the sink, which are functions of the event, `str` of values that
-- are no text (`render`), the advice of the adaptive controller (`advise`), the functions that are
-- retried. Nothing is assumed of them. The inner sink of a sealed sink is told by what is read back of
-- a record (`kept`) and whether it can rotate (`has_rotate`); RotatingFileSink drops the integrity
-- fields and has no `rotate`, so that what is shown of sealed files is of other inner sinks.
--
-- Not modelled: metrics and the texts of diagnostics, which only observe; threads and event loops,
-- whose interleavings are sequences of steps; cancellation; the sinks themselves, the other redactors,
-- the envelope, settings, the plugin loader and the integrations.
pub mod Prelude
pub mod Queue
pub mod Audit
pub mod Breaker
pub mod Tamper
pub mod Routing
pub mod Retry
pub mod Resources
pub mod Fallback
pub mod Pressure
pub mod Levels
pub mod Filters
pub mod Bucket
pub mod Diagnostics
pub mod Cache
pub mod WorkerPool
pub mod Redactors
pub mod Enrichers
pub mod Worker
