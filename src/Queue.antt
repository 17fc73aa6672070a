-- ===== src/Queue.antt =====
-- core/concurrency.py: the bounded queues between the loggers and the workers. Every public method
-- runs under the queue's lock, so what threads do to a queue is a sequence of its operations.
pub mod Ring
pub mod Level
pub mod Dual
pub mod Priority
