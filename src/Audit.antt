-- ===== src/Audit.antt =====
-- packages/fapilog-audit/src/fapilog_audit/audit.py: the audit trail with its hash chain.
pub mod Event
pub mod Trail
pub mod Verify
pub mod Chain
pub mod Reading
pub mod Stored
pub mod Runs
pub mod Verdict
pub mod Gaps
pub mod Restart
mod Tests
pub mod Entry
