-- ===== src/Tamper.antt =====
-- packages/fapilog-tamper/src/fapilog_tamper: the chain of authenticated records, its verification
-- and the manifests of closed files.
pub mod Record
pub mod Enricher
pub mod Verify
pub mod Links
pub mod Authentic
pub mod Relink
pub mod Written
pub mod Reports
pub mod Sealed
pub mod Signed
pub mod Notes
pub mod Rotations
pub mod Closed
pub mod Forgotten
pub mod Restart
mod Tests
pub mod Sound
