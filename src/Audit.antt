-- ===== src/Audit.antt =====
-- shared/security/merkle_audit.py: the tamper-evident audit log, by its parts.
pub mod Hashing
pub mod Tree
pub mod Inclusion
pub mod Forgery
pub mod Binding
pub mod Log
pub mod Keeping
pub mod Backup
mod Tests
