-- ===== src/Receipts.antt =====
-- src/core/receipt-store.js and src/core/receipt-signing.js: the record of a run, as a chain of hashes.
pub mod Canonical
pub mod Signing
pub mod Lines
pub mod Store
pub mod Chain
pub mod Lengths
pub mod Tails
pub mod Entries
pub mod RoundTrip
pub mod Standing
pub mod Continuity
mod Examples
