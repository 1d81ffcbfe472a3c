-- ===== src/Types.antt =====
-- The documents that the control kernel reads and writes (src/types.ts), a module per group.
-- A field whose type is one literal (`apiVersion`, `kind`, `secretAccess: false`) carries no
-- information and is left out; numbers are the non-negative integers that the schemas admit.
pub mod Lifecycle
pub mod Accord
pub mod Policy
pub mod Event
pub mod Snapshot
