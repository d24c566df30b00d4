-- ===== src/External.antt =====
-- The services that the platform talks to, as interfaces: operations and documented laws.
pub mod Redis
pub mod Table
pub mod Links
