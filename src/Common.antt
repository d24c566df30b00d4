-- ===== src/Common.antt =====
-- packages/common/src: what every service shares.
pub mod Errors
pub mod RateLimiter
pub mod Pagination
pub mod Permission
pub mod Tokens
pub mod JetStream
pub mod Encryption
