-- ===== src/Gateway.antt =====
-- apps/gateway/src: the public entry of the platform.
pub mod SocketRegistry
pub mod Websocket
pub mod Idempotency
pub mod Clients
pub mod NotificationEvents
pub mod NotificationPush
