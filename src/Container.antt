-- ===== src/Container.antt =====
-- The JavaScript containers that the services keep their state in.
pub mod JsSet
pub mod JsMap
pub mod SetTests
