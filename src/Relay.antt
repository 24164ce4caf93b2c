-- ===== src/Relay.antt =====
-- The relay of tools/smoke_httpdb.py between HTTP clients and a container.
pub mod Bridge
pub mod Forward
mod Tests
