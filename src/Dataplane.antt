-- ===== src/Dataplane.antt =====
-- internal/dataplane: the desired state, the configuration made from it and its application.
pub mod Store
pub mod ExternalIps
pub mod Render
pub mod Host
pub mod IpAttach
pub mod Apply
pub mod Engine
pub mod Machine
pub mod Http
pub mod Settings
mod Tests
