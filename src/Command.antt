-- ===== src/Command.antt =====
-- cmd: the two programs, as far as what they make before they serve.
pub mod Levels
pub mod Kubeconfig
pub mod Controller
pub mod Dataplane
mod Tests
