-- ===== src/Discoverer.antt =====
-- cmd/discoverer: the daemon that turns container state into Traefik configuration.
pub mod Misconfig
pub mod Reconcile
pub mod Coverage
pub mod Certified
pub mod System
pub mod AtomicWrite
pub mod Boot
pub mod Debounce
pub mod EventLoop
pub mod Suffixes
pub mod Start
pub mod Process
pub mod Subscription
