-- ===== src/Examples.antt =====
-- The theorems at concrete inputs, and tests of the definitions.
pub mod Disk
mod Messages
mod Sessions
mod Tables
mod Watcher
mod Requests
pub mod Probe
mod Sockets
mod Configs
mod ClientSockets
