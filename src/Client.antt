-- ===== src/Client.antt =====
-- client/: the file watcher, the client and its configuration.
pub mod FileWatcher
pub mod Session
pub mod Config
