-- ===== src/Comm.antt =====
-- comm/: the messages, the sockets and the two ends of the protocol.
pub mod CommError
pub mod Message
pub mod Utils
pub mod Socket
pub mod Changes
pub mod ServerApi
pub mod ClientSocket
pub mod ClientApi
