-- ===== src/Protocol.antt =====
-- The package protocol: messages with their headers, and the handlers of the messages that the
-- server sends (protocol/protocol.go, read.go, write.go, handlers.go, heartbeat.go, events.go).
pub mod Message
pub mod State
pub mod Handlers
pub mod Multi
pub mod Dispatch
pub mod OverTcp
pub mod Heartbeat
pub mod Tests
