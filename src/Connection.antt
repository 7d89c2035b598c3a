-- ===== src/Connection.antt =====
-- The package connection: the state of a connection to a Steam server and its packet framing
-- (connection/state.go, connection/tcp.go and connection/dialer.go).
pub mod State
pub mod Network
pub mod Tcp
pub mod Dial
mod Tests
