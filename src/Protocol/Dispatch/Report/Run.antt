-- ===== src/Protocol/Dispatch/Report/Run.antt =====
-- `readMessage` and `Run` keep what the events say of the session (protocol/read.go,
-- protocol/handlers.go, protocol/protocol.go).
use go_steam.Protocol.State.{Protocol}
