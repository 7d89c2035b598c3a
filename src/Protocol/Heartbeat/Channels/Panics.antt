-- ===== src/Protocol/Heartbeat/Channels/Panics.antt =====
-- What panics in an interleaving: only the ticker of an interval that is not positive.
use go_steam.Base.{List}
