-- ===== src/Protocol/Message/Protobuf.antt =====
-- What the package protocol takes from google.golang.org/protobuf for the message header, and the
-- getters of the generated code (language/steam/steammessages_base.pb.go), which give a nil field
-- its default.
use go_steam.Base.{ℕ, Option, none, some, Bytes, ◌≡◌}
use go_steam.Protocol.Message.{ProtoHeader, job_id_none}

-- `proto.Marshal` and `proto.Unmarshal` on a header: what was marshalled is unmarshalled to itself.
pub record HeaderCodec : Type 0 where
  pub marshal : ProtoHeader → Option Bytes
  pub unmarshal : Bytes → Option ProtoHeader
  pub unmarshal-marshal : (p : ProtoHeader) (b : Bytes) → marshal p ≡ some b → unmarshal b ≡ some p

or_default : ℕ → Option ℕ → ℕ
or_default d none = d
or_default d (some v) = v

abbrev pub get_steam_id : ProtoHeader → ℕ
unfolding or_default
get_steam_id p = or_default 0 p.steam_id

abbrev pub get_client_session_id : ProtoHeader → ℕ
unfolding or_default
get_client_session_id p = or_default 0 p.client_session_id

abbrev pub get_job_id_source : ProtoHeader → ℕ
unfolding or_default
get_job_id_source p = or_default job_id_none p.job_id_source

abbrev pub get_job_id_target : ProtoHeader → ℕ
unfolding or_default
get_job_id_target p = or_default job_id_none p.job_id_target
