-- ===== src/Client/Logon.antt =====
-- `Logon` of client/login.go.
pub mod Laws
use go_steam.Base.{ℕ, Bool, true, Option, none, some, [], ◌∷◌, Bytes, codes}
use go_steam.Base.Results.{Result, ok, err}
use go_steam.Base.Effects.{Call, ◌>>=◌}
use go_steam.Protocol.Message.{Header, new_header, job_id_none}
use go_steam.Protocol.State.{Protocol, ProtocolError}
use go_steam.Protocol.Handlers.{Outside, send}
use go_steam.Protocol.OverTcp.{Socket}
use go_steam.Identity.Session.{Identity}
use go_steam.Client.{
  Client, ClientCall, ClientError, nil_protocol, protocol_error, hand_over, identity,
}

-- `EMsg_k_EMsgClientLogon`
abbrev pub emsg_client_logon : ℕ
emsg_client_logon = 5514

-- The fields of `CMsgClientLogon` that are set; the address is an IPv4 one.
pub record LogonBody : Type 0 where
  pub protocol_version : ℕ
  pub access_token : Bytes
  pub supports_rate_limit_response : Bool
  pub machine_name : Bytes
  pub obfuscated_private_ip : ℕ
  pub client_language : Bytes
  pub client_os_type : ℕ
  pub chat_mode : ℕ
  pub cell_id : ℕ
  pub machine_id : Bytes

machine_id_ : Bytes
machine_id_ =
    0 ∷ 77 ∷ 101 ∷ 115 ∷ 115 ∷ 97 ∷ 103 ∷ 101 ∷ 79 ∷ 98 ∷ 106 ∷ 101 ∷ 99 ∷ 116 ∷ 0 ∷ 1 ∷ 66 ∷ 66
    ∷ 51 ∷ 0 ∷ 103 ∷ 111 ∷ 45 ∷ 115 ∷ 116 ∷ 101 ∷ 97 ∷ 109 ∷ 45 ∷ 99 ∷ 108 ∷ 105 ∷ 101 ∷ 110 ∷ 116
    ∷ 45 ∷ 109 ∷ 97 ∷ 99 ∷ 104 ∷ 105 ∷ 110 ∷ 101 ∷ 45 ∷ 105 ∷ 100 ∷ 45 ∷ 104 ∷ 101 ∷ 120 ∷ 97 ∷ 100
    ∷ 101 ∷ 99 ∷ 105 ∷ 109 ∷ 97 ∷ 108 ∷ 0 ∷ 1 ∷ 70 ∷ 70 ∷ 50 ∷ 0 ∷ 56 ∷ 54 ∷ 101 ∷ 53 ∷ 98 ∷ 98 ∷ 51
    ∷ 48 ∷ 49 ∷ 53 ∷ 97 ∷ 57 ∷ 100 ∷ 97 ∷ 101 ∷ 97 ∷ 101 ∷ 57 ∷ 49 ∷ 56 ∷ 57 ∷ 48 ∷ 98 ∷ 100 ∷ 57
    ∷ 53 ∷ 52 ∷ 100 ∷ 56 ∷ 52 ∷ 55 ∷ 56 ∷ 54 ∷ 97 ∷ 102 ∷ 51 ∷ 100 ∷ 99 ∷ 99 ∷ 49 ∷ 0 ∷ 1 ∷ 51 ∷ 66
    ∷ 51 ∷ 0 ∷ 103 ∷ 111 ∷ 45 ∷ 115 ∷ 116 ∷ 101 ∷ 97 ∷ 109 ∷ 45 ∷ 117 ∷ 117 ∷ 105 ∷ 100 ∷ 45 ∷ 104
    ∷ 101 ∷ 120 ∷ 45 ∷ 118 ∷ 97 ∷ 108 ∷ 117 ∷ 101 ∷ 45 ∷ 102 ∷ 111 ∷ 114 ∷ 45 ∷ 109 ∷ 97 ∷ 99 ∷ 104
    ∷ 105 ∷ 110 ∷ 101 ∷ 0 ∷ 8 ∷ 8 ∷ []

pub logon_body : Identity → LogonBody
logon_body i = record {
  protocol_version = 65580;
  access_token = i.refresh_token;
  supports_rate_limit_response = true;
  machine_name = [];
  obfuscated_private_ip = 0;
  client_language = codes "english";
  client_os_type = 4294967093;
  chat_mode = 2;
  cell_id = 85;
  machine_id = machine_id_;
}

pub logon_header : Identity → Header
logon_header i = record (new_header emsg_client_logon) {
  proto = some (record {
    steam_id = some i.steam_id;
    client_session_id = none;
    job_id_source = some job_id_none;
    job_id_target = some job_id_none;
    others = [];
  });
}

module _ {W : Type 0} (ready : ℕ → Bool) (out : Outside Socket)
    (marshal_logon : LogonBody → Option Bytes) where
  sent :
      Client
      → W
      → Result ProtocolError (Unit {0}) × Protocol Socket
      → Result ClientError (Unit {0}) × (Client × W)
  sent c w (ok _, h) = (ok tt, (hand_over ready h c, w))
  sent c w (err e, h) = (err (protocol_error e), (hand_over ready h c, w))

  -- `c.protocol.Send(…)`; a nil protocol panics.
  sent_to :
      Option (Protocol Socket)
      → Identity
      → Client
      → W
      → Result ClientError (Unit {0}) × (Client × W)
  sent_to none i c w = (err nil_protocol, (c, w))
  sent_to (some h) i c w = sent c w (send out (logon_header i) (marshal_logon (logon_body i)) h)

  send_logon : Identity → ClientCall W (Unit {0})
  send_logon i (c, w) = sent_to c.protocol i c w

  pub logon : ClientCall W (Unit {0})
  logon = identity >>= send_logon
