-- ===== src/Example/Saved.antt =====
-- `loadSession`, `saveSession` and `restoreSession` of examples/steam-library-example/main.go.
pub mod Laws
use go_steam.Base.{
  ℕ, Bool, not, ◌&&◌, ◌||◌, Option, none, some, [], Bytes, codes, bytes_equal, length, ◌==◌,
  if◌then◌else◌,
}
use go_steam.Base.Results.{Result, ok, err, or_err}
use go_steam.Base.Effects.{Call, ◌>>=◌, ◌>>◌, pure, fail, lift, wrap_call}
use go_steam.Api.Transport.{Transport}
use go_steam.Api.Services.{Decoders}
use go_steam.Identity.Session.{Identity, Outside}
use go_steam.Client.{Client, identity}
use go_steam.Client.Auth.{set_identity}
use go_steam.Example.{
  SavedSession, ExampleError, path_empty, session_malformed, session_incomplete, marshal_failed,
  file_error, client_error, Host, ExampleCall, on_host,
}

-- The session of an identity.
unfoldable pub saved_of : Identity → Bytes → SavedSession
saved_of i username = record {
  steam_id = i.steam_id;
  refresh_token = i.refresh_token;
  username = username;
}

-- A session that lacks the id or the token is refused.
complete : SavedSession → Result ExampleError SavedSession
complete s = if s.steam_id == 0 || length s.refresh_token == 0 then err session_incomplete else ok s

module _ {W : Type 0} (host : Host W) where
  read_saved : Bytes → ExampleCall W Bytes
  read_saved path (c, w) = on_host file_error (host.read_file path w) c

  pub load_session : Bytes → ExampleCall W SavedSession
  load_session path = if length path == 0 then fail path_empty else do
    data_ ← read_saved path
    s ← lift (or_err (host.unmarshal_session data_) session_malformed)
    lift (complete s)

  -- The directory of the file, unless it is empty or the current one.
  make_parent : Bytes → ExampleCall W (Unit {0})
  make_parent dir (c, w) =
      if not (length dir == 0) && not (bytes_equal dir (codes "."))
      then on_host file_error (host.make_dirs dir w) c
      else (ok tt, (c, w))

  write_saved : Bytes → Bytes → ExampleCall W (Unit {0})
  write_saved path data_ (c, w) = on_host file_error (host.write_file path data_ w) c

  pub save_session : Bytes → Bytes → ExampleCall W (Unit {0})
  save_session path username = if length path == 0 then pure tt else do
    i ← wrap_call client_error identity
    data_ ← lift (or_err (host.marshal_session (saved_of i username)) marshal_failed)
    make_parent (host.dir_of path)
    write_saved path data_

  module _ {Modulus : Type 0} (transport : Transport W) (decoders : Decoders)
      (outside : Outside W Modulus) (ready : ℕ → Bool) where
    unfoldable pub restore_session : Bytes → ExampleCall W SavedSession
    restore_session path = do
      s ← load_session path
      _ ←
          wrap_call client_error
            (set_identity transport decoders outside ready s.steam_id s.refresh_token)
      pure s
