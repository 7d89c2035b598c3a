-- ===== src/Example.antt =====
-- The commands under examples/: what they ask of the host, and their errors.
pub mod Saved
pub mod Guard
pub mod Login
pub mod Labels
pub mod Tests
use go_steam.Base.{ℕ, Bool, Option, Bytes}
use go_steam.Base.Results.{Result, ok, err}
use go_steam.Base.Effects.{Call}
use go_steam.Totp.{TotpError}
use go_steam.Client.{Client, ClientError}

-- `savedSession` of steam-library-example/main.go.
pub record SavedSession : Type 0 where
  pub steam_id : ℕ
  pub refresh_token : Bytes
  pub username : Bytes

-- An error of `ReadString`, and one of the file system.
pub data LineError : Type 0 where
  end_of_input input_broken : LineError

pub data FileError : Type 0 where
  not_exist file_broken : FileError

-- The errors of the commands. `input_fatal` stands for the exit of `prompt`.
pub data ExampleError : Type 0 where
  path_empty session_malformed session_incomplete marshal_failed : ExampleError
  file_error : FileError → ExampleError
  client_error : ClientError → ExampleError
  code_failed : TotpError → ExampleError
  secret_not_allowed needs_external_confirmation no_usable_method : ExampleError
  input_failed input_fatal password_failed environment_missing : ExampleError

-- The standard input with its terminal, the files, and encoding/json on a session. `read_line` gives
-- what was read, up to and with the end of the line, and maybe an error.
pub record Host (W : Type 0) : Type 0 where
  pub read_line : W → (Bytes × Option LineError) × W
  pub is_terminal : Bool
  pub read_password : W → Option Bytes × W
  pub read_file : Bytes → W → Result FileError Bytes × W
  pub write_file : Bytes → Bytes → W → Result FileError (Unit {0}) × W
  pub make_dirs : Bytes → W → Result FileError (Unit {0}) × W
  pub dir_of : Bytes → Bytes
  pub marshal_session : SavedSession → Option Bytes
  pub unmarshal_session : Bytes → Option SavedSession

-- A step of a command, with its client.
abbrev pub ExampleCall : Type 0 → Type 0 → Type 0
ExampleCall W A = Call ExampleError (Client × W) A

-- A call of the host that may fail.
pub on_host :
    {E W A : Type 0}
    → (E → ExampleError)
    → Result E A × W
    → Client
    → Result ExampleError A × (Client × W)
on_host wrap (ok a, w) c = (ok a, (c, w))
on_host wrap (err e, w) c = (err (wrap e), (c, w))
