-- ===== src/Example/Saved/Laws.antt =====
-- A session that is saved is the one that the next launch restores.
use go_steam.Base.{
  ℕ, Bool, true, Option, none, some, [], Bytes, length, length-nonempty, ◌==◌, ◌≡◌, ◌≢◌, refl,
}
use go_steam.Base.Results.{Result, ok, err, or_err}
use go_steam.Base.Effects.{
  fail, if_keeps, and_then_keeps, and_then, and_then_inv, wrap_call, wrap_result, lift,
}
use go_steam.SteamId.{is_valid}
use go_steam.SteamId.Laws.{is_valid-nonzero}
use go_steam.Api.Transport.{Transport}
use go_steam.Api.Services.{Decoders}
use go_steam.Identity.Session.{Identity, Outside, new_identity}
use go_steam.Client.{Client}
use go_steam.Client.Auth.Laws.{}
use go_steam.Client.Auth.Done.{identity_known, set_identity_installed}
use go_steam.Example.{
  SavedSession, ExampleError, file_error, marshal_failed, path_empty, Host, on_host,
}
use go_steam.Example.Saved.{
  saved_of, complete, read_saved, load_session, make_parent, write_saved, save_session,
  restore_session,
}

module _ {W : Type 0} (host : Host W) where
  complete-saved_of :
      (i : Identity) (username : Bytes)
      → is_valid i.steam_id ≡ true
      → i.refresh_token ≢ []
      → complete (saved_of i username) ≡ ok (saved_of i username)
  unfolding complete saved_of
  complete-saved_of i username valid token =
      rw (is_valid-nonzero i.steam_id valid, length-nonempty i.refresh_token token) refl

  on_host_inv :
      {E A : Type 0} (wrap : E → ExampleError) (r : Result E A × W) (c : Client) (a : A)
      (s : Client × W)
      → on_host wrap r c ≡ (ok a, s)
      → r ≡ (ok a, s.1)
  unfolding on_host
  on_host_inv wrap (ok b, w) c a s h = cc
  on_host_inv wrap (err e, w) c a s h = cc

  load_session_written :
      (path data_ : Bytes) (i : Identity) (username : Bytes) (d : Client) (w v : W)
      → path ≢ []
      → is_valid i.steam_id ≡ true
      → i.refresh_token ≢ []
      → host.read_file path w ≡ (ok data_, v)
      → host.unmarshal_session data_ ≡ some (saved_of i username)
      → load_session host path (d, w) ≡ (ok (saved_of i username), (d, v))
  unfolding load_session read_saved and_then on_host
  load_session_written path data_ i username d w v named valid token read parsed =
      rw (length-nonempty path named, read, parsed, complete-saved_of i username valid token) refl

  on_host_keeps :
      {E A : Type 0} (P : Client → Type 0) (wrap : E → ExampleError) (r : Result E A × W)
      (c : Client)
      → P c
      → P (on_host wrap r c).1.0
  unfolding on_host
  on_host_keeps P wrap (ok a, w) c h = h
  on_host_keeps P wrap (err e, w) c h = h

  -- `loadSession` leaves the client alone.
  pub load_session_keeps :
      (P : Client → Type 0) (path : Bytes) (s : Client × W)
      → P s.0
      → P (load_session host path s).1.0
  unfolding load_session read_saved
  load_session_keeps P path s h =
      let kept = λ (v : Client × W). P v.0 in
      if_keeps kept (length path == 0) (fail path_empty) _ s h (
        and_then_keeps kept _ _ (on_host_keeps P file_error (host.read_file path s.1) s.0 h)
          (λ data_ s1 h1. and_then_keeps kept _ _ h1 (λ saved s2 h2. h2)))

  -- What `saveSession` does when nothing fails and the file lies in the current directory.
  pub save_session_writes :
      (path username data_ : Bytes) (c : Client) (i : Identity) (w v : W)
      → path ≢ []
      → host.dir_of path ≡ []
      → c.auth_identity ≡ some i
      → host.marshal_session (saved_of i username) ≡ some data_
      → host.write_file path data_ w ≡ (ok tt, v)
      → save_session host path username (c, w) ≡ (ok tt, (c, v))
  unfolding save_session and_then wrap_call wrap_result write_saved make_parent on_host
  save_session_writes path username data_ c i w v named here known marshalled wrote =
      rw (length-nonempty path named, identity_known c i w known, marshalled, here, wrote) refl

  or_err_inv :
      (o : Option Bytes) (e : ExampleError) (s s' : Client × W) (data_ : Bytes)
      → lift (or_err o e) s ≡ (ok data_, s')
      → o ≡ some data_
  or_err_inv none e s s' data_ h = cc
  or_err_inv (some b) e s s' data_ h = cc

  -- What `saveSession` wrote if it succeeded, with an identity and a path.
  save_session_inv :
      (path username : Bytes) (c c1 : Client) (i : Identity) (w w1 : W)
      → path ≢ []
      → c.auth_identity ≡ some i
      → save_session host path username (c, w) ≡ (ok tt, (c1, w1))
      → (data_ : Bytes) × (v : W) × (host.marshal_session (saved_of i username) ≡ some data_)
        × (host.write_file path data_ v ≡ (ok tt, w1))
  unfolding save_session and_then wrap_call wrap_result write_saved
  save_session_inv path username c c1 i w w1 named known saved =
      let chain = rw (length-nonempty path named, identity_known c i w known) at saved in
      let (data_, s1, marshalled, rest) =
        and_then_inv
          (lift (or_err (host.marshal_session (saved_of i username)) marshal_failed) (c, w))
          (λ data_. λ s.
            and_then (make_parent host (host.dir_of path) s) (λ _. write_saved host path data_))
          _ _ chain in
      let (_, s2, made, last) =
        and_then_inv (make_parent host (host.dir_of path) s1) (λ _. write_saved host path data_) _ _
          rest in
      (
        data_,
        s2.1,
        or_err_inv _ marshal_failed (c, w) s1 data_ marshalled,
        on_host_inv file_error (host.write_file path data_ s2.1) s2.0 tt (c1, w1) last,
      )

  module _ {Modulus : Type 0} (transport : Transport W) (decoders : Decoders)
      (outside : Outside W Modulus) (ready : ℕ → Bool) where
    -- What `saveSession` saved for an identity with a valid SteamID and a refresh token, the
    -- `restoreSession` of a later launch finds: it returns the session and gives a client the SteamID
    -- and the refresh token of the identity, if the path is not empty, encoding/json reads what it
    -- wrote, and a file that was written can be read.
    pub restore_session-save_session :
        (path username : Bytes) (c c1 d : Client) (i : Identity) (w w1 : W)
        → ((s : SavedSession) (bs : Bytes)
            → host.marshal_session s ≡ some bs
            → host.unmarshal_session bs ≡ some s)
        → ((bs : Bytes) (v v1 : W)
            → host.write_file path bs v ≡ (ok tt, v1)
            → (v2 : W) × (host.read_file path v1 ≡ (ok bs, v2)))
        → path ≢ []
        → is_valid i.steam_id ≡ true
        → i.refresh_token ≢ []
        → c.auth_identity ≡ some i
        → save_session host path username (c, w) ≡ (ok tt, (c1, w1))
        → (now : ℕ) × (v : W) × (restore_session host transport decoders outside ready path (d, w1)
            ≡ (
              ok (saved_of i username),
              (record d { auth_identity = some (new_identity now i.steam_id i.refresh_token) }, v),
            ))
    unfolding restore_session and_then wrap_call wrap_result saved_of
    restore_session-save_session path username c c1 d i w w1 codec files named valid token known
          saved =
        let (data_, v, marshalled, wrote) =
          save_session_inv path username c c1 i w w1 named known saved in
        let (v2, read) = files data_ v w1 wrote in
        let now = outside.now v2 in
        (
          now.0,
          now.1,
          rw
              (
                load_session_written path data_ i username d w1 v2 named valid token read
                    (codec (saved_of i username) data_ marshalled),
                set_identity_installed transport decoders outside ready d i.steam_id i.refresh_token
                    v2 valid token,
              )
              refl,
        )
