-- ===== src/Example/Login/Laws.antt =====
-- The login of examples/steam-library-example/main.go: a client that it goes on with has an identity.
use go_steam.Base.{
  ℕ, Bool, true, false, not, Option, none, some, Bytes, length, ◌==◌, if◌then◌else◌, Bool-cases,
  ◌≡◌, refl, inl, inr,
}
use go_steam.Base.Results.{Result, ok, err}
use go_steam.Base.Effects.{
  and_then, if_keeps, wrap_result_keeps, wrap_call, wrap_result, pure, ◌>>◌,
}
use go_steam.Api.Transport.{Transport}
use go_steam.Api.Services.{Decoders}
use go_steam.Identity.Session.{Identity, AuthSession, Outside}
use go_steam.Client.{Client, ClientError}
use go_steam.Client.Auth.{
  begin_auth_session, submit_steam_guard_code, wait_for_confirmation, set_identity,
}
use go_steam.Client.Auth.Laws.{
  CanLogOn, IsLoggedIn, begin_auth_session-IsLoggedIn, submit-IsLoggedIn, wait-IsLoggedIn,
  set_identity-IsLoggedIn,
}
use go_steam.Client.Auth.Done.{submit_ok, wait_ok, set_identity_ok}
use go_steam.Example.{
  SavedSession, LineError, end_of_input, input_broken, ExampleError, client_error, Host,
  ExampleCall,
}
use go_steam.Example.Saved.{restore_session}
use go_steam.Example.Saved.Laws.{load_session_keeps}
use go_steam.Example.Guard.Keeps.{resolve_keeps}
use go_steam.Example.Login.{
  is_external, prompted, prompt, typed_password, hidden_password, prompt_password, submit, wait,
  finish_login, second_half, run_full_login, restored_or, sign_in,
}

module _ {W Modulus : Type 0} (host : Host W) (transport : Transport W) (decoders : Decoders)
    (outside : Outside W Modulus) (ready : ℕ → Bool) where
  -- The login of the client is sound, and if the call succeeds, the client has an identity that it can
  -- log on with.
  pub SignsIn : {A : Type 0} → Result ExampleError A × (Client × W) → Type 0
  SignsIn (ok a, (c, w)) =
      IsLoggedIn transport decoders outside ready c
      × (i : Identity) × (c.auth_identity ≡ some i)
      × CanLogOn transport decoders outside ready i
  SignsIn (err e, (c, w)) = IsLoggedIn transport decoders outside ready c

  Kept : Client × W → Type 0
  Kept s = IsLoggedIn transport decoders outside ready s.0

  and_then-SignsIn :
      {A B : Type 0} (r : Result ExampleError A × (Client × W)) (f : A → ExampleCall W B)
      → Kept r.1
      → ((a : A) (s : Client × W) → Kept s → SignsIn (f a s))
      → SignsIn (and_then r f)
  unfolding and_then SignsIn Kept
  and_then-SignsIn (ok a, s) f h k = k a s h
  and_then-SignsIn (err e, s) f h k = h

  -- A call of the client that gives an identity, with what follows it.
  identity-SignsIn :
      {B : Type 0} (r : Result ClientError Identity × (Client × W)) (b : B)
      → Kept r.1
      → ((i : Identity) (s : Client × W) → r ≡ (ok i, s) → s.0.auth_identity ≡ some i)
      → SignsIn (and_then (wrap_result client_error r) (λ _. λ s. (ok b, s)))
  unfolding and_then wrap_result SignsIn Kept
  identity-SignsIn (ok i, s) b h k = (h, i, k i s refl, h.usable i (k i s refl))
  identity-SignsIn (err e, s) b h k = h

  then_pure-SignsIn :
      {A B : Type 0} (r : Result ExampleError A × (Client × W)) (b : B)
      → SignsIn r
      → SignsIn (and_then r (λ _. λ s. (ok b, s)))
  unfolding and_then SignsIn
  then_pure-SignsIn (ok a, s) b h = h
  then_pure-SignsIn (err e, s) b h = h

  submit-SignsIn :
      (rounds : ℕ) (session : AuthSession) (code : Bytes) (s : Client × W)
      → Kept s
      → SignsIn (submit host transport decoders outside ready rounds session code s)
  unfolding submit wrap_call Kept
  submit-SignsIn rounds session code s h =
      identity-SignsIn
        (submit_steam_guard_code transport decoders outside ready rounds (some session) code s) tt
        (submit-IsLoggedIn transport decoders outside ready s.0 rounds (some session) code s.1 h)
        (submit_ok transport decoders outside ready s.0 rounds (some session) code s.1)

  wait-SignsIn :
      (rounds : ℕ) (session : AuthSession) (s : Client × W)
      → Kept s
      → SignsIn (wait host transport decoders outside ready rounds session s)
  unfolding wait wrap_call Kept
  wait-SignsIn rounds session s h =
      identity-SignsIn
        (wait_for_confirmation transport decoders outside ready rounds (some session) s) tt
        (wait-IsLoggedIn transport decoders outside ready s.0 rounds (some session) s.1 h)
        (wait_ok transport decoders outside ready s.0 rounds (some session) s.1)

  finish_login-SignsIn :
      (rounds : ℕ) (session : AuthSession) (r : Result ExampleError Bytes × (Client × W))
      → Kept r.1
      → SignsIn (finish_login host transport decoders outside ready rounds session r)
  unfolding finish_login Kept SignsIn
  finish_login-SignsIn rounds session (ok code, s) h = submit-SignsIn rounds session code s h
  finish_login-SignsIn rounds session (err e, s) h = elim (Bool-cases (is_external e)) [
    | inl external ↦ rw external (wait-SignsIn rounds session s h)
    | inr other ↦ rw other h
  ]

  prompt_keeps : (s : Client × W) → Kept s → Kept (prompt host transport decoders outside ready s).1
  unfolding prompt prompted Kept
  prompt_keeps s h = go (host.read_line s.1)
    where
      go :
          (r : (Bytes × Option LineError) × W)
          → IsLoggedIn transport decoders outside ready (prompted s.0 r).1.0
      go ((line, some e), w) = h
      go ((line, none), w) = h

  prompt_password_keeps :
      (s : Client × W) → Kept s → Kept (prompt_password host transport decoders outside ready s).1
  unfolding prompt_password typed_password hidden_password Kept
  prompt_password_keeps s h = go host.is_terminal (host.read_line s.1) (host.read_password s.1)
    where
      go :
          (b : Bool) (r : (Bytes × Option LineError) × W) (q : Option Bytes × W)
          → IsLoggedIn transport decoders outside ready
              (if not b then typed_password s.0 r else hidden_password s.0 q).1.0
      go false ((line, some input_broken), w) q = h
      go false ((line, some end_of_input), w) q = h
      go false ((line, none), w) q = h
      go true r (none, w) = h
      go true r (some bs, w) = h

  second_half-SignsIn :
      (rounds : ℕ) (shared_secret : Bytes) (session : AuthSession) (s : Client × W)
      → Kept s
      → SignsIn (second_half host transport decoders outside ready rounds shared_secret session s)
  unfolding second_half Kept
  second_half-SignsIn rounds shared_secret session s h = finish_login-SignsIn rounds session _ (
      resolve_keeps host outside (IsLoggedIn transport decoders outside ready) shared_secret
        session.allowed_confirmations s h)

  run_full_login-SignsIn :
      (rounds : ℕ) (username password shared_secret : Bytes) (s : Client × W)
      → Kept s
      → SignsIn (
          run_full_login host transport decoders outside ready rounds username password
            shared_secret s)
  unfolding run_full_login wrap_call Kept
  run_full_login-SignsIn rounds username password shared_secret s h =
      and_then-SignsIn _ _
        (if_keeps Kept (length username == 0) (prompt host transport decoders outside ready)
          (pure username) s (prompt_keeps s h) h)
        (λ name s1 h1.
          and_then-SignsIn _ _
            (if_keeps Kept (length password == 0)
              (prompt_password host transport decoders outside ready) (pure password) s1
              (prompt_password_keeps s1 h1) h1)
            (λ word s2 h2.
              and_then-SignsIn _ _
                (wrap_result_keeps Kept client_error _ (begun_keeps name word s2 h2))
                (λ session s3 h3. second_half-SignsIn rounds shared_secret session s3 h3)))
    where
      begun_keeps :
          (name word : Bytes) (s : Client × W)
          → Kept s
          → Kept
              (begin_auth_session transport decoders outside ready
                (some
                  (record { account_name = name; password = word; shared_secret = shared_secret }))
                s).1
      begun_keeps name word s h =
          begin_auth_session-IsLoggedIn transport decoders outside ready s.0 _ s.1 h

  restore_session-SignsIn :
      (path : Bytes) (s : Client × W)
      → Kept s
      → SignsIn (restore_session host transport decoders outside ready path s)
  unfolding restore_session wrap_call Kept
  restore_session-SignsIn path s h =
      and_then-SignsIn _ _
        (load_session_keeps host (IsLoggedIn transport decoders outside ready) path s h)
        (λ saved s1 h1.
          identity-SignsIn
            (set_identity transport decoders outside ready saved.steam_id saved.refresh_token s1)
            saved
            (set_identity-IsLoggedIn transport decoders outside ready s1.0 saved.steam_id
              saved.refresh_token s1.1 h1)
            (set_identity_ok transport decoders outside ready s1.0 saved.steam_id
              saved.refresh_token s1.1))

  -- If `main` comes to the connection, by a saved session or by the full login, the client has an
  -- identity, which Steam issued for a session, or which has a valid SteamID and a refresh token; and
  -- in any case its provider keeps only what Steam issued. The client starts as one for which that
  -- holds.
  pub sign_in-SignsIn :
      (rounds : ℕ) (path username password shared_secret : Bytes) (c : Client) (w : W)
      → IsLoggedIn transport decoders outside ready c
      → SignsIn (
          sign_in host transport decoders outside ready rounds path username password shared_secret
            (c, w))
  unfolding sign_in restored_or SignsIn Kept
  sign_in-SignsIn rounds path username password shared_secret c w h =
      restored _ (restore_session-SignsIn path (c, w) h)
    where
      restored :
          (r : Result ExampleError SavedSession × (Client × W))
          → SignsIn r
          → SignsIn (
              restored_or host transport decoders outside ready
                (run_full_login host transport decoders outside ready rounds username password
                    shared_secret
                  >> pure username)
                username
                r)
      restored (ok saved, s) k = k
      restored (err e, s) k =
          then_pure-SignsIn _ username
            (run_full_login-SignsIn rounds username password shared_secret s k)
