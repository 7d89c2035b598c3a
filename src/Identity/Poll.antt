-- ===== src/Identity/Poll.antt =====
-- The loop over PollAuthSessionStatus in SubmitSteamGuardCode, WaitForConfirmation and Identity
-- (identity/credentials.go).
pub mod Laws
use go_steam.Base.{ℕ, zero, suc, Bool, true, false, Bytes, length, ◌==◌, if◌then◌else◌}
use go_steam.Base.Results.{Result, ok, err}
use go_steam.Base.Effects.{Call, ◌>>=◌, ◌>>◌, pure, fail, wrap_call}
use go_steam.Api.Params.{PollParameters, PollResponse}
use go_steam.Api.Transport.{Transport}
use go_steam.Api.Services.{Decoders, poll_auth_session_status}
use go_steam.Identity.Session.{
  AuthSession, IdentityError, poll_failed, context_done, polls_exhausted, Outside,
}

-- `case <-ctx.Done(): return nil, ctx.Err()`
unless_done : {W : Type 0} → Bool × W → Result IdentityError (Unit {0}) × W
unless_done (true, w) = (err context_done, w)
unless_done (false, w) = (ok tt, w)

module _ {W Modulus : Type 0} (transport : Transport W) (decoders : Decoders)
    (outside : Outside W Modulus) (session : AuthSession) where
  open outside use {done, wait}

  abbrev poll : Call IdentityError W PollResponse
  poll = wrap_call poll_failed (
      poll_auth_session_status transport decoders (record {
        client_id = session.client_id;
        request_id = session.request_id;
        token_to_revoke = 0;
      }))

  -- The rest of a round: the status with its refresh token, or the interval and the other rounds.
  after_poll : Call IdentityError W PollResponse → PollResponse → Call IdentityError W PollResponse
  after_poll rest status =
      if length status.refresh_token == 0
      then ((λ w. unless_done (wait session.interval w)) >> rest)
      else pure status

  pub poll_loop : ℕ → Call IdentityError W PollResponse
  poll_loop zero = fail polls_exhausted
  poll_loop (suc rounds) = (λ w. unless_done (done w)) >> (poll >>= after_poll (poll_loop rounds))
