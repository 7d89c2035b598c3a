-- ===== src/Identity/OverHttp.antt =====
-- The identity provider over the HTTP transport: where the tokens of its identity come from.
mod Tests
use go_steam.Base.{ℕ, Option, none, some, [], List, Bytes, codes, ◌≡◌, ◌≢◌, ◌⊎◌, refl}
use go_steam.Base.Results.{ok}
use go_steam.Base.Effects.{wrap_call_inv}
use go_steam.Api.Params.{PollResponse, poll_params}
use go_steam.Api.Transport.{post}
use go_steam.Api.Http.{HttpTransport, HttpOutside, Response, request_of, values_of, http_transport}
use go_steam.Api.Http.Laws.{http_call_sound}
use go_steam.Api.Services.{Decoders, poll_auth_session_status}
use go_steam.Identity.Session.{Identity, AuthSession, Credentials, Outside, poll_failed}
use go_steam.Identity.Poll.Laws.{Issued}
use go_steam.Identity.Provider.{Provider}
use go_steam.Identity.Provider.Invariant.{Reach, Reach-IsGenuine}

module _ {W Modulus : Type 0} (out : HttpOutside W) (t : HttpTransport) (decoders : Decoders)
    (outside : Outside W Modulus) where
  -- The tokens of the identity were read from the response to a POST request for the status of a
  -- session, which had no error in its header.
  abbrev pub IsFromPoll : Identity → Type 0
  IsFromPoll i =
      (session : AuthSession) × (values : List (Bytes × Bytes)) × (response : Response)
      × (status : PollResponse) × (w : W) × (w' : W) × (values_of out (
            poll_params (record {
              client_id = session.client_id;
              request_id = session.request_id;
              token_to_revoke = 0;
            }))
          ≡ some values)
      × (out.do_request
            (request_of t post (codes "IAuthenticationService") (codes "PollAuthSessionStatus") 1
              (out.encode values))
            w
          ≡ (ok response, w'))
      × ((response.eresult ≡ []) ⊎ (response.eresult ≡ codes "1"))
      × (decoders.poll_response response.body ≡ some status)
      × (i.steam_id ≡ session.steam_id)
      × (i.access_token ≡ status.access_token)
      × (i.refresh_token ≡ status.refresh_token)
      × (i.refresh_token ≢ [])

  -- After any calls of the methods of a provider over HTTP, the tokens of the identity that it keeps
  -- were read from the response to a request for the status of a session, which had no error in its
  -- header; the identity is for that session's account, and its refresh token is not empty.
  pub Reach-IsFromPoll :
      (c : Credentials) (p : Provider) (i : Identity)
      → Reach (http_transport out t) decoders outside c p
      → p.identity ≡ some i
      → IsFromPoll i
  unfolding poll_auth_session_status
  Reach-IsFromPoll c p i reach kept =
      let good = Reach-IsGenuine (http_transport out t) decoders outside c p reach in
      let (
        session,
        w,
        (n, status, w', (v, pending, (v1, going, polled), full), steam_id, access, refresh),
      ) =
        good.issued i kept in
      let (values, response, valued, done, header, decoded) =
        http_call_sound out t PollResponse post (codes "IAuthenticationService")
          (codes "PollAuthSessionStatus") 1
          (poll_params (record {
            client_id = session.client_id;
            request_id = session.request_id;
            token_to_revoke = 0;
          }))
          decoders.poll_response v1 w' status
          (wrap_call_inv (λ e. poll_failed e) _ v1 w' status polled) in
      (
        session,
        values,
        response,
        status,
        v1,
        w',
        valued,
        done,
        header,
        decoded,
        steam_id,
        access,
        refresh,
        rw (refresh) full,
      )
