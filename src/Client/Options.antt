-- ===== src/Client/Options.antt =====
-- The options of the client and `NewClient` with its defaults (client/client.go).
use go_steam.Base.{Bool, false, zero, Option, none, some, [], ◌∷◌, List, ◌≡◌, refl, ◌∙◌, ap}
use go_steam.Base.Results.{Result, ok, ◌>>=◌}
use go_steam.Connection.Dial.{Dialer}
use go_steam.Api.Transport.{Transport}
use go_steam.Api.Http.{HttpOutside, new_http_transport, http_transport}
use go_steam.Api.Wiring.{
  Service, ApiError, Api, new_api, get_steam_directory, new_api-get_steam_directory,
}
use go_steam.Client.{Client, new_client}

-- The fields of `Client` that options set. An API is what its method `SteamDirectory` returns; an
-- option may give nil.
pub record Options (W : Type 0) : Type 1 where
  pub api : Option (Service W)
  pub auth_api : Option (Transport W)
  pub dialer : Option (Dialer W)
  pub reconnect : Bool

-- `ClientOption`, as the functions of the package make them.
pub data ClientOption (W : Type 0) : Type 1 where
  with_api : Option (Service W) → ClientOption W
  with_auth_api : Option (Transport W) → ClientOption W
  with_dialer : Option (Dialer W) → ClientOption W
  with_reconnect : Bool → ClientOption W

module _ {W : Type 0} where
  apply_option : ClientOption W → Options W → Options W
  apply_option (with_api x) c = record c { api = x }
  apply_option (with_auth_api x) c = record c { auth_api = x }
  apply_option (with_dialer x) c = record c { dialer = x }
  apply_option (with_reconnect x) c = record c { reconnect = x }

  apply_all : List (ClientOption W) → Options W → Options W
  apply_all [] c = c
  apply_all (opt ∷ opts) c = apply_all opts (apply_option opt c)

  no_options : Options W
  no_options = record { api = none; auth_api = none; dialer = none; reconnect = false }

  steam_directory_of : Transport W → Api W → Option (Service W)
  steam_directory_of transport a = (get_steam_directory transport (a, zero)).0

  default_api : Transport W → Options W → Option (Service W) → Result ApiError (Options W)
  default_api transport c (some api) = ok c
  default_api transport c none = do
    made ← new_api (some transport)
    ok (record c { api = steam_directory_of transport made })

  default_dialer : Dialer W → Options W → Option (Dialer W) → Options W
  default_dialer net c (some dialer) = c
  default_dialer net c none = record c { dialer = some net }

module _ {W : Type 0} (http : HttpOutside W) (net_dialer : Dialer W) where
  -- `NewClient`, over the world of the default transport and the dialer of the package net.
  pub new_client_with : List (ClientOption W) → Result ApiError (Options W × Client)
  new_client_with opts = do
    let given = apply_all opts no_options
    c ← default_api (http_transport http new_http_transport) given given.api
    let whole = default_dialer net_dialer c c.dialer
    ok (whole, new_client whole.reconnect)

-- What is given, or a default.
abbrev pub or_default {ℓ} : {B : Type ℓ} → B → Option B → B
or_default d none = d
or_default d (some x) = x

-- What the last of the options that set something sets.
unfoldable pub or_else {ℓ} : {B : Type ℓ} → Option B → Option B → Option B
or_else none other = other
or_else (some x) other = some x

unfoldable pub latest {ℓ} :
    {W : Type 0} {B : Type ℓ} → (ClientOption W → Option B) → List (ClientOption W) → Option B
latest pick [] = none
latest pick (opt ∷ opts) = or_else (latest pick opts) (pick opt)

module _ {W : Type 0} where
  unfoldable pub api_of : ClientOption W → Option (Option (Service W))
  api_of (with_api x) = some x
  api_of _ = none

  unfoldable pub dialer_of : ClientOption W → Option (Option (Dialer W))
  dialer_of (with_dialer x) = some x
  dialer_of _ = none

  unfoldable pub reconnect_of : ClientOption W → Option Bool
  reconnect_of (with_reconnect x) = some x
  reconnect_of _ = none

or_default-or_else {ℓ} :
    {B : Type ℓ} (d : B) (o p : Option B)
    → or_default (or_default d p) o ≡ or_default d (or_else o p)
unfolding or_else
or_default-or_else d none p = refl
or_default-or_else d (some x) p = refl

-- A field that each option sets as `pick` says has what the last option says.
apply_all-latest {ℓ} :
    {W : Type 0} {B : Type ℓ} (field : Options W → B) (pick : ClientOption W → Option B)
    → ((opt : ClientOption W) (c : Options W)
        → field (apply_option opt c) ≡ or_default (field c) (pick opt))
    → (opts : List (ClientOption W)) (c : Options W)
    → field (apply_all opts c) ≡ or_default (field c) (latest pick opts)
unfolding apply_all latest
apply_all-latest field pick sets [] c = refl
apply_all-latest field pick sets (opt ∷ opts) c =
    apply_all-latest field pick sets opts (apply_option opt c)
    ∙ ap (λ b. or_default b (latest pick opts)) (sets opt c)
    ∙ or_default-or_else (field c) (latest pick opts) (pick opt)

module _ {W : Type 0} (opts : List (ClientOption W)) where
  given_api : (apply_all opts no_options).api ≡ or_default none (latest api_of opts)
  unfolding no_options apply_option api_of
  given_api = apply_all-latest (λ (c : Options W). c.api) api_of sets opts no_options
    where
      sets :
          (opt : ClientOption W) (c : Options W)
          → (apply_option opt c).api ≡ or_default c.api (api_of opt)
      sets (with_api x) c = refl
      sets (with_auth_api x) c = refl
      sets (with_dialer x) c = refl
      sets (with_reconnect x) c = refl

  given_dialer : (apply_all opts no_options).dialer ≡ or_default none (latest dialer_of opts)
  unfolding no_options apply_option dialer_of
  given_dialer = apply_all-latest (λ (c : Options W). c.dialer) dialer_of sets opts no_options
    where
      sets :
          (opt : ClientOption W) (c : Options W)
          → (apply_option opt c).dialer ≡ or_default c.dialer (dialer_of opt)
      sets (with_api x) c = refl
      sets (with_auth_api x) c = refl
      sets (with_dialer x) c = refl
      sets (with_reconnect x) c = refl

  given_reconnect :
      (apply_all opts no_options).reconnect ≡ or_default false (latest reconnect_of opts)
  unfolding no_options apply_option reconnect_of
  given_reconnect =
      apply_all-latest (λ (c : Options W). c.reconnect) reconnect_of sets opts no_options
    where
      sets :
          (opt : ClientOption W) (c : Options W)
          → (apply_option opt c).reconnect ≡ or_default c.reconnect (reconnect_of opt)
      sets (with_api x) c = refl
      sets (with_auth_api x) c = refl
      sets (with_dialer x) c = refl
      sets (with_reconnect x) c = refl

module _ {W : Type 0} where
  default_api_lem :
      (transport : Transport W) (c : Options W) (o : Option (Service W))
      → c.api ≡ o
      → (c1 : Options W) × (default_api transport c o ≡ ok c1)
        × (c1.api ≡ some (or_default (record { transport = transport }) o))
        × (c1.dialer ≡ c.dialer)
        × (c1.reconnect ≡ c.reconnect)
  unfolding default_api steam_directory_of
  default_api_lem transport c (some api) e = (c, refl, e, refl, refl)
  default_api_lem transport c none e =
      let (a, made, served) = new_api-get_steam_directory transport zero in
      (record c { api = steam_directory_of transport a }, rw made refl, served, refl, refl)

  default_dialer_lem :
      (net : Dialer W) (c : Options W) (o : Option (Dialer W))
      → c.dialer ≡ o
      → ((default_dialer net c o).api ≡ c.api)
        × ((default_dialer net c o).dialer ≡ some (or_default net o))
        × ((default_dialer net c o).reconnect ≡ c.reconnect)
  unfolding default_dialer
  default_dialer_lem net c (some dialer) e = (refl, e, refl)
  default_dialer_lem net c none e = (refl, refl, refl)

module _ {W : Type 0} (http : HttpOutside W) (net_dialer : Dialer W)
    (opts : List (ClientOption W)) where
  -- `NewClient` never fails. Its client's API is what the last option for it sets, or one whose
  -- directory is a service over the default transport if that is nil or there is none; its dialer is
  -- found likewise, and its flag is what the last option for it sets, or false.
  pub new_client_with_settled :
      (c : Options W) × (client : Client) × (new_client_with http net_dialer opts ≡ ok (c, client))
      × (c.api
          ≡ some (
              or_default
                (record { transport = http_transport http new_http_transport })
                (or_default none (latest api_of opts))))
      × (c.dialer ≡ some (or_default net_dialer (or_default none (latest dialer_of opts))))
      × (client.reconnect ≡ or_default false (latest reconnect_of opts))
  unfolding new_client_with new_client
  new_client_with_settled =
      let given = apply_all opts no_options in
      let (c1, made, served, dialer1, flag1) =
        default_api_lem (http_transport http new_http_transport) given given.api refl in
      let (kept, dialled, flag) = default_dialer_lem net_dialer c1 c1.dialer refl in
      (
        default_dialer net_dialer c1 c1.dialer,
        new_client (default_dialer net_dialer c1 c1.dialer).reconnect,
        rw made refl,
        kept
            ∙ served
            ∙ ap
                (λ o.
                  some
                    (or_default (record { transport = http_transport http new_http_transport }) o))
                (given_api opts),
        dialled ∙ ap (λ o. some (or_default net_dialer o)) (dialer1 ∙ given_dialer opts),
        flag ∙ flag1 ∙ given_reconnect opts,
      )
