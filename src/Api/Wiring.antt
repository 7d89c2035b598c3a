-- ===== src/Api/Wiring.antt =====
-- The API of api/api.go: its services, each made over the transport when it is first asked for.
use go_steam.Base.{ℕ, suc, Option, none, some, [], ◌∷◌, List, ◌≡◌, refl}
use go_steam.Base.Results.{Result, ok, err, Gives}
use go_steam.Api.Transport.{Transport}
use go_steam.Api.Lazy.{Value, new_value, get, Holds, get-Holds}

-- `IEconService` and the other services: each holds the transport.
pub record Service (W : Type 0) : Type 1 where
  pub transport : Transport W

module _ {W : Type 0} where
  -- The constructors of the services, which panic on nil: no result is the panic.
  new_i_econ_service : Option (Transport W) → Option (Service W)
  new_i_econ_service none = none
  new_i_econ_service (some transport) = some (record { transport = transport })

  new_i_player_service : Option (Transport W) → Option (Service W)
  new_i_player_service none = none
  new_i_player_service (some transport) = some (record { transport = transport })

  new_i_steam_directory : Option (Transport W) → Option (Service W)
  new_i_steam_directory none = none
  new_i_steam_directory (some transport) = some (record { transport = transport })

  new_i_authentication_service : Option (Transport W) → Option (Service W)
  new_i_authentication_service none = none
  new_i_authentication_service (some transport) = some (record { transport = transport })

  new_i_two_factor_service : Option (Transport W) → Option (Service W)
  new_i_two_factor_service none = none
  new_i_two_factor_service (some transport) = some (record { transport = transport })

-- `API`; the function of each lazy value is an argument of its `Get`.
pub record Api (W : Type 0) : Type 1 where
  i_econ_service : Value (Option (Service W))
  i_player_service : Value (Option (Service W))
  steam_directory : Value (Option (Service W))
  i_authentication_service : Value (Option (Service W))
  i_two_factor_service : Value (Option (Service W))

pub data ApiError : Type 0 where
  nil_transport : ApiError

module _ {W : Type 0} where
  pub new_api : Option (Transport W) → Result ApiError (Api W)
  new_api none = err nil_transport
  new_api (some transport) = ok (record {
    i_econ_service = new_value none;
    i_player_service = new_value none;
    steam_directory = new_value none;
    i_authentication_service = new_value none;
    i_two_factor_service = new_value none;
  })

  -- A constructor's call, counted.
  made : Option (Service W) → ℕ → Option (Service W) × ℕ
  made service n = (service, suc n)

  stored :
      (Value (Option (Service W)) → Api W)
      → Option (Service W) × (Value (Option (Service W)) × ℕ)
      → Option (Service W) × (Api W × ℕ)
  stored put (service, (v, n)) = (service, (put v, n))

  -- The methods of the API over a transport, with the number of constructors run.
  get_i_econ_service : Transport W → Api W × ℕ → Option (Service W) × (Api W × ℕ)
  get_i_econ_service transport (a, n) =
      stored (λ v. record a { i_econ_service = v })
        (get (made (new_i_econ_service (some transport))) (a.i_econ_service, n))

  get_i_player_service : Transport W → Api W × ℕ → Option (Service W) × (Api W × ℕ)
  get_i_player_service transport (a, n) =
      stored (λ v. record a { i_player_service = v })
        (get (made (new_i_player_service (some transport))) (a.i_player_service, n))

  pub get_steam_directory : Transport W → Api W × ℕ → Option (Service W) × (Api W × ℕ)
  get_steam_directory transport (a, n) =
      stored (λ v. record a { steam_directory = v })
        (get (made (new_i_steam_directory (some transport))) (a.steam_directory, n))

  get_i_authentication_service : Transport W → Api W × ℕ → Option (Service W) × (Api W × ℕ)
  get_i_authentication_service transport (a, n) =
      stored (λ v. record a { i_authentication_service = v })
        (get (made (new_i_authentication_service (some transport))) (a.i_authentication_service, n))

  get_i_two_factor_service : Transport W → Api W × ℕ → Option (Service W) × (Api W × ℕ)
  get_i_two_factor_service transport (a, n) =
      stored (λ v. record a { i_two_factor_service = v })
        (get (made (new_i_two_factor_service (some transport))) (a.i_two_factor_service, n))

data Accessor : Type 0 where
  econ player directory authentication two_factor : Accessor

module _ {W : Type 0} (transport : Transport W) where
  access : Accessor → Api W × ℕ → Option (Service W) × (Api W × ℕ)
  access econ s = get_i_econ_service transport s
  access player s = get_i_player_service transport s
  access directory s = get_steam_directory transport s
  access authentication s = get_i_authentication_service transport s
  access two_factor s = get_i_two_factor_service transport s

  accesses : List Accessor → Api W × ℕ → Api W × ℕ
  accesses [] s = s
  accesses (a ∷ rest) s = accesses rest (access a s).1

  abbrev IsOver : Option (Service W) → Type 1
  IsOver service = service ≡ some (record { transport = transport })

  record IsWired (a : Api W) : Type 1 where
    econ_wired : Holds IsOver a.i_econ_service
    player_wired : Holds IsOver a.i_player_service
    directory_wired : Holds IsOver a.steam_directory
    authentication_wired : Holds IsOver a.i_authentication_service
    two_factor_wired : Holds IsOver a.i_two_factor_service

module _ {W : Type 0} (transport : Transport W) where
  -- A new API holds no service, so none over another transport.
  new_api-IsWired : Gives (IsWired transport) (new_api (some transport))
  unfolding new_api new_value
  new_api-IsWired = record {
    econ_wired = λ e. cc;
    player_wired = λ e. cc;
    directory_wired = λ e. cc;
    authentication_wired = λ e. cc;
    two_factor_wired = λ e. cc;
  }

  -- Whichever method a caller uses, it returns a service over the transport and keeps the API's services over it.
  access-IsOver :
      (which : Accessor) (a : Api W) (n : ℕ)
      → IsWired transport a
      → IsOver transport (access transport which (a, n)).0
        × IsWired transport (access transport which (a, n)).1.0
  unfolding access stored made get_i_econ_service new_i_econ_service get_i_player_service
      new_i_player_service get_steam_directory new_i_steam_directory get_i_authentication_service
      new_i_authentication_service get_i_two_factor_service new_i_two_factor_service
  access-IsOver econ a n wired =
      let got =
        get-Holds (made (new_i_econ_service (some transport))) (IsOver transport) a.i_econ_service n
          wired.econ_wired (λ _. refl) in
      (
        got.0,
        record {
          econ_wired = got.1;
          player_wired = wired.player_wired;
          directory_wired = wired.directory_wired;
          authentication_wired = wired.authentication_wired;
          two_factor_wired = wired.two_factor_wired;
        },
      )
  access-IsOver player a n wired =
      let got =
        get-Holds (made (new_i_player_service (some transport))) (IsOver transport)
          a.i_player_service n wired.player_wired (λ _. refl) in
      (
        got.0,
        record {
          econ_wired = wired.econ_wired;
          player_wired = got.1;
          directory_wired = wired.directory_wired;
          authentication_wired = wired.authentication_wired;
          two_factor_wired = wired.two_factor_wired;
        },
      )
  access-IsOver directory a n wired =
      let got =
        get-Holds (made (new_i_steam_directory (some transport))) (IsOver transport)
          a.steam_directory n wired.directory_wired (λ _. refl) in
      (
        got.0,
        record {
          econ_wired = wired.econ_wired;
          player_wired = wired.player_wired;
          directory_wired = got.1;
          authentication_wired = wired.authentication_wired;
          two_factor_wired = wired.two_factor_wired;
        },
      )
  access-IsOver authentication a n wired =
      let got =
        get-Holds (made (new_i_authentication_service (some transport))) (IsOver transport)
          a.i_authentication_service n wired.authentication_wired (λ _. refl) in
      (
        got.0,
        record {
          econ_wired = wired.econ_wired;
          player_wired = wired.player_wired;
          directory_wired = wired.directory_wired;
          authentication_wired = got.1;
          two_factor_wired = wired.two_factor_wired;
        },
      )
  access-IsOver two_factor a n wired =
      let got =
        get-Holds (made (new_i_two_factor_service (some transport))) (IsOver transport)
          a.i_two_factor_service n wired.two_factor_wired (λ _. refl) in
      (
        got.0,
        record {
          econ_wired = wired.econ_wired;
          player_wired = wired.player_wired;
          directory_wired = wired.directory_wired;
          authentication_wired = wired.authentication_wired;
          two_factor_wired = got.1;
        },
      )

  -- Whatever methods were used before, the next one returns a service over the transport.
  accesses-IsOver :
      (before : List Accessor) (which : Accessor) (a : Api W) (n : ℕ)
      → IsWired transport a
      → IsOver transport (access transport which (accesses transport before (a, n))).0
  unfolding accesses
  accesses-IsOver [] which a n wired = (access-IsOver which a n wired).0
  accesses-IsOver (first ∷ before) which a n wired =
      let (over, kept) = access-IsOver first a n wired in
      accesses-IsOver before which (access transport first (a, n)).1.0
        (access transport first (a, n)).1.1 kept

  -- Whatever methods were used before on the API that `NewAPI` returns, the next one returns a service over its transport.
  new_api_wires :
      (before : List Accessor) (which : Accessor) (n : ℕ)
      → Gives
          (λ a.
            (access transport which (accesses transport before (a, n))).0
            ≡ some (record { transport = transport }))
          (new_api (some transport))
  unfolding new_api
  new_api_wires before which n = accesses-IsOver before which _ n new_api-IsWired

  -- `NewAPI` over a transport succeeds, and the directory of its API is a service over that transport.
  pub new_api-get_steam_directory :
      (n : ℕ)
      → (a : Api W) × (new_api (some transport) ≡ ok a)
        × ((get_steam_directory transport (a, n)).0 ≡ some (record { transport = transport }))
  unfolding new_api access accesses
  new_api-get_steam_directory n = (_, refl, new_api_wires [] directory n)
