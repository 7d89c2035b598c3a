-- ===== src/Example/Tests.antt =====
-- The commands on a host that keeps one file and whose input is empty.
use go_steam.Base.{
  ℕ, true, false, Option, none, some, [], ◌∷◌, Bytes, codes, arith, length, take, drop, take-append,
  drop-append, ◌++◌, ◌≡◌, refl,
}
use go_steam.Base.Results.{ok, err}
use go_steam.Api.Transport.{Transport, decode_failed}
use go_steam.SteamId.{is_valid}
use go_steam.SteamId.Laws.{is_valid_of}
use go_steam.SteamId.Fields.{account_universe-eq, account_type-eq, account_id-eq}
use go_steam.Identity.Session.{Identity, Outside, new_identity}
use go_steam.Identity.Tests.{test_decoders, confirmations}
use go_steam.Client.{Client, new_client}
use go_steam.Client.Auth.Laws.{new_client-IsLoggedIn}
use go_steam.Example.{SavedSession, Host}
use go_steam.Example.Saved.{saved_of, save_session, restore_session}
use go_steam.Example.Saved.Laws.{save_session_writes, restore_session-save_session}
use go_steam.Example.Guard.{resolve_steam_guard_code}
use go_steam.Example.Guard.Methods.{IsAccepted, resolve-IsAccepted}
use go_steam.Example.Login.{sign_in}
use go_steam.Example.Login.Laws.{SignsIn, sign_in-SignsIn}

-- A session as a list: the id, the length of the token, the token and the user name.
parse : Bytes → Option SavedSession
parse [] = none
parse (id ∷ []) = none
parse (id ∷ n ∷ bs) =
    some (record { steam_id = id; refresh_token = take n bs; username = drop n bs })

print : SavedSession → Option Bytes
print s = some (s.steam_id ∷ length s.refresh_token ∷ (s.refresh_token ++ s.username))

parse-print : (s : SavedSession) (bs : Bytes) → print s ≡ some bs → parse bs ≡ some s
unfolding parse print
parse-print s bs h =
    let same : s.steam_id ∷ length s.refresh_token ∷ (s.refresh_token ++ s.username) ≡ bs = cc in
    rw
      (
        ← same,
        take-append (length s.refresh_token) s.refresh_token s.username refl,
        drop-append (length s.refresh_token) s.refresh_token s.username refl,
      )
      refl

-- The world is the file, and no call of the API succeeds.
abbrev file_host : Host Bytes
file_host = record {
  read_line = λ w. (([], none), w);
  is_terminal = false;
  read_password = λ w. (none, w);
  read_file = λ path w. (ok w, w);
  write_file = λ path bs w. (ok tt, bs);
  make_dirs = λ path w. (ok tt, w);
  dir_of = λ path. [];
  marshal_session = print;
  unmarshal_session = parse;
}

abbrev offline : Transport Bytes
offline = record { call = λ R verb service method version params decode w. (err decode_failed, w) }

abbrev file_outside : Outside Bytes Bytes
file_outside = record {
  done = λ w. (false, w);
  wait = λ interval w. (false, w);
  now = λ w. (7, w);
  parse_modulus = λ s. some s;
  parse_exponent = λ s. some 3;
  encrypt = λ modulus exponent s w. (some s, w);
  encode_base64 = λ s. s;
  decode_base64 = λ s. some s;
  hmac_sha1 = λ key s. key;
}

abbrev known : Identity
known = new_identity 7 76561197960287930 (5 ∷ 6 ∷ [])

abbrev known_client : Client
known_client = record (new_client false) { auth_identity = some known }

abbrev file_of_known : Bytes
file_of_known = 76561197960287930 ∷ 2 ∷ 5 ∷ 6 ∷ codes "gordon"

abbrev session_path : Bytes
session_path = codes "session.json"

saves_known :
    save_session file_host session_path (codes "gordon") (known_client, [])
    ≡ (ok tt, (known_client, file_of_known))
unfolding print saved_of new_identity
saves_known =
    save_session_writes file_host session_path (codes "gordon") file_of_known known_client known []
      file_of_known (λ h. cc) refl refl refl refl

known_valid : is_valid 76561197960287930 ≡ true
known_valid =
    is_valid_of 76561197960287930 (omega (arith, account_universe-eq 76561197960287930))
      (omega (arith, account_type-eq 76561197960287930))
      (omega (arith, account_id-eq 76561197960287930))

file_kept :
    (bs v v1 : Bytes)
    → file_host.write_file session_path bs v ≡ (ok tt, v1)
    → (v2 : Bytes) × (file_host.read_file session_path v1 ≡ (ok bs, v2))
file_kept bs v v1 h = let same : bs ≡ v1 = cc in (v1, rw same refl)

restore_session-save_session_example :
    (now : ℕ) × (v : Bytes) × (restore_session file_host offline test_decoders file_outside
        (λ i. true)
        session_path
        (new_client true, file_of_known)
      ≡ (
        ok (saved_of known (codes "gordon")),
        (
          record (new_client true) {
            auth_identity = some (new_identity now 76561197960287930 (5 ∷ 6 ∷ []));
          },
          v,
        ),
      ))
unfolding new_identity
restore_session-save_session_example =
    restore_session-save_session file_host offline test_decoders file_outside (λ i. true)
      session_path (codes "gordon") known_client known_client (new_client true) known []
      file_of_known parse-print file_kept (λ h. cc) known_valid (λ h. cc) refl saves_known

resolve-IsAccepted_example :
    IsAccepted confirmations
      (resolve_steam_guard_code file_host file_outside
        (codes "secret")
        confirmations
        (known_client, [])).0
resolve-IsAccepted_example =
    resolve-IsAccepted file_host file_outside confirmations (codes "secret") known_client []

sign_in-SignsIn_example :
    SignsIn file_host offline test_decoders file_outside
      (λ i. true)
      (sign_in file_host offline test_decoders file_outside
        (λ i. true)
        3
        session_path
        []
        []
        []
        (new_client true, file_of_known))
sign_in-SignsIn_example =
    sign_in-SignsIn file_host offline test_decoders file_outside (λ i. true) 3 session_path [] [] []
      (new_client true) file_of_known
      (new_client-IsLoggedIn offline test_decoders file_outside (λ i. true) true)
