-- ===== src/Totp/Tests.antt =====
-- The theorem on codes at a concrete secret.
use go_steam.Base.{◌≡◌, refl, some, [], ◌∷◌, Bytes, length, replicate, All}
use go_steam.Base.Results.{ok}
use go_steam.Totp.{create_authentication_code}
use go_steam.Totp.Code.{IsCodeChar, create_authentication_code-IsCodeChar}

create_authentication_code-IsCodeChar_example :
    (code : Bytes) × (create_authentication_code
        (λ s. some s)
        (λ key message. replicate 20 200)
        (1 ∷ 2 ∷ [])
        59
      ≡ ok code)
    × (length code ≡ 5)
    × All IsCodeChar code
create_authentication_code-IsCodeChar_example =
    create_authentication_code-IsCodeChar (λ s. some s) (λ key message. replicate 20 200)
      (1 ∷ 2 ∷ []) (1 ∷ 2 ∷ []) 59 (λ key message. refl) refl
