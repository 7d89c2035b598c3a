-- ===== src/Api/Lazy.antt =====
-- The value of internal/lazy/lazy.go, behind which api/api.go keeps each of its services.
use go_steam.Base.{Bool, true, false, ◌≡◌, refl}

-- `Value`: whether `once` has run, and the value, which is the zero of its type before.
pub record Value {ℓ} (T : Type ℓ) : Type ℓ where
  pub once : Bool
  pub value : T

-- `New`
unfoldable pub new_value {ℓ} : {T : Type ℓ} → T → Value T
new_value zero_value = record { once = false; value = zero_value }

-- The value of a lazy value that has one has a property.
abbrev pub Holds {ℓ} : {T : Type ℓ} → (T → Type ℓ) → Value T → Type ℓ
Holds P v = v.once ≡ true → P v.value

module _ {ℓ} {W : Type 0} {T : Type ℓ} where
  initialised : T × W → T × (Value T × W)
  initialised (v, w) = (v, (record { once = true; value = v }, w))

  get_once : (W → T × W) → Bool → T → W → T × (Value T × W)
  get_once init true v w = (v, (record { once = true; value = v }, w))
  get_once init false v w = initialised (init w)

  -- `Get`, which runs `init` in the world `w` at most.
  pub get : (W → T × W) → Value T × W → T × (Value T × W)
  get init (v, w) = get_once init v.once v.value w

  get_once-Holds :
      (init : W → T × W) (P : T → Type ℓ) (b : Bool) (x : T) (w : W)
      → (b ≡ true → P x)
      → ((w1 : W) → P (init w1).0)
      → P (get_once init b x w).0 × Holds P (get_once init b x w).1.0
  unfolding get_once initialised
  get_once-Holds init P true x w kept made = (kept refl, λ _. kept refl)
  get_once-Holds init P false x w kept made = (made w, λ _. made w)

  -- If what `init` makes has the property, `Get` returns and keeps such a value.
  pub get-Holds :
      (init : W → T × W) (P : T → Type ℓ) (v : Value T) (w : W)
      → Holds P v
      → ((w1 : W) → P (init w1).0)
      → P (get init (v, w)).0 × Holds P (get init (v, w)).1.0
  unfolding get
  get-Holds init P v w = get_once-Holds init P v.once v.value w

  get_once-again :
      (init : W → T × W) (b : Bool) (v : T) (w : W)
      → get init (get_once init b v w).1 ≡ get_once init b v w
  unfolding get get_once initialised
  get_once-again init true v w = refl
  get_once-again init false v w = refl

  -- A second `Get` returns the value of the first one and changes nothing: `init` is not run again.
  get-get :
      (init : W → T × W) (v : Value T) (w : W) → get init (get init (v, w)).1 ≡ get init (v, w)
  unfolding get
  get-get init v w = get_once-again init v.once v.value w
