-- ===== src/Base/Effects.antt =====
-- Calls that change a world outside the program and may fail. What happened before a failure stays.
use go_steam.Base.Results.{Result, ok, err}
use go_steam.Base.Tests.{if◌then◌else◌}
use mathlib.Core.Bool.{Bool, true, false}
use mathlib.Core.Path.{◌≡◌, refl}

-- A call: its result, and the world that it leaves.
abbrev pub Call : Type 0 → Type 0 → Type 0 → Type 0
Call E W A = W → Result E A × W

unfoldable pub and_then : {E W A B : Type 0} → Result E A × W → (A → Call E W B) → Result E B × W
and_then (ok a, w) f = f a w
and_then (err e, w) f = (err e, w)

infixl 5 ◌>>=◌ ◌>>◌
abbrev pub ◌>>=◌ : {E W A B : Type 0} → Call E W A → (A → Call E W B) → Call E W B
m >>= f = λ w. and_then (m w) f

abbrev pub ◌>>◌ : {E W B : Type 0} → Call E W (Unit {0}) → Call E W B → Call E W B
m >> k = m >>= λ _. k

abbrev pub pure : {E W A : Type 0} → A → Call E W A
pure a = λ w. (ok a, w)

abbrev pub fail : {E W A : Type 0} → E → Call E W A
fail e = λ w. (err e, w)

-- A computation without an effect.
abbrev pub lift : {E W A : Type 0} → Result E A → Call E W A
lift r = λ w. (r, w)

-- The error of another component, wrapped.
unfoldable pub wrap_result : {E F W A : Type 0} → (E → F) → Result E A × W → Result F A × W
wrap_result f (ok a, w) = (ok a, w)
wrap_result f (err e, w) = (err (f e), w)

unfoldable pub wrap_call : {E F W A : Type 0} → (E → F) → Call E W A → Call F W A
wrap_call f m w = wrap_result f (m w)

-- A chain that succeeds took each step with success.
pub and_then_inv :
    {E W A B : Type 0} (r : Result E A × W) (f : A → Call E W B) (b : B) (w' : W)
    → and_then r f ≡ (ok b, w')
    → (a : A) × (w1 : W) × (r ≡ (ok a, w1)) × (f a w1 ≡ (ok b, w'))
unfolding and_then
and_then_inv (ok a, w) f b w' h = (a, w, refl, h)
and_then_inv (err e, w) f b w' h = cc

-- A step that succeeds hands its value on.
pub and_then_ok :
    {E W A B : Type 0} (a : A) (w : W) (f : A → Call E W B) → and_then (ok a, w) f ≡ f a w
unfolding and_then
and_then_ok a w f = refl

wrap_result_inv :
    {E F W A : Type 0} (f : E → F) (r : Result E A × W) (a : A) (w' : W)
    → wrap_result f r ≡ (ok a, w')
    → r ≡ (ok a, w')
unfolding wrap_result
wrap_result_inv f (ok b, v) a w' h = cc
wrap_result_inv f (err e, v) a w' h = cc

pub wrap_call_inv :
    {E F W A : Type 0} (f : E → F) (m : Call E W A) (w w' : W) (a : A)
    → wrap_call f m w ≡ (ok a, w')
    → m w ≡ (ok a, w')
unfolding wrap_call
wrap_call_inv f m w w' a h = wrap_result_inv f (m w) a w' h

-- Chains that go on alike after the first step are equal.
pub and_then_cong :
    {E W A B : Type 0} (r : Result E A × W) (f g : A → Call E W B)
    → ((a : A) (w : W) → r ≡ (ok a, w) → f a w ≡ g a w)
    → and_then r f ≡ and_then r g
unfolding and_then
and_then_cong (ok a, w) f g h = h a w refl
and_then_cong (err e, w) f g h = refl

-- What each step of a chain keeps of the world, the chain keeps.
pub and_then_keeps :
    {E W A B : Type 0} (P : W → Type 0) (r : Result E A × W) (f : A → Call E W B)
    → P r.1
    → ((a : A) (w : W) → P w → P (f a w).1)
    → P (and_then r f).1
unfolding and_then
and_then_keeps P (ok a, w) f h g = g a w h
and_then_keeps P (err e, w) f h g = h

pub if_keeps :
    {E W A : Type 0} (P : W → Type 0) (b : Bool) (m n : Call E W A) (w : W)
    → P (m w).1
    → P (n w).1
    → P ((if b then m else n) w).1
if_keeps P true m n w h k = h
if_keeps P false m n w h k = k

pub wrap_result_keeps :
    {E F W A : Type 0} (P : W → Type 0) (f : E → F) (r : Result E A × W)
    → P r.1
    → P (wrap_result f r).1
unfolding wrap_result
wrap_result_keeps P f (ok a, w) h = h
wrap_result_keeps P f (err e, w) h = h
