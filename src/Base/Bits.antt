-- ===== src/Base/Bits.antt =====
-- Laws of the native bit operations at variables: masks, and words cut in two at a bit position.
use Prim.Native.Nat.{
  ℕ, zero, suc, ◌+◌, ◌-◌, ◌*◌, ◌/◌, ◌%◌, ◌^◌, ◌≤◌, ◌<◌, min, max, differ, bit_and, bit_or, bit_xor,
}
use Prim.Native.Nat.{digits, bitwise, bit_and-bitwise, bit_or-bitwise, bit_xor-bitwise}
use mathlib.Core.Path.{◌≡◌, refl, ap, ◌∙◌}
use native.Mathlib.Nat.{pow-suc, le_refl, mod-lt, div-add-mod'}
use native.Mathlib.Omega.{arith}

-- The count of binary digits does not matter once it reaches the number.
module _ (out : ℕ → ℕ) (op : ℕ → ℕ → ℕ) where
  digits_enough : (x y i j : ℕ) → x ≤ i → x ≤ j → digits out op i x y ≡ digits out op j x y
  digits_enough x y zero zero _ _ = refl
  digits_enough zero y zero (suc j) _ _ = refl
  digits_enough zero y (suc i) zero _ _ = refl
  digits_enough zero y (suc i) (suc j) _ _ = refl
  digits_enough (suc x) y zero (suc j) hi _ = absurd (omega arith)
  digits_enough (suc x) y (suc i) zero _ hj = absurd (omega arith)
  digits_enough (suc x) y (suc i) (suc j) hi hj =
      let rest = digits_enough (suc x / 2) (y / 2) i j (omega arith) (omega arith) in
      omega (arith, rest)

  bitwise_lowest :
      (x y : ℕ)
      → bitwise out op (suc x) y ≡ bitwise out op (suc x / 2) (y / 2) * 2 + op (suc x % 2) (y % 2)
  bitwise_lowest x y =
      omega (arith, digits_enough (suc x / 2) (y / 2) x (suc x / 2) (omega arith) (le_refl _))

-- One equation for the lowest binary digit of each operation.
pub bit_and_lowest : (x y : ℕ) → bit_and x y ≡ bit_and (x / 2) (y / 2) * 2 + min (x % 2) (y % 2)
bit_and_lowest zero y = omega (arith, bit_and-bitwise 0 y, bit_and-bitwise 0 (y / 2))
bit_and_lowest (suc x) y = omega (
  arith,
  bit_and-bitwise (suc x) y,
  bit_and-bitwise (suc x / 2) (y / 2),
  bitwise_lowest (λ b. zero) min x y,
)

pub bit_or_lowest : (x y : ℕ) → bit_or x y ≡ bit_or (x / 2) (y / 2) * 2 + max (x % 2) (y % 2)
bit_or_lowest zero y = omega (arith, bit_or-bitwise 0 y, bit_or-bitwise 0 (y / 2))
bit_or_lowest (suc x) y = omega (
  arith,
  bit_or-bitwise (suc x) y,
  bit_or-bitwise (suc x / 2) (y / 2),
  bitwise_lowest (λ b. b) max x y,
)

pub bit_xor_lowest : (x y : ℕ) → bit_xor x y ≡ bit_xor (x / 2) (y / 2) * 2 + differ (x % 2) (y % 2)
bit_xor_lowest zero y = omega (arith, bit_xor-bitwise 0 y, bit_xor-bitwise 0 (y / 2))
bit_xor_lowest (suc x) y = omega (
  arith,
  bit_xor-bitwise (suc x) y,
  bit_xor-bitwise (suc x / 2) (y / 2),
  bitwise_lowest (λ b. b) differ x y,
)

-- Half and rest of a number that is cut at bit position `k + 1`.
cut_half : (k a b : ℕ) → (a * 2 ^ suc k + b) / 2 ≡ a * 2 ^ k + b / 2
cut_half k a b = omega (arith, ap (λ (t : ℕ). a * t) (pow-suc 2 k))

cut_rest : (k a b : ℕ) → (a * 2 ^ suc k + b) % 2 ≡ b % 2
cut_rest k a b = omega (arith, ap (λ (t : ℕ). a * t) (pow-suc 2 k))

-- An operation that goes digit by digit works on both sides of a cut apart.
module _ (op digit : ℕ → ℕ → ℕ)
    (lowest : (x y : ℕ) → op x y ≡ op (x / 2) (y / 2) * 2 + digit (x % 2) (y % 2))
    (nil : op 0 0 ≡ 0) where
  op_cut :
      (k a b x y : ℕ)
      → b < 2 ^ k
      → y < 2 ^ k
      → op (a * 2 ^ k + b) (x * 2 ^ k + y) ≡ op a x * 2 ^ k + op b y
  op_cut zero a zero x zero _ _ =
      let left : a * 1 + 0 ≡ a = omega arith in
      let right : x * 1 + 0 ≡ x = omega arith in rw (left, right, nil) (omega arith)
  op_cut zero a (suc b) x y hb _ = absurd (omega arith)
  op_cut zero a zero x (suc y) _ hy = absurd (omega arith)
  op_cut (suc k) a b x y hb hy =
      let below =
        op_cut k a (b / 2) x (y / 2) (omega (arith, pow-suc 2 k)) (omega (arith, pow-suc 2 k)) in
      rw
        (
          lowest (a * 2 ^ suc k + b) (x * 2 ^ suc k + y),
          cut_half,
          cut_half,
          cut_rest,
          cut_rest,
          below,
        )
        (omega (arith, lowest b y, ap (λ (t : ℕ). op a x * t) (pow-suc 2 k)))

pub bit_and_cut :
    (k a b x y : ℕ)
    → b < 2 ^ k
    → y < 2 ^ k
    → bit_and (a * 2 ^ k + b) (x * 2 ^ k + y) ≡ bit_and a x * 2 ^ k + bit_and b y
bit_and_cut = op_cut bit_and min bit_and_lowest refl

pub bit_or_cut :
    (k a b x y : ℕ)
    → b < 2 ^ k
    → y < 2 ^ k
    → bit_or (a * 2 ^ k + b) (x * 2 ^ k + y) ≡ bit_or a x * 2 ^ k + bit_or b y
bit_or_cut = op_cut bit_or max bit_or_lowest refl

pub bit_xor_cut :
    (k a b x y : ℕ)
    → b < 2 ^ k
    → y < 2 ^ k
    → bit_xor (a * 2 ^ k + b) (x * 2 ^ k + y) ≡ bit_xor a x * 2 ^ k + bit_xor b y
bit_xor_cut = op_cut bit_xor differ bit_xor_lowest refl

pub bit_and-zero_left : (y : ℕ) → bit_and 0 y ≡ 0
bit_and-zero_left y = bit_and-bitwise 0 y

pub bit_or-zero_left : (y : ℕ) → bit_or 0 y ≡ y
bit_or-zero_left y = bit_or-bitwise 0 y

pub bit_xor-zero_left : (y : ℕ) → bit_xor 0 y ≡ y
bit_xor-zero_left y = bit_xor-bitwise 0 y

-- Strong induction on the digits, by a bound.
bit_and-zero_below : (n x : ℕ) → x ≤ n → bit_and x 0 ≡ 0
bit_and-zero_below n zero h = refl
bit_and-zero_below zero (suc x) h = absurd (omega arith)
bit_and-zero_below (suc n) (suc x) h =
    omega (arith, bit_and_lowest (suc x) 0, bit_and-zero_below n (suc x / 2) (omega arith))

pub bit_and-zero_right : (x : ℕ) → bit_and x 0 ≡ 0
bit_and-zero_right x = bit_and-zero_below x x (le_refl x)

bit_or-zero_below : (n x : ℕ) → x ≤ n → bit_or x 0 ≡ x
bit_or-zero_below n zero h = refl
bit_or-zero_below zero (suc x) h = absurd (omega arith)
bit_or-zero_below (suc n) (suc x) h =
    omega (arith, bit_or_lowest (suc x) 0, bit_or-zero_below n (suc x / 2) (omega arith))

pub bit_or-zero_right : (x : ℕ) → bit_or x 0 ≡ x
bit_or-zero_right x = bit_or-zero_below x x (le_refl x)

pub pow_pos : (k : ℕ) → 1 ≤ 2 ^ k
pow_pos zero = omega arith
pow_pos (suc k) = omega (arith, pow-suc 2 k, pow_pos k)

ones_half : (k : ℕ) → (2 ^ suc k - 1) / 2 ≡ 2 ^ k - 1
ones_half k = omega (arith, pow-suc 2 k)

ones_rest : (k : ℕ) → (2 ^ suc k - 1) % 2 ≡ 1
ones_rest k = omega (arith, pow-suc 2 k, pow_pos k)

pub bit_and_ones : (k b : ℕ) → b < 2 ^ k → bit_and b (2 ^ k - 1) ≡ b
bit_and_ones zero zero h = refl
bit_and_ones zero (suc b) h = absurd (omega arith)
bit_and_ones (suc k) b h =
    rw
      (
        bit_and_lowest b (2 ^ suc k - 1),
        ones_half,
        ones_rest,
        bit_and_ones k (b / 2) (omega (arith, pow-suc 2 k)),
      )
      (omega arith)

-- `x & (2^k - 1)` is the remainder by `2^k`.
pub bit_and_mask : (k x : ℕ) → bit_and x (2 ^ k - 1) ≡ x % 2 ^ k
bit_and_mask k x =
    let low : x % 2 ^ k < 2 ^ k = mod-lt x (pow_pos k) in
    let whole : bit_and (x / 2 ^ k * 2 ^ k + x % 2 ^ k) (0 * 2 ^ k + (2 ^ k - 1)) ≡ x % 2 ^ k =
      bit_and_cut k (x / 2 ^ k) (x % 2 ^ k) 0 (2 ^ k - 1) low (omega (arith, pow_pos k))
      ∙ rw (bit_and-zero_right, bit_and_ones k (x % 2 ^ k) low) (omega arith) in
    let joined : x / 2 ^ k * 2 ^ k + x % 2 ^ k ≡ x = div-add-mod' x (2 ^ k) in
    let zeros : 0 * 2 ^ k + (2 ^ k - 1) ≡ 2 ^ k - 1 = omega arith in rw (joined, zeros) at whole

-- Exclusive or with the same key twice gives the number back.
differ_twice : (a b : ℕ) → a < 2 → b < 2 → (differ (differ a b) b ≡ a) × (differ a b < 2)
differ_twice zero zero _ _ = omega arith
differ_twice zero (suc zero) _ _ = omega arith
differ_twice (suc zero) zero _ _ = omega arith
differ_twice (suc zero) (suc zero) _ _ = omega arith
differ_twice zero (suc (suc b)) _ hb = absurd (omega arith)
differ_twice (suc zero) (suc (suc b)) _ hb = absurd (omega arith)
differ_twice (suc (suc a)) b ha _ = absurd (omega arith)

bit_xor_digits :
    (x y : ℕ)
    → (bit_xor x y / 2 ≡ bit_xor (x / 2) (y / 2)) × (bit_xor x y % 2 ≡ differ (x % 2) (y % 2))
bit_xor_digits x y =
    omega (arith, bit_xor_lowest x y, differ_twice (x % 2) (y % 2) (omega arith) (omega arith))

pub bit_xor-lt : (k x y : ℕ) → x < 2 ^ k → y < 2 ^ k → bit_xor x y < 2 ^ k
bit_xor-lt zero zero zero _ _ = omega arith
bit_xor-lt zero zero (suc y) _ hy = absurd (omega arith)
bit_xor-lt zero (suc x) y hx _ = absurd (omega arith)
bit_xor-lt (suc k) x y hx hy = omega (
  arith,
  pow-suc 2 k,
  bit_xor_digits x y,
  bit_xor-lt k (x / 2) (y / 2) (omega (arith, pow-suc 2 k)) (omega (arith, pow-suc 2 k)),
)

pub bit_xor_twice : (k x y : ℕ) → x < 2 ^ k → y < 2 ^ k → bit_xor (bit_xor x y) y ≡ x
bit_xor_twice zero zero zero _ _ = refl
bit_xor_twice zero zero (suc y) _ hy = absurd (omega arith)
bit_xor_twice zero (suc x) y hx _ = absurd (omega arith)
bit_xor_twice (suc k) x y hx hy =
    let (half, rest) = bit_xor_digits x y in
    rw (bit_xor_lowest (bit_xor x y) y, half, rest)
      (omega (
        arith,
        differ_twice (x % 2) (y % 2) (omega arith) (omega arith),
        bit_xor_twice k (x / 2) (y / 2) (omega (arith, pow-suc 2 k)) (omega (arith, pow-suc 2 k)),
      ))

-- Replacing the `w` bits at position `o` of a word with `h` bits above them: clear them by the
-- complement of the shifted mask, then put the new value in.
pub replace_bits :
    (o w h hi mid lo v : ℕ)
    → lo < 2 ^ o
    → mid < 2 ^ w
    → v < 2 ^ w
    → hi < 2 ^ h
    → bit_or
        (bit_and
          ((hi * 2 ^ w + mid) * 2 ^ o + lo)
          (((2 ^ h - 1) * 2 ^ w + 0) * 2 ^ o + (2 ^ o - 1)))
        ((0 * 2 ^ w + v) * 2 ^ o + 0)
      ≡ (hi * 2 ^ w + v) * 2 ^ o + lo
replace_bits o w h hi mid lo v hlo hmid hv hhi = rw (
  bit_and_cut o (hi * 2 ^ w + mid) lo ((2 ^ h - 1) * 2 ^ w + 0) (2 ^ o - 1) hlo
      (omega (arith, pow_pos o)),
  bit_and_cut w hi mid (2 ^ h - 1) 0 hmid (pow_pos w),
  bit_and_ones h hi hhi,
  bit_and-zero_right mid,
  bit_and_ones o lo hlo,
  bit_or_cut o (hi * 2 ^ w + 0) lo (0 * 2 ^ w + v) 0 hlo (pow_pos o),
  bit_or_cut w hi 0 0 v (pow_pos w) hv,
  bit_or-zero_right hi,
  bit_or-zero_right lo,
  bit_or-zero_left v,
)
