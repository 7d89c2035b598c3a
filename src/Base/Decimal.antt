-- ===== src/Base/Decimal.antt =====
-- What the program uses of strconv and of `%d`: unsigned decimal numbers, printed and parsed.
use native.Mathlib.Nat.{pow-suc, mul-le-mul_right}
use go_steam.Base.Tests.{if◌then◌else◌, ltb, leb, ltb→lt, lt→ltb, Bool-cases}
use go_steam.Base.Lists.{Bytes, length, length-append, All, All-append}
use Prim.Native.Nat.{ℕ, zero, suc, ◌+◌, ◌-◌, ◌*◌, ◌/◌, ◌%◌, ◌^◌, ◌≤◌, ◌<◌}
use mathlib.Core.Path.{ap, ◌≡◌, refl, ◌∙◌}
use mathlib.Core.Bool.{Bool, true, ◌&&◌}
use mathlib.Core.Logic.{inl, inr}
use mathlib.Core.Option.{Option, none, some}
use mathlib.Core.List.{[], ◌∷◌, ◌++◌}
use native.Mathlib.Nat.{pow-suc}
use native.Mathlib.Omega.{arith}

abbrev pub is_digit : ℕ → Bool
is_digit c = leb b'0' c && leb c b'9'

abbrev pub IsDigit : ℕ → Type 0
IsDigit c = (b'0' ≤ c) × (c ≤ b'9')

-- The number that digits spell behind `acc`, with no bound.
pub decimal_value : ℕ → Bytes → ℕ
decimal_value acc [] = acc
decimal_value acc (c ∷ s) = decimal_value (acc * 10 + (c - b'0')) s

abbrev pub all_digits : Bytes → Bool
all_digits [] = true
all_digits (c ∷ s) = is_digit c && all_digits s

-- `strconv.ParseUint(s, 10, bits)`: a syntax error on an empty text or a byte that is no digit, a
-- range error on a number of more than `bits` bits.
unfoldable pub parse_uint : ℕ → Bytes → Option ℕ
unfolding decimal_value
parse_uint bits [] = none
parse_uint bits (c ∷ s) =
    if all_digits (c ∷ s)
    then (let v = decimal_value 0 (c ∷ s) in if ltb v (2 ^ bits) then some v else none)
    else none

-- The decimal digits of a number below 10 ^ k.
digits : ℕ → ℕ → Bytes
digits zero v = []
digits (suc k) v =
    let front = digits k (v / 10) in
    if ltb v 10 then (b'0' + v) ∷ [] else front ++ (b'0' + v % 10) ∷ []

-- `strconv.FormatUint(v, 10)` and `fmt.Sprintf("%d", v)` for an unsigned `v` of at most 64 bits,
-- which has twenty digits at most.
unfoldable pub format_uint : ℕ → Bytes
unfolding digits
format_uint v = digits 20 v

decimal_value-append :
    (acc : ℕ) (s t : Bytes) → decimal_value acc (s ++ t) ≡ decimal_value (decimal_value acc s) t
unfolding decimal_value
decimal_value-append acc [] t = refl
decimal_value-append acc (c ∷ s) t = decimal_value-append (acc * 10 + (c - b'0')) s t

digits_small : (k v : ℕ) → v < 10 → digits (suc k) v ≡ (b'0' + v) ∷ []
unfolding digits
digits_small k v h = ground arith

digits_large : (k v : ℕ) → 10 ≤ v → digits (suc k) v ≡ digits k (v / 10) ++ (b'0' + v % 10) ∷ []
unfolding digits
digits_large k v h = ground arith

one_digit : (acc d : ℕ) → decimal_value acc ((b'0' + d) ∷ []) ≡ acc * 10 + d
unfolding decimal_value
one_digit acc d = omega arith

decimal_value-digits : (k v : ℕ) → v < 10 ^ suc k → decimal_value 0 (digits (suc k) v) ≡ v
decimal_value-digits zero v h = rw (digits_small 0 v h) (omega (arith, one_digit 0 v))
decimal_value-digits (suc k) v h = elim (Bool-cases (ltb v 10)) [
  | inl small ↦ rw (digits_small (suc k) v (ltb→lt v 10 small)) (omega (arith, one_digit 0 v))
  | inr large ↦
      rw
        (
          digits_large (suc k) v (ground arith),
          decimal_value-append 0 (digits (suc k) (v / 10)) ((b'0' + v % 10) ∷ []),
          decimal_value-digits k (v / 10) (omega (arith, pow-suc 10 (suc k))),
          one_digit (v / 10) (v % 10),
        )
        (omega arith)
]

digits-IsDigit : (k v : ℕ) → All IsDigit (digits k v)
digits-IsDigit zero v = unfold digits in tt
digits-IsDigit (suc k) v = elim (Bool-cases (ltb v 10)) [
  | inl small ↦ let h = ltb→lt v 10 small in rw (digits_small k v h) (omega arith)
  | inr large ↦
      rw (digits_large k v (ground arith))
        (All-append IsDigit (digits k (v / 10)) _ (digits-IsDigit k (v / 10)) (omega arith))
]

-- A one-digit number is printed as its digit.
pub format_uint_small : (v : ℕ) → v < 10 → format_uint v ≡ (b'0' + v) ∷ []
unfolding format_uint
format_uint_small v h = digits_small 19 v h

-- A two-digit number is printed as its two digits.
pub format_uint_two :
    (v : ℕ) → 10 ≤ v → v < 100 → format_uint v ≡ (b'0' + v / 10) ∷ (b'0' + v % 10) ∷ []
unfolding format_uint
format_uint_two v lo hi = rw (digits_large 19 v lo, digits_small 18 (v / 10) (omega arith))

-- The printed text is not empty, and holds digits only.
pub format_uint-IsDigit : (v : ℕ) → All IsDigit (format_uint v)
unfolding format_uint
format_uint-IsDigit v = digits-IsDigit 20 v

length-digits_pos : (k v : ℕ) → 0 < length (digits (suc k) v)
unfolding digits
length-digits_pos k v = ground (arith, length-append (digits k (v / 10)) ((b'0' + v % 10) ∷ []))

length-digits-le : (k v : ℕ) → length (digits k v) ≤ k
unfolding digits
length-digits-le zero v = omega arith
length-digits-le (suc k) v =
    ground
      (arith, length-append (digits k (v / 10)) ((b'0' + v % 10) ∷ []), length-digits-le k (v / 10))

pub length-format_uint : (v : ℕ) → (0 < length (format_uint v)) × (length (format_uint v) ≤ 20)
unfolding format_uint
length-format_uint v = (length-digits_pos 19 v, length-digits-le 20 v)

digits_le : (k j v : ℕ) → v < 10 ^ suc j → length (digits k v) ≤ suc j
unfolding digits
digits_le zero j v h = omega arith
digits_le (suc k) zero v h = ground arith
digits_le (suc k) (suc j) v h = ground (
  arith,
  pow-suc 10 (suc j),
  length-append (digits k (v / 10)) ((b'0' + v % 10) ∷ []),
  digits_le k j (v / 10),
)

digits_gt : (k j v : ℕ) → 10 ^ j ≤ v → j < k → j < length (digits k v)
digits_gt zero j v h p = absurd (omega arith)
digits_gt (suc k) zero v h p = length-digits_pos k v
digits_gt (suc k) (suc j) v h p =
    let ten : 10 * 10 ^ j ≤ v = omega (arith, pow-suc 10 j) in
    rw (digits_large k v (omega (arith, ten_pos j))) (
      omega (
        arith,
        length-append (digits k (v / 10)) ((b'0' + v % 10) ∷ []),
        digits_gt k j (v / 10) (omega arith) (omega arith),
      ))
  where
    ten_pos : (i : ℕ) → 1 ≤ 10 ^ i
    ten_pos zero = omega arith
    ten_pos (suc i) = omega (arith, pow-suc 10 i, ten_pos i)

-- The number of digits of a printed number that is below 10^(j+1), or that is not below 10^j.
pub length-format_uint_le : (j v : ℕ) → v < 10 ^ suc j → length (format_uint v) ≤ suc j
unfolding format_uint
length-format_uint_le j v h = digits_le 20 j v h

pub length-format_uint_gt : (j v : ℕ) → 10 ^ j ≤ v → j < 20 → j < length (format_uint v)
unfolding format_uint
length-format_uint_gt j v h p = digits_gt 20 j v h p

pub all_digits-eq-true : (s : Bytes) → All IsDigit s → all_digits s ≡ true
all_digits-eq-true [] h = refl
all_digits-eq-true (c ∷ s) (hc, hs) = ground (arith, all_digits-eq-true s hs)

pub all_digits-IsDigit : (s : Bytes) → all_digits s ≡ true → All IsDigit s
all_digits-IsDigit [] h = tt
all_digits-IsDigit (c ∷ s) h = ground (arith, all_digits-IsDigit s)

-- A text of digits is parsed as the number it spells, if that fits.
pub parse_uint_digits :
    (bits : ℕ) (s : Bytes)
    → 0 < length s
    → All IsDigit s
    → parse_uint bits s
      ≡ (if ltb (decimal_value 0 s) (2 ^ bits) then some (decimal_value 0 s) else none)
unfolding parse_uint
parse_uint_digits bits [] p d = absurd (omega arith)
parse_uint_digits bits (c ∷ s) p d = rw (all_digits-eq-true (c ∷ s) d)

-- Whatever is parsed is a text of digits, and the number they spell.
pub parse_uint_sound :
    (bits : ℕ) (s : Bytes) (v : ℕ)
    → parse_uint bits s ≡ some v
    → All IsDigit s × (v ≡ decimal_value 0 s) × (v < 2 ^ bits)
unfolding parse_uint
parse_uint_sound bits [] v h = cc
parse_uint_sound bits (c ∷ s) v h = elim (Bool-cases (all_digits (c ∷ s))) [
  | inl good ↦ (all_digits-IsDigit (c ∷ s) good, ground arith, ground arith)
  | inr bad ↦ absurd (ground arith)
]

-- Every unsigned number of at most twenty digits is read back from its decimal print, if it fits.
pub decimal_value-format_uint : (v : ℕ) → v < 10 ^ 20 → decimal_value 0 (format_uint v) ≡ v
unfolding format_uint
decimal_value-format_uint v h = decimal_value-digits 19 v h

pub parse_uint-format_uint :
    (bits v : ℕ)
    → v < 10 ^ 20
    → parse_uint bits (format_uint v) ≡ (if ltb v (2 ^ bits) then some v else none)
parse_uint-format_uint bits v h =
    parse_uint_digits bits (format_uint v) (length-format_uint v).0 (format_uint-IsDigit v)
    ∙ rw (decimal_value-format_uint v h)

pub parse_uint-format_uint_fits :
    (bits v : ℕ) → v < 10 ^ 20 → v < 2 ^ bits → parse_uint bits (format_uint v) ≡ some v
parse_uint-format_uint_fits bits v hd hb =
    parse_uint-format_uint bits v hd ∙ rw (lt→ltb v (2 ^ bits) hb)

decimal_value-lt :
    (acc : ℕ) (s : Bytes) → All IsDigit s → decimal_value acc s < (acc + 1) * 10 ^ length s
unfolding decimal_value
decimal_value-lt acc [] _ = omega arith
decimal_value-lt acc (c ∷ s) (d, ds) =
    let next = acc * 10 + (c - b'0') in
    let bound : next + 1 ≤ (acc + 1) * 10 = ground arith in
    omega (
      arith,
      decimal_value-lt next s ds,
      mul-le-mul_right (10 ^ length s) bound,
      ap (λ (t : ℕ). (acc + 1) * t) (pow-suc 10 (length s)),
    )

-- Digits spell a number with no more digits.
pub decimal_value-length : (s : Bytes) → All IsDigit s → decimal_value 0 s < 10 ^ length s
decimal_value-length s d = omega (arith, decimal_value-lt 0 s d)
