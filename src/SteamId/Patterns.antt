-- ===== src/SteamId/Patterns.antt =====
-- The three regular expressions of the package steamid, as matchers over code points. A capture
-- group that did not take part is the empty text, as `FindStringSubmatch` gives it.
use go_steam.Base.{
  ℕ, ◌<◌, Bool, true, false, not, ◌&&◌, ◌||◌, Option, none, some, [], ◌∷◌, ◌++◌, ◌≡◌, refl, Bytes,
  codes, leb, ◌==◌, if◌then◌else◌, length, All, arith,
}
use go_steam.Base.Decimal.{is_digit, IsDigit, all_digits}

-- What follows a literal prefix.
unfoldable pub strip_prefix : Bytes → Bytes → Option Bytes
strip_prefix [] s = some s
strip_prefix (c ∷ cs) [] = none
strip_prefix (c ∷ cs) (x ∷ xs) = let rest = strip_prefix cs xs in if x == c then rest else none

-- The longest run of digits in front, and what follows it.
unfoldable pub span_digits : Bytes → Bytes × Bytes
span_digits [] = ([], [])
span_digits (c ∷ s) =
    let (ds, rest) = span_digits s in if is_digit c then (c ∷ ds, rest) else ([], c ∷ s)

abbrev pub non_empty : Bytes → Bool
non_empty [] = false
non_empty (c ∷ s) = true

pub record Steam2Match : Type 0 where
  pub universe : Bytes
  pub server : Bytes
  pub number : Bytes

-- `([0-5]):([0-1]):(\d+)$`
unfoldable pub steam2_tail : Bytes → Option Steam2Match
steam2_tail (u ∷ c ∷ y ∷ d ∷ number) =
    if leb b'0' u
      && leb u b'5'
      && c == b':'
      && leb b'0' y
      && leb y b'1'
      && d == b':'
      && non_empty number
      && all_digits number
    then some (record { universe = u ∷ []; server = y ∷ []; number = number })
    else none
steam2_tail _ = none

-- `^STEAM_([0-5]):([0-1]):(\d+)$`
unfoldable pub steam2_submatch : Bytes → Option Steam2Match
unfolding strip_prefix steam2_tail
steam2_submatch s = elim (strip_prefix (codes "STEAM_") s) [ none ↦ none | some r ↦ steam2_tail r ]

pub record Steam3Match : Type 0 where
  pub letter : Bytes
  pub universe : Bytes
  pub number : Bytes

-- `[iIUgGcCAa]`
abbrev pub is_steam3_letter : ℕ → Bool
is_steam3_letter c =
    c == b'i'
    || c == b'I'
    || c == b'U'
    || c == b'g'
    || c == b'G'
    || c == b'c'
    || c == b'C'
    || c == b'A'
    || c == b'a'

-- `(:?\d*)?\]$`, behind a longest run of digits.
unfoldable pub steam3_end : Bytes → Bool
unfolding span_digits
steam3_end [] = false
steam3_end (c ∷ s) =
    let (ds, rest) = span_digits (if c == b':' then s else c ∷ s) in
    elim rest [ [] ↦ false | d ∷ more ↦ d == b']' && not (non_empty more) ]

-- `(\d+)(:?\d*)?\]$`
unfoldable pub steam3_number : Bytes → Bytes → Bytes → Option Steam3Match
unfolding span_digits steam3_end
steam3_number letter universe s =
    let (number, rest) = span_digits s in
    if non_empty number && steam3_end rest
    then some (record { letter = letter; universe = universe; number = number })
    else none

-- `:(\d+)(:?\d*)?\]$`, behind the digits of the universe.
unfoldable pub steam3_colon : Bytes → Bytes → Bytes → Option Steam3Match
unfolding steam3_number
steam3_colon letter universe [] = none
steam3_colon letter universe (d ∷ more) =
    if d == b':' && non_empty universe then steam3_number letter universe more else none

-- `:?(\d+):(\d+)(:?\d*)?\]$`
unfoldable pub steam3_universe : Bytes → Bytes → Option Steam3Match
unfolding span_digits steam3_colon
steam3_universe letter [] = none
steam3_universe letter (c ∷ s) =
    let (universe, rest) = span_digits (if c == b':' then s else c ∷ s) in
    steam3_colon letter universe rest

-- `([iIUgGcCAa])?:?(\d+):(\d+)(:?\d*)?\]$`
unfoldable pub steam3_letter : Bytes → Option Steam3Match
unfolding steam3_universe
steam3_letter [] = none
steam3_letter (c ∷ s) =
    if is_steam3_letter c then steam3_universe (c ∷ []) s else steam3_universe [] (c ∷ s)

-- `^\[([iIUgGcCAa])?:?(\d+):(\d+)(:?\d*)?\]$`
unfoldable pub steam3_submatch : Bytes → Option Steam3Match
unfolding steam3_letter
steam3_submatch [] = none
steam3_submatch (c ∷ s) = if c == b'[' then steam3_letter s else none

-- `^\d{17,18}$`
unfoldable pub steam64_match : Bytes → Bool
steam64_match s = all_digits s && (length s == 17 || length s == 18)

pub strip_prefix-append : (p s : Bytes) → strip_prefix p (p ++ s) ≡ some s
unfolding strip_prefix
strip_prefix-append [] s = refl
strip_prefix-append (c ∷ p) s = ground (arith, strip_prefix-append p s)

-- A run of digits ends at the first byte that is no digit.
pub span_digits-append :
    (ds : Bytes) (c : ℕ) (rest : Bytes)
    → All IsDigit ds
    → is_digit c ≡ false
    → span_digits (ds ++ c ∷ rest) ≡ (ds, c ∷ rest)
unfolding span_digits
span_digits-append [] c rest _ stop = rw stop
span_digits-append (d ∷ ds) c rest (hd, hds) stop =
    ground (arith, span_digits-append ds c rest hds stop)

pub non_empty-eq-true : (s : Bytes) → 0 < length s → non_empty s ≡ true
non_empty-eq-true [] h = absurd (omega arith)
non_empty-eq-true (c ∷ s) h = refl
