-- ===== src/SteamId/Parse.antt =====
-- `FromString`, `String`, `MarshalJSON` and `UnmarshalJSON` of steamid/steamid.go.
pub mod Bounds
pub mod Values
use go_steam.Base.{
  ℕ, ◌%◌, ◌^◌, ◌≤◌, ◌<◌, Bool, true, false, ◌&&◌, ◌||◌, Option, some, none, [], ◌∷◌, ◌++◌,
  append-nil, ◌≡◌, ◌⊎◌, ◌≢◌, refl, ap, Bytes, codes, leb, ltb, ltb→lt, ◌==◌, length, if◌then◌else◌,
  arith, ◌∙◌, inl, inr, Bool-cases, All, All-append,
}
use go_steam.Base.Results.{Result, ok, err, or_err}
use go_steam.Base.Decimal.{
  IsDigit, parse_uint, format_uint, parse_uint-format_uint_fits, format_uint-IsDigit,
  length-format_uint,
}
use go_steam.SteamId.{
  SteamId, account_instance, account_type, account_universe, new_steam_id, type_individual,
  universe_public,
}
use go_steam.SteamId.Laws.{HasFields, new_steam_id-HasFields}
use go_steam.SteamId.Errors.{ParseError, unknown_format, not_a_steam_id}
use go_steam.SteamId.Patterns.{steam2_submatch, steam3_submatch, steam64_match, non_empty}
use go_steam.SteamId.Steam2.{
  from_steam2, to_steam2, from_steam2-to_steam2_public, to_steam2_shape, from_steam2_matches,
}
use go_steam.SteamId.Steam3.{from_steam3}
use go_steam.SteamId.Steam64.{
  to_steam64, to_steam64-format_uint, steam64_match-format_uint, in_pattern_of_universe,
}

-- `unicode.IsSpace`
unfoldable pub is_space : ℕ → Bool
is_space c =
    c == 0x20
    || leb 0x9 c && leb c 0xd
    || c == 0x85
    || c == 0xa0
    || c == 0x1680
    || leb 0x2000 c && leb c 0x200a
    || c == 0x2028
    || c == 0x2029
    || c == 0x202f
    || c == 0x205f
    || c == 0x3000

trim_left : Bytes → Bytes
trim_left [] = []
trim_left (c ∷ s) = let rest = trim_left s in if is_space c then rest else c ∷ s

trim_right : Bytes → Bytes
trim_right [] = []
trim_right (c ∷ s) =
    let rest = trim_right s in
    if non_empty rest then c ∷ rest else if is_space c then [] else c ∷ []

-- `strings.TrimSpace`
pub trim_space : Bytes → Bytes
trim_space s = trim_left (trim_right s)

abbrev is_some {ℓ} : {A : Type ℓ} → Option A → Bool
is_some none = false
is_some (some a) = true

pub from_trimmed : Bytes → Result ParseError SteamId
from_trimmed s =
    if is_some (steam2_submatch s)
    then from_steam2 s
    else if is_some (steam3_submatch s)
    then from_steam3 s
    else if steam64_match s
    then or_err (parse_uint 64 s) unknown_format
    else err unknown_format

pub from_string : Bytes → Result ParseError SteamId
from_string input = from_trimmed (trim_space input)

-- The method `String`, which `MarshalJSON` quotes.
pub string : SteamId → Bytes
string sid = if account_type sid == type_individual then to_steam2 sid else to_steam64 sid

-- `UnmarshalJSON`, on what `json.Unmarshal` makes of the bytes as a uint64 and as a string.
pub unmarshal_json : Option ℕ → Option Bytes → Result ParseError SteamId
unmarshal_json (some i) text =
    if ltb 76561197960265728 i
    then ok i
    else ok (new_steam_id (i % 2 ^ 32) 1 type_individual universe_public)
unmarshal_json none (some s) = from_string s
unmarshal_json none none = err not_a_steam_id

abbrev pub IsBlank : ℕ → Type 0
IsBlank c = is_space c ≡ true

abbrev pub IsSolid : ℕ → Type 0
IsSolid c = is_space c ≡ false

trim_right_cong :
    (s t u : Bytes) → trim_right t ≡ trim_right u → trim_right (s ++ t) ≡ trim_right (s ++ u)
unfolding trim_right
trim_right_cong [] t u h = h
trim_right_cong (c ∷ s) t u h = ground (arith, trim_right_cong s t u h)

trim_right_blank : (s : Bytes) → All IsBlank s → trim_right s ≡ []
unfolding trim_right
trim_right_blank [] h = refl
trim_right_blank (c ∷ s) (hc, hs) = ground (arith, trim_right_blank s hs)

trim_right_solid : (s : Bytes) → All IsSolid s → trim_right s ≡ s
unfolding trim_right
trim_right_solid [] h = refl
trim_right_solid (c ∷ []) (hc, hs) = rw hc
trim_right_solid (c ∷ d ∷ s) (hc, hs) = rw (trim_right_solid (d ∷ s) hs)

trim_left_solid : (s : Bytes) → All IsSolid s → trim_left s ≡ s
unfolding trim_left
trim_left_solid [] h = refl
trim_left_solid (c ∷ s) (hc, hs) = rw hc

trim_left_blank :
    (c : ℕ) (rest : Bytes)
    → IsBlank c
    → trim_left (if non_empty rest then c ∷ rest else if is_space c then [] else c ∷ [])
      ≡ trim_left rest
unfolding trim_left
trim_left_blank c [] h = rw h
trim_left_blank c (d ∷ rest) h = rw h

trim_space_front : (pre s : Bytes) → All IsBlank pre → trim_space (pre ++ s) ≡ trim_space s
unfolding trim_space trim_right
trim_space_front [] s h = refl
trim_space_front (c ∷ pre) s (hc, hs) =
    trim_left_blank c (trim_right (pre ++ s)) hc ∙ trim_space_front pre s hs

trim_space_back : (s post : Bytes) → All IsBlank post → trim_space (s ++ post) ≡ trim_space s
unfolding trim_space
trim_space_back s post h =
    let gone : trim_right (s ++ post) ≡ trim_right (s ++ []) =
      trim_right_cong s post [] (trim_right_blank post h ∙ unfold trim_right in refl) in
    ap trim_left (gone ∙ ap trim_right (append-nil s))

-- Blanks around a text change nothing.
from_string_blanks :
    (pre s post : Bytes)
    → All IsBlank pre
    → All IsBlank post
    → from_string (pre ++ (s ++ post)) ≡ from_string s
unfolding from_string
from_string_blanks pre s post hpre hpost =
    ap from_trimmed (trim_space_front pre (s ++ post) hpre ∙ trim_space_back s post hpost)

trim_space_solid : (s : Bytes) → All IsSolid s → trim_space s ≡ s
unfolding trim_space
trim_space_solid s h = rw (trim_right_solid s h) (trim_left_solid s h)

digit-IsSolid : (s : Bytes) → All IsDigit s → All IsSolid s
unfolding is_space
digit-IsSolid [] h = tt
digit-IsSolid (c ∷ s) (hc, hs) = (ground arith, digit-IsSolid s hs)

to_steam2-IsSolid : (sid : SteamId) → All IsSolid (to_steam2 sid)
to_steam2-IsSolid sid =
    let (x, y, z, shape) = to_steam2_shape sid in
    let digits = λ (n : ℕ). digit-IsSolid (format_uint n) (format_uint-IsDigit n) in
    let colon : IsSolid b':' = unfold is_space in refl in
    let letters : All IsSolid (codes "STEAM_") =
      unfold is_space in (refl, (refl, (refl, (refl, (refl, (refl, tt)))))) in
    rw shape (
      All-append IsSolid (codes "STEAM_") _ letters (
        All-append IsSolid (format_uint x) _ (digits x)
          (colon, All-append IsSolid (format_uint y) _ (digits y) (colon, digits z))))

-- A decimal text matches neither of the two other patterns.
digits_only :
    (c : ℕ) (s : Bytes)
    → IsDigit c
    → (steam2_submatch (c ∷ s) ≡ none) × (steam3_submatch (c ∷ s) ≡ none)
unfolding steam2_submatch steam3_submatch
digits_only c s h = (ground arith, ground arith)

from_trimmed_digits :
    (s : Bytes)
    → 0 < length s
    → All IsDigit s
    → from_trimmed s
      ≡ (if steam64_match s then or_err (parse_uint 64 s) unknown_format else err unknown_format)
unfolding from_trimmed
from_trimmed_digits [] p h = absurd (omega arith)
from_trimmed_digits (c ∷ s) p (hc, hs) = rw ((digits_only c s hc).0, (digits_only c s hc).1)

-- The print of a SteamID with no unused bits and a named universe is read back as that SteamID, if
-- it is a public individual with instance 1, or no individual at all.
pub from_string-string :
    (sid : SteamId)
    → sid < 2 ^ 60
    → 1 ≤ account_universe sid
    → account_universe sid ≤ 5
    → ((account_type sid ≡ type_individual)
        × (account_universe sid ≡ universe_public)
        × (account_instance sid ≡ 1))
      ⊎ (account_type sid ≢ type_individual)
    → from_string (string sid) ≡ ok sid
unfolding from_string string
from_string-string sid h lo hi (inl (individual, universe, instance_)) =
    let read = from_steam2-to_steam2_public sid h universe individual instance_ in
    let (m, match) = from_steam2_matches (to_steam2 sid) read in
    rw (individual, trim_space_solid (to_steam2 sid) (to_steam2-IsSolid sid))
      (unfold from_trimmed in rw match read)
from_string-string sid h lo hi (inr other) =
    let is_other : (account_type sid == type_individual) ≡ false = ground arith in
    let all = format_uint-IsDigit sid in
    rw (is_other, to_steam64-format_uint sid, trim_space_solid _ (digit-IsSolid _ all))
      (rw (
        from_trimmed_digits (format_uint sid) (length-format_uint sid).0 all,
        steam64_match-format_uint sid (omega arith),
        in_pattern_of_universe sid h lo hi,
        parse_uint-format_uint_fits 64 sid (omega arith) (omega arith),
      ))

-- A JSON number above the base of the public individual accounts is the SteamID itself; any other
-- is the account id of a public individual, cut to 32 bits.
pub unmarshal_json_number :
    (i : ℕ) (text : Option Bytes)
    → (sid : SteamId) × (unmarshal_json (some i) text ≡ ok sid)
      × ((76561197960265728 < i) × (sid ≡ i)
          ⊎ (i ≤ 76561197960265728)
            × HasFields sid (i % 2 ^ 32) 1 type_individual universe_public 0)
unfolding unmarshal_json
unmarshal_json_number i text = elim (Bool-cases (ltb 76561197960265728 i)) [
  | inl above ↦ (i, rw above, inl (ltb→lt _ i above, refl))
  | inr below ↦ (
    new_steam_id (i % 2 ^ 32) 1 type_individual universe_public,
    rw below,
    inr (ground arith, account_number i),
  )
]
  where
    account_number :
        (n : ℕ)
        → HasFields
            (new_steam_id (n % 2 ^ 32) 1 type_individual universe_public)
            (n % 2 ^ 32)
            1
            type_individual
            universe_public
            0
    account_number n =
        let fields = new_steam_id-HasFields (n % 2 ^ 32) 1 type_individual universe_public in
        omega (arith, fields)
