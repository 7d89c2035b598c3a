-- ===== src/SteamId/Steam64.antt =====
-- steamid/steamid_64.go: the 64-bit number in decimal.
use go_steam.Base.{
  ℕ, ◌^◌, ◌≤◌, ◌<◌, Bool, true, ◌&&◌, ◌≡◌, refl, Bytes, leb, ltb, if◌then◌else◌, arith, inl, inr,
  Bool-cases,
}
use go_steam.Base.Results.{Result, ok, err, or_err, guard, ◌>>◌}
use go_steam.Base.Decimal.{
  all_digits-eq-true, parse_uint, format_uint, parse_uint-format_uint_fits, format_uint-IsDigit,
  length-format_uint_le, length-format_uint_gt,
}
use go_steam.SteamId.{SteamId, IsU64, account_universe}
use go_steam.SteamId.Fields.{account_universe-eq}
use go_steam.SteamId.Errors.{ParseError, steam64_format, steam64_range}
use go_steam.SteamId.Patterns.{steam64_match}

pub from_steam64 : Bytes → Result ParseError SteamId
from_steam64 input = do
  guard (steam64_match input) steam64_format
  or_err (parse_uint 64 input) steam64_range

pub to_steam64 : SteamId → Bytes
to_steam64 sid = format_uint sid

pub to_steam64-format_uint : (sid : SteamId) → to_steam64 sid ≡ format_uint sid
unfolding to_steam64
to_steam64-format_uint sid = refl

-- The numbers of 17 or 18 digits.
abbrev pub in_pattern : ℕ → Bool
in_pattern sid = leb (10 ^ 16) sid && ltb sid (10 ^ 18)

pub steam64_match-format_uint :
    (sid : ℕ) → sid < 10 ^ 20 → steam64_match (format_uint sid) ≡ in_pattern sid
unfolding steam64_match
steam64_match-format_uint sid h = ground (
  arith,
  all_digits-eq-true (format_uint sid) (format_uint-IsDigit sid),
  length-format_uint_le 15 sid,
  length-format_uint_le 17 sid,
  length-format_uint_gt 16 sid,
  length-format_uint_gt 18 sid,
)

-- Reading back what `ToSteam64` printed: the SteamID if it has 17 or 18 digits, else an error.
pub from_steam64-to_steam64 :
    (sid : SteamId)
    → IsU64 sid
    → from_steam64 (to_steam64 sid) ≡ (if in_pattern sid then ok sid else err steam64_format)
unfolding from_steam64 to_steam64
from_steam64-to_steam64 sid h =
    rw
      (
        steam64_match-format_uint sid (omega arith),
        parse_uint-format_uint_fits 64 sid (omega arith) (omega arith),
      )
      (elim (Bool-cases (in_pattern sid)) [ inl good ↦ rw good | inr bad ↦ rw bad ])

-- Every SteamID of a named universe, with no unused bits, has 17 or 18 digits.
pub in_pattern_of_universe :
    (sid : SteamId)
    → sid < 2 ^ 60
    → 1 ≤ account_universe sid
    → account_universe sid ≤ 5
    → in_pattern sid ≡ true
in_pattern_of_universe sid h lo hi = ground (arith, account_universe-eq sid)
