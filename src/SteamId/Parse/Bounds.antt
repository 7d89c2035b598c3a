-- ===== src/SteamId/Parse/Bounds.antt =====
-- The SteamIDs that `FromString` and `UnmarshalJSON` give.
use go_steam.Base.{
  ℕ, ◌%◌, ◌^◌, ◌≤◌, ◌<◌, true, Option, some, none, ◌≡◌, ◌⊎◌, refl, Bytes, ltb, length, arith, inl,
  inr, Bool-cases,
}
use go_steam.Base.Results.{ok, or_err}
use go_steam.Base.Decimal.{parse_uint, parse_uint_sound, decimal_value-length}
use go_steam.SteamId.{SteamId, IsU64, new_steam_id, type_individual, universe_public}
use go_steam.SteamId.Laws.{new_steam_id-lt}
use go_steam.SteamId.Errors.{unknown_format}
use go_steam.SteamId.Patterns.{steam2_submatch, steam3_submatch, steam64_match}
use go_steam.SteamId.Steam2.Bounds.{from_steam2_lt}
use go_steam.SteamId.Steam3.Bounds.{from_steam3_lt}
use go_steam.SteamId.Parse.{is_some, from_trimmed, trim_space, from_string, unmarshal_json}

steam64_small : (s : Bytes) → steam64_match s ≡ true → 10 ^ length s ≤ 10 ^ 18
unfolding steam64_match
steam64_small s h =
    let long : (length s ≡ 17) ⊎ (length s ≡ 18) = ground arith in
    elim long [
      | inl seventeen ↦ rw seventeen (omega arith)
      | inr eighteen ↦ rw eighteen (omega arith)
    ]

parsed_lt :
    (s : Bytes) (o : Option ℕ) (sid : SteamId)
    → parse_uint 64 s ≡ o
    → steam64_match s ≡ true
    → or_err o unknown_format ≡ ok sid
    → sid < 2 ^ 60
parsed_lt s none sid p m h = cc
parsed_lt s (some v) sid p m h =
    let same : v ≡ sid = cc in
    let (digits, value, _) = parse_uint_sound 64 s v p in
    omega (arith, same, value, decimal_value-length s digits, steam64_small s m)

from_trimmed_lt : (s : Bytes) (sid : SteamId) → from_trimmed s ≡ ok sid → sid < 2 ^ 60
unfolding from_trimmed
from_trimmed_lt s sid h = elim (Bool-cases (is_some (steam2_submatch s))) [
  | inl two ↦ from_steam2_lt s sid (rw two at h)
  | inr not_two ↦ elim (Bool-cases (is_some (steam3_submatch s))) [
    | inl three ↦ from_steam3_lt s sid (rw (not_two, three) at h)
    | inr not_three ↦ elim (Bool-cases (steam64_match s)) [
      | inl long ↦ parsed_lt s _ sid refl long (rw (not_two, not_three, long) at h)
      | inr short ↦ let none_ = rw (not_two, not_three, short) at h in cc
    ]
  ]
]

-- A SteamID that `FromString` accepts has its four unused bits clear: it is below 2^60.
pub from_string_lt : (s : Bytes) (sid : SteamId) → from_string s ≡ ok sid → sid < 2 ^ 60
unfolding from_string
from_string_lt s sid h = from_trimmed_lt (trim_space s) sid h

-- A SteamID that `UnmarshalJSON` accepts is a uint64, if the number of the JSON text is one; and from
-- a JSON string, its four unused bits are clear.
pub unmarshal_json-IsU64 :
    (number : Option ℕ) (text : Option Bytes) (sid : SteamId)
    → ((i : ℕ) → number ≡ some i → i < 2 ^ 64)
    → unmarshal_json number text ≡ ok sid
    → IsU64 sid
unfolding unmarshal_json
unmarshal_json-IsU64 (some i) text sid fits h = elim (Bool-cases (ltb 76561197960265728 i)) [
  | inl large ↦
      let kept = rw large at h in let same : i ≡ sid = cc in omega (arith, same, fits i refl)
  | inr small ↦
      let made = rw small at h in
      let same : new_steam_id (i % 2 ^ 32) 1 type_individual universe_public ≡ sid = cc in
      omega (arith, same, new_steam_id-lt (i % 2 ^ 32) 1 type_individual universe_public)
]
unmarshal_json-IsU64 none (some s) sid fits h = omega (arith, from_string_lt s sid h)
unmarshal_json-IsU64 none none sid fits h = cc
