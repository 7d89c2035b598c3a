-- ===== src/SteamId/Tests.antt =====
-- The theorems on SteamIDs at concrete identifiers.
use go_steam.Base.{
  ℕ, ◌+◌, ◌*◌, ◌%◌, ◌^◌, ◌<◌, ◌≡◌, refl, inl, inr, true, ltb, ◌==◌, if◌then◌else◌, arith,
}
use go_steam.Base.Results.{ok, err}
use go_steam.SteamId.{
  SteamId, account_id, account_instance, account_type, account_universe, get_bits, new_steam_id,
  type_individual, type_chat, type_clan, universe_public, account_instance_clan_mask,
}
use go_steam.SteamId.Errors.{steam2_number, steam2_format, steam3_format, steam64_format}
use go_steam.SteamId.Steam2.{
  from_steam2, to_steam2, steam2_text, public_if_invalid, from_steam2-steam2_text,
  from_steam2-to_steam2,
}
use go_steam.SteamId.Steam3.{
  from_steam3, to_steam3, default_instance_for_account_type, read_type, from_steam3-to_steam3,
  from_steam3-to_steam3_swapped,
}
use go_steam.SteamId.Steam64.{from_steam64, to_steam64, in_pattern, from_steam64-to_steam64}
use go_steam.SteamId.Parse.Bounds.{from_string_lt}
use go_steam.SteamId.Parse.{is_space, from_string, string, from_string-string}

-- A public individual account, a clan with the instance 5, and a chat of a clan.
abbrev person : ℕ
person = 76561197960287930

abbrev clan : ℕ
clan = 103582812904359122

abbrev chat : ℕ
chat = 110338190870578386

person_type : account_type person ≡ type_individual
unfolding account_type get_bits
person_type = refl

person_universe : account_universe person ≡ universe_public
unfolding account_universe get_bits
person_universe = refl

person_instance : account_instance person ≡ 1
unfolding account_instance get_bits
person_instance = refl

clan_type : account_type clan ≡ type_clan
unfolding account_type get_bits
clan_type = refl

chat_type : account_type chat ≡ type_chat
unfolding account_type get_bits
chat_type = refl

chat_instance : account_instance chat ≡ account_instance_clan_mask
unfolding account_instance get_bits
chat_instance = refl

space_blank : is_space 32 ≡ true
unfolding is_space
space_blank = refl

newline_blank : is_space 10 ≡ true
unfolding is_space
newline_blank = refl

from_steam2-steam2_text_example : from_steam2 (steam2_text 0 1 11101) ≡ (
    if ltb 11101 (2 ^ 32)
    then ok (new_steam_id (11101 * 2 % 2 ^ 32 + 1) 1 (public_if_invalid 0) type_individual)
    else err steam2_number)
from_steam2-steam2_text_example =
    from_steam2-steam2_text 0 1 11101 (omega arith) (omega arith) (omega arith)

from_steam2-to_steam2_example : from_steam2 (to_steam2 clan) ≡ (
    if ltb 5 (account_universe clan)
    then err steam2_format
    else ok (
        new_steam_id
          (account_id clan)
          1
          (public_if_invalid (account_universe clan))
          type_individual))
from_steam2-to_steam2_example = from_steam2-to_steam2 clan (omega arith)

from_steam3-to_steam3_example : from_steam3 (to_steam3 chat) ≡ (
    if account_type chat == type_chat
    then err steam3_format
    else ok (
        new_steam_id
          (account_id chat)
          (default_instance_for_account_type (read_type (account_type chat)))
          (account_universe chat)
          (read_type (account_type chat))))
from_steam3-to_steam3_example = from_steam3-to_steam3 chat (omega arith)

from_steam3-to_steam3_swapped_example :
    (r : SteamId) × (from_steam3 (to_steam3 clan) ≡ ok r)
    × (account_id r ≡ account_id clan)
    × (account_instance r ≡ default_instance_for_account_type (account_type clan))
    × (account_type r ≡ account_universe clan)
    × (account_universe r ≡ account_type clan)
from_steam3-to_steam3_swapped_example =
    from_steam3-to_steam3_swapped clan (omega arith) (inr (inr (inr (inr clan_type))))

from_steam64-to_steam64_example :
    from_steam64 (to_steam64 person) ≡ (if in_pattern person then ok person else err steam64_format)
from_steam64-to_steam64_example = from_steam64-to_steam64 person (omega arith)

person_read : from_string (string person) ≡ ok person
person_read =
    from_string-string person (omega arith) (omega (arith, person_universe))
      (omega (arith, person_universe)) (inl (person_type, person_universe, person_instance))

from_string-string_example : from_string (string person) ≡ ok person
from_string-string_example =
    from_string-string person (omega arith) (omega (arith, person_universe))
      (omega (arith, person_universe)) (inl (person_type, person_universe, person_instance))

from_string_lt_example : person < 2 ^ 60
from_string_lt_example = from_string_lt (string person) person person_read
