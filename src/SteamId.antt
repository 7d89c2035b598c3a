-- ===== src/SteamId.antt =====
-- The package steamid: the 64-bit identifier, its bit fields and its conversions (steamid/steamid.go
-- and steamid/steamid_bits.go). A uint64, uint32 or uint8 is a natural number below 2^64, 2^32, 2^8.
pub mod Fields
pub mod Laws
pub mod Errors
pub mod Patterns
pub mod Steam2
pub mod Steam3
pub mod Steam64
pub mod Parse
mod Tests
use go_steam.Base.{ℕ, ◌-◌, ◌*◌, ◌/◌, ◌%◌, ◌^◌, ◌<◌, Bool, not, ◌&&◌, ◌==◌, if◌then◌else◌}
use Prim.Native.Nat.{bit_and, bit_or}

-- A SteamID is a uint64.
abbrev pub SteamId : Type 0
SteamId = ℕ

abbrev pub IsU64 : ℕ → Type 0
IsU64 n = n < 2 ^ 64

abbrev pub account_instance_clan_mask : ℕ
account_instance_clan_mask = 2 ^ 19

-- The account types that the code names.
abbrev pub type_invalid : ℕ
type_invalid = 0

abbrev pub type_individual : ℕ
type_individual = 1

abbrev pub type_anon_game_server : ℕ
type_anon_game_server = 4

abbrev pub type_content_server : ℕ
type_content_server = 6

abbrev pub type_clan : ℕ
type_clan = 7

abbrev pub type_chat : ℕ
type_chat = 8

abbrev pub universe_invalid : ℕ
universe_invalid = 0

abbrev pub universe_public : ℕ
universe_public = 1

-- The masks and offsets of the four fields.
abbrev account_id_mask : ℕ
account_id_mask = 0xffffffff

abbrev account_instance_mask : ℕ
account_instance_mask = 0xfffff

abbrev account_type_mask : ℕ
account_type_mask = 0xf

abbrev account_universe_mask : ℕ
account_universe_mask = 0xf

-- `(sid >> offset) & mask`
get_bits : SteamId → ℕ → ℕ → ℕ
get_bits sid mask offset = bit_and (sid / 2 ^ offset) mask

-- `(sid & ^(mask << offset)) | (value & mask) << offset`, in 64 bits.
set_bits : SteamId → ℕ → ℕ → ℕ → SteamId
set_bits sid value mask offset =
    bit_or (bit_and sid (2 ^ 64 - 1 - mask * 2 ^ offset % 2 ^ 64))
      (bit_and value mask * 2 ^ offset % 2 ^ 64)

pub account_id : SteamId → ℕ
account_id sid = get_bits sid account_id_mask 0 % 2 ^ 32

pub with_account_id : SteamId → ℕ → SteamId
with_account_id sid v = set_bits sid v account_id_mask 0

pub account_instance : SteamId → ℕ
account_instance sid = get_bits sid account_instance_mask 32 % 2 ^ 32

pub with_account_instance : SteamId → ℕ → SteamId
with_account_instance sid v = set_bits sid v account_instance_mask 32

pub account_type : SteamId → ℕ
account_type sid = get_bits sid account_type_mask 52 % 2 ^ 8

pub with_account_type : SteamId → ℕ → SteamId
with_account_type sid v = set_bits sid v account_type_mask 52

pub account_universe : SteamId → ℕ
account_universe sid = get_bits sid account_universe_mask 56 % 2 ^ 8

pub with_account_universe : SteamId → ℕ → SteamId
with_account_universe sid v = set_bits sid v account_universe_mask 56

pub new_steam_id : ℕ → ℕ → ℕ → ℕ → SteamId
new_steam_id id instance_ type_ universe =
    with_account_universe
      (with_account_type (with_account_instance (with_account_id 0 id) instance_) type_) universe

pub is_valid : SteamId → Bool
is_valid sid =
    not (account_universe sid == universe_invalid)
    && not (account_type sid == type_invalid)
    && not (account_id sid == 0)

pub convert_clan_to_chat : SteamId → SteamId
convert_clan_to_chat sid =
    if account_type sid == type_clan
    then with_account_instance (with_account_type sid type_chat) account_instance_clan_mask
    else sid

pub convert_chat_to_clan : SteamId → SteamId
convert_chat_to_clan sid =
    if not (account_type sid == type_chat)
    then sid
    else if not (account_instance sid == account_instance_clan_mask)
    then sid
    else with_account_instance (with_account_type sid type_clan) 0
