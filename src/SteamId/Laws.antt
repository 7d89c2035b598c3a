-- ===== src/SteamId/Laws.antt =====
-- What the getters, setters, constructor and conversions of a SteamID promise together.
use go_steam.Base.{ℕ, zero, suc, true, false, ◌==◌, ◌+◌, ◌*◌, ◌/◌, ◌%◌, ◌^◌, ◌<◌, ◌≡◌, arith}
use go_steam.SteamId.{
  SteamId, IsU64, account_id, with_account_id, account_instance, with_account_instance,
  account_type, with_account_type, account_universe, with_account_universe, new_steam_id, type_clan,
  type_chat, account_instance_clan_mask, is_valid, convert_clan_to_chat, convert_chat_to_clan,
}
use go_steam.SteamId.Fields.{
  account_id-eq, account_instance-eq, account_type-eq, account_universe-eq, with_account_id-eq,
  with_account_instance-eq, with_account_type-eq, with_account_universe-eq, new_steam_id-eq,
}

-- A uint64 with these four fields, and with `top` in the four bits above them.
pub record HasFields (sid id instance_ type_ universe top : ℕ) : Type 0 where
  pub is_u64 : sid < 2 ^ 64
  pub id_eq : account_id sid ≡ id
  pub instance_eq : account_instance sid ≡ instance_
  pub type_eq : account_type sid ≡ type_
  pub universe_eq : account_universe sid ≡ universe
  pub top_eq : sid / 2 ^ 60 ≡ top

ruleset getters = (arith, account_id-eq, account_instance-eq, account_type-eq, account_universe-eq)

-- Each setter writes the low bits of the value to its own field, and leaves the three other fields
-- and the four unused bits as they were.
pub setters_frame :
    (sid v : ℕ)
    → IsU64 sid
    → HasFields
        (with_account_id sid v)
        (v % 2 ^ 32)
        (account_instance sid)
        (account_type sid)
        (account_universe sid)
        (sid / 2 ^ 60)
      × HasFields
          (with_account_instance sid v)
          (account_id sid)
          (v % 2 ^ 20)
          (account_type sid)
          (account_universe sid)
          (sid / 2 ^ 60)
      × HasFields
          (with_account_type sid v)
          (account_id sid)
          (account_instance sid)
          (v % 2 ^ 4)
          (account_universe sid)
          (sid / 2 ^ 60)
      × HasFields
          (with_account_universe sid v)
          (account_id sid)
          (account_instance sid)
          (account_type sid)
          (v % 2 ^ 4)
          (sid / 2 ^ 60)
setters_frame sid v h = (
  omega (getters, with_account_id-eq sid v h),
  omega (getters, with_account_instance-eq sid v h),
  omega (getters, with_account_type-eq sid v h),
  omega (getters, with_account_universe-eq sid v h),
)

-- `NewSteamID` stores the low 32, 20, 4 and 4 bits of its four arguments, each in its own field, and
-- leaves the four bits above them zero.
pub new_steam_id-HasFields :
    (id instance_ type_ universe : ℕ)
    → HasFields
        (new_steam_id id instance_ type_ universe)
        (id % 2 ^ 32)
        (instance_ % 2 ^ 20)
        (type_ % 2 ^ 4)
        (universe % 2 ^ 4)
        0
new_steam_id-HasFields a i t u = omega (getters, new_steam_id-eq a i t u)

-- A SteamID with its four unused bits clear is built again by `NewSteamID` from its own fields.
pub new_steam_id_of_fields :
    (sid : SteamId)
    → sid < 2 ^ 60
    → new_steam_id (account_id sid) (account_instance sid) (account_type sid) (account_universe sid)
      ≡ sid
new_steam_id_of_fields sid h = omega (
  getters,
  new_steam_id-eq (account_id sid) (account_instance sid) (account_type sid) (account_universe sid),
)

retyped-eq :
    (sid t i : ℕ)
    → IsU64 sid
    → with_account_instance (with_account_type sid t) i
      ≡ sid / 2 ^ 56 * 2 ^ 56 + t % 2 ^ 4 * 2 ^ 52 + i % 2 ^ 20 * 2 ^ 32 + sid % 2 ^ 32
retyped-eq sid t i h =
    let typed = with_account_type-eq sid t h in
    omega
      (arith, typed, with_account_instance-eq (with_account_type sid t) i (omega (arith, typed)))

abbrev retyped : SteamId → ℕ → ℕ → SteamId
retyped sid t i = with_account_instance (with_account_type sid t) i

retyped-HasFields :
    (sid t i : ℕ)
    → IsU64 sid
    → HasFields
        (retyped sid t i)
        (account_id sid)
        (i % 2 ^ 20)
        (t % 2 ^ 4)
        (account_universe sid)
        (sid / 2 ^ 60)
retyped-HasFields sid t i h = omega (getters, retyped-eq sid t i h)

-- A clan SteamID turned into a chat and back has lost its instance, and nothing else.
convert_chat_to_clan-convert_clan_to_chat :
    (sid : SteamId)
    → IsU64 sid
    → account_type sid ≡ type_clan
    → (convert_chat_to_clan (convert_clan_to_chat sid) ≡ with_account_instance sid 0)
unfolding convert_chat_to_clan convert_clan_to_chat
convert_chat_to_clan-convert_clan_to_chat sid h clan =
    let chat = retyped sid type_chat account_instance_clan_mask in
    let fields = retyped-HasFields sid type_chat account_instance_clan_mask h in
    let back : retyped chat type_clan 0 ≡ with_account_instance sid 0 = omega (
      getters,
      clan,
      retyped-eq sid type_chat account_instance_clan_mask h,
      retyped-eq chat type_clan 0 fields.is_u64,
      with_account_instance-eq sid 0 h,
    ) in
    rw clan (rw (fields.type_eq, fields.instance_eq) back)

-- A chat SteamID that belongs to a clan, turned into the clan and back, is itself again.
convert_clan_to_chat-convert_chat_to_clan :
    (sid : SteamId)
    → IsU64 sid
    → account_type sid ≡ type_chat
    → account_instance sid ≡ account_instance_clan_mask
    → convert_clan_to_chat (convert_chat_to_clan sid) ≡ sid
unfolding convert_chat_to_clan convert_clan_to_chat
convert_clan_to_chat-convert_chat_to_clan sid h chat mask =
    let clan = retyped sid type_clan 0 in
    let fields = retyped-HasFields sid type_clan 0 h in
    let back : retyped clan type_chat account_instance_clan_mask ≡ sid = omega (
      getters,
      retyped-eq sid type_clan 0 h,
      retyped-eq clan type_chat account_instance_clan_mask fields.is_u64,
    ) in
    rw (chat, mask) (rw fields.type_eq back)

-- The SteamID 0 is not valid.
pub is_valid-nonzero : (sid : SteamId) → is_valid sid ≡ true → (sid == 0) ≡ false
unfolding is_valid
is_valid-nonzero zero h = ground (arith, account_universe-eq 0)
is_valid-nonzero (suc sid) h = ground arith

pub is_valid_of :
    (sid : SteamId)
    → 0 < account_universe sid
    → 0 < account_type sid
    → 0 < account_id sid
    → is_valid sid ≡ true
unfolding is_valid
is_valid_of sid universe type_ id = ground arith

-- `NewSteamID` leaves the four bits above the universe clear.
pub new_steam_id-lt :
    (id instance_ type_ universe : ℕ) → new_steam_id id instance_ type_ universe < 2 ^ 60
new_steam_id-lt id instance_ type_ universe =
    omega (arith, (new_steam_id-HasFields id instance_ type_ universe).top_eq)
