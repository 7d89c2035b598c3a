-- ===== src/SteamId/Fields.antt =====
-- The bit fields of a SteamID in plain arithmetic: what the getters read and the setters write.
use go_steam.Base.{ℕ, ◌+◌, ◌-◌, ◌*◌, ◌/◌, ◌%◌, ◌^◌, ◌<◌, ◌≡◌, arith, ◌∙◌}
use go_steam.Base.Bits.{bit_and_mask, replace_bits}
use go_steam.SteamId.{
  SteamId, IsU64, get_bits, set_bits, account_id, with_account_id, account_instance,
  with_account_instance, account_type, with_account_type, account_universe, with_account_universe,
  new_steam_id,
}
use Prim.Native.Nat.{bit_and, bit_or}

-- A getter shifts and takes a remainder.
pub account_id-eq : (sid : SteamId) → account_id sid ≡ sid % 2 ^ 32
unfolding account_id get_bits
account_id-eq sid = omega (arith, bit_and_mask 32 (sid / 2 ^ 0))

pub account_instance-eq : (sid : SteamId) → account_instance sid ≡ sid / 2 ^ 32 % 2 ^ 20
unfolding account_instance get_bits
account_instance-eq sid = omega (arith, bit_and_mask 20 (sid / 2 ^ 32))

pub account_type-eq : (sid : SteamId) → account_type sid ≡ sid / 2 ^ 52 % 2 ^ 4
unfolding account_type get_bits
account_type-eq sid = omega (arith, bit_and_mask 4 (sid / 2 ^ 52))

pub account_universe-eq : (sid : SteamId) → account_universe sid ≡ sid / 2 ^ 56 % 2 ^ 4
unfolding account_universe get_bits
account_universe-eq sid = omega (arith, bit_and_mask 4 (sid / 2 ^ 56))

-- `replace_bits` for a word, a mask and a shifted value that are written in another way.
replace_field :
    (o w h hi mid lo v : ℕ) {sid keep put : ℕ}
    → (hi * 2 ^ w + mid) * 2 ^ o + lo ≡ sid
    → ((2 ^ h - 1) * 2 ^ w + 0) * 2 ^ o + (2 ^ o - 1) ≡ keep
    → (0 * 2 ^ w + v) * 2 ^ o + 0 ≡ put
    → lo < 2 ^ o
    → mid < 2 ^ w
    → v < 2 ^ w
    → hi < 2 ^ h
    → bit_or (bit_and sid keep) put ≡ (hi * 2 ^ w + v) * 2 ^ o + lo
replace_field o w h hi mid lo v whole kept shifted hlo hmid hv hhi =
    rw (whole, kept, shifted) at (replace_bits o w h hi mid lo v hlo hmid hv hhi)

-- A setter replaces its field by the low bits of the value, and keeps all the others.
pub with_account_id-eq :
    (sid : SteamId) (v : ℕ) → IsU64 sid → with_account_id sid v ≡ sid / 2 ^ 32 * 2 ^ 32 + v % 2 ^ 32
unfolding with_account_id set_bits
with_account_id-eq sid v h =
    replace_field 0 32 32 (sid / 2 ^ 32) (sid % 2 ^ 32) 0 (v % 2 ^ 32) (omega arith) (omega arith)
      (omega (arith, bit_and_mask 32 v)) (omega arith) (omega arith) (omega arith) (omega arith)
    ∙ omega arith

pub with_account_instance-eq :
    (sid : SteamId) (v : ℕ)
    → IsU64 sid
    → with_account_instance sid v ≡ (sid / 2 ^ 52 * 2 ^ 20 + v % 2 ^ 20) * 2 ^ 32 + sid % 2 ^ 32
unfolding with_account_instance set_bits
with_account_instance-eq sid v h =
    replace_field 32 20 12 (sid / 2 ^ 52) (sid / 2 ^ 32 % 2 ^ 20) (sid % 2 ^ 32) (v % 2 ^ 20)
      (omega arith) (omega arith) (omega (arith, bit_and_mask 20 v)) (omega arith) (omega arith)
      (omega arith) (omega arith)

pub with_account_type-eq :
    (sid : SteamId) (v : ℕ)
    → IsU64 sid
    → with_account_type sid v ≡ (sid / 2 ^ 56 * 2 ^ 4 + v % 2 ^ 4) * 2 ^ 52 + sid % 2 ^ 52
unfolding with_account_type set_bits
with_account_type-eq sid v h =
    replace_field 52 4 8 (sid / 2 ^ 56) (sid / 2 ^ 52 % 2 ^ 4) (sid % 2 ^ 52) (v % 2 ^ 4)
      (omega arith) (omega arith) (omega (arith, bit_and_mask 4 v)) (omega arith) (omega arith)
      (omega arith) (omega arith)

pub with_account_universe-eq :
    (sid : SteamId) (v : ℕ)
    → IsU64 sid
    → with_account_universe sid v ≡ (sid / 2 ^ 60 * 2 ^ 4 + v % 2 ^ 4) * 2 ^ 56 + sid % 2 ^ 56
unfolding with_account_universe set_bits
with_account_universe-eq sid v h =
    replace_field 56 4 4 (sid / 2 ^ 60) (sid / 2 ^ 56 % 2 ^ 4) (sid % 2 ^ 56) (v % 2 ^ 4)
      (omega arith) (omega arith) (omega (arith, bit_and_mask 4 v)) (omega arith) (omega arith)
      (omega arith) (omega arith)

-- `NewSteamID` as a sum of its parts.
pub new_steam_id-eq :
    (a i t u : ℕ)
    → new_steam_id a i t u
      ≡ a % 2 ^ 32 + i % 2 ^ 20 * 2 ^ 32 + t % 2 ^ 4 * 2 ^ 52 + u % 2 ^ 4 * 2 ^ 56
unfolding new_steam_id
new_steam_id-eq a i t u =
    let s0 = with_account_id-eq 0 a (omega arith) in
    let s1 = with_account_instance-eq (with_account_id 0 a) i (omega (arith, s0)) in
    let s2 =
      with_account_type-eq (with_account_instance (with_account_id 0 a) i) t
        (omega (arith, s0, s1)) in
    let s3 =
      with_account_universe-eq (with_account_type (with_account_instance (with_account_id 0 a) i) t)
        u (omega (arith, s0, s1, s2)) in
    omega (arith, s0, s1, s2, s3)
