-- ===== src/SteamId/Steam2.antt =====
-- steamid/steamid_2.go: the format STEAM_X:Y:Z.
pub mod Bounds
use go_steam.Base.{
  ℕ, ◌+◌, ◌*◌, ◌/◌, ◌%◌, ◌^◌, ◌≤◌, ◌<◌, some, none, [], ◌∷◌, ◌++◌, ◌≡◌, refl, ap, Bytes, codes, ltb,
  ltb→lt, lt→ltb, ◌==◌, ◌⊎◌, ◌≢◌, if◌then◌else◌, arith, ◌∙◌, inl, inr, Bool-cases,
}
use go_steam.Base.Bits.{bit_and_mask, bit_or_cut, bit_or-zero_left, bit_or-zero_right}
use go_steam.Base.Results.{Result, ok, err, or_err, ◌>>=◌}
use go_steam.Base.Decimal.{
  parse_uint, parse_uint-format_uint_fits, format_uint, all_digits-eq-true, parse_uint-format_uint,
  format_uint_small, format_uint_two, format_uint-IsDigit, length-format_uint,
}
use go_steam.SteamId.{
  SteamId, IsU64, account_id, account_instance, account_type, account_universe, new_steam_id,
  type_individual, universe_invalid, universe_public,
}
use go_steam.SteamId.Fields.{account_id-eq, account_universe-eq}
use go_steam.SteamId.Laws.{new_steam_id-HasFields, new_steam_id_of_fields}
use go_steam.SteamId.Errors.{
  ParseError, steam2_format, steam2_universe, steam2_server, steam2_number,
}
use go_steam.SteamId.Patterns.{Steam2Match, steam2_submatch, steam2_tail, non_empty-eq-true}
use Prim.Native.Nat.{bit_and, bit_or}

-- The universe STEAM_0 means the public one.
pub public_if_invalid : ℕ → ℕ
public_if_invalid universe = if universe == universe_invalid then universe_public else universe

-- `NewSteamID` is called with the universe in the place of the type, and the type in the place of
-- the universe, as in the source.
steam2_id : ℕ → ℕ → ℕ → SteamId
steam2_id universe server number =
    new_steam_id (bit_or (number % 2 ^ 32 * 2 ^ 1 % 2 ^ 32) (server % 2 ^ 32)) 1
      (public_if_invalid universe % 2 ^ 8) type_individual

-- The captures have no sign, so `ParseInt(s, 10, 8)` reads them as `ParseUint` does in 7 bits.
pub from_steam2 : Bytes → Result ParseError SteamId
from_steam2 input = do
  m ← or_err (steam2_submatch input) steam2_format
  universe ← or_err (parse_uint 7 m.universe) steam2_universe
  server ← or_err (parse_uint 32 m.server) steam2_server
  number ← or_err (parse_uint 32 m.number) steam2_number
  ok (steam2_id universe server number)

-- STEAM_X:Y:Z from its three numbers.
pub steam2_text : ℕ → ℕ → ℕ → Bytes
steam2_text x y z =
    codes "STEAM_" ++ (format_uint x ++ b':' ∷ (format_uint y ++ b':' ∷ format_uint z))

pub to_steam2 : SteamId → Bytes
to_steam2 sid =
    steam2_text (public_if_invalid (account_universe sid)) (bit_and (account_id sid) 1)
      (account_id sid / 2 ^ 1)

-- The match of a printed text with one-digit universe and server.
steam2_tail_text :
    (x y z : ℕ)
    → x ≤ 5
    → y ≤ 1
    → steam2_tail (format_uint x ++ b':' ∷ (format_uint y ++ b':' ∷ format_uint z))
      ≡ some (record { universe = format_uint x; server = format_uint y; number = format_uint z })
unfolding steam2_tail
steam2_tail_text x y z hx hy =
    rw (format_uint_small x (omega arith), format_uint_small y (omega arith))
      (ground (
        arith,
        all_digits-eq-true (format_uint z) (format_uint-IsDigit z),
        non_empty-eq-true (format_uint z) (length-format_uint z).0,
      ))

steam2_tail-none : (u c : ℕ) (s : Bytes) → (b'5' < u) ⊎ (c ≢ b':') → steam2_tail (u ∷ c ∷ s) ≡ none
unfolding steam2_tail
steam2_tail-none u c [] h = refl
steam2_tail-none u c (y ∷ []) h = refl
steam2_tail-none u c (y ∷ d ∷ number) h = ground arith

-- A universe above 5 does not match.
steam2_tail_large :
    (x : ℕ) (rest : Bytes) → 5 < x → x < 100 → steam2_tail (format_uint x ++ b':' ∷ rest) ≡ none
steam2_tail_large x rest hx hy = elim (Bool-cases (ltb x 10)) [
  | inl one ↦
      rw (format_uint_small x (ltb→lt x 10 one)) (steam2_tail-none _ _ rest (inl (omega arith)))
  | inr two ↦
      rw (format_uint_two x (ground arith) hy)
        (steam2_tail-none _ _ (b':' ∷ rest) (inr (omega arith)))
]

-- The account number is shifted in 32 bits, and the server bit put below it.
low_bit : (n y : ℕ) → y ≤ 1 → bit_or (n % 2 ^ 32 * 2 ^ 1 % 2 ^ 32) (y % 2 ^ 32) ≡ n * 2 % 2 ^ 32 + y
low_bit n y h =
    let high : n % 2 ^ 31 * 2 ^ 1 + 0 ≡ n % 2 ^ 32 * 2 ^ 1 % 2 ^ 32 = omega arith in
    let low : 0 * 2 ^ 1 + y ≡ y % 2 ^ 32 = omega arith in
    let joined = rw (high, low) at (bit_or_cut 1 (n % 2 ^ 31) 0 0 y (omega arith) (omega arith)) in
    joined ∙ rw (bit_or-zero_right, bit_or-zero_left) (omega arith)

steam2_submatch-steam2_text :
    (x y z : ℕ)
    → steam2_submatch (steam2_text x y z)
      ≡ steam2_tail (format_uint x ++ b':' ∷ (format_uint y ++ b':' ∷ format_uint z))
unfolding steam2_submatch steam2_text
steam2_submatch-steam2_text x y z = refl

steam2_id-eq :
    (x y z : ℕ)
    → x ≤ 5
    → y ≤ 1
    → steam2_id x y z ≡ new_steam_id (z * 2 % 2 ^ 32 + y) 1 (public_if_invalid x) type_individual
unfolding steam2_id
steam2_id-eq x y z hx hy = rw (low_bit z y hy, byte)
  where
    byte : public_if_invalid x % 2 ^ 8 ≡ public_if_invalid x
    byte = unfold public_if_invalid in ground arith

-- What `FromSteam2` makes of STEAM_X:Y:Z, for X up to 5, Y up to 1 and any 64-bit Z: with Z in 32
-- bits the account id is 2 * Z + Y modulo 2^32, X lands in the account type (0 as 1), and the
-- universe is public; a larger Z is an error.
pub from_steam2-steam2_text :
    (x y z : ℕ)
    → x ≤ 5
    → y ≤ 1
    → z < 2 ^ 64
    → from_steam2 (steam2_text x y z) ≡ (
        if ltb z (2 ^ 32)
        then ok (new_steam_id (z * 2 % 2 ^ 32 + y) 1 (public_if_invalid x) type_individual)
        else err steam2_number)
unfolding from_steam2
from_steam2-steam2_text x y z hx hy hz =
    rw
      (
        steam2_submatch-steam2_text x y z,
        steam2_tail_text x y z hx hy,
        parse_uint-format_uint_fits 7 x (omega arith) (omega arith),
        parse_uint-format_uint_fits 32 y (omega arith) (omega arith),
        parse_uint-format_uint 32 z (omega arith),
      )
      (elim (Bool-cases (ltb z (2 ^ 32))) [
        | inl fits ↦ rw fits (ap ok (steam2_id-eq x y z hx hy))
        | inr large ↦ rw large
      ])

from_steam2_large :
    (x y z : ℕ) → 5 < x → x < 100 → from_steam2 (steam2_text x y z) ≡ err steam2_format
unfolding from_steam2
from_steam2_large x y z hx hy = rw (steam2_submatch-steam2_text x y z, steam2_tail_large x _ hx hy)

steam2_id_fields :
    (x y z : ℕ)
    → (account_universe (steam2_id x y z) ≡ universe_public)
      × (account_instance (steam2_id x y z) ≡ 1)
unfolding steam2_id
steam2_id_fields x y z =
    let fields =
      new_steam_id-HasFields (bit_or (z % 2 ^ 32 * 2 ^ 1 % 2 ^ 32) (y % 2 ^ 32)) 1
        (public_if_invalid x % 2 ^ 8) type_individual in
    (fields.universe_eq, fields.instance_eq)

-- Whatever `FromSteam2` accepts has the universe Public and the instance 1, whatever universe the
-- text names.
from_steam2_fields :
    (input : Bytes) (sid : SteamId)
    → from_steam2 input ≡ ok sid
    → (account_universe sid ≡ universe_public) × (account_instance sid ≡ 1)
unfolding from_steam2
from_steam2_fields input sid h = grind (arith, steam2_id_fields)

public_if_invalid_above : (u : ℕ) → 5 < u → public_if_invalid u ≡ u
unfolding public_if_invalid
public_if_invalid_above u h = ground arith

public_if_invalid_idem : (u : ℕ) → public_if_invalid (public_if_invalid u) ≡ public_if_invalid u
unfolding public_if_invalid
public_if_invalid_idem u = ground arith

public_if_invalid_le : (u : ℕ) → u ≤ 5 → public_if_invalid u ≤ 5
unfolding public_if_invalid
public_if_invalid_le u h = ground arith

-- Reading back what `ToSteam2` printed: an error where the universe is above 5; else the account id
-- is kept, the instance becomes 1, the universe Public, and the universe (0 as 1) the account type.
pub from_steam2-to_steam2 :
    (sid : SteamId)
    → IsU64 sid
    → from_steam2 (to_steam2 sid) ≡ (
        if ltb 5 (account_universe sid)
        then err steam2_format
        else ok (
            new_steam_id
              (account_id sid)
              1
              (public_if_invalid (account_universe sid))
              type_individual))
unfolding to_steam2
from_steam2-to_steam2 sid h =
    let x = public_if_invalid (account_universe sid) in
    let y = bit_and (account_id sid) 1 in
    let z = account_id sid / 2 ^ 1 in
    let y_eq : y ≡ account_id sid % 2 = bit_and_mask 1 (account_id sid) in
    let id_eq = account_id-eq sid in
    let whole : z * 2 % 2 ^ 32 + y ≡ account_id sid = omega arith in
    elim (Bool-cases (ltb 5 (account_universe sid))) [
      | inl large ↦
          let above = ltb→lt 5 (account_universe sid) large in
          let same = public_if_invalid_above (account_universe sid) above in
          let fits : x < 100 = omega (arith, account_universe-eq sid) in
          rw (from_steam2_large x y z (rw same above) fits, large)
      | inr small ↦ rw (
        from_steam2-steam2_text x y z (public_if_invalid_le (account_universe sid) (ground arith))
            (omega arith) (omega arith),
        lt→ltb z (2 ^ 32) (omega arith),
        small,
        whole,
        public_if_invalid_idem (account_universe sid),
      )
    ]

-- A public individual account with instance 1 and no unused bits is read back from its Steam2 print.
pub from_steam2-to_steam2_public :
    (sid : SteamId)
    → sid < 2 ^ 60
    → account_universe sid ≡ universe_public
    → account_type sid ≡ type_individual
    → account_instance sid ≡ 1
    → from_steam2 (to_steam2 sid) ≡ ok sid
from_steam2-to_steam2_public sid h universe type_ instance_ =
    let built = new_steam_id_of_fields sid h in
    let same : public_if_invalid 1 ≡ 1 = unfold public_if_invalid in refl in
    from_steam2-to_steam2 sid (omega arith)
    ∙ rw universe (rw same (ap ok (rw (universe, type_, instance_) at built)))

-- The shape of what `ToSteam2` prints, and of what `FromSteam2` accepts.
pub to_steam2_shape :
    (sid : SteamId)
    → (x : ℕ) × (y : ℕ) × (z : ℕ) × (to_steam2 sid
        ≡ codes "STEAM_" ++ (format_uint x ++ b':' ∷ (format_uint y ++ b':' ∷ format_uint z)))
unfolding to_steam2 steam2_text
to_steam2_shape sid = (
  public_if_invalid (account_universe sid),
  bit_and (account_id sid) 1,
  account_id sid / 2 ^ 1,
  refl,
)

pub from_steam2_matches :
    (s : Bytes) {sid : SteamId}
    → from_steam2 s ≡ ok sid
    → (m : Steam2Match) × (steam2_submatch s ≡ some m)
unfolding from_steam2
from_steam2_matches s h = ground arith
