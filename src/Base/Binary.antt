-- ===== src/Base/Binary.antt =====
-- What the program uses of encoding/binary and of the byte readers: fixed-size integers written
-- and read in little-endian or big-endian order, and reads of an exact number of bytes.
use go_steam.Base.Tests.{if◌then◌else◌, ltb}
use go_steam.Base.Lists.{
  Bytes, length, take, drop, length-append, take-append, take-append-drop, length-take, drop-append,
  All, IsByte,
}
use go_steam.Base.Results.{Result, ok, err, ◌>>=◌}
use Prim.Native.Nat.{ℕ, zero, suc, ◌+◌, ◌*◌, ◌/◌, ◌%◌, ◌^◌, ◌<◌}
use mathlib.Core.Path.{◌≡◌, refl, ap}
use mathlib.Core.List.{[], ◌∷◌, ◌++◌}
use native.Mathlib.Nat.{pow-suc}
use native.Mathlib.Omega.{arith}

-- `io.EOF` when nothing was left to read, `io.ErrUnexpectedEOF` when too little was.
pub data ReadError : Type 0 where
  eof unexpected_eof : ReadError

-- The `n` bytes of an unsigned integer, lowest first.
pub le_bytes : ℕ → ℕ → Bytes
le_bytes zero v = []
le_bytes (suc n) v = (v % 256) ∷ le_bytes n (v / 256)

pub le_value : Bytes → ℕ
le_value [] = 0
le_value (b ∷ bs) = b + le_value bs * 256

-- The number that bytes spell, highest first, behind `acc`.
pub be_value : ℕ → Bytes → ℕ
be_value acc [] = acc
be_value acc (b ∷ bs) = be_value (acc * 256 + b) bs

-- `io.ReadFull(reader, buf)` with `len(buf) == n`: the bytes read and what is left.
unfoldable pub read_full : ℕ → Bytes → Result ReadError (Bytes × Bytes)
read_full zero r = ok ([], r)
read_full (suc n) [] = err eof
read_full (suc n) (b ∷ r) =
    if ltb (length r) n then err unexpected_eof else ok (b ∷ take n r, drop n r)

-- `binary.Read(reader, binary.LittleEndian, &v)` for an unsigned `v` of `n` bytes.
unfoldable pub read_le : ℕ → Bytes → Result ReadError (ℕ × Bytes)
unfolding read_full le_value
read_le n r = do (bs, rest) ← read_full n r; ok (le_value bs, rest)

pub length-le_bytes : (n v : ℕ) → length (le_bytes n v) ≡ n
unfolding le_bytes
length-le_bytes zero v = refl
length-le_bytes (suc n) v = ap suc (length-le_bytes n (v / 256))

pub le_bytes-IsByte : (n v : ℕ) → All IsByte (le_bytes n v)
unfolding le_bytes
le_bytes-IsByte zero v = tt
le_bytes-IsByte (suc n) v = (omega arith, le_bytes-IsByte n (v / 256))

pub le_value-le_bytes : (n v : ℕ) → v < 256 ^ n → le_value (le_bytes n v) ≡ v
unfolding le_value le_bytes
le_value-le_bytes zero v h = omega arith
le_value-le_bytes (suc n) v h =
    omega (arith, le_value-le_bytes n (v / 256) (omega (arith, pow-suc 256 n)))

pub le_value-lt : (bs : Bytes) → All IsByte bs → le_value bs < 256 ^ length bs
unfolding le_value
le_value-lt [] h = omega arith
le_value-lt (b ∷ bs) (hb, hbs) = omega (arith, le_value-lt bs hbs, pow-suc 256 (length bs))

-- Bytes that are read as an integer are written back unchanged.
pub le_bytes-le_value : (bs : Bytes) → All IsByte bs → le_bytes (length bs) (le_value bs) ≡ bs
unfolding le_bytes le_value
le_bytes-le_value [] h = refl
le_bytes-le_value (b ∷ bs) (hb, hbs) =
    let low : (b + le_value bs * 256) % 256 ≡ b = omega arith in
    let high : (b + le_value bs * 256) / 256 ≡ le_value bs = omega arith in
    rw (low, high, le_bytes-le_value bs hbs)

-- An exact read of the front part of the input.
pub read_full-append :
    (n : ℕ) (bs rest : Bytes) → length bs ≡ n → read_full n (bs ++ rest) ≡ ok (bs, rest)
unfolding read_full
read_full-append zero [] rest h = refl
read_full-append zero (b ∷ bs) rest h = absurd (omega arith)
read_full-append (suc n) [] rest h = absurd (omega arith)
read_full-append (suc n) (b ∷ bs) rest h = ground (
  arith,
  length-append bs rest,
  take-append n bs rest (omega arith),
  drop-append n bs rest (omega arith),
)

-- What an exact read returns joins to the input, and has the length asked for.
pub read_full_split :
    (n : ℕ) (r bs rest : Bytes) → read_full n r ≡ ok (bs, rest) → (r ≡ bs ++ rest) × (length bs ≡ n)
unfolding read_full
read_full_split zero r bs rest h = ground arith
read_full_split (suc n) [] bs rest h = cc
read_full_split (suc n) (b ∷ r) bs rest h = ground (arith, take-append-drop n r, length-take n r)

-- An integer that was written is read back, and what follows it is left.
pub read_le-le_bytes :
    (n v : ℕ) (rest : Bytes) → v < 256 ^ n → read_le n (le_bytes n v ++ rest) ≡ ok (v, rest)
unfolding read_le
read_le-le_bytes n v rest h =
    rw (read_full-append n (le_bytes n v) rest (length-le_bytes n v), le_value-le_bytes n v h)

-- A read that finds fewer bytes than it needs fails.
pub read_full_short : (n : ℕ) (r : Bytes) → length r < n → (e : ReadError) × (read_full n r ≡ err e)
unfolding read_full
read_full_short zero r h = absurd (omega arith)
read_full_short (suc n) [] h = (eof, refl)
read_full_short (suc n) (b ∷ r) h = (unexpected_eof, ground arith)
