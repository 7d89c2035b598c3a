-- ===== src/Crypto/Pkcs7.antt =====
-- crypto/pkcs7.go
use go_steam.Base.{
  ℕ, zero, suc, ◌+◌, ◌-◌, ◌%◌, ◌<◌, Bool, true, ◌&&◌, ◌||◌, not, [], ◌∷◌, ◌++◌, ◌≡◌, refl, ap, ◌∙◌,
  Bytes, length, take, drop, replicate, length-append, All, IsByte, All-append, length-replicate,
  take-append, drop-append, take-append-drop, length-drop, length-take, ltb, ◌==◌, if◌then◌else◌,
  arith,
}
use go_steam.Base.Results.{Result, ok, err}
use go_steam.Crypto.Primitives.{CryptoError, padded_data, padding, block_size}

-- `byte(pad)`, `pad` times.
pub pkcs7_pad : Bytes → ℕ → Bytes
pkcs7_pad s size = let pad = size - length s % size in s ++ replicate pad (pad % 256)

-- The last byte, `data[len(data)-1]`.
last_byte : Bytes → ℕ
last_byte [] = 0
last_byte (b ∷ []) = b
last_byte (b ∷ c ∷ s) = last_byte (c ∷ s)

-- The loop that compares each byte of the padding.
all_equal : ℕ → Bytes → Bool
all_equal p [] = true
all_equal p (b ∷ s) = b == p && all_equal p s

pub pkcs7_unpad : Bytes → ℕ → Result CryptoError Bytes
pkcs7_unpad s size =
    let pad = last_byte s in
    if length s == 0 || not (length s % size == 0)
    then err padded_data
    else if pad == 0 || ltb size pad
    then err padding
    else if all_equal (pad % 256) (drop (length s - pad) s)
    then ok (take (length s - pad) s)
    else err padding

all_equal-replicate : (n p : ℕ) → all_equal p (replicate n p) ≡ true
unfolding all_equal
all_equal-replicate zero p = refl
all_equal-replicate (suc n) p = ground (arith, all_equal-replicate n p)

replicate-all_equal : (p : ℕ) (s : Bytes) → all_equal p s ≡ true → s ≡ replicate (length s) p
unfolding all_equal
replicate-all_equal p [] h = refl
replicate-all_equal p (b ∷ s) h = ground (arith, replicate-all_equal p s)

last_byte-append : (s t : Bytes) → 0 < length t → last_byte (s ++ t) ≡ last_byte t
unfolding last_byte
last_byte-append [] t h = refl
last_byte-append (b ∷ []) [] h = absurd (omega arith)
last_byte-append (b ∷ []) (c ∷ t) h = refl
last_byte-append (b ∷ c ∷ s) t h = last_byte-append (c ∷ s) t h

last_byte-replicate : (n p : ℕ) → last_byte (replicate (suc n) p) ≡ p
unfolding last_byte
last_byte-replicate zero p = refl
last_byte-replicate (suc n) p = last_byte-replicate n p

-- The padded length is the next multiple of the block size.
pub length-pkcs7_pad :
    (s : Bytes) → length (pkcs7_pad s block_size) ≡ length s + (16 - length s % 16)
unfolding pkcs7_pad
length-pkcs7_pad s =
    length-append s _ ∙ ap (λ (n : ℕ). length s + n) (length-replicate (16 - length s % 16) _)

-- Removing `n` bytes of padding of value `n`, for `n` from 1 to 16, from whole blocks.
unpad_padded :
    (s : Bytes) (n : ℕ)
    → n < 16
    → (length s + suc n) % 16 ≡ 0
    → pkcs7_unpad (s ++ replicate (suc n) (suc n)) block_size ≡ ok s
unfolding pkcs7_unpad
unpad_padded s n h whole = ground (
  arith,
  length-append s (replicate (suc n) (suc n)),
  length-replicate (suc n) (suc n),
  last_byte-append s (replicate (suc n) (suc n)) (omega arith),
  last_byte-replicate n (suc n),
  all_equal-replicate (suc n) (suc n),
  drop-append (length s) s (replicate (suc n) (suc n)) refl,
  take-append (length s) s (replicate (suc n) (suc n)) refl,
)

-- Unpadding gives back what was padded, to blocks of 16 bytes.
pub pkcs7_unpad-pkcs7_pad : (s : Bytes) → pkcs7_unpad (pkcs7_pad s block_size) block_size ≡ ok s
unfolding pkcs7_pad
pkcs7_unpad-pkcs7_pad s =
    let n = 15 - length s % 16 in
    let count : 16 - length s % 16 ≡ suc n = omega arith in
    let value : (16 - length s % 16) % 256 ≡ suc n = omega arith in
    rw (value, count) (unpad_padded s n (omega arith) (omega arith))

-- What unpadding accepts is exactly the padding of its result: whole blocks of 16 bytes that end in
-- 1 to 16 bytes of the value of their number.
pub pkcs7_unpad_sound :
    (data_ s : Bytes) → pkcs7_unpad data_ block_size ≡ ok s → data_ ≡ pkcs7_pad s block_size
unfolding pkcs7_unpad pkcs7_pad
pkcs7_unpad_sound d s h =
    let p = last_byte d in
    let k = length d - p in
    ground (
      arith,
      take-append-drop k d,
      length-take k d,
      length-drop k d,
      replicate-all_equal (p % 256) (drop k d),
    )

replicate-IsByte : (n b : ℕ) → b < 256 → All IsByte (replicate n b)
replicate-IsByte zero b h = tt
replicate-IsByte (suc n) b h = (h, replicate-IsByte n b h)

pub pkcs7_pad-IsByte : (s : Bytes) → All IsByte s → All IsByte (pkcs7_pad s block_size)
unfolding pkcs7_pad
pkcs7_pad-IsByte s h = All-append IsByte s _ h (replicate-IsByte _ _ (omega arith))
