-- ===== src/Crypto/Cbc.antt =====
-- cipher.NewCBCEncrypter and cipher.NewCBCDecrypter over whole blocks, and the block loop of
-- `SymmetricDecryptECB` (crypto/decrypt.go).
use go_steam.Base.{
  ℕ, zero, suc, ◌*◌, [], ◌∷◌, ◌++◌, ◌≡◌, refl, Bytes, length, take, drop, length-append,
  take-append, drop-append, take-append-drop, length-take, length-drop, All, IsByte, arith,
}
use go_steam.Base.Bits.{bit_xor-lt, bit_xor_twice}
use go_steam.Crypto.Primitives.{Primitives}
use Prim.Native.Nat.{bit_xor}

pub xor_bytes : Bytes → Bytes → Bytes
xor_bytes [] k = []
xor_bytes (b ∷ s) [] = []
xor_bytes (b ∷ s) (x ∷ k) = bit_xor b x ∷ xor_bytes s k

length-xor_bytes : (s k : Bytes) → length s ≡ length k → length (xor_bytes s k) ≡ length s
unfolding xor_bytes
length-xor_bytes [] k h = refl
length-xor_bytes (b ∷ s) [] h = absurd (omega arith)
length-xor_bytes (b ∷ s) (x ∷ k) h = omega (arith, length-xor_bytes s k (omega arith))

xor_bytes-IsByte : (s k : Bytes) → All IsByte s → All IsByte k → All IsByte (xor_bytes s k)
unfolding xor_bytes
xor_bytes-IsByte [] k hs hk = tt
xor_bytes-IsByte (b ∷ s) [] hs hk = tt
xor_bytes-IsByte (b ∷ s) (x ∷ k) (hb, hs) (hx, hk) =
    (bit_xor-lt 8 b x hb hx, xor_bytes-IsByte s k hs hk)

xor_bytes_twice :
    (s k : Bytes)
    → length s ≡ length k
    → All IsByte s
    → All IsByte k
    → xor_bytes (xor_bytes s k) k ≡ s
unfolding xor_bytes
xor_bytes_twice [] k h hs hk = refl
xor_bytes_twice (b ∷ s) [] h hs hk = absurd (omega arith)
xor_bytes_twice (b ∷ s) (x ∷ k) h (hb, hs) (hx, hk) =
    rw (bit_xor_twice 8 b x hb hx, xor_bytes_twice s k (omega arith) hs hk)

pub All-take : (n : ℕ) (s : Bytes) → All IsByte s → All IsByte (take n s)
All-take zero s h = tt
All-take (suc n) [] h = tt
All-take (suc n) (b ∷ s) (hb, hs) = (hb, All-take n s hs)

pub All-drop : (n : ℕ) (s : Bytes) → All IsByte s → All IsByte (drop n s)
All-drop zero s h = h
All-drop (suc n) [] h = tt
All-drop (suc n) (b ∷ s) (hb, hs) = All-drop n s hs

module _ (prim : Primitives) (key : Bytes) where
  open prim use {
    encrypt_block, decrypt_block, length-encrypt_block, encrypt_block-IsByte,
    decrypt_block-encrypt_block,
  }

  -- `n` blocks, with the previous block of ciphertext (the initialisation vector at first).
  pub cbc_encrypt : ℕ → Bytes → Bytes → Bytes
  cbc_encrypt zero prev s = []
  cbc_encrypt (suc n) prev s =
      let block = encrypt_block key (xor_bytes (take 16 s) prev) in
      block ++ cbc_encrypt n block (drop 16 s)

  pub cbc_decrypt : ℕ → Bytes → Bytes → Bytes
  cbc_decrypt zero prev s = []
  cbc_decrypt (suc n) prev s =
      let block = take 16 s in
      xor_bytes (decrypt_block key block) prev ++ cbc_decrypt n block (drop 16 s)

  -- `for bs, be := 0, 16; bs < len(input); …`, one block after the other.
  pub ecb_decrypt : ℕ → Bytes → Bytes
  ecb_decrypt zero s = []
  ecb_decrypt (suc n) s = decrypt_block key (take 16 s) ++ ecb_decrypt n (drop 16 s)

  -- One block after the other, encrypted on its own.
  pub ecb_encrypt : ℕ → Bytes → Bytes
  ecb_encrypt zero s = []
  ecb_encrypt (suc n) s = encrypt_block key (take 16 s) ++ ecb_encrypt n (drop 16 s)

  pub length-cbc_encrypt : (n : ℕ) (prev s : Bytes) → length (cbc_encrypt n prev s) ≡ n * 16
  unfolding cbc_encrypt
  length-cbc_encrypt zero prev s = omega arith
  length-cbc_encrypt (suc n) prev s =
      let block = encrypt_block key (xor_bytes (take 16 s) prev) in
      omega (
        arith,
        length-append block (cbc_encrypt n block (drop 16 s)),
        length-encrypt_block key (xor_bytes (take 16 s) prev),
        length-cbc_encrypt n block (drop 16 s),
      )

  -- Decryption in CBC mode undoes encryption with the same key and initialisation vector.
  pub cbc_decrypt-cbc_encrypt :
      (n : ℕ) (prev s : Bytes)
      → length s ≡ n * 16
      → length prev ≡ 16
      → All IsByte s
      → All IsByte prev
      → cbc_decrypt n prev (cbc_encrypt n prev s) ≡ s
  unfolding cbc_encrypt cbc_decrypt
  cbc_decrypt-cbc_encrypt zero prev [] h hp bs bp = refl
  cbc_decrypt-cbc_encrypt zero prev (b ∷ s) h hp bs bp = absurd (omega arith)
  cbc_decrypt-cbc_encrypt (suc n) prev s h hp bs bp =
      let head_ = take 16 s in
      let mixed = xor_bytes head_ prev in
      let block = encrypt_block key mixed in
      let rest = cbc_encrypt n block (drop 16 s) in
      let head_length : length head_ ≡ 16 = omega (arith, length-take 16 s) in
      let same : length head_ ≡ length prev = omega (arith, head_length, hp) in
      let bytes = All-take 16 s bs in
      let mixed_length : length mixed ≡ 16 =
        omega (arith, length-xor_bytes head_ prev same, head_length) in
      rw
        (
          take-append 16 block rest (length-encrypt_block key mixed),
          drop-append 16 block rest (length-encrypt_block key mixed),
          decrypt_block-encrypt_block key mixed mixed_length (xor_bytes-IsByte head_ prev bytes bp),
          xor_bytes_twice head_ prev same bytes bp,
          cbc_decrypt-cbc_encrypt n block (drop 16 s) (omega (arith, length-drop 16 s))
              (length-encrypt_block key mixed) (All-drop 16 s bs) (encrypt_block-IsByte key mixed),
        )
        (take-append-drop 16 s)
