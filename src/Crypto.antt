-- ===== src/Crypto.antt =====
-- The package crypto: padding, AES modes and the HMAC-carrying initialisation vector
-- (crypto/encrypt.go, crypto/decrypt.go, crypto/pkcs7.go). AES, HMAC-SHA1 and RSA are not part of
-- the program: they come in through the record `Primitives`.
pub mod SessionKey
pub mod Primitives
pub mod Pkcs7
pub mod Cbc
pub mod Symmetric
pub mod Tests
