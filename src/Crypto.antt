-- ===== src/Crypto.antt =====
-- The cryptographic crates that the program calls (aes_gcm, hkdf, sha2, hmac, x25519_dalek, hex,
-- rand_core): an interface of operations, with the documented laws that the program relies on.
use passport_passwords.Base.{
  ℕ, ◌+◌, ◌<◌, ◌≤◌, ◌*◌, Text, [], ◌∷◌, zero, suc, ◌≡◌, refl, Option, some, length, ap,
}

pub record Crypto : Type 0 where
  -- `Aes256Gcm::new(key).encrypt(nonce, plaintext)` and `.decrypt(nonce, ciphertext)`
  pub encrypt : Text → Text → Text → Option Text
  pub decrypt : Text → Text → Text → Option Text
  -- `Hkdf::<Sha256>::new(None, secret).expand(info, &mut [0; 32])`
  pub hkdf : Text → Text → Text
  -- `Hmac::<Sha256>::new_from_slice(key)`, one `update` and `finalize`; `none` is a refused key
  pub hmac : Text → Text → Option Text
  -- `EphemeralSecret::random_from_rng(OsRng)`, from a place on the tape of random bytes
  pub random_secret : ℕ → Text × ℕ
  -- `PublicKey::from(&secret)` and `secret.diffie_hellman(&public)`
  pub public_key : Text → Text
  pub diffie_hellman : Text → Text → Text
  pub hex_encode : Text → Text
  pub hex_decode : Text → Option Text
  -- `OsRng`: the tape of random bytes
  pub os_rng : ℕ → ℕ
  -- The fuel of the model for a loop of rejections, which has no bound in the source: how many
  -- samples in a row it may throw away before the model gives up.
  pub patience : ℕ

-- What the documentation of the crates promises.
pub record IsCrypto (c : Crypto) : Type 0 where
  pub decrypt-encrypt :
      (key nonce plain cipher : Text)
      → c.encrypt key nonce plain ≡ some cipher
      → c.decrypt key nonce cipher ≡ some plain
  -- the ciphertext carries a tag of 16 bytes
  pub length-encrypt :
      (key nonce plain cipher : Text)
      → c.encrypt key nonce plain ≡ some cipher
      → length cipher ≡ length plain + 16
  pub hex_decode-hex_encode : (bytes : Text) → c.hex_decode (c.hex_encode bytes) ≡ some bytes
  pub length-public_key : (secret : Text) → length (c.public_key secret) ≡ 32
  pub diffie_hellman_comm :
      (a b : Text) → c.diffie_hellman a (c.public_key b) ≡ c.diffie_hellman b (c.public_key a)
  pub os_rng-lt : (i : ℕ) → c.os_rng i < 256

-- As many samples as the fuel of a loop of rejections, one after the other, none of which lies in the
-- lower half: of bytes that are `stride` apart, from the place `at`.
pub record Unlucky (c : Crypto) : Type 0 where
  pub stride : ℕ
  pub at : ℕ
  pub high : (k : ℕ) → k < c.patience → 128 ≤ c.os_rng (at + k * stride)

module _ (c : Crypto) where
  -- `OsRng.fill_bytes(&mut buf)` for a buffer of `n` bytes, from a place on the tape
  unfoldable pub fill_bytes : ℕ → ℕ → Text × ℕ
  fill_bytes zero at = ([], at)
  fill_bytes (suc n) at = let (rest, end) = fill_bytes n (at + 1) in (c.os_rng at ∷ rest, end)

  pub length-fill_bytes : (n at : ℕ) → length (fill_bytes n at).0 ≡ n
  unfolding fill_bytes
  length-fill_bytes zero at = refl
  length-fill_bytes (suc n) at = ap suc (length-fill_bytes n (at + 1))
