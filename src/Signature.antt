-- ===== src/Signature.antt =====
-- src/signature_validation.rs: the checks on a signature that a remote signer returns. The point and
-- scalar arithmetic of the elliptic curves is a parameter.
pub mod Checks
use Prim.Native.String.{◌++◌ as append}
use sd_jwt_rust.Prelude.{
  ℕ, zero, suc, String, Bool, true, false, not, ◌&&◌, Option, none, some, List, [], ◌∷◌, ◌++◌, ltb,
  leb, nat_eq, if◌then◌else◌, length,
}
use sd_jwt_rust.Error.{Result, ok, err, ◌>>=◌, ◌>>◌, ensure, Attempt, done, failed, invalid_input}
use sd_jwt_rust.Text.{decimal}
use sd_jwt_rust.Codec.{Codec, base64url_encode}
use sd_jwt_rust.Jose.{
  Jose, Algorithm, es256, es384, eddsa, rs256, rs384, rs512, ps256, ps384, ps512, other,
}

abbrev pub min_remote_rsa_signature_bytes : ℕ
min_remote_rsa_signature_bytes = 256

abbrev pub max_remote_rsa_signature_bytes : ℕ
max_remote_rsa_signature_bytes = 1024

-- What `ecdsa`, `p256`, `p384` and `curve25519_dalek` answer.
pub record Curves : Type 1 where
  pub Point : Type 0
  -- `ecdsa::Signature::from_slice(..).is_ok()` on the two curves
  pub is_p256_signature : List ℕ → Bool
  pub is_p384_signature : List ℕ → Bool
  -- `CompressedEdwardsY::decompress`, `compress().to_bytes()` and `is_small_order`
  pub decompress : List ℕ → Option Point
  pub compress : Point → List ℕ
  pub is_small_order : Point → Bool
  -- `Scalar::from_canonical_bytes(..).is_some()`
  pub is_canonical_scalar : List ℕ → Bool

-- `split_at`: what stands in front of a position, and what behind it.
unfoldable pub split_at : ℕ → List ℕ → List ℕ × List ℕ
split_at zero bytes = ([], bytes)
split_at (suc n) [] = ([], [])
split_at (suc n) (b ∷ bytes) = let (front, behind) = split_at n bytes in (b ∷ front, behind)

-- `iter().any(|byte| *byte != 0)`.
unfoldable pub any_nonzero : List ℕ → Bool
any_nonzero [] = false
any_nonzero (b ∷ bytes) = if nat_eq b 0 then any_nonzero bytes else true

-- Equality of byte arrays.
unfoldable pub bytes_eq : List ℕ → List ℕ → Bool
bytes_eq [] [] = true
bytes_eq (a ∷ as_) (b ∷ bs) = if nat_eq a b then bytes_eq as_ bs else false
bytes_eq _ _ = false

unfoldable pub validate_rsa : List ℕ → Bool
unfolding any_nonzero
validate_rsa bytes =
    leb min_remote_rsa_signature_bytes (length bytes)
    && (leb (length bytes) max_remote_rsa_signature_bytes && any_nonzero bytes)

module _ (e : Curves) where
  open e use {
    Point, is_p256_signature, is_p384_signature, decompress, compress, is_small_order,
    is_canonical_scalar,
  }

  unfoldable pub validate_point : List ℕ → List ℕ → List ℕ → Option Point → Bool
  unfolding bytes_eq any_nonzero
  validate_point bytes encoded_r encoded_s none = false
  validate_point bytes encoded_r encoded_s (some point) =
      bytes_eq (compress point) encoded_r
      && (not (is_small_order point) && (is_canonical_scalar encoded_s && any_nonzero bytes))

  unfoldable pub validate_ed25519_encoding : List ℕ → Bool
  unfolding split_at validate_point
  validate_ed25519_encoding bytes =
      let halves = split_at 32 bytes in
      let valid = validate_point bytes halves.0 halves.1 (decompress halves.0) in
      if nat_eq (length bytes) 64 then valid else false

  -- Whether the encoding is valid, or none for an algorithm that no remote signer may use.
  unfoldable pub is_valid_encoding : Algorithm → List ℕ → Option Bool
  unfolding validate_rsa validate_ed25519_encoding
  is_valid_encoding es256 bytes = some (is_p256_signature bytes)
  is_valid_encoding es384 bytes = some (is_p384_signature bytes)
  is_valid_encoding eddsa bytes = some (validate_ed25519_encoding bytes)
  is_valid_encoding (other name) bytes = none
  is_valid_encoding _ bytes = some (validate_rsa bytes)

  module _ (j : Jose) where
    unfoldable pub checked_encoding : Algorithm → List ℕ → Option Bool → Result (Unit {0})
    checked_encoding algorithm bytes none = err (
        invalid_input
          (append "unsupported remote signing algorithm: " (j.algorithm_name algorithm)))
    checked_encoding algorithm bytes (some valid) = ensure valid (
        invalid_input (
          append "invalid " (
            append (j.algorithm_name algorithm) (
              append " remote signature encoding: got "
                (append (decimal (length bytes)) " bytes")))))

    unfoldable pub validate_remote_signature : Algorithm → List ℕ → Result (Unit {0})
    unfolding is_valid_encoding checked_encoding
    validate_remote_signature algorithm bytes =
        checked_encoding algorithm bytes (is_valid_encoding algorithm bytes)

    unfoldable pub matched : Attempt Bool → Result (Unit {0})
    matched (done true) = ok tt
    matched _ =
        err (
          invalid_input "remote signature does not match the prepared signing input and public key")

    -- `install` is what `install_crypto_provider` answers.
    unfoldable pub verify_remote_signature :
        Codec → Result (Unit {0}) → Algorithm → List ℕ → List ℕ → j.Key → Result (Unit {0})
    unfolding validate_remote_signature matched
    verify_remote_signature c install algorithm signing_input bytes verification_key = do
      _ ← validate_remote_signature algorithm bytes
      _ ← install
      matched
          (j.verify_signature (base64url_encode c bytes) signing_input verification_key algorithm)
