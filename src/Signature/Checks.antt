-- ===== src/Signature/Checks.antt =====
-- What a remote signature that passes src/signature_validation.rs is.
use sd_jwt_rust.Prelude.{
  ℕ, zero, suc, ◌≤◌, ◌≡◌, refl, ap, Bool, true, false, not, Option, none, some, List, [], ◌∷◌, ◌++◌,
  nat_eq, if◌then◌else◌, length, arith, and-elim, not-elim, nat_eq_iff,
}
use sd_jwt_rust.Error.{Result, ok, ensure-eq-ok, Attempt, done, failed}
use sd_jwt_rust.Error.Yields.{
  Yields, yields, fails, Yields-self, Yields-bind, Yields-weaken, Yields-ok,
}
use sd_jwt_rust.Codec.{Codec, base64url_encode}
use sd_jwt_rust.Jose.{
  Jose, Algorithm, es256, es384, eddsa, rs256, rs384, rs512, ps256, ps384, ps512, other,
}
use sd_jwt_rust.Signature.{
  Curves, split_at, any_nonzero, bytes_eq, validate_rsa, validate_point, validate_ed25519_encoding,
  is_valid_encoding, validate_remote_signature, checked_encoding, matched, verify_remote_signature,
  min_remote_rsa_signature_bytes, max_remote_rsa_signature_bytes,
}

split_at-append : (n : ℕ) (bytes : List ℕ) → (split_at n bytes).0 ++ (split_at n bytes).1 ≡ bytes
unfolding split_at
split_at-append zero bytes = refl
split_at-append (suc n) [] = refl
split_at-append (suc n) (b ∷ bytes) = ap (λ l. b ∷ l) (split_at-append n bytes)

bytes_eq_sound : (xs ys : List ℕ) → bytes_eq xs ys ≡ true → xs ≡ ys
unfolding bytes_eq
bytes_eq_sound [] [] h = refl
bytes_eq_sound [] (y ∷ ys) h = cc
bytes_eq_sound (x ∷ xs) [] h = cc
bytes_eq_sound (x ∷ xs) (y ∷ ys) h = ground (arith, bytes_eq_sound xs ys, nat_eq_iff x y)

module _ (e : Curves) where
  -- An Ed25519 signature of 64 bytes: a point in canonical form that is not of small order, and a
  -- canonical scalar.
  pub record IsEd25519 (bytes : List ℕ) : Type 0 where
    pub encoded_r : List ℕ
    pub encoded_s : List ℕ
    pub halves : encoded_r ++ encoded_s ≡ bytes
    pub size : length bytes ≡ 64
    pub point : e.Point
    pub on_curve : e.decompress encoded_r ≡ some point
    pub canonical_point : e.compress point ≡ encoded_r
    pub large_order : e.is_small_order point ≡ false
    pub canonical_scalar : e.is_canonical_scalar encoded_s ≡ true

  -- What each algorithm asks of an encoded signature. An algorithm that is not named has none.
  abbrev pub IsWellFormed : Algorithm → List ℕ → Type 0
  IsWellFormed es256 bytes = e.is_p256_signature bytes ≡ true
  IsWellFormed es384 bytes = e.is_p384_signature bytes ≡ true
  IsWellFormed eddsa bytes = IsEd25519 bytes
  IsWellFormed (other name) bytes = ⊥
  IsWellFormed _ bytes =
      (min_remote_rsa_signature_bytes ≤ length bytes)
      × (length bytes ≤ max_remote_rsa_signature_bytes)
      × (any_nonzero bytes ≡ true)

  rsa :
      (bytes : List ℕ)
      → validate_rsa bytes ≡ true
      → (min_remote_rsa_signature_bytes ≤ length bytes)
        × (length bytes ≤ max_remote_rsa_signature_bytes)
        × (any_nonzero bytes ≡ true)
  unfolding validate_rsa
  rsa bytes h = ground arith

  if_true : (b : Bool) (x : Bool) → (if b then x else false) ≡ true → (b ≡ true) × (x ≡ true)
  if_true b x h = ground arith

  on_point :
      (bytes r s : List ℕ) (o : Option e.Point)
      → validate_point e bytes r s o ≡ true
      → (p : e.Point) × (o ≡ some p)
        × (e.compress p ≡ r)
        × (e.is_small_order p ≡ false)
        × (e.is_canonical_scalar s ≡ true)
  unfolding validate_point
  on_point bytes r s none h = cc
  on_point bytes r s (some p) h =
      let (same, h₁) = and-elim (bytes_eq (e.compress p) r) _ h in
      let (large, h₂) = and-elim (not (e.is_small_order p)) _ h₁ in
      (
        p,
        refl,
        bytes_eq_sound (e.compress p) r same,
        not-elim _ large,
        (and-elim (e.is_canonical_scalar s) _ h₂).0,
      )

  ed25519 : (bytes : List ℕ) → validate_ed25519_encoding e bytes ≡ true → IsEd25519 bytes
  unfolding validate_ed25519_encoding
  ed25519 bytes h =
      let (size, valid) = if_true (nat_eq (length bytes) 64) _ h in
      let (p, on_curve, canonical, large, scalar) =
        on_point bytes (split_at 32 bytes).0 (split_at 32 bytes).1
          (e.decompress (split_at 32 bytes).0) valid in
      record {
        encoded_r = (split_at 32 bytes).0;
        encoded_s = (split_at 32 bytes).1;
        halves = split_at-append 32 bytes;
        size = (nat_eq_iff _ _).0 size;
        point = p;
        on_curve = on_curve;
        canonical_point = canonical;
        large_order = large;
        canonical_scalar = scalar;
      }

  module _ (j : Jose) where
    checked :
        (a : Algorithm) (bytes : List ℕ) (b : Bool)
        → checked_encoding e j a bytes (some b) ≡ ok tt
        → b ≡ true
    unfolding checked_encoding
    checked a bytes b h = ensure-eq-ok b _ h

    -- An encoded signature is accepted only for one of the nine named algorithms, in its form: an
    -- ECDSA signature of the curve, an Ed25519 signature with canonical point and scalar, or an RSA
    -- signature of 256 to 1024 bytes that are not all zero.
    validate_remote_signature-IsWellFormed :
        (a : Algorithm) (bytes : List ℕ)
        → validate_remote_signature e j a bytes ≡ ok tt
        → IsWellFormed a bytes
    unfolding validate_remote_signature is_valid_encoding
    validate_remote_signature-IsWellFormed es256 bytes h = checked es256 bytes _ h
    validate_remote_signature-IsWellFormed es384 bytes h = checked es384 bytes _ h
    validate_remote_signature-IsWellFormed eddsa bytes h = ed25519 bytes (checked eddsa bytes _ h)
    validate_remote_signature-IsWellFormed (other n) bytes h = unfold checked_encoding in cc
    validate_remote_signature-IsWellFormed rs256 bytes h = rsa bytes (checked rs256 bytes _ h)
    validate_remote_signature-IsWellFormed rs384 bytes h = rsa bytes (checked rs384 bytes _ h)
    validate_remote_signature-IsWellFormed rs512 bytes h = rsa bytes (checked rs512 bytes _ h)
    validate_remote_signature-IsWellFormed ps256 bytes h = rsa bytes (checked ps256 bytes _ h)
    validate_remote_signature-IsWellFormed ps384 bytes h = rsa bytes (checked ps384 bytes _ h)
    validate_remote_signature-IsWellFormed ps512 bytes h = rsa bytes (checked ps512 bytes _ h)

    matched-done : (r : Attempt Bool) → Yields (λ _. r ≡ done true) (matched e j r)
    unfolding matched
    matched-done (done true) = yields refl
    matched-done (done false) = fails _
    matched-done (failed m) = fails _

    -- A remote signature is accepted only where its encoding is well formed for the algorithm, and
    -- its base64 text verifies over the prepared signing input under the public key.
    pub verify_remote_signature-IsWellFormed :
        (c : Codec) (install : Result (Unit {0})) (a : Algorithm) (signing_input bytes : List ℕ)
        (key : j.Key)
        → verify_remote_signature e j c install a signing_input bytes key ≡ ok tt
        → IsWellFormed a bytes
          × (j.verify_signature (base64url_encode c bytes) signing_input key a ≡ done true)
    unfolding verify_remote_signature
    verify_remote_signature-IsWellFormed c install a signing_input bytes key h =
        Yields-ok
          {P = λ _.
            IsWellFormed a bytes
            × (j.verify_signature (base64url_encode c bytes) signing_input key a ≡ done true)}
          (Yields-bind (Yields-self (validate_remote_signature e j a bytes)) (λ _ valid.
            Yields-bind (Yields-self install) (λ _ _.
              Yields-weaken
                (matched-done (j.verify_signature (base64url_encode c bytes) signing_input key a))
                (λ _ m. (validate_remote_signature-IsWellFormed a bytes valid, m)))))
          h
