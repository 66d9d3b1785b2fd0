-- ===== src/Verifier.antt =====
-- `SDJWTVerifier` of src/verifier.rs: the signature check, the extraction of the claims and the
-- key-binding check, in the order of `new_with_policy`. The crypto provider's installation, the
-- issuer's key resolver and the host's threads are parameters.
pub mod Unpack
pub mod Claims
pub mod Trust
pub mod Binding
pub mod Presentation
use Prim.Native.String.{◌++◌ as append}
use sd_jwt_rust.Prelude.{
  ℕ, String, Bool, true, false, not, ◌&&◌, ◌||◌, Option, none, some, List, [], ◌∷◌, ◌++◌, ◌==◌,
  nat_eq, if◌then◌else◌, length, contains,
}
use sd_jwt_rust.Error.{
  Error, Result, ok, err, or_panic, ◌>>=◌, ◌>>◌, ensure, ok_or, map_err, conversion_error,
  deserialization_error, invalid_input, invalid_state, key_not_found, invalid_disclosure,
}
use sd_jwt_rust.Json.{
  Value, Members, null, string, object, empty, member, get, contains_key, as_str, as_object,
}
use sd_jwt_rust.Text.{join, as_bytes}
use sd_jwt_rust.Codec.{Codec, base64_hash}
use sd_jwt_rust.Jose.{Jose, Algorithm, algorithm_eq, Validation, new_validation}
use sd_jwt_rust.Policy.{
  VerificationPolicy, allows, default_policy, object_at, cnf_key, jwk_key,
  validate_public_confirmation_claim, validate_key_binding_jwk_policy,
}
use sd_jwt_rust.Reserved.{digest_alg_key}
use sd_jwt_rust.Preprocessing.Native.{Threads, preprocess_disclosures}
use sd_jwt_rust.Common.{
  SdJwtCommon, SerializationFormat, new_engine, parse_sd_jwt, publish_mappings,
}
use sd_jwt_rust.Verifier.Unpack.{
  Stateful, unpack_disclosed_claims, unpack_fuel, reject_nested_sd_alg,
}

-- The state of a verifier, but for the resolver and the policy, which do not change.
pub record SdJwtVerifier : Type 0 where
  pub sd_jwt_engine : SdJwtCommon
  pub sd_jwt_payload : Members
  pub holder_public_key_payload : Option Members
  pub duplicate_hash_check : List String
  pub verified_claims : Value

abbrev pub new_verifier : SerializationFormat → SdJwtVerifier
new_verifier format = record {
  sd_jwt_engine = new_engine format;
  sd_jwt_payload = empty;
  holder_public_key_payload = none;
  duplicate_hash_check = [];
  verified_claims = null;
}

-- Whether `_sd_alg` is there and is not the supported algorithm.
unfoldable pub other_digest_alg : Option Value → Bool
other_digest_alg none = false
other_digest_alg (some (string s)) = not (s == "sha-256")
other_digest_alg (some _) = true

-- The loop over the payload's members, `_sd_alg` itself passed over.
unfoldable pub reject_in_payload : Members → Result (Unit {0})
reject_in_payload empty = ok tt
reject_in_payload (member key value m) =
    let rest = reject_in_payload m in
    if key == digest_alg_key then rest else reject_nested_sd_alg value >> rest

unfoldable pub check_referenced : List String → List String → Result (Unit {0})
check_referenced seen [] = ok tt
check_referenced seen (disclosure_hash ∷ rest) = do
  ensure (contains seen disclosure_hash)
      (invalid_disclosure "Disclosure was not referenced by the SD-JWT")
  check_referenced seen rest

unfoldable pub extract_sd_claims : SdJwtVerifier → Stateful Value
unfolding other_digest_alg reject_in_payload check_referenced
extract_sd_claims self = do
  ensure (not (other_digest_alg (get digest_alg_key self.sd_jwt_payload)))
      (deserialization_error "SD-JWT digest algorithm is not supported")
  _ ← reject_in_payload self.sd_jwt_payload
  (unpacked, seen) ←
      unpack_disclosed_claims self.sd_jwt_engine.hash_to_decoded_disclosure unpack_fuel
        (object self.sd_jwt_payload) 0 []
  ensure
      (nat_eq (length self.sd_jwt_engine.ordered_disclosure_digests)
        (length self.sd_jwt_engine.input_disclosures))
      (invalid_state "Disclosure preprocessing state is inconsistent")
  _ ← check_referenced seen self.sd_jwt_engine.ordered_disclosure_digests
  ok (unpacked, seen)

-- The validation of the issuer's JWT: `exp` is not required, a present `nbf` is honoured.
abbrev pub issuer_validation : Algorithm → Validation
issuer_validation algorithm = record (new_validation algorithm) {
  required_spec_claims = [];
  validate_nbf = true;
}

-- The validation of the key-binding JWT: `aud` alone is required, and must be the expected one.
abbrev pub key_binding_validation : Algorithm → String → Validation
key_binding_validation algorithm expected_aud = record (new_validation algorithm) {
  audience = some (expected_aud ∷ []);
  required_spec_claims = "aud" ∷ [];
}

-- Whether the value of a claim is this text.
unfoldable pub is_text : Option Value → String → Bool
is_text (some (string s)) t = s == t
is_text _ t = false

unfoldable pub is_typ : Option String → String → Bool
is_typ none t = false
is_typ (some s) t = s == t

-- `["iss"].as_str()` of the unverified payload: indexing a missing member of a map panics.
unfoldable pub issuer_of : Members → Result String
issuer_of payload = do
  iss ← or_panic (get "iss" payload)
  ok_or (as_str iss) (conversion_error "str")

unfoldable pub confirmation_key : Option Members → Result Value
confirmation_key none = err (key_not_found "No holder public key in SD-JWT")
confirmation_key (some payload) =
    ok_or (get jwk_key payload)
      (invalid_input "The holder_public_key_payload is malformed. It doesn't contain the claim jwk")

unfoldable pub get_key_binding_digest_hash : Codec → SdJwtVerifier → Result String
get_key_binding_digest_hash c self = do
  sd_jwt ← ok_or self.sd_jwt_engine.unverified_sd_jwt (conversion_error "reference")
  let combined = append (join "~" (sd_jwt ∷ self.sd_jwt_engine.input_disclosures)) "~"
  ok (base64_hash c (as_bytes combined))

module _ (c : Codec) (j : Jose) (verification_policy : VerificationPolicy) where
  open j use {
    Key, Header, alg, typ, algorithm_from_str, algorithm_name, decode_header, decode,
    jwk_from_value, key_from_jwk,
  }

  unfoldable pub verify_sd_jwt :
      (String → Header → Result Key) → SdJwtVerifier → Option String → Result SdJwtVerifier
  unfolding issuer_of
  verify_sd_jwt get_issuer_key self sign_alg = do
    sd_jwt ← ok_or self.sd_jwt_engine.unverified_sd_jwt (conversion_error "reference")
    parsed_header_sd_jwt ← map_err (decode_header sd_jwt) deserialization_error
    let algorithm = alg parsed_header_sd_jwt
    ensure (allows verification_policy algorithm) (
        invalid_input (
          append "Issuer-signed JWT algorithm "
            (append (algorithm_name algorithm) " is not allowed by verification policy")))
    declared_algorithm ←
        ok_or sign_alg (invalid_input "Issuer-signed JWT header is missing the `alg` parameter")
    decoded_algorithm ← map_err (algorithm_from_str declared_algorithm) deserialization_error
    ensure (algorithm_eq decoded_algorithm algorithm)
        (invalid_input "Issuer-signed JWT algorithm metadata is inconsistent")
    payload ←
        ok_or self.sd_jwt_engine.unverified_input_sd_jwt_payload (conversion_error "reference")
    unverified_issuer ← issuer_of payload
    issuer_public_key ← get_issuer_key unverified_issuer parsed_header_sd_jwt
    (header, claims) ←
        map_err (decode sd_jwt issuer_public_key (issuer_validation algorithm))
          (λ e. deserialization_error (append "Cannot decode jwt: " e))
    _ ← validate_public_confirmation_claim claims
    ok (record self {
      sd_jwt_payload = claims;
      holder_public_key_payload = object_at cnf_key claims;
    })

  unfoldable pub verify_key_binding_jwt : SdJwtVerifier → String → String → Result (Unit {0})
  unfolding confirmation_key get_key_binding_digest_hash is_text is_typ
  verify_key_binding_jwt self expected_aud expected_nonce = do
    holder_jwk_value ← confirmation_key self.holder_public_key_payload
    key_binding_payload ←
        ok_or self.sd_jwt_engine.unverified_input_key_binding_jwt
          (invalid_state "Cannot take Key Binding JWK from String")
    header ← map_err (decode_header key_binding_payload) deserialization_error
    ensure (allows verification_policy (alg header)) (
        invalid_input (
          append "Key Binding JWT algorithm "
            (append (algorithm_name (alg header)) " is not allowed by verification policy")))
    holder_jwk ←
        map_err (jwk_from_value holder_jwk_value)
          (λ _. deserialization_error "Cannot parse JWK from json")
    _ ← validate_key_binding_jwk_policy j holder_jwk (alg header)
    pubkey ←
        map_err (key_from_jwk holder_jwk)
          (λ _. deserialization_error "Cannot parse DecodingKey from json")
    (kb_header, claims) ←
        map_err
          (decode key_binding_payload pubkey (key_binding_validation (alg header) expected_aud))
          deserialization_error
    ensure (is_typ (typ kb_header) "kb+jwt") (invalid_input "Invalid header type")
    ensure (is_text (get "nonce" claims) expected_nonce) (invalid_input "Invalid nonce")
    ensure (contains_key claims "iat") (invalid_input "Missing required `iat` claim in KB-JWT")
    sd_hash ← get_key_binding_digest_hash c self
    ensure (is_text (get "sd_hash" claims) sd_hash) (invalid_input "Invalid digest in KB-JWT")

  -- Both expectations or neither.
  unfoldable pub verify_expectations :
      SdJwtVerifier → Option String → Option String → Result (Unit {0})
  unfolding verify_key_binding_jwt
  verify_expectations self none none = ok tt
  verify_expectations self (some expected_aud) (some expected_nonce) =
      verify_key_binding_jwt self expected_aud expected_nonce
  verify_expectations self _ _ = err (
      invalid_input
        "Either both expected_aud and expected_nonce must be provided or both must be None")

  module _ (threads : Threads) (acquires : ℕ → Bool) (available_threads : ℕ) where
    unfoldable pub create_verifier_hash_mappings : SdJwtCommon → Result SdJwtCommon
    create_verifier_hash_mappings self = do
      mappings ← preprocess_disclosures c threads acquires available_threads self.input_disclosures
      ok (publish_mappings self mappings)

    -- `install` is what `install_crypto_provider` answers.
    unfoldable pub new_with_policy :
        Result (Unit {0})
        → String
        → (String → Header → Result Key)
        → Option String
        → Option String
        → SerializationFormat
        → Result SdJwtVerifier
    unfolding create_verifier_hash_mappings verify_sd_jwt extract_sd_claims verify_expectations
    new_with_policy install sd_jwt_presentation get_issuer_key expected_aud expected_nonce format =
        do
          _ ← install
          let verifier = new_verifier format
          parsed ← parse_sd_jwt c verifier.sd_jwt_engine sd_jwt_presentation
          engine ← create_verifier_hash_mappings parsed
          verified ←
              verify_sd_jwt get_issuer_key (record verifier { sd_jwt_engine = engine })
                engine.sign_alg
          (claims, seen) ← extract_sd_claims verified
          let extracted = record verified { duplicate_hash_check = seen; verified_claims = claims }
          _ ← verify_expectations extracted expected_aud expected_nonce
          ok extracted

-- `SDJWTVerifier::new`: a resolver that cannot fail, under the default policy.
unfoldable pub new :
    (c : Codec) (j : Jose)
    → Threads
    → (ℕ → Bool)
    → ℕ
    → Result (Unit {0})
    → String
    → (String → j.Header → j.Key)
    → Option String
    → Option String
    → SerializationFormat
    → Result SdJwtVerifier
new c j threads acquires available_threads install sd_jwt_presentation get_issuer_key =
    new_with_policy c j default_policy threads acquires available_threads install
      sd_jwt_presentation (λ issuer header. ok (get_issuer_key issuer header))
