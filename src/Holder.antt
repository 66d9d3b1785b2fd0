-- ===== src/Holder.antt =====
-- The construction of `SDJWTHolder` in src/holder.rs, with `verify_signature` of src/lib.rs, and the
-- three serializations of a presentation, with and without key binding.
pub mod Construction
pub mod Completion
pub mod Selection
use Prim.Native.String.{◌++◌ as append}
use sd_jwt_rust.Prelude.{
  ℕ, String, Bool, true, false, not, Option, none, some, List, [], ◌∷◌, ◌++◌, ◌==◌, if◌then◌else◌,
}
use sd_jwt_rust.Error.{
  Result, ok, err, ◌>>=◌, ◌>>◌, ensure, ok_or, map_err, deserialization_error, invalid_input,
  invalid_state,
}
use sd_jwt_rust.Json.{Value, Members, empty, as_str}
use sd_jwt_rust.Text.{join, as_bytes}
use sd_jwt_rust.Codec.{
  Codec, FlattenedJson, GeneralJson, GeneralJsonSignature, UnprotectedHeader, base64url_encode,
}
use sd_jwt_rust.Jose.{Jose, Algorithm, Validation, new_validation}
use sd_jwt_rust.Policy.{VerificationPolicy, allows, get_in, is_some}
use sd_jwt_rust.Common.{
  SdJwtCommon, SerializationFormat, compact, flattened_json, general_json, new_engine, parse_sd_jwt,
  create_hash_mappings, and_then, non_empty, split_jwt,
}
use sd_jwt_rust.Signature.{Curves, verify_remote_signature}

-- The two maps of a key-binding JWT under preparation are left out: construction leaves them empty,
-- and rendering does not read them.
pub record SdJwtHolder : Type 0 where
  pub sd_jwt_engine : SdJwtCommon
  pub hs_disclosures : List String
  pub serialized_key_binding_jwt : String
  pub sd_jwt_payload : Members
  pub serialized_sd_jwt : String

-- The validation of the issuer's JWT by the holder, who is not its audience.
abbrev pub holder_validation : Algorithm → Validation
holder_validation algorithm = record (new_validation algorithm) {
  required_spec_claims = [];
  validate_nbf = true;
  validate_aud = false;
}

module _ (j : Jose) (policy : VerificationPolicy) where
  open j use {Key, Header, alg, algorithm_from_str, algorithm_name, decode_header, decode}

  unfoldable pub verify_signature : SdJwtCommon → Key → Result (Unit {0})
  verify_signature engine key = do
    sd_jwt ← ok_or engine.unverified_sd_jwt (invalid_state "Cannot reference jwt")
    alg_str ←
        ok_or engine.sign_alg
          (invalid_input "Issuer-signed JWT header is missing the `alg` parameter")
    algorithm ← map_err (algorithm_from_str alg_str) deserialization_error
    ensure (allows policy algorithm) (
        invalid_input (
          append "Issuer-signed JWT algorithm "
            (append (algorithm_name algorithm) " is not allowed by verification policy")))
    _ ←
        map_err (decode sd_jwt key (holder_validation algorithm))
          (λ e. deserialization_error (append "Issuer signature verification failed: " e))
    ok tt

  -- The block under `if let Some(cb_get_issuer_key)`.
  unfoldable pub check_issuer :
      Option (String → Header → Result Key) → SdJwtCommon → Result (Unit {0})
  unfolding verify_signature
  check_issuer none engine = ok tt
  check_issuer (some get_issuer_key) engine = do
    sd_jwt ← ok_or engine.unverified_sd_jwt (invalid_state "Cannot reference jwt")
    header ← map_err (decode_header sd_jwt) deserialization_error
    ensure (allows policy (alg header)) (
        invalid_input (
          append "Issuer-signed JWT algorithm "
            (append (algorithm_name (alg header)) " is not allowed by verification policy")))
    payload ←
        ok_or engine.unverified_input_sd_jwt_payload (invalid_state "Cannot reference payload")
    unverified_issuer ←
        ok_or (and_then (get_in "iss" (some payload)) as_str)
          (invalid_input "Issuer-signed JWT is missing `iss`")
    key ← get_issuer_key unverified_issuer header
    verify_signature engine key

  -- `take` leaves nothing behind in the engine.
  abbrev pub taken : SdJwtCommon → SdJwtCommon
  taken engine = record engine { unverified_input_sd_jwt_payload = none; unverified_sd_jwt = none }

  unfoldable pub build :
      Codec
      → Result (Unit {0})
      → String
      → SerializationFormat
      → Option (String → Header → Result Key)
      → Result SdJwtHolder
  unfolding check_issuer
  build c install sd_jwt_with_disclosures format get_issuer_key = do
    _ ← install
    engine ← parse_sd_jwt c (new_engine format) sd_jwt_with_disclosures
    ensure (not (is_some engine.unverified_input_key_binding_jwt))
        (invalid_input "Holder received an SD-JWT+KB; a Key Binding JWT must not be present")
    _ ← check_issuer get_issuer_key engine
    payload ← ok_or engine.unverified_input_sd_jwt_payload (invalid_state "Cannot take payload")
    sd_jwt ← ok_or engine.unverified_sd_jwt (invalid_state "Cannot take jwt")
    engine' ← create_hash_mappings c (taken engine)
    ok (record {
      sd_jwt_engine = engine';
      hs_disclosures = [];
      serialized_key_binding_jwt = "";
      sd_jwt_payload = payload;
      serialized_sd_jwt = sd_jwt;
    })

-- The three serializations of a JWT, its disclosures and the key-binding JWT, which the compact one
-- writes as an empty text where there is none.
unfoldable pub serialize :
    Codec → SerializationFormat → String → List String → String → Option String → Result String
serialize c compact sd_jwt disclosures kb_text kb =
    ok (join "~" (sd_jwt ∷ disclosures ++ kb_text ∷ []))
serialize c flattened_json sd_jwt disclosures kb_text kb = do
  (protected, payload, signature) ← split_jwt sd_jwt
  map_err
      (c.write_flattened (record {
        protected = protected;
        payload = payload;
        signature = signature;
        header = record { disclosures = disclosures; kb_jwt = kb };
      }))
      deserialization_error
serialize c general_json sd_jwt disclosures kb_text kb = do
  (protected, payload, signature) ← split_jwt sd_jwt
  map_err
      (c.write_general (record {
        payload = payload;
        signatures =
            record {
              protected = protected;
              signature = signature;
              header = record { disclosures = disclosures; kb_jwt = kb };
            }
            ∷ [];
      }))
      deserialization_error

unfoldable pub render_presentation : Codec → SdJwtHolder → Result String
unfolding serialize
render_presentation c self =
    serialize c self.sd_jwt_engine.serialization_format self.serialized_sd_jwt self.hs_disclosures
      self.serialized_key_binding_jwt (non_empty self.serialized_key_binding_jwt)

module _ (j : Jose) where
  pub record PreparedKeyBindingPresentation : Type 0 where
    pub algorithm : Algorithm
    pub disclosures : List String
    pub serialization_format : SerializationFormat
    pub serialized_sd_jwt : String
    pub signing_input : String
    pub verification_key : j.Key

  unfoldable pub complete :
      Curves → Codec → Result (Unit {0}) → PreparedKeyBindingPresentation → List ℕ → Result String
  unfolding serialize
  complete e c install self signature = do
    _ ←
        verify_remote_signature e j c install self.algorithm (as_bytes self.signing_input) signature
          self.verification_key
    let key_binding_jwt = append self.signing_input (append "." (base64url_encode c signature))
    serialize c self.serialization_format self.serialized_sd_jwt self.disclosures key_binding_jwt
        (some key_binding_jwt)
