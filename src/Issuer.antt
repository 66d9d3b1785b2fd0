-- ===== src/Issuer.antt =====
-- src/issuer.rs: the preparation of an SD-JWT for a remote signer, its completion with the signature,
-- and the source of salts. The signing with a local key is test code and is left aside.
pub mod Checks
pub mod Payload
pub mod Preparation
pub mod Completion
use Prim.Native.String.{◌++◌ as append}
use sd_jwt_rust.Prelude.{
  ℕ, String, Bool, true, false, not, Option, none, some, List, [], ◌∷◌, ◌++◌, map, if◌then◌else◌,
}
use sd_jwt_rust.Error.{
  Result, ok, err, Attempt, ◌>>=◌, ◌>>◌, ensure, ok_or, map_err, invalid_input, conversion_error,
  deserialization_error,
}
use sd_jwt_rust.Json.{
  Value, Members, string, object, empty, member, get, insert, shift_remove, as_object,
}
use sd_jwt_rust.Text.{join, as_bytes}
use sd_jwt_rust.Codec.{Codec, base64url_encode}
use sd_jwt_rust.Jose.{Jose, Algorithm}
use sd_jwt_rust.Policy.{cnf_key, jwk_key, validate_public_confirmation_claim}
use sd_jwt_rust.Reserved.{digest_alg_key, check_for_sd_claim}
use sd_jwt_rust.Common.{SerializationFormat, flattened_json, general_json, compact}
use sd_jwt_rust.Disclosure.{SdJwtDisclosure}
use sd_jwt_rust.Signature.{Curves, verify_remote_signature}
use sd_jwt_rust.Strategy.{ClaimsForSelectiveDisclosureStrategy, finalize_input}
use sd_jwt_rust.Plan.{RandomSource, IssuancePlan}
use sd_jwt_rust.Issuance.{create}
use sd_jwt_rust.Issuance.Assembly.{IssuanceAssembly}
use sd_jwt_rust.Issuance.Assembly.Walk.{execute}

abbrev pub default_signing_alg : String
default_signing_alg = "ES256"

abbrev pub default_digest_alg : String
default_digest_alg = "sha-256"

-- What the issuer takes from `jsonwebtoken` and `serde_json` besides: whether a JWK is an octet key,
-- its JSON value, and the bytes of a JWS header without a type and of the payload.
pub record Signing (j : Jose) : Type 0 where
  pub is_octet_key : j.Jwk → Bool
  pub jwk_to_value : j.Jwk → Value
  pub header_to_vec : Algorithm → Attempt (List ℕ)
  pub payload_to_vec : Members → Attempt (List ℕ)

-- The generator of `rand`: how it is made, its bytes, and a number in a range.
pub record Rng : Type 1 where
  pub State : Type 0
  pub initialize : State
  pub fill_bytes : ℕ → State → List ℕ × State
  pub gen_range : ℕ → ℕ → State → ℕ × State

unfoldable pub generate_salt_with_rng : Codec → (rng : Rng) → rng.State → String × rng.State
generate_salt_with_rng c rng state =
    let (buf, state₁) = rng.fill_bytes 16 state in (base64url_encode c buf, state₁)

-- `rng`: the generator, made where it is first asked for.
unfoldable pub get_or_initialize : (rng : Rng) → Option rng.State → rng.State
get_or_initialize rng none = rng.initialize
get_or_initialize rng (some state) = state

-- `LegacyIssuanceRandomSource`, from which all salts come.
unfoldable pub legacy_random_source : Codec → Rng → RandomSource
unfolding generate_salt_with_rng get_or_initialize
legacy_random_source c rng = record {
  State = Option rng.State;
  disclosure_salt = λ state.
      let (salt, state₁) = generate_salt_with_rng c rng (get_or_initialize rng state) in
      (salt, some state₁);
  decoy_count = λ low high state.
      let (count, state₁) = rng.gen_range low high (get_or_initialize rng state) in
      (count, some state₁);
  decoy_salt = λ state.
      let (salt, state₁) = generate_salt_with_rng c rng (get_or_initialize rng state) in
      (salt, some state₁);
}

pub record SdJwtIssuerPlanner : Type 0 where
  pub sign_alg : String

unfoldable pub new_planner : Option String → SdJwtIssuerPlanner
new_planner none = record { sign_alg = default_signing_alg }
new_planner (some sign_alg) = record { sign_alg = sign_alg }

pub record PreparedSdJwt : Type 0 where
  pub algorithm : Algorithm
  pub disclosures : List String
  pub payload : String
  pub protected : String
  pub serialization_format : SerializationFormat
  pub signing_input : String

-- `validate_public_confirmation_claim` of the issuer, on the user's claims.
unfoldable pub validate_user_claims : Value → Result (Unit {0})
validate_user_claims user_claims = do
  claims ← ok_or (as_object user_claims) (invalid_input "SD-JWT user claims must be a JSON object")
  validate_public_confirmation_claim claims

abbrev pub always_revealed : List String
always_revealed = "iss" ∷ "iat" ∷ "exp" ∷ []

-- The claims that are always revealed, and the others in their order.
unfoldable pub reveal : List String → Members → Members × Members
reveal [] claims = (empty, claims)
reveal (key ∷ keys) claims =
    let (revealed, rest) = reveal keys (shift_remove key claims) in
    (elim (get key claims) [ none ↦ revealed | some value ↦ member key value revealed ], rest)

-- `Map::append`: each member in turn is inserted.
unfoldable pub append_members : Members → Members → Members
append_members m empty = m
append_members m (member k v others) = append_members (insert k v m) others

-- The claims without a confirmation that the holder's key replaces.
unfoldable pub without_confirmation {ℓ} : {A : Type ℓ} → Option A → Members → Members
without_confirmation none claims = claims
without_confirmation (some key) claims = shift_remove cnf_key claims

module _ (j : Jose) (signing : Signing j) where
  unfoldable pub validate_public_holder_key : Option j.Jwk → Result (Unit {0})
  validate_public_holder_key none = ok tt
  validate_public_holder_key (some key) =
      ensure (not (signing.is_octet_key key))
        (invalid_input "holder_key must be a public asymmetric JWK")

  unfoldable pub confirm : Option j.Jwk → Members → Members
  confirm none payload = payload
  confirm (some key) payload =
      insert cnf_key (object (member jwk_key (signing.jwk_to_value key) empty)) payload

  -- The payload that is signed: the published claims, the digest algorithm, the claims that are
  -- always revealed, and the holder's key.
  unfoldable pub payload_of : Members → Members → Option j.Jwk → Members
  unfolding append_members confirm
  payload_of published revealed holder_key =
      confirm holder_key
        (append_members (insert digest_alg_key (string default_digest_alg) published) revealed)

  module _ (c : Codec) (source : RandomSource) where
    -- `prepare_with_random_source_and_plan_executor`; the state of the random source comes back.
    unfoldable pub prepare_with_plan_executor :
        SdJwtIssuerPlanner
        → Value
        → ClaimsForSelectiveDisclosureStrategy
        → Option j.Jwk
        → Bool
        → SerializationFormat
        → source.State
        → (IssuancePlan → Result IssuanceAssembly)
        → Result (PreparedSdJwt × source.State)
    unfolding validate_user_claims validate_public_holder_key without_confirmation reveal payload_of
    prepare_with_plan_executor self user_claims strategy holder_key add_decoy_claims format random
          execute_plan =
        do
          validate_public_holder_key holder_key
          validate_user_claims user_claims
          sd_strategy ← finalize_input strategy
          check_for_sd_claim user_claims
          claims_obj ← ok_or (as_object user_claims) (conversion_error "json object")
          let (revealed, rest) = reveal always_revealed (without_confirmation holder_key claims_obj)
          (plan, random₁) ← create source add_decoy_claims (object rest) sd_strategy random
          assembly ← execute_plan plan
          published ← ok_or (as_object assembly.claims) (conversion_error "json object")
          algorithm ← map_err (j.algorithm_from_str self.sign_alg) deserialization_error
          header_bytes ← map_err (signing.header_to_vec algorithm) deserialization_error
          payload_bytes ←
              map_err (signing.payload_to_vec (payload_of published revealed holder_key))
                deserialization_error
          let protected = base64url_encode c header_bytes
          let payload = base64url_encode c payload_bytes
          ok (
            record {
              algorithm = algorithm;
              disclosures = map (λ disclosure. disclosure.raw_b64) assembly.disclosures;
              payload = payload;
              protected = protected;
              serialization_format = format;
              signing_input = append protected (append "." payload);
            },
            random₁,
          )

    -- `prepare_with_random_source`, behind `prepare`.
    unfoldable pub prepare :
        SdJwtIssuerPlanner
        → Value
        → ClaimsForSelectiveDisclosureStrategy
        → Option j.Jwk
        → Bool
        → SerializationFormat
        → source.State
        → Result (PreparedSdJwt × source.State)
    unfolding prepare_with_plan_executor
    prepare self user_claims strategy holder_key add_decoy_claims format random =
        prepare_with_plan_executor self user_claims strategy holder_key add_decoy_claims format
          random (execute c)

unfoldable pub complete_encoded_signature : Codec → PreparedSdJwt → String → Result String
complete_encoded_signature c self signature = elim self.serialization_format [
  | compact ↦
      ok (
        append (join "~" (append self.signing_input (append "." signature) ∷ self.disclosures)) "~")
  | flattened_json ↦
      map_err
        (c.write_flattened (record {
          protected = self.protected;
          payload = self.payload;
          signature = signature;
          header = record { disclosures = self.disclosures; kb_jwt = none };
        }))
        deserialization_error
  | general_json ↦
      map_err
        (c.write_general (record {
          payload = self.payload;
          signatures =
              record {
                protected = self.protected;
                signature = signature;
                header = record { disclosures = self.disclosures; kb_jwt = none };
              }
              ∷ [];
        }))
        deserialization_error
]

unfoldable pub complete :
    Curves → (j : Jose) → Codec → Result (Unit {0}) → PreparedSdJwt → List ℕ → j.Key → Result String
unfolding complete_encoded_signature
complete e j c install self signature verification_key = do
  _ ←
      verify_remote_signature e j c install self.algorithm (as_bytes self.signing_input) signature
        verification_key
  complete_encoded_signature c self (base64url_encode c signature)
