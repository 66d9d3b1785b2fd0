-- ===== src/Issuer/Preparation.antt =====
-- What a preparation in src/issuer.rs signs: the walk over the claims, put together with the claims
-- that are always revealed.
use Prim.Native.String.{◌++◌ as append}
use sd_jwt_rust.Prelude.{ℕ, ◌≡◌, refl, Bool, true, Option, some, List, map}
use sd_jwt_rust.Error.{ok, done, Ensures, returns, Ensures-bind, Ensures-ok_or, Ensures-map_err}
use sd_jwt_rust.Json.{Value, Members, null, bool, number, string, array, object, as_object}
use sd_jwt_rust.Codec.{Codec, base64url_encode}
use sd_jwt_rust.Jose.{Jose}
use sd_jwt_rust.Policy.{validate_public_confirmation_claim}
use sd_jwt_rust.Reserved.{lacks, is_reserved, check_for_sd_claim-lacks}
use sd_jwt_rust.Common.{SerializationFormat}
use sd_jwt_rust.Strategy.{ClaimsForSelectiveDisclosureStrategy, finalize_input}
use sd_jwt_rust.Plan.{RandomSource}
use sd_jwt_rust.Issuance.Assembly.Walk.{execute}
use sd_jwt_rust.Issuance.Reference.{conceal}
use sd_jwt_rust.Issuance.Soundness.{create-conceal}
use sd_jwt_rust.Issuer.{
  Signing, SdJwtIssuerPlanner, PreparedSdJwt, validate_user_claims, validate_public_holder_key,
  always_revealed, reveal, without_confirmation, payload_of, prepare, prepare_with_plan_executor,
}
use sd_jwt_rust.Issuer.Checks.{
  user_claims-Checks, reserved-Checks, finalize_input-Ensures, holder_key-Checks,
}
use sd_jwt_rust.Issuer.Payload.{IsPayload, payload_of-IsPayload}

module _ (j : Jose) (signing : Signing j) (c : Codec) (source : RandomSource)
    (self : SdJwtIssuerPlanner) (user_claims : Value)
    (strategy : ClaimsForSelectiveDisclosureStrategy) (holder_key : Option j.Jwk)
    (add_decoy_claims : Bool) (format : SerializationFormat) (random : source.State) where
  -- What a prepared SD-JWT holds.
  pub record IsPrepared (prepared : PreparedSdJwt) (after : source.State) : Type 0 where
    pub claims : Members
    pub is_object : user_claims ≡ object claims
    pub unreserved : lacks is_reserved user_claims ≡ true
    pub public_claim : validate_public_confirmation_claim claims ≡ ok tt
    pub public_key : validate_public_holder_key j signing holder_key ≡ ok tt
    pub paths : ClaimsForSelectiveDisclosureStrategy
    pub finalized : finalize_input strategy ≡ ok paths
    pub revealed : Members
    pub rest : Members
    pub parted : reveal always_revealed (without_confirmation holder_key claims) ≡ (revealed, rest)
    pub published : Members
    pub concealed :
        (conceal c source add_decoy_claims (object rest) paths random).0 ≡ object published
    pub disclosures :
        prepared.disclosures
        ≡ map (λ d. d.raw_b64) (conceal c source add_decoy_claims (object rest) paths random).1
    pub drawn : after ≡ (conceal c source add_decoy_claims (object rest) paths random).2
    pub algorithm : j.algorithm_from_str self.sign_alg ≡ done prepared.algorithm
    pub header : List ℕ
    pub written_header : signing.header_to_vec prepared.algorithm ≡ done header
    pub protected : prepared.protected ≡ base64url_encode c header
    pub body : List ℕ
    pub written_body :
        signing.payload_to_vec (payload_of j signing published revealed holder_key) ≡ done body
    pub issued :
        IsPayload j signing published
          (without_confirmation holder_key claims)
          holder_key
          (payload_of j signing published revealed holder_key)
    pub payload : prepared.payload ≡ base64url_encode c body
    pub signing_input :
        prepared.signing_input ≡ append prepared.protected (append "." prepared.payload)

as_object-some : (v : Value) {m : Members} → as_object v ≡ some m → v ≡ object m
as_object-some null h = cc
as_object-some (bool b) h = cc
as_object-some (number n) h = cc
as_object-some (string s) h = cc
as_object-some (array xs) h = cc
as_object-some (object m) h = cc

same_value : {A : Type 0} {o : Option A} {a b : A} → o ≡ some a → o ≡ some b → a ≡ b
same_value h k = cc

-- A preparation does not panic. One that succeeds had claims of an object in which no reserved key
-- stands and no private confirmation key, a holder key that is no octet key, and paths that start
-- with `$.`; it holds the disclosures of one walk over the claims that are not always revealed, in
-- order, and signs the base64 of the header and of the payload. That payload names the digest
-- algorithm, shows iss, iat and exp as the user gave them where they were given, holds the holder's
-- key where there is one, and is what the walk published under all keys but those. The salts are
-- drawn in the order of the walk.
pub prepare-IsPrepared :
    (j : Jose) (signing : Signing j) (c : Codec) (source : RandomSource) (self : SdJwtIssuerPlanner)
    (user_claims : Value) (strategy : ClaimsForSelectiveDisclosureStrategy)
    (holder_key : Option j.Jwk) (add_decoy_claims : Bool) (format : SerializationFormat)
    (random : source.State)
    → Ensures
        (λ (prepared, after).
          IsPrepared j signing c source self user_claims strategy holder_key add_decoy_claims format
            random prepared after)
        (prepare j signing c source self user_claims strategy holder_key add_decoy_claims format
          random)
unfolding prepare prepare_with_plan_executor execute validate_user_claims
prepare-IsPrepared j signing c source self user_claims strategy holder_key decoys format random =
    Ensures-bind (holder_key-Checks j signing holder_key) λ _ key.
      Ensures-bind (user_claims-Checks user_claims) λ _ (claims₀, object₀, public).
        Ensures-bind (finalize_input-Ensures strategy) λ paths finalized.
          Ensures-bind (reserved-Checks user_claims) λ _ unreserved.
            Ensures-ok_or (as_object user_claims) _ λ claims object_claims.
              let (revealed, rest) =
                reveal always_revealed (without_confirmation holder_key claims) in
              Ensures-bind (create-conceal c source decoys (object rest) paths random)
                λ plan executed. rw executed.0 (
                  Ensures-ok_or (as_object (conceal c source decoys (object rest) paths random).0) _
                    λ published is_published.
                      Ensures-map_err (j.algorithm_from_str self.sign_alg) _ λ algorithm named.
                        Ensures-map_err (signing.header_to_vec algorithm) _ λ header written.
                          Ensures-map_err
                            (signing.payload_to_vec
                              (payload_of j signing published revealed holder_key))
                            _
                            λ body written_body. returns (record {
                              claims = claims;
                              is_object = as_object-some user_claims object_claims;
                              unreserved = (check_for_sd_claim-lacks user_claims).0 unreserved;
                              public_claim = rw (same_value object_claims object₀) public;
                              public_key = key;
                              paths = paths;
                              finalized = finalized;
                              revealed = revealed;
                              rest = rest;
                              parted = refl;
                              published = published;
                              concealed = as_object-some _ is_published;
                              disclosures = refl;
                              drawn = executed.1;
                              algorithm = named;
                              header = header;
                              written_header = written;
                              protected = refl;
                              body = body;
                              written_body = written_body;
                              issued =
                                  payload_of-IsPayload j signing published
                                    (without_confirmation holder_key claims) holder_key;
                              payload = refl;
                              signing_input = refl;
                            }))
