-- ===== src/Verifier/Trust.antt =====
-- What `verify_sd_jwt` of src/verifier.rs has checked where it succeeds, and where it panics.
use sd_jwt_rust.Prelude.{
  String, ◌≡◌, refl, ap, ◌∙◌, true, none, some, eq_iff, inl, inr, Option-cases,
}
use sd_jwt_rust.Error.{Result, ok, panic, ok_or, done, conversion_error}
use sd_jwt_rust.Error.Yields.{
  Yields, yields, fails, aborts, Yields-self, Yields-ok, Yields-bind, Yields-ensure, Yields-ok_or,
  Yields-map_err,
}
use sd_jwt_rust.Json.{Value, Members, null, bool, number, string, array, object, get, as_str}
use sd_jwt_rust.Jose.{
  Jose, Algorithm, es256, es384, eddsa, rs256, rs384, rs512, ps256, ps384, ps512, other,
  algorithm_eq,
}
use sd_jwt_rust.Codec.{Codec}
use sd_jwt_rust.Common.{SdJwtCommon}
use sd_jwt_rust.Policy.{
  VerificationPolicy, allows, object_at, cnf_key, confirmation_jwk,
  validate_public_confirmation_claim,
}
use sd_jwt_rust.Policy.Keys.{IsPublic, validate_public_confirmation_claim-IsPublic}
use sd_jwt_rust.Verifier.{SdJwtVerifier, verify_sd_jwt, issuer_of, issuer_validation}

algorithm_eq_sound : (a b : Algorithm) → algorithm_eq a b ≡ true → a ≡ b
algorithm_eq_sound es256 es256 h = refl
algorithm_eq_sound es384 es384 h = refl
algorithm_eq_sound eddsa eddsa h = refl
algorithm_eq_sound rs256 rs256 h = refl
algorithm_eq_sound rs384 rs384 h = refl
algorithm_eq_sound rs512 rs512 h = refl
algorithm_eq_sound ps256 ps256 h = refl
algorithm_eq_sound ps384 ps384 h = refl
algorithm_eq_sound ps512 ps512 h = refl
algorithm_eq_sound (other a) (other b) h = ap other ((eq_iff a b).0 h)
algorithm_eq_sound _ _ h = cc

algorithm_eq_complete : (a : Algorithm) → algorithm_eq a a ≡ true
algorithm_eq_complete (other a) = (eq_iff a a).1 refl
algorithm_eq_complete _ = refl

text_of :
    (v : Value) → Yields (λ s. some v ≡ some (string s)) (ok_or (as_str v) (conversion_error "str"))
text_of (string s) = yields refl
text_of null = fails _
text_of (bool b) = fails _
text_of (number n) = fails _
text_of (array xs) = fails _
text_of (object m) = fails _

issuer_of-get :
    (payload : Members) → Yields (λ s. get "iss" payload ≡ some (string s)) (issuer_of payload)
unfolding issuer_of
issuer_of-get payload = elim (Option-cases (get "iss" payload)) [
  | inl e ↦ rw e aborts
  | inr e ↦ rw e.1 (text_of e.0)
]

module _ (c : Codec) (j : Jose) (policy : VerificationPolicy)
    (get_issuer_key : String → j.Header → Result j.Key) where
  -- The claims are those of a token that the resolved key of the named issuer verifies, under the
  -- algorithm of its header, which the policy allows and the raw header declares too; and a
  -- confirmation key among them is public.
  pub record IsTrusted (engine : SdJwtCommon) (claims : Members) : Type 0 where
    pub sd_jwt : String
    pub stored : engine.unverified_sd_jwt ≡ some sd_jwt
    pub header : j.Header
    pub decoded : j.decode_header sd_jwt ≡ done header
    pub allowed : allows policy (j.alg header) ≡ true
    pub declared : String
    pub declares : engine.sign_alg ≡ some declared
    pub agrees : j.algorithm_from_str declared ≡ done (j.alg header)
    pub payload : Members
    pub unverified : engine.unverified_input_sd_jwt_payload ≡ some payload
    pub issuer : String
    pub names : get "iss" payload ≡ some (string issuer)
    pub key : j.Key
    pub resolved : get_issuer_key issuer header ≡ ok key
    pub token_header : j.Header
    pub verified :
        j.decode sd_jwt key (issuer_validation (j.alg header)) ≡ done (token_header, claims)
    pub public_key : (jwk : Value) → confirmation_jwk claims ≡ some jwk → IsPublic jwk

  -- The steps in their order.
  pub verify_sd_jwt-yields :
      (self : SdJwtVerifier)
      → Yields
          (λ self'.
            IsTrusted self.sd_jwt_engine self'.sd_jwt_payload
            × (self' ≡ record self {
              sd_jwt_payload = self'.sd_jwt_payload;
              holder_public_key_payload = object_at cnf_key self'.sd_jwt_payload;
            }))
          (verify_sd_jwt c j policy get_issuer_key self self.sd_jwt_engine.sign_alg)
  unfolding verify_sd_jwt
  verify_sd_jwt-yields self =
      let engine = self.sd_jwt_engine in
      Yields-ok_or engine.unverified_sd_jwt _ (λ sd_jwt stored.
        Yields-map_err (j.decode_header sd_jwt) _ (λ header decoded.
          Yields-ensure (allows policy (j.alg header)) _ (λ allowed.
            Yields-ok_or engine.sign_alg _ (λ declared declares.
              Yields-map_err (j.algorithm_from_str declared) _ (λ a parsed.
                Yields-ensure (algorithm_eq a (j.alg header)) _ (λ same.
                  Yields-ok_or engine.unverified_input_sd_jwt_payload _ (λ payload unverified.
                    Yields-bind (issuer_of-get payload) (λ issuer names.
                      Yields-bind (Yields-self (get_issuer_key issuer header)) (λ key resolved.
                        Yields-map_err (j.decode sd_jwt key (issuer_validation (j.alg header))) _
                          (λ r verified.
                            Yields-bind (Yields-self (validate_public_confirmation_claim r.1))
                              (λ _ public.
                                yields
                                  {a = record self {
                                    sd_jwt_payload = r.1;
                                    holder_public_key_payload = object_at cnf_key r.1;
                                  }}
                                  (
                                    record {
                                      sd_jwt = sd_jwt;
                                      stored = stored;
                                      header = header;
                                      decoded = decoded;
                                      allowed = allowed;
                                      declared = declared;
                                      declares = declares;
                                      agrees =
                                          parsed
                                          ∙ ap done (algorithm_eq_sound a (j.alg header) same);
                                      payload = payload;
                                      unverified = unverified;
                                      issuer = issuer;
                                      names = names;
                                      key = key;
                                      resolved = resolved;
                                      token_header = r.0;
                                      verified = verified;
                                      public_key = λ jwk e.
                                          validate_public_confirmation_claim-IsPublic r.1 jwk e
                                            public;
                                    },
                                    refl,
                                  ))))))))))))

  -- A verification that succeeds has checked the signature of the stored JWT, under the key that the
  -- resolver gives for its issuer, with an algorithm that the policy allows and on which the header's
  -- two readings agree; the claims that it keeps are the verified ones, a confirmation key in them is
  -- public, and nothing else of the verifier changes but the confirmation claim that it remembers.
  pub verify_sd_jwt-IsTrusted :
      (self : SdJwtVerifier) {self' : SdJwtVerifier}
      → verify_sd_jwt c j policy get_issuer_key self self.sd_jwt_engine.sign_alg ≡ ok self'
      → IsTrusted self.sd_jwt_engine self'.sd_jwt_payload
        × (self' ≡ record self {
          sd_jwt_payload = self'.sd_jwt_payload;
          holder_public_key_payload = object_at cnf_key self'.sd_jwt_payload;
        })
  verify_sd_jwt-IsTrusted self h = Yields-ok (verify_sd_jwt-yields self) h

  -- A JWT that the policy's checks of the header pass, and whose unverified payload has no `iss`,
  -- makes the verifier panic before any signature is checked.
  pub verify_sd_jwt-panic :
      (self : SdJwtVerifier) (sd_jwt declared : String) (header : j.Header) (payload : Members)
      → self.sd_jwt_engine.unverified_sd_jwt ≡ some sd_jwt
      → j.decode_header sd_jwt ≡ done header
      → allows policy (j.alg header) ≡ true
      → j.algorithm_from_str declared ≡ done (j.alg header)
      → self.sd_jwt_engine.unverified_input_sd_jwt_payload ≡ some payload
      → get "iss" payload ≡ none
      → verify_sd_jwt c j policy get_issuer_key self (some declared) ≡ panic
  unfolding verify_sd_jwt issuer_of
  verify_sd_jwt-panic self sd_jwt declared header payload stored decoded allowed agrees unverified
        missing =
      rw (stored) (
        rw (decoded) (
          rw (allowed) (
            rw (agrees)
              (rw (algorithm_eq_complete (j.alg header)) (rw (unverified) (rw (missing)))))))
