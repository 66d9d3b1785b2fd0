-- ===== src/Holder/Construction.antt =====
-- What the construction of a holder in src/holder.rs has checked.

use sd_jwt_rust.Prelude.{String, ◌≡◌, refl, ap, ◌∙◌, true, not, Option, none, some, []}
use sd_jwt_rust.Error.{
  Result, ok, done, Ensures, returns, Ensures-bind, Ensures-ensure, Ensures-ok_or, Ensures-map_err,
  Ensures-weaken, Ensures-self, Ensures-ok, Ensures-ne-panic, Ensures-ne-out_of_fuel,
}
use sd_jwt_rust.Json.{Members, as_str}
use sd_jwt_rust.Codec.{Codec}
use sd_jwt_rust.Jose.{Jose, Algorithm}
use sd_jwt_rust.Policy.{VerificationPolicy, allows, get_in, is_some}
use sd_jwt_rust.Preprocessing.Mappings.{Holds, preprocess_disclosures_serial-Ensures}
use sd_jwt_rust.Common.{
  SdJwtCommon, SerializationFormat, new_engine, create_hash_mappings, publish_mappings, and_then,
  parse_sd_jwt,
}
use sd_jwt_rust.Common.Limits.{IsLimited, parse_sd_jwt-IsLimited}
use sd_jwt_rust.Verifier.Presentation.{mappings_of}
use sd_jwt_rust.Holder.{
  SdJwtHolder, holder_validation, verify_signature, check_issuer, taken, build,
}

is_some-none {ℓ} : {A : Type ℓ} (o : Option A) → not (is_some o) ≡ true → o ≡ none
unfolding is_some
is_some-none none h = refl
is_some-none (some a) h = cc

module _ (j : Jose) (policy : VerificationPolicy) where
  abbrev Resolver : Type 0
  Resolver = String → j.Header → Result j.Key

  -- The stored JWT verifies under a key that the resolver gave for the issuer that the payload names,
  -- with an algorithm that the policy allows.
  pub record IsIssued (resolver : Resolver) (engine : SdJwtCommon) : Type 0 where
    pub sd_jwt : String
    pub stored : engine.unverified_sd_jwt ≡ some sd_jwt
    pub header : j.Header
    pub decoded : j.decode_header sd_jwt ≡ done header
    pub header_allowed : allows policy (j.alg header) ≡ true
    pub payload : Members
    pub unverified : engine.unverified_input_sd_jwt_payload ≡ some payload
    pub issuer : String
    pub names : and_then (get_in "iss" (some payload)) as_str ≡ some issuer
    pub key : j.Key
    pub resolved : resolver issuer header ≡ ok key
    pub algorithm : Algorithm
    pub allowed : allows policy algorithm ≡ true
    pub verified : j.Header × Members
    pub signed : j.decode sd_jwt key (holder_validation algorithm) ≡ done verified

  -- A holder that was built without a resolver has checked no signature.
  abbrev pub IsIssuedAs : Option Resolver → SdJwtCommon → Type 0
  IsIssuedAs none engine = Unit
  IsIssuedAs (some resolver) engine = IsIssued resolver engine

  -- A resolver that gives a key or an error.
  abbrev pub IsTotal : Option Resolver → Type 0
  IsTotal none = Unit
  IsTotal (some resolver) =
      (issuer : String) (header : j.Header)
      → Ensures (λ key. resolver issuer header ≡ ok key) (resolver issuer header)

  abbrev IsSigned : SdJwtCommon → j.Key → Type 0
  IsSigned engine key =
      (sd_jwt : String) × (algorithm : Algorithm) × (verified : j.Header × Members)
      × (engine.unverified_sd_jwt ≡ some sd_jwt)
      × (allows policy algorithm ≡ true)
      × (j.decode sd_jwt key (holder_validation algorithm) ≡ done verified)

  signed :
      (engine : SdJwtCommon) (key : j.Key)
      → Ensures (λ _. IsSigned engine key) (verify_signature j policy engine key)
  unfolding verify_signature
  signed engine key = Ensures-ok_or engine.unverified_sd_jwt _ (λ sd_jwt stored.
      Ensures-ok_or engine.sign_alg _ (λ declared _.
        Ensures-map_err (j.algorithm_from_str declared) _ (λ algorithm _.
          Ensures-ensure (allows policy algorithm) _ (λ allowed.
            Ensures-map_err (j.decode sd_jwt key (holder_validation algorithm)) _
              (λ verified e. returns (sd_jwt, algorithm, verified, stored, allowed, e))))))

  same_jwt : {o : Option String} {a b : String} → o ≡ some a → o ≡ some b → a ≡ b
  same_jwt h k = cc

  issued :
      (resolver : Option Resolver) (engine : SdJwtCommon)
      → IsTotal resolver
      → Ensures (λ _. IsIssuedAs resolver engine) (check_issuer j policy resolver engine)
  unfolding check_issuer
  issued none engine total = returns tt
  issued (some resolver) engine total = Ensures-ok_or engine.unverified_sd_jwt _ (λ sd_jwt stored.
      Ensures-map_err (j.decode_header sd_jwt) _ (λ header decoded.
        Ensures-ensure (allows policy (j.alg header)) _ (λ header_allowed.
          Ensures-ok_or engine.unverified_input_sd_jwt_payload _ (λ payload unverified.
            Ensures-ok_or (and_then (get_in "iss" (some payload)) as_str) _ (λ issuer names.
              Ensures-bind (total issuer header) (λ key resolved.
                Ensures-weaken (signed engine key)
                  (λ _ (sd_jwt', algorithm, verified, stored', allowed, e). record {
                    sd_jwt = sd_jwt;
                    stored = stored;
                    header = header;
                    decoded = decoded;
                    header_allowed = header_allowed;
                    payload = payload;
                    unverified = unverified;
                    issuer = issuer;
                    names = names;
                    key = key;
                    resolved = resolved;
                    algorithm = algorithm;
                    allowed = allowed;
                    verified = verified;
                    signed =
                        ap (λ s. j.decode s key (holder_validation algorithm))
                          (same_jwt stored stored')
                        ∙ e;
                  })))))))

  -- What a holder holds: what the input parses to, which is within the limits and has no key-binding
  -- JWT, its payload and JWT, and the maps of exactly its disclosures.
  pub record IsHeld (c : Codec) (input : String) (format : SerializationFormat)
      (resolver : Option Resolver) (self : SdJwtHolder) : Type 0 where
    pub parsed : SdJwtCommon
    pub parses : parse_sd_jwt c (new_engine format) input ≡ ok parsed
    pub limited : IsLimited input parsed
    pub unbound : parsed.unverified_input_key_binding_jwt ≡ none
    pub issued : IsIssuedAs resolver parsed
    pub payload : parsed.unverified_input_sd_jwt_payload ≡ some self.sd_jwt_payload
    pub sd_jwt : parsed.unverified_sd_jwt ≡ some self.serialized_sd_jwt
    pub holds : Holds c parsed.input_disclosures (mappings_of self.sd_jwt_engine)
    pub unselected : self.hs_disclosures ≡ []

  -- What the input parses to, with what holds of it.
  parses-IsLimited :
      (c : Codec) (input : String) (format : SerializationFormat)
      → Ensures
          (λ engine.
            (parse_sd_jwt c (new_engine format) input ≡ ok engine) × IsLimited input engine)
          (parse_sd_jwt c (new_engine format) input)
  parses-IsLimited c input format =
      let parsed = parse_sd_jwt-IsLimited c (new_engine format) input in
      Ensures-weaken (Ensures-self _ (Ensures-ne-panic parsed) (Ensures-ne-out_of_fuel parsed))
        (λ engine e. (e, Ensures-ok parsed e))

  mapped :
      (c : Codec) (engine : SdJwtCommon)
      → Ensures
          (λ engine'. Holds c engine.input_disclosures (mappings_of engine'))
          (create_hash_mappings c engine)
  unfolding create_hash_mappings publish_mappings
  mapped c engine =
      Ensures-bind (preprocess_disclosures_serial-Ensures c engine.input_disclosures)
        (λ m h. returns h)

  -- Building a holder ends in a holder or an error and does not panic, if the provider's
  -- installation and the resolver do not. A holder that was built holds what its input parses to in
  -- the given serialization: a presentation within the limits and without a key-binding JWT, whose
  -- signature was verified if a resolver was given, and the maps of exactly its disclosures. No
  -- disclosure is selected yet.
  pub build-IsHeld :
      (c : Codec) (install : Result (Unit {0})) (input : String) (format : SerializationFormat)
      (resolver : Option Resolver)
      → Ensures (λ _. install ≡ ok tt) install
      → IsTotal resolver
      → Ensures (IsHeld c input format resolver) (build j policy c install input format resolver)
  unfolding build
  build-IsHeld c install input format resolver installs total = Ensures-bind installs (λ _ _.
      Ensures-bind (parses-IsLimited c input format) (λ engine (parses, limited).
        Ensures-ensure (not (is_some engine.unverified_input_key_binding_jwt)) _ (λ unbound.
          Ensures-bind (issued resolver engine total) (λ _ checked.
            Ensures-ok_or engine.unverified_input_sd_jwt_payload _ (λ payload e.
              Ensures-ok_or engine.unverified_sd_jwt _ (λ sd_jwt e'.
                Ensures-bind (mapped c (taken j policy engine)) (λ engine' holds. returns (record {
                  parsed = engine;
                  parses = parses;
                  limited = limited;
                  unbound = is_some-none _ unbound;
                  issued = checked;
                  payload = e;
                  sd_jwt = e';
                  holds = holds;
                  unselected = refl;
                }))))))))
