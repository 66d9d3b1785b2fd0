-- ===== src/Verifier/Presentation.antt =====
-- What `SDJWTVerifier::new_with_policy` of src/verifier.rs has established where it succeeds: the
-- theorems of its steps, put together.
use Prim.Native.String.{◌++◌ as append}
use mathlib.Core.Path.{subst}
use sd_jwt_rust.Prelude.{
  ℕ, String, ◌≡◌, refl, sym, ap, ◌∙◌, Bool, not, Option, none, some, ltb, length, ◌∷◌,
}
use sd_jwt_rust.Error.{Result, ok, done}
use sd_jwt_rust.Error.Yields.{
  Yields, yields, fails, Yields-self, Yields-both, Yields-bind, Yields-ensure, Yields-ok,
  Yields-of_Ensures,
}
use sd_jwt_rust.Json.{Value, Members, string, get}
use sd_jwt_rust.Text.{as_bytes, join, IsFree}
use sd_jwt_rust.Jose.{Jose, Algorithm}
use sd_jwt_rust.Codec.{Codec, base64_hash}
use sd_jwt_rust.Policy.{VerificationPolicy, confirmation_jwk, object_at, get_in, cnf_key, jwk_key}
use sd_jwt_rust.Preprocessing.{DisclosureMappings}
use sd_jwt_rust.Preprocessing.Mappings.{Holds, preprocess_disclosures_serial-Holds}
use sd_jwt_rust.Preprocessing.Native.{Threads, preprocess_disclosures}
use sd_jwt_rust.Preprocessing.Native.Equivalence.{preprocess_disclosures-serial}
use sd_jwt_rust.Common.{
  SdJwtCommon, SerializationFormat, compact, flattened_json, general_json, new_engine, parse_sd_jwt,
  parse_by_format, publish_mappings, any_longer, max_sd_jwt_input_bytes, max_sd_jwt_disclosures,
  max_sd_jwt_disclosure_bytes, separator,
}
use sd_jwt_rust.Common.Limits.{IsLimited, parse_sd_jwt-IsLimited}
use sd_jwt_rust.Common.Parsing.{IsParsed, parse_compact_sd_jwt-IsParsed, present, trailing_of}
use sd_jwt_rust.Verifier.{
  SdJwtVerifier, new_verifier, new_with_policy, verify_expectations, create_verifier_hash_mappings,
  key_binding_validation,
}
use sd_jwt_rust.Verifier.Claims.{IsExtracted, extract_sd_claims-IsExtracted}
use sd_jwt_rust.Verifier.Trust.{IsTrusted, verify_sd_jwt-yields}
use sd_jwt_rust.Verifier.Binding.{IsBound, ConfirmedBy, verify_key_binding_jwt-yields, join-snoc}

-- The three collections of an engine.
abbrev pub mappings_of : SdJwtCommon → DisclosureMappings
mappings_of engine = record {
  hash_to_decoded_disclosure = engine.hash_to_decoded_disclosure;
  hash_to_disclosure = engine.hash_to_disclosure;
  ordered_disclosure_digests = engine.ordered_disclosure_digests;
}

module _ (c : Codec) where
  -- A compact presentation is all in the engine.
  abbrev pub IsParsedAs : SerializationFormat → String → SdJwtCommon → Type 0
  IsParsedAs compact input engine = IsParsed c input engine
  IsParsedAs _ input engine = Unit

  parsed_as :
      (format : SerializationFormat) (self : SdJwtCommon) (input : String) (engine : SdJwtCommon)
      → parse_by_format c format self input ≡ ok engine
      → IsParsedAs format input engine
  unfolding parse_by_format
  parsed_as compact self input engine h =
      Yields-ok (Yields-of_Ensures (parse_compact_sd_jwt-IsParsed c self input)) h
  parsed_as flattened_json self input engine h = tt
  parsed_as general_json self input engine h = tt

  parse_sd_jwt-IsParsedAs :
      (format : SerializationFormat) (input : String)
      → Yields (IsParsedAs format input) (parse_sd_jwt c (new_engine format) input)
  unfolding parse_sd_jwt
  parse_sd_jwt-IsParsedAs format input =
      Yields-ensure (not (ltb max_sd_jwt_input_bytes (length (as_bytes input)))) _ (λ _.
        Yields-bind (Yields-self (parse_by_format c format (new_engine format) input)) (λ parsed e.
          Yields-ensure (not (ltb max_sd_jwt_disclosures (length parsed.input_disclosures))) _ (λ _.
            Yields-ensure (not (any_longer max_sd_jwt_disclosure_bytes parsed.input_disclosures)) _
              (λ _. yields {a = parsed} (parsed_as format (new_engine format) input parsed e)))))

  publish :
      (format : SerializationFormat) (input : String) (engine : SdJwtCommon)
      (m : DisclosureMappings)
      → IsParsedAs format input engine
      → IsParsedAs format input (publish_mappings engine m)
  unfolding publish_mappings
  publish compact input engine m p = record {
    sd_jwt = p.sd_jwt;
    stored = p.stored;
    joined = p.joined;
    jwt_free = p.jwt_free;
    disclosures_free = p.disclosures_free;
    kb_free = p.kb_free;
    body = p.body;
    second = p.second;
    payload = p.payload;
    decoded = p.decoded;
    published = p.published;
  }
  publish flattened_json input engine m p = tt
  publish general_json input engine m p = tt

module _ (c : Codec) (j : Jose) (policy : VerificationPolicy)
    (get_issuer_key : String → j.Header → Result j.Key) where
  -- Both expectations hold, or none was given.
  abbrev pub IsBoundAs : SdJwtCommon → Option Members → Option String → Option String → Type 0
  IsBoundAs engine holder none none = Unit
  IsBoundAs engine holder (some aud) (some nonce) = IsBound c j policy engine holder aud nonce
  IsBoundAs engine holder _ _ = ⊥

  pub record IsVerified (format : SerializationFormat) (input : String) (aud nonce : Option String)
      (self : SdJwtVerifier) : Type 0 where
    pub limited : IsLimited input self.sd_jwt_engine
    pub parsed : IsParsedAs c format input self.sd_jwt_engine
    pub holds : Holds c self.sd_jwt_engine.input_disclosures (mappings_of self.sd_jwt_engine)
    pub trusted : IsTrusted c j policy get_issuer_key self.sd_jwt_engine self.sd_jwt_payload
    pub extracted :
        IsExtracted self.sd_jwt_engine self.sd_jwt_payload self.verified_claims
          self.duplicate_hash_check
    pub holder : self.holder_public_key_payload ≡ object_at cnf_key self.sd_jwt_payload
    pub bound : IsBoundAs self.sd_jwt_engine self.holder_public_key_payload aud nonce

  expectations :
      (self : SdJwtVerifier) (aud nonce : Option String)
      → Yields
          (λ _. IsBoundAs self.sd_jwt_engine self.holder_public_key_payload aud nonce)
          (verify_expectations c j policy self aud nonce)
  unfolding verify_expectations
  expectations self none none = yields tt
  expectations self (some aud) (some nonce) =
      verify_key_binding_jwt-yields c j policy self aud nonce
  expectations self none (some nonce) = fails _
  expectations self (some aud) none = fails _

  module _ (threads : Threads) (acquires : ℕ → Bool) (available_threads : ℕ) where
    mappings :
        (engine : SdJwtCommon)
        → Yields
            (λ engine'.
              (m : DisclosureMappings) × Holds c engine.input_disclosures m
              × (engine' ≡ publish_mappings engine m))
            (create_verifier_hash_mappings c j policy threads acquires available_threads engine)
    unfolding create_verifier_hash_mappings
    mappings engine =
        Yields-bind
          (Yields-self
            (preprocess_disclosures c threads acquires available_threads engine.input_disclosures))
          (λ m e. yields (
            m,
            preprocess_disclosures_serial-Holds c engine.input_disclosures (
                preprocess_disclosures-serial c threads acquires available_threads
                  engine.input_disclosures e),
            refl,
          ))

    -- What holds of the engine, once the issuer's claims are there.
    abbrev AreFacts : SerializationFormat → String → Members → SdJwtCommon → Type 0
    AreFacts format input claims engine =
        IsLimited input engine
        × IsParsedAs c format input engine
        × Holds c engine.input_disclosures (mappings_of engine)
        × IsTrusted c j policy get_issuer_key engine claims

    facts :
        (format : SerializationFormat) (input : String) (parsed : SdJwtCommon)
        (m : DisclosureMappings) (claims : Members)
        → IsLimited input parsed
        → IsParsedAs c format input parsed
        → Holds c parsed.input_disclosures m
        → IsTrusted c j policy get_issuer_key (publish_mappings parsed m) claims
        → AreFacts format input claims (publish_mappings parsed m)
    unfolding publish_mappings
    facts format input parsed m claims l p h t = (
      record { bytes = l.bytes; count = l.count; sizes = l.sizes },
      publish c format input parsed m p,
      h,
      t,
    )

    -- The steps in their order, each with its theorem.
    new_with_policy-yields :
        (install : Result (Unit {0})) (input : String) (aud nonce : Option String)
        (format : SerializationFormat)
        → Yields (IsVerified format input aud nonce) (
            new_with_policy c j policy threads acquires available_threads install input
              get_issuer_key aud nonce format)
    unfolding new_with_policy
    new_with_policy-yields install input aud nonce format =
        Yields-bind (Yields-self install) (λ _ _.
          Yields-bind
            (Yields-both (Yields-of_Ensures (parse_sd_jwt-IsLimited c (new_engine format) input))
              (parse_sd_jwt-IsParsedAs c format input))
            (λ parsed p. Yields-bind (mappings parsed) (λ engine (m, holds, published).
              Yields-bind
                (verify_sd_jwt-yields c j policy get_issuer_key
                  (record (new_verifier format) { sd_jwt_engine = engine }))
                (λ verified (trusted, kept).
                  let known =
                    subst (AreFacts format input verified.sd_jwt_payload)
                      (sym published ∙ sym (ap (λ v. v.sd_jwt_engine) kept))
                      (facts format input parsed m verified.sd_jwt_payload p.0 p.1 holds (
                        subst (λ e. IsTrusted c j policy get_issuer_key e verified.sd_jwt_payload)
                          published trusted)) in
                  Yields-bind (Yields-of_Ensures (extract_sd_claims-IsExtracted verified))
                    (λ r extracted.
                      Yields-bind
                        (expectations
                          (record verified { duplicate_hash_check = r.1; verified_claims = r.0 })
                          aud nonce)
                        (λ _ bound. yields (record {
                          limited = known.0;
                          parsed = known.1;
                          holds = known.2;
                          trusted = known.3;
                          extracted = extracted;
                          holder = ap (λ v. v.holder_public_key_payload) kept;
                          bound = bound;
                        })))))))

    -- A verifier that was made holds a presentation within the limits, all of it where it is compact;
    -- the maps of exactly its disclosures; the claims of an issuer's JWT whose signature was verified
    -- under the policy; as its verified claims what the disclosures reveal of those, with every
    -- disclosure referenced; and, where an audience and a nonce were expected, a key-binding JWT,
    -- signed with the confirmation key in the issuer's claims, that binds both to the presentation.
    pub new_with_policy-IsVerified :
        (install : Result (Unit {0})) (input : String) (aud nonce : Option String)
        (format : SerializationFormat) {self : SdJwtVerifier}
        → new_with_policy c j policy threads acquires available_threads install input get_issuer_key
            aud nonce format
          ≡ ok self
        → IsVerified format input aud nonce self
    new_with_policy-IsVerified install input aud nonce format h =
        Yields-ok (new_with_policy-yields install input aud nonce format) h

    -- The input of a compact presentation is a part that ends in `~` and a key-binding JWT behind it,
    -- in which no `~` stands; the key that the issuer's claims confirm verifies that JWT for the
    -- audience, and it carries the nonce and the hash of the part in front of it.
    pub record IsCovered (input aud nonce : String) (issued : Members) : Type 0 where
      pub front : String
      pub token : String
      pub parts : input ≡ append (append front "~") token
      pub token_free : IsFree separator token
      pub jwk_value : Value
      pub confirmed : confirmation_jwk issued ≡ some jwk_value
      pub jwk : j.Jwk
      pub parsed : j.jwk_from_value jwk_value ≡ done jwk
      pub key : j.Key
      pub loaded : j.key_from_jwk jwk ≡ done key
      pub header : j.Header
      pub claims : Members
      pub verified :
          (algorithm : Algorithm) × (j.decode token key (key_binding_validation algorithm aud)
            ≡ done (header, claims))
      pub answers : get "nonce" claims ≡ some (string nonce)
      pub hashed :
          get "sd_hash" claims ≡ some (string (base64_hash c (as_bytes (append front "~"))))

    ConfirmedBy-get_in :
        (o : Option Members) (v : Value) → ConfirmedBy o v → get_in jwk_key o ≡ some v
    unfolding get_in
    ConfirmedBy-get_in none v h = absurd h
    ConfirmedBy-get_in (some m) v h = h

    same_jwt : {o : Option String} {a b : String} → o ≡ some a → o ≡ some b → a ≡ b
    same_jwt h k = cc

    covered :
        (self : SdJwtVerifier) (input aud nonce : String)
        → IsParsed c input self.sd_jwt_engine
        → self.holder_public_key_payload ≡ object_at cnf_key self.sd_jwt_payload
        → IsBound c j policy self.sd_jwt_engine self.holder_public_key_payload aud nonce
        → IsCovered input aud nonce self.sd_jwt_payload
    unfolding confirmation_jwk
    covered self input aud nonce p holder b =
        let disclosures = self.sd_jwt_engine.input_disclosures in
        record {
          front = join "~" (b.sd_jwt ∷ disclosures);
          token = b.token;
          parts =
              sym p.joined
              ∙ ap (λ kb. present p.sd_jwt disclosures kb) b.presented
              ∙ ap (λ s. present s disclosures (some b.token)) (same_jwt p.stored b.stored)
              ∙ join-snoc b.sd_jwt disclosures b.token;
          token_free = subst (λ kb. IsFree separator (trailing_of kb)) b.presented p.kb_free;
          jwk_value = b.jwk_value;
          confirmed =
              ap (get_in jwk_key) (sym holder)
              ∙ ConfirmedBy-get_in self.holder_public_key_payload b.jwk_value b.confirmed;
          jwk = b.jwk;
          parsed = b.parsed;
          key = b.key;
          loaded = b.loaded;
          header = b.token_header;
          claims = b.claims;
          verified = (j.alg b.header, b.verified);
          answers = b.answers;
          hashed = b.hashed;
        }

    -- A verifier that was made from a compact presentation, with an audience and a nonce expected,
    -- has checked a key-binding JWT that is all of the input behind the last `~`. The confirmation key
    -- in the issuer's claims verifies it for the audience, and it carries the nonce and, as its
    -- `sd_hash`, the hash of all of the input in front of it, the last `~` included.
    pub new_with_policy-IsCovered :
        (install : Result (Unit {0})) (input aud nonce : String) {self : SdJwtVerifier}
        → new_with_policy c j policy threads acquires available_threads install input get_issuer_key
            (some aud)
            (some nonce)
            compact
          ≡ ok self
        → IsCovered input aud nonce self.sd_jwt_payload
    new_with_policy-IsCovered install input aud nonce {self} h =
        let v = new_with_policy-IsVerified install input (some aud) (some nonce) compact h in
        covered self input aud nonce v.parsed v.holder v.bound
