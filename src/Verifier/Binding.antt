-- ===== src/Verifier/Binding.antt =====
-- What `verify_key_binding_jwt` of src/verifier.rs has checked where it succeeds, and what its digest
-- is taken of.
use Prim.Native.String.{◌++◌ as append}
use text.Mathlib.TextLemmas.{append_assoc}
use sd_jwt_rust.Prelude.{
  String, ◌≡◌, refl, sym, ap, ◌∙◌, Bool, true, false, Option, none, some, List, [], ◌∷◌, ◌++◌,
  eq_iff,
}
use sd_jwt_rust.Error.{Error, ok, ensure, ok_or, done}
use sd_jwt_rust.Error.Yields.{
  Yields, yields, fails, Yields-self, Yields-ok, Yields-weaken, Yields-bind, Yields-ensure,
  Yields-ok_or, Yields-map_err,
}
use sd_jwt_rust.Json.{Value, Members, null, bool, number, string, array, object, get, contains_key}
use sd_jwt_rust.Text.{join, as_bytes}
use sd_jwt_rust.Jose.{Jose}
use sd_jwt_rust.Codec.{Codec, base64_hash}
use sd_jwt_rust.Policy.{VerificationPolicy, allows, jwk_key, validate_key_binding_jwk_policy}
use sd_jwt_rust.Policy.Keys.{
  AllowsAlgorithm, AllowsUse, AllowsOperations, validate_key_binding_jwk_policy-allows,
}
use sd_jwt_rust.Common.{SdJwtCommon}
use sd_jwt_rust.Verifier.{
  SdJwtVerifier, verify_key_binding_jwt, confirmation_key, get_key_binding_digest_hash, is_text,
  is_typ, key_binding_validation,
}

-- The part of a presentation in front of its key-binding JWT.
abbrev pub bound_part : String → List String → String
bound_part sd_jwt disclosures = append (join "~" (sd_jwt ∷ disclosures)) "~"

pub join-snoc :
    (p : String) (ps : List String) (t : String)
    → join "~" (p ∷ ps ++ t ∷ []) ≡ append (bound_part p ps) t
unfolding join
join-snoc p [] t = sym (append_assoc p "~" t)
join-snoc p (q ∷ qs) t = simp (join-snoc q qs t, append_assoc) refl

is_text-string : (o : Option Value) (t : String) → is_text o t ≡ true → o ≡ some (string t)
unfolding is_text
is_text-string none t h = cc
is_text-string (some (string s)) t h = ap (λ u. some (string u)) ((eq_iff s t).0 h)
is_text-string (some null) t h = cc
is_text-string (some (bool b)) t h = cc
is_text-string (some (number n)) t h = cc
is_text-string (some (array xs)) t h = cc
is_text-string (some (object m)) t h = cc

is_typ-some : (o : Option String) (t : String) → is_typ o t ≡ true → o ≡ some t
unfolding is_typ
is_typ-some none t h = cc
is_typ-some (some s) t h = ap some ((eq_iff s t).0 h)

abbrev pub ConfirmedBy : Option Members → Value → Type 0
ConfirmedBy none v = ⊥
ConfirmedBy (some m) v = get jwk_key m ≡ some v

guard {ℓ} : {P : Type ℓ} (b : Bool) (e : Error) → (b ≡ true → P) → Yields (λ _. P) (ensure b e)
guard true e h = yields (h refl)
guard false e h = fails _

value_found : (o : Option Value) (e : Error) → Yields (λ v. o ≡ some v) (ok_or o e)
value_found none e = fails _
value_found (some v) e = yields refl

confirmation_key-ConfirmedBy : (o : Option Members) → Yields (ConfirmedBy o) (confirmation_key o)
unfolding confirmation_key
confirmation_key-ConfirmedBy none = fails _
confirmation_key-ConfirmedBy (some m) = value_found (get jwk_key m) _

module _ (c : Codec) (j : Jose) (policy : VerificationPolicy) where
  -- The key-binding JWT is signed by the confirmation key, for the expected audience and nonce, over
  -- the part of the presentation in front of it.
  pub record IsBound (engine : SdJwtCommon) (holder : Option Members) (aud nonce : String)
      : Type 0 where
    pub jwk_value : Value
    pub confirmed : ConfirmedBy holder jwk_value
    pub token : String
    pub presented : engine.unverified_input_key_binding_jwt ≡ some token
    pub header : j.Header
    pub decoded : j.decode_header token ≡ done header
    pub allowed : allows policy (j.alg header) ≡ true
    pub jwk : j.Jwk
    pub parsed : j.jwk_from_value jwk_value ≡ done jwk
    pub algorithm : AllowsAlgorithm (j.algorithm_name (j.alg header)) (j.key_algorithm jwk)
    pub usage : AllowsUse (j.public_key_use jwk) (j.key_operations jwk)
    pub operations : AllowsOperations (j.key_operations jwk)
    pub key : j.Key
    pub loaded : j.key_from_jwk jwk ≡ done key
    pub token_header : j.Header
    pub claims : Members
    pub verified :
        j.decode token key (key_binding_validation (j.alg header) aud) ≡ done (token_header, claims)
    pub typed : j.typ token_header ≡ some "kb+jwt"
    pub answers : get "nonce" claims ≡ some (string nonce)
    pub dated : contains_key claims "iat" ≡ true
    pub sd_jwt : String
    pub stored : engine.unverified_sd_jwt ≡ some sd_jwt
    pub hashed :
        get "sd_hash" claims
        ≡ some (string (base64_hash c (as_bytes (bound_part sd_jwt engine.input_disclosures))))

  digest_hash :
      (self : SdJwtVerifier)
      → Yields
          (λ h.
            (sd_jwt : String) × (self.sd_jwt_engine.unverified_sd_jwt ≡ some sd_jwt)
            × (h
                ≡ base64_hash c
                    (as_bytes (bound_part sd_jwt self.sd_jwt_engine.input_disclosures))))
          (get_key_binding_digest_hash c self)
  unfolding get_key_binding_digest_hash
  digest_hash self =
      Yields-ok_or self.sd_jwt_engine.unverified_sd_jwt _
        (λ sd_jwt stored. yields (sd_jwt, stored, refl))

  check_hash :
      (o : Option Value) (h : String) (e : Error)
      → Yields (λ _. o ≡ some (string h)) (ensure (is_text o h) e)
  check_hash o h e = guard (is_text o h) e (is_text-string o h)

  -- The steps in their order.
  pub verify_key_binding_jwt-yields :
      (self : SdJwtVerifier) (aud nonce : String)
      → Yields
          (λ _. IsBound self.sd_jwt_engine self.holder_public_key_payload aud nonce)
          (verify_key_binding_jwt c j policy self aud nonce)
  unfolding verify_key_binding_jwt
  verify_key_binding_jwt-yields self aud nonce =
      Yields-bind (confirmation_key-ConfirmedBy self.holder_public_key_payload)
        (λ jwk_value confirmed.
          Yields-ok_or self.sd_jwt_engine.unverified_input_key_binding_jwt _ (λ token presented.
            Yields-map_err (j.decode_header token) _ (λ header decoded.
              Yields-ensure (allows policy (j.alg header)) _ (λ allowed.
                Yields-map_err (j.jwk_from_value jwk_value) _ (λ jwk parsed.
                  Yields-bind (Yields-self (validate_key_binding_jwk_policy j jwk (j.alg header)))
                    (λ _ fits. Yields-map_err (j.key_from_jwk jwk) _ (λ key loaded.
                      Yields-map_err
                        (j.decode token key (key_binding_validation (j.alg header) aud)) _
                        (λ r verified. Yields-ensure (is_typ (j.typ r.0) "kb+jwt") _ (λ typed.
                          Yields-ensure (is_text (get "nonce" r.1) nonce) _ (λ answers.
                            Yields-ensure (contains_key r.1 "iat") _ (λ dated.
                              Yields-bind (digest_hash self) (λ h hash.
                                Yields-weaken (check_hash (get "sd_hash" r.1) h _) (λ _ hashed.
                                  let policies =
                                    validate_key_binding_jwk_policy-allows j jwk (j.alg header)
                                      fits in
                                  record {
                                    jwk_value = jwk_value;
                                    confirmed = confirmed;
                                    token = token;
                                    presented = presented;
                                    header = header;
                                    decoded = decoded;
                                    allowed = allowed;
                                    jwk = jwk;
                                    parsed = parsed;
                                    algorithm = policies.0;
                                    usage = policies.1;
                                    operations = policies.2;
                                    key = key;
                                    loaded = loaded;
                                    token_header = r.0;
                                    claims = r.1;
                                    verified = verified;
                                    typed = is_typ-some _ _ typed;
                                    answers = is_text-string _ _ answers;
                                    dated = dated;
                                    sd_jwt = hash.0;
                                    stored = hash.1;
                                    hashed = hashed ∙ ap (λ t. some (string t)) hash.2;
                                  })))))))))))))

  -- A key-binding check that succeeds has verified the presented key-binding JWT under the
  -- confirmation key of the issuer's claims, with an algorithm that the policy and the key allow, for
  -- the expected audience; its type is `kb+jwt`, its nonce the expected one, it has an `iat`, and its
  -- `sd_hash` is the hash of the JWT and the disclosures as they were presented.
  pub verify_key_binding_jwt-IsBound :
      (self : SdJwtVerifier) (aud nonce : String)
      → verify_key_binding_jwt c j policy self aud nonce ≡ ok tt
      → IsBound self.sd_jwt_engine self.holder_public_key_payload aud nonce
  verify_key_binding_jwt-IsBound self aud nonce h =
      Yields-ok (verify_key_binding_jwt-yields self aud nonce) h
