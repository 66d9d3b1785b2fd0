-- ===== src/Verifier/Claims.antt =====
-- What `extract_sd_claims` of src/verifier.rs gives back.
use sd_jwt_rust.Prelude.{
  String, ◌≡◌, refl, ap, ◌⊎◌, inl, inr, Bool, true, false, not, ◌&&◌, ◌||◌, Option, none, some,
  List, [], ◌∷◌, ◌==◌, eq_iff, nat_eq, arith, length, All, contains, Distinct, and-intro, not-intro,
  not-elim, nat_eq_iff, Bool-cases,
}
use sd_jwt_rust.Error.{Ensures, returns, Ensures-bind, Ensures-ensure, Ensures-weaken}
use sd_jwt_rust.Error.Yields.{Ensures-both}
use sd_jwt_rust.Json.{
  Value, Items, Members, null, bool, number, string, array, object, nil, cons, empty, member, get,
  contains_key,
}
use sd_jwt_rust.Reserved.{digest_alg_key, lacks, items_lack, members_lack}
use sd_jwt_rust.Common.{SdJwtCommon}
use sd_jwt_rust.Verifier.{
  SdJwtVerifier, extract_sd_claims, other_digest_alg, reject_in_payload, check_referenced,
}
use sd_jwt_rust.Verifier.Unpack.{unpack_fuel, reject_nested_sd_alg, reject_items, reject_values}
use sd_jwt_rust.Verifier.Unpack.Clean.{IsClean}
use sd_jwt_rust.Verifier.Unpack.Reveals.{Reveals}
use sd_jwt_rust.Verifier.Unpack.Revealing.{unpack_disclosed_claims-Reveals}
use sd_jwt_rust.Verifier.Unpack.Invariant.{unpack_disclosed_claims-Unpacked}

abbrev pub is_digest_alg : String → Bool
is_digest_alg k = k == digest_alg_key

first :
    (v : Value) (k : String) (m : Members)
    → contains_key (member k v m) digest_alg_key ≡ false
    → is_digest_alg k ≡ false
first v k m h = ground arith

behind :
    (v : Value) (k : String) (m : Members)
    → contains_key (member k v m) digest_alg_key ≡ false
    → contains_key m digest_alg_key ≡ false
behind v k m h = ground arith

mutual
  unfolding reject_nested_sd_alg lacks

  nested : (v : Value) → Ensures (λ _. lacks is_digest_alg v ≡ true) (reject_nested_sd_alg v)
  nested null = returns refl
  nested (bool b) = returns refl
  nested (number n) = returns refl
  nested (string s) = returns refl
  nested (array xs) = nested_items xs
  nested (object m) =
      Ensures-ensure (not (contains_key m digest_alg_key)) _ (λ e. nested_values m (not-elim _ e))

  nested_items : (xs : Items) → Ensures (λ _. items_lack is_digest_alg xs ≡ true) (reject_items xs)
  nested_items nil = returns refl
  nested_items (cons v xs) =
      Ensures-bind (nested v)
        (λ _ hv. Ensures-weaken (nested_items xs) (λ _ hs. and-intro _ _ hv hs))

  nested_values :
      (m : Members)
      → contains_key m digest_alg_key ≡ false
      → Ensures (λ _. members_lack is_digest_alg m ≡ true) (reject_values m)
  nested_values empty h = returns refl
  nested_values (member k v m) h = Ensures-bind (nested v) (λ _ hv.
      Ensures-weaken (nested_values m (behind v k m h))
        (λ _ hs. and-intro _ _ (not-intro _ (first v k m h)) (and-intro _ _ hv hs)))

-- Every value but that of `_sd_alg` itself lacks the key.
unfoldable pub values_lack : Members → Bool
unfolding lacks
values_lack empty = true
values_lack (member k v m) = (is_digest_alg k || lacks is_digest_alg v) && values_lack m

-- What holds of extracted claims: the payload's digest algorithm is SHA-256 or left out, `_sd_alg`
-- stands at the top level only, the claims are what the disclosures reveal of the payload and are
-- clean, and each presented disclosure was met under its digest, once.
pub record IsExtracted (engine : SdJwtCommon) (payload : Members) (claims : Value)
    (seen : List String) : Type 0 where
  pub sha_256 :
      (get digest_alg_key payload ≡ none) ⊎ (get digest_alg_key payload ≡ some (string "sha-256"))
  pub top_level : values_lack payload ≡ true
  pub revealed : Reveals engine.hash_to_decoded_disclosure (object payload) claims
  pub clean : IsClean 0 claims
  pub distinct : Distinct seen
  pub counted : length engine.ordered_disclosure_digests ≡ length engine.input_disclosures
  pub referenced : All (λ d. contains seen d ≡ true) engine.ordered_disclosure_digests

payload_lacks : (m : Members) → Ensures (λ _. values_lack m ≡ true) (reject_in_payload m)
unfolding reject_in_payload values_lack
payload_lacks empty = returns refl
payload_lacks (member k v m) = elim (Bool-cases (is_digest_alg k)) [
  | inl e ↦ rw e (payload_lacks m)
  | inr e ↦ rw e (
      Ensures-bind (nested v)
        (λ _ hv. Ensures-weaken (payload_lacks m) (λ _ hs. and-intro _ _ hv hs)))
]

supported :
    (o : Option Value)
    → not (other_digest_alg o) ≡ true
    → (o ≡ none) ⊎ (o ≡ some (string "sha-256"))
unfolding other_digest_alg
supported none h = inl refl
supported (some (string s)) h =
    inr (ap (λ t. some (string t)) ((eq_iff s "sha-256").0 (ground arith)))
supported (some null) h = cc
supported (some (bool b)) h = cc
supported (some (number n)) h = cc
supported (some (array xs)) h = cc
supported (some (object m)) h = cc

All-check_referenced :
    (seen ds : List String)
    → Ensures (λ _. All (λ d. contains seen d ≡ true) ds) (check_referenced seen ds)
unfolding check_referenced
All-check_referenced seen [] = returns tt
All-check_referenced seen (d ∷ ds) =
    Ensures-ensure (contains seen d) _
      (λ e. Ensures-weaken (All-check_referenced seen ds) (λ _ h. (e, h)))

-- Extraction ends in claims or an error, and does not panic, whatever the payload and the
-- disclosures hold. If it ends in claims, the payload names SHA-256 or no digest algorithm, and none
-- below the top level; the claims are what the disclosures reveal of the payload: the claims in the
-- clear without the markup and, under their names or at their places, the values of the disclosures
-- that the digests refer to, unpacked in the same way. The claims hold the key `_sd` nowhere, no key twice in one object, and are
-- nested at most 128 deep; and the digests met are distinct, with every presented disclosure's
-- among them.
pub extract_sd_claims-IsExtracted :
    (self : SdJwtVerifier)
    → Ensures
        (λ r. IsExtracted self.sd_jwt_engine self.sd_jwt_payload r.0 r.1)
        (extract_sd_claims self)
unfolding extract_sd_claims
extract_sd_claims-IsExtracted self =
    let engine = self.sd_jwt_engine in
    Ensures-ensure (not (other_digest_alg (get digest_alg_key self.sd_jwt_payload))) _ (λ alg.
      Ensures-bind (payload_lacks self.sd_jwt_payload) (λ _ lack.
        Ensures-bind
          (Ensures-both
            (unpack_disclosed_claims-Unpacked engine.hash_to_decoded_disclosure unpack_fuel
              (object self.sd_jwt_payload) 0 [] (omega arith) (omega arith) tt)
            (unpack_disclosed_claims-Reveals engine.hash_to_decoded_disclosure unpack_fuel
              (object self.sd_jwt_payload) 0 []))
          (λ r (u, shown).
            Ensures-ensure
              (nat_eq (length engine.ordered_disclosure_digests) (length engine.input_disclosures))
              _
              (λ count.
                Ensures-bind (All-check_referenced r.1 engine.ordered_disclosure_digests) (λ _ met.
                  returns {a = r} (record {
                    sha_256 = supported _ alg;
                    top_level = lack;
                    revealed = shown;
                    clean = u.0;
                    distinct = u.1.distinct;
                    counted = (nat_eq_iff _ _).0 count;
                    referenced = met;
                  }))))))
