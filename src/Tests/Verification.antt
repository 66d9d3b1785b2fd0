-- ===== src/Tests/Verification.antt =====
-- Runs of src/verifier.rs.
use sd_jwt_rust.Prelude.{String, ◌≡◌, refl, true, Option, none, some, [], ◌∷◌, arith}
use sd_jwt_rust.Error.{Result, ok, panic, Ensures}
use sd_jwt_rust.Json.{Value, Members, string, array, object, nil, cons, empty, member}
use sd_jwt_rust.Policy.{default_policy}
use sd_jwt_rust.Common.{compact, new_engine}
use sd_jwt_rust.Verifier.{
  SdJwtVerifier, new_with_policy, new_verifier, verify_sd_jwt, verify_key_binding_jwt,
}
use sd_jwt_rust.Verifier.Presentation.{
  IsVerified, IsCovered, new_with_policy-IsVerified, new_with_policy-IsCovered,
}
use sd_jwt_rust.Prelude.{contains}
use sd_jwt_rust.Prelude.Maps.{contains_key, lookup, insert}
use sd_jwt_rust.Text.{as_bytes, occurrences, split, join}
use sd_jwt_rust.Text.Utf8.{from_utf8}
use sd_jwt_rust.Codec.{base64url_decode, base64_hash}
use sd_jwt_rust.Payload.{
  jwt_payload_decode, unique_value, as_object_value, then_insert, as_array_value, then_push,
}
use sd_jwt_rust.Preprocessing.{
  preprocess_disclosures_serial, outcome_result, enter_disclosure, decode_disclosure,
}
use sd_jwt_rust.Preprocessing.Native.{preprocess_disclosures}
use sd_jwt_rust.Common.{decode_header_and_get_sign_algorithm, parse_sd_jwt, publish_mappings}
use sd_jwt_rust.Policy.{
  allows, get_in, object_at, validate_public_confirmation_claim, validate_key_binding_jwk_policy,
}
use sd_jwt_rust.Verifier.Unpack.{unpack_disclosed_claims, reject_nested_sd_alg}
use sd_jwt_rust.Jose.{es256}
use sd_jwt_rust.Policy.{cnf_key}
use sd_jwt_rust.Prelude.Maps.{HashMap}
use sd_jwt_rust.Verifier.{extract_sd_claims}
use sd_jwt_rust.Verifier.Claims.{IsExtracted, extract_sd_claims-IsExtracted}
use Prim.Native.Nat.{◌+◌, ◌≤◌}
use sd_jwt_rust.Verifier.Unpack.{max_processed_sd_jwt_depth}
use sd_jwt_rust.Verifier.Unpack.Clean.{nesting}
use sd_jwt_rust.Verifier.Unpack.Plain.{is_plain, unpack_disclosed_claims-plain}
use sd_jwt_rust.Verifier.Unpack.Level.{Unpacked}
use sd_jwt_rust.Verifier.Unpack.Invariant.{unpack_disclosed_claims-Unpacked}
use sd_jwt_rust.Verifier.Trust.{IsTrusted, verify_sd_jwt-IsTrusted, verify_sd_jwt-panic}
use sd_jwt_rust.Verifier.Binding.{IsBound, verify_key_binding_jwt-IsBound}
use sd_jwt_rust.Tests.Setting.{
  codec, jose, resolver, threads, claims, payload_members, first_disclosure, second_disclosure,
}

abbrev presentation : String
presentation = "h.p.s~d1~d2~kb"

abbrev run : Result SdJwtVerifier
run =
    new_with_policy codec jose default_policy threads (λ n. true) 4 (ok tt) presentation resolver
      (some "me") (some "n") compact

abbrev claims_of : Result SdJwtVerifier → Option Value
claims_of (ok v) = some v.verified_claims
claims_of _ = none

run_test :
    claims_of run
    ≡ some (
        object (
          member "iss" (string "me") (
            member "list" (array (cons (string "city") (cons (string "Rome") nil))) (
              member "cnf"
                (object (member "jwk" (object (member "kty" (string "EC") empty)) empty))
                (member "name" (string "Ada") empty)))))
unfolding new_with_policy parse_sd_jwt as_bytes occurrences split join jwt_payload_decode
    base64url_decode base64_hash unique_value from_utf8 as_object_value then_insert as_array_value
    then_push preprocess_disclosures preprocess_disclosures_serial outcome_result enter_disclosure
    contains_key lookup insert contains publish_mappings unpack_disclosed_claims allows get_in
    object_at validate_public_confirmation_claim validate_key_binding_jwk_policy decode_disclosure
    decode_header_and_get_sign_algorithm reject_nested_sd_alg
run_test = refl

abbrev verifier_of : Result SdJwtVerifier → SdJwtVerifier
verifier_of (ok v) = v
verifier_of _ = new_verifier compact

run-ok : run ≡ ok (verifier_of run)
unfolding new_with_policy parse_sd_jwt as_bytes occurrences split join jwt_payload_decode
    base64url_decode base64_hash unique_value from_utf8 as_object_value then_insert as_array_value
    then_push preprocess_disclosures preprocess_disclosures_serial outcome_result enter_disclosure
    contains_key lookup insert contains publish_mappings unpack_disclosed_claims allows get_in
    object_at validate_public_confirmation_claim validate_key_binding_jwk_policy decode_disclosure
    decode_header_and_get_sign_algorithm reject_nested_sd_alg
run-ok = refl

new_with_policy-IsVerified_example :
    IsVerified codec jose default_policy resolver compact presentation
      (some "me")
      (some "n")
      (verifier_of run)
new_with_policy-IsVerified_example =
    new_with_policy-IsVerified codec jose default_policy resolver threads (λ n. true) 4 (ok tt)
      presentation (some "me") (some "n") compact run-ok

new_with_policy-IsCovered_example :
    IsCovered codec jose default_policy resolver threads
      (λ n. true)
      4
      presentation
      "me"
      "n"
      (verifier_of run).sd_jwt_payload
new_with_policy-IsCovered_example =
    new_with_policy-IsCovered codec jose default_policy resolver threads (λ n. true) 4 (ok tt)
      presentation "me" "n" run-ok

extract_sd_claims-IsExtracted_example :
    Ensures
      (λ r. IsExtracted (verifier_of run).sd_jwt_engine (verifier_of run).sd_jwt_payload r.0 r.1)
      (extract_sd_claims (verifier_of run))
extract_sd_claims-IsExtracted_example = extract_sd_claims-IsExtracted (verifier_of run)

abbrev hashes : HashMap Value
hashes = ("d1", first_disclosure) ∷ ("d2", second_disclosure) ∷ []

unpack_disclosed_claims-Unpacked_example :
    Ensures (Unpacked 0 []) (unpack_disclosed_claims hashes 129 (object claims) 0 [])
unpack_disclosed_claims-Unpacked_example =
    unpack_disclosed_claims-Unpacked hashes 129 (object claims) 0 [] (omega arith) (omega arith) tt

abbrev trusting : SdJwtVerifier
trusting = record (new_verifier compact) {
  sd_jwt_engine = record (new_engine compact) {
    unverified_sd_jwt = some "h.p.s";
    unverified_input_sd_jwt_payload = some payload_members;
    unverified_input_key_binding_jwt = some "kb";
    input_disclosures = "d1" ∷ "d2" ∷ [];
    sign_alg = some "ES256";
  };
}

abbrev trust : Result SdJwtVerifier
trust = verify_sd_jwt codec jose default_policy resolver trusting (some "ES256")

trust-ok : trust ≡ ok (verifier_of trust)
unfolding verify_sd_jwt allows object_at validate_public_confirmation_claim get_in
trust-ok = refl

verify_sd_jwt-IsTrusted_example :
    IsTrusted codec jose default_policy resolver trusting.sd_jwt_engine
      (verifier_of trust).sd_jwt_payload
    × (verifier_of trust ≡ record trusting {
      sd_jwt_payload = (verifier_of trust).sd_jwt_payload;
      holder_public_key_payload = object_at cnf_key (verifier_of trust).sd_jwt_payload;
    })
verify_sd_jwt-IsTrusted_example =
    verify_sd_jwt-IsTrusted codec jose default_policy resolver trusting trust-ok

abbrev anonymous : Members
anonymous = member "sub" (string "x") empty

abbrev anonymous_verifier : SdJwtVerifier
anonymous_verifier = record (new_verifier compact) {
  sd_jwt_engine = record (new_engine compact) {
    unverified_sd_jwt = some "h.q.s";
    unverified_input_sd_jwt_payload = some anonymous;
  };
}

default_policy-allows : allows default_policy es256 ≡ true
unfolding allows
default_policy-allows = refl

verify_sd_jwt-panic_example :
    verify_sd_jwt codec jose default_policy resolver anonymous_verifier (some "ES256") ≡ panic
verify_sd_jwt-panic_example =
    verify_sd_jwt-panic codec jose default_policy resolver anonymous_verifier "h.q.s" "ES256"
      (es256, none) anonymous refl refl default_policy-allows refl refl refl

bound-ok : verify_key_binding_jwt codec jose default_policy (verifier_of trust) "me" "n" ≡ ok tt
unfolding verify_sd_jwt verify_key_binding_jwt allows object_at validate_public_confirmation_claim
    get_in validate_key_binding_jwk_policy base64_hash as_bytes from_utf8 join
bound-ok = refl

verify_key_binding_jwt-IsBound_example :
    IsBound codec jose default_policy
      (verifier_of trust).sd_jwt_engine
      (verifier_of trust).holder_public_key_payload
      "me"
      "n"
verify_key_binding_jwt-IsBound_example =
    verify_key_binding_jwt-IsBound codec jose default_policy (verifier_of trust) "me" "n" bound-ok

abbrev plain : Value
plain = object (member "iss" (string "me") (member "list" (array (cons (string "Rome") nil)) empty))

plain-is_plain : is_plain plain ≡ true
unfolding is_plain
plain-is_plain = refl

plain-nesting : nesting plain + 0 ≤ max_processed_sd_jwt_depth
unfolding nesting
plain-nesting = omega arith

unpack_disclosed_claims-plain_example :
    unpack_disclosed_claims hashes 129 plain 0 ("d9" ∷ []) ≡ ok (plain, "d9" ∷ [])
unpack_disclosed_claims-plain_example =
    unpack_disclosed_claims-plain hashes 129 plain 0 ("d9" ∷ []) (omega arith) plain-is_plain
      plain-nesting
