-- ===== src/Tests/Issuing.antt =====
-- Runs of src/issuer.rs and src/issuer/issuance_plan.rs.
use Prim.Native.String.{◌++◌ as append}
use sd_jwt_rust.Prelude.{
  ℕ, suc, String, ◌≡◌, refl, true, false, none, some, List, [], ◌∷◌, arith, contains,
}
use sd_jwt_rust.Error.{ok, done, Ensures}
use sd_jwt_rust.Json.{Value, string, object, array, nil, cons, empty, member, has_distinct_keys}
use sd_jwt_rust.Text.{as_bytes, decimal, join, occurrences}
use sd_jwt_rust.Text.Utf8.{from_utf8}
use sd_jwt_rust.Codec.{base64url_encode, base64url_decode}
use sd_jwt_rust.Jose.{eddsa}
use sd_jwt_rust.Reserved.{lacks, is_reserved}
use sd_jwt_rust.Payload.{
  jwt_payload_decode, unique_value, as_object_value, then_insert, as_array_value, then_push,
}
use sd_jwt_rust.Signature.{verify_remote_signature}
use sd_jwt_rust.Common.{
  compact, join_jwt, non_empty, new_engine, parse_compact_sd_jwt,
  decode_header_and_get_sign_algorithm,
}
use sd_jwt_rust.Common.Parsing.{IsPresentable}
use sd_jwt_rust.Strategy.{
  ClaimsForSelectiveDisclosureStrategy, no_sd_claims, all_levels, custom, next_level, sd_for_key,
}
use sd_jwt_rust.Plan.{RandomSource}
use sd_jwt_rust.Issuance.{array_key, create}
use sd_jwt_rust.Issuance.Assembly.Walk.{execute_serial}
use sd_jwt_rust.Issuance.Reference.{conceal}
use sd_jwt_rust.Issuance.Soundness.{create-conceal}
use sd_jwt_rust.Issuance.Plain.{create-plain}
use sd_jwt_rust.Issuer.{Signing, PreparedSdJwt, prepare, complete}
use sd_jwt_rust.Issuer.Preparation.{IsPrepared, prepare-IsPrepared}
use sd_jwt_rust.Issuer.Completion.{complete-parse_compact_sd_jwt}
use sd_jwt_rust.Tests.Setting.{codec, jose, curves, payload_members}

-- Salts that count up, and two decoys at a time.
abbrev source : RandomSource
source = record {
  State = ℕ;
  disclosure_salt = λ n. ("s", suc n);
  decoy_count = λ low high n. (low, n);
  decoy_salt = λ n. ("decoy", suc n);
}

abbrev user_claims : Value
user_claims = object (
    member "iss" (string "me") (
      member "name" (string "Ada")
        (member "tags" (array (cons (string "a") (cons (string "b") nil))) empty)))

paths_test : next_level (custom ("tags[1]" ∷ "name" ∷ [])) "tags" ≡ custom ("[1]" ∷ [])
unfolding next_level
paths_test = refl

abbrev paths : ClaimsForSelectiveDisclosureStrategy
paths = custom ("$.name" ∷ "$.tags[1]" ∷ [])

create-conceal_example :
    let (concealed, made, random₁) = conceal codec source true user_claims all_levels 0 in
    Ensures
      (λ (plan, after).
        (execute_serial codec plan ≡ ok (record { claims = concealed; disclosures = made }))
        × (after ≡ random₁))
      (create source true user_claims all_levels 0)
create-conceal_example = create-conceal codec source true user_claims all_levels 0

unreserved : lacks is_reserved user_claims ≡ true
unfolding lacks
unreserved = refl

distinct : has_distinct_keys user_claims ≡ true
unfolding has_distinct_keys
distinct = refl

create-plain_example :
    Ensures
      (λ (plan, after).
        (execute_serial codec plan ≡ ok (record { claims = user_claims; disclosures = [] }))
        × (after ≡ 0))
      (create source false user_claims no_sd_claims 0)
create-plain_example = create-plain codec source user_claims 0 unreserved distinct

abbrev signing : Signing jose
signing = record {
  is_octet_key = λ k. false;
  jwk_to_value = λ k. k;
  header_to_vec = λ a. done (as_bytes "h");
  payload_to_vec = λ m. done (as_bytes "p");
}

prepare-IsPrepared_example :
    Ensures
      (λ (prepared, after).
        IsPrepared jose signing codec source
          (record { sign_alg = "ES256" })
          user_claims
          paths
          none
          true
          compact
          0
          prepared
          after)
      (prepare jose signing codec source
        (record { sign_alg = "ES256" })
        user_claims
        paths
        none
        true
        compact
        0)
prepare-IsPrepared_example =
    prepare-IsPrepared jose signing codec source (record { sign_alg = "ES256" }) user_claims paths
      none true compact 0

-- The two claims on the paths become disclosures, the element of the list first by its place.
two_disclosures_test :
    (conceal codec source false user_claims (custom ("name" ∷ "tags[1]" ∷ [])) 0).2 ≡ 2
unfolding conceal sd_for_key contains next_level array_key decimal
two_disclosures_test = refl

abbrev prepared : PreparedSdJwt
prepared = record {
  algorithm = eddsa;
  disclosures = "d1" ∷ "d2" ∷ [];
  payload = "p";
  protected = "h";
  serialization_format = compact;
  signing_input = "h.p";
}

abbrev signature : List ℕ
signature = as_bytes "ssssssssssssssssssssssssssssssssssssssssssssssssssssssssssssssss"

abbrev encoded : String
encoded = "ssssssssssssssssssssssssssssssssssssssssssssssssssssssssssssssss"

completed :
    complete curves jose codec (ok tt) prepared signature "issuer key"
    ≡ ok (append "h.p." (append encoded "~d1~d2~"))
unfolding complete from_utf8 as_bytes base64url_encode verify_remote_signature join
completed = refl

presentable :
    IsPresentable (join_jwt "h" "p" (base64url_encode codec signature)) ("d1" ∷ "d2" ∷ []) none
unfolding occurrences join non_empty join_jwt from_utf8 as_bytes base64url_encode
presentable = record {
  jwt_free = refl;
  disclosures_free = (refl, (refl, tt));
  kb_free = refl;
  kb_non_empty = refl;
  within = omega arith;
}

payload-ok : jwt_payload_decode codec "p" ≡ ok payload_members
unfolding jwt_payload_decode base64url_decode unique_value from_utf8 as_bytes as_object_value
    then_insert as_array_value then_push
payload-ok = refl

free : occurrences 46 (base64url_encode codec signature) ≡ 0
unfolding occurrences from_utf8 as_bytes base64url_encode
free = refl

free_part : (occurrences 46 "h" ≡ 0) × (occurrences 46 "p" ≡ 0)
unfolding occurrences
free_part = (refl, refl)

complete-parse_compact_sd_jwt_example :
    let sd_jwt = join_jwt "h" "p" (base64url_encode codec signature) in
    (parse_compact_sd_jwt codec (new_engine compact) (append "h.p." (append encoded "~d1~d2~"))
      ≡ ok (record (new_engine compact) {
        sign_alg = decode_header_and_get_sign_algorithm codec sd_jwt;
        unverified_input_key_binding_jwt = none;
        input_disclosures = "d1" ∷ "d2" ∷ [];
        unverified_sd_jwt = some sd_jwt;
        unverified_input_sd_jwt_payload = some payload_members;
      }))
    × (jose.verify_signature (base64url_encode codec signature) (as_bytes "h.p") "issuer key" eddsa
        ≡ done true)
complete-parse_compact_sd_jwt_example =
    complete-parse_compact_sd_jwt curves jose codec (ok tt) prepared signature "issuer key"
      (new_engine compact) refl refl completed free_part.0 free_part.1 free presentable payload-ok
