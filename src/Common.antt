-- ===== src/Common.antt =====
-- `SDJWTCommon` of src/lib.rs: the three serializations of a presentation and how they are parsed,
-- with their limits, and the preprocessing of the disclosures that the parsers found.
pub mod Limits
pub mod Parsing
use Prim.Native.String.{◌++◌ as append}
use sd_jwt_rust.Prelude.{
  ℕ, suc, ◌+◌, ◌*◌, String, Bool, true, false, not, Option, none, some, List, [], ◌∷◌, ◌==◌, ltb,
  nat_eq, if◌then◌else◌, length,
}
use sd_jwt_rust.Prelude.Maps.{HashMap}
use sd_jwt_rust.Error.{
  Result, ok, err, panic, out_of_fuel, Attempt, done, failed, ◌>>=◌, ◌>>◌, ensure, ok_or, map_err,
  invalid_input, invalid_state, deserialization_error, index_out_of_bounds,
}
use sd_jwt_rust.Json.{Value, Members, get, as_object, as_str}
use sd_jwt_rust.Text.{split, occurrences, as_bytes, decimal}
use sd_jwt_rust.Text.Utf8.{from_utf8}
use sd_jwt_rust.Codec.{Codec, FlattenedJson, GeneralJson, GeneralJsonSignature, base64url_decode}
use sd_jwt_rust.Payload.{jwt_payload_decode}
use sd_jwt_rust.Policy.{get_in}
use sd_jwt_rust.Preprocessing.{DisclosureMappings, preprocess_disclosures_serial}

abbrev pub max_sd_jwt_input_bytes : ℕ
max_sd_jwt_input_bytes = 2 * 1024 * 1024

abbrev pub max_sd_jwt_disclosures : ℕ
max_sd_jwt_disclosures = 8192

abbrev pub max_sd_jwt_disclosure_bytes : ℕ
max_sd_jwt_disclosure_bytes = 64 * 1024

-- The code of `~`, and of `.`.
abbrev pub separator : ℕ
separator = 126

abbrev pub jwt_separator : ℕ
jwt_separator = 46

pub data SerializationFormat : Type 0 where
  flattened_json general_json compact : SerializationFormat

pub record SdJwtCommon : Type 0 where
  pub serialization_format : SerializationFormat
  pub unverified_input_key_binding_jwt : Option String
  pub unverified_sd_jwt : Option String
  pub unverified_input_sd_jwt_payload : Option Members
  pub hash_to_decoded_disclosure : HashMap Value
  pub hash_to_disclosure : HashMap String
  pub input_disclosures : List String
  pub ordered_disclosure_digests : List String
  pub sign_alg : Option String

-- The default engine, with a serialization format.
abbrev pub new_engine : SerializationFormat → SdJwtCommon
new_engine format = record {
  serialization_format = format;
  unverified_input_key_binding_jwt = none;
  unverified_sd_jwt = none;
  unverified_input_sd_jwt_payload = none;
  hash_to_decoded_disclosure = [];
  hash_to_disclosure = [];
  input_disclosures = [];
  ordered_disclosure_digests = [];
  sign_alg = none;
}

-- `next_back` on the parts behind the first: the last of them, and those before it.
unfoldable pub next_back : String → List String → String × List String
next_back p [] = (p, [])
next_back p (q ∷ qs) = let (trailing, disclosures) = next_back q qs in (trailing, p ∷ disclosures)

-- A trailing part that is empty stands for no key-binding JWT.
unfoldable pub non_empty : String → Option String
non_empty trailing = if trailing == "" then none else some trailing

unfoldable pub result_value {ℓ} : {A : Type ℓ} → Result A → Option A
result_value (ok a) = some a
result_value _ = none

unfoldable pub attempt_value {ℓ} : {A : Type ℓ} → Attempt A → Option A
attempt_value (done a) = some a
attempt_value (failed m) = none

-- `and_then` on `Option`.
unfoldable pub and_then {ℓ κ} : {A : Type ℓ} {B : Type κ} → Option A → (A → Option B) → Option B
and_then none f = none
and_then (some a) f = f a

unfoldable pub any_longer : ℕ → List String → Bool
any_longer limit [] = false
any_longer limit (d ∷ ds) = if ltb limit (length (as_bytes d)) then true else any_longer limit ds

unfoldable pub join_jwt : String → String → String → String
join_jwt protected payload signature =
    append protected (append "." (append payload (append "." signature)))

-- `split_jwt`: exactly three parts.
unfoldable pub three_parts : List String → Result (String × String × String)
three_parts (protected ∷ payload ∷ signature ∷ []) = ok (protected, payload, signature)
three_parts _ = err (invalid_state "Invalid signed JWT, expected three parts")

unfoldable pub split_jwt : String → Result (String × String × String)
unfolding three_parts
split_jwt jwt = three_parts (split jwt_separator jwt)

-- The second part of a JWT, which its payload is.
unfoldable pub second_part : List String → Option String
second_part (header ∷ payload ∷ rest) = some payload
second_part _ = none

-- The loop-free chain of `parts.next()` and `next_back()` on the parts of a compact presentation:
-- the JWT, the disclosures and the trailing part. A split has at least one part, so that the first
-- `next` finds one; where it is the only one the length check has answered.
unfoldable pub compact_parts : List String → Result (String × String × List String)
unfolding next_back
compact_parts [] = err (invalid_input "Invalid SD-JWT length: 0")
compact_parts (sd_jwt ∷ []) = err (invalid_input "Invalid SD-JWT length: 1")
compact_parts (sd_jwt ∷ p ∷ ps) =
    let (trailing, disclosures) = next_back p ps in ok (sd_jwt, trailing, disclosures)

-- The only signature of a General JSON presentation.
unfoldable pub only_signature : List GeneralJsonSignature → Result GeneralJsonSignature
only_signature [] = err (invalid_input "General JSON SD-JWT must contain at least one signature")
only_signature (s ∷ []) = ok s
only_signature (s ∷ _ ∷ _) =
    err (invalid_input "General JSON SD-JWT with multiple signatures is not supported yet")

module _ (c : Codec) where
  unfoldable pub sign_algorithm_of : List String → Option String
  unfolding result_value attempt_value and_then
  sign_algorithm_of (jwt_header ∷ payload ∷ rest) =
      and_then (result_value (base64url_decode c jwt_header)) (λ decoded.
        and_then (from_utf8 decoded) (λ decoded_str.
          and_then (attempt_value (c.from_str decoded_str))
            (λ json_sign_alg. and_then (get_in "alg" (as_object json_sign_alg)) as_str)))
  sign_algorithm_of _ = none

  unfoldable pub decode_header_and_get_sign_algorithm : String → Option String
  unfolding sign_algorithm_of
  decode_header_and_get_sign_algorithm sd_jwt = sign_algorithm_of (split jwt_separator sd_jwt)

  unfoldable pub parse_compact_sd_jwt : SdJwtCommon → String → Result SdJwtCommon
  unfolding compact_parts non_empty second_part
  parse_compact_sd_jwt self sd_jwt_with_disclosures = do
    ensure (not (ltb (suc max_sd_jwt_disclosures) (occurrences separator sd_jwt_with_disclosures)))
        (invalid_input "SD-JWT exceeds the disclosure count limit")
    (sd_jwt, trailing, disclosures) ← compact_parts (split separator sd_jwt_with_disclosures)
    jwt_body ←
        ok_or (second_part (split jwt_separator sd_jwt))
          (index_out_of_bounds 1 3 "Invalid JWT: cannot extract payload")
    payload ← jwt_payload_decode c jwt_body
    ok (record self {
      sign_alg = decode_header_and_get_sign_algorithm sd_jwt;
      unverified_input_key_binding_jwt = non_empty trailing;
      input_disclosures = disclosures;
      unverified_sd_jwt = some sd_jwt;
      unverified_input_sd_jwt_payload = some payload;
    })

  unfoldable pub parse_flattened_json_sd_jwt : SdJwtCommon → String → Result SdJwtCommon
  unfolding join_jwt
  parse_flattened_json_sd_jwt self sd_jwt_with_disclosures = do
    parsed ← map_err (c.read_flattened sd_jwt_with_disclosures) deserialization_error
    payload ← jwt_payload_decode c parsed.payload
    let sd_jwt = join_jwt parsed.protected parsed.payload parsed.signature
    ok (record self {
      unverified_input_key_binding_jwt = parsed.header.kb_jwt;
      input_disclosures = parsed.header.disclosures;
      unverified_input_sd_jwt_payload = some payload;
      unverified_sd_jwt = some sd_jwt;
      sign_alg = decode_header_and_get_sign_algorithm sd_jwt;
    })

  unfoldable pub parse_general_json_sd_jwt : SdJwtCommon → String → Result SdJwtCommon
  unfolding join_jwt only_signature
  parse_general_json_sd_jwt self sd_jwt_with_disclosures = do
    parsed ← map_err (c.read_general sd_jwt_with_disclosures) deserialization_error
    signature ← only_signature parsed.signatures
    payload ← jwt_payload_decode c parsed.payload
    let sd_jwt = join_jwt signature.protected parsed.payload signature.signature
    ok (record self {
      unverified_input_key_binding_jwt = signature.header.kb_jwt;
      input_disclosures = signature.header.disclosures;
      unverified_input_sd_jwt_payload = some payload;
      unverified_sd_jwt = some sd_jwt;
      sign_alg = decode_header_and_get_sign_algorithm sd_jwt;
    })

  unfoldable pub parse_by_format : SerializationFormat → SdJwtCommon → String → Result SdJwtCommon
  unfolding parse_compact_sd_jwt parse_flattened_json_sd_jwt parse_general_json_sd_jwt
  parse_by_format compact = parse_compact_sd_jwt
  parse_by_format flattened_json = parse_flattened_json_sd_jwt
  parse_by_format general_json = parse_general_json_sd_jwt

  unfoldable pub parse_sd_jwt : SdJwtCommon → String → Result SdJwtCommon
  unfolding parse_by_format any_longer
  parse_sd_jwt self sd_jwt_with_disclosures = do
    ensure (not (ltb max_sd_jwt_input_bytes (length (as_bytes sd_jwt_with_disclosures))))
        (invalid_input "SD-JWT exceeds the serialized input size limit")
    self' ← parse_by_format self.serialization_format self sd_jwt_with_disclosures
    ensure (not (ltb max_sd_jwt_disclosures (length self'.input_disclosures)))
        (invalid_input "SD-JWT exceeds the disclosure count limit")
    ensure (not (any_longer max_sd_jwt_disclosure_bytes self'.input_disclosures))
        (invalid_input "SD-JWT disclosure exceeds the encoded size limit")
    ok self'

-- What `create_hash_mappings` and `create_verifier_hash_mappings` do with the mappings.
unfoldable pub publish_mappings : SdJwtCommon → DisclosureMappings → SdJwtCommon
publish_mappings self mappings = record self {
  hash_to_decoded_disclosure = mappings.hash_to_decoded_disclosure;
  hash_to_disclosure = mappings.hash_to_disclosure;
  ordered_disclosure_digests = mappings.ordered_disclosure_digests;
}

unfoldable pub create_hash_mappings : Codec → SdJwtCommon → Result SdJwtCommon
unfolding publish_mappings
create_hash_mappings c self = do
  mappings ← preprocess_disclosures_serial c self.input_disclosures
  ok (publish_mappings self mappings)
