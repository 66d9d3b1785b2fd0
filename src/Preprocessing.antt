-- ===== src/Preprocessing.antt =====
-- src/disclosure_preprocessing.rs: jobs, outcomes, the serial preprocessing loop and the assembly of
-- the outcomes of any executor. The proofs, and the native executor with its policy, are in the
-- modules below.
pub mod Mappings
pub mod Assembly
pub mod Native
pub mod Budget
use Prim.Native.String.{◌++◌ as append}
use sd_jwt_rust.Prelude.{
  ℕ, zero, suc, ◌+◌, String, ◌≡◌, Bool, true, false, not, Option, none, some, List, [], ◌∷◌, ◌++◌,
  map, ◌==◌, nat_eq, ltb, leb, if◌then◌else◌, length,
}
use sd_jwt_rust.Prelude.Maps.{HashMap, insert, contains_key}
use sd_jwt_rust.Error.{
  Error, Result, ok, err, ◌>>=◌, ◌>>◌, ensure, map_err, map_error, display, invalid_state,
  invalid_disclosure, duplicate_digest_error, duplicate_disclosure_digest,
}
use sd_jwt_rust.Json.{Value}
use sd_jwt_rust.Text.{decimal, as_bytes}
use sd_jwt_rust.Codec.{Codec, base64_hash, base64url_decode}

pub record DisclosureJob : Type 0 where
  pub ordinal : ℕ
  pub encoded_disclosure : String

pub record ProcessedDisclosure : Type 0 where
  pub digest : String
  pub decoded_disclosure : Value

pub record DisclosureOutcome : Type 0 where
  pub ordinal : ℕ
  pub encoded_disclosure : String
  pub result : Option (Result ProcessedDisclosure)

pub record DisclosureMappings : Type 0 where
  pub hash_to_decoded_disclosure : HashMap Value
  pub hash_to_disclosure : HashMap String
  pub ordered_disclosure_digests : List String

abbrev pub no_mappings : DisclosureMappings
no_mappings = record {
  hash_to_decoded_disclosure = [];
  hash_to_disclosure = [];
  ordered_disclosure_digests = [];
}

unfoldable pub executor_contract_error : String → Error
executor_contract_error message =
    invalid_state (append "Disclosure preprocessing executor contract violation: " message)

-- The result of an outcome, or the contract error where there is none.
unfoldable pub outcome_result : ℕ → Option (Result ProcessedDisclosure) → Result ProcessedDisclosure
outcome_result ordinal none = err (
    executor_contract_error
      (append "no preprocessing result was returned for ordinal " (decimal ordinal)))
outcome_result ordinal (some r) = r

-- The part of the loop body behind the checks, shared by the serial loop and the assembly: reject a
-- digest that was seen, and enter the disclosure into the three collections.
unfoldable pub entered : String → ProcessedDisclosure → DisclosureMappings → DisclosureMappings
entered encoded processed m = record {
  hash_to_decoded_disclosure =
      insert processed.digest processed.decoded_disclosure m.hash_to_decoded_disclosure;
  hash_to_disclosure = insert processed.digest encoded m.hash_to_disclosure;
  ordered_disclosure_digests = m.ordered_disclosure_digests ++ processed.digest ∷ [];
}

unfoldable pub enter_disclosure :
    String → ProcessedDisclosure → DisclosureMappings → Result DisclosureMappings
unfolding entered
enter_disclosure encoded processed m = do
  ensure (not (contains_key m.hash_to_decoded_disclosure processed.digest))
      (duplicate_digest_error duplicate_disclosure_digest)
  ok (entered encoded processed m)

module _ (worker : DisclosureJob → DisclosureOutcome) where
  unfoldable pub preprocess_from : ℕ → List String → DisclosureMappings → Result DisclosureMappings
  preprocess_from ordinal [] m = ok m
  preprocess_from ordinal (encoded ∷ rest) m = do
    let outcome = worker (record { ordinal = ordinal; encoded_disclosure = encoded })
    ensure (nat_eq outcome.ordinal ordinal) (
        executor_contract_error (
          append "outcome ordinal " (
            append (decimal outcome.ordinal)
              (append " does not match planned ordinal " (decimal ordinal)))))
    ensure (outcome.encoded_disclosure == encoded)
        (executor_contract_error (append "encoded identity changed for ordinal " (decimal ordinal)))
    processed ← outcome_result ordinal outcome.result
    m' ← enter_disclosure encoded processed m
    preprocess_from (suc ordinal) rest m'

  unfoldable pub preprocess_with_worker : List String → Result DisclosureMappings
  unfolding preprocess_from
  preprocess_with_worker encoded_disclosures = preprocess_from 0 encoded_disclosures no_mappings

module _ (c : Codec) where
  unfoldable pub decode_disclosure : String → Result ProcessedDisclosure
  decode_disclosure encoded = do
    bytes ←
        map_error (base64url_decode c encoded)
          (λ e. invalid_disclosure (append "Error decoding disclosure: " (display e)))
    value ←
        map_err (c.from_slice bytes)
          (λ e. invalid_disclosure (append "Error parsing disclosure: " e))
    ok (record { digest = base64_hash c (as_bytes encoded); decoded_disclosure = value })

  unfoldable pub process_disclosure : DisclosureJob → DisclosureOutcome
  unfolding decode_disclosure
  process_disclosure job = record {
    ordinal = job.ordinal;
    encoded_disclosure = job.encoded_disclosure;
    result = some (decode_disclosure job.encoded_disclosure);
  }

  -- `SerialDisclosureExecutor::preprocess`, which `preprocess_disclosures_serial` calls.
  unfoldable pub preprocess_disclosures_serial : List String → Result DisclosureMappings
  unfolding process_disclosure preprocess_with_worker
  preprocess_disclosures_serial = preprocess_with_worker process_disclosure
