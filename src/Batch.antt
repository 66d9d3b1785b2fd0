-- ===== src/Batch.antt =====
-- src/batch.rs: the disclosures of many credentials, preprocessed by one executor. The plan with its
-- limits, the jobs and their outcomes, the serial executor, and the assembly of what an executor
-- returns. The process-wide counter of plan identities is passed along.
pub mod Assembly
pub mod Execution
pub mod Limits
pub mod Order
pub mod Contract
pub mod Serial
use Prim.Native.String.{◌++◌ as append}
use sd_jwt_rust.Prelude.{
  ℕ, zero, suc, ◌+◌, ◌-◌, ◌*◌, ◌^◌, String, Bool, true, false, not, ◌&&◌, ◌||◌, Option, none, some,
  List, [], ◌∷◌, ◌++◌, map, ◌==◌, nat_eq, ltb, leb, if◌then◌else◌, length, get_elem?, contains,
}
use sd_jwt_rust.Prelude.Maps.{HashMap}
use sd_jwt_rust.Prelude.Sorting.{sort_by}
use sd_jwt_rust.Error.{
  Error, Result, ok, err, panic, out_of_fuel, ◌>>=◌, ◌>>◌, ensure, ok_or, or_panic, invalid_state,
  invalid_input, duplicate_digest_error, duplicate_disclosure_digest,
}
use sd_jwt_rust.Json.{Value}
use sd_jwt_rust.Text.{as_bytes, decimal}
use sd_jwt_rust.Codec.{Codec}
use sd_jwt_rust.Common.{max_sd_jwt_input_bytes, max_sd_jwt_disclosures, max_sd_jwt_disclosure_bytes}
use sd_jwt_rust.Preprocessing.{
  DisclosureJob, DisclosureOutcome, DisclosureMappings, ProcessedDisclosure, process_disclosure,
}
use sd_jwt_rust.Preprocessing.Assembly.{assemble_disclosures}

abbrev pub max_disclosure_batch_credentials : ℕ
max_disclosure_batch_credentials = 1024

-- `usize::MAX`, for 64 bits.
abbrev pub usize_max : ℕ
usize_max = 2 ^ 64 - 1

abbrev pub batch_disclosure_limit_error : Error
batch_disclosure_limit_error =
    invalid_input "Disclosure verification batch exceeds the disclosure limit"

abbrev pub batch_input_size_error : Error
batch_input_size_error = invalid_input "Disclosure verification batch exceeds the input size limit"

abbrev pub batch_capacity_error : Error
batch_capacity_error = invalid_input "Disclosure verification batch capacity is unavailable"

pub record CredentialDisclosures : Type 0 where
  pub disclosures : List String

pub record CredentialBatchId : Type 0 where
  pub ordinal : ℕ

pub record DisclosureVerificationJobId : Type 0 where
  pub credential : CredentialBatchId
  pub ordinal : ℕ

pub record DisclosureVerificationJob : Type 0 where
  pub plan_id : ℕ
  pub id : DisclosureVerificationJobId
  pub encoded_disclosure : String

pub record DisclosureVerificationOutcome : Type 0 where
  pub plan_id : ℕ
  pub id : DisclosureVerificationJobId
  pub encoded_disclosure : String
  pub result : Option (Result ProcessedDisclosure)

pub record CredentialDisclosureMappings : Type 0 where
  pub credential_id : CredentialBatchId
  pub hash_to_decoded_disclosure : HashMap Value
  pub hash_to_disclosure : HashMap String
  pub ordered_disclosure_digests : List String

pub record DisclosureVerificationBatchPlan : Type 0 where
  pub plan_id : ℕ
  pub credential_count : ℕ
  pub disclosure_counts : List ℕ
  pub jobs : List DisclosureVerificationJob

unfoldable pub batch_contract_error : String → Error
batch_contract_error message =
    invalid_state (append "Cross-credential disclosure executor contract violation: " message)

-- The derived `==` of a job's identity.
unfoldable pub same_id : DisclosureVerificationJobId → DisclosureVerificationJobId → Bool
same_id a b = nat_eq a.credential.ordinal b.credential.ordinal && nat_eq a.ordinal b.ordinal

-- `checked_add` on `usize`.
unfoldable pub checked_add : ℕ → ℕ → Option ℕ
checked_add a b = if leb (a + b) usize_max then some (a + b) else none

-- The inner loop of `new`: the bytes so far, with those of a credential's disclosures.
unfoldable pub add_disclosure_bytes : ℕ → List String → Result ℕ
unfolding checked_add
add_disclosure_bytes total_encoded_bytes [] = ok total_encoded_bytes
add_disclosure_bytes total_encoded_bytes (disclosure ∷ disclosures) = do
  ensure (not (ltb max_sd_jwt_disclosure_bytes (length (as_bytes disclosure))))
      (invalid_input "Disclosure exceeds the encoded size limit")
  total ←
      ok_or (checked_add total_encoded_bytes (length (as_bytes disclosure))) batch_input_size_error
  ensure (not (ltb max_sd_jwt_input_bytes total)) batch_input_size_error
  add_disclosure_bytes total disclosures

-- The outer loop: the number of all jobs.
unfoldable pub count_jobs : ℕ → ℕ → List CredentialDisclosures → Result ℕ
unfolding checked_add add_disclosure_bytes
count_jobs total_jobs total_encoded_bytes [] = ok total_jobs
count_jobs total_jobs total_encoded_bytes (credential ∷ credentials) = do
  total ←
      ok_or (checked_add total_jobs (length credential.disclosures)) batch_disclosure_limit_error
  ensure (not (ltb max_sd_jwt_disclosures total)) batch_disclosure_limit_error
  bytes ← add_disclosure_bytes total_encoded_bytes credential.disclosures
  count_jobs total bytes credentials

unfoldable pub check_credentials : List CredentialDisclosures → Result ℕ
unfolding count_jobs
check_credentials credentials = do
  ensure (not (ltb max_disclosure_batch_credentials (length credentials)))
      (invalid_input "Disclosure verification batch exceeds the credential limit")
  count_jobs 0 0 credentials

unfoldable pub jobs_of_credential :
    ℕ → CredentialBatchId → ℕ → List String → List DisclosureVerificationJob
jobs_of_credential plan_id credential_id disclosure_ordinal [] = []
jobs_of_credential plan_id credential_id disclosure_ordinal (encoded_disclosure ∷ disclosures) =
    record {
      plan_id = plan_id;
      id = record { credential = credential_id; ordinal = disclosure_ordinal };
      encoded_disclosure = encoded_disclosure;
    }
    ∷ jobs_of_credential plan_id credential_id (suc disclosure_ordinal) disclosures

unfoldable pub jobs_from : ℕ → ℕ → List CredentialDisclosures → List DisclosureVerificationJob
unfolding jobs_of_credential
jobs_from plan_id credential_ordinal [] = []
jobs_from plan_id credential_ordinal (credential ∷ credentials) =
    jobs_of_credential plan_id (record { ordinal = credential_ordinal }) 0 credential.disclosures
    ++ jobs_from plan_id (suc credential_ordinal) credentials

abbrev pub plan_space_error : Error
plan_space_error = invalid_state "Disclosure verification batch plan space exhausted"

-- `NEXT_PLAN_ID.fetch_update`: the value before, and the counter after.
unfoldable pub fetch_plan_id : ℕ → Result ℕ × ℕ
fetch_plan_id current =
    if ltb current usize_max then (ok current, suc current) else (err plan_space_error, current)

-- Whether `try_reserve_exact` finds room, for the counts and for the jobs.
pub record Memory : Type 0 where
  pub reserves_counts : ℕ → Bool
  pub reserves_jobs : ℕ → Bool

-- The part of `new` behind the limits and the plan's identity.
unfoldable pub fill_plan :
    Memory → List CredentialDisclosures → ℕ → ℕ → Result DisclosureVerificationBatchPlan
unfolding jobs_from
fill_plan memory credentials total_jobs plan_id = do
  ensure (memory.reserves_counts (length credentials)) batch_capacity_error
  ensure (memory.reserves_jobs total_jobs) batch_capacity_error
  ok (record {
    plan_id = plan_id;
    credential_count = length credentials;
    disclosure_counts = map (λ credential. length credential.disclosures) credentials;
    jobs = jobs_from plan_id 0 credentials;
  })

-- What follows the limit checks, by their result: the plan, and the counter after.
unfoldable pub identified :
    Memory → ℕ → List CredentialDisclosures → Result ℕ → Result DisclosureVerificationBatchPlan × ℕ
unfolding fetch_plan_id fill_plan
identified memory next_plan_id credentials (ok total_jobs) =
    let (plan_id, counter) = fetch_plan_id next_plan_id in
    (plan_id >>= fill_plan memory credentials total_jobs, counter)
identified memory next_plan_id credentials (err e) = (err e, next_plan_id)
identified memory next_plan_id credentials panic = (panic, next_plan_id)
identified memory next_plan_id credentials out_of_fuel = (out_of_fuel, next_plan_id)

unfoldable pub new :
    Memory → ℕ → List CredentialDisclosures → Result DisclosureVerificationBatchPlan × ℕ
unfolding check_credentials identified
new memory next_plan_id credentials =
    identified memory next_plan_id credentials (check_credentials credentials)
