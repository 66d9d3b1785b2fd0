-- ===== src/Batch/Execution.antt =====
-- The execution of a batch of src/batch.rs: what a job's processing gives, the serial executor, and
-- the two entry points.

use sd_jwt_rust.Prelude.{
  ℕ, String, Bool, false, not, Option, none, some, List, [], ◌∷◌, ◌++◌, nat_eq, if◌then◌else◌,
  contains,
}
use sd_jwt_rust.Error.{
  Result, ok, err, ◌>>=◌, ◌>>◌, ensure, duplicate_digest_error, duplicate_disclosure_digest,
}
use sd_jwt_rust.Codec.{Codec}
use sd_jwt_rust.Preprocessing.{ProcessedDisclosure, process_disclosure}
use sd_jwt_rust.Batch.{
  CredentialDisclosures, CredentialBatchId, DisclosureVerificationJob,
  DisclosureVerificationOutcome, CredentialDisclosureMappings, batch_contract_error, Memory, new,
}
use sd_jwt_rust.Batch.Assembly.{local_job, assemble}

module _ (c : Codec) where
  -- `DisclosureVerificationJob::process`.
  unfoldable pub process : DisclosureVerificationJob → DisclosureVerificationOutcome
  unfolding process_disclosure local_job
  process job = record {
    plan_id = job.plan_id;
    id = job.id;
    encoded_disclosure = job.encoded_disclosure;
    result = (process_disclosure c (local_job job)).result;
  }

  -- `credential != Some(job.id.credential)`.
  unfoldable pub is_current : Option CredentialBatchId → CredentialBatchId → Bool
  is_current none id = false
  is_current (some current) id = nat_eq current.ordinal id.ordinal

  -- The result of a processed job in the serial executor.
  unfoldable pub taken_result : Option (Result ProcessedDisclosure) → Result ProcessedDisclosure
  taken_result none = err (batch_contract_error "job returned no result")
  taken_result (some r) = r

  -- The loop of `SerialDisclosureVerificationExecutor::execute`, with the credential that it is at
  -- and the digests observed in it.
  unfoldable pub execute_from :
      Option CredentialBatchId
      → List String
      → List DisclosureVerificationJob
      → Result (List DisclosureVerificationOutcome)
  unfolding process is_current taken_result
  execute_from credential observed_digests [] = ok []
  execute_from credential observed_digests (job ∷ jobs) = do
    let observed = if is_current credential job.id.credential then observed_digests else []
    processed ← taken_result (process job).result
    ensure (not (contains observed processed.digest))
        (duplicate_digest_error duplicate_disclosure_digest)
    outcomes ← execute_from (some job.id.credential) (observed ++ processed.digest ∷ []) jobs
    ok (process job ∷ outcomes)

  unfoldable pub execute :
      List DisclosureVerificationJob → Result (List DisclosureVerificationOutcome)
  unfolding execute_from
  execute jobs = execute_from none [] jobs

-- With any executor; the counter after is that of `new`.
unfoldable pub preprocess_disclosure_verification_batch_with_executor :
    Memory
    → ℕ
    → List CredentialDisclosures
    → (List DisclosureVerificationJob → Result (List DisclosureVerificationOutcome))
    → Result (List CredentialDisclosureMappings)
unfolding new assemble
preprocess_disclosure_verification_batch_with_executor memory next_plan_id credentials executor = do
  plan ← (new memory next_plan_id credentials).0
  outcomes ← executor plan.jobs
  assemble plan outcomes

unfoldable pub preprocess_disclosure_verification_batch :
    Codec → Memory → ℕ → List CredentialDisclosures → Result (List CredentialDisclosureMappings)
unfolding preprocess_disclosure_verification_batch_with_executor execute
preprocess_disclosure_verification_batch c memory next_plan_id credentials =
    preprocess_disclosure_verification_batch_with_executor memory next_plan_id credentials
      (execute c)
