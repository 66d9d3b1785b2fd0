-- ===== src/Tests/Batches.antt =====
-- Runs of src/batch.rs.

use mathlib.Core.List.Permᴰ.{swap}
use sd_jwt_rust.Prelude.{ℕ, ◌≡◌, refl, true, List, [], ◌∷◌, map, All}
use sd_jwt_rust.Prelude.Sorting.{sort_by}
use sd_jwt_rust.Error.{ok, err, ◌>>=◌, Ensures, Ensures-ok}
use sd_jwt_rust.Prelude.Maps.{contains_key, lookup, insert}
use sd_jwt_rust.Text.{as_bytes, decimal}
use sd_jwt_rust.Codec.{base64_hash, base64url_decode}
use sd_jwt_rust.Preprocessing.{outcome_result, enter_disclosure}
use sd_jwt_rust.Preprocessing.Assembly.{assemble_disclosures}
use sd_jwt_rust.Text.Utf8.{from_utf8}
use sd_jwt_rust.Batch.{
  CredentialDisclosures, CredentialDisclosureMappings, DisclosureVerificationBatchPlan,
  DisclosureVerificationJob, DisclosureVerificationOutcome, Memory, batch_contract_error, new,
}
use sd_jwt_rust.Batch.Assembly.{assemble, by_key}
use sd_jwt_rust.Batch.Execution.{process, preprocess_disclosure_verification_batch}
use sd_jwt_rust.Batch.Limits.{IsPlanned, new-IsPlanned}
use sd_jwt_rust.Batch.Contract.{
  preprocess_each, assemble-Permᴰ, bound_of, planned_of, assemble-identities,
}
use sd_jwt_rust.Batch.Serial.{preprocess_disclosure_verification_batch-eq-each}
use sd_jwt_rust.Tests.Setting.{codec, first_disclosure}

abbrev memory : Memory
memory = record { reserves_counts = λ n. true; reserves_jobs = λ n. true }

abbrev credentials : List CredentialDisclosures
credentials = record { disclosures = "d1" ∷ [] } ∷ record { disclosures = "d1" ∷ [] } ∷ []

abbrev job : ℕ → DisclosureVerificationJob
job n = record {
  plan_id = 7;
  id = record { credential = record { ordinal = n }; ordinal = 0 };
  encoded_disclosure = "d1";
}

abbrev plan : DisclosureVerificationBatchPlan
plan = record {
  plan_id = 7;
  credential_count = 2;
  disclosure_counts = 1 ∷ 1 ∷ [];
  jobs = job 0 ∷ job 1 ∷ [];
}

abbrev mappings : ℕ → CredentialDisclosureMappings
mappings n = record {
  credential_id = record { ordinal = n };
  hash_to_decoded_disclosure = ("d1", first_disclosure) ∷ [];
  hash_to_disclosure = ("d1", "d1") ∷ [];
  ordered_disclosure_digests = "d1" ∷ [];
}

planned : (new memory 7 credentials).0 ≡ ok plan
unfolding new as_bytes
planned = refl

new-IsPlanned_example :
    Ensures (IsPlanned credentials 7 (new memory 7 credentials).1) (new memory 7 credentials).0
new-IsPlanned_example = new-IsPlanned memory 7 credentials

abbrev returned : List DisclosureVerificationOutcome
returned = process codec (job 1) ∷ process codec (job 0) ∷ []

assemble-Permᴰ_example : assemble plan returned ≡ preprocess_each codec 0 credentials
assemble-Permᴰ_example =
    assemble-Permᴰ codec (Ensures-ok new-IsPlanned_example planned) (swap refl refl)

assembled : assemble plan returned ≡ ok (mappings 0 ∷ mappings 1 ∷ [])
unfolding assemble process from_utf8 sort_by assemble_disclosures outcome_result base64url_decode
    as_bytes enter_disclosure contains_key lookup insert base64_hash
assembled = refl

assemble-identities_example :
    (map bound_of (sort_by by_key returned) ≡ map planned_of plan.jobs)
    × All (λ o. o.plan_id ≡ plan.plan_id) (sort_by by_key returned)
assemble-identities_example = assemble-identities plan returned assembled

-- One outcome twice, and none for the other job.
repeated_test :
    assemble plan (process codec (job 0) ∷ process codec (job 0) ∷ [])
    ≡ err
        (batch_contract_error "missing or duplicate outcome at credential ordinal 1 job ordinal 0")
unfolding assemble process sort_by decimal
repeated_test = refl

preprocess_disclosure_verification_batch-eq-each_example :
    preprocess_disclosure_verification_batch codec memory 7 credentials
    ≡ ((new memory 7 credentials).0 >>= λ _. preprocess_each codec 0 credentials)
preprocess_disclosure_verification_batch-eq-each_example =
    preprocess_disclosure_verification_batch-eq-each codec memory 7 credentials
