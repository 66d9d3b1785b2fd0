-- ===== src/Tests/Executors.antt =====
-- Runs of the executors of src/issuer/issuance_plan.rs.

use sd_jwt_rust.Prelude.{All, Option, map, ℕ, ◌≡◌, refl, true, none, some, List, [], ◌∷◌, ltb}
use sd_jwt_rust.Error.{err, ok}
use sd_jwt_rust.Json.{string}
use sd_jwt_rust.Text.{as_bytes}
use mathlib.Core.List.Permᴰ.{swap}
use sd_jwt_rust.Plan.{PlannedJobKind}
use sd_jwt_rust.Issuance.Executor.{
  execute_and_restore, IssuanceJob, IssuanceJobIdentity, IssuanceJobOperation, unique_ids,
  product_of, issuance_contract_error, process_issuance_job, restore_issuance_outcomes,
}
use sd_jwt_rust.Issuance.Executor.Restoration.{
  identities_of, IsKinded, restored_of, restore_issuance_outcomes-Permᴰ,
}
use sd_jwt_rust.Issuance.Native.{
  IssuancePolicyThresholds, IssuanceExecutionMode, IssuanceExecutionReason, native_selection,
  select_execution, execute_adaptive, spawn_failure,
}
use sd_jwt_rust.Issuance.Native.Equivalence.{Ends, execute_adaptive-Ends_restored}
use sd_jwt_rust.Preprocessing.Native.{Threads}
use sd_jwt_rust.Tests.Setting.{codec}

abbrev identity : ℕ → PlannedJobKind → Option ℕ → IssuanceJobIdentity
identity n kind ordinal = record {
  job_id = n;
  location_id = n;
  kind = kind;
  disclosure_ordinal = ordinal;
}

abbrev first_job : IssuanceJob
first_job = record {
  identity = identity 3 PlannedJobKind.object_disclosure (some 2);
  operation = IssuanceJobOperation.object_disclosure "name" "s" (string "Ada");
}

abbrev second_job : IssuanceJob
second_job = record {
  identity = identity 4 PlannedJobKind.decoy none;
  operation = IssuanceJobOperation.decoy "decoy";
}

abbrev issuance_jobs : List IssuanceJob
issuance_jobs = first_job ∷ second_job ∷ []

unique : unique_ids (identities_of issuance_jobs) ≡ true
unfolding unique_ids
unique = refl

kinded : All (IsKinded codec) issuance_jobs
unfolding product_of
kinded = (refl, (refl, tt))

restore_issuance_outcomes-Permᴰ_example :
    restore_issuance_outcomes
      (identities_of issuance_jobs)
      (process_issuance_job codec second_job ∷ process_issuance_job codec first_job ∷ [])
    ≡ ok (map (restored_of codec) issuance_jobs)
restore_issuance_outcomes-Permᴰ_example =
    restore_issuance_outcomes-Permᴰ codec issuance_jobs unique kinded (swap refl refl)

abbrev host : Threads
host = record { spawns = λ n. true; finishes = λ n. true }

abbrev thresholds : IssuancePolicyThresholds
thresholds = record { min_jobs = 2; min_estimated_work_bytes = 20 }

-- Two jobs of 29 estimated bytes are enough for two threads.
native_test :
    select_execution (λ n. true) 8 issuance_jobs thresholds
    ≡ native_selection
        (record {
          mode = IssuanceExecutionMode.native_parallel 2;
          reason = IssuanceExecutionReason.bounded_native;
        })
        2
unfolding select_execution as_bytes
native_test = refl

execute_adaptive-Ends_restored_example :
    Ends host
      (map (restored_of codec) issuance_jobs)
      (execute_and_restore (execute_adaptive codec host (λ n. true) 8 thresholds) issuance_jobs)
execute_adaptive-Ends_restored_example =
    execute_adaptive-Ends_restored codec host (λ n. true) 8 thresholds issuance_jobs unique kinded

-- A second thread that does not spawn is named, though the first has done its work.
refused_test :
    execute_and_restore
      (execute_adaptive codec (record host { spawns = λ n. ltb n 1 }) (λ n. true) 8 thresholds)
      issuance_jobs
    ≡ err spawn_failure
unfolding execute_and_restore execute_adaptive as_bytes
refused_test = refl

-- An outcome that comes twice is named before the one that is missing.
repeated_test :
    restore_issuance_outcomes
      (identities_of issuance_jobs)
      (process_issuance_job codec first_job ∷ process_issuance_job codec first_job ∷ [])
    ≡ err (issuance_contract_error "an issuance result identity was returned more than once")
unfolding restore_issuance_outcomes process_issuance_job
repeated_test = refl
