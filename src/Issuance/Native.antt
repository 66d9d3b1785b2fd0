-- ===== src/Issuance/Native.antt =====
-- The native executor of src/issuer/issuance_plan.rs and the policy that selects it for the jobs
-- that are ready. What the operating system decides is a parameter: which threads spawn, which
-- finish, how many the host offers, and whether the worker budget grants a lease. The debug
-- assertions are left out.
pub mod Estimate
pub mod Equivalence
use sd_jwt_rust.Prelude.{
  ℕ, zero, suc, ◌+◌, ◌/◌, ◌%◌, String, Bool, true, false, ◌||◌, Option, none, some, List, [], ◌∷◌,
  ◌++◌, map, nat_eq, ltb, if◌then◌else◌, length, min, max,
}
use sd_jwt_rust.Error.{Error, Result, ok, err, panic, invalid_state}
use sd_jwt_rust.Json.{
  Value, Items, Members, null, bool, number, string, array, object, nil, cons, empty, member,
}
use sd_jwt_rust.Text.{as_bytes}
use sd_jwt_rust.Codec.{Codec}
use sd_jwt_rust.Batch.{checked_add}
use sd_jwt_rust.Preprocessing.Native.{Threads, chunks}
use sd_jwt_rust.Issuance.Executor.{
  IssuanceJob, IssuanceJobOperation, IssuanceOutcome, process_issuance_job, execute_jobs,
}
use sd_jwt_rust.Issuance.Native.Estimate.{estimate_ready_job_work_bytes}

abbrev pub max_parallel_issuance_workers : ℕ
max_parallel_issuance_workers = 4

unfoldable pub issuance_chunk_size : ℕ → ℕ → ℕ
issuance_chunk_size job_count worker_count =
    job_count / worker_count + (if nat_eq (job_count % worker_count) 0 then 0 else 1)

pub record IssuanceHandle : Type 0 where
  pub thread : ℕ
  pub chunk : List IssuanceJob

-- The spawning loop: the handles, and whether a spawn failed, which ends the loop.
unfoldable pub spawn_workers : Threads → ℕ → List (List IssuanceJob) → List IssuanceHandle × Bool
spawn_workers threads n [] = ([], false)
spawn_workers threads n (chunk ∷ rest) =
    let (handles, spawn_failed) = spawn_workers threads (suc n) rest in
    if threads.spawns n
    then (record { thread = n; chunk = chunk } ∷ handles, spawn_failed)
    else ([], true)

-- The joining loop: the outcomes in the order of the chunks, and whether a worker panicked.
unfoldable pub join_workers :
    Threads → (IssuanceJob → IssuanceOutcome) → List IssuanceHandle → List IssuanceOutcome × Bool
join_workers threads worker [] = ([], false)
join_workers threads worker (handle ∷ rest) =
    let (outcomes, worker_panicked) = join_workers threads worker rest in
    if threads.finishes handle.thread
    then (map worker handle.chunk ++ outcomes, worker_panicked)
    else (outcomes, true)

abbrev pub spawn_failure : Error
spawn_failure = invalid_state "SD-JWT issuance executor failure: could not spawn worker"

abbrev pub worker_failure : Error
worker_failure = invalid_state "SD-JWT issuance executor failure: worker panicked"

unfoldable pub finish_workers : Bool → List IssuanceOutcome × Bool → Result (List IssuanceOutcome)
finish_workers spawn_failed (outcomes, worker_panicked) =
    if spawn_failed
    then err spawn_failure
    else if worker_panicked
    then err worker_failure
    else ok outcomes

-- `NativeParallelIssuanceExecutor::execute`. As the size of a chunk is not 0 here, taking chunks of
-- it until there are no jobs left is `chunks`.
unfoldable pub execute_native :
    Threads → (IssuanceJob → IssuanceOutcome) → ℕ → List IssuanceJob → Result (List IssuanceOutcome)
unfolding spawn_workers join_workers finish_workers chunks issuance_chunk_size
execute_native threads worker worker_count jobs =
    if ltb (length jobs) 2 || ltb worker_count 2
    then ok (map worker jobs)
    else let chunk_size = issuance_chunk_size (length jobs) (min worker_count (length jobs)) in
      let (handles, spawn_failed) = spawn_workers threads 0 (chunks chunk_size jobs) in
      finish_workers spawn_failed (join_workers threads worker handles)

-- `NativeParallelIssuanceExecutor::new` clamps the leased worker count.
unfoldable pub clamped_worker_count : ℕ → ℕ
clamped_worker_count worker_count = min (max worker_count 1) max_parallel_issuance_workers

pub record IssuancePolicyThresholds : Type 0 where
  pub min_jobs : ℕ
  pub min_estimated_work_bytes : ℕ

pub data IssuanceExecutionMode : Type 0 where
  serial : IssuanceExecutionMode
  native_parallel : ℕ → IssuanceExecutionMode

pub data IssuanceExecutionReason : Type 0 where
  below_min_jobs work_estimate_overflow below_min_estimated_work_bytes : IssuanceExecutionReason
  insufficient_available_parallelism worker_budget_unavailable : IssuanceExecutionReason
  bounded_native : IssuanceExecutionReason

pub record IssuanceExecutionDecision : Type 0 where
  pub mode : IssuanceExecutionMode
  pub reason : IssuanceExecutionReason

-- A lease is the number of workers it is for.
pub data IssuanceExecutionSelection : Type 0 where
  serial_selection : IssuanceExecutionDecision → IssuanceExecutionSelection
  native_selection : IssuanceExecutionDecision → ℕ → IssuanceExecutionSelection

abbrev pub serially : IssuanceExecutionReason → IssuanceExecutionSelection
serially reason = serial_selection (record { mode = IssuanceExecutionMode.serial; reason = reason })

abbrev pub natively : ℕ → IssuanceExecutionSelection
natively worker_count =
    native_selection
      (record {
        mode = IssuanceExecutionMode.native_parallel worker_count;
        reason = IssuanceExecutionReason.bounded_native;
      })
      worker_count

-- `acquires n` is what `try_acquire(n)` answers, `available_threads` what the supplier does.
module _ (acquires : ℕ → Bool) (available_threads : ℕ) where
  unfoldable pub select_workers : ℕ → IssuanceExecutionSelection
  select_workers worker_count =
      if ltb worker_count 2
      then serially IssuanceExecutionReason.insufficient_available_parallelism
      else if acquires worker_count
      then natively worker_count
      else serially IssuanceExecutionReason.worker_budget_unavailable

  unfoldable pub select_estimated :
      ℕ → IssuancePolicyThresholds → Option ℕ → IssuanceExecutionSelection
  unfolding select_workers
  select_estimated job_count thresholds none =
      serially IssuanceExecutionReason.work_estimate_overflow
  select_estimated job_count thresholds (some estimated_work_bytes) =
      if ltb estimated_work_bytes thresholds.min_estimated_work_bytes
      then serially IssuanceExecutionReason.below_min_estimated_work_bytes
      else select_workers (min (min available_threads max_parallel_issuance_workers) job_count)

  unfoldable pub select_execution_with_estimate :
      ℕ → Option ℕ → IssuancePolicyThresholds → IssuanceExecutionSelection
  unfolding select_estimated
  select_execution_with_estimate job_count estimate thresholds =
      if ltb job_count thresholds.min_jobs
      then serially IssuanceExecutionReason.below_min_jobs
      else select_estimated job_count thresholds estimate

  unfoldable pub select_execution :
      List IssuanceJob → IssuancePolicyThresholds → IssuanceExecutionSelection
  unfolding select_execution_with_estimate estimate_ready_job_work_bytes
  select_execution jobs thresholds =
      select_execution_with_estimate (length jobs) (estimate_ready_job_work_bytes jobs) thresholds

abbrev is_bounded_native : IssuanceExecutionReason → Bool
is_bounded_native IssuanceExecutionReason.bounded_native = true
is_bounded_native _ = false

module _ (c : Codec) (threads : Threads) where
  unfoldable pub execute_in_mode :
      IssuanceExecutionMode → List IssuanceJob → Result (List IssuanceOutcome)
  unfolding execute_native clamped_worker_count process_issuance_job
  execute_in_mode IssuanceExecutionMode.serial jobs = panic
  execute_in_mode (IssuanceExecutionMode.native_parallel worker_count) jobs =
      execute_native threads (process_issuance_job c) (clamped_worker_count worker_count) jobs

  -- The match of `AdaptiveIssuanceExecutor::execute`; its unreachable cases panic.
  unfoldable pub execute_selected :
      IssuanceExecutionSelection → List IssuanceJob → Result (List IssuanceOutcome)
  unfolding execute_in_mode execute_jobs
  execute_selected (serial_selection decision) jobs =
      if is_bounded_native decision.reason then panic else execute_jobs c jobs
  execute_selected (native_selection decision lease) jobs = execute_in_mode decision.mode jobs

  unfoldable pub execute_adaptive :
      (ℕ → Bool) → ℕ → IssuancePolicyThresholds → List IssuanceJob → Result (List IssuanceOutcome)
  unfolding execute_selected select_execution
  execute_adaptive acquires available_threads thresholds jobs =
      execute_selected (select_execution acquires available_threads jobs thresholds) jobs
