-- ===== src/Issuance/Native/Equivalence.antt =====
-- The adaptive execution of src/issuer/issuance_plan.rs against the products of the jobs in order.
use mathlib.Core.List.{flatten, map-append}
use mathlib.Core.List.Permᴰ
use sd_jwt_rust.Prelude.{
  ℕ, suc, ◌≡◌, refl, Bool, true, false, ◌||◌, Option, none, some, List, [], ◌∷◌, map, arith, length,
  min, ltb, if◌then◌else◌, All, Bool-cases, inl, inr,
}
use sd_jwt_rust.Error.{Result, ok, err, ◌>>=◌}
use sd_jwt_rust.Codec.{Codec}
use sd_jwt_rust.Preprocessing.Native.{Threads, chunks}
use sd_jwt_rust.Preprocessing.Native.Chunks.{chunks-flatten}
use sd_jwt_rust.Issuance.Executor.{
  IssuanceJob, IssuanceOutcome, process_issuance_job, execute_jobs, execute_and_restore,
  restore_issuance_outcomes, unique_ids,
}
use sd_jwt_rust.Issuance.Executor.Restoration.{
  identities_of, IsKinded, restored_of, restore_issuance_outcomes-Permᴰ,
}
use sd_jwt_rust.Issuance.Native.{
  IssuanceHandle, max_parallel_issuance_workers, spawn_workers, join_workers, finish_workers,
  execute_native, issuance_chunk_size, spawn_failure, worker_failure, IssuancePolicyThresholds,
  IssuanceExecutionSelection, select_execution, select_execution_with_estimate, select_estimated,
  select_workers, execute_in_mode, execute_selected, execute_adaptive, clamped_worker_count,
}
use sd_jwt_rust.Issuance.Native.Estimate.{estimate_ready_job_work_bytes}

-- How an execution on threads ends: with the value, or with the error of a thread that failed.
pub data Ends (threads : Threads) {A : Type 0} (a : A) : Result A → Type 0 where
  returned : Ends threads a (ok a)
  not_spawned : (n : ℕ) → threads.spawns n ≡ false → Ends threads a (err spawn_failure)
  not_finished : (n : ℕ) → threads.finishes n ≡ false → Ends threads a (err worker_failure)

Ends-bind :
    {threads : Threads} {A B : Type 0} {a : A} {b : B} {r : Result A} (f : A → Result B)
    → Ends threads a r
    → f a ≡ ok b
    → Ends threads b (r >>= f)
Ends-bind f returned h = rw h returned
Ends-bind f (not_spawned n k) h = not_spawned n k
Ends-bind f (not_finished n k) h = not_finished n k

by_test {ℓ κ} :
    {A : Type ℓ} (P : A → Type κ) (b : Bool) {x y : A} → P x → P y → P (if b then x else y)
by_test P true p q = p
by_test P false p q = q

module _ (threads : Threads) (worker : IssuanceJob → IssuanceOutcome) where
  spawn_workers-fails :
      (n : ℕ) (cs : List (List IssuanceJob))
      → (spawn_workers threads n cs).1 ≡ true
      → (m : ℕ) × (threads.spawns m ≡ false)
  unfolding spawn_workers
  spawn_workers-fails n [] h = cc
  spawn_workers-fails n (c ∷ cs) h = elim (Bool-cases (threads.spawns n)) [
    | inl spawned ↦ spawn_workers-fails (suc n) cs (ground (arith, h, spawned))
    | inr refused ↦ (n, refused)
  ]

  join_workers-fails :
      (handles : List IssuanceHandle)
      → (join_workers threads worker handles).1 ≡ true
      → (m : ℕ) × (threads.finishes m ≡ false)
  unfolding join_workers
  join_workers-fails [] h = cc
  join_workers-fails (handle ∷ handles) h = elim (Bool-cases (threads.finishes handle.thread)) [
    | inl finished ↦ join_workers-fails handles (ground (arith, h, finished))
    | inr panicked ↦ (handle.thread, panicked)
  ]

  -- Where no spawn failed and no worker panicked, the joined outcomes are those of all chunks.
  join_workers-spawn_workers :
      (n : ℕ) (cs : List (List IssuanceJob))
      → (spawn_workers threads n cs).1 ≡ false
      → (join_workers threads worker (spawn_workers threads n cs).0).1 ≡ false
      → (join_workers threads worker (spawn_workers threads n cs).0).0 ≡ map worker (flatten cs)
  unfolding spawn_workers join_workers flatten
  join_workers-spawn_workers n [] h k = refl
  join_workers-spawn_workers n (c ∷ cs) h k =
      ground (arith, join_workers-spawn_workers (suc n) cs, map-append worker c (flatten cs))

  finish_workers-Ends :
      (cs : List (List IssuanceJob))
      → let (handles, spawn_failed) = spawn_workers threads 0 cs in
        Ends threads
          (map worker (flatten cs))
          (finish_workers spawn_failed (join_workers threads worker handles))
  unfolding finish_workers
  finish_workers-Ends cs =
      let spawned = spawn_workers threads 0 cs in
      let joined = join_workers threads worker spawned.0 in
      elim (Bool-cases spawned.1) [
        | inl failed ↦
            let (n, refused) = spawn_workers-fails 0 cs failed in rw failed (not_spawned n refused)
        | inr all ↦ elim (Bool-cases joined.1) [
          | inl failed ↦
              let (n, panicked) = join_workers-fails spawned.0 failed in
              rw (all, failed) (not_finished n panicked)
          | inr none_panicked ↦
              rw (all, none_panicked, join_workers-spawn_workers 0 cs all none_panicked) returned
        ]
      ]

  execute_native-Ends :
      (workers : ℕ) (jobs : List IssuanceJob)
      → Ends threads (map worker jobs) (execute_native threads worker workers jobs)
  unfolding execute_native
  execute_native-Ends workers jobs =
      let size = issuance_chunk_size (length jobs) (min workers (length jobs)) in
      by_test (Ends threads (map worker jobs)) (ltb (length jobs) 2 || ltb workers 2) returned
        (rw (chunks-flatten size jobs) at (finish_workers-Ends (chunks size jobs)))

module _ (c : Codec) (threads : Threads) (jobs : List IssuanceJob) where
  abbrev IsRunnable : IssuanceExecutionSelection → Type 0
  IsRunnable selection =
      Ends threads (map (process_issuance_job c) jobs) (execute_selected c threads selection jobs)

  module _ (acquires : ℕ → Bool) (available_threads : ℕ) where
    select_workers-IsRunnable :
        (workers : ℕ) → IsRunnable (select_workers acquires available_threads workers)
    unfolding select_workers execute_selected execute_in_mode execute_jobs
    select_workers-IsRunnable workers = by_test IsRunnable (ltb workers 2) returned (
        by_test IsRunnable (acquires workers)
          (execute_native-Ends threads (process_issuance_job c) (clamped_worker_count workers) jobs)
          returned)

    select_estimated-IsRunnable :
        (thresholds : IssuancePolicyThresholds) (estimate : Option ℕ)
        → IsRunnable (select_estimated acquires available_threads (length jobs) thresholds estimate)
    unfolding select_estimated execute_selected execute_jobs
    select_estimated-IsRunnable thresholds none = returned
    select_estimated-IsRunnable thresholds (some bytes) =
        by_test IsRunnable (ltb bytes thresholds.min_estimated_work_bytes) returned (
          select_workers-IsRunnable
            (min (min available_threads max_parallel_issuance_workers) (length jobs)))

    execute_adaptive-Ends :
        (thresholds : IssuancePolicyThresholds)
        → Ends threads
            (map (process_issuance_job c) jobs)
            (execute_adaptive c threads acquires available_threads thresholds jobs)
    unfolding execute_adaptive select_execution select_execution_with_estimate execute_selected
        execute_jobs
    execute_adaptive-Ends thresholds =
        by_test IsRunnable (ltb (length jobs) thresholds.min_jobs) returned
          (select_estimated-IsRunnable thresholds (estimate_ready_job_work_bytes jobs))

-- Whatever the policy selects for jobs whose identities differ and whose kinds are those of their
-- operations, whatever the thresholds, the free workers and the host's threads are: the execution
-- gives each job's product under the job's own identity, in the order of the jobs, unless a thread
-- that did not spawn or did not finish makes it end in the error for that.
pub execute_adaptive-Ends_restored :
    (c : Codec) (threads : Threads) (acquires : ℕ → Bool) (available_threads : ℕ)
    (thresholds : IssuancePolicyThresholds) (jobs : List IssuanceJob)
    → unique_ids (identities_of jobs) ≡ true
    → All (IsKinded c) jobs
    → Ends threads (map (restored_of c) jobs) (
        execute_and_restore (execute_adaptive c threads acquires available_threads thresholds) jobs)
unfolding execute_and_restore
execute_adaptive-Ends_restored c threads acquires available thresholds [] unique kinded = returned
execute_adaptive-Ends_restored c threads acquires available thresholds (job ∷ rest) unique kinded =
    let jobs = job ∷ rest in
    Ends-bind (restore_issuance_outcomes (identities_of jobs))
      (execute_adaptive-Ends c threads jobs acquires available thresholds)
      (restore_issuance_outcomes-Permᴰ c jobs unique kinded
        (Permᴰ.refl (map (process_issuance_job c) jobs)))
