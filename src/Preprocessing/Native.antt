-- ===== src/Preprocessing/Native.antt =====
-- The native executor of src/disclosure_preprocessing.rs and the policy that selects it. What the
-- operating system decides is a parameter: which threads spawn, which finish, how many the host
-- offers, and whether the worker budget grants a lease (its states are in Preprocessing.Budget).
pub mod Chunks
pub mod Policy
pub mod Equivalence
use Prim.Native.String.{len}
use sd_jwt_rust.Prelude.{
  ℕ, zero, suc, ◌+◌, ◌-◌, ◌/◌, ◌%◌, ◌^◌, String, Bool, true, false, not, ◌||◌, Option, none, some,
  List, [], ◌∷◌, ◌++◌, map, nat_eq, ltb, leb, if◌then◌else◌, length, min, max,
}
use sd_jwt_rust.Error.{Result, ok, err, ◌>>=◌, invalid_state}
use sd_jwt_rust.Codec.{Codec}
use sd_jwt_rust.Preprocessing.{
  DisclosureJob, DisclosureOutcome, DisclosureMappings, process_disclosure,
  preprocess_disclosures_serial,
}
use sd_jwt_rust.Preprocessing.Assembly.{plan_disclosures, assemble_disclosures}

abbrev pub parallel_min_disclosures : ℕ
parallel_min_disclosures = 128

abbrev pub parallel_min_total_encoded_bytes : ℕ
parallel_min_total_encoded_bytes = 1048576

abbrev pub max_parallel_workers : ℕ
max_parallel_workers = 4

abbrev u128_max : ℕ
u128_max = 2 ^ 128 - 1

-- `u128::saturating_add`.
abbrev saturating_add : ℕ → ℕ → ℕ
saturating_add a b = min (a + b) u128_max

-- `usize::is_multiple_of`.
abbrev is_multiple_of : ℕ → ℕ → Bool
is_multiple_of a b = if nat_eq b 0 then nat_eq a 0 else nat_eq (a % b) 0

unfoldable pub static_chunk_size : ℕ → ℕ → ℕ
static_chunk_size job_count worker_count =
    job_count / worker_count + (if is_multiple_of job_count worker_count then 0 else 1)

-- `[T]::chunks`: the pair is what is left of the chunk that is being filled, which has `room` places,
-- and the chunks behind it.
module _ {ℓ} {A : Type ℓ} where
  unfoldable pub fill_chunks : ℕ → ℕ → List A → List A × List (List A)
  fill_chunks size room [] = ([], [])
  fill_chunks size zero (x ∷ xs) =
      let (chunk, behind) = fill_chunks size (size - 1) xs in ([], (x ∷ chunk) ∷ behind)
  fill_chunks size (suc room) (x ∷ xs) =
      let (chunk, behind) = fill_chunks size room xs in (x ∷ chunk, behind)

  unfoldable pub chunks : ℕ → List A → List (List A)
  unfolding fill_chunks
  chunks size xs = (fill_chunks size 0 xs).1

-- What the operating system answers for the n-th thread of one call.
pub record Threads : Type 0 where
  pub spawns : ℕ → Bool
  pub finishes : ℕ → Bool

pub record Handle : Type 0 where
  pub thread : ℕ
  pub chunk : List DisclosureJob

-- The spawning loop: the handles, and whether a spawn failed, which ends the loop.
unfoldable pub spawn_all : Threads → ℕ → List (List DisclosureJob) → List Handle × Bool
spawn_all threads n [] = ([], false)
spawn_all threads n (chunk ∷ rest) =
    let (handles, spawn_failed) = spawn_all threads (suc n) rest in
    if threads.spawns n
    then (record { thread = n; chunk = chunk } ∷ handles, spawn_failed)
    else ([], true)

-- The joining loop: the outcomes in the order of the chunks, and whether a worker panicked.
unfoldable pub join_all :
    Threads → (DisclosureJob → DisclosureOutcome) → List Handle → List DisclosureOutcome × Bool
join_all threads worker [] = ([], false)
join_all threads worker (handle ∷ rest) =
    let (outcomes, worker_panicked) = join_all threads worker rest in
    if threads.finishes handle.thread
    then (map worker handle.chunk ++ outcomes, worker_panicked)
    else (outcomes, true)

unfoldable pub finish_execution :
    Bool → List DisclosureOutcome × Bool → Result (List DisclosureOutcome)
finish_execution spawn_failed (outcomes, worker_panicked) =
    if spawn_failed
    then err (invalid_state "Disclosure preprocessing executor failure: could not spawn worker")
    else if worker_panicked
    then err (invalid_state "Disclosure preprocessing executor failure: worker panicked")
    else ok outcomes

unfoldable pub execute :
    Threads
    → (DisclosureJob → DisclosureOutcome)
    → ℕ
    → List DisclosureJob
    → Result (List DisclosureOutcome)
unfolding spawn_all join_all finish_execution chunks static_chunk_size
execute threads worker worker_count [] = ok []
execute threads worker worker_count (job ∷ rest) =
    let jobs = job ∷ rest in
    let chunk_size = static_chunk_size (length jobs) (min worker_count (length jobs)) in
    let (handles, spawn_failed) = spawn_all threads 0 (chunks chunk_size jobs) in
    finish_execution spawn_failed (join_all threads worker handles)

-- `NativeParallelDisclosureExecutor::new` clamps the leased worker count.
unfoldable pub new_worker_count : ℕ → ℕ
new_worker_count worker_count = min (max worker_count 1) max_parallel_workers

unfoldable pub total_encoded_bytes : ℕ → ℕ → ℕ → List ℕ → Option ℕ
total_encoded_bytes count observed total [] =
    if not (nat_eq observed count) || ltb total parallel_min_total_encoded_bytes
    then none
    else some total
total_encoded_bytes count observed total (l ∷ lengths) =
    let rest = total_encoded_bytes count (suc observed) (saturating_add total l) lengths in
    if nat_eq observed count then none else rest

unfoldable pub eligible_total_encoded_bytes : ℕ → List ℕ → Option ℕ
unfolding total_encoded_bytes
eligible_total_encoded_bytes count lengths =
    if ltb count parallel_min_disclosures then none else total_encoded_bytes count 0 0 lengths

unfoldable pub bounded_worker_count : ℕ → ℕ → Option ℕ
bounded_worker_count count available_threads =
    let workers = min (min available_threads count) max_parallel_workers in
    if ltb 1 workers then some workers else none

pub data DisclosureExecutionMode : Type 0 where
  serial : DisclosureExecutionMode
  native_parallel : ℕ → DisclosureExecutionMode

-- The loop over the lengths: the bytes of the largest chunk, or `none` where the count is wrong.
unfoldable pub largest_chunk : ℕ → ℕ → ℕ → ℕ → ℕ → List ℕ → Option ℕ
largest_chunk count chunk_size observed current largest [] =
    if nat_eq observed count then some (max largest current) else none
largest_chunk count chunk_size observed current largest (l ∷ lengths) =
    let filled = saturating_add current l in
    let full = is_multiple_of (suc observed) chunk_size in
    let rest =
      largest_chunk count chunk_size (suc observed) (if full then 0 else filled)
        (if full then max largest filled else largest) lengths in
    if nat_eq observed count then none else rest

unfoldable pub mode_of_largest : ℕ → ℕ → Option ℕ → DisclosureExecutionMode
mode_of_largest total worker_count none = serial
mode_of_largest total worker_count (some largest) =
    if ltb (total / 2 + total % 2) largest then serial else native_parallel worker_count

unfoldable pub mode_of_workers : ℕ → List ℕ → ℕ → Option ℕ → DisclosureExecutionMode
unfolding largest_chunk mode_of_largest static_chunk_size
mode_of_workers count lengths total none = serial
mode_of_workers count lengths total (some worker_count) =
    mode_of_largest total worker_count
      (largest_chunk count (static_chunk_size count worker_count) 0 0 0 lengths)

unfoldable pub select_execution_mode_for_balanced_lengths :
    ℕ → List ℕ → ℕ → ℕ → DisclosureExecutionMode
unfolding bounded_worker_count mode_of_workers
select_execution_mode_for_balanced_lengths count lengths total available_threads =
    mode_of_workers count lengths total (bounded_worker_count count available_threads)

module _ (c : Codec) (threads : Threads) where
  unfoldable pub preprocess_parallel_with_lease : List String → ℕ → Result DisclosureMappings
  unfolding execute new_worker_count
  preprocess_parallel_with_lease encoded leased = do
    let jobs = plan_disclosures encoded
    outcomes ← execute threads (process_disclosure c) (new_worker_count leased) jobs
    assemble_disclosures jobs outcomes

  unfoldable pub preprocess_with_mode :
      List String → ℕ → DisclosureExecutionMode → Result DisclosureMappings
  unfolding preprocess_parallel_with_lease
  preprocess_with_mode encoded leased serial = preprocess_disclosures_serial c encoded
  preprocess_with_mode encoded leased (native_parallel selected) =
      preprocess_parallel_with_lease encoded leased

  -- `preprocess_disclosures_with_budget_and_thread_supplier`, in three steps: `acquires n` is what
  -- `try_acquire(n)` answers, `available_threads` what the supplier does.
  module _ (acquires : ℕ → Bool) (available_threads : ℕ) where
    unfoldable pub preprocess_with_workers : List String → ℕ → Option ℕ → Result DisclosureMappings
    preprocess_with_workers encoded total none = preprocess_disclosures_serial c encoded
    preprocess_with_workers encoded total (some worker_count) =
        if acquires worker_count
        then preprocess_with_mode encoded worker_count (
            select_execution_mode_for_balanced_lengths (length encoded) (map len encoded) total
              available_threads)
        else preprocess_disclosures_serial c encoded

    unfoldable pub preprocess_eligible : List String → Option ℕ → Result DisclosureMappings
    preprocess_eligible encoded none = preprocess_disclosures_serial c encoded
    preprocess_eligible encoded (some total) =
        preprocess_with_workers encoded total
          (bounded_worker_count (length encoded) available_threads)

    unfoldable pub preprocess_disclosures : List String → Result DisclosureMappings
    preprocess_disclosures encoded =
        if ltb (length encoded) parallel_min_disclosures
        then preprocess_disclosures_serial c encoded
        else preprocess_eligible encoded
            (eligible_total_encoded_bytes (length encoded) (map len encoded))
