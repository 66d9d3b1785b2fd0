-- ===== src/Preprocessing/Native/Equivalence.antt =====
-- The native path of src/disclosure_preprocessing.rs against the serial one.
use Prim.Native.String.{len}
use mathlib.Core.Path.{subst}
use mathlib.Core.List.{flatten, map-append}
use mathlib.Core.List.Permᴰ
use sd_jwt_rust.Prelude.{
  ℕ, suc, String, ◌≡◌, refl, sym, ap, ◌∙◌, Bool, true, false, Option, none, some, List, [], ◌∷◌,
  map, arith, length, min,
}
use sd_jwt_rust.Error.{ok, >>=-eq-ok}
use sd_jwt_rust.Codec.{Codec}
use sd_jwt_rust.Preprocessing.{
  DisclosureJob, DisclosureOutcome, DisclosureMappings, process_disclosure,
  preprocess_disclosures_serial,
}
use sd_jwt_rust.Preprocessing.Assembly.{plan_disclosures, assemble_disclosures}
use sd_jwt_rust.Preprocessing.Assembly.Contract.{assemble_disclosures-Permᴰ}
use sd_jwt_rust.Preprocessing.Native.{
  Threads, spawn_all, join_all, finish_execution, chunks, static_chunk_size, execute,
  new_worker_count, preprocess_parallel_with_lease, preprocess_with_mode, preprocess_disclosures,
  DisclosureExecutionMode, serial, native_parallel, preprocess_with_workers, preprocess_eligible,
  eligible_total_encoded_bytes, select_execution_mode_for_balanced_lengths,
}
use sd_jwt_rust.Preprocessing.Native.Chunks.{chunks-flatten}

finish_execution-ok :
    (f : Bool) (j : List DisclosureOutcome × Bool) {outcomes : List DisclosureOutcome}
    → finish_execution f j ≡ ok outcomes
    → (f ≡ false) × (j.1 ≡ false) × (outcomes ≡ j.0)
unfolding finish_execution
finish_execution-ok f j h = ground arith

module _ (threads : Threads) (worker : DisclosureJob → DisclosureOutcome) where
  -- Where no spawn failed and no worker panicked, the joined outcomes are those of all chunks.
  join-spawn :
      (n : ℕ) (cs : List (List DisclosureJob))
      → (spawn_all threads n cs).1 ≡ false
      → (join_all threads worker (spawn_all threads n cs).0).1 ≡ false
      → (join_all threads worker (spawn_all threads n cs).0).0 ≡ map worker (flatten cs)
  unfolding spawn_all join_all flatten
  join-spawn n [] h k = refl
  join-spawn n (c ∷ cs) h k =
      ground (arith, join-spawn (suc n) cs, map-append worker c (flatten cs))

  -- An execution that succeeds has one outcome for each job, in the order of the jobs.
  execute-map :
      (workers : ℕ) (jobs : List DisclosureJob) {outcomes : List DisclosureOutcome}
      → execute threads worker workers jobs ≡ ok outcomes
      → outcomes ≡ map worker jobs
  unfolding execute
  execute-map workers [] h = cc
  execute-map workers (job ∷ rest) h =
      let jobs = job ∷ rest in
      let cs = chunks (static_chunk_size (length jobs) (min workers (length jobs))) jobs in
      let (spawned, finished, same) =
        finish_execution-ok (spawn_all threads 0 cs).1
          (join_all threads worker (spawn_all threads 0 cs).0) h in
      same ∙ (join-spawn 0 cs spawned finished ∙ ap (map worker) (chunks-flatten _ jobs))

module _ (c : Codec) (threads : Threads) where
  preprocess_parallel-serial :
      (encoded : List String) (leased : ℕ) {m : DisclosureMappings}
      → preprocess_parallel_with_lease c threads encoded leased ≡ ok m
      → preprocess_disclosures_serial c encoded ≡ ok m
  unfolding preprocess_parallel_with_lease
  preprocess_parallel-serial encoded leased {m} h =
      let jobs = plan_disclosures encoded in
      let (outcomes, ran, assembled) =
        >>=-eq-ok (execute threads (process_disclosure c) (new_worker_count leased) jobs) _ h in
      let same = execute-map threads (process_disclosure c) (new_worker_count leased) jobs ran in
      sym (
        assemble_disclosures-Permᴰ c encoded (map (process_disclosure c) jobs)
          (Permᴰ.refl (map (process_disclosure c) jobs)))
      ∙ subst (λ l. assemble_disclosures jobs l ≡ ok m) same assembled

  preprocess_with_mode-serial :
      (encoded : List String) (leased : ℕ) (mode : DisclosureExecutionMode) {m : DisclosureMappings}
      → preprocess_with_mode c threads encoded leased mode ≡ ok m
      → preprocess_disclosures_serial c encoded ≡ ok m
  unfolding preprocess_with_mode
  preprocess_with_mode-serial encoded leased serial h = h
  preprocess_with_mode-serial encoded leased (native_parallel w) h =
      preprocess_parallel-serial encoded leased h

  module _ (acquires : ℕ → Bool) (available_threads : ℕ) (encoded : List String)
      {m : DisclosureMappings} where
    preprocess_with_workers-serial :
        (total : ℕ) (workers : Option ℕ)
        → preprocess_with_workers c threads acquires available_threads encoded total workers ≡ ok m
        → preprocess_disclosures_serial c encoded ≡ ok m
    unfolding preprocess_with_workers
    preprocess_with_workers-serial total none h = h
    preprocess_with_workers-serial total (some w) h = ground (
      arith,
      preprocess_with_mode-serial encoded w
          (select_execution_mode_for_balanced_lengths (length encoded) (map len encoded) total
            available_threads)
          {m = m},
    )

    preprocess_eligible-serial :
        (total : Option ℕ)
        → preprocess_eligible c threads acquires available_threads encoded total ≡ ok m
        → preprocess_disclosures_serial c encoded ≡ ok m
    unfolding preprocess_eligible
    preprocess_eligible-serial none h = h
    preprocess_eligible-serial (some total) h = preprocess_with_workers-serial total _ h

    -- Whatever the host offers, the budget grants and the threads do, adaptive preprocessing that
    -- succeeds gives the mappings that serial preprocessing gives.
    pub preprocess_disclosures-serial :
        preprocess_disclosures c threads acquires available_threads encoded ≡ ok m
        → preprocess_disclosures_serial c encoded ≡ ok m
    unfolding preprocess_disclosures
    preprocess_disclosures-serial h = ground (
      arith,
      preprocess_eligible-serial (eligible_total_encoded_bytes (length encoded) (map len encoded)),
    )

module _ (threads : Threads) (worker : DisclosureJob → DisclosureOutcome)
    (spawn : (n : ℕ) → threads.spawns n ≡ true) (finish : (n : ℕ) → threads.finishes n ≡ true) where
  join-spawn_all :
      (n : ℕ) (cs : List (List DisclosureJob))
      → ((spawn_all threads n cs).1 ≡ false)
        × (join_all threads worker (spawn_all threads n cs).0 ≡ (map worker (flatten cs), false))
  unfolding spawn_all join_all flatten
  join-spawn_all n [] = (refl, refl)
  join-spawn_all n (c ∷ cs) =
      ground (arith, spawn n, finish n, join-spawn_all (suc n) cs, map-append worker c (flatten cs))

  execute-total :
      (workers : ℕ) (jobs : List DisclosureJob)
      → execute threads worker workers jobs ≡ ok (map worker jobs)
  unfolding execute finish_execution
  execute-total workers [] = refl
  execute-total workers (job ∷ rest) =
      let jobs = job ∷ rest in
      let cs = chunks (static_chunk_size (length jobs) (min workers (length jobs))) jobs in
      rw ((join-spawn_all 0 cs).0)
        (rw ((join-spawn_all 0 cs).1) (ap (λ l. ok (map worker l)) (chunks-flatten _ jobs)))

module _ (c : Codec) (threads : Threads) (spawn : (n : ℕ) → threads.spawns n ≡ true)
    (finish : (n : ℕ) → threads.finishes n ≡ true) where
  preprocess_with_mode-total :
      (encoded : List String) (leased : ℕ) (mode : DisclosureExecutionMode)
      → preprocess_with_mode c threads encoded leased mode ≡ preprocess_disclosures_serial c encoded
  unfolding preprocess_with_mode preprocess_parallel_with_lease
  preprocess_with_mode-total encoded leased serial = refl
  preprocess_with_mode-total encoded leased (native_parallel w) =
      let jobs = plan_disclosures encoded in
      rw (execute-total threads (process_disclosure c) spawn finish (new_worker_count leased) jobs)
        (assemble_disclosures-Permᴰ c encoded (map (process_disclosure c) jobs)
          (Permᴰ.refl (map (process_disclosure c) jobs)))

  module _ (acquires : ℕ → Bool) (available_threads : ℕ) (encoded : List String) where
    preprocess_with_workers-total :
        (total : ℕ) (workers : Option ℕ)
        → preprocess_with_workers c threads acquires available_threads encoded total workers
          ≡ preprocess_disclosures_serial c encoded
    unfolding preprocess_with_workers
    preprocess_with_workers-total total none = refl
    preprocess_with_workers-total total (some w) = ground (
      arith,
      preprocess_with_mode-total encoded w (
          select_execution_mode_for_balanced_lengths (length encoded) (map len encoded) total
            available_threads),
    )

    preprocess_eligible-total :
        (total : Option ℕ)
        → preprocess_eligible c threads acquires available_threads encoded total
          ≡ preprocess_disclosures_serial c encoded
    unfolding preprocess_eligible
    preprocess_eligible-total none = refl
    preprocess_eligible-total (some total) = preprocess_with_workers-total total _

    -- Where every spawned thread runs to its end, adaptive preprocessing is serial preprocessing,
    -- mappings and errors alike, whatever parallelism the host offers and the budget grants.
    pub preprocess_disclosures-eq-serial :
        preprocess_disclosures c threads acquires available_threads encoded
        ≡ preprocess_disclosures_serial c encoded
    unfolding preprocess_disclosures
    preprocess_disclosures-eq-serial = ground (
      arith,
      preprocess_eligible-total (eligible_total_encoded_bytes (length encoded) (map len encoded)),
    )
