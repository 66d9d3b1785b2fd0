-- ===== src/Batch/Order.antt =====
-- The outcomes of a faithful executor for a plan of src/batch.rs: they rise in the order of the plan,
-- and pass its validation.

use sd_jwt_rust.Prelude.{
  nat_eq_self, ℕ, zero, suc, ◌+◌, ◌≤◌, ◌<◌, String, ◌≡◌, refl, ap, ◌∙◌, true, false, List, [], ◌∷◌,
  ◌++◌, map, arith, length, All, All-map,
}
use text.Mathlib.TextPositions.{eq_refl}
use sd_jwt_rust.Prelude.Sorting.{Rises}
use sd_jwt_rust.Error.{ok}
use sd_jwt_rust.Codec.{Codec}
use sd_jwt_rust.Preprocessing.{process_disclosure}
use sd_jwt_rust.Preprocessing.Assembly.{plan_from}
use sd_jwt_rust.Batch.{
  CredentialDisclosures, CredentialBatchId, DisclosureVerificationJob,
  DisclosureVerificationOutcome, jobs_of_credential, jobs_from, same_id,
}
use sd_jwt_rust.Batch.Assembly.{
  by_key, check_plan_ids, check_pairs, take, skip, local_job, local_outcome,
}
use sd_jwt_rust.Batch.Execution.{process}

pub by_key_trans :
    (x y z : DisclosureVerificationOutcome)
    → by_key x y ≡ true
    → by_key y z ≡ true
    → by_key x z ≡ true
unfolding by_key
by_key_trans x y z h k = ground arith

module _ {ℓ} {A : Type ℓ} where
  pub take-append : (xs ys : List A) → take (length xs) (xs ++ ys) ≡ xs
  unfolding take
  take-append [] ys = refl
  take-append (x ∷ xs) ys = ap (λ l. x ∷ l) (take-append xs ys)

  pub skip-append : (xs ys : List A) → skip (length xs) (xs ++ ys) ≡ ys
  unfolding skip
  skip-append [] ys = refl
  skip-append (x ∷ xs) ys = skip-append xs ys

  skip_nil : (n : ℕ) → skip {A = A} n [] ≡ []
  unfolding skip
  skip_nil zero = refl
  skip_nil (suc n) = refl

  pub skip-skip : (n k : ℕ) (l : List A) → skip (n + k) l ≡ skip k (skip n l)
  unfolding skip
  skip-skip zero k l = ap (λ m. skip m l) (omega arith)
  skip-skip (suc n) k [] = rw (skip_nil (suc n + k), skip_nil k)
  skip-skip (suc n) k (x ∷ l) =
      let step : suc n + k ≡ suc (n + k) = omega arith in
      ap (λ m. skip m (x ∷ l)) step ∙ skip-skip n k l

module _ (c : Codec) (plan_id : ℕ) where
  -- The outcomes of a faithful executor, in the plan's order.
  abbrev pub outcomes_of : List DisclosureVerificationJob → List DisclosureVerificationOutcome
  outcomes_of jobs = map (process c) jobs

  abbrev IsBehind : ℕ → DisclosureVerificationOutcome → Type 0
  IsBehind n outcome = n ≤ outcome.id.credential.ordinal

  credential-IsBehind :
      (n k m : ℕ) (ds : List String) (rest : List DisclosureVerificationJob)
      → m ≤ n
      → All (IsBehind m) (outcomes_of rest)
      → All
          (IsBehind m)
          (outcomes_of (jobs_of_credential plan_id (record { ordinal = n }) k ds ++ rest))
  unfolding jobs_of_credential process
  credential-IsBehind n k m [] rest l h = h
  credential-IsBehind n k m (d ∷ ds) rest l h = (l, credential-IsBehind n (suc k) m ds rest l h)

  jobs_from-IsBehind :
      (n m : ℕ) (cs : List CredentialDisclosures)
      → m ≤ n
      → All (IsBehind m) (outcomes_of (jobs_from plan_id n cs))
  unfolding jobs_from
  jobs_from-IsBehind n m [] l = tt
  jobs_from-IsBehind n m (credential ∷ cs) l =
      credential-IsBehind n 0 m credential.disclosures _ l
        (jobs_from-IsBehind (suc n) m cs (omega arith))

  credential-above :
      (n k : ℕ) (first : DisclosureVerificationOutcome) (ds : List String)
      (rest : List DisclosureVerificationJob)
      → first.id.credential.ordinal ≡ n
      → first.id.ordinal < k
      → All (IsBehind (suc n)) (outcomes_of rest)
      → All
          (λ y. (by_key first y ≡ true) × (by_key y first ≡ false))
          (outcomes_of (jobs_of_credential plan_id (record { ordinal = n }) k ds ++ rest))
  unfolding jobs_of_credential process by_key
  credential-above n k first [] rest e l h =
      All-map (IsBehind (suc n)) _ (λ y b. (ground arith, ground arith)) (outcomes_of rest) h
  credential-above n k first (d ∷ ds) rest e l h =
      ((ground arith, ground arith), credential-above n (suc k) first ds rest e (omega arith) h)

  credential-Rises :
      (n k : ℕ) (ds : List String) (rest : List DisclosureVerificationJob)
      → All (IsBehind (suc n)) (outcomes_of rest)
      → Rises by_key (outcomes_of rest)
      → Rises by_key
          (outcomes_of (jobs_of_credential plan_id (record { ordinal = n }) k ds ++ rest))
  unfolding jobs_of_credential process
  credential-Rises n k [] rest h r = r
  credential-Rises n k (d ∷ ds) rest h r = (
    credential-above n (suc k) _ ds rest refl (omega arith) h,
    credential-Rises n (suc k) ds rest h r,
  )

  pub jobs_from-Rises :
      (n : ℕ) (cs : List CredentialDisclosures)
      → Rises by_key (outcomes_of (jobs_from plan_id n cs))
  unfolding jobs_from
  jobs_from-Rises n [] = tt
  jobs_from-Rises n (credential ∷ cs) =
      credential-Rises n 0 credential.disclosures _
        (jobs_from-IsBehind (suc n) (suc n) cs (omega arith)) (jobs_from-Rises (suc n) cs)

  check_plan_ids-credential :
      (id : CredentialBatchId) (k : ℕ) (ds : List String) (rest : List DisclosureVerificationJob)
      → check_plan_ids plan_id (outcomes_of rest) ≡ ok tt
      → check_plan_ids plan_id (outcomes_of (jobs_of_credential plan_id id k ds ++ rest)) ≡ ok tt
  unfolding jobs_of_credential process check_plan_ids
  check_plan_ids-credential id k [] rest h = h
  check_plan_ids-credential id k (d ∷ ds) rest h =
      rw (nat_eq_self plan_id) (check_plan_ids-credential id (suc k) ds rest h)

  pub check_plan_ids-jobs_from :
      (n : ℕ) (cs : List CredentialDisclosures)
      → check_plan_ids plan_id (outcomes_of (jobs_from plan_id n cs)) ≡ ok tt
  unfolding jobs_from check_plan_ids
  check_plan_ids-jobs_from n [] = refl
  check_plan_ids-jobs_from n (credential ∷ cs) =
      check_plan_ids-credential (record { ordinal = n }) 0 credential.disclosures _
        (check_plan_ids-jobs_from (suc n) cs)

  pub check_pairs-outcomes :
      (jobs : List DisclosureVerificationJob) → check_pairs jobs (outcomes_of jobs) ≡ ok tt
  unfolding check_pairs process same_id
  check_pairs-outcomes [] = refl
  check_pairs-outcomes (job ∷ jobs) = rw (nat_eq_self job.id.credential.ordinal) (
      rw (nat_eq_self job.id.ordinal)
        (rw (eq_refl job.encoded_disclosure) (check_pairs-outcomes jobs)))

  pub length-outcomes :
      (jobs : List DisclosureVerificationJob) → length (outcomes_of jobs) ≡ length jobs
  length-outcomes [] = refl
  length-outcomes (job ∷ jobs) = ap suc (length-outcomes jobs)

  pub local_jobs :
      (id : CredentialBatchId) (k : ℕ) (ds : List String)
      → map local_job (jobs_of_credential plan_id id k ds) ≡ plan_from k ds
  unfolding jobs_of_credential plan_from local_job
  local_jobs id k [] = refl
  local_jobs id k (d ∷ ds) = rw (local_jobs id (suc k) ds)

  pub local_outcomes :
      (jobs : List DisclosureVerificationJob)
      → map local_outcome (outcomes_of jobs) ≡ map (process_disclosure c) (map local_job jobs)
  unfolding process local_job local_outcome process_disclosure
  local_outcomes [] = refl
  local_outcomes (job ∷ jobs) = rw (local_outcomes jobs)
