-- ===== src/Batch/Contract.antt =====
-- The assembly of src/batch.rs: the outcomes of a plan's jobs in any order give what each credential
-- gives by itself, and whatever is assembled had one outcome for each job of the plan.
use mathlib.Core.List.{Permᴰ}
use mathlib.Core.List.Permᴰ.{refl as same}
use sd_jwt_rust.Prelude.{
  nat_eq_self, le→leb, ℕ, zero, suc, ◌+◌, ◌≤◌, String, ◌≡◌, refl, ap, ◌∙◌, true, List, [], ◌∷◌,
  ◌++◌, map, nat_eq, arith, nat_eq_iff, ◌==◌, length, length-append, get_elem?, All, eq_iff,
}
use native.Mathlib.Nat.{add-zero}
use sd_jwt_rust.Prelude.Sorting.{sort_by, Rises, Rises-Differ, sort-Rises, sort-Permᴰ}
use sd_jwt_rust.Error.{Result, ok, ◌>>=◌, >>=-eq-ok, ensure, ensure-eq-ok}
use sd_jwt_rust.Codec.{Codec}
use sd_jwt_rust.Preprocessing.{preprocess_disclosures_serial}
use sd_jwt_rust.Preprocessing.Assembly.{plan_disclosures, assemble_disclosures}
use sd_jwt_rust.Preprocessing.Assembly.Contract.{assemble_disclosures-Permᴰ}
use sd_jwt_rust.Batch.{
  CredentialDisclosures, CredentialBatchId, DisclosureVerificationJobId, DisclosureVerificationJob,
  DisclosureVerificationOutcome, CredentialDisclosureMappings, DisclosureVerificationBatchPlan,
  jobs_of_credential, jobs_from, same_id,
}
use sd_jwt_rust.Batch.Assembly.{
  by_key, check_plan_ids, check_pairs, validate_outcomes, take, skip, slice, local_job,
  local_outcome, published, assemble_credentials, assemble,
}
use sd_jwt_rust.Batch.Execution.{process}
use sd_jwt_rust.Batch.Limits.{IsPlanned, length-jobs_of_credential}
use sd_jwt_rust.Batch.Order.{
  by_key_trans, take-append, skip-append, skip-skip, jobs_from-Rises, check_plan_ids-jobs_from,
  check_pairs-outcomes, length-outcomes, local_jobs, local_outcomes,
}

-- Each credential by itself, in the caller's order: what the batch promises.
unfoldable pub preprocess_each :
    Codec → ℕ → List CredentialDisclosures → Result (List CredentialDisclosureMappings)
preprocess_each c n [] = ok []
preprocess_each c n (credential ∷ credentials) = do
  mappings ← preprocess_disclosures_serial c credential.disclosures
  rest ← preprocess_each c (suc n) credentials
  ok (published n mappings ∷ rest)

module _ (c : Codec) where
  take_outcomes :
      (xs ys : List DisclosureVerificationJob)
      → take (length xs) (map (process c) (xs ++ ys)) ≡ map (process c) xs
  unfolding take
  take_outcomes [] ys = refl
  take_outcomes (x ∷ xs) ys = ap (λ l. process c x ∷ l) (take_outcomes xs ys)

  skip_outcomes :
      (xs ys : List DisclosureVerificationJob)
      → skip (length xs) (map (process c) (xs ++ ys)) ≡ map (process c) ys
  unfolding skip
  skip_outcomes [] ys = refl
  skip_outcomes (x ∷ xs) ys = skip_outcomes xs ys

length-skip : {A : Type 0} (n : ℕ) (l : List A) → n ≤ length l → n + length (skip n l) ≡ length l
unfolding skip
length-skip zero l h = omega arith
length-skip (suc n) [] h = absurd (omega arith)
length-skip (suc n) (x ∷ l) h = omega (arith, length-skip n l (omega arith))

slice-append :
    {A : Type 0} (l : List A) (offset : ℕ) (xs ys : List A)
    → skip offset l ≡ xs ++ ys
    → offset + length xs ≤ length l
    → slice l offset (length xs) ≡ ok xs
unfolding slice
slice-append l offset xs ys h k =
    rw (le→leb (offset + length xs) (length l) k, h, take-append xs ys)

-- The part of one credential: its jobs are cut out, and assembled with its outcomes.
credential_assembled :
    (c : Codec) (plan_id : ℕ) (id : CredentialBatchId) (ds : List String)
    → assemble_disclosures
        (map local_job (jobs_of_credential plan_id id 0 ds))
        (map local_outcome (map (process c) (jobs_of_credential plan_id id 0 ds)))
      ≡ preprocess_disclosures_serial c ds
credential_assembled c plan_id id ds =
    unfold plan_disclosures in
    rw (local_outcomes c plan_id (jobs_of_credential plan_id id 0 ds), local_jobs c plan_id id 0 ds)
      (assemble_disclosures-Permᴰ c ds _ (same _))

module _ (c : Codec) (plan : DisclosureVerificationBatchPlan) where
  assemble_credentials-each :
      (n offset : ℕ) (cs : List CredentialDisclosures)
      → ((i : ℕ)
          → get_elem? plan.disclosure_counts (n + i)
            ≡ get_elem? (map (λ credential. length credential.disclosures) cs) i)
      → skip offset plan.jobs ≡ jobs_from plan.plan_id n cs
      → offset ≤ length plan.jobs
      → assemble_credentials plan
          (length cs)
          n
          offset
          (map (process c) (jobs_from plan.plan_id n cs))
        ≡ preprocess_each c n cs
  unfolding assemble_credentials preprocess_each jobs_from
  assemble_credentials-each n offset [] counts rest within = refl
  assemble_credentials-each n offset (credential ∷ cs) counts rest within =
      let mine =
        jobs_of_credential plan.plan_id (record { ordinal = n }) 0 credential.disclosures in
      let others = jobs_from plan.plan_id (suc n) cs in
      let here = rw add-zero at (counts 0) in
      let size : length mine ≡ length credential.disclosures = length-jobs_of_credential _ _ 0 _ in
      let total = length-skip offset plan.jobs within in
      let enough : offset + length mine ≤ length plan.jobs =
        omega (arith, total, ap length rest, length-append mine others) in
      rw (here, ← size)
        (rw (slice-append plan.jobs offset mine others rest enough) (
          rw (take_outcomes c mine others, skip_outcomes c mine others)
            (rw
              (credential_assembled c plan.plan_id (record { ordinal = n }) credential.disclosures)
              (rw (
                assemble_credentials-each (suc n) (offset + length mine) cs
                  (λ i. ap (get_elem? plan.disclosure_counts) (omega arith) ∙ counts (suc i))
                  (skip-skip offset (length mine) plan.jobs ∙ rw rest (skip-append mine others))
                  enough)))))

skip_zero : {A : Type 0} (l : List A) → skip 0 l ≡ l
unfolding skip
skip_zero [] = refl
skip_zero (x ∷ l) = refl

validate-outcomes :
    (c : Codec) {cs : List CredentialDisclosures} {n k : ℕ} {plan : DisclosureVerificationBatchPlan}
    → IsPlanned cs n k plan
    → validate_outcomes plan (map (process c) plan.jobs) ≡ ok tt
unfolding validate_outcomes
validate-outcomes c {cs} {plan} planned =
    let ids : check_plan_ids plan.plan_id (map (process c) plan.jobs) ≡ ok tt =
      rw planned.jobs (check_plan_ids-jobs_from c plan.plan_id 0 cs) in
    rw
      (ids, check_pairs-outcomes c plan.plan_id plan.jobs, length-outcomes c plan.plan_id plan.jobs)
      (rw (nat_eq_self (length plan.jobs)))

-- For a plan within the limits, assembling the outcomes of all its jobs, in whatever order an
-- executor returned them, gives what serial preprocessing gives for each credential by itself, in
-- the caller's order; where that fails, it fails with the error of the first credential that does.
pub assemble-Permᴰ :
    (c : Codec) {credentials : List CredentialDisclosures} {n counter : ℕ}
    {plan : DisclosureVerificationBatchPlan} {outcomes : List DisclosureVerificationOutcome}
    → IsPlanned credentials n counter plan
    → Permᴰ (map (process c) plan.jobs) outcomes
    → assemble plan outcomes ≡ preprocess_each c 0 credentials
unfolding assemble
assemble-Permᴰ c {credentials} {plan} {outcomes} planned p =
    let rises : Rises by_key (map (process c) plan.jobs) =
      rw planned.jobs (jobs_from-Rises c plan.plan_id 0 credentials) in
    rw (← sort-Permᴰ by_key by_key_trans p (Rises-Differ by_key _ rises), sort-Rises by_key _ rises)
      (rw (validate-outcomes c planned, planned.credential_count)
        (ap (assemble_credentials plan (length credentials) 0 0) (ap (map (process c)) planned.jobs)
          ∙ assemble_credentials-each c plan 0 0 credentials
              (λ i.
                ap (get_elem? plan.disclosure_counts) (omega arith)
                ∙ ap (λ l. get_elem? l i) planned.counts)
              (skip_zero plan.jobs ∙ planned.jobs) (omega arith)))

-- What an outcome, and a job, says of the job's place and text.
abbrev pub bound_of : DisclosureVerificationOutcome → DisclosureVerificationJobId × String
bound_of outcome = (outcome.id, outcome.encoded_disclosure)

abbrev pub planned_of : DisclosureVerificationJob → DisclosureVerificationJobId × String
planned_of job = (job.id, job.encoded_disclosure)

check_plan_ids-All :
    (plan_id : ℕ) (outcomes : List DisclosureVerificationOutcome)
    → check_plan_ids plan_id outcomes ≡ ok tt
    → All (λ o. o.plan_id ≡ plan_id) outcomes
unfolding check_plan_ids
check_plan_ids-All plan_id [] h = tt
check_plan_ids-All plan_id (o ∷ outcomes) h =
    let (_, here, there) = >>=-eq-ok (ensure (nat_eq o.plan_id plan_id) _) _ h in
    (
      (nat_eq_iff o.plan_id plan_id).0 (ensure-eq-ok _ _ here),
      check_plan_ids-All plan_id outcomes there,
    )

same_id-eq : (a b : DisclosureVerificationJobId) → same_id a b ≡ true → a ≡ b
unfolding same_id
same_id-eq a b h = ground arith

check_pairs-eq :
    (jobs : List DisclosureVerificationJob) (outcomes : List DisclosureVerificationOutcome)
    → check_pairs jobs outcomes ≡ ok tt
    → length outcomes ≡ length jobs
    → map bound_of outcomes ≡ map planned_of jobs
unfolding check_pairs
check_pairs-eq [] [] h l = refl
check_pairs-eq [] (o ∷ outcomes) h l = absurd (omega (arith, l))
check_pairs-eq (job ∷ jobs) [] h l = absurd (omega (arith, l))
check_pairs-eq (job ∷ jobs) (o ∷ outcomes) h l =
    let (_, ids, h₁) = >>=-eq-ok (ensure (same_id o.id job.id) _) _ h in
    let (_, texts, h₂) =
      >>=-eq-ok (ensure (o.encoded_disclosure == job.encoded_disclosure) _) _ h₁ in
    rw (
      same_id-eq o.id job.id (ensure-eq-ok _ _ ids),
      (eq_iff o.encoded_disclosure job.encoded_disclosure).0 (ensure-eq-ok _ _ texts),
      check_pairs-eq jobs outcomes h₂ (omega (arith, l)),
    )

-- What is assembled had exactly one outcome for each job: sorted by credential and disclosure, the
-- outcomes carry the jobs' identities and encoded disclosures, and all come from this plan. A
-- missing, duplicated, swapped, altered or foreign outcome is refused.
pub assemble-identities :
    (plan : DisclosureVerificationBatchPlan) (outcomes : List DisclosureVerificationOutcome)
    {assembled : List CredentialDisclosureMappings}
    → assemble plan outcomes ≡ ok assembled
    → (map bound_of (sort_by by_key outcomes) ≡ map planned_of plan.jobs)
      × All (λ o. o.plan_id ≡ plan.plan_id) (sort_by by_key outcomes)
unfolding assemble validate_outcomes
assemble-identities plan outcomes h =
    let sorted = sort_by by_key outcomes in
    let (_, valid, _) = >>=-eq-ok (validate_outcomes plan sorted) _ h in
    let (_, ids, h₁) = >>=-eq-ok (check_plan_ids plan.plan_id sorted) _ valid in
    let (_, pairs, h₂) = >>=-eq-ok (check_pairs plan.jobs sorted) _ h₁ in
    (
      check_pairs-eq plan.jobs sorted pairs
          ((nat_eq_iff (length sorted) (length plan.jobs)).0 (ensure-eq-ok _ _ h₂)),
      check_plan_ids-All plan.plan_id sorted ids,
    )
