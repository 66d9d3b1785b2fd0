-- ===== src/Batch/Limits.antt =====
-- The plan of src/batch.rs: its limits, and that its jobs are the disclosures in the caller's order.
use sd_jwt_rust.Prelude.{
  not_ltb→le, ℕ, suc, ◌+◌, ◌≤◌, String, ◌≡◌, refl, Bool, true, false, if◌then◌else◌, not, List, [],
  ◌∷◌, map, ltb, arith, length, length-append, All,
}
use sd_jwt_rust.Error.{
  Result, ok, err, panic, out_of_fuel, Ensures, returns, raises, Ensures-bind, Ensures-ensure,
  Ensures-ok_or, Ensures-weaken, Ensures-ok, Ensures-self, Ensures-ne-panic, Ensures-ne-out_of_fuel,
  ensure, >>=-eq-ok, ensure-eq-ok,
}
use sd_jwt_rust.Text.{as_bytes}
use sd_jwt_rust.Common.{max_sd_jwt_input_bytes, max_sd_jwt_disclosures, max_sd_jwt_disclosure_bytes}
use sd_jwt_rust.Common.Limits.{IsWithin}
use sd_jwt_rust.Batch.{
  CredentialDisclosures, CredentialBatchId, DisclosureVerificationBatchPlan, Memory, usize_max,
  max_disclosure_batch_credentials, checked_add, add_disclosure_bytes, count_jobs,
  check_credentials, jobs_of_credential, jobs_from, fetch_plan_id, fill_plan, identified,
  plan_space_error, new, batch_capacity_error,
}

-- The sum of the encoded disclosures' lengths, and of a batch's.
abbrev pub disclosure_bytes : List String → ℕ
disclosure_bytes [] = 0
disclosure_bytes (d ∷ ds) = length (as_bytes d) + disclosure_bytes ds

abbrev pub batch_bytes : List CredentialDisclosures → ℕ
batch_bytes [] = 0
batch_bytes (credential ∷ credentials) =
    disclosure_bytes credential.disclosures + batch_bytes credentials

abbrev pub batch_disclosures : List CredentialDisclosures → ℕ
batch_disclosures [] = 0
batch_disclosures (credential ∷ credentials) =
    length credential.disclosures + batch_disclosures credentials

abbrev pub AreWithin : CredentialDisclosures → Type 0
AreWithin credential = All (IsWithin max_sd_jwt_disclosure_bytes) credential.disclosures

-- The plan is for the batch: within the limits, with the jobs of the disclosures in their order,
-- under an identity that the counter does not give again.
pub record IsPlanned (credentials : List CredentialDisclosures) (next_plan_id counter : ℕ)
    (plan : DisclosureVerificationBatchPlan) : Type 0 where
  pub credential_limit : length credentials ≤ max_disclosure_batch_credentials
  pub disclosure_limit : batch_disclosures credentials ≤ max_sd_jwt_disclosures
  pub sizes : All AreWithin credentials
  pub bytes : batch_bytes credentials ≤ max_sd_jwt_input_bytes
  pub fresh : (plan.plan_id ≡ next_plan_id) × (counter ≡ suc next_plan_id)
  pub credential_count : plan.credential_count ≡ length credentials
  pub counts :
      plan.disclosure_counts ≡ map (λ credential. length credential.disclosures) credentials
  pub jobs : plan.jobs ≡ jobs_from plan.plan_id 0 credentials
  pub job_count : length plan.jobs ≡ batch_disclosures credentials

add_disclosure_bytes-Ensures :
    (total : ℕ) (ds : List String)
    → total ≤ max_sd_jwt_input_bytes
    → Ensures
        (λ sum.
          (sum ≡ total + disclosure_bytes ds)
          × (sum ≤ max_sd_jwt_input_bytes)
          × All (IsWithin max_sd_jwt_disclosure_bytes) ds)
        (add_disclosure_bytes total ds)
unfolding add_disclosure_bytes checked_add
add_disclosure_bytes-Ensures total [] h = returns {a = total} (omega arith, h, tt)
add_disclosure_bytes-Ensures total (d ∷ ds) h =
    Ensures-ensure (not (ltb max_sd_jwt_disclosure_bytes (length (as_bytes d)))) _ λ size.
      Ensures-ok_or (checked_add total (length (as_bytes d))) _ λ sum e.
        Ensures-ensure (not (ltb max_sd_jwt_input_bytes sum)) _ λ limit.
          let exact : sum ≡ total + length (as_bytes d) = ground (arith, e) in
          Ensures-weaken
            (add_disclosure_bytes-Ensures sum ds (not_ltb→le max_sd_jwt_input_bytes sum limit))
            λ a p. (omega (arith, p.0, exact), p.1, (not_ltb→le _ _ size, p.2))

count_jobs-Ensures :
    (jobs bytes : ℕ) (cs : List CredentialDisclosures)
    → jobs ≤ max_sd_jwt_disclosures
    → bytes ≤ max_sd_jwt_input_bytes
    → Ensures
        (λ total.
          (total ≡ jobs + batch_disclosures cs)
          × (total ≤ max_sd_jwt_disclosures)
          × (bytes + batch_bytes cs ≤ max_sd_jwt_input_bytes)
          × All AreWithin cs)
        (count_jobs jobs bytes cs)
unfolding count_jobs checked_add
count_jobs-Ensures jobs bytes [] h k = returns {a = jobs} (omega arith, h, omega arith, tt)
count_jobs-Ensures jobs bytes (credential ∷ cs) h k =
    Ensures-ok_or (checked_add jobs (length credential.disclosures)) _ λ sum e.
      Ensures-ensure (not (ltb max_sd_jwt_disclosures sum)) _ λ limit.
        Ensures-bind (add_disclosure_bytes-Ensures bytes credential.disclosures k) λ sum' p.
          let exact : sum ≡ jobs + length credential.disclosures = ground (arith, e) in
          Ensures-weaken
            (count_jobs-Ensures sum sum' cs (not_ltb→le max_sd_jwt_disclosures sum limit) p.1)
            λ a q. (omega (arith, q.0, exact), q.1, omega (arith, q.2, p.0), (p.2, q.3))

pub length-jobs_of_credential :
    (plan_id : ℕ) (id : CredentialBatchId) (n : ℕ) (ds : List String)
    → length (jobs_of_credential plan_id id n ds) ≡ length ds
unfolding jobs_of_credential
length-jobs_of_credential plan_id id n [] = refl
length-jobs_of_credential plan_id id n (d ∷ ds) =
    omega (arith, length-jobs_of_credential plan_id id (suc n) ds)

length-jobs_from :
    (plan_id n : ℕ) (cs : List CredentialDisclosures)
    → length (jobs_from plan_id n cs) ≡ batch_disclosures cs
unfolding jobs_from
length-jobs_from plan_id n [] = refl
length-jobs_from plan_id n (credential ∷ cs) = omega (
  arith,
  length-append (jobs_of_credential plan_id (record { ordinal = n }) 0 credential.disclosures)
      (jobs_from plan_id (suc n) cs),
  length-jobs_of_credential plan_id (record { ordinal = n }) 0 credential.disclosures,
  length-jobs_from plan_id (suc n) cs,
)

fetch_plan_id-Ensures :
    (n : ℕ) → Ensures (λ id. (id ≡ n) × ((fetch_plan_id n).1 ≡ suc n)) (fetch_plan_id n).0
unfolding fetch_plan_id
fetch_plan_id-Ensures n = go (ltb n usize_max)
  where
    go :
        (b : Bool)
        → let fetched : Result ℕ × ℕ = if b then (ok n, suc n) else (err plan_space_error, n) in
          Ensures (λ id. (id ≡ n) × (fetched.1 ≡ suc n)) fetched.0
    go true = returns (refl, refl)
    go false = raises _

fill_plan-Ensures :
    (memory : Memory) (cs : List CredentialDisclosures) (total next : ℕ)
    → check_credentials cs ≡ ok total
    → Ensures (IsPlanned cs next (suc next)) (fill_plan memory cs total next)
unfolding fill_plan check_credentials
fill_plan-Ensures memory cs total next h =
    Ensures-ensure (memory.reserves_counts (length cs)) batch_capacity_error λ _.
      Ensures-ensure (memory.reserves_jobs total) batch_capacity_error λ _.
        let (_, few, counted) = >>=-eq-ok (ensure (not (ltb 1024 (length cs))) _) _ h in
        let limits = Ensures-ok (count_jobs-Ensures 0 0 cs (omega arith) (omega arith)) counted in
        returns (record {
          credential_limit = not_ltb→le _ _ (ensure-eq-ok _ _ few);
          disclosure_limit = omega (arith, limits.0, limits.1);
          sizes = limits.3;
          bytes = omega (arith, limits.2);
          fresh = (refl, refl);
          credential_count = refl;
          counts = refl;
          jobs = refl;
          job_count = length-jobs_from next 0 cs;
        })

checks : (cs : List CredentialDisclosures) → Ensures (λ total. Unit {0}) (check_credentials cs)
unfolding check_credentials
checks cs =
    Ensures-ensure (not (ltb max_disclosure_batch_credentials (length cs))) _
      λ _. Ensures-weaken (count_jobs-Ensures 0 0 cs (omega arith) (omega arith)) λ total p. tt

check_credentials-Ensures :
    (cs : List CredentialDisclosures)
    → Ensures (λ total. check_credentials cs ≡ ok total) (check_credentials cs)
unfolding check_credentials
check_credentials-Ensures cs =
    Ensures-self (check_credentials cs) (Ensures-ne-panic (checks cs))
      (Ensures-ne-out_of_fuel (checks cs))

identified-IsPlanned :
    (memory : Memory) (next : ℕ) (cs : List CredentialDisclosures) (r : Result ℕ)
    → Ensures (λ total. check_credentials cs ≡ ok total) r
    → Ensures (IsPlanned cs next (identified memory next cs r).1) (identified memory next cs r).0
unfolding identified
identified-IsPlanned memory next cs (ok total) (returns h) =
    Ensures-bind (fetch_plan_id-Ensures next)
      λ id e. rw (e.0, e.1) (fill_plan-Ensures memory cs total next h)
identified-IsPlanned memory next cs (err e) h = raises e
identified-IsPlanned memory next cs panic h = absurd (Ensures-ne-panic h refl)
identified-IsPlanned memory next cs out_of_fuel h = absurd (Ensures-ne-out_of_fuel h refl)

-- A plan is made without a panic, or refused with an error. One that is made has at most 1024
-- credentials and 8192 disclosures, each of at most 64 KiB and together of at most 2 MiB; its jobs
-- are the disclosures of the credentials in the caller's order, and its identity is the counter's,
-- which moves past it.
pub new-IsPlanned :
    (memory : Memory) (next_plan_id : ℕ) (credentials : List CredentialDisclosures)
    → Ensures
        (IsPlanned credentials next_plan_id (new memory next_plan_id credentials).1)
        (new memory next_plan_id credentials).0
unfolding new
new-IsPlanned memory next_plan_id credentials =
    identified-IsPlanned memory next_plan_id credentials (check_credentials credentials)
      (Ensures-weaken (check_credentials-Ensures credentials) λ total e. e)
