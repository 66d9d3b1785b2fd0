-- ===== src/Preprocessing/Assembly.antt =====
-- The assembly of executor outcomes in src/disclosure_preprocessing.rs: outcomes in any order are
-- restored to input order and checked against the planned jobs before the mappings are built.
pub mod Order
pub mod Contract
use Prim.Native.String.{◌++◌ as append}
use sd_jwt_rust.Prelude.{
  ℕ, zero, suc, ◌+◌, String, Bool, true, false, not, Option, none, some, List, [], ◌∷◌, ◌==◌,
  nat_eq, ltb, leb, if◌then◌else◌, length, get_elem?,
}
use sd_jwt_rust.Error.{Error, Result, ok, err, ◌>>=◌, ◌>>◌, ensure, or_panic}
use sd_jwt_rust.Text.{decimal}
use sd_jwt_rust.Preprocessing.{
  DisclosureJob, DisclosureOutcome, DisclosureMappings, no_mappings, executor_contract_error,
  outcome_result, enter_disclosure,
}

unfoldable pub plan_from : ℕ → List String → List DisclosureJob
plan_from n [] = []
plan_from n (encoded ∷ rest) =
    record { ordinal = n; encoded_disclosure = encoded } ∷ plan_from (suc n) rest

unfoldable pub plan_disclosures : List String → List DisclosureJob
unfolding plan_from
plan_disclosures = plan_from 0

-- `sort_by_key(|outcome| outcome.ordinal)`: stable, so an outcome stays before a later one with its
-- ordinal.
unfoldable pub insert_by_ordinal :
    DisclosureOutcome → List DisclosureOutcome → List DisclosureOutcome
insert_by_ordinal x [] = x ∷ []
insert_by_ordinal x (y ∷ ys) =
    if leb x.ordinal y.ordinal then x ∷ y ∷ ys else y ∷ insert_by_ordinal x ys

unfoldable pub sort_by_ordinal : List DisclosureOutcome → List DisclosureOutcome
unfolding insert_by_ordinal
sort_by_ordinal [] = []
sort_by_ordinal (x ∷ xs) = insert_by_ordinal x (sort_by_ordinal xs)

unfoldable pub check_job_ordinals : ℕ → List DisclosureJob → Result (Unit {0})
check_job_ordinals n [] = ok tt
check_job_ordinals n (job ∷ jobs) = do
  ensure (nat_eq job.ordinal n) (
      executor_contract_error (
        append "job ordinal "
          (append (decimal job.ordinal) (append " does not match planned ordinal " (decimal n)))))
  check_job_ordinals (suc n) jobs

unfoldable pub check_in_range : ℕ → List DisclosureOutcome → Result (Unit {0})
check_in_range count [] = ok tt
check_in_range count (outcome ∷ outcomes) = do
  ensure (ltb outcome.ordinal count) (
      executor_contract_error (
        append "outcome ordinal " (
          append (decimal outcome.ordinal)
            (append " is out of range for " (append (decimal count) " jobs")))))
  check_in_range count outcomes

-- The loop over `windows(2)`.
unfoldable pub check_no_duplicate : List DisclosureOutcome → Result (Unit {0})
check_no_duplicate [] = ok tt
check_no_duplicate (a ∷ []) = ok tt
check_no_duplicate (a ∷ b ∷ outcomes) = do
  ensure (not (nat_eq a.ordinal b.ordinal)) (
      executor_contract_error
        (append "multiple outcomes were returned for ordinal " (decimal a.ordinal)))
  check_no_duplicate (b ∷ outcomes)

unfoldable pub check_identities :
    List DisclosureJob → ℕ → List DisclosureOutcome → Result (Unit {0})
check_identities jobs n [] = ok tt
check_identities jobs n (outcome ∷ outcomes) = do
  ensure (nat_eq outcome.ordinal n)
      (executor_contract_error (append "no outcome was returned for ordinal " (decimal n)))
  job ← or_panic (get_elem? jobs n)
  ensure (outcome.encoded_disclosure == job.encoded_disclosure)
      (executor_contract_error (append "encoded identity changed for ordinal " (decimal n)))
  check_identities jobs (suc n) outcomes

unfoldable pub validate_outcome_contract :
    List DisclosureJob → List DisclosureOutcome → Result (Unit {0})
unfolding check_job_ordinals check_in_range check_no_duplicate check_identities
validate_outcome_contract jobs outcomes = do
  check_job_ordinals 0 jobs
  check_in_range (length jobs) outcomes
  check_no_duplicate outcomes
  check_identities jobs 0 outcomes
  ensure (leb (length jobs) (length outcomes)) (
      executor_contract_error
        (append "no outcome was returned for ordinal " (decimal (length outcomes))))

unfoldable pub assemble_from :
    List DisclosureOutcome → DisclosureMappings → Result DisclosureMappings
assemble_from [] m = ok m
assemble_from (outcome ∷ outcomes) m = do
  processed ← outcome_result outcome.ordinal outcome.result
  m' ← enter_disclosure outcome.encoded_disclosure processed m
  assemble_from outcomes m'

unfoldable pub assemble_disclosures :
    List DisclosureJob → List DisclosureOutcome → Result DisclosureMappings
unfolding sort_by_ordinal validate_outcome_contract assemble_from
assemble_disclosures jobs outcomes = do
  let sorted = sort_by_ordinal outcomes
  validate_outcome_contract jobs sorted
  assemble_from sorted no_mappings
