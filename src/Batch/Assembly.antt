-- ===== src/Batch/Assembly.antt =====
-- The assembly of a batch of src/batch.rs: the validation of outcomes in any order, and the mappings
-- of each credential.
use Prim.Native.String.{◌++◌ as append}
use sd_jwt_rust.Prelude.{
  ℕ, zero, suc, ◌+◌, String, Bool, ◌&&◌, ◌||◌, Option, none, some, List, [], ◌∷◌, map, ◌==◌, nat_eq,
  ltb, leb, if◌then◌else◌, length, get_elem?,
}
use sd_jwt_rust.Prelude.Sorting.{sort_by}
use sd_jwt_rust.Error.{Error, Result, ok, panic, ◌>>=◌, ◌>>◌, ensure, or_panic}
use sd_jwt_rust.Text.{decimal}
use sd_jwt_rust.Preprocessing.{DisclosureJob, DisclosureOutcome, DisclosureMappings}
use sd_jwt_rust.Preprocessing.Assembly.{assemble_disclosures}
use sd_jwt_rust.Batch.{
  DisclosureVerificationJobId, DisclosureVerificationJob, DisclosureVerificationOutcome,
  CredentialDisclosureMappings, DisclosureVerificationBatchPlan, batch_contract_error, same_id,
}

-- `sort_by_key(|outcome| (outcome.id.credential.ordinal, outcome.id.ordinal))`.
unfoldable pub by_key : DisclosureVerificationOutcome → DisclosureVerificationOutcome → Bool
by_key a b =
    ltb a.id.credential.ordinal b.id.credential.ordinal
    || (nat_eq a.id.credential.ordinal b.id.credential.ordinal && leb a.id.ordinal b.id.ordinal)

unfoldable pub id_text : DisclosureVerificationJobId → String
id_text id =
    append "credential ordinal "
      (append (decimal id.credential.ordinal) (append " job ordinal " (decimal id.ordinal)))

unfoldable pub check_plan_ids : ℕ → List DisclosureVerificationOutcome → Result (Unit {0})
unfolding id_text
check_plan_ids plan_id [] = ok tt
check_plan_ids plan_id (outcome ∷ outcomes) = do
  ensure (nat_eq outcome.plan_id plan_id)
      (batch_contract_error (append "foreign plan identity at " (id_text outcome.id)))
  check_plan_ids plan_id outcomes

-- The loop over `zip`.
unfoldable pub check_pairs :
    List DisclosureVerificationJob → List DisclosureVerificationOutcome → Result (Unit {0})
unfolding same_id id_text
check_pairs [] outcomes = ok tt
check_pairs (expected ∷ jobs) [] = ok tt
check_pairs (expected ∷ jobs) (outcome ∷ outcomes) = do
  ensure (same_id outcome.id expected.id)
      (batch_contract_error (append "missing or duplicate outcome at " (id_text expected.id)))
  ensure (outcome.encoded_disclosure == expected.encoded_disclosure)
      (batch_contract_error (append "encoded identity changed at " (id_text expected.id)))
  check_pairs jobs outcomes

unfoldable pub length_error : Option DisclosureVerificationJob → Error
unfolding id_text
length_error none = batch_contract_error "unexpected extra outcome"
length_error (some job) = batch_contract_error (append "no outcome at " (id_text job.id))

unfoldable pub validate_outcomes :
    DisclosureVerificationBatchPlan → List DisclosureVerificationOutcome → Result (Unit {0})
unfolding check_plan_ids check_pairs length_error
validate_outcomes self outcomes = do
  check_plan_ids self.plan_id outcomes
  check_pairs self.jobs outcomes
  ensure (nat_eq (length outcomes) (length self.jobs))
      (length_error (get_elem? self.jobs (length outcomes)))

unfoldable pub take {ℓ} : {A : Type ℓ} → ℕ → List A → List A
take zero l = []
take (suc n) [] = []
take (suc n) (x ∷ l) = x ∷ take n l

unfoldable pub skip {ℓ} : {A : Type ℓ} → ℕ → List A → List A
skip zero l = l
skip (suc n) [] = []
skip (suc n) (x ∷ l) = skip n l

-- `self.jobs[offset..offset + count]`.
unfoldable pub slice {ℓ} : {A : Type ℓ} → List A → ℕ → ℕ → Result (List A)
unfolding take skip
slice l offset count =
    if leb (offset + count) (length l) then ok (take count (skip offset l)) else panic

unfoldable pub local_job : DisclosureVerificationJob → DisclosureJob
local_job job = record { ordinal = job.id.ordinal; encoded_disclosure = job.encoded_disclosure }

unfoldable pub local_outcome : DisclosureVerificationOutcome → DisclosureOutcome
local_outcome outcome = record {
  ordinal = outcome.id.ordinal;
  encoded_disclosure = outcome.encoded_disclosure;
  result = outcome.result;
}

unfoldable pub published : ℕ → DisclosureMappings → CredentialDisclosureMappings
published credential_ordinal mappings = record {
  credential_id = record { ordinal = credential_ordinal };
  hash_to_decoded_disclosure = mappings.hash_to_decoded_disclosure;
  hash_to_disclosure = mappings.hash_to_disclosure;
  ordered_disclosure_digests = mappings.ordered_disclosure_digests;
}

-- The loop of `assemble` over the credentials that remain, with the offset of their first job and
-- the outcomes that the earlier ones left.
unfoldable pub assemble_credentials :
    DisclosureVerificationBatchPlan
    → ℕ
    → ℕ
    → ℕ
    → List DisclosureVerificationOutcome
    → Result (List CredentialDisclosureMappings)
unfolding slice local_job local_outcome published take skip
assemble_credentials self zero credential_ordinal job_offset outcomes = ok []
assemble_credentials self (suc remaining) credential_ordinal job_offset outcomes = do
  count ← or_panic (get_elem? self.disclosure_counts credential_ordinal)
  jobs ← slice self.jobs job_offset count
  mappings ← assemble_disclosures (map local_job jobs) (map local_outcome (take count outcomes))
  assembled ←
      assemble_credentials self remaining (suc credential_ordinal) (job_offset + count)
        (skip count outcomes)
  ok (published credential_ordinal mappings ∷ assembled)

unfoldable pub assemble :
    DisclosureVerificationBatchPlan
    → List DisclosureVerificationOutcome
    → Result (List CredentialDisclosureMappings)
unfolding by_key validate_outcomes assemble_credentials
assemble self outcomes = do
  let sorted = sort_by by_key outcomes
  validate_outcomes self sorted
  assemble_credentials self self.credential_count 0 0 sorted
