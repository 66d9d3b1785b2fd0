-- ===== src/Issuance/Assembly.antt =====
-- The serial assembler of src/issuer/issuance_plan.rs: it checks the registry of jobs, walks the
-- planned claims, takes each job once, and records the disclosures by their ordinals.
pub mod Walk
use sd_jwt_rust.Prelude.{
  ℕ, zero, suc, String, Bool, true, false, Option, none, some, List, [], ◌∷◌, ◌++◌, map, ltb, leb,
  nat_eq, if◌then◌else◌, length, get_elem?,
}
use sd_jwt_rust.Prelude.Sorting.{sort_by}
use sd_jwt_rust.Error.{Result, ok, err, ◌>>=◌, ◌>>◌, ensure, ok_or}
use sd_jwt_rust.Json.{
  Value, Items, Members, null, string, array, object, nil, cons, empty, member, insert,
  shift_remove, strings,
}
use sd_jwt_rust.Text.{as_bytes}
use sd_jwt_rust.Codec.{Codec, base64_hash}
use sd_jwt_rust.Reserved.{sd_digests_key, sd_list_prefix}
use sd_jwt_rust.Disclosure.{SdJwtDisclosure, new_with_salt}
use sd_jwt_rust.Plan.{
  max_identity, invalid_plan, PlannedJobKind, PlannedJobOperation, kind, disclosure_ordinal,
  PlannedJob, PlannedValue, planned, PlannedValueKind, PlannedArrayEntry, PlannedArrayEntries,
  PlannedObjectEntry, PlannedObjectEntries, IssuancePlan,
}

pub record IssuanceAssembly : Type 0 where
  pub claims : Value
  pub disclosures : List SdJwtDisclosure

pub record SerialAssembler : Type 0 where
  pub disclosures : List (Option SdJwtDisclosure)
  pub jobs : List (Option PlannedJob)
  pub disclosure_job_ids : List ℕ

-- `list[index] = value`, for an index within the list.
unfoldable pub set_at {ℓ} : {A : Type ℓ} → ℕ → A → List A → List A
set_at n a [] = []
set_at zero a (x ∷ l) = a ∷ l
set_at (suc n) a (x ∷ l) = x ∷ set_at n a l

-- `repeat_with(|| None).take(n)`.
unfoldable pub nones {ℓ} : {A : Type ℓ} → ℕ → List (Option A)
nones zero = []
nones (suc n) = none ∷ nones n

abbrev pub same_kind : PlannedJobKind → PlannedJobKind → Bool
same_kind PlannedJobKind.object_disclosure PlannedJobKind.object_disclosure = true
same_kind PlannedJobKind.array_disclosure PlannedJobKind.array_disclosure = true
same_kind PlannedJobKind.decoy PlannedJobKind.decoy = true
same_kind _ _ = false

abbrev pub is_ordinal : Option ℕ → ℕ → Bool
is_ordinal none n = false
is_ordinal (some k) n = nat_eq k n

-- The binding of a job's ordinal in the registry of disclosures; a decoy has none.
unfoldable pub check_bound : List ℕ → ℕ → Option ℕ → Result (Unit {0})
check_bound disclosure_job_ids job_id none = ok tt
check_bound disclosure_job_ids job_id (some ordinal) = do
  bound_job_id ←
      ok_or (get_elem? disclosure_job_ids ordinal)
        (invalid_plan "a disclosure ordinal is out of bounds")
  ensure (nat_eq bound_job_id job_id)
      (invalid_plan "a disclosure ordinal is bound to the wrong job identity")

-- The first loop of `validate_registry`, and the second.
unfoldable pub check_jobs : List ℕ → ℕ → List PlannedJob → Result (Unit {0})
unfolding check_bound
check_jobs disclosure_job_ids index [] = ok tt
check_jobs disclosure_job_ids index (job ∷ jobs) = do
  ensure (leb index max_identity) (invalid_plan "issuance job registry exceeds identity capacity")
  ensure (nat_eq job.job_id index)
      (invalid_plan "a job descriptor identity does not match its registry index")
  check_bound disclosure_job_ids job.job_id (disclosure_ordinal job.operation)
  check_jobs disclosure_job_ids (suc index) jobs

unfoldable pub check_ordinals : List PlannedJob → ℕ → List ℕ → Result (Unit {0})
check_ordinals jobs ordinal [] = ok tt
check_ordinals jobs ordinal (job_id ∷ job_ids) = do
  job ← ok_or (get_elem? jobs job_id) (invalid_plan "a disclosure job identity is out of bounds")
  ensure (is_ordinal (disclosure_ordinal job.operation) ordinal)
      (invalid_plan "a disclosure registry entry is bound to the wrong ordinal")
  check_ordinals jobs (suc ordinal) job_ids

unfoldable pub validate_registry : List PlannedJob → List ℕ → Result (Unit {0})
unfolding check_jobs check_ordinals
validate_registry jobs disclosure_job_ids = do
  check_jobs disclosure_job_ids 0 jobs
  check_ordinals jobs 0 disclosure_job_ids

unfoldable pub new_assembler : List PlannedJob → List ℕ → Result SerialAssembler
unfolding validate_registry nones
new_assembler jobs disclosure_job_ids = do
  validate_registry jobs disclosure_job_ids
  ok (record {
    disclosures = nones (length disclosure_job_ids);
    jobs = map some jobs;
    disclosure_job_ids = disclosure_job_ids;
  })

unfoldable pub take_planned_job :
    ℕ → ℕ → PlannedJobKind → SerialAssembler → Result (PlannedJob × SerialAssembler)
unfolding set_at
take_planned_job job_id location_id expected_kind self = do
  slot ←
      ok_or (get_elem? self.jobs job_id) (invalid_plan "an issuance job identity is out of bounds")
  job ← ok_or slot (invalid_plan "an issuance job was executed more than once")
  ensure (nat_eq job.job_id job_id) (invalid_plan "an issuance job returned the wrong identity")
  ensure (nat_eq job.location_id location_id)
      (invalid_plan "an issuance job was restored at the wrong structural location")
  ensure (same_kind (kind job.operation) expected_kind)
      (invalid_plan "an issuance job has the wrong operation kind")
  ok (job, record self { jobs = set_at job_id none self.jobs })

unfoldable pub take_job :
    ℕ → ℕ → PlannedJobKind → SerialAssembler → Result (PlannedJobOperation × SerialAssembler)
unfolding take_planned_job
take_job job_id location_id expected_kind self = do
  (job, self₁) ← take_planned_job job_id location_id expected_kind self
  ok (job.operation, self₁)

-- The slot of an ordinal, if a disclosure may still be put there.
unfoldable pub check_slot : Option (Option SdJwtDisclosure) → Result (Unit {0})
check_slot none = err (invalid_plan "a disclosure ordinal is out of bounds")
check_slot (some (some disclosure)) =
    err (invalid_plan "a disclosure ordinal appears more than once")
check_slot (some none) = ok tt

unfoldable pub record_disclosure :
    ℕ → ℕ → SdJwtDisclosure → SerialAssembler → Result SerialAssembler
unfolding check_slot set_at
record_disclosure job_id ordinal disclosure self = do
  ensure (is_ordinal (get_elem? self.disclosure_job_ids ordinal) job_id)
      (invalid_plan "a disclosure result is bound to the wrong job identity")
  check_slot (get_elem? self.disclosures ordinal)
  ok (record self { disclosures = set_at ordinal (some disclosure) self.disclosures })

-- The operation that an entry's job must have.
unfoldable pub array_operation : PlannedJobOperation → Result (ℕ × String)
array_operation (PlannedJobOperation.array_disclosure ordinal salt) = ok (ordinal, salt)
array_operation _ = err (invalid_plan "an array entry references the wrong job kind")

unfoldable pub object_operation : PlannedJobOperation → Result (ℕ × String × String)
object_operation (PlannedJobOperation.object_disclosure ordinal key salt) = ok (ordinal, key, salt)
object_operation _ = err (invalid_plan "an object entry references the wrong job kind")

unfoldable pub decoy_operation : PlannedJobOperation → Result String
decoy_operation (PlannedJobOperation.decoy salt) = ok salt
decoy_operation _ = err (invalid_plan "a decoy entry references the wrong job kind")

-- The order of `sort` on texts: that of their bytes.
unfoldable pub bytes_leb : List ℕ → List ℕ → Bool
bytes_leb [] ys = true
bytes_leb (x ∷ xs) [] = false
bytes_leb (x ∷ xs) (y ∷ ys) =
    let rest = bytes_leb xs ys in if ltb x y then true else if nat_eq x y then rest else false

unfoldable pub text_leb : String → String → Bool
unfolding bytes_leb
text_leb a b = bytes_leb (as_bytes a) (as_bytes b)

-- The digests of an object take the place of the `null` that was put under `_sd` first.
unfoldable pub publish_digests : Members → List String → Members
unfolding text_leb
publish_digests claims [] = shift_remove sd_digests_key claims
publish_digests claims (digest ∷ digests) =
    insert sd_digests_key (array (strings (sort_by text_leb (digest ∷ digests)))) claims

-- `json!({ "...": hash })`.
abbrev pub list_digest : String → Value
list_digest hash = object (member sd_list_prefix (string hash) empty)

unfoldable pub all_executed : List (Option PlannedJob) → Bool
all_executed [] = true
all_executed (none ∷ slots) = all_executed slots
all_executed (some job ∷ slots) = false

unfoldable pub collect_disclosures : List (Option SdJwtDisclosure) → Result (List SdJwtDisclosure)
collect_disclosures [] = ok []
collect_disclosures (slot ∷ slots) = do
  disclosure ← ok_or slot (invalid_plan "a planned disclosure result is missing")
  disclosures ← collect_disclosures slots
  ok (disclosure ∷ disclosures)

unfoldable pub finish : Value → SerialAssembler → Result IssuanceAssembly
unfolding all_executed collect_disclosures
finish claims self = do
  ensure (all_executed self.jobs) (invalid_plan "not every issuance job was executed")
  disclosures ← collect_disclosures self.disclosures
  ok (record { claims = claims; disclosures = disclosures })
