-- ===== src/Plan.antt =====
-- src/issuer/issuance_plan.rs: the data of an issuance plan, and the source of its salts (a trait of
-- src/issuer.rs).
use Prim.Native.String.{◌++◌ as append}
use sd_jwt_rust.Prelude.{ℕ, ◌-◌, ◌^◌, String, Option, none, some, List}
use sd_jwt_rust.Error.{Error, invalid_state}
use sd_jwt_rust.Json.{Value}

-- The largest identity of a job or a location: `u64::MAX`.
abbrev pub max_identity : ℕ
max_identity = 2 ^ 64 - 1

abbrev pub decoy_min_elements : ℕ
decoy_min_elements = 2

abbrev pub decoy_max_elements : ℕ
decoy_max_elements = 5

unfoldable pub invalid_plan : String → Error
invalid_plan message = invalid_state (append "invalid issuance plan: " message)

pub data PlannedJobKind : Type 0 where
  object_disclosure array_disclosure decoy : PlannedJobKind

pub data PlannedJobOperation : Type 0 where
  object_disclosure : (ordinal : ℕ) (key salt : String) → PlannedJobOperation
  array_disclosure : (ordinal : ℕ) (salt : String) → PlannedJobOperation
  decoy : (salt : String) → PlannedJobOperation

abbrev pub kind : PlannedJobOperation → PlannedJobKind
kind (PlannedJobOperation.object_disclosure ordinal key salt) = PlannedJobKind.object_disclosure
kind (PlannedJobOperation.array_disclosure ordinal salt) = PlannedJobKind.array_disclosure
kind (PlannedJobOperation.decoy salt) = PlannedJobKind.decoy

abbrev pub disclosure_ordinal : PlannedJobOperation → Option ℕ
disclosure_ordinal (PlannedJobOperation.object_disclosure ordinal key salt) = some ordinal
disclosure_ordinal (PlannedJobOperation.array_disclosure ordinal salt) = some ordinal
disclosure_ordinal (PlannedJobOperation.decoy salt) = none

pub record PlannedJob : Type 0 where
  pub job_id : ℕ
  pub location_id : ℕ
  pub operation : PlannedJobOperation

mutual
  pub data PlannedValue : Type 0 where
    planned : (location_id : ℕ) → PlannedValueKind → PlannedValue

  pub data PlannedValueKind : Type 0 where
    scalar : Value → PlannedValueKind
    array : PlannedArrayEntries → PlannedValueKind
    object : PlannedObjectEntries → (decoy_job_ids : List ℕ) → PlannedValueKind

  pub data PlannedArrayEntry : Type 0 where
    visible_element : PlannedValue → PlannedArrayEntry
    disclosed_element : PlannedValue → (job_id : ℕ) → PlannedArrayEntry

  pub data PlannedArrayEntries : Type 0 where
    no_element : PlannedArrayEntries
    element : PlannedArrayEntry → PlannedArrayEntries → PlannedArrayEntries

  pub data PlannedObjectEntry : Type 0 where
    visible_member : String → PlannedValue → PlannedObjectEntry
    disclosed_member : PlannedValue → (job_id : ℕ) → PlannedObjectEntry

  pub data PlannedObjectEntries : Type 0 where
    no_member : PlannedObjectEntries
    entry : PlannedObjectEntry → PlannedObjectEntries → PlannedObjectEntries

-- The trait `IssuanceRandomSource`, with the state that its methods move.
pub record RandomSource : Type 1 where
  pub State : Type 0
  pub disclosure_salt : State → String × State
  pub decoy_count : ℕ → ℕ → State → ℕ × State
  pub decoy_salt : State → String × State

pub record IssuancePlan : Type 0 where
  pub root : PlannedValue
  pub jobs : List PlannedJob
  pub disclosure_job_ids : List ℕ
