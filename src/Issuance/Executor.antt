-- ===== src/Issuance/Executor.antt =====
-- The jobs that src/issuer/issuance_plan.rs hands an executor, what a worker makes of a job, and the
-- restoration of outcomes to the planned order.
pub mod Placement
pub mod Restoration
use Prim.Native.String.{◌++◌ as append}
use sd_jwt_rust.Prelude.{
  ℕ, zero, suc, String, Bool, true, false, not, ◌&&◌, ◌||◌, Option, none, some, List, [], ◌∷◌, map,
  nat_eq, if◌then◌else◌, length, get_elem?,
}
use sd_jwt_rust.Error.{Error, Result, ok, err, ◌>>=◌, ◌>>◌, ensure, ok_or, invalid_state}
use sd_jwt_rust.Json.{Value}
use sd_jwt_rust.Text.{as_bytes}
use sd_jwt_rust.Codec.{Codec, base64_hash}
use sd_jwt_rust.Disclosure.{SdJwtDisclosure, new_with_salt}
use sd_jwt_rust.Plan.{PlannedJobKind}
use sd_jwt_rust.Issuance.Assembly.{set_at, nones, same_kind}

unfoldable pub issuance_contract_error : String → Error
issuance_contract_error message =
    invalid_state (append "invalid issuance executor result: " message)

pub record IssuanceJobIdentity : Type 0 where
  pub job_id : ℕ
  pub location_id : ℕ
  pub kind : PlannedJobKind
  pub disclosure_ordinal : Option ℕ

pub data IssuanceJobOperation : Type 0 where
  object_disclosure : (key salt : String) → Value → IssuanceJobOperation
  array_disclosure : (salt : String) → Value → IssuanceJobOperation
  decoy : (salt : String) → IssuanceJobOperation

pub record IssuanceJob : Type 0 where
  pub identity : IssuanceJobIdentity
  pub operation : IssuanceJobOperation

pub data IssuanceProduct : Type 0 where
  disclosure : SdJwtDisclosure → IssuanceProduct
  decoy_digest : String → IssuanceProduct

pub record IssuanceOutcome : Type 0 where
  pub identity : IssuanceJobIdentity
  pub result : Option (Result IssuanceProduct)

pub record RestoredIssuanceJob : Type 0 where
  pub identity : IssuanceJobIdentity
  pub product : IssuanceProduct

-- The derived `==` of identities.
abbrev pub same_ordinal : Option ℕ → Option ℕ → Bool
same_ordinal none none = true
same_ordinal (some a) (some b) = nat_eq a b
same_ordinal _ _ = false

unfoldable pub same_identity : IssuanceJobIdentity → IssuanceJobIdentity → Bool
same_identity a b =
    nat_eq a.job_id b.job_id
    && (nat_eq a.location_id b.location_id
        && (same_kind a.kind b.kind && same_ordinal a.disclosure_ordinal b.disclosure_ordinal))

-- The keys of `expected_by_id` are the expected identities if none stands twice; the value of a key
-- is its place.
unfoldable pub has_id : ℕ → List IssuanceJobIdentity → Bool
has_id job_id [] = false
has_id job_id (identity ∷ identities) =
    if nat_eq identity.job_id job_id then true else has_id job_id identities

unfoldable pub unique_ids : List IssuanceJobIdentity → Bool
unfolding has_id
unique_ids [] = true
unique_ids (identity ∷ identities) =
    not (has_id identity.job_id identities) && unique_ids identities

unfoldable pub index_by_id : List IssuanceJobIdentity → ℕ → Option ℕ
index_by_id [] job_id = none
index_by_id (identity ∷ identities) job_id =
    let behind = index_by_id identities job_id in
    if nat_eq identity.job_id job_id
    then some 0
    else elim behind [ none ↦ none | some n ↦ some (suc n) ]

-- The slots of the loop over the outcomes, and its three flags.
pub record Slots : Type 0 where
  pub slots : List (Option IssuanceOutcome)
  pub unexpected_identity : Bool
  pub duplicate_identity : Bool
  pub misplaced_identity : Bool

abbrev pub is_filled {ℓ} : {A : Type ℓ} → Option (Option A) → Bool
is_filled (some (some a)) = true
is_filled _ = false

unfoldable pub differs : Option IssuanceJobIdentity → IssuanceJobIdentity → Bool
unfolding same_identity
differs none identity = true
differs (some expected) identity = not (same_identity identity expected)

-- An outcome goes to the slot of its job.
unfoldable pub place_at : List IssuanceJobIdentity → IssuanceOutcome → Slots → Option ℕ → Slots
unfolding differs set_at
place_at expected outcome s none = record s { unexpected_identity = true }
place_at expected outcome s (some index) =
    if is_filled (get_elem? s.slots index)
    then record s { duplicate_identity = true }
    else record s {
      slots = set_at index (some outcome) s.slots;
      misplaced_identity =
          s.misplaced_identity || differs (get_elem? expected index) outcome.identity;
    }

unfoldable pub place : List IssuanceJobIdentity → IssuanceOutcome → Slots → Slots
unfolding place_at index_by_id
place expected outcome s =
    place_at expected outcome s (index_by_id expected outcome.identity.job_id)

unfoldable pub place_all : List IssuanceJobIdentity → List IssuanceOutcome → Slots → Slots
unfolding place
place_all expected [] s = s
place_all expected (outcome ∷ outcomes) s = place_all expected outcomes (place expected outcome s)

unfoldable pub any_missing : List (Option IssuanceOutcome) → Bool
any_missing [] = false
any_missing (none ∷ slots) = true
any_missing (some outcome ∷ slots) = any_missing slots

-- Whether a product is what a job of the kind makes.
abbrev pub fits : PlannedJobKind → IssuanceProduct → Bool
fits PlannedJobKind.object_disclosure (IssuanceProduct.disclosure d) = true
fits PlannedJobKind.array_disclosure (IssuanceProduct.disclosure d) = true
fits PlannedJobKind.decoy (IssuanceProduct.decoy_digest d) = true
fits _ _ = false

unfoldable pub outcome_product : Option (Result IssuanceProduct) → Result IssuanceProduct
outcome_product none = err (issuance_contract_error "an issuance result contained no worker output")
outcome_product (some r) = r

unfoldable pub restore_slots :
    List (Option IssuanceOutcome) → List IssuanceJobIdentity → Result (List RestoredIssuanceJob)
unfolding outcome_product
restore_slots [] identities = ok []
restore_slots (slot ∷ slots) [] = ok []
restore_slots (slot ∷ slots) (identity ∷ identities) = do
  outcome ← ok_or slot (issuance_contract_error "a planned issuance result was not returned")
  product ← outcome_product outcome.result
  ensure (fits identity.kind product)
      (issuance_contract_error "an issuance result has the wrong result kind")
  rest ← restore_slots slots identities
  ok (record { identity = identity; product = product } ∷ rest)

unfoldable pub restore_issuance_outcomes :
    List IssuanceJobIdentity → List IssuanceOutcome → Result (List RestoredIssuanceJob)
unfolding unique_ids place_all any_missing restore_slots nones
restore_issuance_outcomes expected outcomes = do
  ensure (unique_ids expected)
      (issuance_contract_error "planned issuance job identities are not unique")
  let placed = place_all expected outcomes (record {
    slots = nones (length expected);
    unexpected_identity = false;
    duplicate_identity = false;
    misplaced_identity = false;
  })
  ensure (not placed.unexpected_identity)
      (issuance_contract_error "an unexpected issuance result identity was returned")
  ensure (not placed.duplicate_identity)
      (issuance_contract_error "an issuance result identity was returned more than once")
  ensure (not placed.misplaced_identity)
      (issuance_contract_error "an issuance result was bound to the wrong planned location or kind")
  ensure (not (any_missing placed.slots))
      (issuance_contract_error "a planned issuance result was not returned")
  restore_slots placed.slots expected

unfoldable pub execute_and_restore :
    (List IssuanceJob → Result (List IssuanceOutcome))
    → List IssuanceJob
    → Result (List RestoredIssuanceJob)
unfolding restore_issuance_outcomes
execute_and_restore executor [] = ok []
execute_and_restore executor (job ∷ jobs) = do
  let expected = map (λ j. j.identity) (job ∷ jobs)
  outcomes ← executor (job ∷ jobs)
  restore_issuance_outcomes expected outcomes

module _ (c : Codec) where
  unfoldable pub product_of : IssuanceJobOperation → IssuanceProduct
  product_of (IssuanceJobOperation.object_disclosure key salt value) =
      IssuanceProduct.disclosure (new_with_salt c (some key) (c.to_string value) salt)
  product_of (IssuanceJobOperation.array_disclosure salt value) =
      IssuanceProduct.disclosure (new_with_salt c none (c.to_string value) salt)
  product_of (IssuanceJobOperation.decoy salt) =
      IssuanceProduct.decoy_digest (base64_hash c (as_bytes salt))

  unfoldable pub process_issuance_job : IssuanceJob → IssuanceOutcome
  unfolding product_of
  process_issuance_job job = record {
    identity = job.identity;
    result = some (ok (product_of job.operation));
  }

  -- `SerialIssuanceExecutor::execute` with the real worker.
  unfoldable pub execute_jobs : List IssuanceJob → Result (List IssuanceOutcome)
  unfolding process_issuance_job
  execute_jobs jobs = ok (map process_issuance_job jobs)
