-- ===== src/Issuance.antt =====
-- src/issuer/issuance_plan.rs: the plan of an issuance. The planner walks the claims in depth-first
-- order, draws the salts, and gives each disclosure and decoy a job with an identity and a location.
pub mod Assembly
pub mod Reference
pub mod Registry
pub mod Follows
pub mod Steps
pub mod Soundness
pub mod Plain
pub mod Executor
pub mod Native
use Prim.Native.String.{◌++◌ as append}
use sd_jwt_rust.Prelude.{
  ℕ, zero, suc, ◌+◌, ◌-◌, ◌^◌, String, Bool, true, false, Option, none, some, List, [], ◌∷◌, ◌++◌,
  ltb, leb, if◌then◌else◌, length,
}
use sd_jwt_rust.Error.{Result, ok, err, ◌>>=◌, ◌>>◌, ensure}
use sd_jwt_rust.Json.{
  Value, Items, Members, null, bool, number, string, array, object, nil, cons, empty, member,
}
use sd_jwt_rust.Text.{decimal}
use sd_jwt_rust.Plan.{
  max_identity, decoy_min_elements, decoy_max_elements, invalid_plan, PlannedJobOperation,
  PlannedJob, PlannedValue, planned, PlannedValueKind, PlannedArrayEntry, PlannedArrayEntries,
  PlannedObjectEntry, PlannedObjectEntries, RandomSource, IssuancePlan,
}
use sd_jwt_rust.Strategy.{ClaimsForSelectiveDisclosureStrategy, next_level, sd_for_key}

-- The key of an array element, as a strategy names it.
unfoldable pub array_key : ℕ → String
array_key index = append "[" (append (decimal index) "]")

module _ (source : RandomSource) (add_decoy_claims : Bool) where
  -- The planner and the random source that it draws from.
  pub record Planner : Type 0 where
    pub next_location_id : ℕ
    pub jobs : List PlannedJob
    pub disclosure_job_ids : List ℕ
    pub random : source.State

  unfoldable pub allocate_job_id : Planner → Result ℕ
  allocate_job_id self = do
    ensure (leb (length self.jobs) max_identity) (invalid_plan "issuance job identity overflow")
    ok (length self.jobs)

  unfoldable pub allocate_location_id : Planner → Result (ℕ × Planner)
  allocate_location_id self = do
    ensure (ltb self.next_location_id max_identity)
        (invalid_plan "issuance location identity overflow")
    ok (self.next_location_id, record self { next_location_id = suc self.next_location_id })

  unfoldable pub plan_object_disclosure : ℕ → String → Planner → Result (ℕ × Planner)
  unfolding allocate_job_id
  plan_object_disclosure location_id key self = do
    let ordinal = length self.disclosure_job_ids
    job_id ← allocate_job_id self
    let (salt, random) = source.disclosure_salt self.random
    ok (
      job_id,
      record {
        next_location_id = self.next_location_id;
        jobs =
            self.jobs
            ++ record {
              job_id = job_id;
              location_id = location_id;
              operation = PlannedJobOperation.object_disclosure ordinal key salt;
            }
              ∷ [];
        disclosure_job_ids = self.disclosure_job_ids ++ job_id ∷ [];
        random = random;
      },
    )

  unfoldable pub plan_array_disclosure : ℕ → Planner → Result (ℕ × Planner)
  unfolding allocate_job_id
  plan_array_disclosure location_id self = do
    let ordinal = length self.disclosure_job_ids
    job_id ← allocate_job_id self
    let (salt, random) = source.disclosure_salt self.random
    ok (
      job_id,
      record {
        next_location_id = self.next_location_id;
        jobs =
            self.jobs
            ++ record {
              job_id = job_id;
              location_id = location_id;
              operation = PlannedJobOperation.array_disclosure ordinal salt;
            }
              ∷ [];
        disclosure_job_ids = self.disclosure_job_ids ++ job_id ∷ [];
        random = random;
      },
    )

  unfoldable pub plan_decoy : ℕ → Planner → Result (ℕ × Planner)
  unfolding allocate_job_id
  plan_decoy location_id self = do
    job_id ← allocate_job_id self
    let (salt, random) = source.decoy_salt self.random
    ok (
      job_id,
      record {
        next_location_id = self.next_location_id;
        jobs =
            self.jobs
            ++ record {
              job_id = job_id;
              location_id = location_id;
              operation = PlannedJobOperation.decoy salt;
            }
              ∷ [];
        disclosure_job_ids = self.disclosure_job_ids;
        random = random;
      },
    )

  -- `for _ in 0..count`.
  unfoldable pub plan_decoys : ℕ → ℕ → Planner → Result (List ℕ × Planner)
  unfolding plan_decoy
  plan_decoys zero location_id self = ok ([], self)
  plan_decoys (suc count) location_id self = do
    (job_id, self₁) ← plan_decoy location_id self
    (job_ids, self₂) ← plan_decoys count location_id self₁
    ok (job_id ∷ job_ids, self₂)

  -- The decoys of an object, if the issuance adds any.
  unfoldable pub plan_object_decoys : Bool → ℕ → Planner → Result (List ℕ × Planner)
  unfolding plan_decoys
  plan_object_decoys false location_id self = ok ([], self)
  plan_object_decoys true location_id self =
      let (count, random) = source.decoy_count decoy_min_elements decoy_max_elements self.random in
      plan_decoys count location_id (record self { random = random })

  -- The entry of an array element, and of a member, by whether it becomes a disclosure.
  unfoldable pub plan_array_entry :
      Bool → ℕ → PlannedValueKind → Planner → Result (PlannedArrayEntry × Planner)
  unfolding plan_array_disclosure
  plan_array_entry true location_id kind self = do
    (job_id, self₁) ← plan_array_disclosure location_id self
    ok (PlannedArrayEntry.disclosed_element (planned location_id kind) job_id, self₁)
  plan_array_entry false location_id kind self =
      ok (PlannedArrayEntry.visible_element (planned location_id kind), self)

  unfoldable pub plan_object_entry :
      Bool → ℕ → String → PlannedValueKind → Planner → Result (PlannedObjectEntry × Planner)
  unfolding plan_object_disclosure
  plan_object_entry true location_id key kind self = do
    (job_id, self₁) ← plan_object_disclosure location_id key self
    ok (PlannedObjectEntry.disclosed_member (planned location_id kind) job_id, self₁)
  plan_object_entry false location_id key kind self =
      ok (PlannedObjectEntry.visible_member key (planned location_id kind), self)

  -- `plan_value` puts the location before the kind that `plan_kind` finds.
  unfoldable mutual
    unfolding plan_array_entry plan_object_entry plan_object_decoys array_key

    pub plan_kind :
        Value
        → ClaimsForSelectiveDisclosureStrategy
        → ℕ
        → Planner
        → Result (PlannedValueKind × Planner)
    plan_kind (array values) strategy location_id self = do
      (entries, self₁) ← plan_array values 0 strategy self
      ok (PlannedValueKind.array entries, self₁)
    plan_kind (object values) strategy location_id self = do
      (entries, self₁) ← plan_object values strategy self
      (decoy_job_ids, self₂) ← plan_object_decoys add_decoy_claims location_id self₁
      ok (PlannedValueKind.object entries decoy_job_ids, self₂)
    plan_kind null strategy location_id self = ok (PlannedValueKind.scalar null, self)
    plan_kind (bool b) strategy location_id self = ok (PlannedValueKind.scalar (bool b), self)
    plan_kind (number n) strategy location_id self = ok (PlannedValueKind.scalar (number n), self)
    plan_kind (string s) strategy location_id self = ok (PlannedValueKind.scalar (string s), self)

    pub plan_array :
        Items
        → ℕ
        → ClaimsForSelectiveDisclosureStrategy
        → Planner
        → Result (PlannedArrayEntries × Planner)
    plan_array nil index strategy self = ok (PlannedArrayEntries.no_element, self)
    plan_array (cons value values) index strategy self = do
      (location_id, self₁) ← allocate_location_id self
      (kind, self₂) ← plan_kind value (next_level strategy (array_key index)) location_id self₁
      (entry, self₃) ←
          plan_array_entry (sd_for_key strategy (array_key index)) location_id kind self₂
      (entries, self₄) ← plan_array values (suc index) strategy self₃
      ok (PlannedArrayEntries.element entry entries, self₄)

    pub plan_object :
        Members
        → ClaimsForSelectiveDisclosureStrategy
        → Planner
        → Result (PlannedObjectEntries × Planner)
    plan_object empty strategy self = ok (PlannedObjectEntries.no_member, self)
    plan_object (member key value values) strategy self = do
      (location_id, self₁) ← allocate_location_id self
      (kind, self₂) ← plan_kind value (next_level strategy key) location_id self₁
      (entry, self₃) ← plan_object_entry (sd_for_key strategy key) location_id key kind self₂
      (entries, self₄) ← plan_object values strategy self₃
      ok (PlannedObjectEntries.entry entry entries, self₄)

  unfoldable pub plan_value :
      Value → ClaimsForSelectiveDisclosureStrategy → ℕ → Planner → Result (PlannedValue × Planner)
  unfolding plan_kind
  plan_value value strategy location_id self = do
    (kind, self₁) ← plan_kind value strategy location_id self
    ok (planned location_id kind, self₁)

  unfoldable pub create :
      Value
      → ClaimsForSelectiveDisclosureStrategy
      → source.State
      → Result (IssuancePlan × source.State)
  unfolding allocate_location_id plan_value
  create claims strategy random = do
    let planner : Planner = record {
      next_location_id = 0;
      jobs = [];
      disclosure_job_ids = [];
      random = random;
    }
    (root_location_id, planner₁) ← allocate_location_id planner
    (root, planner₂) ← plan_value claims strategy root_location_id planner₁
    ok (
      record {
        root = root;
        jobs = planner₂.jobs;
        disclosure_job_ids = planner₂.disclosure_job_ids;
      },
      planner₂.random,
    )
