-- ===== src/Issuance/Assembly/Walk.antt =====
-- The walk of the serial assembler of src/issuer/issuance_plan.rs over the planned claims, and the
-- execution of a plan.
use sd_jwt_rust.Prelude.{ℕ, String, none, some, List, [], ◌∷◌, ◌++◌}
use sd_jwt_rust.Error.{Result, ok, ◌>>=◌}
use sd_jwt_rust.Json.{Value, Items, Members, null, array, object, nil, cons, empty, insert}
use sd_jwt_rust.Text.{as_bytes}
use sd_jwt_rust.Codec.{Codec, base64_hash}
use sd_jwt_rust.Reserved.{sd_digests_key}
use sd_jwt_rust.Disclosure.{new_with_salt}
use sd_jwt_rust.Plan.{
  PlannedJobKind, kind, PlannedValue, planned, PlannedValueKind, PlannedArrayEntry,
  PlannedArrayEntries, PlannedObjectEntry, PlannedObjectEntries, IssuancePlan,
}
use sd_jwt_rust.Issuance.Assembly.{
  IssuanceAssembly, SerialAssembler, new_assembler, take_job, record_disclosure, array_operation,
  object_operation, decoy_operation, publish_digests, list_digest, finish,
}

module _ (c : Codec) where
  unfoldable pub execute_decoy : ℕ → ℕ → SerialAssembler → Result (String × SerialAssembler)
  unfolding take_job decoy_operation
  execute_decoy job_id location_id self = do
    (operation, self₁) ← take_job job_id location_id PlannedJobKind.decoy self
    salt ← decoy_operation operation
    ok (base64_hash c (as_bytes salt), self₁)

  unfoldable pub execute_decoys :
      List ℕ → ℕ → List String → SerialAssembler → Result (List String × SerialAssembler)
  unfolding execute_decoy
  execute_decoys [] location_id digests self = ok (digests, self)
  execute_decoys (job_id ∷ job_ids) location_id digests self = do
    (digest, self₁) ← execute_decoy job_id location_id self
    execute_decoys job_ids location_id (digests ++ digest ∷ []) self₁

  -- An entry's job, behind the entry's subtree.
  unfoldable pub execute_array_disclosure :
      ℕ → ℕ → Value → SerialAssembler → Result (Value × SerialAssembler)
  unfolding take_job array_operation record_disclosure
  execute_array_disclosure job_id location_id subtree self = do
    (operation, self₁) ← take_job job_id location_id PlannedJobKind.array_disclosure self
    (ordinal, salt) ← array_operation operation
    let disclosure = new_with_salt c none (c.to_string subtree) salt
    self₂ ← record_disclosure job_id ordinal disclosure self₁
    ok (list_digest disclosure.hash, self₂)

  unfoldable pub execute_object_disclosure :
      ℕ → ℕ → Value → SerialAssembler → Result (String × SerialAssembler)
  unfolding take_job object_operation record_disclosure
  execute_object_disclosure job_id location_id subtree self = do
    (operation, self₁) ← take_job job_id location_id PlannedJobKind.object_disclosure self
    (ordinal, key, salt) ← object_operation operation
    let disclosure = new_with_salt c (some key) (c.to_string subtree) salt
    self₂ ← record_disclosure job_id ordinal disclosure self₁
    ok (disclosure.hash, self₂)

  unfoldable mutual
    unfolding execute_decoys execute_array_disclosure execute_object_disclosure publish_digests

    pub execute_value : PlannedValue → SerialAssembler → Result (Value × SerialAssembler)
    execute_value (planned location_id kind) self = execute_kind location_id kind self

    pub execute_kind : ℕ → PlannedValueKind → SerialAssembler → Result (Value × SerialAssembler)
    execute_kind location_id (PlannedValueKind.scalar value) self = ok (value, self)
    execute_kind location_id (PlannedValueKind.array entries) self = do
      (claims, self₁) ← execute_array entries self
      ok (array claims, self₁)
    execute_kind location_id (PlannedValueKind.object entries decoy_job_ids) self = do
      ((claims, digests), self₁) ← execute_object entries (insert sd_digests_key null empty) [] self
      (digests₁, self₂) ← execute_decoys decoy_job_ids location_id digests self₁
      ok (object (publish_digests claims digests₁), self₂)

    pub execute_array_entry : PlannedArrayEntry → SerialAssembler → Result (Value × SerialAssembler)
    execute_array_entry (PlannedArrayEntry.visible_element value) self = execute_value value self
    execute_array_entry (PlannedArrayEntry.disclosed_element (planned location_id kind) job_id)
          self =
        do
          (subtree, self₁) ← execute_kind location_id kind self
          execute_array_disclosure job_id location_id subtree self₁

    pub execute_array : PlannedArrayEntries → SerialAssembler → Result (Items × SerialAssembler)
    execute_array PlannedArrayEntries.no_element self = ok (nil, self)
    execute_array (PlannedArrayEntries.element entry entries) self = do
      (claim, self₁) ← execute_array_entry entry self
      (claims, self₂) ← execute_array entries self₁
      ok (cons claim claims, self₂)

    pub execute_object_entry :
        PlannedObjectEntry
        → Members
        → List String
        → SerialAssembler
        → Result ((Members × List String) × SerialAssembler)
    execute_object_entry (PlannedObjectEntry.visible_member key value) claims digests self = do
      (claim, self₁) ← execute_value value self
      ok ((insert key claim claims, digests), self₁)
    execute_object_entry (PlannedObjectEntry.disclosed_member (planned location_id kind) job_id)
          claims digests self =
        do
          (subtree, self₁) ← execute_kind location_id kind self
          (digest, self₂) ← execute_object_disclosure job_id location_id subtree self₁
          ok ((claims, digests ++ digest ∷ []), self₂)

    pub execute_object :
        PlannedObjectEntries
        → Members
        → List String
        → SerialAssembler
        → Result ((Members × List String) × SerialAssembler)
    execute_object PlannedObjectEntries.no_member claims digests self = ok ((claims, digests), self)
    execute_object (PlannedObjectEntries.entry entry entries) claims digests self = do
      ((claims₁, digests₁), self₁) ← execute_object_entry entry claims digests self
      execute_object entries claims₁ digests₁ self₁

  unfoldable pub execute_serial : IssuancePlan → Result IssuanceAssembly
  unfolding new_assembler execute_value finish
  execute_serial plan = do
    assembler ← new_assembler plan.jobs plan.disclosure_job_ids
    (claims, assembler₁) ← execute_value plan.root assembler
    finish claims assembler₁

  -- `IssuancePlan::execute`: no thresholds are configured, so that the serial path is taken.
  unfoldable pub execute : IssuancePlan → Result IssuanceAssembly
  unfolding execute_serial
  execute plan = execute_serial plan
