-- ===== src/Issuance/Native/Estimate.antt =====
-- The estimated work of the jobs that are ready in src/issuer/issuance_plan.rs. A `usize` has 64
-- bits, and a sum beyond them is none.
use sd_jwt_rust.Prelude.{ℕ, String, Option, none, some, List, [], ◌∷◌, if◌then◌else◌, length}
use sd_jwt_rust.Json.{
  Value, Items, Members, null, bool, number, string, array, object, nil, cons, empty, member,
}
use sd_jwt_rust.Text.{as_bytes}
use sd_jwt_rust.Batch.{checked_add}
use sd_jwt_rust.Issuance.Executor.{IssuanceJob, IssuanceJobOperation}

-- `total.checked_add(n)?`, where either may have overflowed.
unfoldable pub then_add : Option ℕ → Option ℕ → Option ℕ
unfolding checked_add
then_add (some a) (some b) = checked_add a b
then_add _ _ = none

abbrev pub bytes_of : String → Option ℕ
bytes_of s = some (length (as_bytes s))

-- `estimate_value`; the first number of a loop is that of the separators before its next element.
unfoldable mutual
  unfolding then_add

  pub estimate_value : Value → Option ℕ
  estimate_value null = some 4
  estimate_value (bool b) = some (if b then 4 else 5)
  estimate_value (number n) = bytes_of n
  estimate_value (string s) = then_add (bytes_of s) (some 2)
  estimate_value (array xs) = estimate_items 0 (some 2) xs
  estimate_value (object m) = estimate_members 0 (some 2) m

  pub estimate_items : ℕ → Option ℕ → Items → Option ℕ
  estimate_items separators total nil = total
  estimate_items separators total (cons v xs) =
      estimate_items 1 (then_add (then_add total (some separators)) (estimate_value v)) xs

  pub estimate_members : ℕ → Option ℕ → Members → Option ℕ
  estimate_members separators total empty = total
  estimate_members separators total (member k v m) =
      estimate_members 1
        (then_add (then_add (then_add total (some separators)) (then_add (bytes_of k) (some 3)))
          (estimate_value v))
        m

unfoldable pub estimate_operation : IssuanceJobOperation → Option ℕ
unfolding estimate_value
estimate_operation (IssuanceJobOperation.object_disclosure key salt value) =
    then_add (then_add (then_add (bytes_of salt) (bytes_of key)) (estimate_value value)) (some 10)
estimate_operation (IssuanceJobOperation.array_disclosure salt value) =
    then_add (then_add (bytes_of salt) (estimate_value value)) (some 6)
estimate_operation (IssuanceJobOperation.decoy salt) = bytes_of salt

unfoldable pub estimate_from : Option ℕ → List IssuanceJob → Option ℕ
unfolding estimate_operation
estimate_from total [] = total
estimate_from total (job ∷ jobs) =
    estimate_from (then_add total (estimate_operation job.operation)) jobs

unfoldable pub estimate_ready_job_work_bytes : List IssuanceJob → Option ℕ
unfolding estimate_from
estimate_ready_job_work_bytes jobs = estimate_from (some 0) jobs
