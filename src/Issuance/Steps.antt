-- ===== src/Issuance/Steps.antt =====
-- The two moves of the assembler in src/issuer/issuance_plan.rs, where all stands in order: taking
-- the next job, and recording the next disclosure.
use mathlib.Core.List.{append-nil}
use sd_jwt_rust.Prelude.{
  nat_eq_self, length-snoc, ℕ, zero, suc, ◌≤◌, String, ◌≡◌, refl, ap, sym, Bool, true, Option, none,
  some, List, [], ◌∷◌, ◌++◌, map, arith, length, get_elem?, leb, ltb, false,
}
use sd_jwt_rust.Text.{as_bytes}
use sd_jwt_rust.Error.{Result, ok, ◌>>=◌, ◌>>◌, ensure, Ensures, returns, raises, Ensures-bind}
use sd_jwt_rust.Codec.{Codec, base64_hash}
use sd_jwt_rust.Json.{Value, Members}
use sd_jwt_rust.Disclosure.{SdJwtDisclosure, new_with_salt}
use sd_jwt_rust.Plan.{
  PlannedJob, PlannedJobKind, PlannedJobOperation, kind, RandomSource, max_identity, invalid_plan,
}
use sd_jwt_rust.Issuance.{
  allocate_job_id, allocate_location_id, plan_array_disclosure, plan_object_disclosure, plan_decoy,
  plan_decoys,
}
use sd_jwt_rust.Issuance.Assembly.{
  nones, set_at, same_kind, take_planned_job, take_job, record_disclosure, check_slot,
  array_operation, object_operation, decoy_operation,
}
use sd_jwt_rust.Issuance.Assembly.Walk.{
  execute_decoy, execute_decoys, execute_array_disclosure, execute_object_disclosure,
}
use sd_jwt_rust.Issuance.Reference.{conceal_element, conceal_member, draw_decoys}
use sd_jwt_rust.Issuance.Registry.{Registered, get_elem?-length}
use sd_jwt_rust.Issuance.Follows.{
  standing, Planning, Follows, Follows-return, Follows-bind, Follows-at,
}

leb→le : (a b : ℕ) → leb a b ≡ true → a ≤ b
leb→le a b h = ground arith

pub same_kind_self : (k : PlannedJobKind) → same_kind k k ≡ true
same_kind_self PlannedJobKind.object_disclosure = refl
same_kind_self PlannedJobKind.array_disclosure = refl
same_kind_self PlannedJobKind.decoy = refl

module _ {A : Type 0} where
  get-nones : (n : ℕ) (a : Option A) (l : List (Option A)) → get_elem? (nones n ++ a ∷ l) n ≡ some a
  unfolding nones
  get-nones zero a l = refl
  get-nones (suc n) a l = get-nones n a l

  set_at-nones :
      (n : ℕ) (a : Option A) (l : List (Option A))
      → set_at n none (nones n ++ a ∷ l) ≡ nones (suc n) ++ l
  unfolding nones set_at
  set_at-nones zero a l = refl
  set_at-nones (suc n) a l = ap (λ m. none ∷ m) (set_at-nones n a l)

  pub get-filled :
      (done : List A) (n : ℕ) → get_elem? (map some done ++ nones (suc n)) (length done) ≡ some none
  unfolding nones
  get-filled [] n = refl
  get-filled (d ∷ done) n = get-filled done n

  pub set_at-filled :
      (done : List A) (a : A) (n : ℕ)
      → set_at (length done) (some a) (map some done ++ nones (suc n))
        ≡ map some (done ++ a ∷ []) ++ nones n
  unfolding nones set_at
  set_at-filled [] a n = refl
  set_at-filled (d ∷ done) a n = ap (λ m. some d ∷ m) (set_at-filled done a n)

take_planned_job-standing :
    (job : PlannedJob) (later : List PlannedJob) (done : List SdJwtDisclosure) (n : ℕ)
    (ids : List ℕ)
    → take_planned_job job.job_id job.location_id
        (kind job.operation)
        (standing job.job_id (job ∷ later) done n ids)
      ≡ ok (job, standing (suc job.job_id) later done n ids)
unfolding take_planned_job
take_planned_job-standing job later done n ids =
    rw (get-nones job.job_id (some job) (map some later)) (
      rw (
        nat_eq_self job.job_id,
        nat_eq_self job.location_id,
        same_kind_self (kind job.operation),
        set_at-nones job.job_id (some job) (map some later),
      ))

record_disclosure-standing :
    (taken : ℕ) (later : List PlannedJob) (done : List SdJwtDisclosure) (d : SdJwtDisclosure)
    (n job_id : ℕ) (before after : List ℕ)
    → length done ≡ length before
    → record_disclosure job_id
        (length before)
        d
        (standing taken later done (suc n) (before ++ job_id ∷ after))
      ≡ ok (standing taken later (done ++ d ∷ []) n (before ++ job_id ∷ after))
unfolding record_disclosure check_slot
record_disclosure-standing taken later done d n job_id before after e =
    rw (get_elem?-length before job_id after, nat_eq_self job_id)
      (rw (← e) (rw (get-filled done n, set_at-filled done d n)))

module _ (c : Codec) (source : RandomSource) (decoys : Bool) where
  module _ {X : Type 0} (Q : X → Type 0) where
    -- Where an identity is left, the rest goes on with it.
    pub Ensures-job :
        (p : Planning c source decoys) (k : ℕ → Result X)
        → (length p.jobs ≤ max_identity → Ensures Q (k (length p.jobs)))
        → Ensures Q (allocate_job_id source decoys p >>= k)
    unfolding allocate_job_id
    Ensures-job p k h = go (leb (length p.jobs) max_identity) refl
      where
        go :
            (b : Bool)
            → leb (length p.jobs) max_identity ≡ b
            → Ensures Q (
                (ensure b (invalid_plan "issuance job identity overflow") >> ok (length p.jobs))
                >>= k)
        go true e = h (leb→le _ _ e)
        go false e = raises _

    pub Ensures-location :
        (p : Planning c source decoys) (k : ℕ × Planning c source decoys → Result X)
        → Ensures Q (k (p.next_location_id, record p { next_location_id = suc p.next_location_id }))
        → Ensures Q (allocate_location_id source decoys p >>= k)
    unfolding allocate_location_id
    Ensures-location p k h = go (ltb p.next_location_id max_identity)
      where
        go :
            (b : Bool)
            → Ensures Q (
                (ensure b (invalid_plan "issuance location identity overflow")
                  >> ok
                      (p.next_location_id, record p { next_location_id = suc p.next_location_id }))
                >>= k)
        go true = h
        go false = raises _

  pub plan_array_disclosure-Follows :
      (location_id : ℕ) (p : Planning c source decoys)
      → Ensures
          (λ q.
            (claim : Value)
            → Follows c source decoys p q.1
                (conceal_element c source true claim p.random)
                (execute_array_disclosure c q.0 location_id claim))
          (plan_array_disclosure source decoys location_id p)
  unfolding plan_array_disclosure conceal_element execute_array_disclosure take_job array_operation
  plan_array_disclosure-Follows location_id p = Ensures-job _ p _ λ few. returns λ claim.
      let salt = (source.disclosure_salt p.random).0 in
      let job : PlannedJob = record {
        job_id = length p.jobs;
        location_id = location_id;
        operation = PlannedJobOperation.array_disclosure (length p.disclosure_job_ids) salt;
      } in
      record {
        jobs = job ∷ [];
        ids = length p.jobs ∷ [];
        jobs_added = refl;
        ids_added = refl;
        random = refl;
        count = refl;
        registered = Registered.disclosure_job refl few refl Registered.none_left;
        runs = λ done later later_ids e. rw (take_planned_job-standing job later done _ _) (
            rw
              (record_disclosure-standing (suc (length p.jobs)) later done
                (new_with_salt c none (c.to_string claim) salt) (length later_ids) (length p.jobs)
                p.disclosure_job_ids later_ids e)
              (rw (length-snoc p.jobs job)));
      }

  pub plan_object_disclosure-Follows :
      (location_id : ℕ) (key : String) (p : Planning c source decoys)
      → Ensures
          (λ q.
            (published : Members × List String) (claim : Value)
            → Follows c source decoys p q.1
                (conceal_member c source true key published claim p.random)
                (λ s. execute_object_disclosure c q.0 location_id claim s >>= λ r.
                  ok ((published.0, published.1 ++ r.0 ∷ []), r.1)))
          (plan_object_disclosure source decoys location_id key p)
  unfolding plan_object_disclosure conceal_member execute_object_disclosure take_job
      object_operation
  plan_object_disclosure-Follows location_id key p = Ensures-job _ p _ λ few.
      returns λ published claim.
        let salt = (source.disclosure_salt p.random).0 in
        let job : PlannedJob = record {
          job_id = length p.jobs;
          location_id = location_id;
          operation = PlannedJobOperation.object_disclosure (length p.disclosure_job_ids) key salt;
        } in
        record {
          jobs = job ∷ [];
          ids = length p.jobs ∷ [];
          jobs_added = refl;
          ids_added = refl;
          random = refl;
          count = refl;
          registered = Registered.disclosure_job refl few refl Registered.none_left;
          runs = λ done later later_ids e. rw (take_planned_job-standing job later done _ _) (
              rw
                (record_disclosure-standing (suc (length p.jobs)) later done
                  (new_with_salt c (some key) (c.to_string claim) salt) (length later_ids)
                  (length p.jobs) p.disclosure_job_ids later_ids e)
                (rw (length-snoc p.jobs job)));
        }

  plan_decoy-Follows :
      (location_id : ℕ) (p : Planning c source decoys)
      → Ensures
          (λ q.
            Follows c source decoys p q.1
              (
                base64_hash c (as_bytes (source.decoy_salt p.random).0),
                [],
                (source.decoy_salt p.random).1,
              )
              (execute_decoy c q.0 location_id))
          (plan_decoy source decoys location_id p)
  unfolding plan_decoy execute_decoy take_job decoy_operation
  plan_decoy-Follows location_id p = Ensures-job _ p _ λ few. returns (
      let job : PlannedJob = record {
        job_id = length p.jobs;
        location_id = location_id;
        operation = PlannedJobOperation.decoy (source.decoy_salt p.random).0;
      } in
      record {
        jobs = job ∷ [];
        ids = [];
        jobs_added = refl;
        ids_added = sym (append-nil _);
        random = refl;
        count = refl;
        registered = Registered.decoy_job refl few refl Registered.none_left;
        runs = λ done later later_ids e.
            rw (take_planned_job-standing job later done _ _)
              (rw (length-snoc p.jobs job, append-nil));
      })

  pub plan_decoys-Follows :
      (count location_id : ℕ) (p : Planning c source decoys)
      → Ensures
          (λ q.
            (digests : List String)
            → Follows c source decoys p q.1
                (draw_decoys c source count digests p.random)
                (execute_decoys c q.0 location_id digests))
          (plan_decoys source decoys count location_id p)
  unfolding plan_decoys draw_decoys execute_decoys
  plan_decoys-Follows zero location_id p =
      returns λ digests. Follows-return c source decoys p digests λ s. refl
  plan_decoys-Follows (suc count) location_id p =
      Ensures-bind (plan_decoy-Follows location_id p) λ q h.
        Ensures-bind (plan_decoys-Follows count location_id q.1) λ r k. returns λ digests.
          let more = digests ++ base64_hash c (as_bytes (source.decoy_salt p.random).0) ∷ [] in
          Follows-bind c source decoys
            (λ digest. execute_decoys c r.0 location_id (digests ++ digest ∷ [])) h
            (Follows-at c source decoys (draw_decoys c source count more) h.random (k more))
