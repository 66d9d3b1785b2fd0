-- ===== src/Issuance/Executor/Restoration.antt =====
-- Restoring outcomes in src/issuer/issuance_plan.rs: the outcomes of all jobs give the jobs' products
-- in the planned order, whatever order they come in.
use mathlib.Core.List.{Permᴰ, append_assoc, append-nil, map-append}
use sd_jwt_rust.Prelude.{
  ℕ, suc, ◌≡◌, ◌≢◌, refl, ap, sym, ◌∙◌, true, false, not, Option, none, some, List, [], ◌∷◌, ◌++◌,
  map, nat_eq, nat_eq_self, arith, length, get_elem?, All, and-elim, not-elim,
}
use sd_jwt_rust.Prelude.Sorting.{Differ}
use sd_jwt_rust.Error.{ok}
use sd_jwt_rust.Codec.{Codec}
use sd_jwt_rust.Issuance.Assembly.{nones}
use sd_jwt_rust.Issuance.Steps.{get-filled, set_at-filled, same_kind_self}
use sd_jwt_rust.Issuance.Executor.{
  IssuanceJob, IssuanceJobIdentity, IssuanceOutcome, RestoredIssuanceJob, Slots, same_identity,
  same_ordinal, has_id, unique_ids, index_by_id, differs, place_at, place, place_all, any_missing,
  fits, outcome_product, restore_slots, restore_issuance_outcomes, product_of, process_issuance_job,
}
use sd_jwt_rust.Issuance.Executor.Placement.{by_id, place_all-Permᴰ}

abbrev pub identities_of : List IssuanceJob → List IssuanceJobIdentity
identities_of jobs = map (λ j. j.identity) jobs

same_ordinal_self : (o : Option ℕ) → same_ordinal o o ≡ true
same_ordinal_self none = refl
same_ordinal_self (some n) = nat_eq_self n

same_identity_self : (identity : IssuanceJobIdentity) → same_identity identity identity ≡ true
unfolding same_identity
same_identity_self identity = rw (
  nat_eq_self identity.job_id,
  nat_eq_self identity.location_id,
  same_kind_self identity.kind,
  same_ordinal_self identity.disclosure_ordinal,
)

-- No job of a list has the identity.
abbrev IsFresh : ℕ → List IssuanceJob → Type 0
IsFresh id jobs = All (λ j. nat_eq j.identity.job_id id ≡ false) jobs

has_id-IsFresh :
    (id : ℕ) (jobs : List IssuanceJob) → has_id id (identities_of jobs) ≡ false → IsFresh id jobs
unfolding has_id
has_id-IsFresh id [] h = tt
has_id-IsFresh id (job ∷ jobs) h = (ground arith, has_id-IsFresh id jobs (ground arith))

unique-IsFresh :
    (done : List IssuanceJob) (job : IssuanceJob) (rest : List IssuanceJob)
    → unique_ids (identities_of (done ++ job ∷ rest)) ≡ true
    → IsFresh job.identity.job_id done
unfolding unique_ids has_id
unique-IsFresh [] job rest h = tt
unique-IsFresh (d ∷ done) job rest h =
    let (here, there) = and-elim (not (has_id d.identity.job_id _)) _ h in
    (behind done (not-elim _ here), unique-IsFresh done job rest there)
  where
    behind :
        (others : List IssuanceJob)
        → has_id d.identity.job_id (identities_of (others ++ job ∷ rest)) ≡ false
        → nat_eq d.identity.job_id job.identity.job_id ≡ false
    behind [] k = ground arith
    behind (o ∷ others) k = behind others (ground arith)

index_by_id-next :
    (done : List IssuanceJob) (job : IssuanceJob) (rest : List IssuanceJob)
    → IsFresh job.identity.job_id done
    → index_by_id (identities_of (done ++ job ∷ rest)) job.identity.job_id ≡ some (length done)
unfolding index_by_id
index_by_id-next [] job rest h = rw (nat_eq_self job.identity.job_id)
index_by_id-next (d ∷ done) job rest h = rw (h.0) (rw (index_by_id-next done job rest h.1))

get-identity :
    (done : List IssuanceJob) (job : IssuanceJob) (rest : List IssuanceJob)
    → get_elem? (identities_of (done ++ job ∷ rest)) (length done) ≡ some job.identity
get-identity [] job rest = refl
get-identity (d ∷ done) job rest = get-identity done job rest

module _ (c : Codec) where
  abbrev pub outcomes_of : List IssuanceJob → List IssuanceOutcome
  outcomes_of jobs = map (process_issuance_job c) jobs

  -- The slots where the outcomes of some jobs are placed, and those of others are not.
  abbrev placed : List IssuanceJob → ℕ → Slots
  placed done n = record {
    slots = map some (outcomes_of done) ++ nones n;
    unexpected_identity = false;
    duplicate_identity = false;
    misplaced_identity = false;
  }

  IsFresh-apart :
      (outcome : IssuanceOutcome) (jobs : List IssuanceJob)
      → has_id outcome.identity.job_id (identities_of jobs) ≡ false
      → All (λ y. by_id outcome y ≢ by_id y outcome) (outcomes_of jobs)
  unfolding has_id process_issuance_job
  IsFresh-apart outcome [] h = tt
  IsFresh-apart outcome (job ∷ jobs) h = (ground arith, IsFresh-apart outcome jobs (ground arith))

  outcomes-Differ :
      (jobs : List IssuanceJob)
      → unique_ids (identities_of jobs) ≡ true
      → Differ by_id (outcomes_of jobs)
  unfolding unique_ids
  outcomes-Differ [] h = tt
  outcomes-Differ (job ∷ jobs) h =
      let (here, there) = and-elim (not (has_id job.identity.job_id (identities_of jobs))) _ h in
      (
        unfold process_issuance_job in
            IsFresh-apart (process_issuance_job c job) jobs (not-elim _ here),
        outcomes-Differ jobs there,
      )

  length-outcomes : (jobs : List IssuanceJob) → length (outcomes_of jobs) ≡ length jobs
  length-outcomes [] = refl
  length-outcomes (job ∷ jobs) = ap suc (length-outcomes jobs)

  place-next :
      (done : List IssuanceJob) (job : IssuanceJob) (rest : List IssuanceJob)
      → unique_ids (identities_of (done ++ job ∷ rest)) ≡ true
      → place
          (identities_of (done ++ job ∷ rest))
          (process_issuance_job c job)
          (placed done (suc (length rest)))
        ≡ placed (done ++ job ∷ []) (length rest)
  unfolding place place_at process_issuance_job differs
  place-next done job rest h =
      let next = index_by_id-next done job rest (unique-IsFresh done job rest h) in
      let filled = get-filled (outcomes_of done) (length rest) in
      let set = set_at-filled (outcomes_of done) (process_issuance_job c job) (length rest) in
      rw next (
        rw (← length-outcomes done) (
          rw filled (
            rw (length-outcomes done) (
              rw (get-identity done job rest) (
                rw (same_identity_self job.identity) (
                  ap
                    (λ l. record {
                      slots = l;
                      unexpected_identity = false;
                      duplicate_identity = false;
                      misplaced_identity = false;
                    })
                    (rw (length-outcomes done) at set
                      ∙ ap (λ l. map some l ++ nones (length rest))
                          (sym (map-append (process_issuance_job c) done (job ∷ []))))))))))

  place_all-outcomes :
      (done rest : List IssuanceJob)
      → unique_ids (identities_of (done ++ rest)) ≡ true
      → place_all (identities_of (done ++ rest)) (outcomes_of rest) (placed done (length rest))
        ≡ placed (done ++ rest) 0
  unfolding place_all
  place_all-outcomes done [] h = rw (append-nil done)
  place_all-outcomes done (job ∷ rest) h =
      let moved : (done ++ job ∷ []) ++ rest ≡ done ++ job ∷ rest =
        append_assoc done (job ∷ []) rest in
      ap (place_all (identities_of (done ++ job ∷ rest)) (outcomes_of rest))
        (place-next done job rest h)
      ∙ rw moved at (
          place_all-outcomes (done ++ job ∷ []) rest
            (ap (λ l. unique_ids (identities_of l)) moved ∙ h))

  -- A job is of the kind that its operation makes.
  abbrev pub IsKinded : IssuanceJob → Type 0
  IsKinded job = fits job.identity.kind (product_of c job.operation) ≡ true

  abbrev pub restored_of : IssuanceJob → RestoredIssuanceJob
  restored_of job = record { identity = job.identity; product = product_of c job.operation }

  any_missing-outcomes :
      (jobs : List IssuanceJob) → any_missing (map some (outcomes_of jobs) ++ nones 0) ≡ false
  unfolding any_missing nones
  any_missing-outcomes [] = refl
  any_missing-outcomes (job ∷ jobs) = any_missing-outcomes jobs

  restore_slots-outcomes :
      (jobs : List IssuanceJob)
      → All IsKinded jobs
      → restore_slots (map some (outcomes_of jobs) ++ nones 0) (identities_of jobs)
        ≡ ok (map restored_of jobs)
  unfolding restore_slots outcome_product process_issuance_job nones
  restore_slots-outcomes [] h = refl
  restore_slots-outcomes (job ∷ jobs) h = rw (h.0) (rw (restore_slots-outcomes jobs h.1))

  length-identities : (jobs : List IssuanceJob) → length (identities_of jobs) ≡ length jobs
  length-identities [] = refl
  length-identities (job ∷ jobs) = ap suc (length-identities jobs)

-- The outcomes of jobs whose identities differ, and whose kinds are those of their operations, are
-- restored to the jobs' order whatever order an executor returns them in: each job's product under
-- the job's own identity, without an error.
pub restore_issuance_outcomes-Permᴰ :
    (c : Codec) (jobs : List IssuanceJob) {outcomes : List IssuanceOutcome}
    → unique_ids (identities_of jobs) ≡ true
    → All (IsKinded c) jobs
    → Permᴰ (map (process_issuance_job c) jobs) outcomes
    → restore_issuance_outcomes (identities_of jobs) outcomes ≡ ok (map (restored_of c) jobs)
unfolding restore_issuance_outcomes
restore_issuance_outcomes-Permᴰ c jobs {outcomes} unique kinded p =
    let start = placed c [] (length jobs) in
    let all : place_all (identities_of jobs) outcomes start ≡ placed c jobs 0 =
      sym (place_all-Permᴰ (identities_of jobs) start p (outcomes-Differ c jobs unique))
      ∙ place_all-outcomes c [] jobs unique in
    rw (unique, length-identities c jobs)
      (rw all (rw (any_missing-outcomes c jobs) (restore_slots-outcomes c jobs kinded)))
