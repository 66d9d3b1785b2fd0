-- ===== src/Issuance/Registry.antt =====
-- The registry that a plan carries: the jobs are numbered from the first on, and the disclosures
-- among them are bound to their ordinals. The assembler's checks pass on such a registry.
use mathlib.Core.Path.{subst}
use mathlib.Core.List.{append_assoc}
use sd_jwt_rust.Prelude.{
  nat_eq_self, le→leb, length-snoc, ℕ, suc, ◌+◌, ◌≤◌, ◌≡◌, refl, sym, none, some, List, [], ◌∷◌,
  ◌++◌, arith, length, get_elem?,
}
use sd_jwt_rust.Error.{ok}
use sd_jwt_rust.Plan.{max_identity, PlannedJob, disclosure_ordinal}
use sd_jwt_rust.Issuance.Assembly.{check_bound, check_jobs, check_ordinals, validate_registry}

-- The jobs from a first identity on, and the identities of the disclosures from a first ordinal on.
pub data Registered : ℕ → ℕ → List PlannedJob → List ℕ → Type 0 where
  none_left : {a o : ℕ} → Registered a o [] []
  decoy_job :
      {a o : ℕ} {job : PlannedJob} {jobs : List PlannedJob} {ids : List ℕ}
      → job.job_id ≡ a
      → a ≤ max_identity
      → disclosure_ordinal job.operation ≡ none
      → Registered (suc a) o jobs ids
      → Registered a o (job ∷ jobs) ids
  disclosure_job :
      {a o : ℕ} {job : PlannedJob} {jobs : List PlannedJob} {ids : List ℕ}
      → job.job_id ≡ a
      → a ≤ max_identity
      → disclosure_ordinal job.operation ≡ some o
      → Registered (suc a) (suc o) jobs ids
      → Registered a o (job ∷ jobs) (a ∷ ids)

pub Registered-cast :
    {a a' o o' : ℕ} {jobs : List PlannedJob} {ids : List ℕ}
    → a ≡ a'
    → o ≡ o'
    → Registered a o jobs ids
    → Registered a' o' jobs ids
Registered-cast {a} {o'} {jobs} {ids} e f r =
    subst (λ n. Registered n o' jobs ids) e (subst (λ n. Registered a n jobs ids) f r)

pub Registered-append :
    {a o : ℕ} {jobs jobs' : List PlannedJob} {ids ids' : List ℕ}
    → Registered a o jobs ids
    → Registered (a + length jobs) (o + length ids) jobs' ids'
    → Registered a o (jobs ++ jobs') (ids ++ ids')
Registered-append none_left r = Registered-cast (omega arith) (omega arith) r
Registered-append (decoy_job i l d r) r' =
    decoy_job i l d (Registered-append r (Registered-cast (omega arith) refl r'))
Registered-append (disclosure_job i l d r) r' =
    disclosure_job i l d (Registered-append r (Registered-cast (omega arith) (omega arith) r'))

module _ {A : Type 0} where
  pub get_elem?-length :
      (xs : List A) (a : A) (ys : List A) → get_elem? (xs ++ a ∷ ys) (length xs) ≡ some a
  get_elem?-length [] a ys = refl
  get_elem?-length (x ∷ xs) a ys = get_elem?-length xs a ys

check_jobs-Registered :
    (before ids : List ℕ) {a : ℕ} (jobs : List PlannedJob)
    → Registered a (length before) jobs ids
    → check_jobs (before ++ ids) a jobs ≡ ok tt
unfolding check_jobs check_bound
check_jobs-Registered before [] [] r = refl
check_jobs-Registered before (a ∷ ids) [] r = elim r [ ]
check_jobs-Registered before ids (job ∷ jobs) (decoy_job {a} i l d r) =
    rw (i, le→leb a max_identity l, nat_eq_self a, d) (check_jobs-Registered before ids jobs r)
check_jobs-Registered before (a ∷ ids) (job ∷ jobs) (disclosure_job i l d r) =
    rw (i, le→leb a max_identity l, nat_eq_self a, d, get_elem?-length before a ids)
      (rw (nat_eq_self a) (
        subst (λ all. check_jobs all (suc a) jobs ≡ ok tt) (append_assoc before (a ∷ []) ids)
          (check_jobs-Registered (before ++ a ∷ []) ids jobs
            (subst (λ n. Registered (suc a) n jobs ids) (sym (length-snoc before a)) r))))

check_ordinals-Registered :
    (before : List PlannedJob) {o : ℕ} (ids : List ℕ) (jobs : List PlannedJob)
    → Registered (length before) o jobs ids
    → check_ordinals (before ++ jobs) o ids ≡ ok tt
unfolding check_ordinals
check_ordinals-Registered before [] [] r = refl
check_ordinals-Registered before (a ∷ ids) [] r = elim r [ ]
check_ordinals-Registered before ids (job ∷ jobs) (decoy_job {o} i l d r) =
    subst (λ all. check_ordinals all o ids ≡ ok tt) (append_assoc before (job ∷ []) jobs)
      (check_ordinals-Registered (before ++ job ∷ []) ids jobs
        (subst (λ n. Registered n o jobs ids) (sym (length-snoc before job)) r))
check_ordinals-Registered before (a ∷ ids) (job ∷ jobs) (disclosure_job {o} i l d r) =
    rw (get_elem?-length before job jobs, d, nat_eq_self o)
      (subst (λ all. check_ordinals all (suc o) ids ≡ ok tt) (append_assoc before (job ∷ []) jobs)
        (check_ordinals-Registered (before ++ job ∷ []) ids jobs
          (subst (λ n. Registered n (suc o) jobs ids) (sym (length-snoc before job)) r)))

-- The checks of the assembler pass on a registry that is in order.
pub validate_registry-Registered :
    (jobs : List PlannedJob) (ids : List ℕ)
    → Registered 0 0 jobs ids
    → validate_registry jobs ids ≡ ok tt
unfolding validate_registry
validate_registry-Registered jobs ids r =
    rw (check_jobs-Registered [] ids jobs r) (check_ordinals-Registered [] ids jobs r)
