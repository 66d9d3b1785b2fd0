-- ===== src/Issuance/Follows.antt =====
-- How a plan is tied to what it is to produce: the jobs that a step of the planner adds, and the run
-- of the assembler that takes exactly these and records exactly the disclosures made. Steps compose.
use mathlib.Core.List.{append_assoc, append-nil}
use mathlib.Core.Path.{subst}
use sd_jwt_rust.Prelude.{
  ℕ, ◌≡◌, refl, ap, sym, ◌∙◌, Bool, some, List, [], ◌++◌, map, arith, length, length-append,
}
use sd_jwt_rust.Error.{Result, ok, ◌>>=◌}
use sd_jwt_rust.Codec.{Codec}
use sd_jwt_rust.Disclosure.{SdJwtDisclosure}
use sd_jwt_rust.Plan.{PlannedJob, RandomSource}
use sd_jwt_rust.Issuance.{Planner}
use sd_jwt_rust.Issuance.Assembly.{SerialAssembler, nones}
use sd_jwt_rust.Issuance.Reference.{Concealed}
use sd_jwt_rust.Issuance.Registry.{Registered, Registered-append, Registered-cast}

-- The assembler where `taken` jobs are taken and `done` is recorded, with the jobs that are left and
-- the slots that are open.
abbrev pub standing : ℕ → List PlannedJob → List SdJwtDisclosure → ℕ → List ℕ → SerialAssembler
standing taken left done unfilled ids = record {
  disclosures = map some done ++ nones unfilled;
  jobs = nones taken ++ map some left;
  disclosure_job_ids = ids;
}

module _ (c : Codec) (source : RandomSource) (add_decoy_claims : Bool) where
  abbrev pub Planning : Type 0
  Planning = Planner source add_decoy_claims

  -- From `before` to `after` the planner added jobs whose run gives `made`.
  pub record Follows {B : Type 0} (before after : Planning) (made : Concealed c source B)
      (run : SerialAssembler → Result (B × SerialAssembler)) : Type 0 where
    pub jobs : List PlannedJob
    pub ids : List ℕ
    pub jobs_added : after.jobs ≡ before.jobs ++ jobs
    pub ids_added : after.disclosure_job_ids ≡ before.disclosure_job_ids ++ ids
    pub random : after.random ≡ made.2
    pub count : length made.1 ≡ length ids
    pub registered : Registered (length before.jobs) (length before.disclosure_job_ids) jobs ids
    pub runs :
        (done : List SdJwtDisclosure) (later : List PlannedJob) (later_ids : List ℕ)
        → length done ≡ length before.disclosure_job_ids
        → run (
            standing
              (length before.jobs)
              (jobs ++ later)
              done
              (length (ids ++ later_ids))
              (before.disclosure_job_ids ++ (ids ++ later_ids)))
          ≡ ok (
            made.0,
            standing
                (length after.jobs)
                later
                (done ++ made.1)
                (length later_ids)
                (before.disclosure_job_ids ++ (ids ++ later_ids)),
          )

  -- Nothing planned, nothing made.
  pub Follows-return :
      {B : Type 0} (p : Planning) (b : B) {run : SerialAssembler → Result (B × SerialAssembler)}
      → ((s : SerialAssembler) → run s ≡ ok (b, s))
      → Follows p p (b, [], p.random) run
  Follows-return p b h = record {
    jobs = [];
    ids = [];
    jobs_added = sym (append-nil _);
    ids_added = sym (append-nil _);
    random = refl;
    count = refl;
    registered = Registered.none_left;
    runs = λ done later later_ids e. rw append-nil (h _);
  }

  -- The value that a step gives may be wrapped up.
  pub Follows-map :
      {A B : Type 0} {p q : Planning} {made : Concealed c source A} (f : A → B)
      {run : SerialAssembler → Result (A × SerialAssembler)}
      → Follows p q made run
      → Follows p q (f made.0, made.1, made.2) (λ s. run s >>= λ r. ok (f r.0, r.1))
  Follows-map f {run} h = record {
    jobs = h.jobs;
    ids = h.ids;
    jobs_added = h.jobs_added;
    ids_added = h.ids_added;
    random = h.random;
    count = h.count;
    registered = h.registered;
    runs = λ done later later_ids e. rw (h.runs done later later_ids e);
  }

  -- What a step makes depends on the random source where it starts.
  pub Follows-at :
      {B : Type 0} {p q : Planning} (made : source.State → Concealed c source B)
      {run : SerialAssembler → Result (B × SerialAssembler)} {s : source.State}
      → p.random ≡ s
      → Follows p q (made p.random) run
      → Follows p q (made s) run
  Follows-at {p} {q} made {run} e h = subst (λ s. Follows p q (made s) run) e h

  -- The next location, and the random source, are not part of what the assembler reads.
  pub Follows-moved :
      {B : Type 0} {p q : Planning} {made : Concealed c source B}
      {run : SerialAssembler → Result (B × SerialAssembler)} (n : ℕ) (s : source.State)
      → Follows (record p { next_location_id = n; random = s }) q made run
      → Follows p q made run
  Follows-moved n s h = record {
    jobs = h.jobs;
    ids = h.ids;
    jobs_added = h.jobs_added;
    ids_added = h.ids_added;
    random = h.random;
    count = h.count;
    registered = h.registered;
    runs = h.runs;
  }

  -- One step and then another, which may use what the first one gave.
  pub Follows-bind :
      {A B : Type 0} {p q r : Planning} {made : Concealed c source A} {made' : Concealed c source B}
      {run : SerialAssembler → Result (A × SerialAssembler)}
      (next : A → SerialAssembler → Result (B × SerialAssembler))
      → Follows p q made run
      → Follows q r made' (next made.0)
      → Follows p r (made'.0, made.1 ++ made'.1, made'.2) (λ s. run s >>= λ x. next x.0 x.1)
  Follows-bind {p} {q} {r} {made} {made'} next h k = record {
    jobs = h.jobs ++ k.jobs;
    ids = h.ids ++ k.ids;
    jobs_added =
        k.jobs_added ∙ ap (λ l. l ++ k.jobs) h.jobs_added ∙ append_assoc p.jobs h.jobs k.jobs;
    ids_added =
        k.ids_added
        ∙ ap (λ l. l ++ k.ids) h.ids_added
        ∙ append_assoc p.disclosure_job_ids h.ids k.ids;
    random = k.random;
    count =
        omega (arith, length-append made.1 made'.1, length-append h.ids k.ids, h.count, k.count);
    registered = Registered-append h.registered (
        Registered-cast (ap length h.jobs_added ∙ length-append p.jobs h.jobs)
          (ap length h.ids_added ∙ length-append p.disclosure_job_ids h.ids) k.registered);
    runs = λ done later later_ids e.
        let all : q.disclosure_job_ids ++ (k.ids ++ later_ids)
            ≡ p.disclosure_job_ids ++ (h.ids ++ (k.ids ++ later_ids)) =
          ap (λ l. l ++ (k.ids ++ later_ids)) h.ids_added
          ∙ append_assoc p.disclosure_job_ids h.ids (k.ids ++ later_ids) in
        let filled : length (done ++ made.1) ≡ length q.disclosure_job_ids = omega (
          arith,
          e,
          h.count,
          length-append done made.1,
          ap length h.ids_added,
          length-append p.disclosure_job_ids h.ids,
        ) in
        rw
          (
            append_assoc h.jobs k.jobs later,
            append_assoc h.ids k.ids later_ids,
            ← append_assoc done made.1 made'.1,
          )
          (rw (h.runs done (k.jobs ++ later) (k.ids ++ later_ids) e)
            (rw all at (k.runs (done ++ made.1) later later_ids filled)));
  }
