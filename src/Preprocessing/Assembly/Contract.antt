-- ===== src/Preprocessing/Assembly/Contract.antt =====
-- The assembly of src/disclosure_preprocessing.rs against the serial loop: the outcomes of all jobs,
-- in any order, give what serial preprocessing gives, errors included; and whatever is assembled had
-- one outcome for each job, with the job's identity.
use mathlib.Core.List.{Permᴰ}
use native.Mathlib.Nat.{add-zero}
use text.Mathlib.TextPositions.{eq_refl}
use sd_jwt_rust.Prelude.{
  nat_eq_self, ℕ, suc, ◌+◌, ◌≤◌, ◌<◌, String, ◌≡◌, refl, ap, ◌∙◌, true, none, some, List, [], ◌∷◌,
  map, eq_iff, arith, leb, lt→ltb, leb→le, All, length, get_elem?,
}
use sd_jwt_rust.Error.{ok, >>=-eq-ok, ensure-eq-ok}
use sd_jwt_rust.Codec.{Codec}
use sd_jwt_rust.Preprocessing.{
  DisclosureJob, DisclosureOutcome, DisclosureMappings, no_mappings, outcome_result,
  preprocess_from, process_disclosure, preprocess_disclosures_serial,
}
use sd_jwt_rust.Preprocessing.Mappings.{preprocess_from-cons}
use sd_jwt_rust.Preprocessing.Assembly.{
  plan_from, plan_disclosures, sort_by_ordinal, check_job_ordinals, check_in_range,
  check_no_duplicate, check_identities, validate_outcome_contract, assemble_from,
  assemble_disclosures,
}
use sd_jwt_rust.Preprocessing.Assembly.Order.{Rises, Rises-Differ, sort-Rises, sort-Permᴰ}

leb_refl : (n : ℕ) → leb n n ≡ true
leb_refl n = ground arith

length-plan_from : (n : ℕ) (es : List String) → length (plan_from n es) ≡ length es
unfolding plan_from
length-plan_from n [] = refl
length-plan_from n (e ∷ es) = ap suc (length-plan_from (suc n) es)

check_job_ordinals-plan_from :
    (n : ℕ) (es : List String) → check_job_ordinals n (plan_from n es) ≡ ok tt
unfolding plan_from check_job_ordinals
check_job_ordinals-plan_from n [] = refl
check_job_ordinals-plan_from n (e ∷ es) =
    rw (nat_eq_self n) (check_job_ordinals-plan_from (suc n) es)

check_no_duplicate-Rises : (l : List DisclosureOutcome) → Rises l → check_no_duplicate l ≡ ok tt
unfolding check_no_duplicate
check_no_duplicate-Rises [] r = refl
check_no_duplicate-Rises (a ∷ []) r = refl
check_no_duplicate-Rises (a ∷ b ∷ l) r = ground (arith, check_no_duplicate-Rises (b ∷ l) r.1)

module _ (c : Codec) where
  -- The outcomes that a faithful executor returns, in input order.
  abbrev pub outcomes_of : List DisclosureJob → List DisclosureOutcome
  outcomes_of jobs = map (process_disclosure c) jobs

  outcomes-above :
      (k n : ℕ) (es : List String) → k < n → All (λ y. k < y.ordinal) (outcomes_of (plan_from n es))
  unfolding plan_from process_disclosure
  outcomes-above k n [] h = tt
  outcomes-above k n (e ∷ es) h = (h, outcomes-above k (suc n) es (omega arith))

  pub outcomes-Rises : (n : ℕ) (es : List String) → Rises (outcomes_of (plan_from n es))
  unfolding plan_from process_disclosure
  outcomes-Rises n [] = tt
  outcomes-Rises n (e ∷ es) = (outcomes-above n (suc n) es (omega arith), outcomes-Rises (suc n) es)

  length-outcomes : (n : ℕ) (es : List String) → length (outcomes_of (plan_from n es)) ≡ length es
  unfolding plan_from
  length-outcomes n [] = refl
  length-outcomes n (e ∷ es) = ap suc (length-outcomes (suc n) es)

  check_in_range-outcomes :
      (k n : ℕ) (es : List String)
      → n + length es ≤ k
      → check_in_range k (outcomes_of (plan_from n es)) ≡ ok tt
  unfolding plan_from process_disclosure check_in_range
  check_in_range-outcomes k n [] h = refl
  check_in_range-outcomes k n (e ∷ es) h =
      rw (lt→ltb n k (omega arith)) (check_in_range-outcomes k (suc n) es (omega arith))

  check_identities-outcomes :
      (jobs : List DisclosureJob) (n : ℕ) (es : List String)
      → ((i : ℕ) → get_elem? jobs (n + i) ≡ get_elem? (plan_from n es) i)
      → check_identities jobs n (outcomes_of (plan_from n es)) ≡ ok tt
  unfolding plan_from process_disclosure check_identities
  check_identities-outcomes jobs n [] h = refl
  check_identities-outcomes jobs n (e ∷ es) h =
      let here = rw add-zero at (h 0) in
      rw (nat_eq_self n) (
        rw here (
          rw (eq_refl e) (
            check_identities-outcomes jobs (suc n) es
              (λ i. ap (get_elem? jobs) (omega arith) ∙ h (suc i)))))

  validate-outcomes :
      (es : List String)
      → validate_outcome_contract (plan_disclosures es) (outcomes_of (plan_disclosures es)) ≡ ok tt
  unfolding validate_outcome_contract plan_disclosures
  validate-outcomes es = rw (check_job_ordinals-plan_from 0 es) (
      rw
        (check_in_range-outcomes (length (plan_from 0 es)) 0 es
          (omega (arith, length-plan_from 0 es)))
        (rw (check_no_duplicate-Rises (outcomes_of (plan_from 0 es)) (outcomes-Rises 0 es)) (
          rw
            (check_identities-outcomes (plan_from 0 es) 0 es
              (λ i. ap (get_elem? (plan_from 0 es)) (omega arith)))
            (rw (length-outcomes 0 es, length-plan_from 0 es) (rw (leb_refl (length es)))))))

  assemble_from-outcomes :
      (n : ℕ) (es : List String) (m : DisclosureMappings)
      → assemble_from (outcomes_of (plan_from n es)) m
        ≡ preprocess_from (process_disclosure c) n es m
  unfolding plan_from assemble_from outcome_result process_disclosure
  assemble_from-outcomes n [] m = unfold preprocess_from in refl
  assemble_from-outcomes n (e ∷ es) m =
      rw preprocess_from-cons (simp (assemble_from-outcomes (suc n) es))

-- Assembling the outcomes of all jobs, in whatever order an executor returned them, is serial
-- preprocessing: the same mappings, and on bad input the same error.
pub assemble_disclosures-Permᴰ :
    (c : Codec) (encoded : List String) (outcomes : List DisclosureOutcome)
    → Permᴰ (map (process_disclosure c) (plan_disclosures encoded)) outcomes
    → assemble_disclosures (plan_disclosures encoded) outcomes
      ≡ preprocess_disclosures_serial c encoded
unfolding assemble_disclosures preprocess_disclosures_serial plan_disclosures
assemble_disclosures-Permᴰ c encoded outcomes p =
    let rises = outcomes-Rises c 0 encoded in
    rw (← sort-Permᴰ p (Rises-Differ _ rises), sort-Rises _ rises)
      (rw (validate-outcomes c encoded) (assemble_from-outcomes c 0 encoded no_mappings))

-- What an outcome says of its job.
abbrev pub job_of : DisclosureOutcome → DisclosureJob
job_of outcome = record {
  ordinal = outcome.ordinal;
  encoded_disclosure = outcome.encoded_disclosure;
}

identities→jobs :
    (jobs : List DisclosureJob) (n : ℕ) (outcomes : List DisclosureOutcome)
    (rest : List DisclosureJob)
    → ((i : ℕ) → get_elem? jobs (n + i) ≡ get_elem? rest i)
    → check_job_ordinals n rest ≡ ok tt
    → check_identities jobs n outcomes ≡ ok tt
    → length rest ≤ length outcomes
    → map job_of outcomes ≡ rest
unfolding check_job_ordinals check_identities
identities→jobs jobs n [] [] h a b l = refl
identities→jobs jobs n [] (j ∷ rest) h a b l = absurd (omega arith)
identities→jobs jobs n (o ∷ outcomes) [] h a b l =
    let here : get_elem? jobs n ≡ none = rw add-zero at (h 0) in ground (arith, here)
identities→jobs jobs n (o ∷ outcomes) (j ∷ rest) h a b l =
    let here : get_elem? jobs n ≡ some j = rw add-zero at (h 0) in
    ground (
      arith,
      here,
      eq_iff o.encoded_disclosure j.encoded_disclosure,
      identities→jobs jobs (suc n) outcomes rest
          (λ i. ap (get_elem? jobs) (omega arith) ∙ h (suc i)),
    )

-- What is assembled had one outcome for each job: sorted by ordinal, the outcomes carry exactly the
-- ordinals and the encoded disclosures of the jobs, in order. A missing, duplicated, swapped or
-- foreign outcome is refused.
pub assemble_disclosures-identities :
    (jobs : List DisclosureJob) (outcomes : List DisclosureOutcome) {m : DisclosureMappings}
    → assemble_disclosures jobs outcomes ≡ ok m
    → map job_of (sort_by_ordinal outcomes) ≡ jobs
unfolding assemble_disclosures validate_outcome_contract
assemble_disclosures-identities jobs outcomes h =
    let (_, valid, _) = >>=-eq-ok (validate_outcome_contract jobs (sort_by_ordinal outcomes)) _ h in
    let (_, ordinals, h₁) = >>=-eq-ok (check_job_ordinals 0 jobs) _ valid in
    let (_, _, h₂) = >>=-eq-ok (check_in_range (length jobs) (sort_by_ordinal outcomes)) _ h₁ in
    let (_, _, h₃) = >>=-eq-ok (check_no_duplicate (sort_by_ordinal outcomes)) _ h₂ in
    let (_, identities, h₄) = >>=-eq-ok (check_identities jobs 0 (sort_by_ordinal outcomes)) _ h₃ in
    identities→jobs jobs 0 (sort_by_ordinal outcomes) jobs (λ i. ap (get_elem? jobs) (omega arith))
      ordinals identities (leb→le _ _ (ensure-eq-ok _ _ h₄))
