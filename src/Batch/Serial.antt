-- ===== src/Batch/Serial.antt =====
-- The serial executor of src/batch.rs against serial preprocessing of each credential: the executor
-- observes digests across the whole list of jobs, and forgets them where a credential ends.
use sd_jwt_rust.Prelude.{
  nat_eq_self, ℕ, suc, ◌<◌, String, ◌≡◌, refl, ap, sym, ◌∙◌, Bool, true, false, Option, none, some,
  List, [], ◌∷◌, ◌++◌, map, arith, contains, contains-append,
}
use mathlib.Core.List.{map-append}
use mathlib.Core.List.Permᴰ.{refl as same}
use sd_jwt_rust.Prelude.Maps.{lookup, contains_key, contains_key-insert}
use sd_jwt_rust.Error.{
  Error, >>=-ok, >>=-ap, >>=-assoc, >>=-twice, Result, ok, err, panic, out_of_fuel, ◌>>=◌, ◌>>◌,
  ensure, Ensures, returns,
}
use sd_jwt_rust.Codec.{Codec}
use sd_jwt_rust.Preprocessing.{
  DisclosureMappings, ProcessedDisclosure, no_mappings, entered, enter_disclosure, preprocess_from,
  decode_disclosure, process_disclosure, preprocess_disclosures_serial,
}
use sd_jwt_rust.Preprocessing.Mappings.{preprocess_from-cons}
use sd_jwt_rust.Batch.{
  CredentialDisclosures, CredentialBatchId, DisclosureVerificationJob,
  DisclosureVerificationOutcome, DisclosureVerificationBatchPlan, Memory, jobs_of_credential,
  jobs_from, new,
}
use sd_jwt_rust.Batch.Assembly.{assemble}
use sd_jwt_rust.Batch.Execution.{
  process, is_current, taken_result, execute_from, execute,
  preprocess_disclosure_verification_batch, preprocess_disclosure_verification_batch_with_executor,
}
use sd_jwt_rust.Batch.Limits.{IsPlanned, new-IsPlanned}
use sd_jwt_rust.Batch.Contract.{preprocess_each, assemble-Permᴰ}

-- A faithful run, and then what follows it.
abbrev then_outcomes :
    Codec
    → List DisclosureVerificationJob
    → Result (List DisclosureVerificationOutcome)
    → Result (List DisclosureVerificationOutcome)
then_outcomes c jobs r = r >>= λ rest. ok (map (process c) jobs ++ rest)

module _ (c : Codec) (plan_id : ℕ) where
  -- The executor's set of digests is the set of keys that serial preprocessing has entered.
  abbrev Agrees : List String → DisclosureMappings → Type 0
  Agrees observed m =
      (d : String) → contains observed d ≡ contains_key m.hash_to_decoded_disclosure d

  Agrees-entered :
      (observed : List String) (encoded : String) (p : ProcessedDisclosure) (m : DisclosureMappings)
      → Agrees observed m
      → Agrees (observed ++ p.digest ∷ []) (entered encoded p m)
  unfolding entered contains
  Agrees-entered observed encoded p m h d = ground (
    arith,
    h d,
    contains-append observed (p.digest ∷ []) d,
    contains_key-insert p.digest d p.decoded_disclosure m.hash_to_decoded_disclosure,
  )

  guarded :
      {A B C : Type 0} (b : Bool) (e : Error) (m : A) (next : A → Result B) (X K : Result C)
      → (b ≡ true → X ≡ (next m >>= λ _. K))
      → (ensure b e >> X) ≡ (((ensure b e >> ok m) >>= next) >>= λ _. K)
  guarded true e m next X K h = h refl
  guarded false e m next X K h = refl

  execute_from-credential :
      (n k : ℕ) (ds observed : List String) (m : DisclosureMappings)
      (rest : List DisclosureVerificationJob) (R : Result (List DisclosureVerificationOutcome))
      → Agrees observed m
      → ((seen : List String) → execute_from c (some (record { ordinal = n })) seen rest ≡ R)
      → execute_from c
          (some (record { ordinal = n }))
          observed
          (jobs_of_credential plan_id (record { ordinal = n }) k ds ++ rest)
        ≡ (preprocess_from (process_disclosure c) k ds m >>= λ _.
            then_outcomes c (jobs_of_credential plan_id (record { ordinal = n }) k ds) R)
  unfolding execute_from jobs_of_credential is_current taken_result enter_disclosure
  execute_from-credential n k [] observed m rest R a h =
      h observed ∙ unfold preprocess_from in sym (>>=-ok R)
  execute_from-credential n k (d ∷ ds) observed m rest R a h =
      rw (nat_eq_self n, preprocess_from-cons)
        (>>=-ap (decode_disclosure c d) _ _ (λ p. rw (a p.digest) (
            guarded _ _ (entered d p m) (preprocess_from (process_disclosure c) (suc k) ds) _ _
              (λ _.
                rw
                  (execute_from-credential n (suc k) ds (observed ++ p.digest ∷ []) (entered d p m)
                    rest R (Agrees-entered observed d p m a) h)
                  (>>=-assoc (preprocess_from (process_disclosure c) (suc k) ds (entered d p m)) _ _
                    ∙ >>=-ap (preprocess_from (process_disclosure c) (suc k) ds (entered d p m)) _ _
                        (λ _. >>=-assoc R _ _)))))
          ∙ sym (>>=-assoc (decode_disclosure c d) _ _))

  -- The credential that the executor is at comes before another.
  abbrev IsBefore : Option CredentialBatchId → ℕ → Type 0
  IsBefore none n = Unit
  IsBefore (some id) n = id.ordinal < n

  IsBefore-suc : (o : Option CredentialBatchId) (n : ℕ) → IsBefore o n → IsBefore o (suc n)
  IsBefore-suc none n h = tt
  IsBefore-suc (some id) n h = omega arith

  is_current-IsBefore :
      (o : Option CredentialBatchId) (n : ℕ)
      → IsBefore o n
      → is_current c o (record { ordinal = n }) ≡ false
  unfolding is_current
  is_current-IsBefore none n h = refl
  is_current-IsBefore (some id) n h = ground arith

  Agrees-nil : Agrees [] no_mappings
  unfolding contains contains_key
  Agrees-nil d = unfold lookup in refl

  execute_from-first :
      (o : Option CredentialBatchId) (observed : List String) (job : DisclosureVerificationJob)
      (jobs : List DisclosureVerificationJob)
      → is_current c o job.id.credential ≡ false
      → execute_from c o observed (job ∷ jobs)
        ≡ execute_from c (some job.id.credential) [] (job ∷ jobs)
  unfolding execute_from is_current
  execute_from-first o observed job jobs h = rw (h, nat_eq_self job.id.credential.ordinal)

  execute_from-enters :
      (o : Option CredentialBatchId) (n : ℕ) (ds observed : List String)
      (rest : List DisclosureVerificationJob) (R : Result (List DisclosureVerificationOutcome))
      → IsBefore o n
      → ((o' : Option CredentialBatchId) (seen : List String)
          → IsBefore o' (suc n)
          → execute_from c o' seen rest ≡ R)
      → execute_from c o observed (jobs_of_credential plan_id (record { ordinal = n }) 0 ds ++ rest)
        ≡ (preprocess_disclosures_serial c ds >>= λ _.
            then_outcomes c (jobs_of_credential plan_id (record { ordinal = n }) 0 ds) R)
  unfolding jobs_of_credential preprocess_disclosures_serial
  execute_from-enters o n [] observed rest R b h =
      h o observed (IsBefore-suc o n b) ∙ unfold preprocess_from in sym (>>=-ok R)
  execute_from-enters o n (d ∷ ds) observed rest R b h =
      execute_from-first o observed _ _ (is_current-IsBefore o n b)
      ∙ execute_from-credential n 0 (d ∷ ds) [] no_mappings rest R Agrees-nil
          (λ seen. h (some (record { ordinal = n })) seen (omega arith))

  -- The whole list of jobs runs as the credentials do one by one.
  execute_from-each :
      (o : Option CredentialBatchId) (n : ℕ) (observed : List String)
      (cs : List CredentialDisclosures)
      → IsBefore o n
      → execute_from c o observed (jobs_from plan_id n cs)
        ≡ (preprocess_each c n cs >>= λ _. ok (map (process c) (jobs_from plan_id n cs)))
  unfolding jobs_from preprocess_each execute_from
  execute_from-each o n observed [] b = refl
  execute_from-each o n observed (credential ∷ cs) b =
      let mine = jobs_of_credential plan_id (record { ordinal = n }) 0 credential.disclosures in
      let others = jobs_from plan_id (suc n) cs in
      execute_from-enters o n credential.disclosures observed others _ b
        (λ o' seen b'. execute_from-each o' (suc n) seen cs b')
      ∙ >>=-ap (preprocess_disclosures_serial c credential.disclosures) _ _ (λ m.
        >>=-assoc (preprocess_each c (suc n) cs) _ _
        ∙ >>=-ap (preprocess_each c (suc n) cs) _ _
            (λ _. ap ok (sym (map-append (process c) mine others)))
        ∙ sym (>>=-assoc (preprocess_each c (suc n) cs) _ _))
      ∙ sym (>>=-assoc (preprocess_disclosures_serial c credential.disclosures) _ _)

module _ (c : Codec) where
  assembled-each :
      {cs : List CredentialDisclosures} {n k : ℕ} (r : Result DisclosureVerificationBatchPlan)
      → Ensures (IsPlanned cs n k) r
      → (r >>= λ plan. execute c plan.jobs >>= assemble plan) ≡ (r >>= λ _. preprocess_each c 0 cs)
  unfolding execute
  assembled-each {cs} (ok plan) (returns planned) =
      let run : execute_from c none [] plan.jobs
          ≡ (preprocess_each c 0 cs >>= λ _. ok (map (process c) plan.jobs)) =
        rw planned.jobs (execute_from-each c plan.plan_id none 0 [] cs tt) in
      rw run (
        >>=-assoc (preprocess_each c 0 cs) _ _
        ∙ >>=-ap (preprocess_each c 0 cs) _ _ (λ _. assemble-Permᴰ c planned (same _))
        ∙ >>=-twice (preprocess_each c 0 cs))
  assembled-each (err e) h = refl
  assembled-each panic h = refl
  assembled-each out_of_fuel h = refl

-- Preprocessing a batch is planning it, and then preprocessing each credential by itself in the
-- caller's order: the same mappings under the credentials' places, and on bad input the same error,
-- be it one of the plan's or that of the first disclosure which serial preprocessing refuses.
pub preprocess_disclosure_verification_batch-eq-each :
    (c : Codec) (memory : Memory) (next_plan_id : ℕ) (credentials : List CredentialDisclosures)
    → preprocess_disclosure_verification_batch c memory next_plan_id credentials
      ≡ ((new memory next_plan_id credentials).0 >>= λ _. preprocess_each c 0 credentials)
unfolding preprocess_disclosure_verification_batch
    preprocess_disclosure_verification_batch_with_executor
preprocess_disclosure_verification_batch-eq-each c memory next_plan_id credentials =
    assembled-each c (new memory next_plan_id credentials).0
      (new-IsPlanned memory next_plan_id credentials)
