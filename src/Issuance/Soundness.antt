-- ===== src/Issuance/Soundness.antt =====
-- The plan of src/issuer/issuance_plan.rs against the walk that needs none: what `create` plans, the
-- assembler executes without an error, and it gives what the walk gives.
use mathlib.Core.List.{append-nil}
use sd_jwt_rust.Prelude.{
  ℕ, zero, suc, String, ◌≡◌, refl, Bool, true, false, some, List, [], ◌∷◌, ◌++◌, map, length,
}
use sd_jwt_rust.Error.{ok, ◌>>=◌, Ensures, returns, Ensures-bind, Ensures-weaken}
use sd_jwt_rust.Codec.{Codec}
use sd_jwt_rust.Json.{
  Value, Items, Members, null, bool, number, string, array, object, nil, cons, empty, member,
  insert,
}
use sd_jwt_rust.Reserved.{sd_digests_key}
use sd_jwt_rust.Disclosure.{SdJwtDisclosure}
use sd_jwt_rust.Strategy.{ClaimsForSelectiveDisclosureStrategy, next_level, sd_for_key}
use sd_jwt_rust.Plan.{
  RandomSource, PlannedValue, PlannedValueKind, PlannedArrayEntry, PlannedObjectEntry, planned,
}
use sd_jwt_rust.Issuance.{
  array_key, plan_array_entry, plan_object_entry, plan_object_decoys, plan_kind, plan_array,
  plan_object, plan_value, create,
}
use sd_jwt_rust.Issuance.Assembly.{
  nones, publish_digests, new_assembler, all_executed, collect_disclosures, finish,
}
use sd_jwt_rust.Issuance.Assembly.Walk.{
  execute_value, execute_kind, execute_array, execute_array_entry, execute_object,
  execute_object_entry, execute_array_disclosure, execute_object_disclosure, execute_decoys,
  execute_serial,
}
use sd_jwt_rust.Issuance.Reference.{
  Concealed, conceal_element, conceal_member, add_decoys, conceal, conceal_items, conceal_members,
}
use sd_jwt_rust.Issuance.Registry.{validate_registry-Registered}
use sd_jwt_rust.Issuance.Follows.{
  standing, Planning, Follows, Follows-return, Follows-map, Follows-bind, Follows-at, Follows-moved,
}
use sd_jwt_rust.Issuance.Steps.{
  Ensures-location, plan_array_disclosure-Follows, plan_object_disclosure-Follows,
  plan_decoys-Follows,
}

module _ (c : Codec) (source : RandomSource) (decoys : Bool) where
  -- A claim that stays, or becomes a disclosure, behind what was made for its own members.
  array_entry-Follows :
      (disclosed : Bool) (location_id : ℕ) (kind : PlannedValueKind)
      {p q : Planning c source decoys} {made : Concealed c source Value}
      → Follows c source decoys p q made (execute_kind c location_id kind)
      → Ensures
          (λ r.
            let (entry, made₁, random) = conceal_element c source disclosed made.0 made.2 in
            Follows c source decoys p r.1
              (entry, made.1 ++ made₁, random)
              (execute_array_entry c r.0))
          (plan_array_entry source decoys disclosed location_id kind q)
  unfolding plan_array_entry conceal_element execute_array_entry
  array_entry-Follows false location_id kind {p} {q} {made} h =
      returns {a = (PlannedArrayEntry.visible_element (planned location_id kind), q)}
        (rw append-nil h)
  array_entry-Follows true location_id kind {p} {q} {made} h =
      Ensures-bind (plan_array_disclosure-Follows c source decoys location_id q) λ r k. returns (
        Follows-bind c source decoys (execute_array_disclosure c r.0 location_id) h
          (Follows-at c source decoys (conceal_element c source true made.0) h.random (k made.0)))

  object_entry-Follows :
      (disclosed : Bool) (location_id : ℕ) (key : String) (kind : PlannedValueKind)
      {p q : Planning c source decoys} {made : Concealed c source Value}
      → Follows c source decoys p q made (execute_kind c location_id kind)
      → Ensures
          (λ r.
            (published : Members × List String)
            → let (published₁, made₁, random) =
                conceal_member c source disclosed key published made.0 made.2 in
              Follows c source decoys p r.1
                (published₁, made.1 ++ made₁, random)
                (execute_object_entry c r.0 published.0 published.1))
          (plan_object_entry source decoys disclosed location_id key kind q)
  unfolding plan_object_entry conceal_member execute_object_entry
  object_entry-Follows false location_id key kind {p} {q} {made} h =
      returns {a = (PlannedObjectEntry.visible_member key (planned location_id kind), q)}
        λ published.
          rw append-nil
            (Follows-map c source decoys (λ claim. (insert key claim published.0, published.1)) h)
  object_entry-Follows true location_id key kind {p} {q} {made} h =
      Ensures-bind (plan_object_disclosure-Follows c source decoys location_id key q) λ r k.
        returns λ published.
          Follows-bind c source decoys
            (λ claim s. execute_object_disclosure c r.0 location_id claim s >>= λ x.
              ok ((published.0, published.1 ++ x.0 ∷ []), x.1))
            h
            (Follows-at c source decoys (conceal_member c source true key published made.0) h.random
              (k published made.0))

  object_decoys-Follows :
      (add : Bool) (location_id : ℕ) (p : Planning c source decoys)
      → Ensures
          (λ q.
            (digests : List String)
            → Follows c source decoys p q.1
                (add_decoys c source add digests p.random)
                (execute_decoys c q.0 location_id digests))
          (plan_object_decoys source decoys add location_id p)
  unfolding plan_object_decoys add_decoys execute_decoys
  object_decoys-Follows false location_id p =
      returns {a = ([], p)} λ digests. Follows-return c source decoys p digests λ s. refl
  object_decoys-Follows true location_id p =
      let (count, random) = source.decoy_count 2 5 p.random in
      Ensures-weaken
        (plan_decoys-Follows c source decoys count location_id (record p { random = random }))
        λ q h digests. Follows-moved c source decoys p.next_location_id random (h digests)

  mutual
    unfolding plan_kind conceal execute_value

    kind-Follows :
        (value : Value) (strategy : ClaimsForSelectiveDisclosureStrategy) (location_id : ℕ)
        (p : Planning c source decoys)
        → Ensures
            (λ q.
              Follows c source decoys p q.1
                (conceal c source decoys value strategy p.random)
                (execute_kind c location_id q.0))
            (plan_kind source decoys value strategy location_id p)
    kind-Follows null strategy location_id p =
        returns (Follows-return c source decoys p null λ s. refl)
    kind-Follows (bool b) strategy location_id p =
        returns (Follows-return c source decoys p (bool b) λ s. refl)
    kind-Follows (number n) strategy location_id p =
        returns (Follows-return c source decoys p (number n) λ s. refl)
    kind-Follows (string t) strategy location_id p =
        returns (Follows-return c source decoys p (string t) λ s. refl)
    kind-Follows (array values) strategy location_id p =
        Ensures-bind (array-Follows values 0 strategy p)
          λ q h. returns (Follows-map c source decoys array h)
    kind-Follows (object values) strategy location_id p =
        Ensures-bind (object-Follows values strategy p) λ q h.
          Ensures-bind (object_decoys-Follows decoys location_id q.1) λ r k.
            let start = insert sd_digests_key null empty in
            let reached = conceal_members c source decoys values strategy (start, []) p.random in
            returns (
              Follows-bind c source decoys
                (λ x s. execute_decoys c r.0 location_id x.1 s >>= λ y.
                  ok (object (publish_digests x.0 y.0), y.1))
                (h (start, []))
                (Follows-map c source decoys (λ y. object (publish_digests reached.0.0 y))
                  (Follows-at c source decoys (add_decoys c source decoys reached.0.1)
                    (h (start, [])).random (k reached.0.1))))

    array-Follows :
        (values : Items) (index : ℕ) (strategy : ClaimsForSelectiveDisclosureStrategy)
        (p : Planning c source decoys)
        → Ensures
            (λ q.
              Follows c source decoys p q.1
                (conceal_items c source decoys values index strategy p.random)
                (execute_array c q.0))
            (plan_array source decoys values index strategy p)
    array-Follows nil index strategy p = returns (Follows-return c source decoys p nil λ s. refl)
    array-Follows (cons value values) index strategy p = Ensures-location c source decoys _ p _ (
        Ensures-bind
          (kind-Follows value (next_level strategy (array_key index)) p.next_location_id
            (record p { next_location_id = suc p.next_location_id }))
          λ q h.
            Ensures-bind
              (array_entry-Follows (sd_for_key strategy (array_key index)) p.next_location_id q.0 h)
              λ r k. Ensures-bind (array-Follows values (suc index) strategy r.1) λ t l. returns (
                Follows-moved c source decoys (suc p.next_location_id) p.random (
                  Follows-bind c source decoys
                    (λ claim s. execute_array c t.0 s >>= λ x. ok (cons claim x.0, x.1)) k
                    (Follows-map c source decoys (cons _) (
                      Follows-at c source decoys
                        (conceal_items c source decoys values (suc index) strategy) k.random l)))))

    object-Follows :
        (values : Members) (strategy : ClaimsForSelectiveDisclosureStrategy)
        (p : Planning c source decoys)
        → Ensures
            (λ q.
              (published : Members × List String)
              → Follows c source decoys p q.1
                  (conceal_members c source decoys values strategy published p.random)
                  (execute_object c q.0 published.0 published.1))
            (plan_object source decoys values strategy p)
    object-Follows empty strategy p =
        returns λ published. Follows-return c source decoys p published λ s. refl
    object-Follows (member key value values) strategy p = Ensures-location c source decoys _ p _ (
        Ensures-bind
          (kind-Follows value (next_level strategy key) p.next_location_id
            (record p { next_location_id = suc p.next_location_id }))
          λ q h.
            Ensures-bind
              (object_entry-Follows (sd_for_key strategy key) p.next_location_id key q.0 h)
              λ r k. Ensures-bind (object-Follows values strategy r.1) λ t l. returns λ published.
                Follows-moved c source decoys (suc p.next_location_id) p.random (
                  Follows-bind c source decoys (λ x. execute_object c t.0 x.0 x.1) (k published)
                    (Follows-at c source decoys (conceal_members c source decoys values strategy _)
                      (k published).random (l _))))

all_executed-nones : (n : ℕ) → all_executed (nones n ++ []) ≡ true
unfolding all_executed nones
all_executed-nones zero = refl
all_executed-nones (suc n) = all_executed-nones n

collect_disclosures-some :
    (ds : List SdJwtDisclosure) → collect_disclosures (map some ds ++ nones 0) ≡ ok ds
unfolding collect_disclosures nones
collect_disclosures-some [] = refl
collect_disclosures-some (d ∷ ds) = rw (collect_disclosures-some ds)

finish-standing :
    (claims : Value) (n : ℕ) (ds : List SdJwtDisclosure) (ids : List ℕ)
    → finish claims (standing n [] ds 0 ids) ≡ ok (record { claims = claims; disclosures = ds })
unfolding finish
finish-standing claims n ds ids = rw (all_executed-nones n) (rw (collect_disclosures-some ds))

module _ (c : Codec) (source : RandomSource) (decoys : Bool) where
  value-Follows :
      (value : Value) (strategy : ClaimsForSelectiveDisclosureStrategy) (location_id : ℕ)
      (p : Planning c source decoys)
      → Ensures
          (λ q.
            Follows c source decoys p q.1
              (conceal c source decoys value strategy p.random)
              (execute_value c q.0))
          (plan_value source decoys value strategy location_id p)
  unfolding plan_value execute_value
  value-Follows value strategy location_id p =
      Ensures-bind (kind-Follows c source decoys value strategy location_id p) λ q h. returns h

  -- The plan that the planner leaves, if it started with nothing, executes.
  executes :
      (random : source.State) {n : ℕ} {made : Concealed c source Value} (root : PlannedValue)
      (after : Planning c source decoys)
      → Follows c source decoys
          (record { next_location_id = n; jobs = []; disclosure_job_ids = []; random = random })
          after
          made
          (execute_value c root)
      → execute_serial c
          (record { root = root; jobs = after.jobs; disclosure_job_ids = after.disclosure_job_ids })
        ≡ ok (record { claims = made.0; disclosures = made.1 })
  unfolding execute_serial new_assembler nones
  executes random {made} root after h =
      let run = rw (append-nil h.ids, append-nil h.jobs) at (h.runs [] [] [] refl) in
      let valid = validate_registry-Registered h.jobs h.ids h.registered in
      rw (h.jobs_added, h.ids_added)
        (rw valid (rw run (finish-standing made.0 (length after.jobs) made.1 h.ids)))

-- Planning ends in a plan or an error, without a panic. The serial assembler executes a plan that
-- was made without any error: each job is taken once and each disclosure recorded once; and what it
-- gives, claims and disclosures in order, is what one walk over the claims gives that knows no jobs.
-- The random source is drawn from in the order of that walk.
pub create-conceal :
    (c : Codec) (source : RandomSource) (add_decoy_claims : Bool) (claims : Value)
    (strategy : ClaimsForSelectiveDisclosureStrategy) (random : source.State)
    → let (concealed, made, random₁) = conceal c source add_decoy_claims claims strategy random in
      Ensures
        (λ (plan, after).
          (execute_serial c plan ≡ ok (record { claims = concealed; disclosures = made }))
          × (after ≡ random₁))
        (create source add_decoy_claims claims strategy random)
unfolding create
create-conceal c source decoys claims strategy random =
    let start : Planning c source decoys = record {
      next_location_id = 0;
      jobs = [];
      disclosure_job_ids = [];
      random = random;
    } in
    Ensures-location c source decoys _ start
      (λ (location_id, planner).
        plan_value source decoys claims strategy location_id planner >>= λ (root, planner₁). ok (
          record {
            root = root;
            jobs = planner₁.jobs;
            disclosure_job_ids = planner₁.disclosure_job_ids;
          },
          planner₁.random,
        ))
      (Ensures-bind
        (value-Follows c source decoys claims strategy 0 (record start { next_location_id = 1 }))
        λ q h. returns (executes c source decoys random q.0 q.1 h, h.random))
