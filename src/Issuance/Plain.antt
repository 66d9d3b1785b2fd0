-- ===== src/Issuance/Plain.antt =====
-- An issuance without selective disclosure in src/issuer/issuance_plan.rs publishes the claims as
-- they stand: what the walk of Reference does under the strategy that hides nothing.
use sd_jwt_rust.Prelude.{
  String, ◌≡◌, refl, ap, true, false, not, List, [], ◌==◌, eq_iff, arith, ℕ, suc, and-elim,
  not-elim,
}
use sd_jwt_rust.Json.{
  Value, Items, Members, null, bool, number, string, array, object, nil, cons, empty, member,
  insert, contains_key, has_distinct_keys, items_distinct, members_distinct,
}
use sd_jwt_rust.Codec.{Codec}
use sd_jwt_rust.Reserved.{lacks, items_lack, members_lack, is_reserved, sd_digests_key}
use sd_jwt_rust.Strategy.{no_sd_claims, next_level, sd_for_key}
use sd_jwt_rust.Plan.{RandomSource}
use sd_jwt_rust.Error.{ok, Ensures, Ensures-weaken}
use sd_jwt_rust.Issuance.{create}
use sd_jwt_rust.Issuance.Soundness.{create-conceal}
use sd_jwt_rust.Issuance.Assembly.{publish_digests}
use sd_jwt_rust.Issuance.Assembly.Walk.{execute_serial}
use sd_jwt_rust.Issuance.Reference.{
  conceal, conceal_items, conceal_members, conceal_element, conceal_member, add_decoys,
}

abbrev concat : Members → Members → Members
concat empty m = m
concat (member k v a) m = member k v (concat a m)

concat-empty : (a : Members) → concat a empty ≡ a
concat-empty empty = refl
concat-empty (member k v a) = ap (member k v) (concat-empty a)

insert-concat :
    (k : String) (v : Value) (a m : Members)
    → contains_key a k ≡ false
    → concat (insert k v a) m ≡ concat a (member k v m)
insert-concat k v empty m h = refl
insert-concat k v (member j w a) m h = ground (arith, insert-concat k v a m)

-- No key of the second object stands in the first.
abbrev AreApart : Members → Members → Type 0
AreApart a empty = Unit
AreApart a (member k v m) = (contains_key a k ≡ false) × AreApart a m

contains_key-insert_other :
    (k j : String) (v : Value) (a : Members)
    → contains_key a j ≡ false
    → (k == j) ≡ false
    → contains_key (insert k v a) j ≡ false
contains_key-insert_other k j v empty h e = rw e
contains_key-insert_other k j v (member i w a) h e =
    ground (arith, eq_iff k j, eq_iff i k, eq_iff i j, contains_key-insert_other k j v a)

AreApart-insert :
    (k : String) (v : Value) (a m : Members)
    → AreApart a m
    → contains_key m k ≡ false
    → AreApart (insert k v a) m
AreApart-insert k v a empty h e = tt
AreApart-insert k v a (member j w m) h e = (
  contains_key-insert_other k j v a h.0 (ground (arith, eq_iff j k, eq_iff k j)),
  AreApart-insert k v a m h.1 (ground arith),
)

start-AreApart :
    (m : Members)
    → members_lack is_reserved m ≡ true
    → AreApart (member sd_digests_key null empty) m
unfolding lacks
start-AreApart empty h = tt
start-AreApart (member k v m) h =
    let (key, rest) = and-elim (not (is_reserved k)) _ h in
    let (_, others) = and-elim (lacks is_reserved v) (members_lack is_reserved m) rest in
    (ground (arith, key, eq_iff k sd_digests_key, eq_iff sd_digests_key k), start-AreApart m others)

module _ (c : Codec) (source : RandomSource) where
  mutual
    unfolding conceal conceal_element conceal_member add_decoys sd_for_key next_level lacks
        has_distinct_keys publish_digests

    plain :
        (v : Value) (s : source.State)
        → lacks is_reserved v ≡ true
        → has_distinct_keys v ≡ true
        → conceal c source false v no_sd_claims s ≡ (v, [], s)
    plain null s h d = refl
    plain (bool b) s h d = refl
    plain (number n) s h d = refl
    plain (string t) s h d = refl
    plain (array xs) s h d = rw (plain_items xs 0 s h d)
    plain (object m) s h d =
        rw (plain_members m (member sd_digests_key null empty) [] s h d (start-AreApart m h))

    plain_items :
        (xs : Items) (n : ℕ) (s : source.State)
        → items_lack is_reserved xs ≡ true
        → items_distinct xs ≡ true
        → conceal_items c source false xs n no_sd_claims s ≡ (xs, [], s)
    plain_items nil n s h d = refl
    plain_items (cons v xs) n s h d =
        let (hv, hs) = and-elim (lacks is_reserved v) (items_lack is_reserved xs) h in
        let (dv, ds) = and-elim (has_distinct_keys v) (items_distinct xs) d in
        rw (plain v s hv dv) (rw (plain_items xs (suc n) s hs ds))

    plain_members :
        (m a : Members) (digests : List String) (s : source.State)
        → members_lack is_reserved m ≡ true
        → members_distinct m ≡ true
        → AreApart a m
        → conceal_members c source false m no_sd_claims (a, digests) s
          ≡ ((concat a m, digests), [], s)
    plain_members empty a digests s h d apart = rw (concat-empty a)
    plain_members (member k v m) a digests s h d apart =
        let (_, h₁) = and-elim (not (is_reserved k)) _ h in
        let (hv, hs) = and-elim (lacks is_reserved v) (members_lack is_reserved m) h₁ in
        let (fresh, d₁) = and-elim (not (contains_key m k)) _ d in
        let (dv, ds) = and-elim (has_distinct_keys v) (members_distinct m) d₁ in
        rw (plain v s hv dv) (
          rw
            (plain_members m (insert k v a) digests s hs ds
              (AreApart-insert k v a m apart.1 (not-elim _ fresh)))
            (rw (insert-concat k v a m apart.0)))

-- Without a strategy and decoys, the plan of claims that hold no reserved key, and no key twice in
-- one object, executes without an error and publishes exactly these claims, with no disclosure; and
-- no salt is drawn.
pub create-plain :
    (c : Codec) (source : RandomSource) (claims : Value) (random : source.State)
    → lacks is_reserved claims ≡ true
    → has_distinct_keys claims ≡ true
    → Ensures
        (λ (plan, after).
          (execute_serial c plan ≡ ok (record { claims = claims; disclosures = [] }))
          × (after ≡ random))
        (create source false claims no_sd_claims random)
create-plain c source claims random h d =
    Ensures-weaken (create-conceal c source false claims no_sd_claims random)
      λ q executed. rw (plain c source claims random h d) at executed
