-- ===== src/Verifier/Unpack/Clean.antt =====
-- What the claims that src/verifier.rs gives back are, and what may be said of the digests it met.

use sd_jwt_rust.Prelude.{
  ℕ, suc, ◌+◌, ◌≤◌, max, String, ◌≡◌, refl, inl, inr, Bool, true, false, Option, none, some, List,
  ◌==◌, eq_iff, arith, contains, Distinct, Bool-cases,
}
use sd_jwt_rust.Json.{
  Value, Items, Members, null, bool, number, string, array, object, nil, cons, empty, member, get,
  contains_key, insert, has_distinct_keys, items_distinct, members_distinct, contains_key-insert,
}
use sd_jwt_rust.Reserved.{sd_digests_key, lacks, items_lack, members_lack}
use sd_jwt_rust.Verifier.Unpack.{max_processed_sd_jwt_depth, keep}

abbrev pub is_digests_key : String → Bool
is_digests_key k = k == sd_digests_key

-- How many containers stand around the innermost value.
unfoldable mutual
  pub nesting : Value → ℕ
  nesting null = 0
  nesting (bool b) = 0
  nesting (number n) = 0
  nesting (string s) = 0
  nesting (array xs) = suc (items_nesting xs)
  nesting (object m) = suc (members_nesting m)

  pub items_nesting : Items → ℕ
  items_nesting nil = 0
  items_nesting (cons v xs) = max (nesting v) (items_nesting xs)

  pub members_nesting : Members → ℕ
  members_nesting empty = 0
  members_nesting (member k v m) = max (nesting v) (members_nesting m)

-- A processed value at a depth.
pub record IsClean (d : ℕ) (v : Value) : Type 0 where
  pub no_digests : lacks is_digests_key v ≡ true
  pub distinct_keys : has_distinct_keys v ≡ true
  pub depth : nesting v + d ≤ max_processed_sd_jwt_depth

pub record AreCleanItems (d : ℕ) (xs : Items) : Type 0 where
  pub no_digests : items_lack is_digests_key xs ≡ true
  pub distinct_keys : items_distinct xs ≡ true
  pub depth : items_nesting xs + d ≤ max_processed_sd_jwt_depth

pub record AreCleanMembers (d : ℕ) (m : Members) : Type 0 where
  pub no_digests : members_lack is_digests_key m ≡ true
  pub distinct_keys : members_distinct m ≡ true
  pub depth : members_nesting m + d ≤ max_processed_sd_jwt_depth

-- The digests met are distinct, and those met before are among them.
pub record Extends (seen seen' : List String) : Type 0 where
  pub distinct : Distinct seen'
  pub keeps : (a : String) → contains seen a ≡ true → contains seen' a ≡ true

pub Extends-refl : (seen : List String) → Distinct seen → Extends seen seen
Extends-refl seen d = record { distinct = d; keeps = λ a h. h }

pub Extends-trans : (s t u : List String) → Extends s t → Extends t u → Extends s u
Extends-trans s t u st tu = record {
  distinct = tu.distinct;
  keeps = λ a h. tu.keeps a (st.keeps a h);
}

pub contains_key-get :
    (k : String) (m : Members) → contains_key m k ≡ true → (v : Value) × (get k m ≡ some v)
contains_key-get k empty h = cc
contains_key-get k (member j w m) h = elim (Bool-cases (j == k)) [
  | inl e ↦ (w, rw e)
  | inr e ↦ rw e (contains_key-get k m (rw e at h))
]

members_lack-insert :
    (k : String) (v : Value) (m : Members)
    → is_digests_key k ≡ false
    → lacks is_digests_key v ≡ true
    → members_lack is_digests_key m ≡ true
    → members_lack is_digests_key (insert k v m) ≡ true
unfolding members_lack
members_lack-insert k v empty hk hv hm = ground arith
members_lack-insert k v (member j w m) hk hv hm = ground (arith, members_lack-insert k v m)

members_distinct-insert :
    (k : String) (v : Value) (m : Members)
    → has_distinct_keys v ≡ true
    → members_distinct m ≡ true
    → members_distinct (insert k v m) ≡ true
unfolding members_distinct
members_distinct-insert k v empty hv hm = ground arith
members_distinct-insert k v (member j w m) hv hm =
    ground
      (arith, members_distinct-insert k v m, contains_key-insert k j v m, eq_iff j k, eq_iff k j)

members_nesting-insert :
    (k : String) (v : Value) (m : Members) (d bound : ℕ)
    → nesting v + d ≤ bound
    → members_nesting m + d ≤ bound
    → members_nesting (insert k v m) + d ≤ bound
unfolding members_nesting
members_nesting-insert k v empty d bound hv hm = ground arith
members_nesting-insert k v (member j w m) d bound hv hm =
    ground (arith, members_nesting-insert k v m d bound)

pub AreCleanMembers-insert :
    (d : ℕ) (k : String) (v : Value) (m : Members)
    → is_digests_key k ≡ false
    → IsClean d v
    → AreCleanMembers d m
    → AreCleanMembers d (insert k v m)
AreCleanMembers-insert d k v m hk hv hm = record {
  no_digests = members_lack-insert k v m hk hv.no_digests hm.no_digests;
  distinct_keys = members_distinct-insert k v m hv.distinct_keys hm.distinct_keys;
  depth = members_nesting-insert k v m d max_processed_sd_jwt_depth hv.depth hm.depth;
}

pub AreCleanItems-keep :
    (d : ℕ) (o : Option Value) (xs : Items)
    → ((v : Value) → o ≡ some v → IsClean d v)
    → AreCleanItems d xs
    → AreCleanItems d (keep o xs)
unfolding keep items_lack items_nesting items_distinct
AreCleanItems-keep d none xs hv hx = hx
AreCleanItems-keep d (some v) xs hv hx = record {
  no_digests = ground (arith, (hv v refl).no_digests, hx.no_digests);
  distinct_keys = ground (arith, (hv v refl).distinct_keys, hx.distinct_keys);
  depth = omega (arith, (hv v refl).depth, hx.depth);
}
