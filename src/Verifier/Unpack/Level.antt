-- ===== src/Verifier/Unpack/Level.antt =====
-- One level of unpacking in src/verifier.rs: each step keeps what the recursive call establishes.
use mathlib.Core.Path.{subst}
use sd_jwt_rust.Prelude.{
  ℕ, ◌≤◌, String, ◌≡◌, refl, inl, inr, not, ◌||◌, Option, none, some, List, [], ◌∷◌, ◌==◌, ltb,
  arith, contains, contains-append, Distinct, Distinct-snoc, Bool-cases,
}
use sd_jwt_rust.Prelude.Maps.{HashMap, lookup}
use sd_jwt_rust.Error.{
  Ensures, returns, Ensures-bind, Ensures-weaken, Ensures-ensure, Ensures-ok_or, Ensures-if,
}
use sd_jwt_rust.Json.{
  Value, Items, Members, array, object, nil, cons, empty, member, contains_key, insert,
  length_members, as_str, as_array, items_distinct,
}
use sd_jwt_rust.Reserved.{sd_digests_key, digest_alg_key, sd_list_prefix, is_reserved, items_lack}
use sd_jwt_rust.Verifier.Unpack.{
  max_processed_sd_jwt_depth, Stateful, record_digest, object_parts, array_part, as_placeholder,
  unpack_array_disclosure, unpack_from_digest, unpack_element, unpack_items,
  unpack_object_disclosure, unpack_from_digests, unpack_members, unpack_digests_member,
}
use sd_jwt_rust.Verifier.Unpack.Clean.{
  items_nesting, IsClean, AreCleanItems, AreCleanMembers, Extends, Extends-refl, Extends-trans,
  contains_key-get, AreCleanMembers-insert, AreCleanItems-keep,
}

-- An unpacked value, and the digests met.
abbrev pub Unpacked : ℕ → List String → Value × List String → Type 0
Unpacked d seen r = IsClean d r.0 × Extends seen r.1

abbrev pub UnpackedOption : ℕ → List String → Option Value × List String → Type 0
UnpackedOption d seen r = ((v : Value) → r.0 ≡ some v → IsClean d v) × Extends seen r.1

abbrev pub UnpackedItems : ℕ → List String → Items × List String → Type 0
UnpackedItems d seen r = AreCleanItems d r.0 × Extends seen r.1

abbrev pub UnpackedMembers : ℕ → List String → Members × List String → Type 0
UnpackedMembers d seen r = AreCleanMembers d r.0 × Extends seen r.1

record_digest-Extends :
    (digest : String) (seen : List String)
    → Distinct seen
    → Ensures (Extends seen) (record_digest digest seen)
unfolding record_digest
record_digest-Extends digest seen d = Ensures-ensure (not (contains seen digest)) _ (λ e.
    returns (record {
      distinct = Distinct-snoc seen digest d (ground arith);
      keeps = λ a h. ground (arith, contains-append seen (digest ∷ []) a);
    }))

-- One level: the recursive call is a parameter, at the depth that the level entered.
module _ (hashes : HashMap Value) (unpack : Value → ℕ → List String → Stateful Value) (d : ℕ)
    (deep : d ≤ max_processed_sd_jwt_depth)
    (rec : (v : Value) (seen : List String)
      → Distinct seen
      → Ensures (Unpacked d seen) (unpack v d seen)) where
  array_disclosure :
      (o : Option Value) (seen : List String)
      → Distinct seen
      → Ensures (UnpackedOption d seen) (unpack_array_disclosure hashes unpack o d seen)
  unfolding unpack_array_disclosure
  array_disclosure none seen h = returns ((λ v e. cc), Extends-refl seen h)
  array_disclosure (some w) seen h = Ensures-ok_or (as_array w) _ (λ disclosure _.
      Ensures-ok_or (array_part disclosure) _ (λ value _.
        Ensures-bind (rec value seen h)
          (λ r u. returns ((λ v e. subst (IsClean d) (cc) u.0), u.1))))

  from_digest :
      (digest : Value) (seen : List String)
      → Distinct seen
      → Ensures (UnpackedOption d seen) (unpack_from_digest hashes unpack digest d seen)
  unfolding unpack_from_digest
  from_digest digest seen h = Ensures-ok_or (as_str digest) _ (λ digest' _.
      Ensures-bind (record_digest-Extends digest' seen h) (λ seen' e.
        Ensures-weaken (array_disclosure (lookup digest' hashes) seen' e.distinct)
          (λ r u. (u.0, Extends-trans seen seen' r.1 e u.1))))

  clear :
      (value : Value) (seen : List String)
      → Distinct seen
      → Ensures (UnpackedOption d seen) (unpack_element hashes unpack value none d seen)
  unfolding unpack_element
  clear value seen h =
      Ensures-bind (rec value seen h) (λ r u. returns ((λ v e. subst (IsClean d) (cc) u.0), u.1))

  element :
      (value : Value) (seen : List String)
      → Distinct seen
      → Ensures
          (UnpackedOption d seen)
          (unpack_element hashes unpack value (as_placeholder value) d seen)
  unfolding unpack_element as_placeholder
  element (object m) seen h = elim (Bool-cases (contains_key m sd_list_prefix)) [
    | inl e ↦ rw e (
        Ensures-ensure (not (ltb 1 (length_members m))) _
          (λ _. let (v, g) = contains_key-get sd_list_prefix m e in rw g (from_digest v seen h)))
    | inr e ↦ rw e (clear (object m) seen h)
  ]
  element value seen h = clear value seen h

  pub items :
      (arr : Items) (seen : List String)
      → Distinct seen
      → Ensures (UnpackedItems d seen) (unpack_items hashes unpack arr d seen)
  unfolding unpack_items items_lack items_distinct items_nesting
  items nil seen h =
      returns {a = (nil, seen)} (
        record { no_digests = refl; distinct_keys = refl; depth = omega arith },
        Extends-refl seen h,
      )
  items (cons value arr) seen h = Ensures-bind (element value seen h) (λ r u.
      Ensures-bind (items arr r.1 u.1.distinct)
        (λ s w. returns (AreCleanItems-keep d r.0 s.0 u.0 w.0, Extends-trans seen r.1 s.1 u.1 w.1)))

  object_disclosure :
      (pre_output : Members) (o : Option Value) (seen : List String)
      → AreCleanMembers d pre_output
      → Distinct seen
      → Ensures
          (UnpackedMembers d seen)
          (unpack_object_disclosure hashes unpack pre_output o d seen)
  unfolding unpack_object_disclosure
  object_disclosure pre none seen p h = returns (p, Extends-refl seen h)
  object_disclosure pre (some w) seen p h = Ensures-ok_or (as_array w) _ (λ disclosure _.
      Ensures-ok_or (object_parts disclosure) _ (λ parts _.
        Ensures-ok_or (as_str parts.0) _ (λ key _.
          Ensures-ensure (not (is_reserved key)) _ (λ reserved.
            Ensures-ensure (not (contains_key pre key)) _ (λ _.
              Ensures-bind (rec parts.1 seen h) (λ r u.
                returns (AreCleanMembers-insert d key r.0 pre (ground arith) u.0 p, u.1)))))))

  from_digests :
      (pre_output : Members) (digests : Items) (seen : List String)
      → AreCleanMembers d pre_output
      → Distinct seen
      → Ensures
          (UnpackedMembers d seen)
          (unpack_from_digests hashes unpack pre_output digests d seen)
  unfolding unpack_from_digests
  from_digests pre nil seen p h = returns (p, Extends-refl seen h)
  from_digests pre (cons digest digests) seen p h = Ensures-ok_or (as_str digest) _ (λ digest' _.
      Ensures-bind (record_digest-Extends digest' seen h) (λ seen' e.
        Ensures-bind (object_disclosure pre (lookup digest' hashes) seen' p e.distinct) (λ r u.
          Ensures-weaken (from_digests r.0 digests r.1 u.0 u.1.distinct)
            (λ s w. (w.0, Extends-trans seen seen' s.1 e (Extends-trans seen' r.1 s.1 u.1 w.1))))))

  pub members :
      (disclosed m : Members) (seen : List String)
      → AreCleanMembers d disclosed
      → Distinct seen
      → Ensures (UnpackedMembers d seen) (unpack_members hashes unpack disclosed m d seen)
  unfolding unpack_members
  members disclosed empty seen p h = returns (p, Extends-refl seen h)
  members disclosed (member key value m) seen p h =
      Ensures-if (key == sd_digests_key || key == digest_alg_key)
        (λ _. members disclosed m seen p h)
        (λ e. Ensures-bind (rec value seen h) (λ r u.
          Ensures-weaken
            (members (insert key r.0 disclosed) m r.1
              (AreCleanMembers-insert d key r.0 disclosed (ground arith) u.0 p) u.1.distinct)
            (λ s w. (w.0, Extends-trans seen r.1 s.1 u.1 w.1))))

  pub digests_member :
      (disclosed : Members) (o : Option Value) (seen : List String)
      → AreCleanMembers d disclosed
      → Distinct seen
      → Ensures (UnpackedMembers d seen) (unpack_digests_member hashes unpack disclosed o d seen)
  unfolding unpack_digests_member
  digests_member disclosed (some (array digests)) seen p h = from_digests disclosed digests seen p h
  digests_member disclosed _ seen p h = returns (p, Extends-refl seen h)
