-- ===== src/Verifier/Unpack/Plain.antt =====
-- Claims without SD-JWT markers pass through the unpacking of src/verifier.rs as they are.
use sd_jwt_rust.Prelude.{
  ℕ, zero, suc, ◌+◌, ◌≤◌, ◌<◌, String, ◌≡◌, refl, sym, ap, ◌∙◌, Bool, true, false, not, ◌&&◌, ◌||◌,
  none, List, ◌==◌, eq_iff, le→ltb_false, if◌then◌else◌, arith, and-elim, not-elim,
}
use sd_jwt_rust.Prelude.Maps.{HashMap}
use sd_jwt_rust.Error.{ok}
use sd_jwt_rust.Json.{
  Value, Items, Members, null, bool, number, string, array, object, nil, cons, empty, member, get,
  contains_key, insert,
}
use sd_jwt_rust.Reserved.{sd_digests_key, digest_alg_key, sd_list_prefix}
use sd_jwt_rust.Verifier.Unpack.{
  max_processed_sd_jwt_depth, Stateful, enter_processed_container, keep, as_placeholder,
  unpack_element, unpack_items, unpack_disclosed_claims_in_array, unpack_members,
  unpack_digests_member, unpack_disclosed_claims_in_object, unpack_value, unpack_disclosed_claims,
}
use sd_jwt_rust.Verifier.Unpack.Clean.{nesting, items_nesting, members_nesting}

abbrev pub is_marker : String → Bool
is_marker k = k == sd_digests_key || (k == digest_alg_key || k == sd_list_prefix)

-- At no depth an empty array, a key of the SD-JWT markup or a repeated key.
unfoldable mutual
  pub is_plain : Value → Bool
  is_plain null = true
  is_plain (bool b) = true
  is_plain (number n) = true
  is_plain (string s) = true
  is_plain (array nil) = false
  is_plain (array (cons v xs)) = is_plain v && items_plain xs
  is_plain (object m) = members_plain m

  pub items_plain : Items → Bool
  items_plain nil = true
  items_plain (cons v xs) = is_plain v && items_plain xs

  pub members_plain : Members → Bool
  members_plain empty = true
  members_plain (member k v m) =
      not (is_marker k) && (not (contains_key m k) && (is_plain v && members_plain m))

-- The members of one object and then those of another.
abbrev append_members : Members → Members → Members
append_members empty n = n
append_members (member k v m) n = member k v (append_members m n)

append_members-empty : (m : Members) → append_members m empty ≡ m
append_members-empty empty = refl
append_members-empty (member k v m) = ap (member k v) (append_members-empty m)

append_members_assoc :
    (l m n : Members)
    → append_members (append_members l m) n ≡ append_members l (append_members m n)
append_members_assoc empty m n = refl
append_members_assoc (member k v l) m n = ap (member k v) (append_members_assoc l m n)

insert-new :
    (k : String) (v : Value) (m : Members)
    → contains_key m k ≡ false
    → insert k v m ≡ append_members m (member k v empty)
insert-new k v empty h = refl
insert-new k v (member j w m) h = ground (arith, insert-new k v m)

contains_key-append_members :
    (k : String) (m n : Members)
    → contains_key (append_members m n) k ≡ (if contains_key m k then true else contains_key n k)
contains_key-append_members k empty n = refl
contains_key-append_members k (member j w m) n = ground (arith, contains_key-append_members k m n)

-- No key of the second stands in the first.
abbrev AreApart : Members → Members → Type 0
AreApart acc empty = Unit
AreApart acc (member k v m) = (contains_key acc k ≡ false) × AreApart acc m

AreApart-member :
    (acc m : Members) (k : String) (v : Value)
    → AreApart acc m
    → contains_key m k ≡ false
    → AreApart (append_members acc (member k v empty)) m
AreApart-member acc empty k v h n = tt
AreApart-member acc (member j w m) k v h n = (
  ground (arith, h.0, contains_key-append_members j acc (member k v empty), eq_iff k j, eq_iff j k),
  AreApart-member acc m k v h.1 (ground arith),
)

AreApart-empty : (m : Members) → AreApart empty m
AreApart-empty empty = tt
AreApart-empty (member k v m) = (refl, AreApart-empty m)

record IsPlainMember (k : String) (v : Value) (m : Members) : Type 0 where
  marker : is_marker k ≡ false
  single : contains_key m k ≡ false
  value : is_plain v ≡ true
  rest : members_plain m ≡ true

IsPlainMember-new :
    (k : String) (v : Value) (m : Members)
    → members_plain (member k v m) ≡ true
    → IsPlainMember k v m
unfolding members_plain
IsPlainMember-new k v m h =
    let (a, h₁) = and-elim (not (is_marker k)) _ h in
    let (b, h₂) = and-elim (not (contains_key m k)) _ h₁ in
    let (p, q) = and-elim (is_plain v) _ h₂ in
    record { marker = not-elim _ a; single = not-elim _ b; value = p; rest = q }

lacks-marker :
    (k : String) (m : Members)
    → is_marker k ≡ true
    → members_plain m ≡ true
    → contains_key m k ≡ false
lacks-marker k empty hk h = refl
lacks-marker k (member j w m) hk h =
    let p = IsPlainMember-new j w m h in
    let behind = lacks-marker k m hk p.rest in ground (arith, behind, p.marker, eq_iff j k)

get-none : (k : String) (m : Members) → contains_key m k ≡ false → get k m ≡ none
get-none k empty h = refl
get-none k (member j w m) h = ground (arith, get-none k m)

as_placeholder-none : (v : Value) → is_plain v ≡ true → as_placeholder v ≡ none
unfolding as_placeholder is_plain
as_placeholder-none (object m) h = rw (lacks-marker sd_list_prefix m refl h) refl
as_placeholder-none null h = refl
as_placeholder-none (bool b) h = refl
as_placeholder-none (number n) h = refl
as_placeholder-none (string s) h = refl
as_placeholder-none (array xs) h = refl

-- One level: the recursive call is a parameter, at the depth that the level entered.
module _ (hashes : HashMap Value) (unpack : Value → ℕ → List String → Stateful Value) (d : ℕ)
    (seen : List String)
    (rec : (v : Value)
      → is_plain v ≡ true
      → nesting v + d ≤ max_processed_sd_jwt_depth
      → unpack v d seen ≡ ok (v, seen)) where
  items-plain :
      (arr : Items)
      → items_plain arr ≡ true
      → items_nesting arr + d ≤ max_processed_sd_jwt_depth
      → unpack_items hashes unpack arr d seen ≡ ok (arr, seen)
  unfolding unpack_items unpack_element keep items_plain items_nesting
  items-plain nil h n = refl
  items-plain (cons v arr) h n =
      let (hv, ha) = and-elim (is_plain v) (items_plain arr) h in
      rw (as_placeholder-none v hv)
        (rw (rec v hv (omega arith)) (rw (items-plain arr ha (omega arith)) refl))

  members-plain :
      (acc m : Members)
      → AreApart acc m
      → members_plain m ≡ true
      → members_nesting m + d ≤ max_processed_sd_jwt_depth
      → unpack_members hashes unpack acc m d seen ≡ ok (append_members acc m, seen)
  unfolding unpack_members members_nesting
  members-plain acc empty a h n = ap (λ l. ok (l, seen)) (sym (append_members-empty acc))
  members-plain acc (member k v m) a h n =
      let p = IsPlainMember-new k v m h in
      let clear : (k == sd_digests_key || k == digest_alg_key) ≡ false = ground (arith, p.marker) in
      rw clear (
        rw (rec v p.value (omega arith)) (
          rw (insert-new k v acc a.0) (
            members-plain (append_members acc (member k v empty)) m
              (AreApart-member acc m k v a.1 p.single) p.rest (omega arith)
            ∙ ap (λ l. ok (l, seen)) (append_members_assoc acc (member k v empty) m))))

  object-plain :
      (m : Members)
      → members_plain m ≡ true
      → members_nesting m + d ≤ max_processed_sd_jwt_depth
      → unpack_disclosed_claims_in_object hashes unpack m d seen ≡ ok (object m, seen)
  unfolding unpack_disclosed_claims_in_object unpack_digests_member
  object-plain m h n =
      rw (members-plain empty m (AreApart-empty m) h n)
        (rw (get-none sd_digests_key m (lacks-marker sd_digests_key m refl h)) refl)

enter-ok : (d : ℕ) → suc d ≤ max_processed_sd_jwt_depth → enter_processed_container d ≡ ok (suc d)
unfolding enter_processed_container
enter-ok d h = rw (le→ltb_false max_processed_sd_jwt_depth (suc d) h) refl

-- Claims that hold no SD-JWT marker, no empty array and no repeated key at any depth, and that are
-- nested within the bound, are unpacked to themselves, whatever the disclosures are, and no digest
-- is recorded.
pub unpack_disclosed_claims-plain :
    (hashes : HashMap Value) (fuel : ℕ) (v : Value) (d : ℕ) (seen : List String)
    → max_processed_sd_jwt_depth < fuel + d
    → is_plain v ≡ true
    → nesting v + d ≤ max_processed_sd_jwt_depth
    → unpack_disclosed_claims hashes fuel v d seen ≡ ok (v, seen)
unfolding unpack_disclosed_claims unpack_value is_plain nesting items_nesting
unpack_disclosed_claims-plain hashes zero v d seen enough h n = absurd (omega arith)
unpack_disclosed_claims-plain hashes (suc fuel) null d seen enough h n = refl
unpack_disclosed_claims-plain hashes (suc fuel) (bool b) d seen enough h n = refl
unpack_disclosed_claims-plain hashes (suc fuel) (number x) d seen enough h n = refl
unpack_disclosed_claims-plain hashes (suc fuel) (string s) d seen enough h n = refl
unpack_disclosed_claims-plain hashes (suc fuel) (array nil) d seen enough h n = cc
unpack_disclosed_claims-plain hashes (suc fuel) (array (cons v arr)) d seen enough h n =
    rw (enter-ok d (omega arith)) (
      unfold unpack_disclosed_claims_in_array in
      rw
        (items-plain hashes (unpack_disclosed_claims hashes fuel) (suc d) seen
          (λ w p k. unpack_disclosed_claims-plain hashes fuel w (suc d) seen (omega arith) p k)
          (cons v arr) h (omega arith))
        refl)
unpack_disclosed_claims-plain hashes (suc fuel) (object m) d seen enough h n =
    rw (enter-ok d (omega arith)) (
      object-plain hashes (unpack_disclosed_claims hashes fuel) (suc d) seen
        (λ w p k. unpack_disclosed_claims-plain hashes fuel w (suc d) seen (omega arith) p k) m h
        (omega arith))
