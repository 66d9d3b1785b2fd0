-- ===== src/Verifier/Unpack/Revealing.antt =====
-- The unpacking of src/verifier.rs reveals what `Reveals` describes.
use mathlib.Core.Path.{subst}
use sd_jwt_rust.Prelude.{
  ℕ, zero, suc, String, ◌≡◌, refl, sym, ap, inl, inr, true, not, Option, none, some, List, ltb,
  not-elim, Bool-cases, ◌∙◌,
}
use sd_jwt_rust.Prelude.Maps.{HashMap, lookup}
use sd_jwt_rust.Error.Yields.{
  Yields, yields, fails, stops, Yields-self, Yields-weaken, Yields-bind, Yields-ensure,
  Yields-ok_or,
}
use sd_jwt_rust.Json.{
  Value, Items, Members, null, bool, number, string, array, object, nil, cons, empty, member, get,
  contains_key, insert, length_members, as_str, as_array,
}
use sd_jwt_rust.Reserved.{sd_digests_key, sd_list_prefix, is_reserved}
use sd_jwt_rust.Verifier.Unpack.{
  Stateful, record_digest, enter_processed_container, object_parts, array_part, keep,
  as_placeholder, unpack_array_disclosure, unpack_from_digest, unpack_element, unpack_items,
  unpack_disclosed_claims_in_array, unpack_object_disclosure, unpack_from_digests, unpack_members,
  unpack_digests_member, unpack_disclosed_claims_in_object, unpack_value, unpack_disclosed_claims,
}
use sd_jwt_rust.Verifier.Unpack.Reveals.{
  Reveals, RevealsItems, RevealsMembers, RevealsDigests, null_itself, bool_itself, number_itself,
  string_itself, elements, members, end_of_items, clear_item, disclosed_item, withheld_item,
  end_of_members, structural_member, clear_member, end_of_digests, withheld_member,
  disclosed_member, is_structural, digests_of, placeholder, as_array-some, as_str-some,
  array_part-some, object_parts-some, only_member,
}

-- What an array element's digest shows, by the disclosure that it refers to.
abbrev Shows : HashMap Value → Option Value → Option Value → Type 0
Shows hashes o none = o ≡ none
Shows hashes o (some w) =
    (salt : Value) × (value : Value) × (o ≡ some (array (cons salt (cons value nil))))
    × Reveals hashes value w

-- An element and its outcome, in front of the others and theirs.
abbrev Prepends : HashMap Value → Value → Option Value → Type 0
Prepends hashes v o =
    (xs ys : Items) → RevealsItems hashes xs ys → RevealsItems hashes (cons v xs) (keep o ys)

module _ (hashes : HashMap Value) (unpack : Value → ℕ → List String → Stateful Value) (d : ℕ)
    (rec : (v : Value) (seen : List String)
      → Yields (λ r. Reveals hashes v r.0) (unpack v d seen)) where
  array_disclosure :
      (o : Option Value) (seen : List String)
      → Yields (λ r. Shows hashes o r.0) (unpack_array_disclosure hashes unpack o d seen)
  unfolding unpack_array_disclosure
  array_disclosure none seen = yields refl
  array_disclosure (some w) seen = Yields-ok_or (as_array w) _ (λ disclosure is_array.
      Yields-ok_or (array_part disclosure) _ (λ value part.
        let (salt, parts) = array_part-some disclosure part in
        Yields-bind (rec value seen) (λ r shown.
          yields (salt, value, ap some (as_array-some w is_array ∙ ap array parts), shown))))

  shown_item :
      (digest : String) (o : Option Value)
      → Shows hashes (lookup digest hashes) o
      → Prepends hashes (placeholder digest) o
  unfolding keep
  shown_item digest none h xs ys rest = withheld_item digest h rest
  shown_item digest (some w) (salt, value, there, shown) xs ys rest =
      disclosed_item digest salt there shown rest

  from_digest :
      (digest : Value) (seen : List String)
      → Yields
          (λ r. Prepends hashes (object (member sd_list_prefix digest empty)) r.0)
          (unpack_from_digest hashes unpack digest d seen)
  unfolding unpack_from_digest
  from_digest digest seen = Yields-ok_or (as_str digest) _ (λ text is_text.
      Yields-bind (Yields-self (record_digest text seen)) (λ seen' _.
        Yields-weaken (array_disclosure (lookup text hashes) seen') (λ r h.
          subst (λ v. Prepends hashes (object (member sd_list_prefix v empty)) r.0)
            (sym (as_str-some digest is_text)) (shown_item text r.0 h))))

  clear_element :
      (v : Value) (seen : List String)
      → as_placeholder v ≡ none
      → Yields (λ r. Prepends hashes v r.0) (unpack_element hashes unpack v none d seen)
  unfolding unpack_element keep
  clear_element v seen e =
      Yields-bind (rec v seen) (λ r h. yields (λ xs ys rest. clear_item e h rest))

  placeholder_element :
      (m : Members) (seen : List String)
      → contains_key m sd_list_prefix ≡ true
      → Yields
          (λ r. Prepends hashes (object m) r.0)
          (unpack_element hashes unpack (object m) (some m) d seen)
  unfolding unpack_element
  placeholder_element m seen e = Yields-ensure (not (ltb 1 (length_members m))) _ (λ single.
      let (digest, is_member) = only_member sd_list_prefix m (not-elim _ single) e in
      rw is_member (from_digest digest seen))

  element :
      (v : Value) (seen : List String)
      → Yields
          (λ r. Prepends hashes v r.0)
          (unpack_element hashes unpack v (as_placeholder v) d seen)
  unfolding as_placeholder
  element (object m) seen = elim (Bool-cases (contains_key m sd_list_prefix)) [
    | inl e ↦ rw e (placeholder_element m seen e)
    | inr e ↦ rw e (clear_element (object m) seen (rw e refl))
  ]
  element null seen = clear_element null seen refl
  element (bool b) seen = clear_element (bool b) seen refl
  element (number n) seen = clear_element (number n) seen refl
  element (string s) seen = clear_element (string s) seen refl
  element (array xs) seen = clear_element (array xs) seen refl

  items :
      (arr : Items) (seen : List String)
      → Yields (λ r. RevealsItems hashes arr r.0) (unpack_items hashes unpack arr d seen)
  unfolding unpack_items
  items nil seen = yields end_of_items
  items (cons v arr) seen =
      Yields-bind (element v seen)
        (λ r h. Yields-bind (items arr r.1) (λ s k. yields (h arr s.0 k)))

  in_array :
      (arr : Items) (seen : List String)
      → Yields
          (λ r. Reveals hashes (array arr) r.0)
          (unpack_disclosed_claims_in_array hashes unpack arr d seen)
  unfolding unpack_disclosed_claims_in_array
  in_array nil seen = fails _
  in_array (cons v arr) seen = Yields-bind (items (cons v arr) seen) (λ r h. yields (elements h))

  clear_members :
      (output m : Members) (seen : List String)
      → Yields
          (λ r. RevealsMembers hashes output m r.0)
          (unpack_members hashes unpack output m d seen)
  unfolding unpack_members
  clear_members output empty seen = yields end_of_members
  clear_members output (member k v m) seen = elim (Bool-cases (is_structural k)) [
    | inl e ↦ rw e (Yields-weaken (clear_members output m seen) (λ r h. structural_member k v e h))
    | inr e ↦ rw e (
        Yields-bind (rec v seen) (λ r h.
          Yields-weaken (clear_members (insert k r.0 output) m r.1)
            (λ s rest. clear_member k e h rest)))
  ]

  -- What the first digest of a list adds to the members.
  abbrev Adds : Members → String → Option Value → Members → Type 0
  Adds output digest o added =
      (digests : Items) (claims : Members)
      → lookup digest hashes ≡ o
      → RevealsDigests hashes added digests claims
      → RevealsDigests hashes output (cons (string digest) digests) claims

  object_disclosure :
      (output : Members) (digest : String) (o : Option Value) (seen : List String)
      → Yields
          (λ r. Adds output digest o r.0)
          (unpack_object_disclosure hashes unpack output o d seen)
  unfolding unpack_object_disclosure
  object_disclosure output digest none seen =
      yields (λ digests claims there rest. withheld_member digest there rest)
  object_disclosure output digest (some w) seen =
      Yields-ok_or (as_array w) _ (λ disclosure is_array.
        Yields-ok_or (object_parts disclosure) _ (λ (name, value) parts.
          Yields-ok_or (as_str name) _ (λ key is_text.
            Yields-ensure (not (is_reserved key)) _ (λ unreserved.
              Yields-ensure (not (contains_key output key)) _ (λ new.
                let (salt, three) = object_parts-some disclosure parts in
                Yields-bind (rec value seen) (λ r shown. yields (λ digests claims there rest.
                  disclosed_member digest key salt
                    (there
                      ∙ ap some (
                          as_array-some w is_array
                          ∙ ap array (
                              three
                              ∙ ap (λ n. cons salt (cons n (cons value nil)))
                                  (as_str-some name is_text))))
                    (not-elim _ unreserved) (not-elim _ new) shown rest)))))))

  from_digests :
      (output : Members) (digests : Items) (seen : List String)
      → Yields
          (λ r. RevealsDigests hashes output digests r.0)
          (unpack_from_digests hashes unpack output digests d seen)
  unfolding unpack_from_digests
  from_digests output nil seen = yields end_of_digests
  from_digests output (cons digest digests) seen = Yields-ok_or (as_str digest) _ (λ text is_text.
      Yields-bind (Yields-self (record_digest text seen)) (λ seen' _.
        Yields-bind (object_disclosure output text (lookup text hashes) seen') (λ r added.
          Yields-weaken (from_digests r.0 digests r.1) (λ s rest.
            subst (λ v. RevealsDigests hashes output (cons v digests) s.0)
              (sym (as_str-some digest is_text)) (added digests s.0 refl rest)))))

  digests_member :
      (output : Members) (o : Option Value) (seen : List String)
      → Yields
          (λ r. RevealsDigests hashes output (digests_of o) r.0)
          (unpack_digests_member hashes unpack output o d seen)
  unfolding unpack_digests_member
  digests_member output (some (array digests)) seen = from_digests output digests seen
  digests_member output none seen = yields end_of_digests
  digests_member output (some null) seen = yields end_of_digests
  digests_member output (some (bool b)) seen = yields end_of_digests
  digests_member output (some (number n)) seen = yields end_of_digests
  digests_member output (some (string s)) seen = yields end_of_digests
  digests_member output (some (object m)) seen = yields end_of_digests

  in_object :
      (m : Members) (seen : List String)
      → Yields
          (λ r. Reveals hashes (object m) r.0)
          (unpack_disclosed_claims_in_object hashes unpack m d seen)
  unfolding unpack_disclosed_claims_in_object
  in_object m seen = Yields-bind (clear_members empty m seen) (λ r clear.
      Yields-bind (digests_member r.0 (get sd_digests_key m) r.1)
        (λ s hidden. yields (members clear hidden)))

-- Unpacked claims are what the disclosures reveal of the value: at each depth the claims in the
-- clear, without the markup, and the values of the disclosures that its digests refer to, under
-- their names or at their places, unpacked themselves.
pub unpack_disclosed_claims-Reveals :
    (hashes : HashMap Value) (fuel : ℕ) (v : Value) (d : ℕ) (seen : List String)
    → Yields (λ r. Reveals hashes v r.0) (unpack_disclosed_claims hashes fuel v d seen)
unfolding unpack_disclosed_claims unpack_value
unpack_disclosed_claims-Reveals hashes zero v d seen = stops
unpack_disclosed_claims-Reveals hashes (suc fuel) (array arr) d seen =
    Yields-bind (Yields-self (enter_processed_container d)) (λ deeper _.
      in_array hashes (unpack_disclosed_claims hashes fuel) deeper
        (λ v seen. unpack_disclosed_claims-Reveals hashes fuel v deeper seen) arr seen)
unpack_disclosed_claims-Reveals hashes (suc fuel) (object m) d seen =
    Yields-bind (Yields-self (enter_processed_container d)) (λ deeper _.
      in_object hashes (unpack_disclosed_claims hashes fuel) deeper
        (λ v seen. unpack_disclosed_claims-Reveals hashes fuel v deeper seen) m seen)
unpack_disclosed_claims-Reveals hashes (suc fuel) null d seen = yields null_itself
unpack_disclosed_claims-Reveals hashes (suc fuel) (bool b) d seen = yields (bool_itself b)
unpack_disclosed_claims-Reveals hashes (suc fuel) (number n) d seen = yields (number_itself n)
unpack_disclosed_claims-Reveals hashes (suc fuel) (string s) d seen = yields (string_itself s)
