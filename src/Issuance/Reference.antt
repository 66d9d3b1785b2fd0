-- ===== src/Issuance/Reference.antt =====
-- What an issuance is to produce, without jobs, identities or a registry: one walk over the claims
-- that draws the salts and replaces each claim by its digest where the strategy says so.
use sd_jwt_rust.Prelude.{ℕ, zero, suc, String, Bool, true, false, none, some, List, [], ◌∷◌, ◌++◌}
use sd_jwt_rust.Json.{
  Value, Items, Members, null, bool, number, string, array, object, nil, cons, empty, member,
  insert,
}
use sd_jwt_rust.Text.{as_bytes}
use sd_jwt_rust.Codec.{Codec, base64_hash}
use sd_jwt_rust.Reserved.{sd_digests_key}
use sd_jwt_rust.Disclosure.{SdJwtDisclosure, new_with_salt}
use sd_jwt_rust.Strategy.{ClaimsForSelectiveDisclosureStrategy, next_level, sd_for_key}
use sd_jwt_rust.Plan.{RandomSource, decoy_min_elements, decoy_max_elements}
use sd_jwt_rust.Issuance.{array_key}
use sd_jwt_rust.Issuance.Assembly.{publish_digests, list_digest}

module _ (c : Codec) (source : RandomSource) where
  -- A value, the disclosures made for it in order, and the random source behind it.
  abbrev pub Concealed : Type 0 → Type 0
  Concealed A = A × List SdJwtDisclosure × source.State

  unfoldable pub conceal_element : Bool → Value → source.State → Concealed Value
  conceal_element false claim random = (claim, [], random)
  conceal_element true claim random =
      let (salt, random₁) = source.disclosure_salt random in
      let disclosure = new_with_salt c none (c.to_string claim) salt in
      (list_digest disclosure.hash, disclosure ∷ [], random₁)

  unfoldable pub conceal_member :
      Bool
      → String
      → Members × List String
      → Value
      → source.State
      → Concealed (Members × List String)
  conceal_member false key (claims, digests) claim random =
      ((insert key claim claims, digests), [], random)
  conceal_member true key (claims, digests) claim random =
      let (salt, random₁) = source.disclosure_salt random in
      let disclosure = new_with_salt c (some key) (c.to_string claim) salt in
      ((claims, digests ++ disclosure.hash ∷ []), disclosure ∷ [], random₁)

  unfoldable pub draw_decoys : ℕ → List String → source.State → Concealed (List String)
  draw_decoys zero digests random = (digests, [], random)
  draw_decoys (suc count) digests random =
      let (salt, random₁) = source.decoy_salt random in
      draw_decoys count (digests ++ base64_hash c (as_bytes salt) ∷ []) random₁

  unfoldable pub add_decoys : Bool → List String → source.State → Concealed (List String)
  unfolding draw_decoys
  add_decoys false digests random = (digests, [], random)
  add_decoys true digests random =
      let (count, random₁) = source.decoy_count decoy_min_elements decoy_max_elements random in
      draw_decoys count digests random₁

  module _ (add_decoy_claims : Bool) where
    unfoldable mutual
      unfolding conceal_element conceal_member add_decoys

      pub conceal : Value → ClaimsForSelectiveDisclosureStrategy → source.State → Concealed Value
      conceal null strategy random = (null, [], random)
      conceal (bool b) strategy random = (bool b, [], random)
      conceal (number n) strategy random = (number n, [], random)
      conceal (string s) strategy random = (string s, [], random)
      conceal (array values) strategy random =
          let (claims, made, random₁) = conceal_items values 0 strategy random in
          (array claims, made, random₁)
      conceal (object values) strategy random =
          let ((claims, digests), made, random₁) =
            conceal_members values strategy (insert sd_digests_key null empty, []) random in
          let (digests₁, made₁, random₂) = add_decoys add_decoy_claims digests random₁ in
          (object (publish_digests claims digests₁), made ++ made₁, random₂)

      pub conceal_items :
          Items → ℕ → ClaimsForSelectiveDisclosureStrategy → source.State → Concealed Items
      conceal_items nil index strategy random = (nil, [], random)
      conceal_items (cons value values) index strategy random =
          let (claim, made, random₁) =
            conceal value (next_level strategy (array_key index)) random in
          let (entry, made₁, random₂) =
            conceal_element (sd_for_key strategy (array_key index)) claim random₁ in
          let (entries, made₂, random₃) = conceal_items values (suc index) strategy random₂ in
          (cons entry entries, (made ++ made₁) ++ made₂, random₃)

      pub conceal_members :
          Members
          → ClaimsForSelectiveDisclosureStrategy
          → Members × List String
          → source.State
          → Concealed (Members × List String)
      conceal_members empty strategy published random = (published, [], random)
      conceal_members (member key value values) strategy published random =
          let (claim, made, random₁) = conceal value (next_level strategy key) random in
          let (published₁, made₁, random₂) =
            conceal_member (sd_for_key strategy key) key published claim random₁ in
          let (published₂, made₂, random₃) = conceal_members values strategy published₁ random₂ in
          (published₂, (made ++ made₁) ++ made₂, random₃)
