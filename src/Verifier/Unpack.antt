-- ===== src/Verifier/Unpack.antt =====
-- The recursive unpacking of disclosed claims in src/verifier.rs, from `record_digest` to
-- `unpack_from_digest`, and `reject_nested_sd_alg`. The set of digests that `duplicate_hash_check`
-- holds is passed along as the list of the digests in the order in which they were met.
pub mod Clean
pub mod Level
pub mod Invariant
pub mod Plain
pub mod Reveals
pub mod Revealing
use sd_jwt_rust.Prelude.{
  ℕ, zero, suc, ◌+◌, ◌≤◌, String, Bool, true, false, not, ◌&&◌, ◌||◌, Option, none, some, List, [],
  ◌∷◌, ◌++◌, ◌==◌, ltb, if◌then◌else◌, contains,
}
use sd_jwt_rust.Prelude.Maps.{HashMap, lookup}
use sd_jwt_rust.Error.{
  Result, ok, err, out_of_fuel, ◌>>=◌, ◌>>◌, ensure, ok_or, or_panic, conversion_error,
  invalid_disclosure, data_field_mismatch, duplicate_digest_error, duplicate_key_error,
  duplicate_disclosure_digest, invalid_array_disclosure_object,
}
use sd_jwt_rust.Json.{
  Value, Items, Members, null, bool, number, string, array, object, nil, cons, empty, member, get,
  contains_key, insert, length_members, as_str, as_array,
}
use sd_jwt_rust.Reserved.{sd_digests_key, digest_alg_key, sd_list_prefix, is_reserved}

abbrev pub max_processed_sd_jwt_depth : ℕ
max_processed_sd_jwt_depth = 128

-- Each container that is entered counts once, and the call for one at the bound is the last.
abbrev pub unpack_fuel : ℕ
unpack_fuel = 129

-- What a step answers: its value, and the digests met so far.
abbrev pub Stateful {ℓ} : Type ℓ → Type ℓ
Stateful A = Result (A × List String)

unfoldable mutual
  pub reject_nested_sd_alg : Value → Result (Unit {0})
  reject_nested_sd_alg null = ok tt
  reject_nested_sd_alg (bool b) = ok tt
  reject_nested_sd_alg (number n) = ok tt
  reject_nested_sd_alg (string s) = ok tt
  reject_nested_sd_alg (array xs) = reject_items xs
  reject_nested_sd_alg (object m) = do
    ensure (not (contains_key m digest_alg_key))
        (data_field_mismatch "`_sd_alg` is only allowed at the top level of the SD-JWT payload")
    reject_values m

  pub reject_items : Items → Result (Unit {0})
  reject_items nil = ok tt
  reject_items (cons v xs) = reject_nested_sd_alg v >> reject_items xs

  pub reject_values : Members → Result (Unit {0})
  reject_values empty = ok tt
  reject_values (member k v m) = reject_nested_sd_alg v >> reject_values m

unfoldable pub record_digest : String → List String → Result (List String)
record_digest digest seen = do
  ensure (not (contains seen digest)) (duplicate_digest_error duplicate_disclosure_digest)
  ok (seen ++ digest ∷ [])

-- The checked addition cannot fail on a depth that was entered before.
unfoldable pub enter_processed_container : ℕ → Result ℕ
enter_processed_container processed_depth = do
  ensure (not (ltb max_processed_sd_jwt_depth (suc processed_depth)))
      (invalid_disclosure "Processed SD-JWT exceeds maximum supported nesting depth")
  ok (suc processed_depth)

-- The name and the value of a disclosure of three elements, and the value of one of two.
unfoldable pub object_parts : Items → Option (Value × Value)
object_parts (cons salt (cons name (cons value nil))) = some (name, value)
object_parts _ = none

unfoldable pub array_part : Items → Option Value
array_part (cons salt (cons value nil)) = some value
array_part _ = none

-- An array element that was disclosed or stands in the clear is kept, one that was not is dropped.
unfoldable pub keep : Option Value → Items → Items
keep none items = items
keep (some v) items = cons v items

-- `Value::Object(obj) if obj.contains_key(SD_LIST_PREFIX)`.
unfoldable pub as_placeholder : Value → Option Members
as_placeholder (object m) = if contains_key m sd_list_prefix then some m else none
as_placeholder _ = none

-- `hash_to_decoded_disclosure` is that of the engine, and `unpack` the recursive call.
module _ (hash_to_decoded_disclosure : HashMap Value)
    (unpack : Value → ℕ → List String → Stateful Value) where
  unfoldable pub unpack_array_disclosure : Option Value → ℕ → List String → Stateful (Option Value)
  unfolding array_part
  unpack_array_disclosure none processed_depth seen = ok (none, seen)
  unpack_array_disclosure (some value_for_digest) processed_depth seen = do
    disclosure ←
        ok_or (as_array value_for_digest)
          (invalid_array_disclosure_object "Array-element Disclosure must be a JSON array")
    value ← ok_or (array_part disclosure) (
        invalid_array_disclosure_object
          "Array-element Disclosure must be a 2-element array [salt, value]")
    (unpacked_value, seen') ← unpack value processed_depth seen
    ok (some unpacked_value, seen')

  unfoldable pub unpack_from_digest : Value → ℕ → List String → Stateful (Option Value)
  unfolding record_digest unpack_array_disclosure
  unpack_from_digest digest processed_depth seen = do
    digest' ← ok_or (as_str digest) (conversion_error "str")
    seen' ← record_digest digest' seen
    unpack_array_disclosure (lookup digest' hash_to_decoded_disclosure) processed_depth seen'

  unfoldable pub unpack_element : Value → Option Members → ℕ → List String → Stateful (Option Value)
  unfolding unpack_from_digest
  unpack_element value none processed_depth seen = do
    (claim, seen') ← unpack value processed_depth seen
    ok (some claim, seen')
  unpack_element value (some obj) processed_depth seen = do
    ensure (not (ltb 1 (length_members obj)))
        (invalid_disclosure "Disclosed claim object in an array maust contain only one key")
    digest ← or_panic (get sd_list_prefix obj)
    unpack_from_digest digest processed_depth seen

  unfoldable pub unpack_items : Items → ℕ → List String → Stateful Items
  unfolding unpack_element as_placeholder keep
  unpack_items nil processed_depth seen = ok (nil, seen)
  unpack_items (cons value arr) processed_depth seen = do
    (claim, seen') ← unpack_element value (as_placeholder value) processed_depth seen
    (claims, seen'') ← unpack_items arr processed_depth seen'
    ok (keep claim claims, seen'')

  unfoldable pub unpack_disclosed_claims_in_array : Items → ℕ → List String → Stateful Value
  unfolding unpack_items
  unpack_disclosed_claims_in_array nil processed_depth seen =
      err (invalid_array_disclosure_object "Array of disclosed claims cannot be empty")
  unpack_disclosed_claims_in_array (cons value arr) processed_depth seen = do
    (claims, seen') ← unpack_items (cons value arr) processed_depth seen
    ok (array claims, seen')

  unfoldable pub unpack_object_disclosure :
      Members → Option Value → ℕ → List String → Stateful Members
  unfolding object_parts
  unpack_object_disclosure pre_output none processed_depth seen = ok (pre_output, seen)
  unpack_object_disclosure pre_output (some value_for_digest) processed_depth seen = do
    disclosure ←
        ok_or (as_array value_for_digest)
          (invalid_array_disclosure_object "Object-property Disclosure must be a JSON array")
    (name, value) ← ok_or (object_parts disclosure) (
        invalid_disclosure
          "Object-property Disclosure must be a 3-element array [salt, name, value]")
    key ← ok_or (as_str name) (conversion_error "str")
    ensure (not (is_reserved key)) (
        invalid_disclosure "Disclosure claim name must not use a reserved SD-JWT structural marker")
    ensure (not (contains_key pre_output key)) (duplicate_key_error "Duplicate disclosed claim")
    (unpacked_value, seen') ← unpack value processed_depth seen
    ok (insert key unpacked_value pre_output, seen')

  unfoldable pub unpack_from_digests : Members → Items → ℕ → List String → Stateful Members
  unfolding record_digest unpack_object_disclosure
  unpack_from_digests pre_output nil processed_depth seen = ok (pre_output, seen)
  unpack_from_digests pre_output (cons digest digests) processed_depth seen = do
    digest' ← ok_or (as_str digest) (conversion_error "str")
    seen' ← record_digest digest' seen
    (pre_output', seen'') ←
        unpack_object_disclosure pre_output (lookup digest' hash_to_decoded_disclosure)
          processed_depth seen'
    unpack_from_digests pre_output' digests processed_depth seen''

  -- The members in the clear: all but `_sd` and `_sd_alg`.
  unfoldable pub unpack_members : Members → Members → ℕ → List String → Stateful Members
  unpack_members disclosed_claims empty processed_depth seen = ok (disclosed_claims, seen)
  unpack_members disclosed_claims (member key value m) processed_depth seen =
      let skipped = unpack_members disclosed_claims m processed_depth seen in
      let unpacked =
        unpack value processed_depth seen
        >>= (λ r. unpack_members (insert key r.0 disclosed_claims) m processed_depth r.1) in
      if key == sd_digests_key || key == digest_alg_key then skipped else unpacked

  unfoldable pub unpack_digests_member : Members → Option Value → ℕ → List String → Stateful Members
  unfolding unpack_from_digests
  unpack_digests_member disclosed_claims (some (array digests)) processed_depth seen =
      unpack_from_digests disclosed_claims digests processed_depth seen
  unpack_digests_member disclosed_claims _ processed_depth seen = ok (disclosed_claims, seen)

  unfoldable pub unpack_disclosed_claims_in_object : Members → ℕ → List String → Stateful Value
  unfolding unpack_members unpack_digests_member
  unpack_disclosed_claims_in_object nested_sd_jwt_claims processed_depth seen = do
    (clear_claims, seen') ← unpack_members empty nested_sd_jwt_claims processed_depth seen
    (disclosed_claims, seen'') ←
        unpack_digests_member clear_claims (get sd_digests_key nested_sd_jwt_claims) processed_depth
          seen'
    ok (object disclosed_claims, seen'')

  unfoldable pub unpack_value : Value → ℕ → List String → Stateful Value
  unfolding enter_processed_container unpack_disclosed_claims_in_array
      unpack_disclosed_claims_in_object
  unpack_value (array arr) processed_depth seen = do
    processed_depth' ← enter_processed_container processed_depth
    unpack_disclosed_claims_in_array arr processed_depth' seen
  unpack_value (object obj) processed_depth seen = do
    processed_depth' ← enter_processed_container processed_depth
    unpack_disclosed_claims_in_object obj processed_depth' seen
  unpack_value claims processed_depth seen = ok (claims, seen)

module _ (hash_to_decoded_disclosure : HashMap Value) where
  -- A disclosure may hold the digest of another, so that the depth, not the value, bounds the
  -- recursion.
  unfoldable pub unpack_disclosed_claims : ℕ → Value → ℕ → List String → Stateful Value
  unfolding unpack_value
  unpack_disclosed_claims zero claims processed_depth seen = out_of_fuel
  unpack_disclosed_claims (suc fuel) claims processed_depth seen =
      unpack_value hash_to_decoded_disclosure (unpack_disclosed_claims fuel) claims processed_depth
        seen
