-- ===== src/Holder/Selection.antt =====
-- `select_disclosures` and `select_disclosures_from_disclosed_list` of src/holder.rs, and
-- `create_presentation`, which uses them. The recursion follows the claims that are to be disclosed.
pub mod Held
use sd_jwt_rust.Prelude.{
  ℕ, zero, suc, String, Bool, true, false, Option, none, some, List, [], ◌∷◌, ◌++◌, ◌==◌,
  if◌then◌else◌,
}
use sd_jwt_rust.Prelude.Maps.{HashMap, lookup}
use sd_jwt_rust.Prelude.Maps
use sd_jwt_rust.Error.{Result, ok, err, or_panic, ◌>>=◌, ok_or, conversion_error, invalid_state}
use sd_jwt_rust.Json.{
  Value, Items, Members, null, bool, number, string, array, object, nil, cons, empty, member, get,
  contains_key, as_str, as_array, as_object,
}
use sd_jwt_rust.Codec.{Codec}
use sd_jwt_rust.Policy.{object_at}
use sd_jwt_rust.Common.{and_then}
use sd_jwt_rust.Reserved.{sd_digests_key, sd_list_prefix}
use sd_jwt_rust.Holder.{SdJwtHolder, render_presentation}

unfoldable pub item_at : ℕ → Items → Option Value
item_at n nil = none
item_at zero (cons v xs) = some v
item_at (suc n) (cons v xs) = item_at n xs

-- `value[n]` of `serde_json`, which is null where there is nothing.
unfoldable pub value_at : ℕ → Value → Value
unfolding item_at
value_at n (array xs) = elim (item_at n xs) [ none ↦ null | some v ↦ v ]
value_at n _ = null

abbrev pub SdMap : Type 0
SdMap = HashMap (Value × String)

unfoldable pub add_entry : SdMap → Option String → Value → String → SdMap
add_entry m none disclosure digest = m
add_entry m (some key) disclosure digest = Maps.insert key (value_at 2 disclosure, digest) m

-- An array element's digest: the text under `...`.
unfoldable pub text_of : Option Value → Option String
text_of (some (string s)) = some s
text_of _ = none

unfoldable pub array_at : String → Members → Option Items
array_at k m = and_then (get k m) as_array

-- A disclosed text in front of others.
unfoldable pub then_own : Result String → Result (List String) → Result (List String)
then_own own below = do d ← own; rest ← below; ok (d ∷ rest)

module _ (hash_to_decoded_disclosure : HashMap Value) (hash_to_disclosure : HashMap String) where
  unfoldable pub sd_entries : Items → SdMap → SdMap
  unfolding add_entry value_at
  sd_entries nil m = m
  sd_entries (cons digest digests) m = sd_entries digests (elim (as_str digest) [
    | none ↦ m
    | some d ↦ elim (lookup d hash_to_decoded_disclosure) [
      | none ↦ m
      | some disclosure ↦ add_entry m (as_str (value_at 1 disclosure)) disclosure d
    ]
  ])

  unfoldable pub sd_map : Members → SdMap
  unfolding sd_entries array_at
  sd_map sd_jwt_claims = elim (array_at sd_digests_key sd_jwt_claims) [
    | none ↦ []
    | some digests ↦ sd_entries digests []
  ]

  -- What is disclosed of the claim itself: nothing where it stands in the clear, else its disclosure.
  unfoldable pub own_disclosure : Members → String → Result (List String)
  unfolding sd_map
  own_disclosure sd_jwt_claims key =
      if contains_key sd_jwt_claims key then ok [] else elim (lookup key (sd_map sd_jwt_claims)) [
        | none ↦ err (invalid_state "Requested claim doesn't exist")
        | some entry ↦ or_panic (lookup entry.1 hash_to_disclosure) >>= (λ d. ok (d ∷ []))
      ]

  -- The array that a requested array selects from, in the clear or disclosed.
  unfoldable pub selected_array : Members → String → Option Items
  unfolding sd_map array_at
  selected_array sd_jwt_claims key = elim (array_at key sd_jwt_claims) [
    | some xs ↦ some xs
    | none ↦ and_then (lookup key (sd_map sd_jwt_claims)) (λ entry. as_array entry.0)
  ]

  unfoldable pub selected_object : Members → String → Result Members
  unfolding sd_map
  selected_object sd_jwt_claims key = elim (object_at key sd_jwt_claims) [
    | some next ↦ ok next
    | none ↦
        or_panic (lookup key (sd_map sd_jwt_claims))
        >>= (λ entry. ok_or (as_object entry.0) (conversion_error "json object"))
  ]

  unfoldable pub in_array : Option Items → (Items → Result (List String)) → Result (List String)
  in_array none select = ok []
  in_array (some xs) select = select xs

  unfoldable pub raw_disclosure : String → Result String
  raw_disclosure digest = or_panic (lookup digest hash_to_disclosure)

  unfoldable pub second_element : String → Result (Option Value)
  unfolding item_at
  second_element digest = do
    disclosure ← or_panic (lookup digest hash_to_decoded_disclosure)
    elements ← ok_or (as_array disclosure) (conversion_error "json array")
    ok (item_at 1 elements)

  unfoldable pub below_array :
      String → (Items → Result (List String)) → Option Value → Result (List String)
  unfolding then_own raw_disclosure
  below_array digest select (some (array xs)) = then_own (raw_disclosure digest) (select xs)
  below_array digest select _ = ok []

  unfoldable pub below_object :
      String → (Members → Result (List String)) → Option Value → Result (List String)
  unfolding then_own raw_disclosure
  below_object digest select (some (object m)) = then_own (raw_disclosure digest) (select m)
  below_object digest select _ = ok []

  -- An element of the list, for a request that is true, an array, an object, or anything else.
  unfoldable pub disclosed_element : Option String → Result (List String)
  unfolding raw_disclosure
  disclosed_element none = ok []
  disclosed_element (some digest) = raw_disclosure digest >>= (λ d. ok (d ∷ []))

  unfoldable pub array_element :
      (Items → Result (List String)) → Option String → Result (List String)
  unfolding below_array second_element
  array_element select none = ok []
  array_element select (some digest) = second_element digest >>= below_array digest select

  unfoldable pub object_element :
      (Members → Result (List String)) → Members → Option String → Result (List String)
  unfolding below_object second_element
  object_element select m none = select m
  object_element select m (some digest) = second_element digest >>= below_object digest select

  unfoldable pub other_element : Option String → Result (List String)
  unfolding second_element
  other_element none = ok []
  other_element (some digest) = second_element digest >>= (λ _. ok [])

  unfoldable mutual
    unfolding in_array selected_array selected_object own_disclosure disclosed_element array_element
        object_element other_element text_of

    pub select_disclosures : Members → Members → Result (List String)
    select_disclosures empty sd_jwt_claims = ok []
    select_disclosures (member key value claims) sd_jwt_claims = do
      chosen ← select_claim value key sd_jwt_claims
      rest ← select_disclosures claims sd_jwt_claims
      ok (chosen ++ rest)

    -- One requested claim: what it selects below, and its own disclosure.
    pub select_claim : Value → String → Members → Result (List String)
    select_claim null key sd_jwt_claims = ok []
    select_claim (bool false) key sd_jwt_claims = ok []
    select_claim (bool true) key sd_jwt_claims = own_disclosure sd_jwt_claims key
    select_claim (number n) key sd_jwt_claims = own_disclosure sd_jwt_claims key
    select_claim (string s) key sd_jwt_claims = own_disclosure sd_jwt_claims key
    select_claim (array xs) key sd_jwt_claims = do
      below ←
          in_array (selected_array sd_jwt_claims key) (select_disclosures_from_disclosed_list xs)
      own ← own_disclosure sd_jwt_claims key
      ok (below ++ own)
    select_claim (object empty) key sd_jwt_claims = own_disclosure sd_jwt_claims key
    select_claim (object (member k v m)) key sd_jwt_claims = do
      next ← selected_object sd_jwt_claims key
      below ← select_disclosures (member k v m) next
      own ← own_disclosure sd_jwt_claims key
      ok (below ++ own)

    -- The two lists are read side by side, as far as both go.
    pub select_disclosures_from_disclosed_list : Items → Items → Result (List String)
    select_disclosures_from_disclosed_list nil sd_jwt_claims = ok []
    select_disclosures_from_disclosed_list (cons claim claims) nil = ok []
    select_disclosures_from_disclosed_list (cons claim claims) (cons sd_claim sd_claims) = do
      chosen ← select_element claim sd_claim
      rest ← select_disclosures_from_disclosed_list claims sd_claims
      ok (chosen ++ rest)

    pub select_element : Value → Value → Result (List String)
    select_element (bool true) (object m) = disclosed_element (text_of (get sd_list_prefix m))
    select_element (array xs) (object m) =
        array_element (select_disclosures_from_disclosed_list xs) (text_of (get sd_list_prefix m))
    select_element (object c) (object m) =
        object_element (select_disclosures c) m (text_of (get sd_list_prefix m))
    select_element (array xs) (array ys) = select_disclosures_from_disclosed_list xs ys
    select_element _ (object m) = other_element (text_of (get sd_list_prefix m))
    select_element _ _ = ok []

-- `create_presentation`: the selected disclosures replace those of an earlier presentation, and no
-- key-binding JWT is kept.
unfoldable pub create_presentation : Codec → SdJwtHolder → Members → Result (SdJwtHolder × String)
unfolding select_disclosures
create_presentation c self claims_to_disclose = do
  chosen ←
      select_disclosures self.sd_jwt_engine.hash_to_decoded_disclosure
        self.sd_jwt_engine.hash_to_disclosure claims_to_disclose self.sd_jwt_payload
  let self' = record self { hs_disclosures = chosen; serialized_key_binding_jwt = "" }
  presentation ← render_presentation c self'
  ok (self', presentation)
