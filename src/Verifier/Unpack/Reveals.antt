-- ===== src/Verifier/Unpack/Reveals.antt =====
-- What the unpacking of src/verifier.rs gives back, described without fuel, depth or the set of
-- digests: which claims the presented disclosures reveal.
use sd_jwt_rust.Prelude.{
  String, ◌≡◌, ap, Bool, true, false, ◌||◌, Option, none, some, ◌==◌, ltb, arith, eq_iff,
}
use sd_jwt_rust.Prelude.Maps.{HashMap, lookup}
use sd_jwt_rust.Json.{
  Value, Items, Members, null, bool, number, string, array, object, nil, cons, empty, member, get,
  contains_key, insert, length_members, as_str, as_array,
}
use sd_jwt_rust.Reserved.{sd_digests_key, digest_alg_key, sd_list_prefix, is_reserved}
use sd_jwt_rust.Verifier.Unpack.{object_parts, array_part, as_placeholder}

abbrev pub is_structural : String → Bool
is_structural k = k == sd_digests_key || k == digest_alg_key

-- The digests that stand under `_sd`.
abbrev pub digests_of : Option Value → Items
digests_of (some (array digests)) = digests
digests_of _ = nil

-- `{ "...": digest }`.
abbrev pub placeholder : String → Value
placeholder digest = object (member sd_list_prefix (string digest) empty)

mutual
  -- A value, and what is revealed of it. A digest that no disclosure has reveals nothing.
  pub data Reveals (hashes : HashMap Value) : Value → Value → Type 0 where
    null_itself : Reveals hashes null null
    bool_itself : (b : Bool) → Reveals hashes (bool b) (bool b)
    number_itself : (n : String) → Reveals hashes (number n) (number n)
    string_itself : (s : String) → Reveals hashes (string s) (string s)
    elements : {xs ys : Items} → RevealsItems hashes xs ys → Reveals hashes (array xs) (array ys)
    members :
        {m clear claims : Members}
        → RevealsMembers hashes empty m clear
        → RevealsDigests hashes clear (digests_of (get sd_digests_key m)) claims
        → Reveals hashes (object m) (object claims)

  pub data RevealsItems (hashes : HashMap Value) : Items → Items → Type 0 where
    end_of_items : RevealsItems hashes nil nil
    clear_item :
        {v w : Value} {xs ys : Items}
        → as_placeholder v ≡ none
        → Reveals hashes v w
        → RevealsItems hashes xs ys
        → RevealsItems hashes (cons v xs) (cons w ys)
    disclosed_item :
        {xs ys : Items} {value w : Value} (digest : String) (salt : Value)
        → lookup digest hashes ≡ some (array (cons salt (cons value nil)))
        → Reveals hashes value w
        → RevealsItems hashes xs ys
        → RevealsItems hashes (cons (placeholder digest) xs) (cons w ys)
    withheld_item :
        {xs ys : Items} (digest : String)
        → lookup digest hashes ≡ none
        → RevealsItems hashes xs ys
        → RevealsItems hashes (cons (placeholder digest) xs) ys

  -- The members in the clear go to those of the first object, but for `_sd` and `_sd_alg`.
  pub data RevealsMembers (hashes : HashMap Value) : Members → Members → Members → Type 0 where
    end_of_members : {output : Members} → RevealsMembers hashes output empty output
    structural_member :
        {output claims m : Members} (k : String) (v : Value)
        → is_structural k ≡ true
        → RevealsMembers hashes output m claims
        → RevealsMembers hashes output (member k v m) claims
    clear_member :
        {output claims m : Members} {v w : Value} (k : String)
        → is_structural k ≡ false
        → Reveals hashes v w
        → RevealsMembers hashes (insert k w output) m claims
        → RevealsMembers hashes output (member k v m) claims

  -- The disclosures that digests refer to go to the members under their names, which are new there.
  pub data RevealsDigests (hashes : HashMap Value) : Members → Items → Members → Type 0 where
    end_of_digests : {output : Members} → RevealsDigests hashes output nil output
    withheld_member :
        {output claims : Members} {digests : Items} (digest : String)
        → lookup digest hashes ≡ none
        → RevealsDigests hashes output digests claims
        → RevealsDigests hashes output (cons (string digest) digests) claims
    disclosed_member :
        {output claims : Members} {digests : Items} {value w : Value} (digest name : String)
        (salt : Value)
        → lookup digest hashes ≡ some (array (cons salt (cons (string name) (cons value nil))))
        → is_reserved name ≡ false
        → contains_key output name ≡ false
        → Reveals hashes value w
        → RevealsDigests hashes (insert name w output) digests claims
        → RevealsDigests hashes output (cons (string digest) digests) claims

pub as_array-some : (v : Value) {xs : Items} → as_array v ≡ some xs → v ≡ array xs
as_array-some null h = cc
as_array-some (bool b) h = cc
as_array-some (number n) h = cc
as_array-some (string s) h = cc
as_array-some (array xs) h = cc
as_array-some (object m) h = cc

pub as_str-some : (v : Value) {s : String} → as_str v ≡ some s → v ≡ string s
as_str-some null h = cc
as_str-some (bool b) h = cc
as_str-some (number n) h = cc
as_str-some (string s) h = cc
as_str-some (array xs) h = cc
as_str-some (object m) h = cc

pub array_part-some :
    (xs : Items) {value : Value}
    → array_part xs ≡ some value
    → (salt : Value) × (xs ≡ cons salt (cons value nil))
unfolding array_part
array_part-some nil h = cc
array_part-some (cons a nil) h = cc
array_part-some (cons a (cons b nil)) h = (a, cc)
array_part-some (cons a (cons b (cons c xs))) h = cc

pub object_parts-some :
    (xs : Items) {name value : Value}
    → object_parts xs ≡ some (name, value)
    → (salt : Value) × (xs ≡ cons salt (cons name (cons value nil)))
unfolding object_parts
object_parts-some nil h = cc
object_parts-some (cons a nil) h = cc
object_parts-some (cons a (cons b nil)) h = cc
object_parts-some (cons a (cons b (cons c nil))) h = (a, cc)
object_parts-some (cons a (cons b (cons c (cons d xs)))) h = cc

-- An object of one member at most that has a key is that member.
pub only_member :
    (k : String) (m : Members)
    → ltb 1 (length_members m) ≡ false
    → contains_key m k ≡ true
    → (v : Value) × (m ≡ member k v empty)
only_member k empty h c = cc
only_member k (member j v empty) h c =
    (v, ap (λ i. member i v empty) ((eq_iff j k).0 (ground arith)))
only_member k (member j v (member i w m)) h c = ground arith
