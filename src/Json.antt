-- ===== src/Json.antt =====
-- JSON values as `serde_json` holds them with its `preserve_order` feature: an object is a list of
-- members in insertion order, with each key once.
use sd_jwt_rust.Prelude.{
  ℕ, suc, String, ◌≡◌, refl, Bool, true, false, not, ◌&&◌, Option, none, some, List, [], ◌∷◌, arith,
  ◌==◌, eq_iff, if◌then◌else◌,
}

-- A number is held by its printed text: the code compares and prints numbers, and never computes
-- with one.
mutual
  pub data Value : Type 0 where
    null : Value
    bool : Bool → Value
    number string : String → Value
    array : Items → Value
    object : Members → Value

  pub data Items : Type 0 where
    nil : Items
    cons : Value → Items → Items

  pub data Members : Type 0 where
    empty : Members
    member : String → Value → Members → Members

abbrev pub get : String → Members → Option Value
get k empty = none
get k (member j v m) = if j == k then some v else get k m

abbrev pub contains_key : Members → String → Bool
contains_key empty k = false
contains_key (member j v m) k = if j == k then true else contains_key m k

-- `Map::insert`: the value at a present key is replaced where it stands, a new key goes last.
abbrev pub insert : String → Value → Members → Members
insert k v empty = member k v empty
insert k v (member j w m) = if j == k then member j v m else member j w (insert k v m)

-- `Map::shift_remove`: the members behind the removed one keep their order.
abbrev pub shift_remove : String → Members → Members
shift_remove k empty = empty
shift_remove k (member j w m) = if j == k then m else member j w (shift_remove k m)

abbrev pub length_members : Members → ℕ
length_members empty = 0
length_members (member k v m) = suc (length_members m)

abbrev pub as_str : Value → Option String
as_str (string s) = some s
as_str _ = none

abbrev pub as_array : Value → Option Items
as_array (array xs) = some xs
as_array _ = none

abbrev pub as_object : Value → Option Members
as_object (object m) = some m
as_object _ = none

abbrev pub length_items : Items → ℕ
length_items nil = 0
length_items (cons v xs) = suc (length_items xs)

-- `Vec::push`.
abbrev pub push : Items → Value → Items
push nil v = cons v nil
push (cons x xs) v = cons x (push xs v)

abbrev pub strings : List String → Items
strings [] = nil
strings (s ∷ ss) = cons (string s) (strings ss)

pub get-insert :
    (k j : String) (v : Value) (m : Members)
    → get j (insert k v m) ≡ (if k == j then some v else get j m)
get-insert k j v empty = refl
get-insert k j v (member i w m) =
    ground (arith, eq_iff k j, eq_iff i k, eq_iff i j, get-insert k j v m)

pub contains_key-insert :
    (k j : String) (v : Value) (m : Members)
    → contains_key (insert k v m) j ≡ (if k == j then true else contains_key m j)
contains_key-insert k j v empty = refl
contains_key-insert k j v (member i w m) =
    ground (arith, eq_iff k j, eq_iff i k, eq_iff i j, contains_key-insert k j v m)

pub get-some-contains_key :
    (k : String) (m : Members) (v : Value) → get k m ≡ some v → contains_key m k ≡ true
get-some-contains_key k empty v h = cc
get-some-contains_key k (member j w m) v h = ground (arith, get-some-contains_key k m v)

-- No object, at any depth, holds a key twice.
unfoldable mutual
  pub has_distinct_keys : Value → Bool
  has_distinct_keys null = true
  has_distinct_keys (bool b) = true
  has_distinct_keys (number n) = true
  has_distinct_keys (string s) = true
  has_distinct_keys (array xs) = items_distinct xs
  has_distinct_keys (object m) = members_distinct m

  pub items_distinct : Items → Bool
  items_distinct nil = true
  items_distinct (cons v xs) = has_distinct_keys v && items_distinct xs

  pub members_distinct : Members → Bool
  members_distinct empty = true
  members_distinct (member k v m) =
      not (contains_key m k) && (has_distinct_keys v && members_distinct m)
