-- ===== src/Payload/Unique.antt =====
-- What the `UniqueValue` visitor of src/utils.rs accepts.
use sd_jwt_rust.Prelude.{
  ℕ, List, String, ◌≡◌, refl, sym, ◌∙◌, true, false, Option, none, some, arith, eq_iff,
}
use sd_jwt_rust.Error.{
  Attempt, done, failed, Error, ok, map_error, map_err, >>=-eq-ok, map_err-eq-ok, ok_or-eq-ok,
}
use sd_jwt_rust.Json
use sd_jwt_rust.Json.{
  Value, Items, Members, contains_key, contains_key-insert, insert, push, as_object,
  has_distinct_keys, items_distinct, members_distinct,
}
use sd_jwt_rust.Codec.{
  Codec, base64url_decode, Event, Elements, Entries, no_element, element, no_entry, entry,
}
use sd_jwt_rust.Payload.{
  visit_f64, then_push, then_insert, as_array_value, as_object_value, visit, visit_seq, visit_map,
  unique_value, jwt_payload_decode,
}

-- A member behind all others, whether or not its key is there.
abbrev pub push_member : String → Value → Members → Members
push_member k v Json.empty = Json.member k v Json.empty
push_member k v (Json.member j w m) = Json.member j w (push_member k v m)

-- The value that a text spells out, with every member that stands in it.
abbrev spelled_f64 : Option String → Value
spelled_f64 none = Json.null
spelled_f64 (some n) = Json.number n

unfoldable mutual
  pub spelled : Event → Value
  spelled (Event.bool b) = Json.bool b
  spelled (Event.i64 n) = Json.number n
  spelled (Event.u64 n) = Json.number n
  spelled (Event.f64 n) = spelled_f64 n
  spelled (Event.str s) = Json.string s
  spelled (Event.string s) = Json.string s
  spelled Event.none = Json.null
  spelled Event.unit = Json.null
  spelled (Event.seq xs) = Json.array (spelled_seq xs Json.nil)
  spelled (Event.map m) = Json.object (spelled_map m Json.empty)

  pub spelled_seq : Elements → Items → Items
  spelled_seq no_element values = values
  spelled_seq (element x xs) values = spelled_seq xs (push values (spelled x))

  pub spelled_map : Entries → Members → Members
  spelled_map no_entry values = values
  spelled_map (entry k x m) values = spelled_map m (push_member k (spelled x) values)

insert-new :
    (k : String) (v : Value) (m : Members)
    → contains_key m k ≡ false
    → insert k v m ≡ push_member k v m
insert-new k v Json.empty h = refl
insert-new k v (Json.member j w m) h = ground (arith, insert-new k v m)

push-distinct :
    (xs : Items) (v : Value)
    → items_distinct xs ≡ true
    → has_distinct_keys v ≡ true
    → items_distinct (push xs v) ≡ true
unfolding has_distinct_keys
push-distinct Json.nil v h k = ground arith
push-distinct (Json.cons x xs) v h k = ground (arith, push-distinct xs v)

insert-distinct :
    (key : String) (v : Value) (m : Members)
    → contains_key m key ≡ false
    → members_distinct m ≡ true
    → has_distinct_keys v ≡ true
    → members_distinct (insert key v m) ≡ true
unfolding has_distinct_keys
insert-distinct key v Json.empty f h k = ground arith
insert-distinct key v (Json.member j w m) f h k =
    ground
      (arith, insert-distinct key v m, contains_key-insert key j v m, eq_iff key j, eq_iff j key)

then_push-done :
    (a : Attempt Value) (rest : Value → Attempt Items) {xs : Items}
    → then_push a rest ≡ done xs
    → (v : Value) × (a ≡ done v) × (rest v ≡ done xs)
unfolding then_push
then_push-done (done v) rest h = (v, refl, h)
then_push-done (failed e) rest h = cc

then_insert-done :
    (key : String) (values : Members) (a : Attempt Value) (rest : Members → Attempt Members)
    {m : Members}
    → then_insert key values a rest ≡ done m
    → (v : Value) × (a ≡ done v)
      × (contains_key values key ≡ false)
      × (rest (insert key v values) ≡ done m)
unfolding then_insert
then_insert-done key values (failed e) rest h = cc
then_insert-done key values (done v) rest h = (v, refl, ground arith, ground arith)

as_array_value-done :
    (a : Attempt Items) {v : Value}
    → as_array_value a ≡ done v
    → (xs : Items) × (a ≡ done xs) × (v ≡ Json.array xs)
unfolding as_array_value
as_array_value-done (done xs) h = (xs, refl, cc)
as_array_value-done (failed e) h = cc

as_object_value-done :
    (a : Attempt Members) {v : Value}
    → as_object_value a ≡ done v
    → (m : Members) × (a ≡ done m) × (v ≡ Json.object m)
unfolding as_object_value
as_object_value-done (done xs) h = (xs, refl, cc)
as_object_value-done (failed e) h = cc

mutual
  unfolding visit spelled has_distinct_keys visit_f64

  visit-done :
      (e : Event) (v : Value) → visit e ≡ done v → (v ≡ spelled e) × (has_distinct_keys v ≡ true)
  visit-done (Event.seq xs) v h =
      let (ys, r, same) = as_array_value-done (visit_seq xs Json.nil) h in
      let (s, d) = visit_seq-done xs Json.nil ys refl r in (cc (same, s), rw same d)
  visit-done (Event.map m) v h =
      let (ys, r, same) = as_object_value-done (visit_map m Json.empty) h in
      let (s, d) = visit_map-done m Json.empty ys refl r in (cc (same, s), rw same d)
  visit-done (Event.f64 none) v h = cc
  visit-done (Event.f64 (some n)) v h = ground arith
  visit-done _ v h = ground arith

  visit_seq-done :
      (xs : Elements) (values ys : Items)
      → items_distinct values ≡ true
      → visit_seq xs values ≡ done ys
      → (ys ≡ spelled_seq xs values) × (items_distinct ys ≡ true)
  visit_seq-done no_element values ys d h = ground arith
  visit_seq-done (element x xs) values ys d h =
      let (v, rx, rest) = then_push-done (visit x) _ h in
      let (s, dv) = visit-done x v rx in
      rw (← s) (visit_seq-done xs (push values v) ys (push-distinct values v d dv) rest)

  visit_map-done :
      (m : Entries) (values ys : Members)
      → members_distinct values ≡ true
      → visit_map m values ≡ done ys
      → (ys ≡ spelled_map m values) × (members_distinct ys ≡ true)
  visit_map-done no_entry values ys d h = ground arith
  visit_map-done (entry k x m) values ys d h =
      let (v, rx, fresh, rest) = then_insert-done k values (visit x) _ h in
      let (s, dv) = visit-done x v rx in
      rw (← s, ← insert-new k v values fresh)
        (visit_map-done m (insert k v values) ys (insert-distinct k v values fresh d dv) rest)

module _ (c : Codec) where
  decode-done :
      (b64data : String) (f : Error → Error) {bytes : List ℕ}
      → map_error (base64url_decode c b64data) f ≡ ok bytes
      → c.decode b64data ≡ done bytes
  unfolding base64url_decode
  decode-done b64data f h = ground arith

  unique_value-done :
      (bytes : List ℕ) {v : Value}
      → unique_value c bytes ≡ done v
      → (e : Event) × (c.events bytes ≡ done e) × (visit e ≡ done v)
  unfolding unique_value
  unique_value-done bytes h = from (c.events bytes) refl h
    where
      from :
          (a : Attempt Event) {v : Value}
          → c.events bytes ≡ a
          → (elim a [ done e ↦ visit e | failed m ↦ failed m ]) ≡ done v
          → (e : Event) × (c.events bytes ≡ done e) × (visit e ≡ done v)
      from (done e) p h = (e, p, h)
      from (failed m) p h = cc

  as_object-some : (v : Value) {m : Members} → as_object v ≡ some m → v ≡ Json.object m
  as_object-some v h = ground arith

-- An accepted JWT payload is the object that the decoded text spells out, every member included, and
-- no object in it, at any depth, repeats a key.
pub jwt_payload_decode-distinct :
    (c : Codec) (b64data : String) {m : Members}
    → jwt_payload_decode c b64data ≡ ok m
    → (bytes : List ℕ) × (e : Event) × (c.decode b64data ≡ done bytes)
      × (c.events bytes ≡ done e)
      × (spelled e ≡ Json.object m)
      × (members_distinct m ≡ true)
unfolding jwt_payload_decode has_distinct_keys
jwt_payload_decode-distinct c b64data h =
    let (bytes, decoded, h₁) = >>=-eq-ok (map_error (base64url_decode c b64data) _) _ h in
    let (v, valued, h₂) = >>=-eq-ok (map_err (unique_value c bytes) _) _ h₁ in
    let (e, read, visited) =
      unique_value-done c bytes (map_err-eq-ok (unique_value c bytes) _ valued) in
    let is_object = as_object-some c v (ok_or-eq-ok (as_object v) _ h₂) in
    let (same, distinct) = visit-done e v visited in
    (
      bytes,
      e,
      decode-done c b64data _ decoded,
      read,
      sym same ∙ is_object,
      rw is_object at distinct,
    )
