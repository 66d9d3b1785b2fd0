-- ===== src/Payload.antt =====
-- `jwt_payload_decode` of src/utils.rs and the `UniqueValue` visitor behind it, which refuses an
-- object that repeats a member, at any depth.
pub mod Unique
use sd_jwt_rust.Prelude.{
  ◌≡◌, ◌≢◌, refl, arith, ℕ, String, List, Bool, true, false, Option, none, some, ◌==◌,
  if◌then◌else◌,
}
use sd_jwt_rust.Error.{
  panic, out_of_fuel, Ensures, Ensures-self, Attempt, done, failed, Result, ok, err, ◌>>=◌, map_err,
  map_error, ok_or, display, deserialization_error,
}
use sd_jwt_rust.Json
use sd_jwt_rust.Json.{Value, Items, Members, contains_key, insert, push, as_object}
use sd_jwt_rust.Codec.{
  Codec, Event, Elements, Entries, no_element, element, no_entry, entry, base64url_decode,
}

-- A number, or the visitor's own error for a float that is not finite.
unfoldable pub visit_f64 : Option String → Attempt Value
visit_f64 none = failed "non-finite JSON number"
visit_f64 (some n) = done (Json.number n)

unfoldable pub then_push : Attempt Value → (Value → Attempt Items) → Attempt Items
then_push (failed e) rest = failed e
then_push (done v) rest = rest v

unfoldable pub then_insert :
    String → Members → Attempt Value → (Members → Attempt Members) → Attempt Members
then_insert key values (failed e) rest = failed e
then_insert key values (done v) rest =
    if contains_key values key
    then failed "duplicate JSON object member"
    else rest (insert key v values)

unfoldable pub as_array_value : Attempt Items → Attempt Value
as_array_value (failed e) = failed e
as_array_value (done xs) = done (Json.array xs)

unfoldable pub as_object_value : Attempt Members → Attempt Value
as_object_value (failed e) = failed e
as_object_value (done m) = done (Json.object m)

-- The loops of `visit_seq` and `visit_map` carry what they have collected.
unfoldable mutual
  pub visit : Event → Attempt Value
  visit (Event.bool b) = done (Json.bool b)
  visit (Event.i64 n) = done (Json.number n)
  visit (Event.u64 n) = done (Json.number n)
  visit (Event.f64 n) = visit_f64 n
  visit (Event.str s) = done (Json.string s)
  visit (Event.string s) = done (Json.string s)
  visit Event.none = done Json.null
  visit Event.unit = done Json.null
  visit (Event.seq xs) = as_array_value (visit_seq xs Json.nil)
  visit (Event.map m) = as_object_value (visit_map m Json.empty)

  pub visit_seq : Elements → Items → Attempt Items
  visit_seq no_element values = done values
  visit_seq (element x xs) values = then_push (visit x) (λ v. visit_seq xs (push values v))

  pub visit_map : Entries → Members → Attempt Members
  visit_map no_entry values = done values
  visit_map (entry k x m) values = then_insert k values (visit x) (λ values'. visit_map m values')

module _ (c : Codec) where
  unfoldable pub unique_value : List ℕ → Attempt Value
  unfolding visit
  unique_value bytes = elim (c.events bytes) [ done e ↦ visit e | failed m ↦ failed m ]

  unfoldable pub jwt_payload_decode : String → Result Members
  jwt_payload_decode b64data = do
    bytes ← map_error (base64url_decode c b64data) (λ e. deserialization_error (display e))
    value ← map_err (unique_value bytes) deserialization_error
    ok_or (as_object value) (deserialization_error "JWT payload must be a JSON object")

  jwt_payload_decode-ne-panic : (b64data : String) → jwt_payload_decode b64data ≢ panic
  unfolding jwt_payload_decode base64url_decode
  jwt_payload_decode-ne-panic b64data = ground arith

  jwt_payload_decode-ne-out_of_fuel : (b64data : String) → jwt_payload_decode b64data ≢ out_of_fuel
  unfolding jwt_payload_decode base64url_decode
  jwt_payload_decode-ne-out_of_fuel b64data = ground arith

  -- It does not panic, and needs no fuel.
  pub jwt_payload_decode-Ensures :
      (b64data : String)
      → Ensures (λ m. jwt_payload_decode b64data ≡ ok m) (jwt_payload_decode b64data)
  jwt_payload_decode-Ensures b64data =
      Ensures-self _ (jwt_payload_decode-ne-panic b64data)
        (jwt_payload_decode-ne-out_of_fuel b64data)
