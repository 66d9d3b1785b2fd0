-- ===== src/Tests/Setting.antt =====
-- Small stand-ins for the other crates: a hash that changes nothing, an encoding that is the text
-- itself, and tables for the JSON texts and the tokens that the runs use.
use sd_jwt_rust.Prelude.{ℕ, String, true, Option, none, some, List, ◌==◌, if◌then◌else◌}
use sd_jwt_rust.Error.{Attempt, done, failed, Result, ok, err, conversion_error}
use sd_jwt_rust.Json.{Value, Members, string, array, object, nil, cons, empty, member}
use sd_jwt_rust.Text.{as_bytes}
use sd_jwt_rust.Text.Utf8.{from_utf8}
use sd_jwt_rust.Codec.{Codec, Event, no_element, element, no_entry, entry}
use sd_jwt_rust.Jose.{Jose, Algorithm, es256, signature}
use sd_jwt_rust.Preprocessing.Native.{Threads}
use sd_jwt_rust.Prelude.{zero, suc, false, [], ◌∷◌}
use sd_jwt_rust.Signature.{Curves}

abbrev text_of : List ℕ → String
text_of bytes = elim (from_utf8 bytes) [ none ↦ "" | some s ↦ s ]

abbrev pub first_disclosure : Value
first_disclosure = array (cons (string "salt") (cons (string "name") (cons (string "Ada") nil)))

abbrev pub second_disclosure : Value
second_disclosure = array (cons (string "salt") (cons (string "city") nil))

abbrev json : String → Attempt Value
json s =
    if s == "h"
    then done (object (member "alg" (string "ES256") empty))
    else if s == "d1"
    then done first_disclosure
    else if s == "d2"
    then done second_disclosure
    else failed "no JSON"

abbrev payload_events : Event
payload_events = Event.map (
    entry "iss" (Event.str "me")
      (entry "_sd" (Event.seq (element (Event.str "d1") no_element)) no_entry))

abbrev pub payload_members : Members
payload_members = member "iss" (string "me") (member "_sd" (array (cons (string "d1") nil)) empty)

abbrev anonymous_events : Event
anonymous_events = Event.map (entry "sub" (Event.str "x") no_entry)

abbrev events_of : String → Attempt Event
events_of s =
    if s == "p"
    then done payload_events
    else if s == "q"
    then done anonymous_events
    else failed "no JSON"

abbrev pub codec : Codec
codec = record {
  sha256 = λ bytes. bytes;
  encode = text_of;
  decode = λ s. done (as_bytes s);
  from_slice = λ bytes. json (text_of bytes);
  from_str = json;
  to_string = λ v. "";
  events = λ bytes. events_of (text_of bytes);
  read_flattened = λ s. failed "not used";
  read_general = λ s. failed "not used";
  write_flattened = λ f. failed "not used";
  write_general = λ g. failed "not used";
}

abbrev pub claims : Members
claims = member "iss" (string "me") (
    member "_sd" (array (cons (string "d1") nil)) (
      member "list"
        (array (cons (object (member "..." (string "d2") empty)) (cons (string "Rome") nil)))
        (member "cnf" (object (member "jwk" (object (member "kty" (string "EC") empty)) empty))
          empty)))

abbrev kb_claims : Members
kb_claims =
    member "nonce" (string "n")
      (member "iat" (string "0") (member "sd_hash" (string "h.p.s~d1~d2~") empty))

abbrev decoded : String → String → Attempt ((Algorithm × Option String) × Members)
decoded token key =
    if token == "h.p.s"
    then (if key == "issuer key" then done ((es256, none), claims) else failed "signature")
    else if token == "kb"
    then (if key == "holder key"
        then done ((es256, some "kb+jwt"), kb_claims)
        else failed "signature")
    else failed "token"

abbrev pub jose : Jose
jose = record {
  Key = String;
  Jwk = Value;
  Header = Algorithm × Option String;
  alg = λ h. h.0;
  typ = λ h. h.1;
  algorithm_from_str = λ s. if s == "ES256" then done es256 else failed "algorithm";
  algorithm_name = λ a. "ES256";
  decode_header = λ token. done (es256, none);
  decode = λ token key validation. decoded token key;
  verify_signature = λ s m k a. done true;
  jwk_from_value = λ v. done v;
  key_algorithm = λ k. some "ES256";
  public_key_use = λ k. some signature;
  key_operations = λ k. none;
  key_from_jwk = λ k. done "holder key";
}

abbrev pub resolver : String → (Algorithm × Option String) → Result String
resolver issuer header = if issuer == "me" then ok "issuer key" else err (conversion_error "issuer")

-- Every thread spawns and finishes.
abbrev pub threads : Threads
threads = record { spawns = λ n. true; finishes = λ n. true }

-- Points and scalars that are all in order.
abbrev pub curves : Curves
curves = record {
  Point = List ℕ;
  is_p256_signature = λ bytes. true;
  is_p384_signature = λ bytes. true;
  decompress = λ bytes. some bytes;
  compress = λ p. p;
  is_small_order = λ p. false;
  is_canonical_scalar = λ bytes. true;
}

unfoldable pub ones : ℕ → List ℕ
ones zero = []
ones (suc n) = 1 ∷ ones n
