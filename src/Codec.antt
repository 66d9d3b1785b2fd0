-- ===== src/Codec.antt =====
-- What the library takes from other crates, as parameters: `sha2`, `base64` and `serde_json`. Nothing
-- is assumed of them here; a theorem that needs a law of theirs names it as a hypothesis.
-- The records are the JSON serializations of
-- src/lib.rs; `base64_hash`, `base64url_encode` and `base64url_decode` are those of src/utils.rs.
use sd_jwt_rust.Prelude.{ℕ, String, Bool, Option, List}
use sd_jwt_rust.Error.{Result, Attempt, deserialization_error, map_err}
use sd_jwt_rust.Json.{Value}

pub record UnprotectedHeader : Type 0 where
  pub disclosures : List String
  pub kb_jwt : Option String

pub record FlattenedJson : Type 0 where
  pub protected : String
  pub payload : String
  pub signature : String
  pub header : UnprotectedHeader

pub record GeneralJsonSignature : Type 0 where
  pub protected : String
  pub signature : String
  pub header : UnprotectedHeader

pub record GeneralJson : Type 0 where
  pub payload : String
  pub signatures : List GeneralJsonSignature

-- What `serde_json`'s deserializer hands a visitor that takes any value: the members of an object as
-- they stand in the text, a repeated key as often as it stands there. A number is its printed text;
-- that of a float is `Number::from_f64` of it, which is `none` for one that is not finite.
mutual
  pub data Event : Type 0 where
    bool : Bool → Event
    i64 u64 : String → Event
    f64 : Option String → Event
    str string : String → Event
    none unit : Event
    seq : Elements → Event
    map : Entries → Event

  pub data Elements : Type 0 where
    no_element : Elements
    element : Event → Elements → Elements

  pub data Entries : Type 0 where
    no_entry : Entries
    entry : String → Event → Entries → Entries

pub record Codec : Type 0 where
  -- `sha2::Sha256`, from the hashed bytes to the digest's
  pub sha256 : List ℕ → List ℕ
  -- `general_purpose::URL_SAFE_NO_PAD`
  pub encode : List ℕ → String
  pub decode : String → Attempt (List ℕ)
  -- `serde_json::from_slice::<Value>`, `from_str::<Value>`, and `Value::to_string`
  pub from_slice : List ℕ → Attempt Value
  pub from_str : String → Attempt Value
  pub to_string : Value → String
  -- the events of `serde_json::from_slice` for a visitor that reads any value
  pub events : List ℕ → Attempt Event
  -- the derived `Deserialize` and `Serialize` of the two JSON serializations in src/lib.rs
  pub read_flattened : String → Attempt FlattenedJson
  pub read_general : String → Attempt GeneralJson
  pub write_flattened : FlattenedJson → Attempt String
  pub write_general : GeneralJson → Attempt String

module _ (c : Codec) where
  unfoldable pub base64_hash : List ℕ → String
  base64_hash bytes = c.encode (c.sha256 bytes)

  unfoldable pub base64url_encode : List ℕ → String
  base64url_encode bytes = c.encode bytes

  unfoldable pub base64url_decode : String → Result (List ℕ)
  base64url_decode b64 = map_err (c.decode b64) deserialization_error
