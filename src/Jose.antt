-- ===== src/Jose.antt =====
-- What the library takes from `jsonwebtoken`: its algorithms, headers, keys and verification. Keys,
-- JWKs and headers are opaque, with the fields that the library reads.
use sd_jwt_rust.Prelude.{ℕ, String, Bool, true, false, Option, none, List, [], ◌∷◌, ◌==◌}
use sd_jwt_rust.Error.{Attempt}
use sd_jwt_rust.Json.{Value, Members}

-- The algorithms that the library names; `other` is any other variant, the HMAC family among them.
pub data Algorithm : Type 0 where
  es256 es384 eddsa rs256 rs384 rs512 ps256 ps384 ps512 : Algorithm
  other : String → Algorithm

abbrev pub algorithm_eq : Algorithm → Algorithm → Bool
algorithm_eq es256 es256 = true
algorithm_eq es384 es384 = true
algorithm_eq eddsa eddsa = true
algorithm_eq rs256 rs256 = true
algorithm_eq rs384 rs384 = true
algorithm_eq rs512 rs512 = true
algorithm_eq ps256 ps256 = true
algorithm_eq ps384 ps384 = true
algorithm_eq ps512 ps512 = true
algorithm_eq (other a) (other b) = a == b
algorithm_eq _ _ = false

pub data PublicKeyUse : Type 0 where
  signature : PublicKeyUse
  other_use : String → PublicKeyUse

pub data KeyOperation : Type 0 where
  verify : KeyOperation
  other_operation : String → KeyOperation

-- What a caller sets on `Validation::new(algorithm)`, which requires `exp`, leaves `nbf` unchecked
-- and refuses a present `aud` where no audience is expected.
pub record Validation : Type 0 where
  pub algorithm : Algorithm
  pub required_spec_claims : List String
  pub validate_nbf : Bool
  pub validate_aud : Bool
  pub audience : Option (List String)

abbrev pub new_validation : Algorithm → Validation
new_validation a = record {
  algorithm = a;
  required_spec_claims = "exp" ∷ [];
  validate_nbf = false;
  validate_aud = true;
  audience = none;
}

pub record Jose : Type 1 where
  pub Key : Type 0
  pub Jwk : Type 0
  pub Header : Type 0
  pub alg : Header → Algorithm
  pub typ : Header → Option String
  -- `Algorithm::from_str`, and the `Debug` name of an algorithm
  pub algorithm_from_str : String → Attempt Algorithm
  pub algorithm_name : Algorithm → String
  pub decode_header : String → Attempt Header
  -- `jsonwebtoken::decode`: the header and claims of a token whose signature and claims hold
  pub decode : String → Key → Validation → Attempt (Header × Members)
  -- `jsonwebtoken::crypto::verify`, over the encoded signature and the signed bytes
  pub verify_signature : String → List ℕ → Key → Algorithm → Attempt Bool
  pub jwk_from_value : Value → Attempt Jwk
  pub key_algorithm : Jwk → Option String
  pub public_key_use : Jwk → Option PublicKeyUse
  pub key_operations : Jwk → Option (List KeyOperation)
  pub key_from_jwk : Jwk → Attempt Key
