-- ===== src/Policy.antt =====
-- The cryptographic policies of src/lib.rs: the algorithm allowlist, and what a confirmation key may
-- hold.
pub mod Keys
use mathlib.Core.Option
use Prim.Native.String.{◌++◌ as append}
use sd_jwt_rust.Prelude.{
  String, Bool, true, false, not, ◌&&◌, ◌||◌, Option, none, some, List, [], ◌∷◌, ◌==◌,
  if◌then◌else◌,
}
use sd_jwt_rust.Error.{Error, Result, ok, err, ◌>>=◌, ◌>>◌, ensure, ok_or, invalid_input}
use sd_jwt_rust.Json.{Value, Members, get, contains_key, as_object, as_str}
use sd_jwt_rust.Jose.{
  Jose, Algorithm, es256, es384, eddsa, rs256, rs384, rs512, ps256, ps384, ps512, algorithm_eq,
  PublicKeyUse, signature, other_use, KeyOperation, verify, other_operation,
}

pub record VerificationPolicy : Type 0 where
  pub allowed_algorithms : List Algorithm

-- `VerificationPolicy::new`.
unfoldable pub new_policy : List Algorithm → Result VerificationPolicy
new_policy [] = err (invalid_input "Verification algorithm allowlist must not be empty")
new_policy (a ∷ rest) = ok (record { allowed_algorithms = a ∷ rest })

unfoldable pub member_of : List Algorithm → Algorithm → Bool
member_of [] a = false
member_of (b ∷ bs) a = if algorithm_eq b a then true else member_of bs a

unfoldable pub allows : VerificationPolicy → Algorithm → Bool
unfolding member_of
allows policy a = member_of policy.allowed_algorithms a

abbrev pub default_policy : VerificationPolicy
default_policy = record {
  allowed_algorithms = es256 ∷ es384 ∷ eddsa ∷ rs256 ∷ rs384 ∷ rs512 ∷ ps256 ∷ ps384 ∷ ps512 ∷ [];
}

abbrev pub cnf_key : String
cnf_key = "cnf"

abbrev pub jwk_key : String
jwk_key = "jwk"

abbrev pub private_jwk_members : List String
private_jwk_members = "d" ∷ "rsa_d" ∷ "p" ∷ "q" ∷ "dp" ∷ "dq" ∷ "qi" ∷ "oth" ∷ "k" ∷ []

-- The value at a key, of a value that may be no object.
unfoldable pub get_in : String → Option Members → Option Value
get_in k none = none
get_in k (some m) = get k m

unfoldable pub object_at : String → Members → Option Members
object_at k m = elim (get k m) [ none ↦ none | some v ↦ as_object v ]

unfoldable pub confirmation_jwk : Members → Option Value
unfolding get_in object_at
confirmation_jwk claims = get_in jwk_key (object_at cnf_key claims)

unfoldable pub any_key : List String → Members → Bool
any_key [] m = false
any_key (k ∷ ks) m = if contains_key m k then true else any_key ks m

unfoldable pub is_octet : Option Value → Bool
is_octet (some (Value.string s)) = s == "oct"
is_octet _ = false

unfoldable pub validate_jwk : Option Value → Result (Unit {0})
unfolding any_key is_octet
validate_jwk none = ok tt
validate_jwk (some jwk) = do
  object ← ok_or (as_object jwk) (invalid_input "cnf.jwk must be a public asymmetric JWK object")
  ensure (not (is_octet (get "kty" object) || any_key private_jwk_members object))
      (invalid_input "cnf.jwk must be a public asymmetric JWK")

unfoldable pub validate_public_confirmation_claim : Members → Result (Unit {0})
unfolding confirmation_jwk validate_jwk
validate_public_confirmation_claim claims = validate_jwk (confirmation_jwk claims)

-- The three tests on a JWK's declared fields.
unfoldable pub declares_other : String → Option String → Bool
declares_other name none = false
declares_other name (some declared) = not (declared == name)

unfoldable pub is_other_use : Option PublicKeyUse → Bool
is_other_use (some (other_use s)) = true
is_other_use _ = false

unfoldable pub is_some {ℓ} : {A : Type ℓ} → Option A → Bool
is_some none = false
is_some (some a) = true

unfoldable pub any_other_operation : List KeyOperation → Bool
any_other_operation [] = false
any_other_operation (verify ∷ rest) = any_other_operation rest
any_other_operation (other_operation s ∷ rest) = true

unfoldable pub bad_operations : Option (List KeyOperation) → Bool
unfolding any_other_operation
bad_operations none = false
bad_operations (some []) = true
bad_operations (some (o ∷ os)) = any_other_operation (o ∷ os)

module _ (j : Jose) where
  open j use {Jwk, algorithm_name, key_algorithm, public_key_use, key_operations}

  unfoldable pub validate_key_binding_jwk_policy : Jwk → Algorithm → Result (Unit {0})
  unfolding declares_other is_other_use is_some bad_operations
  validate_key_binding_jwk_policy jwk algorithm = do
    ensure (not (declares_other (algorithm_name algorithm) (key_algorithm jwk)))
        (invalid_input "cnf.jwk alg does not match the key-binding algorithm")
    ensure (not (is_other_use (public_key_use jwk))) (invalid_input "cnf.jwk use must be sig")
    ensure (not (is_some (public_key_use jwk) && is_some (key_operations jwk)))
        (invalid_input "cnf.jwk must not combine use and key_ops")
    ensure (not (bad_operations (key_operations jwk)))
        (invalid_input "cnf.jwk key_ops must contain only verify")
