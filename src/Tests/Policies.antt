-- ===== src/Tests/Policies.antt =====
-- Runs of the policies in src/lib.rs.
use sd_jwt_rust.Prelude.{String, ◌≡◌, refl, ◌↔◌, ◌≢◌, true, some}
use sd_jwt_rust.Error.{ok}
use sd_jwt_rust.Json.{Value, string, object, empty, member}
use sd_jwt_rust.Jose.{es256, other}
use sd_jwt_rust.Policy.{
  allows, default_policy, confirmation_jwk, validate_public_confirmation_claim,
  validate_key_binding_jwk_policy,
}
use sd_jwt_rust.Policy.Keys.{
  IsPublic, AllowsAlgorithm, AllowsUse, AllowsOperations, allows-default_policy,
  validate_public_confirmation_claim-IsPublic, validate_key_binding_jwk_policy-allows,
}
use sd_jwt_rust.Tests.Setting.{jose, claims}

abbrev jwk : Value
jwk = object (member "kty" (string "EC") empty)

confirmed : confirmation_jwk claims ≡ some jwk
unfolding confirmation_jwk
confirmed = refl

validated : validate_public_confirmation_claim claims ≡ ok tt
unfolding validate_public_confirmation_claim
validated = refl

allows-default_policy_example :
    (allows default_policy (other "HS256") ≡ true) ↔ ((name : String) → other "HS256" ≢ other name)
allows-default_policy_example = allows-default_policy (other "HS256")

validate_public_confirmation_claim-IsPublic_example : IsPublic jwk
validate_public_confirmation_claim-IsPublic_example =
    validate_public_confirmation_claim-IsPublic claims jwk confirmed validated

fits : validate_key_binding_jwk_policy jose jwk es256 ≡ ok tt
unfolding validate_key_binding_jwk_policy
fits = refl

validate_key_binding_jwk_policy-allows_example :
    AllowsAlgorithm (jose.algorithm_name es256) (jose.key_algorithm jwk)
    × AllowsUse (jose.public_key_use jwk) (jose.key_operations jwk)
    × AllowsOperations (jose.key_operations jwk)
validate_key_binding_jwk_policy-allows_example =
    validate_key_binding_jwk_policy-allows jose jwk es256 fits
