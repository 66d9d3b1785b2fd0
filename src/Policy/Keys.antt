-- ===== src/Policy/Keys.antt =====
-- What passes the policies of src/lib.rs.
use mathlib.Core.Path.{subst}
use mathlib.Core.Bool.{false≢true}
use sd_jwt_rust.Prelude.{
  String, ◌≡◌, refl, sym, ap, ◌∙◌, ◌≢◌, ◌↔◌, Bool, true, false, not, ◌&&◌, ◌||◌, Option, none, some,
  List, [], ◌∷◌, eq_iff, arith, All, not-elim,
}
use sd_jwt_rust.Error.{ok, >>=-eq-ok, ensure, ensure-eq-ok, ok_or, ok_or-eq-ok}
use sd_jwt_rust.Json.{Value, Members, get, contains_key, as_object}
use sd_jwt_rust.Jose.{
  Jose, Algorithm, other, KeyOperation, verify, other_operation, PublicKeyUse, signature, other_use,
}
use sd_jwt_rust.Policy.{
  default_policy, allows, private_jwk_members, confirmation_jwk, validate_jwk,
  validate_public_confirmation_claim, any_key, is_octet, validate_key_binding_jwk_policy,
  declares_other, is_other_use, is_some, bad_operations, any_other_operation,
}

-- The default policy allows the nine public-key algorithms that the library names, and no other: an
-- HMAC algorithm in an untrusted header is refused.
pub allows-default_policy :
    (a : Algorithm) → (allows default_policy a ≡ true) ↔ ((name : String) → a ≢ other name)
unfolding allows
allows-default_policy (other n) = (λ h. cc, λ h. absurd (h n refl))
allows-default_policy _ = (λ h n e. cc, λ h. refl)

any_key-false :
    (ks : List String) (m : Members) → any_key ks m ≡ false → All (λ k. contains_key m k ≡ false) ks
unfolding any_key
any_key-false [] m h = tt
any_key-false (k ∷ ks) m h = (ground arith, any_key-false ks m (ground arith))

-- A confirmation key that passes is an object that is not marked as symmetric and holds none of the
-- private members.
pub record IsPublic (jwk : Value) : Type 0 where
  pub members : Members
  pub is_object : as_object jwk ≡ some members
  pub asymmetric : get "kty" members ≢ some (Value.string "oct")
  pub no_private : All (λ k. contains_key members k ≡ false) private_jwk_members

not_or : (a b : Bool) → not (a || b) ≡ true → (a ≡ false) × (b ≡ false)
not_or a b h = ground arith

validate_jwk-IsPublic : (jwk : Value) → validate_jwk (some jwk) ≡ ok tt → IsPublic jwk
unfolding validate_jwk
validate_jwk-IsPublic jwk h =
    let (m, obj, h₁) = >>=-eq-ok (ok_or (as_object jwk) _) _ h in
    let guard = ensure-eq-ok (not (is_octet (get "kty" m) || any_key private_jwk_members m)) _ h₁ in
    record {
      members = m;
      is_object = ok_or-eq-ok (as_object jwk) _ obj;
      asymmetric = λ e. false≢true (sym (not_or _ _ guard).0 ∙ ap is_octet e);
      no_private = any_key-false private_jwk_members m (not_or _ _ guard).1;
    }

-- Claims that pass hold no confirmation key, or one that is public.
pub validate_public_confirmation_claim-IsPublic :
    (claims : Members) (jwk : Value)
    → confirmation_jwk claims ≡ some jwk
    → validate_public_confirmation_claim claims ≡ ok tt
    → IsPublic jwk
unfolding validate_public_confirmation_claim
validate_public_confirmation_claim-IsPublic claims jwk e h =
    validate_jwk-IsPublic jwk (subst (λ o. validate_jwk o ≡ ok tt) e h)

abbrev IsVerify : KeyOperation → Type 0
IsVerify verify = Unit
IsVerify (other_operation s) = ⊥

-- What a confirmation JWK may declare for key binding under an algorithm: that algorithm or none,
-- the use `sig` or none, and if it lists operations then `verify` alone and no use beside it.
abbrev pub AllowsAlgorithm : String → Option String → Type 0
AllowsAlgorithm name none = Unit
AllowsAlgorithm name (some declared) = declared ≡ name

abbrev pub AllowsUse : Option PublicKeyUse → Option (List KeyOperation) → Type 0
AllowsUse none operations = Unit
AllowsUse (some use_) operations = (use_ ≡ signature) × (operations ≡ none)

abbrev pub AllowsOperations : Option (List KeyOperation) → Type 0
AllowsOperations none = Unit
AllowsOperations (some operations) = (operations ≢ []) × All IsVerify operations

allows_algorithm :
    (name : String) (o : Option String) → declares_other name o ≡ false → AllowsAlgorithm name o
unfolding declares_other
allows_algorithm name none h = tt
allows_algorithm name (some d) h = ground (arith, eq_iff d name)

allows_use :
    (u : Option PublicKeyUse) (o : Option (List KeyOperation))
    → is_other_use u ≡ false
    → (is_some u && is_some o) ≡ false
    → AllowsUse u o
unfolding is_other_use is_some
allows_use none o h k = tt
allows_use (some signature) none h k = (refl, refl)
allows_use (some signature) (some o) h k = cc
allows_use (some (other_use s)) o h k = cc

All-IsVerify : (os : List KeyOperation) → any_other_operation os ≡ false → All IsVerify os
unfolding any_other_operation
All-IsVerify [] h = tt
All-IsVerify (verify ∷ os) h = (tt, All-IsVerify os h)
All-IsVerify (other_operation s ∷ os) h = cc

allows_operations : (o : Option (List KeyOperation)) → bad_operations o ≡ false → AllowsOperations o
unfolding bad_operations
allows_operations none h = tt
allows_operations (some []) h = cc
allows_operations (some (o ∷ os)) h = ((λ e. cc), All-IsVerify (o ∷ os) h)

-- A JWK that passes for key binding under an algorithm declares that algorithm or none, the use
-- `sig` or none, and, if it lists operations, at least one, all of them `verify`, and no use.
pub validate_key_binding_jwk_policy-allows :
    (j : Jose) (jwk : j.Jwk) (a : Algorithm)
    → validate_key_binding_jwk_policy j jwk a ≡ ok tt
    → AllowsAlgorithm (j.algorithm_name a) (j.key_algorithm jwk)
      × AllowsUse (j.public_key_use jwk) (j.key_operations jwk)
      × AllowsOperations (j.key_operations jwk)
unfolding validate_key_binding_jwk_policy
validate_key_binding_jwk_policy-allows j jwk a h =
    let (_, e₀, h₁) =
      >>=-eq-ok (ensure (not (declares_other (j.algorithm_name a) (j.key_algorithm jwk))) _) _ h in
    let (_, e₁, h₂) = >>=-eq-ok (ensure (not (is_other_use (j.public_key_use jwk))) _) _ h₁ in
    let (_, e₂, h₃) =
      >>=-eq-ok (ensure (not (is_some (j.public_key_use jwk) && is_some (j.key_operations jwk))) _)
        _ h₂ in
    (
      allows_algorithm _ _ (not-elim _ (ensure-eq-ok _ _ e₀)),
      allows_use _ _ (not-elim _ (ensure-eq-ok _ _ e₁)) (not-elim _ (ensure-eq-ok _ _ e₂)),
      allows_operations _ (not-elim _ (ensure-eq-ok _ _ h₃)),
    )
