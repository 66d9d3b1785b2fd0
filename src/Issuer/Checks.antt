-- ===== src/Issuer/Checks.antt =====
-- What the checks of src/issuer.rs ensure before a walk over the claims starts.

use sd_jwt_rust.Prelude.{String, ◌≡◌, refl, Bool, true, false, Option, none, some, List, [], ◌∷◌}
use sd_jwt_rust.Error.{
  Error, Result, ok, err, panic, out_of_fuel, Ensures, returns, raises, Ensures-bind, Ensures-ok_or,
  Ensures-self, ensure, Ensures-if, Ensures-weaken, Ensures-ne-panic, Ensures-ne-out_of_fuel,
}
use sd_jwt_rust.Json.{
  Value, Items, Members, null, bool, number, string, array, object, nil, cons, empty, member,
  as_object,
}
use sd_jwt_rust.Jose.{Jose}
use sd_jwt_rust.Policy.{validate_public_confirmation_claim, validate_jwk, confirmation_jwk}
use sd_jwt_rust.Reserved.{check_for_sd_claim, check_items, check_members, is_reserved}
use sd_jwt_rust.Strategy.{
  ClaimsForSelectiveDisclosureStrategy, finalize_input, finalize_keys, strip_prefix,
}
use sd_jwt_rust.Issuer.{Signing, validate_user_claims, validate_public_holder_key}

-- A result of no value: an error, or the value that there is.
abbrev pub Checks : Result (Unit {0}) → Type 0
Checks r = Ensures (λ _. r ≡ ok tt) r

Checks-ok : (r : Result (Unit {0})) → Ensures (λ _. Unit {0}) r → Checks r
Checks-ok (ok u) h = returns refl
Checks-ok (err e) h = raises e
Checks-ok panic h = absurd (Ensures-ne-panic h refl)
Checks-ok out_of_fuel h = absurd (Ensures-ne-out_of_fuel h refl)

ensure-Ensures : (b : Bool) (e : Error) → Ensures (λ _. Unit {0}) (ensure b e)
ensure-Ensures true e = returns tt
ensure-Ensures false e = raises e

validate_public_confirmation_claim-Checks :
    (claims : Members) → Checks (validate_public_confirmation_claim claims)
unfolding validate_public_confirmation_claim validate_jwk
validate_public_confirmation_claim-Checks claims = Checks-ok _ (go (confirmation_jwk claims))
  where
    go : (jwk : Option Value) → Ensures (λ _. Unit {0}) (validate_jwk jwk)
    go none = returns tt
    go (some jwk) = Ensures-ok_or (as_object jwk) _ λ m _. ensure-Ensures _ _

pub holder_key-Checks :
    (j : Jose) (signing : Signing j) (key : Option j.Jwk)
    → Checks (validate_public_holder_key j signing key)
unfolding validate_public_holder_key
holder_key-Checks j signing none = returns refl
holder_key-Checks j signing (some key) = Checks-ok _ (ensure-Ensures _ _)

pub user_claims-Checks :
    (v : Value)
    → Ensures
        (λ _.
          (claims : Members) × (as_object v ≡ some claims)
          × (validate_public_confirmation_claim claims ≡ ok tt))
        (validate_user_claims v)
unfolding validate_user_claims
user_claims-Checks v = Ensures-ok_or (as_object v) _ λ claims e.
    Ensures-weaken (validate_public_confirmation_claim-Checks claims) λ _ h. (claims, e, h)

mutual
  unfolding check_for_sd_claim

  reserved-Ensures : (v : Value) → Ensures (λ _. Unit {0}) (check_for_sd_claim v)
  reserved-Ensures null = returns tt
  reserved-Ensures (bool b) = returns tt
  reserved-Ensures (number n) = returns tt
  reserved-Ensures (string s) = returns tt
  reserved-Ensures (array xs) = reserved-Ensures_items xs
  reserved-Ensures (object m) = reserved-Ensures_members m

  reserved-Ensures_items : (xs : Items) → Ensures (λ _. Unit {0}) (check_items xs)
  reserved-Ensures_items nil = returns tt
  reserved-Ensures_items (cons v xs) =
      Ensures-bind (reserved-Ensures v) λ _ _. reserved-Ensures_items xs

  reserved-Ensures_members : (m : Members) → Ensures (λ _. Unit {0}) (check_members m)
  reserved-Ensures_members empty = returns tt
  reserved-Ensures_members (member k v m) =
      Ensures-if (is_reserved k) (λ _. raises _)
        λ _. Ensures-bind (reserved-Ensures v) λ _ _. reserved-Ensures_members m

pub reserved-Checks : (v : Value) → Checks (check_for_sd_claim v)
reserved-Checks v = Checks-ok (check_for_sd_claim v) (reserved-Ensures v)

finalize_keys-ends : (keys : List String) → Ensures (λ _. Unit {0}) (finalize_keys keys)
unfolding finalize_keys
finalize_keys-ends [] = returns tt
finalize_keys-ends (key ∷ keys) =
    Ensures-ok_or (strip_prefix "$." key) _
      λ _ _. Ensures-bind (finalize_keys-ends keys) λ _ _. returns tt

finalize_keys-Ensures :
    (keys : List String) → Ensures (λ new. finalize_keys keys ≡ ok new) (finalize_keys keys)
finalize_keys-Ensures keys =
    Ensures-self (finalize_keys keys) (Ensures-ne-panic (finalize_keys-ends keys))
      (Ensures-ne-out_of_fuel (finalize_keys-ends keys))

pub finalize_input-Ensures :
    (strategy : ClaimsForSelectiveDisclosureStrategy)
    → Ensures (λ paths. finalize_input strategy ≡ ok paths) (finalize_input strategy)
unfolding finalize_input
finalize_input-Ensures ClaimsForSelectiveDisclosureStrategy.no_sd_claims = returns refl
finalize_input-Ensures ClaimsForSelectiveDisclosureStrategy.top_level = returns refl
finalize_input-Ensures ClaimsForSelectiveDisclosureStrategy.all_levels = returns refl
finalize_input-Ensures (ClaimsForSelectiveDisclosureStrategy.custom keys) =
    Ensures-bind (finalize_keys-Ensures keys) λ new e. rw e (returns refl)
