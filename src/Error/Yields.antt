-- ===== src/Error/Yields.antt =====
-- What holds of a result's value if it has one: partial correctness, where `Ensures` also promises
-- that the run ends in a value or an error.
use mathlib.Core.Path.{subst}
use sd_jwt_rust.Prelude.{String, ◌≡◌, refl, Bool, true, false, Option, none, some}
use sd_jwt_rust.Error.{
  Error, Result, ok, err, panic, out_of_fuel, ◌>>=◌, ◌>>◌, ensure, ok_or, map_err, Attempt, done,
  failed, Ensures, returns, raises,
}

pub data Yields {ℓ κ} {A : Type ℓ} (P : A → Type κ) : Result A → Type (ℓ ⊔ κ) where
  yields : {a : A} → P a → Yields P (ok a)
  fails : (e : Error) → Yields P (err e)
  aborts : Yields P panic
  stops : Yields P out_of_fuel

pub Yields-self {ℓ} : {A : Type ℓ} (r : Result A) → Yields (λ a. r ≡ ok a) r
Yields-self (ok a) = yields refl
Yields-self (err e) = fails e
Yields-self panic = aborts
Yields-self out_of_fuel = stops

pub Yields-ok {ℓ κ} :
    {A : Type ℓ} {P : A → Type κ} {r : Result A} {a : A} → Yields P r → r ≡ ok a → P a
Yields-ok {P} (yields h) e = subst P (cc) h
Yields-ok (fails x) e = cc
Yields-ok aborts e = cc
Yields-ok stops e = cc

module _ {ℓ κ} {A : Type ℓ} {P : A → Type κ} where
  pub Yields-of_Ensures : {r : Result A} → Ensures P r → Yields P r
  Yields-of_Ensures (returns h) = yields h
  Yields-of_Ensures (raises e) = fails e

  pub Yields-weaken {κ'} :
      {Q : A → Type κ'} {r : Result A} → Yields P r → ((a : A) → P a → Q a) → Yields Q r
  Yields-weaken (yields {a} h) k = yields (k a h)
  Yields-weaken (fails x) k = fails x
  Yields-weaken aborts k = aborts
  Yields-weaken stops k = stops

  pub Yields-both {κ'} :
      {Q : A → Type κ'} {r : Result A} → Yields P r → Yields Q r → Yields (λ a. P a × Q a) r
  Yields-both (yields {a} h) k = yields (h, Yields-ok k refl)
  Yields-both (fails x) k = fails x
  Yields-both aborts k = aborts
  Yields-both stops k = stops

  -- A run that ends, with what holds of its value by another theorem.
  pub Ensures-both {κ'} :
      {Q : A → Type κ'} {r : Result A} → Ensures P r → Yields Q r → Ensures (λ a. P a × Q a) r
  Ensures-both (returns {a} h) k = returns (h, Yields-ok k refl)
  Ensures-both (raises e) k = raises e

  pub Yields-bind {ℓ' κ'} :
      {B : Type ℓ'} {m : Result A} {next : A → Result B} {S : B → Type κ'}
      → Yields P m
      → ((x : A) → P x → Yields S (next x))
      → Yields S (m >>= next)
  Yields-bind (yields {a} h) k = k a h
  Yields-bind (fails e) k = fails e
  Yields-bind aborts k = aborts
  Yields-bind stops k = stops

module _ {ℓ κ} {B : Type ℓ} {Q : B → Type κ} where
  pub Yields-ensure :
      (b : Bool) (e : Error) {k : Result B} → (b ≡ true → Yields Q k) → Yields Q (ensure b e >> k)
  Yields-ensure true e h = h refl
  Yields-ensure false e h = fails e

  pub Yields-ok_or {ℓ'} :
      {A : Type ℓ'} (o : Option A) (e : Error) {f : A → Result B}
      → ((a : A) → o ≡ some a → Yields Q (f a))
      → Yields Q (ok_or o e >>= f)
  Yields-ok_or none e h = fails e
  Yields-ok_or (some a) e h = h a refl

  pub Yields-map_err {ℓ'} :
      {A : Type ℓ'} (r : Attempt A) (g : String → Error) {f : A → Result B}
      → ((a : A) → r ≡ done a → Yields Q (f a))
      → Yields Q (map_err r g >>= f)
  Yields-map_err (done a) g h = h a refl
  Yields-map_err (failed m) g h = fails (g m)
