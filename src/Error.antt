-- ===== src/Error.antt =====
-- The error values of src/error.rs, and the results that carry them.
pub mod Yields
use Prim.Native.String.{◌++◌ as append}
use mathlib.Core.Logic.{◌≢◌}
use mathlib.Core.Path.{subst}
use sd_jwt_rust.Prelude.{ℕ, String, ◌≡◌, refl, Bool, true, false, Option, none, some, if◌then◌else◌}
use sd_jwt_rust.Text.{decimal}

pub data Error : Type 0 where
  conversion_error deserialization_error data_field_mismatch duplicate_digest_error : String → Error
  duplicate_key_error invalid_disclosure invalid_array_disclosure_object : String → Error
  invalid_path : String → Error
  index_out_of_bounds : ℕ → ℕ → String → Error
  invalid_state invalid_input key_not_found unspecified : String → Error

-- The `Display` text of an error, which `to_string` and `{err}` print.
abbrev pub display : Error → String
display (conversion_error m) = append "conversion error: Cannot convert to " m
display (deserialization_error m) = append "invalid input: " m
display (data_field_mismatch m) = append "data field is not expected: " m
display (duplicate_digest_error m) = append "Digest " (append m " appears multiple times")
display (duplicate_key_error m) = append "Key " (append m " appears multiple times")
display (invalid_disclosure m) = append "invalid disclosure: " m
display (invalid_array_disclosure_object m) = append "invalid array disclosure: " m
display (invalid_path m) = append "invalid path: " m
display (index_out_of_bounds idx length m) = append "index " (
    append (decimal idx) (
      append " is out of bounds for the provided array with length "
        (append (decimal length) (append ": " m))))
display (invalid_state m) = append "invalid state: " m
display (invalid_input m) = append "invalid input: " m
display (key_not_found m) = append "key not found: " m
display (unspecified m) = m

abbrev pub duplicate_disclosure_digest : String
duplicate_disclosure_digest = "Duplicate Disclosure digest"

-- `panic` is a Rust panic: an index out of range, a missing key under `[ ]`. `out_of_fuel` has no
-- counterpart in the code: a recursion whose depth only a run bounds answers it where its fuel ends.
pub data Result {ℓ} (A : Type ℓ) : Type ℓ where
  ok : A → Result A
  err : Error → Result A
  panic out_of_fuel : Result A

-- The `?` operator.
infixl 5 ◌>>=◌ ◌>>◌
abbrev pub ◌>>=◌ {ℓ κ} : {A : Type ℓ} {B : Type κ} → Result A → (A → Result B) → Result B
ok a >>= f = f a
err e >>= f = err e
panic >>= f = panic
out_of_fuel >>= f = out_of_fuel

abbrev pub ◌>>◌ {ℓ} : {B : Type ℓ} → Result (Unit {0}) → Result B → Result B
m >> k = m >>= λ _. k

-- An early `return Err(e)` where the test fails.
abbrev pub ensure : Bool → Error → Result (Unit {0})
ensure true e = ok tt
ensure false e = err e

-- `Option::ok_or`.
abbrev pub ok_or {ℓ} : {A : Type ℓ} → Option A → Error → Result A
ok_or none e = err e
ok_or (some a) e = ok a

-- What a call into another crate answers: a value, or an error of which only the text is used.
pub data Attempt {ℓ} (A : Type ℓ) : Type ℓ where
  done : A → Attempt A
  failed : String → Attempt A

-- An access that panics where nothing is found.
abbrev pub or_panic {ℓ} : {A : Type ℓ} → Option A → Result A
or_panic none = panic
or_panic (some a) = ok a

-- `Result::map_err`.
abbrev pub map_err {ℓ} : {A : Type ℓ} → Attempt A → (String → Error) → Result A
map_err (done a) f = ok a
map_err (failed m) f = err (f m)

-- `map_err` on a result of this library.
abbrev pub map_error {ℓ} : {A : Type ℓ} → Result A → (Error → Error) → Result A
map_error (ok a) f = ok a
map_error (err e) f = err (f e)
map_error panic f = panic
map_error out_of_fuel f = out_of_fuel

pub >>=-assoc {ℓ κ κ'} :
    {A : Type ℓ} {B : Type κ} {C : Type κ'} (r : Result A) (f : A → Result B) (g : B → Result C)
    → ((r >>= f) >>= g) ≡ (r >>= λ a. f a >>= g)
>>=-assoc (ok a) f g = refl
>>=-assoc (err e) f g = refl
>>=-assoc panic f g = refl
>>=-assoc out_of_fuel f g = refl

pub >>=-ap {ℓ κ} :
    {A : Type ℓ} {B : Type κ} (r : Result A) (f g : A → Result B)
    → ((a : A) → f a ≡ g a)
    → (r >>= f) ≡ (r >>= g)
>>=-ap (ok a) f g h = h a
>>=-ap (err e) f g h = refl
>>=-ap panic f g h = refl
>>=-ap out_of_fuel f g h = refl

pub >>=-ok {ℓ} : {A : Type ℓ} (r : Result A) → (r >>= ok) ≡ r
>>=-ok (ok a) = refl
>>=-ok (err e) = refl
>>=-ok panic = refl
>>=-ok out_of_fuel = refl

-- Running the same twice is running it once.
pub >>=-twice {ℓ} : {A : Type ℓ} (r : Result A) → (r >>= λ _. r) ≡ r
>>=-twice (ok a) = refl
>>=-twice (err e) = refl
>>=-twice panic = refl
>>=-twice out_of_fuel = refl

-- Inversion of a successful bind.
pub >>=-eq-ok {ℓ κ} :
    {A : Type ℓ} {B : Type κ} (r : Result A) (next : A → Result B) {x : B}
    → (r >>= next) ≡ ok x
    → (y : A) × (r ≡ ok y) × (next y ≡ ok x)
>>=-eq-ok (ok y) next e = (y, refl, e)
>>=-eq-ok (err z) next e = cc
>>=-eq-ok panic next e = cc
>>=-eq-ok out_of_fuel next e = cc

pub ensure-eq-ok : (b : Bool) (e : Error) {u : Unit {0}} → ensure b e ≡ ok u → b ≡ true
ensure-eq-ok true e h = refl
ensure-eq-ok false e h = cc

pub ok_or-eq-ok {ℓ} :
    {A : Type ℓ} (o : Option A) (e : Error) {a : A} → ok_or o e ≡ ok a → o ≡ some a
ok_or-eq-ok none e h = cc
ok_or-eq-ok (some x) e h = cc

pub map_err-eq-ok {ℓ} :
    {A : Type ℓ} (r : Attempt A) (f : String → Error) {a : A} → map_err r f ≡ ok a → r ≡ done a
map_err-eq-ok (done x) f h = cc
map_err-eq-ok (failed m) f h = cc

-- The run kept within its fuel and did not panic, and `P` holds of its value if it has one.
pub data Ensures {ℓ κ} {A : Type ℓ} (P : A → Type κ) : Result A → Type (ℓ ⊔ κ) where
  returns : {a : A} → P a → Ensures P (ok a)
  raises : (e : Error) → Ensures P (err e)

-- A result that neither panics nor runs out of fuel, with the equation that its value satisfies.
pub Ensures-self {ℓ} :
    {A : Type ℓ} (r : Result A) → r ≢ panic → r ≢ out_of_fuel → Ensures (λ a. r ≡ ok a) r
Ensures-self (ok a) p h = returns refl
Ensures-self (err e) p h = raises e
Ensures-self panic p h = absurd (p refl)
Ensures-self out_of_fuel p h = absurd (h refl)

module _ {ℓ κ} {A : Type ℓ} {P : A → Type κ} where
  pub Ensures-ok : {r : Result A} {a : A} → Ensures P r → r ≡ ok a → P a
  Ensures-ok (returns h) e = subst P (cc) h
  Ensures-ok (raises x) e = cc

  pub Ensures-ne-out_of_fuel : {r : Result A} → Ensures P r → r ≢ out_of_fuel
  Ensures-ne-out_of_fuel (returns h) = cc
  Ensures-ne-out_of_fuel (raises x) = cc

  pub Ensures-ne-panic : {r : Result A} → Ensures P r → r ≢ panic
  Ensures-ne-panic (returns h) = cc
  Ensures-ne-panic (raises x) = cc

  pub Ensures-intro :
      (r : Result A) → r ≢ panic → r ≢ out_of_fuel → ((a : A) → r ≡ ok a → P a) → Ensures P r
  Ensures-intro (ok a) p h k = returns (k a refl)
  Ensures-intro (err e) p h k = raises e
  Ensures-intro panic p h k = absurd (p refl)
  Ensures-intro out_of_fuel p h k = absurd (h refl)

  pub Ensures-weaken {κ'} :
      {Q : A → Type κ'} {r : Result A} → Ensures P r → ((a : A) → P a → Q a) → Ensures Q r
  Ensures-weaken (returns {a} h) k = returns (k a h)
  Ensures-weaken (raises x) k = raises x

  pub Ensures-bind {ℓ' κ'} :
      {B : Type ℓ'} {m : Result A} {next : A → Result B} {S : B → Type κ'}
      → Ensures P m
      → ((x : A) → P x → Ensures S (next x))
      → Ensures S (m >>= next)
  Ensures-bind (returns {a} h) k = k a h
  Ensures-bind (raises e) k = raises e

module _ {ℓ κ} {B : Type ℓ} {Q : B → Type κ} where
  -- After a guard the rest of the block may use that the test held.
  pub Ensures-ensure :
      (b : Bool) (e : Error) {k : Result B} → (b ≡ true → Ensures Q k) → Ensures Q (ensure b e >> k)
  Ensures-ensure true e h = h refl
  Ensures-ensure false e h = raises e

  pub Ensures-ok_or {ℓ'} :
      {A : Type ℓ'} (o : Option A) (e : Error) {f : A → Result B}
      → ((a : A) → o ≡ some a → Ensures Q (f a))
      → Ensures Q (ok_or o e >>= f)
  Ensures-ok_or none e h = raises e
  Ensures-ok_or (some a) e h = h a refl

  pub Ensures-map_err {ℓ'} :
      {A : Type ℓ'} (r : Attempt A) (g : String → Error) {f : A → Result B}
      → ((a : A) → r ≡ done a → Ensures Q (f a))
      → Ensures Q (map_err r g >>= f)
  Ensures-map_err (done a) g h = h a refl
  Ensures-map_err (failed m) g h = raises (g m)

  pub Ensures-if :
      (b : Bool) {x y : Result B}
      → (b ≡ true → Ensures Q x)
      → (b ≡ false → Ensures Q y)
      → Ensures Q (if b then x else y)
  Ensures-if true hx hy = hx refl
  Ensures-if false hx hy = hy refl
