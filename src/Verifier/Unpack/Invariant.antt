-- ===== src/Verifier/Unpack/Invariant.antt =====
-- What unpacking in src/verifier.rs establishes: it ends within its fuel and does not panic, and of
-- the claims it gives back, how deep they are, which keys they hold, and which digests were met.

use sd_jwt_rust.Prelude.{
  ℕ, zero, suc, ◌+◌, ◌≤◌, ◌<◌, String, ◌≡◌, refl, inl, inr, true, List, ltb, arith, ltb_false→le,
  Distinct, Bool-cases,
}
use sd_jwt_rust.Prelude.Maps.{HashMap}
use sd_jwt_rust.Error.{Result, ok, ◌>>=◌, Ensures, returns, raises, Ensures-bind}
use sd_jwt_rust.Json.{
  Value, Items, Members, null, bool, number, string, array, object, nil, cons, empty, get,
  has_distinct_keys,
}
use sd_jwt_rust.Reserved.{sd_digests_key, lacks}
use sd_jwt_rust.Verifier.Unpack.{
  max_processed_sd_jwt_depth, Stateful, enter_processed_container, unpack_disclosed_claims_in_array,
  unpack_disclosed_claims_in_object, unpack_value, unpack_disclosed_claims,
}
use sd_jwt_rust.Verifier.Unpack.Clean.{
  is_digests_key, nesting, AreCleanMembers, Extends-refl, Extends-trans,
}
use sd_jwt_rust.Verifier.Unpack.Level.{Unpacked, items, members, digests_member}

-- A container that stands at depth `d` holds elements at depth `suc d`.
module _ (hashes : HashMap Value) (unpack : Value → ℕ → List String → Stateful Value) (d : ℕ)
    (deep : suc d ≤ max_processed_sd_jwt_depth)
    (rec : (v : Value) (seen : List String)
      → Distinct seen
      → Ensures (Unpacked (suc d) seen) (unpack v (suc d) seen)) where
  in_array :
      (arr : Items) (seen : List String)
      → Distinct seen
      → Ensures (Unpacked d seen) (unpack_disclosed_claims_in_array hashes unpack arr (suc d) seen)
  unfolding unpack_disclosed_claims_in_array lacks has_distinct_keys nesting
  in_array nil seen h = raises _
  in_array (cons value arr) seen h =
      Ensures-bind (items hashes unpack (suc d) deep rec (cons value arr) seen h) (λ r u. returns (
        record {
          no_digests = u.0.no_digests;
          distinct_keys = u.0.distinct_keys;
          depth = omega (arith, u.0.depth);
        },
        u.1,
      ))

  in_object :
      (m : Members) (seen : List String)
      → Distinct seen
      → Ensures (Unpacked d seen) (unpack_disclosed_claims_in_object hashes unpack m (suc d) seen)
  unfolding unpack_disclosed_claims_in_object lacks has_distinct_keys nesting
  in_object m seen h =
      let clean : AreCleanMembers (suc d) empty = record {
        no_digests = refl;
        distinct_keys = refl;
        depth = omega arith;
      } in
      Ensures-bind (members hashes unpack (suc d) deep rec empty m seen clean h) (λ r u.
        Ensures-bind
          (digests_member hashes unpack (suc d) deep rec r.0 (get sd_digests_key m) r.1 u.0
            u.1.distinct)
          (λ s w. returns (
            record {
              no_digests = w.0.no_digests;
              distinct_keys = w.0.distinct_keys;
              depth = omega (arith, w.0.depth);
            },
            Extends-trans seen r.1 s.1 u.1 w.1,
          )))

Ensures-enter {ℓ κ} :
    {A : Type ℓ} {Q : A → Type κ} (d : ℕ) (f : ℕ → Result A)
    → (suc d ≤ max_processed_sd_jwt_depth → Ensures Q (f (suc d)))
    → Ensures Q (enter_processed_container d >>= f)
unfolding enter_processed_container
Ensures-enter d f k = elim (Bool-cases (ltb max_processed_sd_jwt_depth (suc d))) [
  | inl e ↦ rw e (raises _)
  | inr e ↦ rw e (k (ltb_false→le max_processed_sd_jwt_depth (suc d) e))
]

plain_clean :
    (v : Value) (d : ℕ) (seen : List String)
    → lacks is_digests_key v ≡ true
    → has_distinct_keys v ≡ true
    → nesting v ≡ 0
    → d ≤ max_processed_sd_jwt_depth
    → Distinct seen
    → Ensures (Unpacked d seen) (ok (v, seen))
plain_clean v d seen l k n deep h =
    returns (record { no_digests = l; distinct_keys = k; depth = omega arith }, Extends-refl seen h)

-- Unpacking from a depth within the bound ends within the fuel that is left and does not panic.
-- Claims that it gives back hold the key `_sd` nowhere, hold no key twice in one object, and are not
-- nested beyond the bound; the digests that it met are distinct, from each other and from those
-- met before.
pub unpack_disclosed_claims-Unpacked :
    (hashes : HashMap Value) (fuel : ℕ) (v : Value) (d : ℕ) (seen : List String)
    → max_processed_sd_jwt_depth < fuel + d
    → d ≤ max_processed_sd_jwt_depth
    → Distinct seen
    → Ensures (Unpacked d seen) (unpack_disclosed_claims hashes fuel v d seen)
unfolding unpack_disclosed_claims unpack_value lacks has_distinct_keys nesting
unpack_disclosed_claims-Unpacked hashes zero v d seen enough deep h = absurd (omega arith)
unpack_disclosed_claims-Unpacked hashes (suc fuel) (array arr) d seen enough deep h =
    Ensures-enter d _ (λ deeper.
      in_array hashes (unpack_disclosed_claims hashes fuel) d deeper
        (λ v seen. unpack_disclosed_claims-Unpacked hashes fuel v (suc d) seen (omega arith) deeper)
        arr seen h)
unpack_disclosed_claims-Unpacked hashes (suc fuel) (object m) d seen enough deep h =
    Ensures-enter d _ (λ deeper.
      in_object hashes (unpack_disclosed_claims hashes fuel) d deeper
        (λ v seen. unpack_disclosed_claims-Unpacked hashes fuel v (suc d) seen (omega arith) deeper)
        m seen h)
unpack_disclosed_claims-Unpacked hashes (suc fuel) null d seen enough deep h =
    plain_clean null d seen refl refl refl deep h
unpack_disclosed_claims-Unpacked hashes (suc fuel) (bool b) d seen enough deep h =
    plain_clean (bool b) d seen refl refl refl deep h
unpack_disclosed_claims-Unpacked hashes (suc fuel) (number n) d seen enough deep h =
    plain_clean (number n) d seen refl refl refl deep h
unpack_disclosed_claims-Unpacked hashes (suc fuel) (string s) d seen enough deep h =
    plain_clean (string s) d seen refl refl refl deep h
