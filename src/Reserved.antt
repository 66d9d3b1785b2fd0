-- ===== src/Reserved.antt =====
-- `check_for_sd_claim` of src/lib.rs: the issuer's search of the claims for the two reserved keys.
use Prim.Native.String.{◌++◌ as append}
use sd_jwt_rust.Prelude.{
  String, ◌≡◌, refl, ◌↔◌, Bool, true, false, ◌&&◌, ◌||◌, not, ◌==◌, if◌then◌else◌, and-intro,
  and-elim, not-intro, not-elim,
}
use sd_jwt_rust.Error.{Result, ok, err, panic, out_of_fuel, ◌>>◌, data_field_mismatch}
use sd_jwt_rust.Json.{
  Value, Items, Members, null, bool, number, string, array, object, nil, cons, empty, member,
}

abbrev pub sd_digests_key : String
sd_digests_key = "_sd"

abbrev pub digest_alg_key : String
digest_alg_key = "_sd_alg"

abbrev pub sd_list_prefix : String
sd_list_prefix = "..."

unfoldable mutual
  pub check_for_sd_claim : Value → Result (Unit {0})
  check_for_sd_claim null = ok tt
  check_for_sd_claim (bool b) = ok tt
  check_for_sd_claim (number n) = ok tt
  check_for_sd_claim (string s) = ok tt
  check_for_sd_claim (array xs) = check_items xs
  check_for_sd_claim (object m) = check_members m

  pub check_items : Items → Result (Unit {0})
  check_items nil = ok tt
  check_items (cons v xs) = check_for_sd_claim v >> check_items xs

  pub check_members : Members → Result (Unit {0})
  check_members empty = ok tt
  check_members (member k v m) =
      let rest = check_for_sd_claim v >> check_members m in
      if k == sd_digests_key || k == sd_list_prefix
      then err (data_field_mismatch (append "Claim object cannot have `" (append k "` field")))
      else rest

-- A key, at any depth, fails a test.
abbrev pub is_reserved : String → Bool
is_reserved k = k == sd_digests_key || k == sd_list_prefix

-- No object, at any depth, holds a key that the test picks.
module _ (p : String → Bool) where
  unfoldable mutual
    pub lacks : Value → Bool
    lacks null = true
    lacks (bool b) = true
    lacks (number n) = true
    lacks (string s) = true
    lacks (array xs) = items_lack xs
    lacks (object m) = members_lack m

    pub items_lack : Items → Bool
    items_lack nil = true
    items_lack (cons v xs) = lacks v && items_lack xs

    pub members_lack : Members → Bool
    members_lack empty = true
    members_lack (member k v m) = not (p k) && (lacks v && members_lack m)

if-eq-ok :
    (b : Bool) (e : _) {r : Result (Unit {0})}
    → (if b then err e else r) ≡ ok tt
    → (b ≡ false) × (r ≡ ok tt)
if-eq-ok true e h = cc
if-eq-ok false e h = (refl, h)

seq-eq-ok : (r s : Result (Unit {0})) → (r >> s) ≡ ok tt → (r ≡ ok tt) × (s ≡ ok tt)
seq-eq-ok (ok u) s h = (refl, h)
seq-eq-ok (err e) s h = cc
seq-eq-ok panic s h = cc
seq-eq-ok out_of_fuel s h = cc

mutual
  unfolding check_for_sd_claim lacks

  sound : (v : Value) → check_for_sd_claim v ≡ ok tt → lacks is_reserved v ≡ true
  sound null h = refl
  sound (bool b) h = refl
  sound (number n) h = refl
  sound (string s) h = refl
  sound (array xs) h = sound_items xs h
  sound (object m) h = sound_members m h

  sound_items : (xs : Items) → check_items xs ≡ ok tt → items_lack is_reserved xs ≡ true
  sound_items nil h = refl
  sound_items (cons v xs) h =
      let (hv, hs) = seq-eq-ok (check_for_sd_claim v) (check_items xs) h in
      and-intro _ _ (sound v hv) (sound_items xs hs)

  sound_members : (m : Members) → check_members m ≡ ok tt → members_lack is_reserved m ≡ true
  sound_members empty h = refl
  sound_members (member k v m) h =
      let (hk, hr) = if-eq-ok (is_reserved k) _ h in
      let (hv, hs) = seq-eq-ok (check_for_sd_claim v) (check_members m) hr in
      and-intro _ _ (not-intro _ hk) (and-intro _ _ (sound v hv) (sound_members m hs))

mutual
  unfolding check_for_sd_claim lacks

  complete : (v : Value) → lacks is_reserved v ≡ true → check_for_sd_claim v ≡ ok tt
  complete null h = refl
  complete (bool b) h = refl
  complete (number n) h = refl
  complete (string s) h = refl
  complete (array xs) h = complete_items xs h
  complete (object m) h = complete_members m h

  complete_items : (xs : Items) → items_lack is_reserved xs ≡ true → check_items xs ≡ ok tt
  complete_items nil h = refl
  complete_items (cons v xs) h =
      let (hv, hs) = and-elim (lacks is_reserved v) (items_lack is_reserved xs) h in
      rw (complete v hv, complete_items xs hs)

  complete_members : (m : Members) → members_lack is_reserved m ≡ true → check_members m ≡ ok tt
  complete_members empty h = refl
  complete_members (member k v m) h =
      let (hk, hr) =
        and-elim (not (is_reserved k)) (lacks is_reserved v && members_lack is_reserved m) h in
      let (hv, hs) = and-elim (lacks is_reserved v) (members_lack is_reserved m) hr in
      rw (not-elim _ hk, complete v hv, complete_members m hs)

-- The check passes a value exactly where no object in it, at any depth, holds `_sd` or `...`.
pub check_for_sd_claim-lacks :
    (v : Value) → (check_for_sd_claim v ≡ ok tt) ↔ (lacks is_reserved v ≡ true)
check_for_sd_claim-lacks v = (sound v, complete v)
