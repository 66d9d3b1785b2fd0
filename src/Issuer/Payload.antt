-- ===== src/Issuer/Payload.antt =====
-- What stands in the payload that src/issuer.rs signs.
use sd_jwt_rust.Prelude.{
  String, ◌≡◌, refl, ◌∙◌, ap, Option, none, some, List, [], ◌∷◌, ◌==◌, eq_iff, arith, false,
  contains,
}
use sd_jwt_rust.Json.{
  Value, Members, string, object, empty, member, get, insert, shift_remove, get-insert,
}
use sd_jwt_rust.Jose.{Jose}
use sd_jwt_rust.Policy.{cnf_key, jwk_key}
use sd_jwt_rust.Reserved.{digest_alg_key}
use sd_jwt_rust.Issuer.{
  Signing, always_revealed, reveal, append_members, confirm, payload_of, default_digest_alg,
}

get-shift_remove :
    (k j : String) (m : Members) → (k == j) ≡ false → get j (shift_remove k m) ≡ get j m
get-shift_remove k j empty h = refl
get-shift_remove k j (member i v m) h =
    ground (arith, eq_iff i k, eq_iff i j, get-shift_remove k j m)

-- A member that is appended last wins; one that is not appended stays.
get-append_members_absent :
    (k : String) (m r : Members) → get k r ≡ none → get k (append_members m r) ≡ get k m
unfolding append_members
get-append_members_absent k m empty h = refl
get-append_members_absent k m (member j v r) h =
    ground (arith, get-append_members_absent k (insert j v m) r, get-insert j k v m)

-- No key stands twice.
abbrev AreDistinct : Members → Type 0
AreDistinct empty = Unit
AreDistinct (member k v m) = (get k m ≡ none) × AreDistinct m

get-append_members :
    (k : String) (m r : Members) (v : Value)
    → AreDistinct r
    → get k r ≡ some v
    → get k (append_members m r) ≡ some v
unfolding append_members
get-append_members k m empty v d h = cc
get-append_members k m (member j w r) v d h = ground (
  arith,
  eq_iff j k,
  get-append_members k (insert j w m) r v d.1,
  get-append_members_absent k (insert j w m) r,
  get-insert j k w m,
)

-- A member that may be there, before others.
abbrev with_member : String → Option Value → Members → Members
with_member k none m = m
with_member k (some v) m = member k v m

abbrev three : Option Value → Option Value → Option Value → Members
three a b c = with_member "iss" a (with_member "iat" b (with_member "exp" c empty))

three-AreDistinct : (a b c : Option Value) → AreDistinct (three a b c)
three-AreDistinct none none none = tt
three-AreDistinct none none (some z) = (refl, tt)
three-AreDistinct none (some y) none = (refl, tt)
three-AreDistinct none (some y) (some z) = (refl, (refl, tt))
three-AreDistinct (some x) none none = (refl, tt)
three-AreDistinct (some x) none (some z) = (refl, (refl, tt))
three-AreDistinct (some x) (some y) none = (refl, (refl, tt))
three-AreDistinct (some x) (some y) (some z) = (refl, (refl, (refl, tt)))

get-three :
    (a b c : Option Value)
    → (get "iss" (three a b c) ≡ a)
      × (get "iat" (three a b c) ≡ b)
      × (get "exp" (three a b c) ≡ c)
      × (get digest_alg_key (three a b c) ≡ none)
get-three none none none = (refl, refl, refl, refl)
get-three none none (some z) = (refl, refl, refl, refl)
get-three none (some y) none = (refl, refl, refl, refl)
get-three none (some y) (some z) = (refl, refl, refl, refl)
get-three (some x) none none = (refl, refl, refl, refl)
get-three (some x) none (some z) = (refl, refl, refl, refl)
get-three (some x) (some y) none = (refl, refl, refl, refl)
get-three (some x) (some y) (some z) = (refl, refl, refl, refl)

reveal-three :
    (claims : Members)
    → (reveal always_revealed claims).0
      ≡ three (get "iss" claims) (get "iat" claims) (get "exp" claims)
unfolding reveal
reveal-three claims = ground (
  arith,
  get-shift_remove "iss" "iat" claims refl,
  get-shift_remove "iat" "exp" (shift_remove "iss" claims) refl,
  get-shift_remove "iss" "exp" claims refl,
)

-- Every key that the issuer itself puts into a payload.
abbrev pub issuer_keys : List String
issuer_keys = "iss" ∷ "iat" ∷ "exp" ∷ digest_alg_key ∷ cnf_key ∷ []

module _ (j : Jose) (signing : Signing j) where
  -- The payload names the digest algorithm, shows each claim that is always revealed as the user gave
  -- it, holds the holder's key where there is one, and is as published under all other keys.
  pub record IsPayload (published claims : Members) (holder_key : Option j.Jwk) (payload : Members)
      : Type 0 where
    pub digest_alg : get digest_alg_key payload ≡ some (string default_digest_alg)
    pub issued_by : (v : Value) → get "iss" claims ≡ some v → get "iss" payload ≡ some v
    pub issued_at : (v : Value) → get "iat" claims ≡ some v → get "iat" payload ≡ some v
    pub expires : (v : Value) → get "exp" claims ≡ some v → get "exp" payload ≡ some v
    pub confirmation :
        (key : j.Jwk)
        → holder_key ≡ some key
        → get cnf_key payload ≡ some (object (member jwk_key (signing.jwk_to_value key) empty))
    pub others : (k : String) → contains issuer_keys k ≡ false → get k payload ≡ get k published

  get-confirm :
      (k : String) (holder_key : Option j.Jwk) (m : Members)
      → (cnf_key == k) ≡ false
      → get k (confirm j signing holder_key m) ≡ get k m
  unfolding confirm
  get-confirm k none m h = refl
  get-confirm k (some key) m h = rw (get-insert cnf_key k) (rw h)

  confirmed :
      (holder_key : Option j.Jwk) (m : Members) (key : j.Jwk)
      → holder_key ≡ some key
      → get cnf_key (confirm j signing holder_key m)
        ≡ some (object (member jwk_key (signing.jwk_to_value key) empty))
  unfolding confirm
  confirmed none m key h = cc
  confirmed (some k) m key h =
      let same : k ≡ key = cc in
      get-insert cnf_key cnf_key _ m
      ∙ ap (λ x. some (object (member jwk_key (signing.jwk_to_value x) empty))) same

  get-three_absent :
      (k : String) (a b c : Option Value)
      → contains issuer_keys k ≡ false
      → get k (three a b c) ≡ none
  unfolding contains
  get-three_absent k none none none h = refl
  get-three_absent k none none (some z) h = ground arith
  get-three_absent k none (some y) none h = ground arith
  get-three_absent k none (some y) (some z) h = ground arith
  get-three_absent k (some x) none none h = ground arith
  get-three_absent k (some x) none (some z) h = ground arith
  get-three_absent k (some x) (some y) none h = ground arith
  get-three_absent k (some x) (some y) (some z) h = ground arith

  not_cnf : (k : String) → contains issuer_keys k ≡ false → (cnf_key == k) ≡ false
  unfolding contains
  not_cnf k h = ground arith

  get-insert_other :
      (k : String)
      → contains issuer_keys k ≡ false
      → (published : Members)
      → get k (insert digest_alg_key (string default_digest_alg) published) ≡ get k published
  unfolding contains
  get-insert_other k h published =
      ground (arith, get-insert digest_alg_key k (string default_digest_alg) published)

  pub payload_of-IsPayload :
      (published claims : Members) (holder_key : Option j.Jwk)
      → IsPayload published claims holder_key
          (payload_of j signing published (reveal always_revealed claims).0 holder_key)
  unfolding payload_of
  payload_of-IsPayload published claims holder_key =
      let a = get "iss" claims in
      let b = get "iat" claims in
      let c = get "exp" claims in
      let start = insert digest_alg_key (string default_digest_alg) published in
      let distinct = three-AreDistinct a b c in
      let (iss, iat, exp, alg) = get-three a b c in
      rw (reveal-three claims) (record {
        digest_alg =
            get-confirm digest_alg_key holder_key _ refl
            ∙ get-append_members_absent digest_alg_key start (three a b c) alg
            ∙ get-insert digest_alg_key digest_alg_key _ published;
        issued_by = λ v e.
            get-confirm "iss" holder_key _ refl
            ∙ get-append_members "iss" start (three a b c) v distinct (iss ∙ e);
        issued_at = λ v e.
            get-confirm "iat" holder_key _ refl
            ∙ get-append_members "iat" start (three a b c) v distinct (iat ∙ e);
        expires = λ v e.
            get-confirm "exp" holder_key _ refl
            ∙ get-append_members "exp" start (three a b c) v distinct (exp ∙ e);
        confirmation = confirmed holder_key _;
        others = λ k h.
            get-confirm k holder_key _ (not_cnf k h)
            ∙ get-append_members_absent k start (three a b c) (get-three_absent k a b c h)
            ∙ get-insert_other k h published;
      })
