-- ===== src/Common/Parsing.antt =====
-- The compact serialization of src/lib.rs: what `parse_compact_sd_jwt` takes apart is all of its
-- input, and a presentation put together with `~` is read back.
use mathlib.Core.Path.{subst}
use sd_jwt_rust.Prelude.{
  suc, ◌≤◌, String, ◌≡◌, refl, sym, ap, ◌∙◌, not, Option, none, some, List, [], ◌∷◌, ◌++◌, ltb,
  le→ltb_false, inl, inr, All, All-append, ◌==◌, eq_iff, Bool-cases,
}
use sd_jwt_rust.Error.{ok, Ensures, returns, raises, Ensures-bind, Ensures-ensure, Ensures-ok_or}
use sd_jwt_rust.Json.{Members}
use sd_jwt_rust.Text.{split, join, occurrences, IsFree, join-split, split-join, split-All}
use sd_jwt_rust.Codec.{Codec}
use sd_jwt_rust.Payload.{jwt_payload_decode, jwt_payload_decode-Ensures}
use sd_jwt_rust.Common.{
  SdJwtCommon, parse_compact_sd_jwt, compact_parts, next_back, non_empty, second_part, separator,
  jwt_separator, max_sd_jwt_disclosures, decode_header_and_get_sign_algorithm,
}

-- The text behind the last `~`: the key-binding JWT, or nothing.
abbrev pub trailing_of : Option String → String
trailing_of none = ""
trailing_of (some kb) = kb

-- A compact presentation.
abbrev pub present : String → List String → Option String → String
present sd_jwt disclosures kb = join "~" (sd_jwt ∷ disclosures ++ trailing_of kb ∷ [])

next_back-snoc :
    (p : String) (ps : List String) → (next_back p ps).1 ++ (next_back p ps).0 ∷ [] ≡ p ∷ ps
unfolding next_back
next_back-snoc p [] = refl
next_back-snoc p (q ∷ qs) = ap (λ l. p ∷ l) (next_back-snoc q qs)

trailing_of-non_empty : (t : String) → trailing_of (non_empty t) ≡ t
unfolding non_empty
trailing_of-non_empty t = elim (Bool-cases (t == "")) [
  | inl e ↦ rw (e, (eq_iff t "").0 e)
  | inr e ↦ rw e
]

-- What the parts of a compact presentation are.
abbrev pub ArePartsOf : List String → String × String × List String → Type 0
ArePartsOf parts (sd_jwt, trailing, disclosures) = sd_jwt ∷ disclosures ++ trailing ∷ [] ≡ parts

compact_parts-ArePartsOf : (parts : List String) → Ensures (ArePartsOf parts) (compact_parts parts)
unfolding compact_parts
compact_parts-ArePartsOf [] = raises _
compact_parts-ArePartsOf (x ∷ []) = raises _
compact_parts-ArePartsOf (x ∷ p ∷ ps) = returns (ap (λ l. x ∷ l) (next_back-snoc p ps))

-- The engine holds all of a compact presentation: its JWT, its disclosures and its key-binding JWT,
-- joined by `~`, are the input.
pub record IsParsed (c : Codec) (input : String) (engine : SdJwtCommon) : Type 0 where
  pub sd_jwt : String
  pub stored : engine.unverified_sd_jwt ≡ some sd_jwt
  pub joined :
      present sd_jwt engine.input_disclosures engine.unverified_input_key_binding_jwt ≡ input
  pub jwt_free : IsFree separator sd_jwt
  pub disclosures_free : All (IsFree separator) engine.input_disclosures
  pub kb_free : IsFree separator (trailing_of engine.unverified_input_key_binding_jwt)
  pub body : String
  pub second : second_part (split jwt_separator sd_jwt) ≡ some body
  pub payload : Members
  pub decoded : jwt_payload_decode c body ≡ ok payload
  pub published : engine.unverified_input_sd_jwt_payload ≡ some payload

All-snoc {ℓ κ} :
    {A : Type ℓ} (P : A → Type κ) (xs : List A) (y : A) → All P (xs ++ y ∷ []) → All P xs × P y
All-snoc P [] y h = (tt, h.0)
All-snoc P (x ∷ xs) y h = let (hs, hy) = All-snoc P xs y h.1 in ((h.0, hs), hy)

-- The parts in front of the last, and the last, do not hold the separator.
ArePartsOf-IsFree :
    (input : String) (p : String × String × List String)
    → ArePartsOf (split separator input) p
    → IsFree separator p.0 × All (IsFree separator) p.2 × IsFree separator p.1
ArePartsOf-IsFree input (sd_jwt, trailing, disclosures) e =
    let free =
      All-snoc (IsFree separator) (sd_jwt ∷ disclosures) trailing
        (subst (All (IsFree separator)) (sym e) (split-All separator input)) in
    (free.0.0, free.0.1, free.1)

-- A compact presentation that parses is its JWT, its disclosures and its key-binding JWT, joined by
-- `~`: the parser drops and invents nothing. No `~` stands in any of them. The payload is the decoded second part of the JWT.
pub parse_compact_sd_jwt-IsParsed :
    (c : Codec) (self : SdJwtCommon) (input : String)
    → Ensures (IsParsed c input) (parse_compact_sd_jwt c self input)
unfolding parse_compact_sd_jwt
parse_compact_sd_jwt-IsParsed c self input =
    Ensures-ensure (not (ltb (suc max_sd_jwt_disclosures) (occurrences separator input))) _ (λ _.
      Ensures-bind (compact_parts-ArePartsOf (split separator input)) (λ p parts.
        Ensures-ok_or (second_part (split jwt_separator p.0)) _ (λ body second.
          Ensures-bind (jwt_payload_decode-Ensures c body) (λ payload decoded. returns (record {
            sd_jwt = p.0;
            stored = refl;
            joined = rw (trailing_of-non_empty p.1) (ap (join "~") parts ∙ join-split "~" input);
            jwt_free = (ArePartsOf-IsFree input p parts).0;
            disclosures_free = (ArePartsOf-IsFree input p parts).1;
            kb_free = rw (trailing_of-non_empty p.1) (ArePartsOf-IsFree input p parts).2;
            body = body;
            second = second;
            payload = payload;
            decoded = decoded;
            published = refl;
          })))))

next_back-of_snoc :
    (p : String) (ps : List String) (t : String) → next_back p (ps ++ t ∷ []) ≡ (t, p ∷ ps)
unfolding next_back
next_back-of_snoc p [] t = refl
next_back-of_snoc p (q ∷ qs) t = ap (λ r. (r.0, p ∷ r.1)) (next_back-of_snoc q qs t)

compact_parts-snoc :
    (j : String) (ds : List String) (t : String) → compact_parts (j ∷ ds ++ t ∷ []) ≡ ok (j, t, ds)
unfolding compact_parts next_back
compact_parts-snoc j [] t = refl
compact_parts-snoc j (d ∷ ds) t = ap (λ r. ok (j, r.0, r.1)) (next_back-of_snoc d ds t)

-- What a presentation's key-binding JWT may be: a text without `~`, and not the empty one.
pub record IsPresentable (sd_jwt : String) (disclosures : List String) (kb : Option String)
    : Type 0 where
  pub jwt_free : IsFree separator sd_jwt
  pub disclosures_free : All (IsFree separator) disclosures
  pub kb_free : IsFree separator (trailing_of kb)
  pub kb_non_empty : non_empty (trailing_of kb) ≡ kb
  pub within : occurrences separator (present sd_jwt disclosures kb) ≤ suc max_sd_jwt_disclosures

-- A JWT, disclosures and a key-binding JWT that `~` does not stand in, put together as a compact
-- presentation within the limit, are read back as they were, if the JWT's payload decodes.
pub parse_compact_sd_jwt-present :
    (c : Codec) (self : SdJwtCommon) (sd_jwt : String) (disclosures : List String)
    (kb : Option String) (body : String) (payload : Members)
    → IsPresentable sd_jwt disclosures kb
    → second_part (split jwt_separator sd_jwt) ≡ some body
    → jwt_payload_decode c body ≡ ok payload
    → parse_compact_sd_jwt c self (present sd_jwt disclosures kb)
      ≡ ok (record self {
        sign_alg = decode_header_and_get_sign_algorithm c sd_jwt;
        unverified_input_key_binding_jwt = kb;
        input_disclosures = disclosures;
        unverified_sd_jwt = some sd_jwt;
        unverified_input_sd_jwt_payload = some payload;
      })
unfolding parse_compact_sd_jwt
parse_compact_sd_jwt-present c self sd_jwt disclosures kb body payload ready second decoded =
    let parts = split-join "~" sd_jwt (disclosures ++ trailing_of kb ∷ []) ready.jwt_free (
      All-append (IsFree separator) disclosures (trailing_of kb ∷ []) ready.disclosures_free
        (ready.kb_free, tt)) in
    rw (le→ltb_false (suc max_sd_jwt_disclosures) _ ready.within) (
      rw parts (
        rw (compact_parts-snoc sd_jwt disclosures (trailing_of kb))
          (rw (second) (rw (decoded) (rw (ready.kb_non_empty))))))
