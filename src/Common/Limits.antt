-- ===== src/Common/Limits.antt =====
-- The limits that `parse_sd_jwt` of src/lib.rs enforces.
use sd_jwt_rust.Prelude.{
  not_ltb→le, suc, ℕ, ◌≤◌, String, ◌≡◌, refl, true, not, List, [], ◌∷◌, ltb, arith, length, All,
}
use sd_jwt_rust.Error.{
  ok, Ensures, returns, raises, Ensures-bind, Ensures-ensure, Ensures-ok_or, Ensures-map_err,
}
use sd_jwt_rust.Text.{split, occurrences, as_bytes}
use sd_jwt_rust.Codec.{GeneralJsonSignature, Codec}
use sd_jwt_rust.Payload.{jwt_payload_decode-Ensures}
use sd_jwt_rust.Common.{
  SdJwtCommon, SerializationFormat, compact, flattened_json, general_json, parse_compact_sd_jwt,
  parse_flattened_json_sd_jwt, parse_general_json_sd_jwt, compact_parts, only_signature,
  second_part, separator, jwt_separator, parse_sd_jwt, parse_by_format, any_longer,
  max_sd_jwt_input_bytes, max_sd_jwt_disclosures, max_sd_jwt_disclosure_bytes,
}

abbrev pub IsWithin : ℕ → String → Type 0
IsWithin limit d = length (as_bytes d) ≤ limit

any_longer-false :
    (limit : ℕ) (ds : List String) → not (any_longer limit ds) ≡ true → All (IsWithin limit) ds
unfolding any_longer
any_longer-false limit [] h = tt
any_longer-false limit (d ∷ ds) h = (ground arith, any_longer-false limit ds (ground arith))

-- What is accepted is small: the input, the number of its disclosures, and each disclosure.
pub record IsLimited (input : String) (engine : SdJwtCommon) : Type 0 where
  pub bytes : length (as_bytes input) ≤ max_sd_jwt_input_bytes
  pub count : length engine.input_disclosures ≤ max_sd_jwt_disclosures
  pub sizes : All (IsWithin max_sd_jwt_disclosure_bytes) engine.input_disclosures

module _ (c : Codec) (self : SdJwtCommon) (input : String) where
  compact_parts-Ensures :
      (parts : List String) → Ensures (λ p. compact_parts parts ≡ ok p) (compact_parts parts)
  unfolding compact_parts
  compact_parts-Ensures [] = raises _
  compact_parts-Ensures (x ∷ []) = raises _
  compact_parts-Ensures (x ∷ y ∷ ys) = returns refl

  only_signature-Ensures :
      (ss : List GeneralJsonSignature) → Ensures (λ s. only_signature ss ≡ ok s) (only_signature ss)
  unfolding only_signature
  only_signature-Ensures [] = raises _
  only_signature-Ensures (s ∷ []) = returns refl
  only_signature-Ensures (s ∷ _ ∷ _) = raises _

  -- Parsing neither panics nor needs fuel.
  parses :
      (format : SerializationFormat)
      → Ensures (λ engine. Unit {0}) (parse_by_format c format self input)
  unfolding parse_by_format parse_compact_sd_jwt parse_flattened_json_sd_jwt
      parse_general_json_sd_jwt
  parses compact =
      Ensures-ensure (not (ltb (suc max_sd_jwt_disclosures) (occurrences separator input))) _ (λ _.
        Ensures-bind (compact_parts-Ensures (split separator input)) (λ p _.
          Ensures-ok_or (second_part (split jwt_separator p.0)) _
            (λ body _. Ensures-bind (jwt_payload_decode-Ensures c body) (λ payload _. returns tt))))
  parses flattened_json = Ensures-map_err (c.read_flattened input) _ (λ parsed _.
      Ensures-bind (jwt_payload_decode-Ensures c parsed.payload) (λ payload _. returns tt))
  parses general_json = Ensures-map_err (c.read_general input) _ (λ parsed _.
      Ensures-bind (only_signature-Ensures parsed.signatures) (λ signature _.
        Ensures-bind (jwt_payload_decode-Ensures c parsed.payload) (λ payload _. returns tt)))

-- In any serialization parsing does not panic, and a presentation that parses is within the limits:
-- at most 2 MiB of input, 8192 disclosures, and 64 KiB in each of them.
pub parse_sd_jwt-IsLimited :
    (c : Codec) (self : SdJwtCommon) (input : String)
    → Ensures (IsLimited input) (parse_sd_jwt c self input)
unfolding parse_sd_jwt
parse_sd_jwt-IsLimited c self input =
    Ensures-ensure (not (ltb max_sd_jwt_input_bytes (length (as_bytes input)))) _ (λ e₀.
      Ensures-bind (parses c self input self.serialization_format) (λ parsed _.
        Ensures-ensure (not (ltb max_sd_jwt_disclosures (length parsed.input_disclosures))) _ (λ e₁.
          Ensures-ensure (not (any_longer max_sd_jwt_disclosure_bytes parsed.input_disclosures)) _
            (λ e₂. returns {a = parsed} (record {
              bytes = not_ltb→le _ _ e₀;
              count = not_ltb→le _ _ e₁;
              sizes = any_longer-false _ _ e₂;
            })))))
