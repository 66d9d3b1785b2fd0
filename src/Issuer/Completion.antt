-- ===== src/Issuer/Completion.antt =====
-- The round trip of an issued SD-JWT: what the issuer of src/issuer.rs completes in the compact form,
-- the parser of src/lib.rs takes apart again.
use Prim.Native.String.{◌++◌ as append}
use text.Mathlib.TextLemmas.{append_assoc as text_assoc, append-nil as text_nil}
use sd_jwt_rust.Prelude.{ℕ, String, ◌≡◌, sym, ap, ◌∙◌, true, none, some, List, [], ◌∷◌, ◌++◌}
use sd_jwt_rust.Error.{Result, ok, done, >>=-eq-ok}
use sd_jwt_rust.Json.{Members}
use sd_jwt_rust.Text.{as_bytes, split, join, IsFree, split-join}
use sd_jwt_rust.Codec.{Codec, base64url_encode}
use sd_jwt_rust.Jose.{Jose}
use sd_jwt_rust.Payload.{jwt_payload_decode}
use sd_jwt_rust.Common.{
  SdJwtCommon, compact, join_jwt, jwt_separator, second_part, parse_compact_sd_jwt,
  decode_header_and_get_sign_algorithm,
}
use sd_jwt_rust.Common.Parsing.{present, IsPresentable, parse_compact_sd_jwt-present}
use sd_jwt_rust.Signature.{Curves, verify_remote_signature}
use sd_jwt_rust.Signature.Checks.{verify_remote_signature-IsWellFormed}
use sd_jwt_rust.Issuer.{PreparedSdJwt, complete, complete_encoded_signature}

-- A separator behind the joined parts is one more part, which is empty.
join-snoc_empty :
    (sep p : String) (ps : List String)
    → join sep (p ∷ ps ++ "" ∷ []) ≡ append (join sep (p ∷ ps)) sep
unfolding join
join-snoc_empty sep p [] = ap (append p) (text_nil sep)
join-snoc_empty sep p (q ∷ ps) =
    ap (λ t. append p (append sep t)) (join-snoc_empty sep q ps)
    ∙ ap (append p) (sym (text_assoc sep (join sep (q ∷ ps)) sep))
    ∙ sym (text_assoc p (append sep (join sep (q ∷ ps))) sep)

-- The parts of a JWT as the issuer writes one.
second_part-join_jwt :
    (protected payload signature : String)
    → IsFree jwt_separator protected
    → IsFree jwt_separator payload
    → IsFree jwt_separator signature
    → second_part (split jwt_separator (join_jwt protected payload signature)) ≡ some payload
unfolding join_jwt second_part join
second_part-join_jwt protected payload signature h k l =
    ap second_part (split-join "." protected (payload ∷ signature ∷ []) h (k, (l, tt)))

-- A compact SD-JWT that an issuer completes is verified under the given key, and parses back into
-- its JWT, all its disclosures in order, its payload and no key binding; if the base64 texts hold
-- no `.`, neither they nor the disclosures hold `~`, the disclosures are within the parser's limit,
-- and the payload decodes.
pub complete-parse_compact_sd_jwt :
    (e : Curves) (j : Jose) (c : Codec) (install : Result (Unit {0})) (self : PreparedSdJwt)
    (signature : List ℕ) (key : j.Key) (engine : SdJwtCommon) {text : String} {payload : Members}
    → self.serialization_format ≡ compact
    → self.signing_input ≡ append self.protected (append "." self.payload)
    → complete e j c install self signature key ≡ ok text
    → IsFree jwt_separator self.protected
    → IsFree jwt_separator self.payload
    → IsFree jwt_separator (base64url_encode c signature)
    → IsPresentable
        (join_jwt self.protected self.payload (base64url_encode c signature))
        self.disclosures
        none
    → jwt_payload_decode c self.payload ≡ ok payload
    → let sd_jwt = join_jwt self.protected self.payload (base64url_encode c signature) in
      (parse_compact_sd_jwt c engine text
        ≡ ok (record engine {
          sign_alg = decode_header_and_get_sign_algorithm c sd_jwt;
          unverified_input_key_binding_jwt = none;
          input_disclosures = self.disclosures;
          unverified_sd_jwt = some sd_jwt;
          unverified_input_sd_jwt_payload = some payload;
        }))
      × (j.verify_signature
            (base64url_encode c signature)
            (as_bytes self.signing_input)
            key
            self.algorithm
          ≡ done true)
unfolding complete complete_encoded_signature join_jwt
complete-parse_compact_sd_jwt e j c install self signature key engine {text} {payload} format input
      h free_header free_payload free_signature ready decoded =
    let sd_jwt = join_jwt self.protected self.payload (base64url_encode c signature) in
    let (_, valid, written) =
      >>=-eq-ok
        (verify_remote_signature e j c install self.algorithm (as_bytes self.signing_input)
          signature key)
        _ h in
    let (_, verifies) =
      verify_remote_signature-IsWellFormed e j c install self.algorithm
        (as_bytes self.signing_input) signature key valid in
    let signed : append self.signing_input (append "." (base64url_encode c signature)) ≡ sd_jwt =
      ap (λ t. append t (append "." (base64url_encode c signature))) input
      ∙ text_assoc self.protected (append "." self.payload)
          (append "." (base64url_encode c signature))
      ∙ ap (append self.protected)
          (text_assoc "." self.payload (append "." (base64url_encode c signature))) in
    let whole : text ≡ present sd_jwt self.disclosures none =
      same_text (rw (format, signed) at written)
      ∙ sym (join-snoc_empty "~" sd_jwt self.disclosures) in
    (
      rw whole (
          parse_compact_sd_jwt-present c engine sd_jwt self.disclosures none self.payload payload
            ready
            (second_part-join_jwt self.protected self.payload (base64url_encode c signature)
              free_header free_payload free_signature)
            decoded),
      verifies,
    )
  where
    same_text : {a b : String} → Result.ok a ≡ ok b → b ≡ a
    same_text k = cc
