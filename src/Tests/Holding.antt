-- ===== src/Tests/Holding.antt =====
-- Runs of src/holder.rs.
use Prim.Native.String.{◌++◌ as append}
use sd_jwt_rust.Prelude.{String, ◌≡◌, refl, true, some, [], ◌∷◌, Bool, false, ◌==◌, if◌then◌else◌}
use sd_jwt_rust.Error.{Error, Result, ok, done, Ensures, returns, raises}
use sd_jwt_rust.Text.{as_bytes, join}
use sd_jwt_rust.Text.Utf8.{from_utf8}
use sd_jwt_rust.Codec.{base64url_encode}
use sd_jwt_rust.Jose.{eddsa}
use sd_jwt_rust.Policy.{default_policy}
use sd_jwt_rust.Common.{compact}
use sd_jwt_rust.Common.Parsing.{present}
use sd_jwt_rust.Signature.{verify_remote_signature}
use sd_jwt_rust.Signature.Checks.{IsWellFormed}
use sd_jwt_rust.Holder.{PreparedKeyBindingPresentation, build, complete}
use sd_jwt_rust.Holder.Construction.{IsHeld, IsTotal, build-IsHeld}
use sd_jwt_rust.Holder.Completion.{complete-present}
use sd_jwt_rust.Prelude.{none}
use sd_jwt_rust.Error.{panic, err, invalid_state}
use sd_jwt_rust.Json.{Members, bool, array, object, nil, cons, empty, member}
use sd_jwt_rust.Prelude.Maps.{lookup, insert}
use sd_jwt_rust.Common.{new_engine, and_then}
use sd_jwt_rust.Policy.{object_at}
use sd_jwt_rust.Holder.{SdJwtHolder}
use sd_jwt_rust.Holder.Selection.{sd_map, select_disclosures, select_claim}
use sd_jwt_rust.Holder.Selection.Held.{select_disclosures-panic}
use sd_jwt_rust.Tests.Setting.{
  codec, jose, resolver, curves, ones, claims, first_disclosure, second_disclosure,
}

ensures_if :
    (b : Bool) (k : String) (e : Error)
    → Ensures
        (λ key. (if b then ok k else Result.err e) ≡ ok key)
        (if b then ok k else Result.err e)
ensures_if true k e = returns refl
ensures_if false k e = raises _

resolver-IsTotal : IsTotal jose default_policy (some resolver)
resolver-IsTotal issuer header = ensures_if (issuer == "me") _ _

build-IsHeld_example :
    Ensures
      (IsHeld jose default_policy codec "h.p.s~d1~d2~" compact (some resolver))
      (build jose default_policy codec (ok tt) "h.p.s~d1~d2~" compact (some resolver))
build-IsHeld_example =
    build-IsHeld jose default_policy codec (ok tt) "h.p.s~d1~d2~" compact (some resolver)
      (returns refl) resolver-IsTotal

abbrev prepared : PreparedKeyBindingPresentation jose
prepared = record {
  algorithm = eddsa;
  disclosures = "d1" ∷ [];
  serialization_format = compact;
  serialized_sd_jwt = "h.p.s";
  signing_input = "k.b";
  verification_key = "holder key";
}

abbrev completed : String
completed = append "h.p.s~d1~k.b." (base64url_encode codec (ones 64))

completed-ok : complete jose curves codec (ok tt) prepared (ones 64) ≡ ok completed
unfolding complete verify_remote_signature ones join base64url_encode from_utf8
completed-ok = refl

complete-present_example :
    (completed
      ≡ present "h.p.s"
          ("d1" ∷ [])
          (some (append "k.b" (append "." (base64url_encode codec (ones 64))))))
    × IsWellFormed curves eddsa (ones 64)
    × (jose.verify_signature (base64url_encode codec (ones 64)) (as_bytes "k.b") "holder key" eddsa
        ≡ done true)
complete-present_example =
    complete-present jose curves codec (ok tt) prepared (ones 64) refl completed-ok

abbrev holder : SdJwtHolder
holder = record {
  sd_jwt_engine = record (new_engine compact) {
    hash_to_decoded_disclosure = ("d1", first_disclosure) ∷ ("d2", second_disclosure) ∷ [];
    hash_to_disclosure = ("d1", "d1") ∷ ("d2", "d2") ∷ [];
  };
  hs_disclosures = [];
  serialized_key_binding_jwt = "";
  sd_jwt_payload = claims;
  serialized_sd_jwt = "h.p.s";
}

-- The name, and the first element of the list.
abbrev request : Members
request = member "name" (bool true) (member "list" (array (cons (bool true) nil)) empty)

abbrev presenting : SdJwtHolder
presenting = record holder { hs_disclosures = "d1" ∷ "d2" ∷ [] }

not_clear : object_at "address" claims ≡ none
unfolding object_at
not_clear = refl

not_hidden :
    lookup "address" (
      sd_map holder.sd_jwt_engine.hash_to_decoded_disclosure holder.sd_jwt_engine.hash_to_disclosure
        claims)
    ≡ none
unfolding sd_map lookup insert and_then
not_hidden = refl

select_disclosures-panic_example :
    (select_disclosures holder.sd_jwt_engine.hash_to_decoded_disclosure
        holder.sd_jwt_engine.hash_to_disclosure
        (member "address" (object (member "city" (bool true) empty)) empty)
        claims
      ≡ panic)
    × (select_claim holder.sd_jwt_engine.hash_to_decoded_disclosure
          holder.sd_jwt_engine.hash_to_disclosure
          (bool true)
          "address"
          claims
        ≡ err (invalid_state "Requested claim doesn't exist"))
select_disclosures-panic_example =
    select_disclosures-panic holder.sd_jwt_engine.hash_to_decoded_disclosure
      holder.sd_jwt_engine.hash_to_disclosure claims "address" "city" (bool true) empty empty
      not_clear not_hidden
