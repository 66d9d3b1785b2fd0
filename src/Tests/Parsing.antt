-- ===== src/Tests/Parsing.antt =====
-- Runs of the parsers in src/lib.rs and src/utils.rs.

use sd_jwt_rust.Prelude.{ℕ, ◌≡◌, refl, true, some, List, [], ◌∷◌, arith}
use sd_jwt_rust.Error.{ok, done, Ensures}
use sd_jwt_rust.Json.{object, members_distinct}
use sd_jwt_rust.Text.{as_bytes, occurrences, split, join}
use sd_jwt_rust.Text.Utf8.{from_utf8}
use sd_jwt_rust.Codec.{Event, base64url_decode}
use sd_jwt_rust.Payload.{
  jwt_payload_decode, unique_value, as_object_value, then_insert, as_array_value, then_push,
}
use sd_jwt_rust.Payload.Unique.{spelled, jwt_payload_decode-distinct}
use sd_jwt_rust.Reserved.{check_for_sd_claim, lacks, is_reserved, check_for_sd_claim-lacks}
use sd_jwt_rust.Prelude.{◌↔◌}
use sd_jwt_rust.Common.{
  compact, new_engine, parse_compact_sd_jwt, parse_sd_jwt, non_empty, second_part,
  decode_header_and_get_sign_algorithm,
}
use sd_jwt_rust.Common.Limits.{IsLimited, parse_sd_jwt-IsLimited}
use sd_jwt_rust.Common.Parsing.{
  IsParsed, IsPresentable, present, parse_compact_sd_jwt-IsParsed, parse_compact_sd_jwt-present,
}
use sd_jwt_rust.Tests.Setting.{codec, payload_members, claims}

presentable : IsPresentable "h.p.s" ("d1" ∷ "d2" ∷ []) (some "kb")
unfolding occurrences join non_empty
presentable = record {
  jwt_free = refl;
  disclosures_free = (refl, (refl, tt));
  kb_free = refl;
  kb_non_empty = refl;
  within = omega arith;
}

payload-ok : jwt_payload_decode codec "p" ≡ ok payload_members
unfolding jwt_payload_decode base64url_decode unique_value from_utf8 as_bytes as_object_value
    then_insert as_array_value then_push
payload-ok = refl

body-ok : second_part (split 46 "h.p.s") ≡ some "p"
unfolding second_part split
body-ok = refl

parse_compact_sd_jwt-present_example :
    parse_compact_sd_jwt codec (new_engine compact) (present "h.p.s" ("d1" ∷ "d2" ∷ []) (some "kb"))
    ≡ ok (record (new_engine compact) {
      sign_alg = decode_header_and_get_sign_algorithm codec "h.p.s";
      unverified_input_key_binding_jwt = some "kb";
      input_disclosures = "d1" ∷ "d2" ∷ [];
      unverified_sd_jwt = some "h.p.s";
      unverified_input_sd_jwt_payload = some payload_members;
    })
parse_compact_sd_jwt-present_example =
    parse_compact_sd_jwt-present codec (new_engine compact) "h.p.s" ("d1" ∷ "d2" ∷ []) (some "kb")
      "p" payload_members presentable body-ok payload-ok

parse_compact_sd_jwt-IsParsed_example :
    Ensures
      (IsParsed codec "h.p.s~d1~")
      (parse_compact_sd_jwt codec (new_engine compact) "h.p.s~d1~")
parse_compact_sd_jwt-IsParsed_example =
    parse_compact_sd_jwt-IsParsed codec (new_engine compact) "h.p.s~d1~"

parse_sd_jwt-IsLimited_example :
    Ensures (IsLimited "h.p.s~d1~") (parse_sd_jwt codec (new_engine compact) "h.p.s~d1~")
parse_sd_jwt-IsLimited_example = parse_sd_jwt-IsLimited codec (new_engine compact) "h.p.s~d1~"

jwt_payload_decode-distinct_example :
    (bytes : List ℕ) × (e : Event) × (codec.decode "p" ≡ done bytes)
    × (codec.events bytes ≡ done e)
    × (spelled e ≡ object payload_members)
    × (members_distinct payload_members ≡ true)
jwt_payload_decode-distinct_example = jwt_payload_decode-distinct codec "p" payload-ok

check_for_sd_claim-lacks_example :
    (check_for_sd_claim (object claims) ≡ ok tt) ↔ (lacks is_reserved (object claims) ≡ true)
check_for_sd_claim-lacks_example = check_for_sd_claim-lacks (object claims)
