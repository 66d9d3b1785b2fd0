-- ===== src/Strategy.antt =====
-- `ClaimsForSelectiveDisclosureStrategy` of src/issuer.rs: which claims become disclosures.
use Prim.Native.Char.{code}
use sd_jwt_rust.Prelude.{
  String, Bool, true, false, Option, none, some, List, [], ◌∷◌, nat_eq, if◌then◌else◌, contains,
}
use sd_jwt_rust.Error.{Result, ok, ◌>>=◌, ok_or, invalid_path}

pub data ClaimsForSelectiveDisclosureStrategy : Type 0 where
  no_sd_claims top_level all_levels : ClaimsForSelectiveDisclosureStrategy
  custom : List String → ClaimsForSelectiveDisclosureStrategy

-- `text.strip_prefix(prefix)`.
unfoldable pub strip_prefix : String → String → Option String
strip_prefix String.[] text = some text
strip_prefix (String.◌∷◌ c prefix) String.[] = none
strip_prefix (String.◌∷◌ c prefix) (String.◌∷◌ d text) =
    if nat_eq (code c) (code d) then strip_prefix prefix text else none

unfoldable pub finalize_keys : List String → Result (List String)
unfolding strip_prefix
finalize_keys [] = ok []
finalize_keys (key ∷ keys) = do
  new_key ← ok_or (strip_prefix "$." key) (invalid_path "Invalid JSONPath")
  rest ← finalize_keys keys
  ok (new_key ∷ rest)

unfoldable pub finalize_input :
    ClaimsForSelectiveDisclosureStrategy → Result ClaimsForSelectiveDisclosureStrategy
unfolding finalize_keys
finalize_input (custom keys) = do new_keys ← finalize_keys keys; ok (custom new_keys)
finalize_input strategy = ok strategy

-- What is left of a path behind the key of this level, by its next character: 46 is `.` and 91 `[`.
unfoldable pub next_token : Option String → Option String
next_token none = none
next_token (some String.[]) = none
next_token (some (String.◌∷◌ c rest)) =
    if nat_eq (code c) 46
    then some rest
    else if nat_eq (code c) 91
    then some (String.◌∷◌ c rest)
    else none

-- `filter_map`, the paths that go on behind the key.
unfoldable pub next_keys : String → List String → List String
unfolding next_token strip_prefix
next_keys key [] = []
next_keys key (path ∷ paths) = elim (next_token (strip_prefix key path)) [
  | none ↦ next_keys key paths
  | some rest ↦ rest ∷ next_keys key paths
]

unfoldable pub next_level :
    ClaimsForSelectiveDisclosureStrategy → String → ClaimsForSelectiveDisclosureStrategy
unfolding next_keys
next_level no_sd_claims key = no_sd_claims
next_level top_level key = no_sd_claims
next_level all_levels key = all_levels
next_level (custom sd_keys) key = custom (next_keys key sd_keys)

unfoldable pub sd_for_key : ClaimsForSelectiveDisclosureStrategy → String → Bool
sd_for_key no_sd_claims key = false
sd_for_key top_level key = true
sd_for_key all_levels key = true
sd_for_key (custom sd_keys) key = contains sd_keys key
