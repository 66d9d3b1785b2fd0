-- ===== src/Tests/Disclosures.antt =====
-- Runs of src/disclosure_preprocessing.rs.
use Prim.Native.Nat.{◌≤◌}
use mathlib.Core.List.{flatten, Permᴰ}
use sd_jwt_rust.Prelude.{
  ℕ, zero, suc, ◌∙◌, ◌≡◌, refl, String, true, false, some, List, [], ◌∷◌, map, length, arith,
}
use sd_jwt_rust.Error.{Result, ok}
use sd_jwt_rust.Prelude.Maps.{contains_key, lookup, insert}
use sd_jwt_rust.Text.{as_bytes}
use sd_jwt_rust.Text.Utf8.{from_utf8}
use sd_jwt_rust.Codec.{base64url_decode, base64_hash}
use sd_jwt_rust.Preprocessing.{
  DisclosureMappings, DisclosureOutcome, no_mappings, process_disclosure,
  preprocess_disclosures_serial, outcome_result, enter_disclosure,
}
use sd_jwt_rust.Preprocessing.Mappings.{Holds, preprocess_disclosures_serial-Holds}
use sd_jwt_rust.Preprocessing.Assembly.{plan_disclosures, assemble_disclosures, sort_by_ordinal}
use sd_jwt_rust.Preprocessing.Assembly.Contract.{
  assemble_disclosures-Permᴰ, assemble_disclosures-identities, job_of,
}
use sd_jwt_rust.Preprocessing.Native
use sd_jwt_rust.Preprocessing.Native.{
  chunks, static_chunk_size, eligible_total_encoded_bytes,
  select_execution_mode_for_balanced_lengths, preprocess_disclosures, new_worker_count,
  max_parallel_workers,
}
use sd_jwt_rust.Preprocessing.Native.Chunks.{chunks-static}
use sd_jwt_rust.Preprocessing.Native.Policy.{select_execution_mode-native}
use sd_jwt_rust.Preprocessing.Native.Equivalence.{
  preprocess_disclosures-serial, preprocess_disclosures-eq-serial,
}
use sd_jwt_rust.Preprocessing.Budget.{
  Phase, start, System, move, here, next, IsBalanced, advance, Reach-IsBalanced,
}
use sd_jwt_rust.Tests.Setting.{codec, threads}

abbrev encoded : List String
encoded = "d1" ∷ "d2" ∷ []

abbrev mappings_of : Result DisclosureMappings → DisclosureMappings
mappings_of (ok m) = m
mappings_of _ = no_mappings

abbrev serial : Result DisclosureMappings
serial = preprocess_disclosures_serial codec encoded

serial-ok : serial ≡ ok (mappings_of serial)
unfolding preprocess_disclosures_serial as_bytes from_utf8 base64url_decode base64_hash
    outcome_result enter_disclosure contains_key lookup insert
serial-ok = refl

preprocess_disclosures_serial-Holds_example : Holds codec encoded (mappings_of serial)
preprocess_disclosures_serial-Holds_example =
    preprocess_disclosures_serial-Holds codec encoded serial-ok

adaptive-ok : preprocess_disclosures codec threads (λ n. true) 4 encoded ≡ ok (mappings_of serial)
unfolding preprocess_disclosures preprocess_disclosures_serial as_bytes from_utf8 base64url_decode
    base64_hash outcome_result enter_disclosure contains_key lookup insert
adaptive-ok = refl

preprocess_disclosures-serial_example :
    preprocess_disclosures_serial codec encoded ≡ ok (mappings_of serial)
preprocess_disclosures-serial_example =
    preprocess_disclosures-serial codec threads (λ n. true) 4 encoded adaptive-ok

preprocess_disclosures-eq-serial_example :
    preprocess_disclosures codec threads (λ n. true) 4 encoded
    ≡ preprocess_disclosures_serial codec encoded
preprocess_disclosures-eq-serial_example =
    preprocess_disclosures-eq-serial codec threads (λ n. refl) (λ n. refl) (λ n. true) 4 encoded

abbrev jobs_done : List DisclosureOutcome
jobs_done = map (process_disclosure codec) (plan_disclosures encoded)

abbrev first_done : DisclosureOutcome
first_done = process_disclosure codec (record { ordinal = 0; encoded_disclosure = "d1" })

abbrev second_done : DisclosureOutcome
second_done = process_disclosure codec (record { ordinal = 1; encoded_disclosure = "d2" })

abbrev reversed : List DisclosureOutcome
reversed = second_done ∷ first_done ∷ []

abbrev five : List ℕ
five = 1 ∷ 2 ∷ 3 ∷ 4 ∷ 5 ∷ []

chunks-static_example :
    (flatten (chunks (static_chunk_size 5 2) five) ≡ five)
    × (length (chunks (static_chunk_size 5 2) five) ≤ 2)
chunks-static_example = chunks-static five 2 (omega arith) (omega arith)

swapped : Permᴰ (map (process_disclosure codec) (plan_disclosures encoded)) reversed
unfolding plan_disclosures
swapped = Permᴰ.swap refl refl

assemble_disclosures-Permᴰ_example :
    assemble_disclosures (plan_disclosures encoded) reversed
    ≡ preprocess_disclosures_serial codec encoded
assemble_disclosures-Permᴰ_example = assemble_disclosures-Permᴰ codec encoded reversed swapped

assembled-ok : assemble_disclosures (plan_disclosures encoded) reversed ≡ ok (mappings_of serial)
assembled-ok = assemble_disclosures-Permᴰ codec encoded reversed swapped ∙ serial-ok

assemble_disclosures-identities_example :
    map job_of (sort_by_ordinal reversed) ≡ plan_disclosures encoded
assemble_disclosures-identities_example =
    assemble_disclosures-identities (plan_disclosures encoded) reversed assembled-ok

copies : ℕ → ℕ → List ℕ
copies zero n = []
copies (suc k) n = n ∷ copies k n

eligible-ok : eligible_total_encoded_bytes 128 (copies 128 8192) ≡ some 1048576
unfolding eligible_total_encoded_bytes copies
eligible-ok = refl

abbrev lengths : List ℕ
lengths = 300000 ∷ 300000 ∷ 300000 ∷ 300000 ∷ []

mode-ok : select_execution_mode_for_balanced_lengths 4 lengths 1200000 8 ≡ Native.native_parallel 4
unfolding select_execution_mode_for_balanced_lengths
mode-ok = refl

select_execution_mode-native_example :
    (2 ≤ 4) × (4 ≤ max_parallel_workers) × (4 ≤ 8) × (4 ≤ 4) × (new_worker_count 4 ≡ 4)
select_execution_mode-native_example = select_execution_mode-native 4 lengths 1200000 8 4 mode-ok

abbrev requests : List Phase
requests = start 2 ∷ start 3 ∷ []

abbrev moved : System
moved = record {
  budget = (advance (record { capacity = 4; available = 4 }) false (start 3)).0;
  threads = start 2 ∷ (advance (record { capacity = 4; available = 4 }) false (start 3)).1 ∷ [];
}

Reach-IsBalanced_example : IsBalanced 4 moved
Reach-IsBalanced_example =
    Reach-IsBalanced 4 requests (tt, (tt, tt))
      (next here (move (record { capacity = 4; available = 4 }) (start 2 ∷ []) [] (start 3) false))
