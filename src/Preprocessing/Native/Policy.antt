-- ===== src/Preprocessing/Native/Policy.antt =====
-- When src/disclosure_preprocessing.rs leaves the serial path: the bounds that its policy keeps.
use sd_jwt_rust.Prelude.{ℕ, suc, ◌+◌, ◌≤◌, ◌≡◌, Option, some, List, [], ◌∷◌, arith, length, min}
use sd_jwt_rust.Preprocessing.Native.{
  parallel_min_disclosures, parallel_min_total_encoded_bytes, max_parallel_workers, u128_max,
  total_encoded_bytes, eligible_total_encoded_bytes, bounded_worker_count, native_parallel,
  mode_of_largest, mode_of_workers, select_execution_mode_for_balanced_lengths, new_worker_count,
}

abbrev pub sum : List ℕ → ℕ
sum [] = 0
sum (x ∷ xs) = x + sum xs

total_encoded_bytes-some :
    (count observed total : ℕ) (lengths : List ℕ) (t : ℕ)
    → total ≤ u128_max
    → total_encoded_bytes count observed total lengths ≡ some t
    → (count ≡ observed + length lengths)
      × (parallel_min_total_encoded_bytes ≤ t)
      × (t ≡ min (total + sum lengths) u128_max)
unfolding total_encoded_bytes
total_encoded_bytes-some count observed total [] t b h = ground arith
total_encoded_bytes-some count observed total (l ∷ lengths) t b h =
    ground
      (arith, total_encoded_bytes-some count (suc observed) (min (total + l) u128_max) lengths t)

-- Disclosures are eligible for native preprocessing only from 128 disclosures and 1 MiB of encoded
-- text; the total that is handed on is their length, cut at the largest u128.
eligible_total_encoded_bytes-some :
    (count : ℕ) (lengths : List ℕ) (t : ℕ)
    → eligible_total_encoded_bytes count lengths ≡ some t
    → (parallel_min_disclosures ≤ count)
      × (count ≡ length lengths)
      × (parallel_min_total_encoded_bytes ≤ t)
      × (t ≡ min (sum lengths) u128_max)
unfolding eligible_total_encoded_bytes
eligible_total_encoded_bytes-some count lengths t h =
    ground (arith, total_encoded_bytes-some count 0 0 lengths t)

bounded_worker_count-some :
    (count threads w : ℕ)
    → bounded_worker_count count threads ≡ some w
    → (2 ≤ w) × (w ≤ max_parallel_workers) × (w ≤ threads) × (w ≤ count)
unfolding bounded_worker_count
bounded_worker_count-some count threads w h = ground arith

mode_of_workers-native :
    (count : ℕ) (lengths : List ℕ) (total w : ℕ) (workers : Option ℕ)
    → mode_of_workers count lengths total workers ≡ native_parallel w
    → workers ≡ some w
unfolding mode_of_workers mode_of_largest
mode_of_workers-native count lengths total w workers h = ground arith

-- A native execution has between two and four workers, no more than the host offers or than there
-- are disclosures, and the executor's own clamp keeps that number.
pub select_execution_mode-native :
    (count : ℕ) (lengths : List ℕ) (total threads w : ℕ)
    → select_execution_mode_for_balanced_lengths count lengths total threads ≡ native_parallel w
    → (2 ≤ w) × (w ≤ max_parallel_workers) × (w ≤ threads) × (w ≤ count) × (new_worker_count w ≡ w)
unfolding select_execution_mode_for_balanced_lengths new_worker_count
select_execution_mode-native count lengths total threads w h =
    let bounds =
      bounded_worker_count-some count threads w
        (mode_of_workers-native count lengths total w (bounded_worker_count count threads) h) in
    omega (arith, bounds)
