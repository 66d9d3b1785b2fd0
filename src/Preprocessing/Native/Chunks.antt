-- ===== src/Preprocessing/Native/Chunks.antt =====
-- The static partition of src/disclosure_preprocessing.rs: chunks keep every job in order, and there
-- are no more of them than workers.
use mathlib.Core.List.{flatten}
use native.Mathlib.Decide.{dec_lt}
use sd_jwt_rust.Prelude.{
  ℕ, zero, suc, ◌+◌, ◌-◌, ◌*◌, ◌≤◌, ◌<◌, ◌≡◌, refl, ap, List, [], ◌∷◌, ◌++◌, arith, length,
}
use sd_jwt_rust.Preprocessing.Native.{fill_chunks, chunks, static_chunk_size}

module _ {ℓ} {A : Type ℓ} where
  fill_chunks-flatten :
      (size room : ℕ) (xs : List A)
      → (fill_chunks size room xs).0 ++ flatten (fill_chunks size room xs).1 ≡ xs
  unfolding fill_chunks flatten
  fill_chunks-flatten size room [] = refl
  fill_chunks-flatten size zero (x ∷ xs) = ap (λ l. x ∷ l) (fill_chunks-flatten size (size - 1) xs)
  fill_chunks-flatten size (suc room) (x ∷ xs) = ap (λ l. x ∷ l) (fill_chunks-flatten size room xs)

  fill_chunks-zero : (size : ℕ) (xs : List A) → (fill_chunks size 0 xs).0 ≡ []
  unfolding fill_chunks
  fill_chunks-zero size [] = refl
  fill_chunks-zero size (x ∷ xs) = refl

  fill_chunks-count :
      (size room : ℕ) (xs : List A)
      → room < size
      → length (fill_chunks size room xs).1 * size + room < length xs + size
  unfolding fill_chunks
  fill_chunks-count size room [] h = omega arith
  fill_chunks-count size zero (x ∷ xs) h =
      omega (arith, fill_chunks-count size (size - 1) xs (omega arith))
  fill_chunks-count size (suc room) (x ∷ xs) h =
      omega (arith, fill_chunks-count size room xs (omega arith))

  -- The chunks put together again are the list.
  pub chunks-flatten : (size : ℕ) (xs : List A) → flatten (chunks size xs) ≡ xs
  unfolding chunks
  chunks-flatten size xs = rw (fill_chunks-zero size xs) at (fill_chunks-flatten size 0 xs)

  pub chunks-count :
      (size : ℕ) (xs : List A) → 0 < size → length (chunks size xs) * size < length xs + size
  unfolding chunks
  chunks-count size xs h = omega (arith, fill_chunks-count size 0 xs h)

le-mul_right : (a b c : ℕ) → a ≤ b → a * c ≤ b * c
le-mul_right a b c h = grind arith

static_chunk_size_bounds :
    (jobs workers : ℕ) → 0 < workers → jobs ≤ static_chunk_size jobs workers * workers
unfolding static_chunk_size
static_chunk_size_bounds jobs workers h = grind arith

static_chunk_size_pos :
    (jobs workers : ℕ) → 0 < jobs → 0 < workers → 0 < static_chunk_size jobs workers
static_chunk_size_pos jobs workers h k = grind (arith, static_chunk_size_bounds jobs workers k)

count_bound :
    (n size count workers : ℕ) → count * size < n + size → n ≤ size * workers → count ≤ workers
count_bound n size count workers h k = elim (dec_lt workers count) [
  | yes over ↦ absurd (omega (arith, le-mul_right (suc workers) count size over))
  | no fits ↦ omega arith
]

-- The static partition keeps every job once and in order, and makes at most as many chunks, so
-- threads, as there are workers.
pub chunks-static {ℓ} :
    {A : Type ℓ} (jobs : List A) (workers : ℕ)
    → 0 < length jobs
    → 0 < workers
    → (flatten (chunks (static_chunk_size (length jobs) workers) jobs) ≡ jobs)
      × (length (chunks (static_chunk_size (length jobs) workers) jobs) ≤ workers)
chunks-static jobs workers h k = (
  chunks-flatten (static_chunk_size (length jobs) workers) jobs,
  count_bound (length jobs) (static_chunk_size (length jobs) workers) _ workers
      (chunks-count _ jobs (static_chunk_size_pos (length jobs) workers h k))
      (static_chunk_size_bounds (length jobs) workers k),
)
