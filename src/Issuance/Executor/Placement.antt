-- ===== src/Issuance/Executor/Placement.antt =====
-- Placing outcomes in their slots in src/issuer/issuance_plan.rs: where the identities differ, the
-- order of the outcomes does not matter.
use mathlib.Core.List.{Permᴰ}
use mathlib.Core.List.Permᴰ.{nil, cons, swap, trans}
use sd_jwt_rust.Prelude.{
  ℕ, zero, suc, ◌≡◌, ◌≢◌, refl, ap, sym, ◌∙◌, Bool, Option, none, some, List, [], ◌∷◌, leb, arith,
  get_elem?,
}
use sd_jwt_rust.Prelude.Sorting.{Differ, Differ-Permᴰ}
use sd_jwt_rust.Issuance.Assembly.{set_at}
use sd_jwt_rust.Issuance.Executor.{
  IssuanceJobIdentity, IssuanceOutcome, Slots, index_by_id, place_at, place, place_all,
}

module _ {A : Type 0} where
  get-set_at : (i j : ℕ) (a : A) (l : List A) → i ≢ j → get_elem? (set_at i a l) j ≡ get_elem? l j
  unfolding set_at
  get-set_at i j a [] h = refl
  get-set_at zero zero a (x ∷ l) h = absurd (h refl)
  get-set_at zero (suc j) a (x ∷ l) h = refl
  get-set_at (suc i) zero a (x ∷ l) h = refl
  get-set_at (suc i) (suc j) a (x ∷ l) h = get-set_at i j a l λ e. h (ap suc e)

  pub set_at-set_at :
      (i j : ℕ) (a b : A) (l : List A)
      → i ≢ j
      → set_at i a (set_at j b l) ≡ set_at j b (set_at i a l)
  unfolding set_at
  set_at-set_at i j a b [] h = refl
  set_at-set_at zero zero a b (x ∷ l) h = absurd (h refl)
  set_at-set_at zero (suc j) a b (x ∷ l) h = refl
  set_at-set_at (suc i) zero a b (x ∷ l) h = refl
  set_at-set_at (suc i) (suc j) a b (x ∷ l) h =
      ap (λ m. x ∷ m) (set_at-set_at i j a b l λ e. h (ap suc e))

-- Two identities are not expected at one place.
pub index_by_id-same :
    (expected : List IssuanceJobIdentity) (a b n : ℕ)
    → index_by_id expected a ≡ some n
    → index_by_id expected b ≡ some n
    → a ≡ b
unfolding index_by_id
index_by_id-same [] a b n h k = cc
index_by_id-same (identity ∷ expected) a b zero h k = ground arith
index_by_id-same (identity ∷ expected) a b (suc n) h k =
    ground (arith, index_by_id-same expected a b n)

abbrev pub by_id : IssuanceOutcome → IssuanceOutcome → Bool
by_id a b = leb a.identity.job_id b.identity.job_id

module _ (expected : List IssuanceJobIdentity) where
  place_at_swap :
      (a b : IssuanceOutcome) (s : Slots) (i j : Option ℕ)
      → ((n : ℕ) → i ≡ some n → j ≢ some n)
      → place_at expected a (place_at expected b s j) i
        ≡ place_at expected b (place_at expected a s i) j
  unfolding place_at
  place_at_swap a b s none none h = refl
  place_at_swap a b s none (some j) h = ground arith
  place_at_swap a b s (some i) none h = ground arith
  place_at_swap a b s (some i) (some j) h =
      let apart : i ≢ j = λ e. h i refl (ap some (sym e)) in
      ground (
        arith,
        get-set_at i j (some a) s.slots apart,
        get-set_at j i (some b) s.slots (λ e. apart (sym e)),
        set_at-set_at i j (some a) (some b) s.slots apart,
      )

  place_swap :
      (a b : IssuanceOutcome) (s : Slots)
      → by_id a b ≢ by_id b a
      → place expected a (place expected b s) ≡ place expected b (place expected a s)
  unfolding place
  place_swap a b s h = place_at_swap a b s _ _ λ n e e'.
      let same = index_by_id-same expected a.identity.job_id b.identity.job_id n e e' in h (rw same)

  -- The order of outcomes whose identities differ does not matter.
  pub place_all-Permᴰ :
      {xs ys : List IssuanceOutcome} (s : Slots)
      → Permᴰ xs ys
      → Differ by_id xs
      → place_all expected xs s ≡ place_all expected ys s
  unfolding place_all
  place_all-Permᴰ s nil d = refl
  place_all-Permᴰ s (cons {a} {l₂} e p) d =
      place_all-Permᴰ (place expected a s) p d.1
      ∙ ap (λ z. place_all expected l₂ (place expected z s)) e
  place_all-Permᴰ s (swap {a} {b} {a'} {b'} {l} e e') d =
      rw (← e, ← e') (ap (place_all expected l) (place_swap b a s λ h. d.0.0 (sym h)))
  place_all-Permᴰ s (trans p q) d =
      place_all-Permᴰ s p d ∙ place_all-Permᴰ s q (Differ-Permᴰ by_id p d)
