-- ===== src/Prelude/Sorting.antt =====
-- A stable insertion sort by a Boolean test, and that it restores one order from any other.
use mathlib.Core.Path.{◌≡◌, refl, subst, ◌∙◌}
use mathlib.Core.Bool.{Bool, true, false}
use mathlib.Core.Logic.{◌≢◌}
use mathlib.Core.List.{List, [], ◌∷◌, Permᴰ}
use mathlib.Core.List.Permᴰ.{nil, cons, swap, trans}
use native.Mathlib.Omega.{arith}
use sd_jwt_rust.Prelude.Tests.{if◌then◌else◌}
use sd_jwt_rust.Prelude.Lists.{All, All-map}

module _ {A : Type 0} (below : A → A → Bool) where
  unfoldable pub insert_by : A → List A → List A
  insert_by x [] = x ∷ []
  insert_by x (y ∷ ys) = if below x y then x ∷ y ∷ ys else y ∷ insert_by x ys

  unfoldable pub sort_by : List A → List A
  unfolding insert_by
  sort_by [] = []
  sort_by (x ∷ xs) = insert_by x (sort_by xs)

  -- Each element stands strictly before those behind it.
  abbrev pub Rises : List A → Type 0
  Rises [] = Unit
  Rises (x ∷ xs) = All (λ y. (below x y ≡ true) × (below y x ≡ false)) xs × Rises xs

  -- The test tells any two elements apart.
  abbrev pub Differ : List A → Type 0
  Differ [] = Unit
  Differ (x ∷ xs) = All (λ y. below x y ≢ below y x) xs × Differ xs

  pub Rises-Differ : (xs : List A) → Rises xs → Differ xs
  Rises-Differ [] r = tt
  Rises-Differ (x ∷ xs) r = (All-map _ _ (λ y h. cc) xs r.0, Rises-Differ xs r.1)

  insert_first :
      (x : A) (l : List A)
      → All (λ y. (below x y ≡ true) × (below y x ≡ false)) l
      → insert_by x l ≡ x ∷ l
  unfolding insert_by
  insert_first x [] h = refl
  insert_first x (y ∷ l) h = ground arith

  pub sort-Rises : (l : List A) → Rises l → sort_by l ≡ l
  unfolding sort_by
  sort-Rises [] r = refl
  sort-Rises (x ∷ l) r = rw (sort-Rises l r.1) (insert_first x l r.0)

  All-Permᴰ : (P : A → Type 0) {xs ys : List A} → Permᴰ xs ys → All P xs → All P ys
  All-Permᴰ P nil h = h
  All-Permᴰ P (cons e p) h = (subst P e h.0, All-Permᴰ P p h.1)
  All-Permᴰ P (swap e e') h = (subst P e' h.1.0, (subst P e h.0, h.1.1))
  All-Permᴰ P (trans p q) h = All-Permᴰ P q (All-Permᴰ P p h)

  pub Differ-Permᴰ : {xs ys : List A} → Permᴰ xs ys → Differ xs → Differ ys
  Differ-Permᴰ nil d = d
  Differ-Permᴰ (cons {a} {b} {l₁} {l₂} e p) d = (
    subst (λ z. All (λ y. below z y ≢ below y z) l₂) e
        (All-Permᴰ (λ y. below a y ≢ below y a) p d.0),
    Differ-Permᴰ p d.1,
  )
  Differ-Permᴰ (swap {a} {b} {a'} {b'} {l} e e') d = (
    (λ h. d.0.0 (cc (e, e', h)), subst (λ z. All (λ y. below z y ≢ below y z) l) e' d.1.0),
    (subst (λ z. All (λ y. below z y ≢ below y z) l) e d.0.1, d.1.1),
  )
  Differ-Permᴰ (trans p q) d = Differ-Permᴰ q (Differ-Permᴰ p d)

  module _
      (below_trans : (x y z : A) → below x y ≡ true → below y z ≡ true → below x z ≡ true) where
    insert_swap :
        (x y : A) (l : List A)
        → below x y ≢ below y x
        → insert_by x (insert_by y l) ≡ insert_by y (insert_by x l)
    unfolding insert_by
    insert_swap x y [] h = ground arith
    insert_swap x y (z ∷ l) h =
        ground (arith, insert_swap x y l, below_trans x y z, below_trans y x z)

    -- Elements that the test tells apart sort to one list in whatever order they come.
    pub sort-Permᴰ : {xs ys : List A} → Permᴰ xs ys → Differ xs → sort_by xs ≡ sort_by ys
    unfolding sort_by
    sort-Permᴰ nil d = refl
    sort-Permᴰ (cons e p) d = rw (e, sort-Permᴰ p d.1)
    sort-Permᴰ (swap {a} {b} {a'} {b'} {l} e e') d =
        rw (← e, ← e') (insert_swap a b (sort_by l) d.0.0)
    sort-Permᴰ (trans p q) d = sort-Permᴰ p d ∙ sort-Permᴰ q (Differ-Permᴰ p d)
