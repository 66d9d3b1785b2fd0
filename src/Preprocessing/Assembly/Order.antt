-- ===== src/Preprocessing/Assembly/Order.antt =====
-- Restoring order: outcomes whose ordinals differ sort to one list, whatever order they came in.
use sd_jwt_rust.Prelude.{◌<◌, ◌≡◌, refl, ◌∙◌, ◌≢◌, List, [], ◌∷◌, arith, All, All-map}
use mathlib.Core.Path.{subst}
use mathlib.Core.List.{Permᴰ}
use mathlib.Core.List.Permᴰ.{nil, cons, swap, trans}
use sd_jwt_rust.Preprocessing.{DisclosureOutcome}
use sd_jwt_rust.Preprocessing.Assembly.{insert_by_ordinal, sort_by_ordinal}

-- Ordinals rise strictly.
abbrev pub Rises : List DisclosureOutcome → Type 0
Rises [] = Unit
Rises (x ∷ xs) = All (λ y. x.ordinal < y.ordinal) xs × Rises xs

-- No two outcomes have one ordinal.
abbrev pub Differ : List DisclosureOutcome → Type 0
Differ [] = Unit
Differ (x ∷ xs) = All (λ y. x.ordinal ≢ y.ordinal) xs × Differ xs

pub Rises-Differ : (xs : List DisclosureOutcome) → Rises xs → Differ xs
Rises-Differ [] r = tt
Rises-Differ (x ∷ xs) r = (
  All-map (λ y. x.ordinal < y.ordinal) (λ y. x.ordinal ≢ y.ordinal) (λ y h. omega arith) xs r.0,
  Rises-Differ xs r.1,
)

insert_swap :
    (x y : DisclosureOutcome) (l : List DisclosureOutcome)
    → x.ordinal ≢ y.ordinal
    → insert_by_ordinal x (insert_by_ordinal y l) ≡ insert_by_ordinal y (insert_by_ordinal x l)
unfolding insert_by_ordinal
insert_swap x y [] h = ground arith
insert_swap x y (z ∷ l) h = ground (arith, insert_swap x y l)

insert_first :
    (x : DisclosureOutcome) (l : List DisclosureOutcome)
    → All (λ y. x.ordinal < y.ordinal) l
    → insert_by_ordinal x l ≡ x ∷ l
unfolding insert_by_ordinal
insert_first x [] h = refl
insert_first x (y ∷ l) h = ground arith

pub sort-Rises : (l : List DisclosureOutcome) → Rises l → sort_by_ordinal l ≡ l
unfolding sort_by_ordinal
sort-Rises [] r = refl
sort-Rises (x ∷ l) r = rw (sort-Rises l r.1) (insert_first x l r.0)

All-Permᴰ :
    (P : DisclosureOutcome → Type 0) {xs ys : List DisclosureOutcome}
    → Permᴰ xs ys
    → All P xs
    → All P ys
All-Permᴰ P nil h = h
All-Permᴰ P (cons e p) h = (subst P e h.0, All-Permᴰ P p h.1)
All-Permᴰ P (swap e e') h = (subst P e' h.1.0, (subst P e h.0, h.1.1))
All-Permᴰ P (trans p q) h = All-Permᴰ P q (All-Permᴰ P p h)

Differ-Permᴰ : {xs ys : List DisclosureOutcome} → Permᴰ xs ys → Differ xs → Differ ys
Differ-Permᴰ nil d = d
Differ-Permᴰ (cons {a} {b} {l₁} {l₂} e p) d = (
  subst (λ z. All (λ y. z.ordinal ≢ y.ordinal) l₂) e (All-Permᴰ (λ y. a.ordinal ≢ y.ordinal) p d.0),
  Differ-Permᴰ p d.1,
)
Differ-Permᴰ (swap {a} {b} {a'} {b'} {l} e e') d = (
  (λ h. d.0.0 (cc (e, e', h)), subst (λ z. All (λ y. z.ordinal ≢ y.ordinal) l) e' d.1.0),
  (subst (λ z. All (λ y. z.ordinal ≢ y.ordinal) l) e d.0.1, d.1.1),
)
Differ-Permᴰ (trans p q) d = Differ-Permᴰ q (Differ-Permᴰ p d)

-- Outcomes with different ordinals sort to the same list in whatever order they come.
pub sort-Permᴰ :
    {xs ys : List DisclosureOutcome}
    → Permᴰ xs ys
    → Differ xs
    → sort_by_ordinal xs ≡ sort_by_ordinal ys
unfolding sort_by_ordinal
sort-Permᴰ nil d = refl
sort-Permᴰ (cons e p) d = rw (e, sort-Permᴰ p d.1)
sort-Permᴰ (swap {a} {b} {a'} {b'} {l} e e') d =
    rw (← e, ← e') (insert_swap a b (sort_by_ordinal l) d.0.0)
sort-Permᴰ (trans p q) d = sort-Permᴰ p d ∙ sort-Permᴰ q (Differ-Permᴰ p d)
