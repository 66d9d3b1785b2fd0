-- ===== src/Text.antt =====
-- Texts: Rust's `str::split` on one ASCII character, `[&str]::join`, `str::as_bytes`, `format!` of a
-- number, and the laws that tie splitting to joining.
pub mod Utf8
use Prim.Native.Char.{Char, code}
use Prim.Native.String.{◌++◌ as append, len}
use Prim.Native.String.append
use text.Mathlib.TextPositions.{len-append}
use text.Mathlib.TextEquality.{Char-path}
use text.Mathlib.TextLemmas.{cons-append, nil-append}
use sd_jwt_rust.Prelude.{
  nat_eq_self, ℕ, zero, suc, ◌+◌, ◌-◌, ◌/◌, ◌%◌, ◌<◌, String, ◌≡◌, refl, sym, ap, ◌∙◌, ◌≢◌, inl,
  inr, Bool, true, false, not, ◌&&◌, List, [], ◌∷◌, ◌++◌, arith, ltb, nat_eq, nat_eq_iff,
  if◌then◌else◌, length, All, Bool-cases,
}

-- A character before the first part.
abbrev add_first : Char → List String → List String
add_first c [] = []
add_first c (p ∷ ps) = String.◌∷◌ c p ∷ ps

unfoldable pub split : ℕ → String → List String
split k String.[] = String.[] ∷ []
split k (String.◌∷◌ c s) =
    if nat_eq (code c) k then String.[] ∷ split k s else add_first c (split k s)

unfoldable pub join : String → List String → String
join sep [] = String.[]
join sep (p ∷ []) = p
join sep (p ∷ q ∷ ps) = append p (append sep (join sep (q ∷ ps)))

-- How often a character stands in a text. For an ASCII character this counts its bytes too: the
-- other bytes of UTF-8 are above 127.
unfoldable pub occurrences : ℕ → String → ℕ
occurrences k String.[] = 0
occurrences k (String.◌∷◌ c s) =
    if nat_eq (code c) k then suc (occurrences k s) else occurrences k s

abbrev pub IsFree : ℕ → String → Type 0
IsFree k s = occurrences k s ≡ 0

split-cons : (k : ℕ) (s : String) → split k s ≢ []
unfolding split
split-cons k String.[] = cc
split-cons k (String.◌∷◌ c s) = ground (arith, split-cons k s)

join-add_first :
    (sep : String) (c : Char) (ps : List String)
    → ps ≢ []
    → join sep (add_first c ps) ≡ String.◌∷◌ c (join sep ps)
unfolding join
join-add_first sep c [] h = absurd (h refl)
join-add_first sep c (p ∷ []) h = refl
join-add_first sep c (p ∷ q ∷ ps) h = rw cons-append

join-cons :
    (sep p : String) (ps : List String)
    → ps ≢ []
    → join sep (p ∷ ps) ≡ append p (append sep (join sep ps))
unfolding join
join-cons sep p [] h = absurd (h refl)
join-cons sep p (q ∷ ps) h = refl

-- A text of one character.
abbrev pub single : Char → String
single c = String.◌∷◌ c String.[]

-- Joining the parts of a split gives the text back.
pub join-split : (c : Char) (s : String) → join (single c) (split (code c) s) ≡ s
unfolding split
join-split c String.[] = unfold join in refl
join-split c (String.◌∷◌ d s) = elim (Bool-cases (nat_eq (code d) (code c))) [
  | inl e ↦ rw e (
      join-cons (single c) String.[] (split (code c) s) (split-cons (code c) s)
      ∙ simp (nil-append, cons-append, join-split c s)
          (ap (λ x. String.◌∷◌ x s) (sym (Char-path d c ((nat_eq_iff _ _).0 e)))))
  | inr e ↦ rw e (
      join-add_first (single c) d (split (code c) s) (split-cons (code c) s)
      ∙ ap (String.◌∷◌ d) (join-split c s))
]

add_first-ne-nil : (c : Char) (ps : List String) → ps ≢ [] → add_first c ps ≢ []
add_first-ne-nil c [] h = h
add_first-ne-nil c (p ∷ ps) h = cc

-- A part that the separator does not stand in is split off whole.
split-append-single :
    (c : Char) (p s : String)
    → IsFree (code c) p
    → split (code c) (append p (append (single c) s)) ≡ p ∷ split (code c) s
unfolding split occurrences
split-append-single c String.[] s h = simp (nil-append, cons-append, nat_eq_self)
split-append-single c (String.◌∷◌ d p) s h = elim (Bool-cases (nat_eq (code d) (code c))) [
  | inl e ↦ absurd (omega (arith, rw e at h))
  | inr e ↦
      rw (cons-append d p (append (single c) s)) (rw (e, split-append-single c p s (rw e at h)))
]

split-IsFree : (k : ℕ) (p : String) → IsFree k p → split k p ≡ p ∷ []
unfolding split occurrences
split-IsFree k String.[] h = refl
split-IsFree k (String.◌∷◌ d p) h = elim (Bool-cases (nat_eq (code d) k)) [
  | inl e ↦ absurd (omega (arith, rw e at h))
  | inr e ↦ rw (e, split-IsFree k p (rw e at h))
]

add_first-IsFree :
    (k : ℕ) (c : Char) (ps : List String)
    → nat_eq (code c) k ≡ false
    → All (IsFree k) ps
    → All (IsFree k) (add_first c ps)
unfolding occurrences
add_first-IsFree k c [] e h = tt
add_first-IsFree k c (p ∷ ps) e h = (rw e h.0, h.1)

-- The parts of a split text do not hold the separator.
pub split-All : (k : ℕ) (s : String) → All (IsFree k) (split k s)
unfolding split occurrences
split-All k String.[] = (refl, tt)
split-All k (String.◌∷◌ c s) = elim (Bool-cases (nat_eq (code c) k)) [
  | inl e ↦ rw e (refl, split-All k s)
  | inr e ↦ rw e (add_first-IsFree k c (split k s) e (split-All k s))
]

-- Splitting joined parts gives them back, if the separator stands in none.
pub split-join :
    (c : Char) (p : String) (ps : List String)
    → IsFree (code c) p
    → All (IsFree (code c)) ps
    → split (code c) (join (single c) (p ∷ ps)) ≡ p ∷ ps
unfolding join
split-join c p [] h hs = split-IsFree (code c) p h
split-join c p (q ∷ ps) h hs =
    split-append-single c p (join (single c) (q ∷ ps)) h
    ∙ ap (λ r. p ∷ r) (split-join c q ps hs.0 hs.1)

length-add_first : (c : Char) (ps : List String) → length (add_first c ps) ≡ length ps
length-add_first c [] = refl
length-add_first c (p ∷ ps) = refl

-- A text has one part more than separators.
pub length-split : (k : ℕ) (s : String) → length (split k s) ≡ suc (occurrences k s)
unfolding split occurrences
length-split k String.[] = refl
length-split k (String.◌∷◌ c s) = ground (arith, length-split k s, length-add_first c (split k s))

-- The decimal digits of a number, as `format!` prints it. The number itself is fuel enough.
abbrev digit : ℕ → String
digit zero = "0"
digit (suc zero) = "1"
digit (suc (suc zero)) = "2"
digit (suc (suc (suc zero))) = "3"
digit (suc (suc (suc (suc zero)))) = "4"
digit (suc (suc (suc (suc (suc zero))))) = "5"
digit (suc (suc (suc (suc (suc (suc zero)))))) = "6"
digit (suc (suc (suc (suc (suc (suc (suc zero))))))) = "7"
digit (suc (suc (suc (suc (suc (suc (suc (suc zero)))))))) = "8"
digit _ = "9"

digits : ℕ → ℕ → String → String
digits zero n rest = rest
digits (suc f) n rest =
    let more = digits f (n / 10) (append (digit (n % 10)) rest) in
    if ltb n 10 then append (digit n) rest else more

unfoldable pub decimal : ℕ → String
unfolding digits
decimal n = digits (suc n) n ""

decimal_test : decimal 8190 ≡ "8190"
unfolding decimal
decimal_test = refl

-- The bytes of a character in UTF-8.
abbrev utf8 : ℕ → List ℕ
utf8 c =
    if ltb c 128
    then c ∷ []
    else if ltb c 2048
    then (192 + c / 64) ∷ (128 + c % 64) ∷ []
    else if ltb c 65536
    then (224 + c / 4096) ∷ (128 + c / 64 % 64) ∷ (128 + c % 64) ∷ []
    else (240 + c / 262144) ∷ (128 + c / 4096 % 64) ∷ (128 + c / 64 % 64) ∷ (128 + c % 64) ∷ []

unfoldable pub as_bytes : String → List ℕ
as_bytes String.[] = []
as_bytes (String.◌∷◌ c s) = utf8 (code c) ++ as_bytes s

as_bytes_test : as_bytes "~é€" ≡ 126 ∷ 195 ∷ 169 ∷ 226 ∷ 130 ∷ 172 ∷ []
unfolding as_bytes
as_bytes_test = refl
