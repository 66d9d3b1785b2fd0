-- ===== src/Text/Utf8.antt =====
-- `str::from_utf8`: the strict decoder of Rust's standard library.
use Prim.Native.Char.{Char, char, IsLt}
use Prim.Native.Nat.{compare, Ordering}
use mathlib.Core.Option
use sd_jwt_rust.Prelude.{
  ℕ, zero, suc, ◌+◌, ◌-◌, ◌*◌, String, ◌≡◌, refl, Option, none, some, ◌&&◌, List, [], ◌∷◌, ltb, leb,
  if◌then◌else◌,
}
use sd_jwt_rust.Text.{as_bytes}

-- Whether a number is a Unicode scalar value, from the three comparisons that decide it.
abbrev BothLt : Ordering → Ordering → Type 0
BothLt Ordering.lt o = IsLt o
BothLt Ordering.eq _ = ⊥
BothLt Ordering.gt _ = ⊥

abbrev Scalar : Ordering → Ordering → Ordering → Type 0
Scalar Ordering.lt _ _ = Unit
Scalar Ordering.eq o p = BothLt o p
Scalar Ordering.gt o p = BothLt o p

scalar? : (o p q : Ordering) → Option (Scalar o p q)
scalar? Ordering.lt p q = some tt
scalar? Ordering.eq Ordering.lt Ordering.lt = some tt
scalar? Ordering.gt Ordering.lt Ordering.lt = some tt
scalar? _ _ _ = none

-- `char::from_u32`.
to_char : ℕ → Option Char
unfolding scalar?
to_char n = Option.map (char n) (scalar? (compare n 55296) (compare 57343 n) (compare n 1114112))

-- Where the decoder stands: how many bytes of a character are to come, the number read so far, and
-- the least number that a sequence of this length may stand for.
record Pending : Type 0 where
  more : ℕ
  value : ℕ
  least : ℕ

abbrev idle : Pending
idle = record { more = 0; value = 0; least = 0 }

-- One byte: the character that it completes, if it completes one, and the next state; `none` where
-- the input is no UTF-8.
complete : ℕ → Option (Option Char × Pending)
complete n = elim (to_char n) [ none ↦ none | some c ↦ some (some c, idle) ]

await : ℕ → ℕ → ℕ → Option (Option Char × Pending)
await more value least = some (none, record { more = more; value = value; least = least })

next_byte : ℕ → ℕ → ℕ → ℕ → Option (Option Char × Pending)
unfolding complete await
next_byte zero value least b =
    if ltb b 128
    then complete b
    else if leb 192 b && ltb b 224
    then await 1 (b - 192) 128
    else if leb 224 b && ltb b 240
    then await 2 (b - 224) 2048
    else if leb 240 b && ltb b 248
    then await 3 (b - 240) 65536
    else none
next_byte (suc more) value least b =
    let value' = value * 64 + (b - 128) in
    if leb 128 b && ltb b 192
    then (if ltb 0 more
        then await more value' least
        else if ltb value' least
        then none
        else complete value')
    else none

push_char : Option Char → String → String
push_char none s = s
push_char (some c) s = String.◌∷◌ c s

decode_utf8 : Pending → List ℕ → Option String
decode_utf8 p [] = if ltb 0 p.more then none else some String.[]
decode_utf8 p (b ∷ bs) = elim (next_byte p.more p.value p.least b) [
  | none ↦ none
  | some (c, p') ↦ Option.map (push_char c) (decode_utf8 p' bs)
]

unfoldable pub from_utf8 : List ℕ → Option String
unfolding decode_utf8 next_byte push_char to_char
from_utf8 bytes = decode_utf8 idle bytes

from_utf8_test : from_utf8 (as_bytes "~é€😀") ≡ some "~é€😀"
unfolding from_utf8 as_bytes
from_utf8_test = refl

-- An overlong form, a surrogate and a cut sequence are refused.
from_utf8_rejects :
    (from_utf8 (192 ∷ 175 ∷ []) ≡ none)
    × (from_utf8 (237 ∷ 160 ∷ 128 ∷ []) ≡ none)
    × (from_utf8 (226 ∷ 130 ∷ []) ≡ none)
unfolding from_utf8
from_utf8_rejects = (refl, refl, refl)
