-- ===== src/Disclosure/Entry.antt =====
-- What a disclosure made by src/disclosure.rs is to the verifier.
use Prim.Native.String.{◌++◌ as append}
use sd_jwt_rust.Prelude.{String, ◌≡◌, Option, none, some, List, [], ◌∷◌}
use sd_jwt_rust.Error.{done}
use sd_jwt_rust.Json.{Value, Items, string, nil, cons}
use sd_jwt_rust.Text.{as_bytes, join}
use sd_jwt_rust.Codec.{Codec}
use sd_jwt_rust.Disclosure.{ascii_text}

-- The JSON texts of a text without escapes and of an array, from those of its elements.
abbrev pub quoted : String → String
quoted s = append "\"" (append s "\"")

abbrev pub array_text : List String → String
array_text texts = append "[" (append (join ", " texts) "]")

-- The JSON parser reads a text as a value, and texts as the elements of an array.
abbrev pub Reads : Codec → String → Value → Type 0
Reads c text v = c.from_slice (as_bytes text) ≡ done v

abbrev pub AreRead : Codec → List String → Items → Type 0
AreRead c [] nil = Unit
AreRead c (text ∷ texts) (cons v vs) = Reads c text v × AreRead c texts vs
AreRead c _ _ = ⊥

-- A claim's name is read from its own JSON text; an array element has none.
abbrev pub IsNameRead : Codec → Option String → Type 0
IsNameRead c none = Unit
IsNameRead c (some name) = Reads c (c.to_string (string name)) (string name)

-- The elements of a disclosure: the salt, the name of a claim, and the value.
abbrev pub element_values : Option String → Value → String → Items
element_values none v salt = cons (string salt) (cons v nil)
element_values (some name) v salt = cons (string salt) (cons (string name) (cons v nil))

abbrev pub element_texts : Codec → Option String → Value → String → List String
element_texts c none v salt = quoted salt ∷ ascii_text (c.to_string v) ∷ []
element_texts c (some name) v salt =
    quoted salt ∷ c.to_string (string name) ∷ ascii_text (c.to_string v) ∷ []
