-- ===== src/Disclosure.antt =====
-- src/disclosure.rs: the text of a disclosure, its base64 form and its digest. The salt and the JSON
-- text of the value are arguments, as in `new_with_salt`; the feature that spaces the text out for
-- reference vectors is left aside.
pub mod Entry
use Prim.Native.Char.{Char, code}
use Prim.Native.String.{◌++◌ as append}
use Prim.Native.String
use sd_jwt_rust.Prelude.{
  ℕ, zero, suc, ◌+◌, ◌-◌, ◌/◌, ◌%◌, String, Bool, true, false, ◌&&◌, Option, none, some, List, [],
  ◌∷◌, ltb, if◌then◌else◌,
}
use sd_jwt_rust.Json
use sd_jwt_rust.Text.{as_bytes, single}
use sd_jwt_rust.Codec.{Codec, base64_hash, base64url_encode}

pub record SdJwtDisclosure : Type 0 where
  pub raw_b64 : String
  pub hash : String

-- `is_ascii`.
unfoldable pub is_ascii : String → Bool
is_ascii String.[] = true
is_ascii (String.◌∷◌ c s) = ltb (code c) 128 && is_ascii s

-- `encode_utf16`: the code units of a character.
unfoldable pub encode_utf16 : ℕ → List ℕ
encode_utf16 n =
    if ltb n 65536 then n ∷ [] else (55296 + (n - 65536) / 1024) ∷ (56320 + (n - 65536) % 1024) ∷ []

-- A hexadecimal digit in lower case, and the four of `{:04x}` on a code unit.
abbrev pub hex_digits : List String
hex_digits =
    "0" ∷ "1" ∷ "2" ∷ "3" ∷ "4" ∷ "5" ∷ "6" ∷ "7" ∷ "8" ∷ "9" ∷ "a" ∷ "b" ∷ "c" ∷ "d" ∷ "e" ∷ "f"
    ∷ []

unfoldable pub text_at : List String → ℕ → String
text_at [] n = ""
text_at (s ∷ ss) zero = s
text_at (s ∷ ss) (suc n) = text_at ss n

unfoldable pub hex4 : ℕ → String
unfolding text_at
hex4 n = append (text_at hex_digits (n / 4096 % 16)) (
    append (text_at hex_digits (n / 256 % 16))
      (append (text_at hex_digits (n / 16 % 16)) (text_at hex_digits (n % 16))))

unfoldable pub escape_units : List ℕ → String
unfolding hex4
escape_units [] = ""
escape_units (unit ∷ units) = append "\\u" (append (hex4 unit) (escape_units units))

unfoldable pub escape_unicode_chars : String → String
unfolding encode_utf16 escape_units
escape_unicode_chars String.[] = ""
escape_unicode_chars (String.◌∷◌ c s) =
    append (if ltb (code c) 128 then single c else escape_units (encode_utf16 (code c)))
      (escape_unicode_chars s)

-- The JSON text of the value as the disclosure holds it.
unfoldable pub ascii_text : String → String
unfolding is_ascii escape_unicode_chars
ascii_text value = if is_ascii value then value else escape_unicode_chars value

module _ (c : Codec) where
  unfoldable pub escape_json : String → String
  escape_json s = c.to_string (Json.string s)

  unfoldable pub disclosure_text : Option String → String → String → String
  unfolding escape_json
  disclosure_text none value_str salt =
      append "[\"" (append salt (append "\", " (append value_str "]")))
  disclosure_text (some key) value_str salt =
      append "[\"" (
        append salt (append "\", " (append (escape_json key) (append ", " (append value_str "]")))))

  -- `new_with_salt`, on the JSON text of the value.
  unfoldable pub new_with_salt : Option String → String → String → SdJwtDisclosure
  unfolding ascii_text disclosure_text
  new_with_salt key value salt =
      let raw_b64 = base64url_encode c (as_bytes (disclosure_text key (ascii_text value) salt)) in
      record { raw_b64 = raw_b64; hash = base64_hash c (as_bytes raw_b64) }
