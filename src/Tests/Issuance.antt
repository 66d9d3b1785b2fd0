-- ===== src/Tests/Issuance.antt =====
-- Runs of src/disclosure.rs and src/signature_validation.rs.

use sd_jwt_rust.Prelude.{String, ◌≡◌, refl, true, Option, none, some, ◌==◌, if◌then◌else◌}
use sd_jwt_rust.Error.{Attempt, ok, done, failed}
use sd_jwt_rust.Json.{Value, string, array}
use sd_jwt_rust.Text.{as_bytes, join}
use sd_jwt_rust.Text.Utf8.{from_utf8}
use sd_jwt_rust.Codec.{Codec, base64url_encode}
use sd_jwt_rust.Jose.{eddsa}
use sd_jwt_rust.Disclosure.{ascii_text, escape_unicode_chars, disclosure_text}
use sd_jwt_rust.Disclosure.Entry.{quoted, array_text, element_values, element_texts}
use sd_jwt_rust.Signature.{verify_remote_signature}
use sd_jwt_rust.Signature.Checks.{IsWellFormed, verify_remote_signature-IsWellFormed}
use sd_jwt_rust.Tests.Setting.{codec, jose, curves, ones}

escape_test : escape_unicode_chars "\"é😀\"" ≡ "\"\\u00e9\\ud83d\\ude00\""
unfolding escape_unicode_chars
escape_test = refl

-- A printer of texts without escapes, and a table of the texts that are read.
abbrev written : Value → String
written (string s) = quoted s
written _ = ""

abbrev read : String → Attempt Value
read s =
    if s == "\"salt\""
    then done (string "salt")
    else if s == "\"name\""
    then done (string "name")
    else if s == "\"Ad\\u00e0\""
    then done (string "Adà")
    else if s == "[\"salt\", \"name\", \"Ad\\u00e0\"]"
    then done (array (element_values (some "name") (string "Adà") "salt"))
    else failed "no JSON"

abbrev read_bytes : Option String → Attempt Value
read_bytes none = failed "no UTF-8"
read_bytes (some s) = read s

abbrev writer : Codec
writer = record codec { to_string = written; from_slice = λ bytes. read_bytes (from_utf8 bytes) }

abbrev text : String
text = array_text (element_texts writer (some "name") (string "Adà") "salt")

text_test : disclosure_text writer (some "name") (ascii_text "\"Adà\"") "salt" ≡ text
unfolding disclosure_text ascii_text join
text_test = refl

accepted :
    verify_remote_signature curves jose codec (ok tt) eddsa (as_bytes "h.p") (ones 64) "issuer key"
    ≡ ok tt
unfolding verify_remote_signature ones
accepted = refl

verify_remote_signature-IsWellFormed_example :
    IsWellFormed curves eddsa (ones 64)
    × (jose.verify_signature (base64url_encode codec (ones 64)) (as_bytes "h.p") "issuer key" eddsa
        ≡ done true)
verify_remote_signature-IsWellFormed_example =
    verify_remote_signature-IsWellFormed curves jose codec (ok tt) eddsa (as_bytes "h.p") (ones 64)
      "issuer key" accepted
