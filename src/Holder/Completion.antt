-- ===== src/Holder/Completion.antt =====
-- What the completion of a key-bound presentation in src/holder.rs gives back.
use Prim.Native.String.{◌++◌ as append}
use sd_jwt_rust.Prelude.{ℕ, String, ◌≡◌, true, some, List}
use sd_jwt_rust.Error.{Result, ok, done, >>=-eq-ok}
use sd_jwt_rust.Text.{as_bytes}
use sd_jwt_rust.Codec.{Codec, base64url_encode}
use sd_jwt_rust.Jose.{Jose}
use sd_jwt_rust.Common.{compact}
use sd_jwt_rust.Common.Parsing.{present}
use sd_jwt_rust.Signature.{Curves, verify_remote_signature}
use sd_jwt_rust.Signature.Checks.{IsWellFormed, verify_remote_signature-IsWellFormed}
use sd_jwt_rust.Holder.{PreparedKeyBindingPresentation, complete}

-- A completed compact presentation is the held JWT, the chosen disclosures and the key-binding JWT,
-- in this order, joined by `~`; the key-binding JWT is the prepared signing input with a signature
-- behind it that is well formed and verifies over it.
pub complete-present :
    (j : Jose) (e : Curves) (c : Codec) (install : Result (Unit {0}))
    (self : PreparedKeyBindingPresentation j) (signature : List ℕ) {presentation : String}
    → self.serialization_format ≡ compact
    → complete j e c install self signature ≡ ok presentation
    → (presentation
        ≡ present self.serialized_sd_jwt self.disclosures
            (some (append self.signing_input (append "." (base64url_encode c signature)))))
      × IsWellFormed e self.algorithm signature
      × (j.verify_signature
            (base64url_encode c signature)
            (as_bytes self.signing_input)
            self.verification_key
            self.algorithm
          ≡ done true)
unfolding complete
complete-present j e c install self signature format h =
    let (_, valid, rest) =
      >>=-eq-ok
        (verify_remote_signature e j c install self.algorithm (as_bytes self.signing_input)
          signature self.verification_key)
        _ h in
    let (formed, verifies) =
      verify_remote_signature-IsWellFormed e j c install self.algorithm
        (as_bytes self.signing_input) signature self.verification_key valid in
    (written (rw format at rest), formed, verifies)
  where
    written : {a b : String} → Result.ok a ≡ ok b → b ≡ a
    written k = cc
