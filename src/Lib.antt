-- ===== src/Lib.antt =====
-- A model of sd-jwt-rust: the issuance, presentation and verification of selectively disclosable
-- JWTs (SD-JWT).
--
-- A presentation is an issuer-signed JWT, the disclosures that a holder chose, and a key-binding
-- JWT that the holder may add. The verifier parses it in one of three serializations (src/lib.rs),
-- hashes and decodes the disclosures, serially or on several threads
-- (src/disclosure_preprocessing.rs), checks the issuer's signature, replaces the digests in the
-- payload by the disclosed claims, and checks the key binding (src/verifier.rs). The disclosures of
-- many credentials can be preprocessed as one batch (src/batch.rs).
--
-- An issuer prepares the claims (src/issuer.rs): a plan gives each claim that is to be disclosed, and
-- each decoy, a job with a salt, and an assembler carries the jobs out and puts the digests in the
-- claims' places (src/issuer/issuance_plan.rs); a remote signer signs the payload, and the issuer
-- serializes it with the disclosures.
--
-- Files, and the code that each models:
--   Error, Error/Yields: src/error.rs; results with panics, and the two ways to speak of them: Ensures
--     (the run ends in a value or an error) and Yields (what holds of a value, if there is one)
--   Json, Text, Text/Utf8, Codec, Jose: the values of serde_json, the texts of the standard library,
--     and the calls into serde_json, base64, sha2 and jsonwebtoken, which are parameters
--   Payload, Payload/Unique: jwt_payload_decode and UniqueValueVisitor of src/utils.rs
--   Policy, Policy/Keys: VerificationPolicy, validate_public_confirmation_claim and
--     validate_key_binding_jwk_policy of src/lib.rs
--   Reserved: check_for_sd_claim of src/lib.rs
--   Common, Common/Limits, Common/Parsing: SDJWTCommon of src/lib.rs
--   Preprocessing and below: src/disclosure_preprocessing.rs; Assembly is the restoration of an
--     executor's outcomes, Native the threads and the policy that selects them, Budget the shared
--     counter of workers as a system of atomic steps
--   Verifier and below: src/verifier.rs; Unpack is the recursion over the claims (Clean, Level and
--     Invariant prove one level and then all; Reveals describes what is revealed and Revealing proves
--     it; Plain is about claims without markup), Claims, Trust and Binding are the three checks, and
--     Presentation puts them together
--   Holder and below: src/holder.rs, the construction of a holder (with verify_signature of src/lib.rs),
--     the selection of disclosures, the serializations and the completion of key binding
--   Disclosure, Disclosure/Entry: src/disclosure.rs
--   Strategy: ClaimsForSelectiveDisclosureStrategy of src/issuer.rs
--   Plan, Issuance and below: src/issuer/issuance_plan.rs; Plan is the data, Issuance the planner and
--     Issuance/Assembly the serial assembler, with its walk below; Reference is the walk that both together amount to,
--     Registry, Follows and Steps carry the proof and Soundness concludes it, Plain is about claims
--     without a strategy, Executor has the jobs of an executor and their restoration, and Native the
--     native executor with the policy that selects it (in Equivalence)
--   Issuer and below: src/issuer.rs, its checks (in Checks), its payload (in Payload), what it prepares
--     (in Preparation) and completes (in Completion)
--   Batch and below: src/batch.rs, its plan (proved in Limits), its Assembly (in Order and Contract) and
--     its Execution with the serial executor (in Serial)
--   Signature, Signature/Checks: src/signature_validation.rs
--   Tests and below: runs at concrete inputs
--
-- State is passed along: a method that changes self gives back the new record, and the set of
-- digests met is a list in the order in which they were met. A Rust panic is the value `panic` of
-- Result. The unpacking of claims runs on fuel: each container that it enters is one deeper,
-- containers beyond depth 128 are refused, so that 129 levels are enough, which is proved. The
-- printing of a number in decimal has the number itself as fuel, which is more than its digits.
-- Every other loop is structural. A HashMap is an association list, whose order nothing reads; a
-- JSON object keeps its members in order, as the preserve_order feature of serde_json does. Numbers
-- in JSON are held by their printed text, since the code computes with none. The position that
-- serde_json adds to the text of an error, and its order of two errors in one JSON text, are left out.
--
-- Parameters: what sha2, base64, serde_json, jsonwebtoken and the curve crates answer, with no law
-- assumed of them but those that a theorem names (base64 decodes what it encoded, the JSON parser
-- reads a text that it printed and an array of such texts); the key
-- resolver; the installation of the crypto provider; what the operating system decides for a call:
-- which threads spawn and finish, how many it offers, and whether a lease of workers or memory is
-- granted; the random generator that salts are drawn from. A `usize` has 64 bits.
--
-- Not modelled: the preparation of key binding by the holder, which reads the clock
-- (src/holder.rs), and, of the executors of issuance behind the parallel feature, which production does
-- not select, the walks that hand them jobs and the states of their worker budget, a copy of that of
-- preprocessing (src/issuer/issuance_plan.rs). Left aside: the bindings to cryptography back ends, the
-- benchmark harness with its launch barrier, and the test-vector generator, whose work is done by
-- other crates, the clock or the file system.
pub mod Prelude
pub mod Error
pub mod Json
pub mod Text
pub mod Batch
pub mod Codec
pub mod Preprocessing
pub mod Payload
pub mod Jose
pub mod Policy
pub mod Reserved
pub mod Common
pub mod Disclosure
pub mod Strategy
pub mod Plan
pub mod Issuance
pub mod Issuer
pub mod Signature
pub mod Holder
pub mod Verifier
pub mod Tests
