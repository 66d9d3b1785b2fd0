-- ===== src/Preprocessing/Mappings.antt =====
-- What the serial preprocessing of src/disclosure_preprocessing.rs publishes: the invariant of its
-- loop, from which the contents of the three collections follow.
use sd_jwt_rust.Prelude.{
  nat_eq_self, not-elim, ℕ, suc, String, ◌≡◌, refl, sym, ◌∙◌, ◌≢◌, true, false, not, some, List, [],
  ◌∷◌, ◌++◌, map, ◌==◌, eq_iff, arith, if◌then◌else◌, All, All-append, All-map, Distinct,
  Distinct-snoc, contains, contains-append,
}
use mathlib.Core.List.{append_assoc, append-nil, map-append}
use text.Mathlib.TextPositions.{eq_refl}
use sd_jwt_rust.Prelude.Maps.{
  lookup, contains_key, lookup-insert, contains_key-insert, contains_key_of_lookup,
}
use sd_jwt_rust.Error.{
  ok, ◌>>=◌, Ensures, returns, Ensures-bind, Ensures-ensure, Ensures-ok, Ensures-intro, out_of_fuel,
  panic, panic,
}
use sd_jwt_rust.Text.{as_bytes}
use sd_jwt_rust.Codec.{Codec, base64_hash, base64url_decode}
use sd_jwt_rust.Preprocessing.{
  DisclosureMappings, ProcessedDisclosure, no_mappings, outcome_result, entered, enter_disclosure,
  preprocess_from, decode_disclosure, process_disclosure, preprocess_disclosures_serial,
}

module _ (c : Codec) where
  -- The digest of an encoded disclosure: the hash of the bytes as they were received.
  abbrev pub digest_of : String → String
  digest_of encoded = base64_hash c (as_bytes encoded)

  -- The three collections hold the disclosure under its digest.
  pub record IsEntered (m : DisclosureMappings) (encoded : String) : Type 0 where
    pub raw : lookup (digest_of encoded) m.hash_to_disclosure ≡ some encoded
    pub processed : ProcessedDisclosure
    pub decodes : decode_disclosure c encoded ≡ ok processed
    pub decoded :
        lookup (digest_of encoded) m.hash_to_decoded_disclosure ≡ some processed.decoded_disclosure

  -- The collections hold the given disclosures, in their order, and nothing else.
  pub record Holds (encoded : List String) (m : DisclosureMappings) : Type 0 where
    pub digests : m.ordered_disclosure_digests ≡ map digest_of encoded
    pub distinct : Distinct m.ordered_disclosure_digests
    pub keys :
        (d : String)
        → contains_key m.hash_to_decoded_disclosure d ≡ contains m.ordered_disclosure_digests d
    pub raw_keys :
        (d : String) → contains_key m.hash_to_disclosure d ≡ contains m.ordered_disclosure_digests d
    pub entries : All (IsEntered m) encoded

  pub Holds-nil : Holds [] no_mappings
  unfolding contains_key lookup contains
  Holds-nil = record {
    digests = refl;
    distinct = tt;
    keys = λ d. refl;
    raw_keys = λ d. refl;
    entries = tt;
  }

  decode_disclosure-ne-out_of_fuel : (encoded : String) → decode_disclosure c encoded ≢ out_of_fuel
  unfolding decode_disclosure base64url_decode
  decode_disclosure-ne-out_of_fuel encoded = ground arith

  decode_disclosure-ne-panic : (encoded : String) → decode_disclosure c encoded ≢ panic
  unfolding decode_disclosure base64url_decode
  decode_disclosure-ne-panic encoded = ground arith

  pub decode_disclosure-Ensures :
      (encoded : String)
      → Ensures (λ p. decode_disclosure c encoded ≡ ok p) (decode_disclosure c encoded)
  decode_disclosure-Ensures encoded =
      Ensures-intro (decode_disclosure c encoded) (decode_disclosure-ne-panic encoded)
        (decode_disclosure-ne-out_of_fuel encoded) (λ p e. e)

  decode_disclosure-digest :
      (encoded : String) {p : ProcessedDisclosure}
      → decode_disclosure c encoded ≡ ok p
      → p.digest ≡ digest_of encoded
  unfolding decode_disclosure base64url_decode
  decode_disclosure-digest encoded h = ground arith

  module _ (done : List String) (encoded : String) (p : ProcessedDisclosure)
      (m : DisclosureMappings) (h : Holds done m) (d : p.digest ≡ digest_of encoded)
      (fresh : contains_key m.hash_to_decoded_disclosure p.digest ≡ false) where
    IsEntered-entered : (x : String) → IsEntered m x → IsEntered (entered encoded p m) x
    unfolding entered
    IsEntered-entered x i =
        let known = contains_key_of_lookup (digest_of x) m.hash_to_decoded_disclosure i.decoded in
        record {
          raw = ground (
            arith,
            known,
            i.raw,
            eq_iff p.digest (digest_of x),
            lookup-insert p.digest (digest_of x) encoded m.hash_to_disclosure,
          );
          processed = i.processed;
          decodes = i.decodes;
          decoded = ground (
            arith,
            known,
            i.decoded,
            eq_iff p.digest (digest_of x),
            lookup-insert p.digest (digest_of x) p.decoded_disclosure m.hash_to_decoded_disclosure,
          );
        }

    IsEntered-new : decode_disclosure c encoded ≡ ok p → IsEntered (entered encoded p m) encoded
    unfolding entered
    IsEntered-new e = record {
      raw = rw (← d) (
          ground (
            arith,
            eq_iff p.digest p.digest,
            lookup-insert p.digest p.digest encoded m.hash_to_disclosure,
          ));
      processed = p;
      decodes = e;
      decoded = rw (← d) (
          ground (
            arith,
            eq_iff p.digest p.digest,
            lookup-insert p.digest p.digest p.decoded_disclosure m.hash_to_decoded_disclosure,
          ));
    }

    contains-entered :
        (j : String)
        → contains (entered encoded p m).ordered_disclosure_digests j
          ≡ (if p.digest == j then true else contains m.ordered_disclosure_digests j)
    unfolding entered contains
    contains-entered j =
        ground (arith, contains-append m.ordered_disclosure_digests (p.digest ∷ []) j)

    Holds-entered :
        decode_disclosure c encoded ≡ ok p → Holds (done ++ encoded ∷ []) (entered encoded p m)
    unfolding entered
    Holds-entered e = record {
      digests = simp (h.digests, d, map-append);
      distinct = Distinct-snoc _ _ h.distinct (sym (h.keys p.digest) ∙ fresh);
      keys = λ j. simp (contains_key-insert, contains-entered j, h.keys);
      raw_keys = λ j. simp (contains_key-insert, contains-entered j, h.raw_keys);
      entries =
          All-append _ done (encoded ∷ []) (All-map _ _ IsEntered-entered done h.entries)
            (IsEntered-new e, tt);
    }

  enter_disclosure-Holds :
      (done : List String) (encoded : String) (p : ProcessedDisclosure) (m : DisclosureMappings)
      → Holds done m
      → decode_disclosure c encoded ≡ ok p
      → Ensures (Holds (done ++ encoded ∷ [])) (enter_disclosure encoded p m)
  unfolding enter_disclosure
  enter_disclosure-Holds done encoded p m h e =
      Ensures-ensure (not (contains_key m.hash_to_decoded_disclosure p.digest)) _ λ fresh.
        returns (
          Holds-entered done encoded p m h (decode_disclosure-digest encoded e) (not-elim _ fresh)
            e)

  -- One round of the serial loop with the real worker.
  pub preprocess_from-cons :
      (n : ℕ) (encoded : String) (rest : List String) (m : DisclosureMappings)
      → preprocess_from (process_disclosure c) n (encoded ∷ rest) m ≡ (
          decode_disclosure c encoded >>= λ p.
          enter_disclosure encoded p m >>= preprocess_from (process_disclosure c) (suc n) rest)
  unfolding preprocess_from outcome_result process_disclosure
  preprocess_from-cons n encoded rest m = rw (nat_eq_self n) (rw (eq_refl encoded))

  preprocess_from-Holds :
      (n : ℕ) (done encoded : List String) (m : DisclosureMappings)
      → Holds done m
      → Ensures (Holds (done ++ encoded)) (preprocess_from (process_disclosure c) n encoded m)
  preprocess_from-Holds n done [] m h = unfold preprocess_from in returns {a = m} (rw append-nil h)
  preprocess_from-Holds n done (encoded ∷ rest) m h = rw preprocess_from-cons (
      Ensures-bind (decode_disclosure-Ensures encoded) λ p e.
        Ensures-bind (enter_disclosure-Holds done encoded p m h e) λ m' h'.
          rw append_assoc at (preprocess_from-Holds (suc n) (done ++ encoded ∷ []) rest m' h'))

-- Serial preprocessing does not panic, whatever the disclosures are.
pub preprocess_disclosures_serial-Ensures :
    (c : Codec) (encoded : List String)
    → Ensures (Holds c encoded) (preprocess_disclosures_serial c encoded)
unfolding preprocess_disclosures_serial
preprocess_disclosures_serial-Ensures c encoded =
    preprocess_from-Holds c 0 [] encoded no_mappings (Holds-nil c)

-- Serial preprocessing that succeeds publishes the digest of each disclosure in input order, each
-- digest once; each of the two maps has exactly these digests as its keys, and holds under a
-- disclosure's digest the disclosure as it was received and its decoded JSON.
pub preprocess_disclosures_serial-Holds :
    (c : Codec) (encoded : List String) {m : DisclosureMappings}
    → preprocess_disclosures_serial c encoded ≡ ok m
    → Holds c encoded m
preprocess_disclosures_serial-Holds c encoded h =
    Ensures-ok (preprocess_disclosures_serial-Ensures c encoded) h
