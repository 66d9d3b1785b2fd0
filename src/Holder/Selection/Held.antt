-- ===== src/Holder/Selection/Held.antt =====
-- What `select_disclosures` of src/holder.rs selects, and where it panics.
use sd_jwt_rust.Prelude.{
  String, ◌≡◌, refl, ap, true, false, Option, none, some, List, ◌++◌, All, All-append, inl, inr,
  Bool-cases, Option-cases, contains, [], if◌then◌else◌,
}
use sd_jwt_rust.Prelude.Maps.{HashMap, lookup}
use sd_jwt_rust.Error.{Result, ok, err, panic, invalid_state, or_panic, ◌>>=◌}
use sd_jwt_rust.Error.Yields.{
  Yields, yields, fails, aborts, Yields-self, Yields-bind, Yields-weaken,
}
use sd_jwt_rust.Json.{
  Value, Items, Members, null, bool, number, string, array, object, nil, cons, empty, member, get,
  contains_key,
}
use sd_jwt_rust.Policy.{object_at}
use sd_jwt_rust.Codec.{Codec}
use sd_jwt_rust.Common.Parsing.{present}
use sd_jwt_rust.Holder.{SdJwtHolder}
use sd_jwt_rust.Reserved.{sd_list_prefix}
use sd_jwt_rust.Holder.Selection.{
  sd_map, text_of, then_own, own_disclosure, selected_array, selected_object, in_array,
  raw_disclosure, second_element, below_array, below_object, disclosed_element, array_element,
  object_element, other_element, select_disclosures, select_claim,
  select_disclosures_from_disclosed_list, select_element,
}

found {ℓ} : {A : Type ℓ} (o : Option A) → Yields (λ a. o ≡ some a) (or_panic o)
found none = aborts
found (some a) = yields refl

module _ (decoded : HashMap Value) (raw : HashMap String) where
  -- A presented disclosure: the holder's map has it under its digest.
  abbrev pub IsDisclosure : String → Type 0
  IsDisclosure d = (digest : String) × (lookup digest raw ≡ some d)

  abbrev pub AreDisclosures : List String → Type 0
  AreDisclosures = All IsDisclosure

  raw-IsDisclosure : (digest : String) → Yields IsDisclosure (raw_disclosure decoded raw digest)
  unfolding raw_disclosure
  raw-IsDisclosure digest = Yields-weaken (found (lookup digest raw)) (λ d e. (digest, e))

  joined : (xs ys : List String) → AreDisclosures xs → AreDisclosures ys → AreDisclosures (xs ++ ys)
  joined = All-append IsDisclosure

  own : (sd : Members) (key : String) → Yields AreDisclosures (own_disclosure decoded raw sd key)
  unfolding own_disclosure
  own sd key = elim (Bool-cases (contains_key sd key)) [
    | inl e ↦ rw e (yields tt)
    | inr e ↦ rw e (elim (Option-cases (lookup key (sd_map decoded raw sd))) [
      | inl f ↦ rw f (fails _)
      | inr f ↦ rw (f.1) (Yields-bind (found (lookup f.0.1 raw)) (λ d h. yields ((f.0.1, h), tt)))
    ])
  ]

  own_first :
      (r : Result String) (s : Result (List String))
      → Yields IsDisclosure r
      → Yields AreDisclosures s
      → Yields AreDisclosures (then_own r s)
  unfolding then_own
  own_first r s hr hs = Yields-bind hr (λ d h. Yields-bind hs (λ ds hds. yields (h, hds)))

  from_array :
      (o : Option Items) (select : Items → Result (List String))
      → ((xs : Items) → Yields AreDisclosures (select xs))
      → Yields AreDisclosures (in_array decoded raw o select)
  unfolding in_array
  from_array none select h = yields tt
  from_array (some xs) select h = h xs

  below_list :
      (digest : String) (select : Items → Result (List String)) (o : Option Value)
      → ((xs : Items) → Yields AreDisclosures (select xs))
      → Yields AreDisclosures (below_array decoded raw digest select o)
  unfolding below_array
  below_list digest select (some (array xs)) h = own_first _ _ (raw-IsDisclosure digest) (h xs)
  below_list digest select _ h = yields tt

  below_members :
      (digest : String) (select : Members → Result (List String)) (o : Option Value)
      → ((m : Members) → Yields AreDisclosures (select m))
      → Yields AreDisclosures (below_object decoded raw digest select o)
  unfolding below_object
  below_members digest select (some (object m)) h = own_first _ _ (raw-IsDisclosure digest) (h m)
  below_members digest select _ h = yields tt

  element : (o : Option String) → Yields AreDisclosures (disclosed_element decoded raw o)
  unfolding disclosed_element
  element none = yields tt
  element (some digest) = Yields-bind (raw-IsDisclosure digest) (λ d h. yields (h, tt))

  list_element :
      (select : Items → Result (List String)) (o : Option String)
      → ((xs : Items) → Yields AreDisclosures (select xs))
      → Yields AreDisclosures (array_element decoded raw select o)
  unfolding array_element
  list_element select none h = yields tt
  list_element select (some digest) h =
      Yields-bind (Yields-self (second_element decoded raw digest))
        (λ o _. below_list digest select o h)

  members_element :
      (select : Members → Result (List String)) (m : Members) (o : Option String)
      → ((n : Members) → Yields AreDisclosures (select n))
      → Yields AreDisclosures (object_element decoded raw select m o)
  unfolding object_element
  members_element select m none h = h m
  members_element select m (some digest) h =
      Yields-bind (Yields-self (second_element decoded raw digest))
        (λ o _. below_members digest select o h)

  no_element : (o : Option String) → Yields AreDisclosures (other_element decoded raw o)
  unfolding other_element
  no_element none = yields tt
  no_element (some digest) =
      Yields-bind (Yields-self (second_element decoded raw digest)) (λ _ _. yields tt)

  mutual
    unfolding select_disclosures

    selects :
        (claims sd : Members) → Yields AreDisclosures (select_disclosures decoded raw claims sd)
    selects empty sd = yields tt
    selects (member key value claims) sd =
        Yields-bind (selects_claim value key sd)
          (λ xs hx. Yields-bind (selects claims sd) (λ ys hy. yields (joined xs ys hx hy)))

    selects_claim :
        (v : Value) (key : String) (sd : Members)
        → Yields AreDisclosures (select_claim decoded raw v key sd)
    selects_claim null key sd = yields tt
    selects_claim (bool false) key sd = yields tt
    selects_claim (bool true) key sd = own sd key
    selects_claim (number n) key sd = own sd key
    selects_claim (string s) key sd = own sd key
    selects_claim (array xs) key sd =
        Yields-bind
          (from_array (selected_array decoded raw sd key)
            (select_disclosures_from_disclosed_list decoded raw xs) (selects_list xs))
          (λ b hb. Yields-bind (own sd key) (λ o ho. yields (joined b o hb ho)))
    selects_claim (object empty) key sd = own sd key
    selects_claim (object (member k v m)) key sd =
        Yields-bind (Yields-self (selected_object decoded raw sd key)) (λ next _.
          Yields-bind (selects (member k v m) next)
            (λ b hb. Yields-bind (own sd key) (λ o ho. yields (joined b o hb ho))))

    selects_list :
        (xs sd : Items)
        → Yields AreDisclosures (select_disclosures_from_disclosed_list decoded raw xs sd)
    selects_list nil sd = yields tt
    selects_list (cons x xs) nil = yields tt
    selects_list (cons x xs) (cons s sd) =
        Yields-bind (selects_element x s)
          (λ a ha. Yields-bind (selects_list xs sd) (λ b hb. yields (joined a b ha hb)))

    selects_element : (v s : Value) → Yields AreDisclosures (select_element decoded raw v s)
    selects_element (bool true) (object m) = element (text_of (get sd_list_prefix m))
    selects_element (array xs) (object m) =
        list_element (select_disclosures_from_disclosed_list decoded raw xs)
          (text_of (get sd_list_prefix m)) (selects_list xs)
    selects_element (object c) (object m) =
        members_element (select_disclosures decoded raw c) m (text_of (get sd_list_prefix m))
          (selects c)
    selects_element (array xs) (array ys) = selects_list xs ys
    selects_element null (object m) = no_element (text_of (get sd_list_prefix m))
    selects_element (bool false) (object m) = no_element (text_of (get sd_list_prefix m))
    selects_element (number n) (object m) = no_element (text_of (get sd_list_prefix m))
    selects_element (string t) (object m) = no_element (text_of (get sd_list_prefix m))
    selects_element _ _ = yields tt

-- What is presented of a claim that does not stand in the clear: the disclosure whose digest the
-- list of digests beside it refers to under the claim's name.
pub record IsPresented (decoded : HashMap Value) (raw : HashMap String) (key : String)
    (sd : Members) (chosen : List String) : Type 0 where
  pub value : Value
  pub digest : String
  pub referred : lookup key (sd_map decoded raw sd) ≡ some (value, digest)
  pub disclosure : String
  pub held : lookup digest raw ≡ some disclosure
  pub presented : contains chosen disclosure ≡ true

-- What a compact presentation without key binding is: the held JWT and the disclosures that the
-- requested claims select, joined by `~`, with nothing behind the last `~`.
pub record IsPresentation (self : SdJwtHolder) (claims : Members) (self' : SdJwtHolder)
    (presentation : String) : Type 0 where
  pub selected :
      select_disclosures self.sd_jwt_engine.hash_to_decoded_disclosure
        self.sd_jwt_engine.hash_to_disclosure claims self.sd_jwt_payload
      ≡ ok self'.hs_disclosures
  pub held :
      AreDisclosures self.sd_jwt_engine.hash_to_decoded_disclosure
        self.sd_jwt_engine.hash_to_disclosure self'.hs_disclosures
  pub asked_for :
      (key : String)
      → get key claims ≡ some (bool true)
      → contains_key self.sd_jwt_payload key ≡ false
      → IsPresented self.sd_jwt_engine.hash_to_decoded_disclosure
          self.sd_jwt_engine.hash_to_disclosure key self.sd_jwt_payload self'.hs_disclosures
  pub joined : presentation ≡ present self.serialized_sd_jwt self'.hs_disclosures none
  pub kept :
      self' ≡ record self { hs_disclosures = self'.hs_disclosures; serialized_key_binding_jwt = "" }

selected_object-panic :
    (decoded : HashMap Value) (raw : HashMap String) (sd : Members) (key : String)
    → object_at key sd ≡ none
    → lookup key (sd_map decoded raw sd) ≡ none
    → selected_object decoded raw sd key ≡ panic
unfolding selected_object
selected_object-panic decoded raw sd key clear hidden = cc

-- A claim that stands neither in the clear as an object nor among the disclosures makes the holder
-- panic where a request starts by asking for members of it. Where it is asked for by `true`, the
-- answer is no disclosure if it stands in the clear, and an error if not.
pub select_disclosures-panic :
    (decoded : HashMap Value) (raw : HashMap String) (sd : Members) (key k : String) (v : Value)
    (m claims : Members)
    → object_at key sd ≡ none
    → lookup key (sd_map decoded raw sd) ≡ none
    → (select_disclosures decoded raw (member key (object (member k v m)) claims) sd ≡ panic)
      × (select_claim decoded raw (bool true) key sd ≡ (
          if contains_key sd key
          then ok []
          else err (invalid_state "Requested claim doesn't exist")))
unfolding select_disclosures own_disclosure
select_disclosures-panic decoded raw sd key k v m claims clear hidden = (
  ap (λ r. select_from r) (selected_object-panic decoded raw sd key clear hidden),
  rw hidden refl,
)
  where
    select_from : Result Members → Result (List String)
    select_from r =
        r
        >>= (λ next.
            select_disclosures decoded raw (member k v m) next
            >>= (λ below. own_disclosure decoded raw sd key >>= (λ own. ok (below ++ own))))
        >>= (λ chosen. select_disclosures decoded raw claims sd >>= (λ rest. ok (chosen ++ rest)))
