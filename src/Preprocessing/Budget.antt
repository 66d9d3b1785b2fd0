-- ===== src/Preprocessing/Budget.antt =====
-- The process-wide worker budget of src/disclosure_preprocessing.rs, shared by threads that run
-- `try_acquire` and drop leases in any interleaving. An atomic access is one step.
use mathlib.Core.Path.{subst}
use sd_jwt_rust.Prelude.{
  ℕ, ◌+◌, ◌-◌, ◌≤◌, ◌≡◌, refl, sym, ◌∙◌, Bool, ◌||◌, not, List, [], ◌∷◌, ◌++◌, arith, ltb, nat_eq,
  if◌then◌else◌, All,
}

-- Where a thread stands: about to call `try_acquire`, in its compare-exchange loop with the value it
-- observed, refused, holding a lease, or past the lease's drop.
pub data Phase : Type 0 where
  start : ℕ → Phase
  spinning : ℕ → ℕ → Phase
  refused : Phase
  leased : ℕ → Phase
  dropped : Phase

pub record Budget : Type 0 where
  pub capacity : ℕ
  pub available : ℕ

-- One atomic step of one thread. `spurious` is whether `compare_exchange_weak` fails though the
-- values agree; a failure hands the thread the current value.
unfoldable pub advance : Budget → Bool → Phase → Budget × Phase
advance b spurious (start wanted) =
    if ltb wanted 2 || ltb b.capacity wanted then (b, refused) else (b, spinning wanted b.available)
advance b spurious (spinning wanted observed) =
    if ltb observed wanted
    then (b, refused)
    else if spurious || not (nat_eq b.available observed)
    then (b, spinning wanted b.available)
    else (record b { available = b.available - wanted }, leased wanted)
advance b spurious refused = (b, refused)
advance b spurious (leased wanted) = (record b { available = b.available + wanted }, dropped)
advance b spurious dropped = (b, dropped)

pub record System : Type 0 where
  pub budget : Budget
  pub threads : List Phase

-- Some thread moves.
pub data Step : System → System → Type 0 where
  move :
      (b : Budget) (before behind : List Phase) (p : Phase) (spurious : Bool)
      → Step
          (record { budget = b; threads = before ++ p ∷ behind })
          (record {
            budget = (advance b spurious p).0;
            threads = before ++ (advance b spurious p).1 ∷ behind;
          })

pub data Reach (s : System) : System → Type 0 where
  here : Reach s s
  next : {t u : System} → Reach s t → Step t u → Reach s u

abbrev pub held_by : Phase → ℕ
held_by (leased n) = n
held_by _ = 0

abbrev pub held : List Phase → ℕ
held [] = 0
held (p ∷ ps) = held_by p + held ps

abbrev pub IsStart : Phase → Type 0
IsStart (start n) = Unit
IsStart _ = ⊥

-- A lease is of two workers at least, and of no more than the capacity; so is a pending request.
abbrev pub IsLawful : ℕ → Phase → Type 0
IsLawful capacity (leased n) = (2 ≤ n) × (n ≤ capacity)
IsLawful capacity (spinning n observed) = (2 ≤ n) × (n ≤ capacity)
IsLawful capacity _ = Unit

pub record IsBalanced (capacity : ℕ) (s : System) : Type 0 where
  pub fixed : s.budget.capacity ≡ capacity
  pub balance : s.budget.available + held s.threads ≡ capacity
  pub lawful : All (IsLawful capacity) s.threads

held-append : (ps qs : List Phase) → held (ps ++ qs) ≡ held ps + held qs
held-append [] qs = omega arith
held-append (p ∷ ps) qs = omega (arith, held-append ps qs)

-- An atomic step moves workers between the budget and the thread's lease.
advance-held :
    (b : Budget) (spurious : Bool) (p : Phase)
    → (advance b spurious p).0.available + held_by (advance b spurious p).1
      ≡ b.available + held_by p
unfolding advance
advance-held b spurious (start n) = ground arith
advance-held b spurious _ = ground arith

advance-capacity :
    (b : Budget) (spurious : Bool) (p : Phase) → (advance b spurious p).0.capacity ≡ b.capacity
unfolding advance
advance-capacity b spurious (start n) = ground arith
advance-capacity b spurious _ = ground arith

advance-IsLawful :
    (b : Budget) (spurious : Bool) (p : Phase)
    → IsLawful b.capacity p
    → IsLawful b.capacity (advance b spurious p).1
unfolding advance
advance-IsLawful b spurious (start n) h = ground arith
advance-IsLawful b spurious _ h = ground arith

All-middle :
    (P : Phase → Type 0) (before behind : List Phase) (p q : Phase)
    → (P p → P q)
    → All P (before ++ p ∷ behind)
    → All P (before ++ q ∷ behind)
All-middle P [] behind p q f h = (f h.0, h.1)
All-middle P (x ∷ before) behind p q f h = (h.0, All-middle P before behind p q f h.1)

Step-IsBalanced :
    {capacity : ℕ} {s t : System} → Step s t → IsBalanced capacity s → IsBalanced capacity t
Step-IsBalanced {capacity} (move b before behind p spurious) h = record {
  fixed = advance-capacity b spurious p ∙ h.fixed;
  balance = omega (
    arith,
    h.balance,
    advance-held b spurious p,
    held-append before (p ∷ behind),
    held-append before ((advance b spurious p).1 ∷ behind),
  );
  lawful =
      All-middle (IsLawful capacity) before behind p (advance b spurious p).1
        (λ lawful.
          subst (λ k. IsLawful k (advance b spurious p).1) h.fixed
            (advance-IsLawful b spurious p (subst (λ k. IsLawful k p) (sym h.fixed) lawful)))
        h.lawful;
}

starts-held : (ps : List Phase) → All IsStart ps → held ps ≡ 0
starts-held [] h = refl
starts-held (start n ∷ ps) h = omega (arith, starts-held ps h.1)
starts-held (spinning n o ∷ ps) h = absurd h.0
starts-held (refused ∷ ps) h = absurd h.0
starts-held (leased n ∷ ps) h = absurd h.0
starts-held (dropped ∷ ps) h = absurd h.0

starts-IsLawful : (capacity : ℕ) (ps : List Phase) → All IsStart ps → All (IsLawful capacity) ps
starts-IsLawful capacity [] h = tt
starts-IsLawful capacity (start n ∷ ps) h = (tt, starts-IsLawful capacity ps h.1)
starts-IsLawful capacity (spinning n o ∷ ps) h = absurd h.0
starts-IsLawful capacity (refused ∷ ps) h = absurd h.0
starts-IsLawful capacity (leased n ∷ ps) h = absurd h.0
starts-IsLawful capacity (dropped ∷ ps) h = absurd h.0

-- `ParallelWorkerBudget::new`, with threads that have not called it yet.
abbrev pub fresh : ℕ → List Phase → System
fresh capacity threads = record {
  budget = record { capacity = capacity; available = capacity };
  threads = threads;
}

-- In every interleaving of threads that acquire and drop leases, the workers available and those
-- leased add up to the capacity, and each lease has at least two workers and at most the capacity.
pub Reach-IsBalanced :
    (capacity : ℕ) (threads : List Phase) {s : System}
    → All IsStart threads
    → Reach (fresh capacity threads) s
    → IsBalanced capacity s
Reach-IsBalanced capacity threads starts here = record {
  fixed = refl;
  balance = omega (arith, starts-held threads starts);
  lawful = starts-IsLawful capacity threads starts;
}
Reach-IsBalanced capacity threads starts (next r st) =
    Step-IsBalanced st (Reach-IsBalanced capacity threads starts r)
