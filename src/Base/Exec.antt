-- ===== src/Base/Exec.antt =====
-- Calls that change a state and may not return. What was written before the fault stays written.
use mathlib.Core.Path.{◌≡◌, refl, ap}
use mathlib.Core.Option.{Option, none, some}
use mathlib.Core.Bool.{Bool, true, false}
use mathlib.Core.List.{List, [], ◌∷◌}

-- `out_of_range` is the exception of std::unordered_map::at, `assertion` a failed assert,
-- `undefined` behaviour that the language leaves undefined, `blocked` a call that waits for ever,
-- `system_error` the exception of std::thread::join, `terminated` a call of std::terminate.
pub data Fault : Type 0 where
  out_of_range assertion undefined blocked system_error terminated : Fault

pub data Outcome {ℓ} (A : Type ℓ) : Type ℓ where
  returns : A → Outcome A
  faults : Fault → Outcome A

abbrev pub Exec : Type 0 → Type 0 → Type 0
Exec S A = S → Outcome A × S

module _ {S A : Type 0} where
  abbrev pub pure : A → Exec S A
  pure a s = (returns a, s)

  abbrev pub fail : Fault → Exec S A
  fail f s = (faults f, s)

  -- A computation that leaves the state alone.
  abbrev pub lift : Outcome A → Exec S A
  lift r s = (r, s)

abbrev pub continue : {S A B : Type 0} → (A → Exec S B) → Outcome A × S → Outcome B × S
continue f (returns a, s) = f a s
continue f (faults e, s) = (faults e, s)

infixl 5 ◌>>=◌ ◌>>◌
abbrev pub ◌>>=◌ : {S A B : Type 0} → Exec S A → (A → Exec S B) → Exec S B
◌>>=◌ m f s = continue f (m s)

abbrev pub ◌>>◌ : {S A B : Type 0} → Exec S A → Exec S B → Exec S B
m >> k = m >>= λ _. k

-- assert(b)
abbrev pub assert : {S : Type 0} → Bool → Exec S (Unit {0})
assert true s = (returns tt, s)
assert false s = (faults assertion, s)

-- The value of an outcome, on to the next pure step.
abbrev pub and_then : {A B : Type 0} → Outcome A → (A → Outcome B) → Outcome B
and_then (returns a) f = f a
and_then (faults e) f = faults e

-- std::unordered_map::at
abbrev pub at : {A : Type 0} → Option A → Outcome A
at none = faults out_of_range
at (some a) = returns a

-- A loop over a sequence, each round in the state that the last one left.
unfoldable pub for_each : {S A : Type 0} → (A → Exec S (Unit {0})) → List A → Exec S (Unit {0})
for_each f [] = pure tt
for_each f (a ∷ rest) = f a >> for_each f rest

-- A loop that rewrites each entry of a sequence, and stops at the first fault.
unfoldable pub traverse : {A B : Type 0} → (A → Outcome B) → List A → Outcome (List B)
traverse f [] = returns []
traverse f (a ∷ rest) =
    let bs = traverse f rest in and_then (f a) (λ b. and_then bs (λ cs. returns (b ∷ cs)))

abbrev pub returned {ℓ} : {A : Type ℓ} → Outcome A → Bool
returned (returns _) = true
returned (faults _) = false

module _ {S A B : Type 0} where
  -- A sequence that returns went through its first part.
  pub continue-returned :
      (f : A → Exec S B) (p : Outcome A × S)
      → returned (continue f p).0 ≡ true
      → (a : A) × (s : S) × (p ≡ (returns a, s)) × (returned (f a s).0 ≡ true)
  continue-returned f (returns a, s) h = (a, s, refl, h)
  continue-returned f (faults e, s) h = cc

  pub bind-returned :
      (m : Exec S A) (f : A → Exec S B) (s : S)
      → returned ((m >>= f) s).0 ≡ true
      → (a : A) × (s' : S) × (m s ≡ (returns a, s')) × (returned (f a s').0 ≡ true)
  bind-returned m f s h = continue-returned f (m s) h

  continue-eq :
      (f : A → Exec S B) (p : Outcome A × S) {b : B} {t : S}
      → continue f p ≡ (returns b, t)
      → (a : A) × (s : S) × (p ≡ (returns a, s)) × (f a s ≡ (returns b, t))
  continue-eq f (returns a, s) h = (a, s, refl, h)
  continue-eq f (faults e, s) h = cc

  -- The sequence after a first part that returns.
  pub bind-step :
      (m : Exec S A) (f : A → Exec S B) (s : S) {a : A} {t : S}
      → m s ≡ (returns a, t)
      → (m >>= f) s ≡ f a t
  bind-step m f s e = ap (continue f) e

  pub bind-eq :
      (m : Exec S A) (f : A → Exec S B) (s : S) {b : B} {t : S}
      → (m >>= f) s ≡ (returns b, t)
      → (a : A) × (s' : S) × (m s ≡ (returns a, s')) × (f a s' ≡ (returns b, t))
  bind-eq m f s h = continue-eq f (m s) h

-- and_then returns only through its first part.
pub and_then-returns :
    {A B : Type 0} (o : Outcome A) (f : A → Outcome B) {b : B}
    → and_then o f ≡ returns b
    → (a : A) × (o ≡ returns a) × (f a ≡ returns b)
and_then-returns (returns a) f e = (a, refl, e)
and_then-returns (faults x) f e = cc

pub returns-injective : {A : Type 0} {a b : A} → returns a ≡ returns b → a ≡ b
returns-injective e = cc

pub returns-pair :
    {A S : Type 0} {a b : A} {s t : S}
    → ◌≡◌ {A = Outcome A × S} (returns a, s) (returns b, t)
    → (a ≡ b) × (s ≡ t)
returns-pair e = (cc, cc)
