-- ===== src/Common/Raising.antt =====
-- A call that returns or raises: the Python code's exceptions as values.
use mathlib.Core.Path.{◌≡◌, refl}
use mathlib.Core.Logic.{◌⊎◌, inl, inr, ◌↔◌}
use mathlib.Core.Bool.{Bool, true, false}
use mathlib.Core.Option.{Option, none, some}
use mathlib.Core.List.{List, [], ◌∷◌}
use native.Mathlib.Omega.{arith}
use flowgency.Common.Lists.{All, All-mono}

pub data Outcome {ℓ} (E : Type ℓ) (A : Type ℓ) : Type ℓ where
  ok : A → Outcome E A
  raise : E → Outcome E A

module _ {ℓ} {E : Type ℓ} where
  infixl 5 ◌>>=◌ ◌>>◌
  abbrev pub ◌>>=◌ : {A B : Type ℓ} → Outcome E A → (A → Outcome E B) → Outcome E B
  ok a >>= f = f a
  raise e >>= f = raise e

  abbrev pub ◌>>◌ : {B : Type ℓ} → Outcome E Unit → Outcome E B → Outcome E B
  m >> k = m >>= λ _. k

  -- `if not test: raise e`
  abbrev pub require : Bool → E → Outcome E Unit
  require true e = ok tt
  require false e = raise e

  abbrev pub or_raise : {A : Type ℓ} → Option A → E → Outcome E A
  or_raise none e = raise e
  or_raise (some a) e = ok a

  pub Outcome-cases :
      {A : Type ℓ} (m : Outcome E A) → ((a : A) × (m ≡ ok a)) ⊎ ((e : E) × (m ≡ raise e))
  Outcome-cases (ok a) = inl (a, refl)
  Outcome-cases (raise e) = inr (e, refl)

  -- Inversion of a chain that returned.
  pub >>=-eq-ok :
      {A B : Type ℓ} (first : Outcome E A) (next : A → Outcome E B) {returned : B}
      → (first >>= next) ≡ ok returned
      → (passed : A) × (first ≡ ok passed) × (next passed ≡ ok returned)
  >>=-eq-ok (ok passed) next chain = (passed, refl, chain)
  >>=-eq-ok (raise e) next chain = cc

  pub require-eq-ok : (b : Bool) (e : E) → require b e ≡ ok tt → b ≡ true
  require-eq-ok b e h = ground arith

  -- `for x in xs: f(x)`
  abbrev pub each : {A : Type ℓ} → (A → Outcome E Unit) → List A → Outcome E Unit
  each f [] = ok tt
  each f (x ∷ xs) = f x >> each f xs

  pub All-each :
      {A : Type ℓ} (f : A → Outcome E Unit) (xs : List A)
      → each f xs ≡ ok tt
      → All (λ x. f x ≡ ok tt) xs
  All-each f [] h = tt
  All-each f (x ∷ xs) h = let (u, e, rest) = >>=-eq-ok (f x) _ h in (e, All-each f xs rest)

  pub each-All :
      {A : Type ℓ} (f : A → Outcome E Unit) (xs : List A)
      → All (λ x. f x ≡ ok tt) xs
      → each f xs ≡ ok tt
  each-All f [] h = refl
  each-All f (x ∷ xs) h = rw (h.0) (each-All f xs h.1)

  -- The check passes exactly when the statement holds.
  abbrev pub Accepts : Outcome E Unit → Type ℓ → Type ℓ
  Accepts m P = (m ≡ ok tt) ↔ P

  pub accepts_require : {P : Type ℓ} (b : Bool) (e : E) → ((b ≡ true) ↔ P) → Accepts (require b e) P
  accepts_require true e iff = (λ h. iff.0 refl, λ p. refl)
  accepts_require false e iff = (λ h. cc, λ p. cc (iff.1 p))

  pub accepts_then :
      {P Q : Type ℓ} (m k : Outcome E Unit) → Accepts m P → Accepts k Q → Accepts (m >> k) (P × Q)
  accepts_then (ok tt) k first second = (λ h. (first.0 refl, second.0 h), λ both. second.1 both.1)
  accepts_then (raise e) k first second = (λ h. cc, λ both. cc (first.1 both.0))

  pub accepts_each :
      {A : Type ℓ} (P : A → Type ℓ) (f : A → Outcome E Unit) (xs : List A)
      → ((x : A) → Accepts (f x) (P x))
      → Accepts (each f xs) (All P xs)
  accepts_each P f xs iff = (
    λ h. All-mono _ P (λ x e. (iff x).0 e) xs (All-each f xs h),
    λ h. each-All f xs (All-mono P _ (λ x p. (iff x).1 p) xs h),
  )
