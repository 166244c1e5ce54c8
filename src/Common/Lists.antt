-- ===== src/Common/Lists.antt =====
-- Lists measured by native numbers, and predicates on all their members.
use Prim.Native.Nat.{ℕ, zero, suc, ◌+◌}
use mathlib.Core.Path.{◌≡◌, refl, ap, sym, subst}
use mathlib.Core.Bool.{Bool, true, false, not, ◌||◌}
use mathlib.Core.List.{List, [], ◌∷◌, ◌++◌, map}
use Prim.Native.String.{String}
use mathlib.Core.Logic.{◌↔◌, ◌⊎◌, inl, inr}
use text.Mathlib.Text.{◌==◌}
use text.Mathlib.TextEquality.{eq_iff}
use native.Mathlib.Omega.{arith}
use flowgency.Common.Tests.{Bool-cases}

module _ {ℓ} {A : Type ℓ} where
  abbrev pub length : List A → ℕ
  length [] = 0
  length (x ∷ xs) = suc (length xs)

  abbrev pub take : ℕ → List A → List A
  take zero xs = []
  take (suc n) [] = []
  take (suc n) (x ∷ xs) = x ∷ take n xs

  abbrev pub drop : ℕ → List A → List A
  drop zero xs = xs
  drop (suc n) [] = []
  drop (suc n) (x ∷ xs) = drop n xs

  abbrev pub any : (A → Bool) → List A → Bool
  any p [] = false
  any p (x ∷ xs) = p x || any p xs

  pub length-append : (xs ys : List A) → length (xs ++ ys) ≡ length xs + length ys
  length-append [] ys = omega arith
  length-append (x ∷ xs) ys = omega (arith, length-append xs ys)

  pub take-append-drop : (n : ℕ) (xs : List A) → take n xs ++ drop n xs ≡ xs
  take-append-drop zero xs = refl
  take-append-drop (suc n) [] = refl
  take-append-drop (suc n) (x ∷ xs) = ap (◌∷◌ x) (take-append-drop n xs)

  pub take-length-append : (xs ys : List A) → take (length xs) (xs ++ ys) ≡ xs
  take-length-append [] ys = refl
  take-length-append (x ∷ xs) ys = ap (◌∷◌ x) (take-length-append xs ys)

  pub drop-length-append : (xs ys : List A) → drop (length xs) (xs ++ ys) ≡ ys
  drop-length-append [] ys = refl
  drop-length-append (x ∷ xs) ys = drop-length-append xs ys

  -- A predicate of every member, by recursion: it computes to a tuple.
  abbrev pub All {κ} : (A → Type κ) → List A → Type κ
  All P [] = Unit
  All P (x ∷ xs) = P x × All P xs

  -- Membership with its position.
  pub data In (a : A) : List A → Type ℓ where
    here : {xs : List A} → In a (a ∷ xs)
    there : {x : A} {xs : List A} → In a xs → In a (x ∷ xs)

  pub In-cons : {a x : A} {xs : List A} → In a (x ∷ xs) → (a ≡ x) ⊎ In a xs
  In-cons here = inl refl
  In-cons (there i) = inr i

  pub All-append {κ} : (P : A → Type κ) (xs ys : List A) → All P xs → All P ys → All P (xs ++ ys)
  All-append P [] ys front back = back
  All-append P (x ∷ xs) ys front back = (front.0, All-append P xs ys front.1 back)

  pub All-mono {κ μ} :
      (P : A → Type κ) (Q : A → Type μ)
      → ((a : A) → P a → Q a)
      → (xs : List A) → All P xs
      → All Q xs
  All-mono P Q f [] h = tt
  All-mono P Q f (x ∷ xs) h = (f x h.0, All-mono P Q f xs h.1)

  pub All-both {κ μ} :
      (P : A → Type κ) (Q : A → Type μ) (xs : List A)
      → All P xs
      → All Q xs
      → All (λ x. P x × Q x) xs
  All-both P Q [] h g = tt
  All-both P Q (x ∷ xs) h g = ((h.0, g.0), All-both P Q xs h.1 g.1)

  pub All-In {κ} : (P : A → Type κ) {a : A} {xs : List A} → All P xs → In a xs → P a
  All-In P h here = h.0
  All-In P h (there i) = All-In P h.1 i

  pub All-tabulate {κ} : (P : A → Type κ) (xs : List A) → ((a : A) → In a xs → P a) → All P xs
  All-tabulate P [] f = tt
  All-tabulate P (x ∷ xs) f = (f x here, All-tabulate P xs (λ a i. f a (there i)))

  pub In-append_front : {a : A} {xs : List A} (ys : List A) → In a xs → In a (xs ++ ys)
  In-append_front ys here = here
  In-append_front ys (there i) = there (In-append_front ys i)

  pub In-append_back : {a : A} (xs : List A) {ys : List A} → In a ys → In a (xs ++ ys)
  In-append_back [] i = i
  In-append_back (x ∷ xs) i = there (In-append_back xs i)

  pub In-append-cases : {a : A} (xs ys : List A) → In a (xs ++ ys) → In a xs ⊎ In a ys
  In-append-cases [] ys i = inr i
  In-append-cases (x ∷ xs) ys here = inl here
  In-append-cases (x ∷ xs) ys (there i) = elim (In-append-cases xs ys i) [
    | inl front ↦ inl (there front)
    | inr back ↦ inr back
  ]

pub map-append {ℓ κ} :
    {A : Type ℓ} {B : Type κ} (f : A → B) (xs ys : List A) → map f (xs ++ ys) ≡ map f xs ++ map f ys
map-append f [] ys = refl
map-append f (x ∷ xs) ys = ap (◌∷◌ (f x)) (map-append f xs ys)

-- `x in {...}` over texts, and whether a text stands twice.
unfoldable pub contains : String → List String → Bool
contains x [] = false
contains x (y ∷ ys) = y == x || contains x ys

unfoldable pub has_duplicates : List String → Bool
unfolding contains
has_duplicates [] = false
has_duplicates (x ∷ xs) = contains x xs || has_duplicates xs

abbrev pub Distinct : List String → Type 0
Distinct [] = Unit
Distinct (x ∷ xs) = (¬ In x xs) × Distinct xs

pub contains→In : (x : String) (ys : List String) → contains x ys ≡ true → In x ys
unfolding contains
contains→In x [] h = absurd (ground arith)
contains→In x (y ∷ ys) h = elim (Bool-cases (y == x)) [
  | inl same ↦ subst (λ z. In x (z ∷ ys)) (sym ((eq_iff y x).0 same)) here
  | inr other ↦ there (contains→In x ys (ground arith))
]

pub In→contains : (x : String) (ys : List String) → In x ys → contains x ys ≡ true
unfolding contains
In→contains x [] i = elim i [ ]
In→contains x (y ∷ ys) here = ground (arith, eq_iff x x)
In→contains x (y ∷ ys) (there i) = ground (arith, In→contains x ys i)

pub has_duplicates→Distinct : (xs : List String) → has_duplicates xs ≡ false → Distinct xs
unfolding has_duplicates
has_duplicates→Distinct [] h = tt
has_duplicates→Distinct (x ∷ xs) h =
    (λ i. cc (In→contains x xs i, no_head), has_duplicates→Distinct xs (ground arith))
  where
    no_head : contains x xs ≡ false
    no_head = ground arith

pub Distinct→has_duplicates : (xs : List String) → Distinct xs → has_duplicates xs ≡ false
unfolding has_duplicates
Distinct→has_duplicates [] h = refl
Distinct→has_duplicates (x ∷ xs) h = elim (Bool-cases (contains x xs)) [
  | inl twice ↦ absurd (h.0 (contains→In x xs twice))
  | inr once ↦ ground (arith, Distinct→has_duplicates xs h.1)
]

pub contains_iff : (x : String) (ys : List String) → (contains x ys ≡ true) ↔ In x ys
contains_iff x ys = (contains→In x ys, In→contains x ys)

pub not-has_duplicates_iff : (xs : List String) → (not (has_duplicates xs) ≡ true) ↔ Distinct xs
not-has_duplicates_iff xs = (
  λ h. has_duplicates→Distinct xs (ground arith),
  λ h. ground (arith, Distinct→has_duplicates xs h),
)
