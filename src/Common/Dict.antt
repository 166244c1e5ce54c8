-- ===== src/Common/Dict.antt =====
-- Python's `dict` with text keys, as an association list in insertion order: an existing key is
-- assigned in place, and a new key goes to the end.
use Prim.Native.String.{String}
use mathlib.Core.Path.{◌≡◌, refl, sym, subst, subst₂}
use mathlib.Core.Logic.{inl, inr}
use mathlib.Core.Bool.{Bool, true, false, ◌||◌}
use mathlib.Core.Option.{Option, none, some}
use mathlib.Core.List.{List, [], ◌∷◌}
use native.Mathlib.Omega.{arith}
use text.Mathlib.Text.{◌==◌}
use text.Mathlib.TextEquality.{eq_iff}
use flowgency.Common.Tests.{if◌then◌else◌, Bool-cases}

abbrev pub Dict {ℓ} : Type ℓ → Type ℓ
Dict V = List (String × V)

module _ {ℓ} {V : Type ℓ} where
  -- d.get(k)
  unfoldable pub lookup : String → Dict V → Option V
  lookup k [] = none
  lookup k ((j, v) ∷ d) = if j == k then some v else lookup k d

  -- d[k] = v
  unfoldable pub insert : String → V → Dict V → Dict V
  insert k v [] = (k, v) ∷ []
  insert k v ((j, w) ∷ d) = if j == k then (j, v) ∷ d else (j, w) ∷ insert k v d

  -- d.update(e)
  unfoldable pub update : Dict V → Dict V → Dict V
  unfolding insert
  update d [] = d
  update d ((k, v) ∷ e) = update (insert k v d) e

  -- k in d
  unfoldable pub has_key : String → Dict V → Bool
  has_key k [] = false
  has_key k ((j, v) ∷ d) = j == k || has_key k d

  abbrev pub keys : Dict V → List String
  keys [] = []
  keys ((k, v) ∷ d) = k ∷ keys d

  pub lookup-insert :
      (k j : String) (v : V) (d : Dict V)
      → lookup j (insert k v d) ≡ (if k == j then some v else lookup j d)
  unfolding lookup insert
  lookup-insert k j v [] = refl
  lookup-insert k j v ((i, w) ∷ d) =
      ground (arith, eq_iff k j, eq_iff i k, eq_iff i j, lookup-insert k j v d)

  pub has_key-insert : (k : String) (v : V) (d : Dict V) → has_key k (insert k v d) ≡ true
  unfolding insert has_key
  has_key-insert k v [] = ground (arith, eq_iff k k)
  has_key-insert k v ((j, w) ∷ d) = ground (arith, eq_iff j k, has_key-insert k v d)

  pub lookup-has_key : (k : String) (d : Dict V) {v : V} → lookup k d ≡ some v → has_key k d ≡ true
  unfolding lookup has_key
  lookup-has_key k [] h = cc
  lookup-has_key k ((j, w) ∷ d) {v = v} h = ground (arith, lookup-has_key k d {v = v})

  pub has_key-lookup : (k : String) (d : Dict V) → has_key k d ≡ false → lookup k d ≡ none
  unfolding lookup has_key
  has_key-lookup k [] h = refl
  has_key-lookup k ((j, v) ∷ d) h = ground (arith, has_key-lookup k d)

  -- A key that the second dictionary lacks keeps its value.
  pub lookup-update_absent :
      (k : String) (d e : Dict V) → lookup k e ≡ none → lookup k (update d e) ≡ lookup k d
  unfolding lookup update
  lookup-update_absent k d [] h = refl
  lookup-update_absent k d ((j, v) ∷ e) h =
      ground (arith, lookup-update_absent k (insert j v d) e, lookup-insert j k v d)

  -- No key twice, as in every `dict`.
  abbrev pub HasUniqueKeys : Dict V → Type 0
  HasUniqueKeys [] = Unit
  HasUniqueKeys ((k, v) ∷ d) = (has_key k d ≡ false) × HasUniqueKeys d

  -- A key of the second dictionary takes its value there.
  pub lookup-update_present :
      (k : String) (v : V) (d e : Dict V)
      → HasUniqueKeys e
      → lookup k e ≡ some v
      → lookup k (update d e) ≡ some v
  unfolding lookup update
  lookup-update_present k v d [] u h = cc
  lookup-update_present k v d ((j, w) ∷ e) u h = elim (Bool-cases (j == k)) [
    | inl same ↦ ground (
      arith,
      eq_iff j k,
      has_key-lookup j e,
      lookup-update_absent k (insert j w d) e,
      lookup-insert j k w d,
    )
    | inr other ↦ lookup-update_present k v (insert j w d) e u.1 (ground arith)
  ]

  -- Every entry satisfies a predicate of key and value.
  abbrev pub Entries {κ} : (String → V → Type κ) → Dict V → Type κ
  Entries P [] = Unit
  Entries P ((k, v) ∷ d) = P k v × Entries P d

  pub insert-Entries {κ} :
      (P : String → V → Type κ) (k : String) (v : V) (d : Dict V)
      → P k v
      → Entries P d
      → Entries P (insert k v d)
  unfolding insert
  insert-Entries P k v [] p h = (p, tt)
  insert-Entries P k v ((j, w) ∷ d) p h = elim (Bool-cases (j == k)) [
    | inl same ↦ rw same (subst (λ i. P i v) (sym ((eq_iff j k).0 same)) p, h.1)
    | inr other ↦ rw other (h.0, insert-Entries P k v d p h.1)
  ]

  pub update-Entries {κ} :
      (P : String → V → Type κ) (d e : Dict V) → Entries P d → Entries P e → Entries P (update d e)
  unfolding update
  update-Entries P d [] h g = h
  update-Entries P d ((k, v) ∷ e) h g =
      update-Entries P (insert k v d) e (insert-Entries P k v d g.0 h) g.1

  pub lookup-Entries {κ} :
      (P : String → V → Type κ) (k : String) (v : V) (d : Dict V)
      → Entries P d
      → lookup k d ≡ some v
      → P k v
  unfolding lookup
  lookup-Entries P k v [] h e = cc
  lookup-Entries P k v ((j, w) ∷ d) h e = elim (Bool-cases (j == k)) [
    | inl same ↦ subst₂ P ((eq_iff j k).0 same) (ground arith) h.0
    | inr other ↦ lookup-Entries P k v d h.1 (ground arith)
  ]
