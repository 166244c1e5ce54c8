-- ===== src/Workflow/Lookup.antt =====
-- Looking up the parts of a valid definition.
use flowgency.Common.{
  String, ◌≡◌, refl, subst, inl, inr, some, List, [], ◌∷◌, map, arith, ◌==◌, eq_iff, ok, All, In,
  here, there, In-cons, Bool-cases, All-append, All-mono,
}
use flowgency.Common.Dict.{Dict}
use flowgency.Workflow.Definition.{
  StateDefinition, FieldDefinition, TransitionDefinition, WorkflowDefinition, use_ids, state_ids,
  field_ids, find_by, state, field, transition,
}
use flowgency.Workflow.Validity.{IsWired}
use flowgency.Workflow.Rules.{insert_sorted, sorted_set, referenced_field_ids, field_defs}
use Prim.Native.Nat.{Ordering}
use Prim.Native.String.{compare}

module _ {A : Type 0} (key : A → String) where
  pub find_by-In :
      (i : String) (xs : List A) {x : A} → find_by key i xs ≡ some x → In x xs × (key x ≡ i)
  unfolding find_by
  find_by-In i [] h = cc
  find_by-In i (y ∷ ys) {x = x} h = elim (Bool-cases (key y == i)) [
    | inl same ↦
        let e : y ≡ x = ground arith in
        (subst (λ z. In z (y ∷ ys)) e here, subst (λ z. key z ≡ i) e ((eq_iff (key y) i).0 same))
    | inr other ↦ let (j, e) = find_by-In i ys {x = x} (ground arith) in (there j, e)
  ]

  pub find_by_total :
      (i : String) (xs : List A) → In i (map key xs) → (x : A) × (find_by key i xs ≡ some x)
  unfolding find_by
  find_by_total i [] j = elim j [ ]
  find_by_total i (y ∷ ys) j = elim (Bool-cases (key y == i)) [
    | inl same ↦ (y, rw same)
    | inr other ↦ elim (In-cons j) [
      | inl e ↦ (y, ground (arith, eq_iff (key y) i))
      | inr later ↦ let (x, e) = find_by_total i ys later in (x, rw other e)
    ]
  ]

pub state_total :
    (d : WorkflowDefinition) (i : String)
    → In i (state_ids d)
    → (s : StateDefinition) × (state d i ≡ ok s)
unfolding state
state_total d i j = let (s, e) = find_by_total (λ s. s.id) i d.states j in (s, rw e)

pub field_total :
    (d : WorkflowDefinition) (i : String)
    → In i (field_ids d)
    → (f : FieldDefinition) × (field d i ≡ ok f)
unfolding field
field_total d i j = let (f, e) = find_by_total (λ f. f.id) i d.fields j in (f, rw e)

pub transition-In :
    (d : WorkflowDefinition) (i : String) (t : TransitionDefinition)
    → transition d i ≡ ok t
    → In t d.transitions × (t.id ≡ i)
unfolding transition
transition-In d i t h = find_by-In (λ u. u.id) i d.transitions (ground arith)

module _ (P : String → Type 0) where
  All-insert_sorted : (x : String) (ys : List String) → P x → All P ys → All P (insert_sorted x ys)
  unfolding insert_sorted
  All-insert_sorted x [] p h = (p, tt)
  All-insert_sorted x (y ∷ ys) p h =
      elim (compare x y)
        as (λ c. All P (elim c [
          | Ordering.lt ↦ x ∷ y ∷ ys
          | Ordering.eq ↦ y ∷ ys
          | Ordering.gt ↦ y ∷ insert_sorted x ys
        ])) [
          | Ordering.lt ↦ (p, h)
          | Ordering.eq ↦ h
          | Ordering.gt ↦ (h.0, All-insert_sorted x ys p h.1)
        ]

All-sorted_set : (P : String → Type 0) (xs : List String) → All P xs → All P (sorted_set xs)
unfolding sorted_set
All-sorted_set P [] h = tt
All-sorted_set P (x ∷ xs) h = All-insert_sorted P x (sorted_set xs) h.0 (All-sorted_set P xs h.1)

field_defs-ok :
    (d : WorkflowDefinition) (is : List String)
    → All (λ i. In i (field_ids d)) is
    → (defs : Dict FieldDefinition) × (field_defs d is ≡ ok defs)
unfolding field_defs
field_defs-ok d [] h = ([], refl)
field_defs-ok d (i ∷ is) h =
    let (f, e) = field_total d i h.0 in
    let (others, rest) = field_defs-ok d is h.1 in ((i, f) ∷ others, rw (e, rest))

All-map :
    {A : Type 0} (key : A → String) (P : String → Type 0) (xs : List A)
    → All (λ x. P (key x)) xs
    → All P (map key xs)
All-map key P [] h = tt
All-map key P (x ∷ xs) h = (h.0, All-map key P xs h.1)

-- The snapshot of a wired transition finds every field that it names.
pub field_defs_total :
    (d : WorkflowDefinition) (t : TransitionDefinition)
    → IsWired d t
    → (defs : Dict FieldDefinition) × (field_defs d (sorted_set (referenced_field_ids t)) ≡ ok defs)
unfolding referenced_field_ids
field_defs_total d t w = field_defs-ok d _ (
    All-sorted_set _ (referenced_field_ids t) (
      All-append _ (use_ids t.inputs) _ (All-map _ _ t.inputs w.inputs_declared) (
        All-append _ (use_ids t.outputs) _ (All-map _ _ t.outputs w.outputs_declared) (
          All-map _ _ t.preconditions
            (All-mono _ _ (λ p both. both.0) t.preconditions w.preconditions_typed)))))
