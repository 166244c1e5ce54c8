-- ===== src/Workflow/Editing/Keys.antt =====
-- The ids of a list of parts before and after an edit.
use flowgency.Common.{
  String, ◌≡◌, refl, sym, ap, subst, ap₂, ◌⊎◌, inl, inr, Option, none, some, List, [], ◌∷◌, ◌++◌,
  map, ℕ, zero, suc, All, In, here, there, In-cons, All-tabulate, In-append_front, In-append-cases,
  map-append, Bool-cases, ◌==◌, eq_iff,
}
use flowgency.Workflow.Definition.{StateDefinition}
use flowgency.Workflow.Editing.{without, insert_at}

abbrev pub state_key : StateDefinition → String
state_key s = s.id

module _ {A : Type 0} (key : A → String) where
  -- Every id is still there, and every new id is the created one.
  abbrev pub Kept : Option String → List A → List A → Type 0
  Kept created xs ys =
      All (λ i. In i (map key ys)) (map key xs)
      × All (λ i. In i (map key xs) ⊎ (created ≡ some i)) (map key ys)

  pub same-Kept :
      (created : Option String) (xs ys : List A) → map key ys ≡ map key xs → Kept created xs ys
  same-Kept created xs ys e = (
    All-tabulate _ (map key xs) (λ i j. subst (In i) (sym e) j),
    All-tabulate _ (map key ys) (λ i j. inl (subst (In i) e j)),
  )

  pub append-Kept : (xs : List A) (x : A) → Kept (some (key x)) xs (xs ++ x ∷ [])
  append-Kept xs x = (
    All-tabulate _ (map key xs)
        (λ i j. subst (In i) (sym (map-append key xs (x ∷ []))) (In-append_front (key x ∷ []) j)),
    All-tabulate _ (map key (xs ++ x ∷ [])) (λ i j.
        elim (In-append-cases (map key xs) _ (subst (In i) (map-append key xs (x ∷ [])) j)) [
          | inl old ↦ inl old
          | inr last ↦ elim (In-cons last) [
            | inl e ↦ inr (ap some (sym e))
            | inr beyond ↦ elim beyond [ ]
          ]
        ]),
  )

  -- A replacement that keeps the id of every part keeps the list of ids.
  pub map_same :
      (change : A → A) (xs : List A)
      → ((a : A) → key (change a) ≡ key a)
      → map key (map change xs) ≡ map key xs
  map_same change [] same = refl
  map_same change (x ∷ xs) same = ap₂ ◌∷◌ (same x) (map_same change xs same)

pub In-insert_at :
    {A : Type 0} (key : A → String) (n : ℕ) (a : A) (xs : List A) (i : String)
    → In i (map key (insert_at n a xs))
    → (i ≡ key a) ⊎ In i (map key xs)
unfolding insert_at
In-insert_at key zero a xs i j = In-cons j
In-insert_at key (suc n) a [] i j = In-cons j
In-insert_at key (suc n) a (x ∷ xs) i j = elim (In-cons j) [
  | inl e ↦ inr (subst (λ z. In z (key x ∷ map key xs)) (sym e) here)
  | inr later ↦ elim (In-insert_at key n a xs i later) [ inl e ↦ inl e | inr old ↦ inr (there old) ]
]

insert_at-In :
    {A : Type 0} (key : A → String) (n : ℕ) (a : A) (xs : List A) (i : String)
    → (i ≡ key a) ⊎ In i (map key xs)
    → In i (map key (insert_at n a xs))
unfolding insert_at
insert_at-In key zero a xs i (inl e) = subst (λ z. In z (key a ∷ map key xs)) (sym e) here
insert_at-In key zero a xs i (inr j) = there j
insert_at-In key (suc n) a [] i (inl e) = subst (λ z. In z (key a ∷ [])) (sym e) here
insert_at-In key (suc n) a [] i (inr j) = elim j [ ]
insert_at-In key (suc n) a (x ∷ xs) i (inl e) = there (insert_at-In key n a xs i (inl e))
insert_at-In key (suc n) a (x ∷ xs) i (inr j) = elim (In-cons j) [
  | inl e ↦ subst (λ z. In z (key x ∷ map key (insert_at n a xs))) (sym e) here
  | inr later ↦ there (insert_at-In key n a xs i (inr later))
]

pub without-In :
    (i k : String) (ss : List StateDefinition)
    → In k (map state_key (without i ss))
    → In k (map state_key ss)
unfolding without
without-In i k [] j = j
without-In i k (s ∷ ss) j = elim (Bool-cases (s.id == i)) [
  | inl same ↦ there (without-In i k ss (rw same at j))
  | inr other ↦ elim (In-cons (rw other at j)) [
    | inl e ↦ subst (λ z. In z (s.id ∷ map state_key ss)) (sym e) here
    | inr later ↦ there (without-In i k ss later)
  ]
]

In-without :
    (i k : String) (ss : List StateDefinition)
    → In k (map state_key ss)
    → (k ≡ i) ⊎ In k (map state_key (without i ss))
unfolding without
In-without i k [] j = elim j [ ]
In-without i k (s ∷ ss) j = elim (Bool-cases (s.id == i)) [
  | inl same ↦ elim (In-cons j) [
    | inl e ↦ inl (cc (e, (eq_iff s.id i).0 same))
    | inr later ↦ rw same (In-without i k ss later)
  ]
  | inr other ↦ rw other (elim (In-cons j) [
    | inl e ↦ inr (subst (λ z. In z (s.id ∷ map state_key (without i ss))) (sym e) here)
    | inr later ↦ elim (In-without i k ss later) [ inl e ↦ inl e | inr l ↦ inr (there l) ]
  ])
]

-- A state that is taken out and put back somewhere keeps the set of ids.
pub move-Kept :
    (i : String) (n : ℕ) (moved : StateDefinition) (ss : List StateDefinition)
    → In moved.id (map state_key ss)
    → moved.id ≡ i
    → Kept state_key none ss (insert_at n moved (without i ss))
move-Kept i n moved ss present same = (
  All-tabulate _ (map state_key ss) (λ k j.
      insert_at-In _ n moved (without i ss) k
        (elim (In-without i k ss j) [ inl e ↦ inl (cc (e, same)) | inr l ↦ inr l ])),
  All-tabulate _ _ (λ k j. inl (elim (In-insert_at _ n moved (without i ss) k j) [
    | inl e ↦ subst (λ z. In z (map state_key ss)) (sym e) present
    | inr l ↦ without-In i k ss l
  ])),
)
