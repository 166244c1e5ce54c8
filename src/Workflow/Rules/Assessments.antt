-- ===== src/Workflow/Rules/Assessments.antt =====
-- What the loop over the assessments accepts (workflows/rules.py).
use flowgency.Common.{
  String, ◌≡◌, refl, true, not, ◌⊎◌, inl, inr, ◌↔◌, List, [], ◌∷◌, map, arith, All, In, here, there,
  Distinct, contains, contains→In, In→contains, ok, require, each, All-each, each-All, All-mono,
  >>=-eq-ok, require-eq-ok, Bool-cases,
}
use flowgency.Workflow.Values.{ContractError}
use flowgency.Workflow.Definition.{CriterionAssessment}
use flowgency.Workflow.Rules.{check_assessment, check_assessments, check_missing}

-- Membership by a test, in a list of texts.
pub each-contains-All :
    (ys : List String) (e : ContractError) (xs : List String)
    → (each (λ x. require (contains x ys) e) xs ≡ ok tt) ↔ All (λ x. In x ys) xs
each-contains-All ys e xs = (
  λ h.
      All-mono _ _ (λ x p. contains→In x ys (require-eq-ok _ e p)) xs
        (All-each (λ x. require (contains x ys) e) xs h),
  λ h.
      each-All (λ x. require (contains x ys) e) xs
        (All-mono _ (λ x. require (contains x ys) e ≡ ok tt) (λ x i. rw (In→contains x ys i)) xs h),
)

-- The criterion is one of the transition's and satisfied, and the fields named exist.
pub record Supports (criteria context : List String) (a : CriterionAssessment) : Type 0 where
  pub known : In a.criterion_id criteria
  pub satisfied : a.satisfied ≡ true
  pub grounded : All (λ f. In f context) a.supporting_fields

abbrev pub assessed_ids : List CriterionAssessment → List String
assessed_ids = map (λ a. a.criterion_id)

-- Not assessed before, and no two of the rest for one criterion.
abbrev pub Fresh : List String → List CriterionAssessment → Type 0
Fresh before [] = Unit
Fresh before (a ∷ rest) = (¬ In a.criterion_id before) × Fresh (a.criterion_id ∷ before) rest

-- The accumulator at the end, the last assessment first.
abbrev pub collected : List String → List CriterionAssessment → List String
collected before [] = before
collected before (a ∷ rest) = collected (a.criterion_id ∷ before) rest

check_assessment-Supports :
    (criteria context before : List String) (a : CriterionAssessment)
    → (check_assessment criteria context before a ≡ ok tt)
      ↔ (Supports criteria context a × (¬ In a.criterion_id before))
unfolding check_assessment
check_assessment-Supports criteria context before a = (there_to, back)
  where
    there_to :
        check_assessment criteria context before a ≡ ok tt
        → Supports criteria context a × (¬ In a.criterion_id before)
    there_to h =
        let (u₁, e₁, h₁) = >>=-eq-ok (require (contains a.criterion_id criteria) _) _ h in
        let (u₂, e₂, h₂) = >>=-eq-ok (require (not (contains a.criterion_id before)) _) _ h₁ in
        let (u₃, e₃, h₃) = >>=-eq-ok (require a.satisfied _) _ h₂ in
        (
          record {
            known = contains→In _ criteria (require-eq-ok _ _ e₁);
            satisfied = require-eq-ok _ _ e₃;
            grounded = (each-contains-All context _ a.supporting_fields).0 h₃;
          },
          λ i. ground (arith, require-eq-ok _ _ e₂, In→contains a.criterion_id before i),
        )

    back :
        Supports criteria context a × (¬ In a.criterion_id before)
        → check_assessment criteria context before a ≡ ok tt
    back (s, new) = elim (Bool-cases (contains a.criterion_id before)) [
      | inl old ↦ absurd (new (contains→In _ before old))
      | inr fresh ↦
          rw (In→contains _ criteria s.known, fresh, s.satisfied)
            ((each-contains-All context _ a.supporting_fields).1 s.grounded)
    ]

pub check_assessments_sound :
    (criteria context before : List String) (given : List CriterionAssessment) {done : List String}
    → check_assessments criteria context before given ≡ ok done
    → All (Supports criteria context) given × Fresh before given × (done ≡ collected before given)
unfolding check_assessments
check_assessments_sound criteria context before [] h = (tt, tt, ground arith)
check_assessments_sound criteria context before (a ∷ rest) h =
    let (u, e, more) = >>=-eq-ok (check_assessment criteria context before a) _ h in
    let (s, new) = (check_assessment-Supports criteria context before a).0 e in
    let (ss, fresh, eq) =
      check_assessments_sound criteria context (a.criterion_id ∷ before) rest more in
    ((s, ss), (new, fresh), eq)

pub check_assessments_complete :
    (criteria context before : List String) (given : List CriterionAssessment)
    → All (Supports criteria context) given
    → Fresh before given
    → check_assessments criteria context before given ≡ ok (collected before given)
unfolding check_assessments
check_assessments_complete criteria context before [] s f = refl
check_assessments_complete criteria context before (a ∷ rest) s f =
    rw ((check_assessment-Supports criteria context before a).1 (s.0, f.0))
      (check_assessments_complete criteria context (a.criterion_id ∷ before) rest s.1 f.1)

collected-In :
    (x : String) (before : List String) (given : List CriterionAssessment)
    → In x (collected before given)
    → In x before ⊎ In x (assessed_ids given)
collected-In x before [] i = inl i
collected-In x before (a ∷ rest) i = elim (collected-In x (a.criterion_id ∷ before) rest i) [
  | inr later ↦ inr (there later)
  | inl sooner ↦ In-cons x a.criterion_id before _ sooner
]
  where
    In-cons : (x y : String) (xs ys : List String) → In x (y ∷ xs) → In x xs ⊎ In x (y ∷ ys)
    In-cons x y xs ys here = inr here
    In-cons x y xs ys (there j) = inl j

In-collected :
    (x : String) (before : List String) (given : List CriterionAssessment)
    → In x before ⊎ In x (assessed_ids given)
    → In x (collected before given)
In-collected x before [] (inl i) = i
In-collected x before (a ∷ rest) (inl i) =
    In-collected x (a.criterion_id ∷ before) rest (inl (there i))
In-collected x before (a ∷ rest) (inr here) =
    In-collected x (a.criterion_id ∷ before) rest (inl here)
In-collected x before (a ∷ rest) (inr (there i)) =
    In-collected x (a.criterion_id ∷ before) rest (inr i)
In-collected x before [] (inr i) = elim i [ ]

Fresh-apart :
    (x : String) (before : List String) (given : List CriterionAssessment)
    → Fresh before given
    → In x before
    → ¬ In x (assessed_ids given)
Fresh-apart x before (a ∷ rest) f old here = f.0 old
Fresh-apart x before (a ∷ rest) f old (there i) =
    Fresh-apart x (a.criterion_id ∷ before) rest f.1 (there old) i
Fresh-apart x before [] f old i = elim i [ ]

pub Fresh→Distinct :
    (before : List String) (given : List CriterionAssessment)
    → Fresh before given
    → Distinct (assessed_ids given)
Fresh→Distinct before [] f = tt
Fresh→Distinct before (a ∷ rest) f = (
  Fresh-apart a.criterion_id (a.criterion_id ∷ before) rest f.1 here,
  Fresh→Distinct (a.criterion_id ∷ before) rest f.1,
)

pub Distinct→Fresh :
    (before : List String) (given : List CriterionAssessment)
    → Distinct (assessed_ids given)
    → ((x : String) → In x before → ¬ In x (assessed_ids given))
    → Fresh before given
Distinct→Fresh before [] d apart = tt
Distinct→Fresh before (a ∷ rest) d apart = (
  λ old. apart a.criterion_id old here,
  Distinct→Fresh (a.criterion_id ∷ before) rest d.1
      (λ x i. still x i d.0 (λ j k. apart x j (there k))),
)
  where
    still :
        (x : String)
        → In x (a.criterion_id ∷ before)
        → (¬ In a.criterion_id (assessed_ids rest))
        → (In x before → ¬ In x (assessed_ids rest))
        → ¬ In x (assessed_ids rest)
    still x here new later = new
    still x (there j) new later = later j

-- Every criterion is assessed by the time that nothing is reported missing.
pub check_missing-covers :
    (criteria : List String) (given : List CriterionAssessment)
    → (check_missing criteria (collected [] given) ≡ ok tt)
      ↔ All (λ c. In c (assessed_ids given)) criteria
unfolding check_missing
check_missing-covers criteria given = (
  λ h.
      All-mono _ _ (λ c i. not_before c (collected-In c [] given i)) criteria
        ((each-contains-All (collected [] given) _ criteria).0 h),
  λ h.
      (each-contains-All (collected [] given) _ criteria).1
        (All-mono _ _ (λ c i. In-collected c [] given (inr i)) criteria h),
)
  where
    not_before : (c : String) → In c [] ⊎ In c (assessed_ids given) → In c (assessed_ids given)
    not_before c (inl i) = elim i [ ]
    not_before c (inr i) = i
