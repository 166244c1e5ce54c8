-- ===== src/Dispatch/Lost/Newest.antt =====
-- The occurrence that a routine owes, described by the lists of what was lost and what was served.
use flowgency.Common.{
  ℕ, ◌≤◌, ◌<◌, ◌≡◌, refl, sym, ap, subst, All-In, ◌↔◌, inl, inr, String, Bool, true, false, not,
  ◌&&◌, Option, none, some, List, [], ◌∷◌, ◌++◌, ◌∙◌, ◌==◌, ltb, if◌then◌else◌, All, All-mono, In,
  here, there, In-cons, Bool-cases, Option-cases, arith,
}
use flowgency.Dispatch.Lost.{
  RoutineJob, Table, no_table, counted, recoverable_pre_runtime_failure, count_record,
  count_records, later_of, assign_newest, unserved, lost_occurrences,
}

-- The occurrences of a routine whose job is known to have stopped before its runtime, or, for
-- `false`, those whose job is not.
unfoldable pub occurrences : (String → Option ℕ) → Bool → String → String → List RoutineJob → List ℕ
occurrences fromisoformat lost agent routine [] = []
occurrences fromisoformat lost agent routine (r ∷ rs) =
    let rest = occurrences fromisoformat lost agent routine rs in
    elim (counted fromisoformat r) [
      | none ↦ rest
      | some (named, o) ↦
          let mine = r.agent_name == agent && named == routine in
          let recoverable = recoverable_pre_runtime_failure r in
          let wanted = if lost then recoverable else not recoverable in
          if wanted && mine then o ∷ rest else rest
    ]

newest_from : Option ℕ → List ℕ → Option ℕ
newest_from start [] = start
newest_from start (o ∷ os) = newest_from (some (later_of start o)) os

newest_from-append :
    (start : Option ℕ) (os ps : List ℕ)
    → newest_from start (os ++ ps) ≡ newest_from (newest_from start os) ps
unfolding newest_from
newest_from-append start [] ps = refl
newest_from-append start (o ∷ os) ps = newest_from-append (some (later_of start o)) os ps

module _ (fromisoformat : String → Option ℕ) (agent routine : String) where
  occurrences-cons :
      (lost : Bool) (r : RoutineJob) (rs : List RoutineJob)
      → occurrences fromisoformat lost agent routine (r ∷ rs)
        ≡ occurrences fromisoformat lost agent routine (r ∷ [])
          ++ occurrences fromisoformat lost agent routine rs
  unfolding occurrences
  occurrences-cons lost r rs = ground arith

  lost-step :
      (r : RoutineJob) (lost served : Table)
      → (count_record fromisoformat r (lost, served)).0 agent routine
        ≡ newest_from (lost agent routine) (occurrences fromisoformat true agent routine (r ∷ []))
  unfolding count_record assign_newest occurrences newest_from
  lost-step r lost served = ground arith

  served-step :
      (r : RoutineJob) (lost served : Table)
      → (count_record fromisoformat r (lost, served)).1 agent routine
        ≡ newest_from
            (served agent routine)
            (occurrences fromisoformat false agent routine (r ∷ []))
  unfolding count_record assign_newest occurrences newest_from
  served-step r lost served = ground arith

  count_records-newest_from :
      (rs : List RoutineJob) (lost served : Table)
      → ((count_records fromisoformat rs (lost, served)).0 agent routine
          ≡ newest_from (lost agent routine) (occurrences fromisoformat true agent routine rs))
        × ((count_records fromisoformat rs (lost, served)).1 agent routine
            ≡ newest_from (served agent routine) (occurrences fromisoformat false agent routine rs))
  unfolding count_records occurrences newest_from
  count_records-newest_from [] lost served = (refl, refl)
  count_records-newest_from (r ∷ rs) lost served =
      let step = count_record fromisoformat r (lost, served) in
      let others_lost = occurrences fromisoformat true agent routine rs in
      let others_served = occurrences fromisoformat false agent routine rs in
      let (more_lost, more_served) = count_records-newest_from rs step.0 step.1 in
      (
        more_lost
            ∙ ap (λ o. newest_from o others_lost) (lost-step r lost served)
            ∙ sym (
                newest_from-append (lost agent routine)
                  (occurrences fromisoformat true agent routine (r ∷ [])) others_lost)
            ∙ ap (newest_from (lost agent routine)) (sym (occurrences-cons true r rs)),
        more_served
            ∙ ap (λ o. newest_from o others_served) (served-step r lost served)
            ∙ sym (
                newest_from-append (served agent routine)
                  (occurrences fromisoformat false agent routine (r ∷ [])) others_served)
            ∙ ap (newest_from (served agent routine)) (sym (occurrences-cons false r rs)),
      )

-- The greatest of a list: one of them, and none is greater.
abbrev pub IsGreatest : List ℕ → ℕ → Type 0
IsGreatest os o = In o os × All (λ p. p ≤ o) os

newest_some :
    (start : ℕ) (os : List ℕ)
    → (o : ℕ) × (newest_from (some start) os ≡ some o) × IsGreatest (start ∷ os) o
unfolding newest_from later_of
newest_some start [] = (start, refl, (here, (omega arith, tt)))
newest_some start (p ∷ os) = elim (Bool-cases (ltb start p)) [
  | inl later ↦
      let (o, found, (member, bounds)) = newest_some p os in
      (o, rw later found, (there member, (ground arith, bounds)))
  | inr earlier ↦
      let (o, found, (member, bounds)) = newest_some start os in
      (
        o,
        rw earlier found,
        (
          elim (In-cons member) [
            | inl e ↦ subst (λ z. In z (start ∷ p ∷ os)) (sym e) here
            | inr deeper ↦ there (there deeper)
          ],
          (bounds.0, (ground arith, bounds.1)),
        ),
      )
]

greatest_unique : (os : List ℕ) (m o : ℕ) → IsGreatest os m → IsGreatest os o → m ≡ o
greatest_unique os m o first second =
    omega (arith, All-In (λ p. p ≤ o) second.1 first.0, All-In (λ p. p ≤ m) first.1 second.0)

newest-IsGreatest : (os : List ℕ) (o : ℕ) → (newest_from none os ≡ some o) ↔ IsGreatest os o
unfolding newest_from later_of
newest-IsGreatest [] o = (λ h. cc, λ g. elim g.0 [ ])
newest-IsGreatest (p ∷ os) o =
    let (m, found, greatest) = newest_some p os in
    (
      λ h. subst (IsGreatest (p ∷ os)) (ground (arith, found)) greatest,
      λ g. found ∙ ap some (greatest_unique (p ∷ os) m o greatest g),
    )

newest-none : (P : ℕ → Type 0) (os : List ℕ) → newest_from none os ≡ none → All P os
unfolding newest_from later_of
newest-none P [] h = tt
newest-none P (p ∷ os) h = let (m, found, greatest) = newest_some p os in cc

unserved_below : (l s : Option ℕ) (o : ℕ) → unserved l s ≡ some o → l ≡ some o
unfolding unserved
unserved_below l s o h = ground arith

unserved_later : (l : Option ℕ) (s o : ℕ) → unserved l (some s) ≡ some o → s < o
unfolding unserved
unserved_later l s o h = ground arith

unserved_iff :
    (lost served : List ℕ) (o : ℕ)
    → (unserved (newest_from none lost) (newest_from none served) ≡ some o)
      ↔ (IsGreatest lost o × All (λ s. s < o) served)
unfolding unserved
unserved_iff lost served o = elim (Option-cases (newest_from none served)) [
  | inl nothing ↦ (
    λ h. ((newest-IsGreatest lost o).0 (unserved_below _ _ o h), newest-none _ served nothing),
    λ g. rw ((newest-IsGreatest lost o).1 g.0, nothing) refl,
  )
  | inr (s, last) ↦
      let greatest = (newest-IsGreatest served s).0 last in
      (
        λ h. (
          (newest-IsGreatest lost o).0 (unserved_below _ _ o h),
          All-mono (λ p. p ≤ s) (λ p. p < o)
              (λ p below.
                omega (arith, below, unserved_later (newest_from none lost) s o (rw last at h)))
              served greatest.1,
        ),
        λ g.
            let later : ltb s o ≡ true = ground (arith, All-In (λ p. p < o) g.1 greatest.0) in
            rw ((newest-IsGreatest lost o).1 g.0, last, later) refl,
      )
]

-- A routine is owed an occurrence exactly when it is the greatest of those whose job is known to
-- have stopped before its runtime, and later than every occurrence of another job of the routine.
pub lost_occurrences-IsGreatest :
    (fromisoformat : String → Option ℕ) (rs : List RoutineJob) (agent routine : String) (o : ℕ)
    → (lost_occurrences fromisoformat rs agent routine ≡ some o) ↔ (
        IsGreatest (occurrences fromisoformat true agent routine rs) o
        × All (λ s. s < o) (occurrences fromisoformat false agent routine rs))
unfolding lost_occurrences
lost_occurrences-IsGreatest fromisoformat rs agent routine o =
    let (lost, served) =
      count_records-newest_from fromisoformat agent routine rs no_table no_table in
    rw (lost, served)
      (unserved_iff (occurrences fromisoformat true agent routine rs)
        (occurrences fromisoformat false agent routine rs) o)
