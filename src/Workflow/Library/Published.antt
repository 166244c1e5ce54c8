-- ===== src/Workflow/Library/Published.antt =====
-- What the library holds after publications.
use flowgency.Common.{
  String, Option, none, some, List, [], ◌∷◌, ◌≡◌, refl, sym, ap, subst, ◌∙◌, ◌⊎◌, inl, inr, ◌==◌,
  if◌then◌else◌, ok, raise, Outcome-cases, arith, eq_iff, All,
}
use flowgency.Common.Dict.{lookup, insert, lookup-insert, Entries, insert-Entries, lookup-Entries}
use flowgency.Workflow.Definition.{WorkflowDefinition}
use flowgency.Workflow.Validity.{IsValid, model_validate-IsValid}
use flowgency.Workflow.Library.{
  LibraryError, Reading, mapping, LibraryEnv, Files, WorkflowSnapshot, blueprint_snapshot, inspect,
  check_write, check_create, commit, write_candidate, create_candidate,
}
use flowgency.Workflow.Library.Calls.{
  LibraryCall, writes, creates, call, IsPublishable, check_write_ok, check_create_ok,
  inspect-IsPublishable, inspect_found,
}

-- The library as its readers see it: a source for an id, or none.
abbrev pub View : Type 0
View = String → Option String

abbrev pub view : Files → View
view files = λ i. lookup i files

-- The one promise of a publication: it raises and the view stays, or it returns the snapshot of the
-- new source and that source stands under its id, all other ids as before. An existing source is
-- replaced only by a write that names its digest, and only a creation adds one.
pub data Publishes (env : LibraryEnv) (before after : View)
    : LibraryCall → Reading WorkflowSnapshot → Type 0 where
  refused :
      {c : LibraryCall} (e : LibraryError)
      → ((j : String) → after j ≡ before j)
      → Publishes env before after c (raise e)
  replaced :
      {i expected : String} {d : WorkflowDefinition} (old : String)
      → before i ≡ some old
      → env.source_digest old ≡ expected
      → IsPublishable env i d
      → ((j : String) → after j ≡ (if i == j then some (env.safe_dump d) else before j))
      → Publishes env before after
          (writes i expected d)
          (ok (blueprint_snapshot env i (env.safe_dump d) d))
  created :
      {i : String} {d : WorkflowDefinition}
      → before i ≡ none
      → IsPublishable env i d
      → ((j : String) → after j ≡ (if i == j then some (env.safe_dump d) else before j))
      → Publishes env before after (creates i d) (ok (blueprint_snapshot env i (env.safe_dump d) d))

some_inj : {A : Type 0} {a b : A} → some a ≡ some b → a ≡ b
some_inj h = ground arith

write-cases :
    (env : LibraryEnv) (files : Files) (i expected : String) (d : WorkflowDefinition)
    → ((e : LibraryError) × (write_candidate env files i expected d ≡ (raise e, files)))
      ⊎ (IsPublishable env i d
          × (write_candidate env files i expected d ≡ (
            ok (blueprint_snapshot env i (env.safe_dump d) d),
            insert i (env.safe_dump d) files,
          ))
          × (source : String) × (lookup i files ≡ some source)
          × (env.source_digest source ≡ expected))
unfolding write_candidate commit blueprint_snapshot
write-cases env files i expected d = elim (Outcome-cases (check_write env files i expected d)) [
  | inr (e, failed) ↦ inl (e, rw failed refl)
  | inl (s, passed) ↦
      let (p, same, source, found, current) = check_write_ok env files i expected d s passed in
      inr (p, rw (passed, same) refl, source, found, current)
]

create-cases :
    (env : LibraryEnv) (files : Files) (i : String) (d : WorkflowDefinition)
    → ((e : LibraryError) × (create_candidate env files i d ≡ (raise e, files)))
      ⊎ (IsPublishable env i d
          × (create_candidate env files i d ≡ (
            ok (blueprint_snapshot env i (env.safe_dump d) d),
            insert i (env.safe_dump d) files,
          ))
          × (lookup i files ≡ none))
unfolding create_candidate commit blueprint_snapshot
create-cases env files i d = elim (Outcome-cases (check_create env files i d)) [
  | inr (e, failed) ↦ inl (e, rw failed refl)
  | inl (s, passed) ↦
      let (p, same, absent) = check_create_ok env files i d s passed in
      inr (p, rw (passed, same) refl, absent)
]

abbrev pub LoadsBack : LibraryEnv → WorkflowDefinition → Type 0
LoadsBack env d = env.safe_load (env.safe_dump d) ≡ mapping d

-- The snapshot that a write returns is what an inspection of the id reads afterwards, when YAML
-- reads back the definition that it wrote.
pub write_candidate-inspect :
    (env : LibraryEnv) (files : Files) (i expected : String) (d : WorkflowDefinition)
    (s : WorkflowSnapshot)
    → LoadsBack env d
    → (write_candidate env files i expected d).0 ≡ ok s
    → inspect env (write_candidate env files i expected d).1 i ≡ ok s
write_candidate-inspect env files i expected d s loads h =
    elim (write-cases env files i expected d) [
      | inl (e, same) ↦ cc (ap (λ r. r.0) same)
      | inr (p, same, source, found, current) ↦
          ap (λ r. inspect env r.1 i) same
          ∙ inspect-IsPublishable env files i d p loads
          ∙ sym (ap (λ r. r.0) same)
          ∙ h
    ]

-- After a write that returned, a second one that was prepared on the same source is refused and
-- changes no file, unless the digest of the new source is that of the old one.
pub write_candidate_conflicts :
    (env : LibraryEnv) (files : Files) (i expected : String) (d other : WorkflowDefinition)
    (s : WorkflowSnapshot)
    → (write_candidate env files i expected d).0 ≡ ok s
    → ¬ (env.source_digest (env.safe_dump d) ≡ expected)
    → (e : LibraryError) × (write_candidate env
          (write_candidate env files i expected d).1
          i
          expected
          other
        ≡ (raise e, (write_candidate env files i expected d).1))
write_candidate_conflicts env files i expected d other s h new =
    elim (write-cases env files i expected d) [
      | inl (e, same) ↦ cc (ap (λ r. r.0) same)
      | inr (p, same, old, was, matched) ↦
          elim (write-cases env (write_candidate env files i expected d).1 i expected other) [
            | inl refusal ↦ refusal
            | inr (_, _, source, found, current) ↦
                let stands : lookup i (write_candidate env files i expected d).1
                    ≡ some (env.safe_dump d) =
                  ap (λ r. lookup i r.1) same
                  ∙ lookup-insert i i (env.safe_dump d) files
                  ∙ ground (arith, eq_iff i i) in
                absurd (new (ap env.source_digest (some_inj (sym stands ∙ found)) ∙ current))
          ]
    ]

unfoldable pub publish_all : LibraryEnv → Files → List LibraryCall → Files
unfolding call
publish_all env files [] = files
publish_all env files (c ∷ cs) = publish_all env (call env files c).1 cs

abbrev pub definition_of : LibraryCall → WorkflowDefinition
definition_of (writes i expected d) = d
definition_of (creates i d) = d

-- Every source is the text of a publishable definition that YAML reads back.
abbrev pub IsSound : LibraryEnv → Files → Type 0
IsSound env = Entries (λ i source.
    (d : WorkflowDefinition) × IsPublishable env i d × LoadsBack env d × (source ≡ env.safe_dump d))

call-IsSound :
    (env : LibraryEnv) (files : Files) (c : LibraryCall)
    → IsSound env files
    → LoadsBack env (definition_of c)
    → IsSound env (call env files c).1
unfolding call
call-IsSound env files (writes i expected d) sound loads =
    elim (write-cases env files i expected d) [
      | inl (e, same) ↦ subst (IsSound env) (sym (ap (λ r. r.1) same)) sound
      | inr (p, same, old, was, matched) ↦
          subst (IsSound env) (sym (ap (λ r. r.1) same))
            (insert-Entries _ i (env.safe_dump d) files (d, p, loads, refl) sound)
    ]
call-IsSound env files (creates i d) sound loads = elim (create-cases env files i d) [
  | inl (e, same) ↦ subst (IsSound env) (sym (ap (λ r. r.1) same)) sound
  | inr (p, same, _) ↦
      subst (IsSound env) (sym (ap (λ r. r.1) same))
        (insert-Entries _ i (env.safe_dump d) files (d, p, loads, refl) sound)
]

publish_all-IsSound :
    (env : LibraryEnv) (files : Files) (cs : List LibraryCall)
    → IsSound env files
    → All (λ c. LoadsBack env (definition_of c)) cs
    → IsSound env (publish_all env files cs)
unfolding publish_all
publish_all-IsSound env files [] sound loads = sound
publish_all-IsSound env files (c ∷ cs) sound loads =
    publish_all-IsSound env (call env files c).1 cs (call-IsSound env files c sound loads.0) loads.1

-- After any publications into an empty library, whatever they raised, every source that is there
-- can be inspected, when YAML reads back each definition that was offered.
pub publish_all-inspect :
    (env : LibraryEnv) (cs : List LibraryCall) (i source : String)
    → All (λ c. LoadsBack env (definition_of c)) cs
    → lookup i (publish_all env [] cs) ≡ some source
    → (s : WorkflowSnapshot) × (inspect env (publish_all env [] cs) i ≡ ok s)
      × (s.definition.id ≡ i)
      × IsValid s.definition
unfolding blueprint_snapshot
publish_all-inspect env cs i source loads found =
    let sound = publish_all-IsSound env [] cs tt loads in
    let (d, p, back, same) = lookup-Entries _ i source (publish_all env [] cs) sound found in
    (
      blueprint_snapshot env i (env.safe_dump d) d,
      inspect_found env (publish_all env [] cs) i d p back (found ∙ ap some same),
      p.named,
      (model_validate-IsValid d).0 p.validated,
    )
