-- ===== src/Workflow/Library/Calls.antt =====
-- Publications as data, and what one that returned has checked.
use flowgency.Common.{
  String, true, false, not, Option, none, some, ◌≡◌, refl, sym, ap, subst, ◌∙◌, inl, inr, ◌==◌, leb,
  Outcome, ok, >>=-eq-ok, require, require-eq-ok, or_raise, Outcome-cases, arith, eq_iff,
}
use flowgency.Common.Dict.{lookup, insert, has_key, lookup-insert, has_key-lookup}
use flowgency.Workflow.Definition.{WorkflowDefinition, model_validate}
use flowgency.Ticket.Storage.{is_slug}
use flowgency.Workflow.Library.{
  LibraryError, Reading, mapping, LibraryEnv, Files, WorkflowSnapshot, check_source_size,
  max_blueprint_source_bytes, revalidate, blueprint_dir, guard_no_reparse, read_source,
  load_definition, blueprint_snapshot, validate_source, inspect, check_write, check_create,
  write_candidate, create_candidate, conflict, identity_mismatch, source_too_large,
  missing_blueprint,
}

pub data LibraryCall : Type 0 where
  writes : String → String → WorkflowDefinition → LibraryCall
  creates : String → WorkflowDefinition → LibraryCall

unfoldable pub call : LibraryEnv → Files → LibraryCall → Reading WorkflowSnapshot × Files
call env files (writes i expected d) = write_candidate env files i expected d
call env files (creates i d) = create_candidate env files i d

ok_inj : {E A : Type 0} {a b : A} → ◌≡◌ {A = Outcome E A} (ok a) (ok b) → a ≡ b
ok_inj h = ground arith

or_raise_ok :
    {A : Type 0} (o : Option A) (e : LibraryError) {a : A} → or_raise o e ≡ ok a → o ≡ some a
or_raise_ok none e h = cc
or_raise_ok (some b) e h = ground arith

-- A definition that may stand under its id in the library.
pub record IsPublishable (env : LibraryEnv) (i : String) (d : WorkflowDefinition) : Type 0 where
  pub validated : model_validate d ≡ ok tt
  pub named : d.id ≡ i
  pub safe_name : is_slug i ≡ true
  pub inside : env.escapes i ≡ false
  pub no_link : env.crosses_link i ≡ false
  pub small : leb (env.byte_length (env.safe_dump d)) max_blueprint_source_bytes ≡ true

revalidate_ok :
    (d e : WorkflowDefinition) → revalidate d ≡ ok e → (model_validate d ≡ ok tt) × (d ≡ e)
unfolding revalidate
revalidate_ok d e h = elim (Outcome-cases (model_validate d)) [
  | inl (_, passed) ↦ (passed, ground (arith, passed))
  | inr (v, failed) ↦ absurd (ground (arith, failed))
]

guard_ok :
    (env : LibraryEnv) (i : String)
    → guard_no_reparse env i ≡ ok tt
    → (env.crosses_link i ≡ false) × (is_slug i ≡ true) × (env.escapes i ≡ false)
unfolding guard_no_reparse blueprint_dir
guard_ok env i h = (ground arith, ground arith, ground arith)

read_source_ok :
    (env : LibraryEnv) (files : Files) (i source : String)
    → read_source env files i ≡ ok source
    → Unit {0} × (guard_no_reparse env i ≡ ok tt) × (lookup i files ≡ some source)
unfolding read_source
read_source_ok env files i source h =
    let (_, guarded, a) = >>=-eq-ok (guard_no_reparse env i) _ h in
    let (found, present, b) = >>=-eq-ok (or_raise (lookup i files) missing_blueprint) _ a in
    let (_, sized, c) = >>=-eq-ok (check_source_size env found) _ b in
    (tt, guarded, or_raise_ok _ missing_blueprint present ∙ ap some (ok_inj c))

publishable :
    (env : LibraryEnv) (i : String) (d e : WorkflowDefinition)
    → model_validate d ≡ ok tt
    → d ≡ e
    → guard_no_reparse env i ≡ ok tt
    → require {E = LibraryError} (e.id == i) identity_mismatch ≡ ok tt
    → check_source_size env (env.safe_dump e) ≡ ok tt
    → IsPublishable env i d
unfolding check_source_size
publishable env i d e valid same guarded pinned sized =
    let (linkless, safe, inside) = guard_ok env i guarded in
    record {
      validated = valid;
      named = ap (λ x. x.id) same ∙ (eq_iff e.id i).0 (require-eq-ok _ identity_mismatch pinned);
      safe_name = safe;
      inside = inside;
      no_link = linkless;
      small =
          subst (λ x. leb (env.byte_length (env.safe_dump x)) max_blueprint_source_bytes ≡ true)
            (sym same) (require-eq-ok _ source_too_large sized);
    }

-- What check_write has found when it returns.
pub check_write_ok :
    (env : LibraryEnv) (files : Files) (i expected : String) (d : WorkflowDefinition)
    (s : WorkflowSnapshot)
    → check_write env files i expected d ≡ ok s
    → IsPublishable env i d
      × (s ≡ blueprint_snapshot env i (env.safe_dump d) d)
      × (source : String) × (lookup i files ≡ some source)
      × (env.source_digest source ≡ expected)
unfolding check_write read_source check_source_size
check_write_ok env files i expected d s h =
    let (e, revalidated, a) = >>=-eq-ok (revalidate d) _ h in
    let (_, placed, b) = >>=-eq-ok (blueprint_dir env i) _ a in
    let (_, pinned, c) = >>=-eq-ok (require (e.id == i) identity_mismatch) _ b in
    let (_, sized, f) = >>=-eq-ok (check_source_size env (env.safe_dump e)) _ c in
    let (source, read, g) = >>=-eq-ok (read_source env files i) _ f in
    let (_, current, k) = >>=-eq-ok (require (env.source_digest source == expected) conflict) _ g in
    let (_, guarded, found) = read_source_ok env files i source read in
    let (valid, same) = revalidate_ok d e revalidated in
    (
      publishable env i d e valid same guarded pinned sized,
      sym (ok_inj k) ∙ ap (λ x. blueprint_snapshot env i (env.safe_dump x) x) (sym same),
      source,
      found,
      (eq_iff _ _).0 (require-eq-ok _ conflict current),
    )

-- What check_create has found when it returns.
pub check_create_ok :
    (env : LibraryEnv) (files : Files) (i : String) (d : WorkflowDefinition) (s : WorkflowSnapshot)
    → check_create env files i d ≡ ok s
    → IsPublishable env i d
      × (s ≡ blueprint_snapshot env i (env.safe_dump d) d)
      × (lookup i files ≡ none)
unfolding check_create
check_create_ok env files i d s h =
    let (e, revalidated, a) = >>=-eq-ok (revalidate d) _ h in
    let (_, pinned, b) = >>=-eq-ok (require (e.id == i) identity_mismatch) _ a in
    let (_, placed, c) = >>=-eq-ok (blueprint_dir env i) _ b in
    let (_, fresh, f) = >>=-eq-ok (require (not (has_key i files)) conflict) _ c in
    let (_, guarded, g) = >>=-eq-ok (guard_no_reparse env i) _ f in
    let (_, sized, k) = >>=-eq-ok (check_source_size env (env.safe_dump e)) _ g in
    let (valid, same) = revalidate_ok d e revalidated in
    (
      publishable env i d e valid same guarded pinned sized,
      sym (ok_inj k) ∙ ap (λ x. blueprint_snapshot env i (env.safe_dump x) x) (sym same),
      has_key-lookup i files (ground (arith, require-eq-ok (not (has_key i files)) conflict fresh)),
    )

-- A publishable definition reads back from its file.
pub inspect_found :
    (env : LibraryEnv) (files : Files) (i : String) (d : WorkflowDefinition)
    → IsPublishable env i d
    → env.safe_load (env.safe_dump d) ≡ mapping d
    → lookup i files ≡ some (env.safe_dump d)
    → inspect env files i ≡ ok (blueprint_snapshot env i (env.safe_dump d) d)
unfolding inspect read_source guard_no_reparse blueprint_dir check_source_size validate_source
    load_definition revalidate blueprint_snapshot
inspect_found env files i d p loads found =
    rw
      (
        p.no_link, p.safe_name, p.inside, found, p.small, loads, load_definition, revalidate,
        p.validated,
      )
      refl

-- Also right after it was written there.
pub inspect-IsPublishable :
    (env : LibraryEnv) (files : Files) (i : String) (d : WorkflowDefinition)
    → IsPublishable env i d
    → env.safe_load (env.safe_dump d) ≡ mapping d
    → inspect env (insert i (env.safe_dump d) files) i
      ≡ ok (blueprint_snapshot env i (env.safe_dump d) d)
inspect-IsPublishable env files i d p loads =
    inspect_found env (insert i (env.safe_dump d) files) i d p loads
      (lookup-insert i i (env.safe_dump d) files ∙ ground (arith, eq_iff i i))
