-- ===== src/GitEvidence/Publication/Proof.antt =====
-- What a publication receipt proves.
use flowgency.Common.{
  ℕ, String, true, ◌||◌, Option, none, some, List, [], ◌∷◌, ◌≡◌, refl, sym, ap, subst, ◌∙◌, ◌⊎◌,
  inl, inr, ◌==◌, if◌then◌else◌, Bool-cases, ok, >>=-eq-ok, require, require-eq-ok, arith, eq_iff,
}
use flowgency.Workflow.Values.{ℤ, pos, negsuc}
use flowgency.GitEvidence.Refs.{
  GitPublicationPolicy, Evidence, ref_denied, verification_incomplete, is_exact_ref,
  ref_matches_allowlist, validate_object_id,
}
use flowgency.GitEvidence.Publication.{
  GitEnv, is_ancestor, cat_file_exists, GitRefObservation, GitPublicationReceipt, validated_ref,
  resolve_publication_ref, require_ancestor, ancestor_status, is_zero, is_empty, selected_ref,
  observed_for, verify_publication,
}

-- Git said that the captured commit is an ancestor of the observed one.
abbrev pub SaidAncestor : GitEnv → String → String → Type 0
SaidAncestor env captured observed =
    (printed : String) × (env.run_git (is_ancestor captured observed) ≡ ok (pos 0, printed))

-- The ref is exact, the policy allows it, and what it resolves to contains the captured commit.
pub record IsProvenBy (env : GitEnv) (captured : String) (policy : GitPublicationPolicy)
    (receipt : GitPublicationReceipt) (ref : String) : Type 0 where
  pub named : receipt.publication_ref ≡ some ref
  pub exact : is_exact_ref ref ≡ true
  pub permitted :
      (policy.allowed_refs ≡ []) ⊎ (ref_matches_allowlist ref policy.allowed_refs ≡ true)
  pub observation : GitRefObservation
  pub resolved : resolve_publication_ref env ref ≡ ok observation
  pub observed : observation.commit_id ≡ receipt.observed_commit
  pub contained :
      (receipt.observed_commit ≡ captured) ⊎ SaidAncestor env captured receipt.observed_commit

-- Without a ref, the policy has no restriction and the captured commit itself is what is observed.
pub record IsUnrestricted (captured : String) (policy : GitPublicationPolicy)
    (receipt : GitPublicationReceipt) : Type 0 where
  pub no_restriction : policy.allowed_refs ≡ []
  pub unnamed : receipt.publication_ref ≡ none
  pub itself : receipt.observed_commit ≡ captured

validate_object_id_same :
    (value format kept : String) → validate_object_id value format ≡ ok kept → kept ≡ value
unfolding validate_object_id
validate_object_id_same value format kept h = ground arith

validated_ref_ok :
    (ref kept : String) → validated_ref ref ≡ ok kept → (kept ≡ ref) × (is_exact_ref ref ≡ true)
unfolding validated_ref
validated_ref_ok ref kept h = (ground arith, ground arith)

empty_list : (refs : List String) → is_empty refs ≡ true → refs ≡ []
empty_list [] h = refl
empty_list (r ∷ rs) h = cc

allowed_cases :
    (refs : List String) (ref : String)
    → (is_empty refs || ref_matches_allowlist ref refs) ≡ true
    → (refs ≡ []) ⊎ (ref_matches_allowlist ref refs ≡ true)
allowed_cases [] ref h = inl refl
allowed_cases (r ∷ rs) ref h = inr h

selected_none :
    (policy : GitPublicationPolicy) (given : Option String)
    → selected_ref policy given ≡ ok none
    → policy.allowed_refs ≡ []
unfolding selected_ref
selected_none policy none h = empty_list policy.allowed_refs (ground arith)
selected_none policy (some ref) h = absurd (ground arith)

selected_some :
    (policy : GitPublicationPolicy) (given : Option String) (ref : String)
    → selected_ref policy given ≡ ok (some ref)
    → (is_exact_ref ref ≡ true)
      × ((policy.allowed_refs ≡ []) ⊎ (ref_matches_allowlist ref policy.allowed_refs ≡ true))
unfolding selected_ref
selected_some policy none ref h = absurd (ground arith)
selected_some policy (some given) ref h =
    let (kept, checked, a) = >>=-eq-ok (validated_ref given) _ h in
    let (_, permitted, b) =
      >>=-eq-ok
        (require (is_empty policy.allowed_refs || ref_matches_allowlist kept policy.allowed_refs)
          ref_denied)
        _ a in
    let (same, exact) = validated_ref_ok given kept checked in
    let named : kept ≡ ref = ground (arith, b) in
    let given_named : given ≡ ref = sym same ∙ named in
    (
      subst (λ r. is_exact_ref r ≡ true) given_named exact,
      subst (λ r. (policy.allowed_refs ≡ []) ⊎ (ref_matches_allowlist r policy.allowed_refs ≡ true))
          named (allowed_cases policy.allowed_refs kept (require-eq-ok _ ref_denied permitted)),
    )

ancestor_status_ok : (status : ℤ) → ancestor_status status ≡ ok tt → status ≡ pos 0
unfolding ancestor_status
ancestor_status_ok (pos n) h = ap pos (ground arith)
ancestor_status_ok (negsuc n) h = cc

require_ancestor_ok :
    (env : GitEnv) (captured observed : String)
    → require_ancestor env captured observed ≡ ok tt
    → SaidAncestor env captured observed
unfolding require_ancestor
require_ancestor_ok env captured observed h =
    let (present, ran, a) = >>=-eq-ok (env.run_git (cat_file_exists observed)) _ h in
    let (_, exists, b) = >>=-eq-ok (require (is_zero present.0) verification_incomplete) _ a in
    let (answer, asked, c) = >>=-eq-ok (env.run_git (is_ancestor captured observed)) _ b in
    let zero_status = ancestor_status_ok answer.0 c in
    (answer.1, asked ∙ ap (λ status. ok (status, answer.1)) zero_status)

observed_ref :
    (env : GitEnv) (captured ref observed : String) (object : Option String)
    → observed_for env captured (some ref) ≡ ok (observed, object)
    → (observation : GitRefObservation) × (resolve_publication_ref env ref ≡ ok observation)
      × (observation.commit_id ≡ observed)
      × ((observed ≡ captured) ⊎ SaidAncestor env captured observed)
unfolding observed_for
observed_ref env captured ref observed object h =
    let (observation, resolved, a) = >>=-eq-ok (resolve_publication_ref env ref) _ h in
    let (commit, valid, b) =
      >>=-eq-ok (validate_object_id observation.commit_id env.object_format) _ a in
    let (id, checked, c) =
      >>=-eq-ok (validate_object_id observation.ref_object_id env.object_format) _ b in
    let (_, contained, d) =
      >>=-eq-ok (if commit == captured then ok tt else require_ancestor env captured commit) _ c in
    let seen : commit ≡ observed = ground (arith, d) in
    (
      observation,
      resolved,
      sym (validate_object_id_same observation.commit_id env.object_format commit valid) ∙ seen,
      subst (λ o. (o ≡ captured) ⊎ SaidAncestor env captured o) seen
          (elim (Bool-cases (commit == captured)) [
            | inl same ↦ inl ((eq_iff commit captured).0 same)
            | inr other ↦ inr (require_ancestor_ok env captured commit (rw other at contained))
          ]),
    )

receipt_cases :
    (env : GitEnv) (captured end_commit : String) (policy : GitPublicationPolicy)
    (publication_ref selected : Option String) (observed : String × Option String) (now : ℕ)
    (receipt : GitPublicationReceipt)
    → end_commit ≡ captured
    → selected_ref policy publication_ref ≡ ok selected
    → observed_for env end_commit selected ≡ ok observed
    → ◌≡◌ {A = Evidence GitPublicationReceipt}
        (ok (record {
          policy_digest = env.policy_digest policy;
          publication_ref = selected;
          ref_object_id = observed.1;
          observed_commit = observed.0;
          verified_at = now;
        }))
        (ok receipt)
    → IsUnrestricted captured policy receipt
      ⊎ ((ref : String) × IsProvenBy env captured policy receipt ref)
unfolding observed_for
receipt_cases env captured end_commit policy given none (observed, object) now receipt same chosen
      seen made =
    inl (record {
      no_restriction = selected_none policy given chosen;
      unnamed = ground (arith, made);
      itself = ground (arith, made, seen, same);
    })
receipt_cases env captured end_commit policy given (some ref) (observed, object) now receipt same
      chosen seen made =
    let (exact, permitted) = selected_some policy given ref chosen in
    let (observation, resolved, commit, contained) =
      observed_ref env end_commit ref observed object seen in
    let shown : observed ≡ receipt.observed_commit = ground (arith, made) in
    inr (
      ref,
      record {
        named = ground (arith, made);
        exact = exact;
        permitted = permitted;
        observation = observation;
        resolved = resolved;
        observed = commit ∙ shown;
        contained =
            subst (λ c. (receipt.observed_commit ≡ c) ⊎ SaidAncestor env c receipt.observed_commit)
              same (subst (λ o. (o ≡ end_commit) ⊎ SaidAncestor env end_commit o) shown contained);
      },
    )

-- A receipt is only given under a policy. Either the policy has no restriction, no ref is named, and
-- the receipt observes the captured commit itself; or the receipt names an exact ref that the policy
-- allows, what it observes is the commit the ref resolves to, and that is the captured commit or
-- Git said that the captured commit is its ancestor.
pub verify_publication-proves :
    (env : GitEnv) (captured : String) (policy : Option GitPublicationPolicy)
    (publication_ref : Option String) (now : ℕ) (receipt : GitPublicationReceipt)
    → verify_publication env captured policy publication_ref now ≡ ok receipt
    → (stated : GitPublicationPolicy) × (policy ≡ some stated)
      × (IsUnrestricted captured stated receipt
          ⊎ ((ref : String) × IsProvenBy env captured stated receipt ref))
unfolding verify_publication
verify_publication-proves env captured none publication_ref now receipt h = cc
verify_publication-proves env captured (some policy) publication_ref now receipt h =
    let (end_commit, valid, a) = >>=-eq-ok (validate_object_id captured env.object_format) _ h in
    let (selected, chosen, b) = >>=-eq-ok (selected_ref policy publication_ref) _ a in
    let (observed, seen, c) = >>=-eq-ok (observed_for env end_commit selected) _ b in
    let same = validate_object_id_same captured env.object_format end_commit valid in
    (
      policy,
      refl,
      receipt_cases env captured end_commit policy publication_ref selected observed now receipt
          same chosen seen c,
    )
