-- ===== src/GitEvidence/Examples.antt =====
-- A branch that contains the captured commit.
use flowgency.Common.{◌≡◌, refl, ◌⊎◌, String, true, false, some, [], ◌∷◌, ok}
use flowgency.Workflow.Values.{pos}
use flowgency.GitEvidence.Refs.{GitPublicationPolicy}
use flowgency.GitEvidence.Publication.{GitEnv, GitPublicationReceipt, verify_publication}
use flowgency.GitEvidence.Publication.Proof.{IsUnrestricted, IsProvenBy, verify_publication-proves}

abbrev captured : String
captured = "0123456789abcdef0123456789abcdef01234567"

abbrev tip : String
tip = "fedcba9876543210fedcba9876543210fedcba98"

abbrev repository : GitEnv
repository = record {
  object_format = "sha1";
  is_link = λ p. false;
  is_file = λ p. true;
  read_bounded = λ p. ok "fedcba9876543210fedcba9876543210fedcba98\n";
  leaves_refs = λ p. false;
  run_git = λ c. ok (pos 0, "commit\n");
  policy_digest = λ p. "digest";
}

abbrev heads : GitPublicationPolicy
heads = record { allowed_refs = "refs/heads/*" ∷ [] }

abbrev main_receipt : GitPublicationReceipt
main_receipt = record {
  policy_digest = "digest";
  publication_ref = some "refs/heads/main";
  ref_object_id = some tip;
  observed_commit = tip;
  verified_at = 5;
}

main_verified :
    verify_publication repository captured (some heads) (some "refs/heads/main") 5 ≡ ok main_receipt
unfolding verify_publication
main_verified = refl

verify_publication-proves_example :
    (stated : GitPublicationPolicy) × (some heads ≡ some stated)
    × (IsUnrestricted captured stated main_receipt
        ⊎ ((ref : String) × IsProvenBy repository captured stated main_receipt ref))
verify_publication-proves_example =
    verify_publication-proves repository captured (some heads) (some "refs/heads/main") 5
      main_receipt main_verified
