-- ===== src/Kernel/Requirements/Supported.antt =====
-- The contract requirements that the kernel knows (src/kernel.ts).
use hyperfinite.Common.{String, Bool, List, [], ◌∷◌, includes, string_eq}
use hyperfinite.Types.Event.{RequirementType}

-- SUPPORTED_PREDICATES
abbrev pub supported_predicates : List String
supported_predicates =
    "accepted-patch-plan-current" ∷ "accepted-plan-current" ∷ "activation-lease-current"
    ∷ "advisory-current" ∷ "all-current-head-security-evidence-success" ∷ "base-sha-current"
    ∷ "draft-pr-exact-head-current" ∷ "draft-pull-request-head-current" ∷ "work-accord-current"
    ∷ "eligible-human-accepts-frame" ∷ "eligible-human-accepts-plan"
    ∷ "eligible-human-accepts-remediation-frame" ∷ "eligible-human-accepts-target-free-patch-plan"
    ∷ "work-submitted-for-verification" ∷ "verification-evidence-passed"
    ∷ "eligible-independent-human-accepts-merged-head"
    ∷ "eligible-independent-human-accepts-current-head" ∷ "exact-head-verification-passed"
    ∷ "framing-artifacts-current" ∷ "known-unrelated-alert-open" ∷ "network-denied"
    ∷ "remediation-design-receipt-current" ∷ "signed-stage-artifact-valid-and-hermetic"
    ∷ "synthetic-advisory-signature-valid" ∷ "target-free-patch-validated-and-draft-pr-observed"
    ∷ "trusted-draft-pull-request-created" ∷ "trusted-repository-base-current"
    ∷ "trusted-security-remediation-binding-current" ∷ "trusted-target-slot-map-current"
    ∷ "verification-head-current" ∷ "verification-receipt-current"
    ∷ "eligible-human-accepts-outcome" ∷ []

-- SUPPORTED_EVIDENCE
abbrev pub supported_evidence : List String
supported_evidence =
    "accepted-frame" ∷ "accepted-patch-plan" ∷ "accepted-plan" ∷ "comment-only-review"
    ∷ "dependency-lock-consistency-success" ∷ "dlp-success" ∷ "draft-patch-pr"
    ∷ "draft-pull-request-evidence" ∷ "exact-base-sha" ∷ "fixed-command-catalog"
    ∷ "fixed-regression-success" ∷ "hermetic-reproduction-policy" ∷ "human-review-package"
    ∷ "known-alert-unchanged" ∷ "logical-target-map" ∷ "remediation-design"
    ∷ "security-regression-verification" ∷ "signed-synthetic-advisory"
    ∷ "signed-synthetic-scanner-success" ∷ "target-slot-map" ∷ "threat-detection-success"
    ∷ "trusted-binding" ∷ "activation-lease" ∷ "validated-patch" ∷ "verification-report" ∷ []

unfoldable pub kernel_supports_contract_requirement : RequirementType → String → Bool
kernel_supports_contract_requirement RequirementType.predicate requirement =
    includes supported_predicates requirement
kernel_supports_contract_requirement RequirementType.evidence requirement =
    includes supported_evidence requirement
