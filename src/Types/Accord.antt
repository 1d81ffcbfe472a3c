-- ===== src/Types/Accord.antt =====
-- The Work Accord and its parts (src/types.ts).
use hyperfinite.Common.{ℕ, String, Bool, Option, List}
use hyperfinite.Types.Lifecycle.{ActivePhaseOwner}

-- `sha256:…`
abbrev pub Digest : Type 0
Digest = String

pub data DepthProfile : Type 0 where
  d0 d1 d2 d3 : DepthProfile

pub data RiskClass : Type 0 where
  low moderate high critical : RiskClass

pub data PrivacyClass : Type 0 where
  public internal confidential restricted : PrivacyClass

pub record Budget : Type 0 where
  pub max_calls : ℕ
  pub max_tokens : ℕ
  pub max_cost_units : ℕ
  pub max_duration_ms : ℕ
  pub max_retries : ℕ
  pub max_loops : ℕ
  pub max_parallel : ℕ
  pub max_patch_bytes : ℕ
  pub expires_at : String

pub record AccordIdentity : Type 0 where
  pub id : String
  pub revision : ℕ
  pub supersedes : Option String
  pub created_at : String
  pub created_by : String

pub record AccordBinding : Type 0 where
  pub repository_id : ℕ
  pub repository_node_id : String
  pub repository_full_name : String
  pub repository_root_id : Digest
  pub work_item_node_id : String
  pub proposal_ref : String
  pub source_digest : Digest
  pub policy_digest : Digest
  pub lifecycle_graph_digest : Digest
  pub current_head : Option Digest

pub record AccordObjective : Type 0 where
  pub outcome : String
  pub in_scope : List String
  pub out_of_scope : List String
  pub assumptions : List String
  pub dependencies : List String

pub record PhaseBinding : Type 0 where
  pub reference : String
  pub digest : Digest

-- `phase_contracts` is a partial record over the active phases: its present keys.
pub record AccordPolicy : Type 0 where
  pub domain_pack : String
  pub domain_pack_digest : Digest
  pub capability_registry_digest : Digest
  pub depth_profile : DepthProfile
  pub risk_class : RiskClass
  pub privacy_class : PrivacyClass
  pub phase_contracts : List (ActivePhaseOwner × PhaseBinding)
  pub requested_capabilities : List String
  pub allowed_paths : List String
  pub prohibited_effects : List String
  pub tools : List String
  pub shell_commands : List String
  pub network : List String
  pub mcp_tools : List String

pub record AccordEvidence : Type 0 where
  pub required : List String
  pub verification_commands : List String
  pub approver_policy : String

pub record AccordRetention : Type 0 where
  pub receipt_days : ℕ
  pub artifact_days : ℕ
  pub cancel_on_expiry : Bool

pub record WorkAccord : Type 0 where
  pub identity : AccordIdentity
  pub binding : AccordBinding
  pub objective : AccordObjective
  pub policy : AccordPolicy
  pub budget : Budget
  pub deliverables : List String
  pub evidence : AccordEvidence
  pub human_gates : List String
  pub retention : AccordRetention
