-- ===== src/Registry/Laws.antt =====
-- What the checks of the capability registry (src/registry.ts) give.
use hyperfinite.Common.{
  ℕ, ◌+◌, String, true, false, ◌||◌, Option, none, some, List, [], ◌∷◌, ◌++◌, all-mem, false, map,
  Memᴰ, ◌≡◌, refl, sym, subst, arith, any, all, find, includes, is_empty, reports, reports-nil,
  append-nil_inv, find_sound, includes-mem, any-none, eq_of_test, test_self, nat_eq, string_eq,
  ◌==◌,
}
use hyperfinite.Types.Lifecycle.{ActivePhaseOwner, ActivePhaseOwner-eq}
use hyperfinite.Json.{code_units}
use hyperfinite.Types.Policy.{Capability, CapabilityAccess, CapabilityRegistry, Review}
use hyperfinite.Lifecycle.{is_active_phase_owner, phase_owner_of}
use hyperfinite.Registry.{
  RegistryLibrary, RegistryError, Url, is_copied, is_approved, Resolution, resolution_of,
  resolve_capability, capability_reference, is_active, has_wildcard, is_bad_destination,
  destination_errors, access_checks, effect_checks, dialect_errors, capability_errors,
  capability_rounds, validate_registry_semantics, is_misclassified, has_prohibited_effect,
  prohibited_effect_words, has_word, to_lower_case,
}

-- What a resolution promises of the capability.
pub record IsResolved (registry : CapabilityRegistry) (reference : String)
    (phase : ActivePhaseOwner) (capability : Capability) : Type 0 where
  pub listed : Memᴰ capability registry.capabilities
  pub named : capability_reference capability ≡ reference
  pub active : is_active capability.status ≡ true
  pub allowed : Memᴰ phase capability.allowed_phases

resolution_of_inv :
    (found : Option Capability) (phase : ActivePhaseOwner) {capability : Capability}
    → resolution_of found phase ≡ Resolution.resolved capability
    → (found ≡ some capability)
      × (is_active capability.status ≡ true)
      × (includes capability.allowed_phases phase ≡ true)
unfolding resolution_of
resolution_of_inv none phase h = cc
resolution_of_inv (some c) phase h = (ground arith, ground arith, ground arith)

-- A resolved capability is listed in the registry under the reference, active, and allowed in the
-- phase.
pub resolve_capability-IsResolved :
    (registry : CapabilityRegistry) (reference : String) (phase : ActivePhaseOwner)
    (capability : Capability)
    → resolve_capability registry reference phase ≡ Resolution.resolved capability
    → IsResolved registry reference phase capability
unfolding resolve_capability
resolve_capability-IsResolved registry reference phase capability h =
    let (found, active, allowed) = resolution_of_inv _ phase h in
    let (listed, named) = find_sound (λ c. capability_reference c == reference) _ found in
    record {
      listed = listed;
      named = eq_of_test named;
      active = active;
      allowed = includes-mem _ _ allowed;
    }

-- No `*` and no `?`.
abbrev pub IsExact : String → Type 0
IsExact value = ¬ Memᴰ b'*' (code_units value) × ¬ Memᴰ b'?' (code_units value)

abbrev pub AllExact : List String → Type 0
AllExact values = (value : String) → Memᴰ value values → IsExact value

-- An HTTPS location without credentials.
abbrev pub IsPlainLocation : RegistryLibrary → String → Type 0
IsPlainLocation library d =
    (url : Url) × (library.parse_url d ≡ some url)
    × (url.protocol ≡ "https:")
    × (url.username ≡ "")
    × (url.password ≡ "")

-- A capability that the registry may list.
pub record IsAdmitted (library : RegistryLibrary) (capability : Capability) : Type 0 where
  pub read_only : capability.access.write_allowed ≡ false
  pub no_scopes : capability.access.write_scopes ≡ []
  pub tools : AllExact capability.access.tools
  pub shell_commands : AllExact capability.access.shell_commands
  pub network : AllExact capability.access.network_destinations
  pub mcp_tools : AllExact capability.access.mcp_tools
  pub mcp_declared :
      (tool : String)
      → Memᴰ tool (capability.access.mcp_read_tools ++ capability.access.mcp_mutation_tools)
      → Memᴰ tool capability.access.mcp_tools
  pub locations :
      (d : String) → Memᴰ d capability.access.network_destinations → IsPlainLocation library d
  pub effect :
      (word : String)
      → Memᴰ word prohibited_effect_words
      → has_word (code_units word) (to_lower_case (code_units capability.effect_class)) ≡ false
  pub reviewed :
      is_copied capability.classification ≡ true
      → (capability.legal_review ≡ Review.approved) × (capability.security_review ≡ Review.approved)
  pub input_closed : dialect_errors library capability.input_schema false ≡ []
  pub output_closed : dialect_errors library capability.output_schema true ≡ []

has_wildcard-IsExact : (value : String) → has_wildcard value ≡ false → IsExact value
unfolding has_wildcard
has_wildcard-IsExact value h = (
  λ m. absurd (ground (arith, any-none (λ (c : ℕ). c == b'*' || c == b'?') h m)),
  λ m. absurd (ground (arith, any-none (λ (c : ℕ). c == b'*' || c == b'?') h m)),
)

no_wildcard-AllExact : (values : List String) → any has_wildcard values ≡ false → AllExact values
no_wildcard-AllExact values h value m = has_wildcard-IsExact value (any-none has_wildcard h m)

pub nil_of_empty {ℓ} : {A : Type ℓ} (xs : List A) → is_empty xs ≡ true → xs ≡ []
nil_of_empty [] h = refl
nil_of_empty (x ∷ xs) h = cc

pub map-nil_inv {ℓ κ} :
    {A : Type ℓ} {B : Type κ} (f : A → B) (xs : List A) → map f xs ≡ [] → xs ≡ []
map-nil_inv f [] h = refl
map-nil_inv f (x ∷ xs) h = cc

approved_of : (r : Review) → is_approved r ≡ true → r ≡ Review.approved
approved_of Review.approved h = refl
approved_of Review.not_required h = cc
approved_of Review.pending h = cc
approved_of Review.rejected h = cc

allowed_effect :
    (effect_class word : String)
    → has_prohibited_effect effect_class ≡ false
    → Memᴰ word prohibited_effect_words
    → has_word (code_units word) (to_lower_case (code_units effect_class)) ≡ false
unfolding has_prohibited_effect
allowed_effect effect_class word h m =
    any-none (λ w. has_word (code_units w) (to_lower_case (code_units effect_class))) h m

classified_tool-declared :
    (access : CapabilityAccess) (tool : String)
    → is_misclassified access ≡ false
    → Memᴰ tool (access.mcp_read_tools ++ access.mcp_mutation_tools)
    → Memᴰ tool access.mcp_tools
unfolding is_misclassified
classified_tool-declared access tool h m =
    includes-mem access.mcp_tools tool (all-mem (includes access.mcp_tools) (ground arith) m)

module _ (library : RegistryLibrary) where
  plain_location :
      (d : String) (parsed : Option Url)
      → library.parse_url d ≡ parsed
      → is_bad_destination parsed ≡ false
      → IsPlainLocation library d
  unfolding is_bad_destination
  plain_location d none p h = cc
  plain_location d (some url) p h = (url, p, ground arith, ground arith, ground arith)

  destinations_plain :
      (index : ℕ) (ds : List String)
      → destination_errors library index ds ≡ []
      → (d : String) → Memᴰ d ds
      → IsPlainLocation library d
  unfolding destination_errors
  destinations_plain index [] h d m = elim m [ ]
  destinations_plain index (e ∷ ds) h d (Memᴰ.head p) = plain_location d _ refl (
      subst (λ x. is_bad_destination (library.parse_url x) ≡ false) (sym p)
        (reports-nil
          ((is_bad_destination (library.parse_url e), RegistryError.network_destination index) ∷ [])
          (append-nil_inv
            (reports (
              (is_bad_destination (library.parse_url e), RegistryError.network_destination index)
              ∷ []))
            _ h).0).0)
  destinations_plain index (e ∷ ds) h d (Memᴰ.tail m) =
      destinations_plain index ds
        (append-nil_inv
          (reports (
            (is_bad_destination (library.parse_url e), RegistryError.network_destination index)
            ∷ []))
          _ h).1
        d m

  -- A round without errors.
  round-IsAdmitted :
      (seen : List String) (index : ℕ) (capability : Capability)
      → capability_errors library seen index capability ≡ []
      → IsAdmitted library capability
  unfolding capability_errors
  round-IsAdmitted seen index capability h =
      let (access, rest) = append-nil_inv (reports (access_checks seen index capability)) _ h in
      let (destinations, rest2) =
        append-nil_inv (destination_errors library index capability.access.network_destinations) _
          rest in
      let (effects, rest3) = append-nil_inv (reports (effect_checks index capability)) _ rest2 in
      let (inputs, outputs) =
        append-nil_inv
          (map (RegistryError.input_schema index)
            (dialect_errors library capability.input_schema false))
          _ rest3 in
      let (_, (_, (write, (tools, (shell, (network, (mcp, (_, (_, (classified, _)))))))))) =
        reports-nil (access_checks seen index capability) access in
      let (effect, (copied, _)) = reports-nil (effect_checks index capability) effects in
      record {
        read_only = ground arith;
        no_scopes = nil_of_empty _ (ground arith);
        tools = no_wildcard-AllExact _ tools;
        shell_commands = no_wildcard-AllExact _ shell;
        network = no_wildcard-AllExact _ network;
        mcp_tools = no_wildcard-AllExact _ mcp;
        mcp_declared = λ tool m. classified_tool-declared capability.access tool classified m;
        locations = destinations_plain index _ destinations;
        effect = λ word m. allowed_effect capability.effect_class word effect m;
        reviewed = λ c. (approved_of _ (ground arith), approved_of _ (ground arith));
        input_closed = map-nil_inv _ _ inputs;
        output_closed = map-nil_inv _ _ outputs;
      }

  rounds-IsAdmitted :
      (seen : List String) (index : ℕ) (capabilities : List Capability)
      → capability_rounds library seen index capabilities ≡ []
      → (c : Capability) → Memᴰ c capabilities
      → IsAdmitted library c
  unfolding capability_rounds
  rounds-IsAdmitted seen index [] h c m = elim m [ ]
  rounds-IsAdmitted seen index (d ∷ capabilities) h c (Memᴰ.head e) =
      subst (IsAdmitted library) (sym e) (
        round-IsAdmitted seen index d
          (append-nil_inv (capability_errors library seen index d) _ h).0)
  rounds-IsAdmitted seen index (d ∷ capabilities) h c (Memᴰ.tail m) =
      rounds-IsAdmitted (capability_reference d ∷ seen) (index + 1) capabilities
        (append-nil_inv (capability_errors library seen index d) _ h).1 c m

  -- Every capability of a registry without semantic errors has no permission and no scope to write
  -- (`access.write`; its MCP tools may mutate), names its tools, commands, destinations and MCP
  -- tools without wildcards, classifies no MCP tool that it does not declare, reaches plain HTTPS
  -- locations only, names no prohibited effect in its effect class, is reviewed where it copies another's work, and has closed schemas.
  pub valid_registry-IsAdmitted :
      (registry : CapabilityRegistry)
      → validate_registry_semantics library registry ≡ []
      → (c : Capability) → Memᴰ c registry.capabilities
      → IsAdmitted library c
  unfolding validate_registry_semantics
  valid_registry-IsAdmitted registry h = rounds-IsAdmitted [] 0 registry.capabilities h

  -- The identity of a round is not among those of the rounds before.
  round_is_new :
      (seen : List String) (index : ℕ) (c : Capability)
      → capability_errors library seen index c ≡ []
      → includes seen (capability_reference c) ≡ false
  unfolding capability_errors
  round_is_new seen index c h =
      (reports-nil (access_checks seen index c)
        (append-nil_inv (reports (access_checks seen index c)) _ h).0).0

  later_is_new :
      (seen : List String) (index : ℕ) (capabilities : List Capability)
      → capability_rounds library seen index capabilities ≡ []
      → {c : Capability} → Memᴰ c capabilities
      → includes seen (capability_reference c) ≡ false
  unfolding capability_rounds
  later_is_new seen index [] h m = elim m [ ]
  later_is_new seen index (d ∷ capabilities) h (Memᴰ.head e) =
      subst (λ x. includes seen (capability_reference x) ≡ false) (sym e)
        (round_is_new seen index d (append-nil_inv (capability_errors library seen index d) _ h).0)
  later_is_new seen index (d ∷ capabilities) h {c} (Memᴰ.tail m) =
      let later =
        later_is_new (capability_reference d ∷ seen) (index + 1) capabilities
          (append-nil_inv (capability_errors library seen index d) _ h).1 {c = c} m in
      ground arith

  -- `find` by reference finds the capability.
  find-listed :
      (seen : List String) (index : ℕ) (capabilities : List Capability)
      → capability_rounds library seen index capabilities ≡ []
      → {c : Capability} → Memᴰ c capabilities
      → find (λ d. capability_reference d == capability_reference c) capabilities ≡ some c
  unfolding capability_rounds
  find-listed seen index [] h m = elim m [ ]
  find-listed seen index (d ∷ capabilities) h {c} (Memᴰ.head e) =
      subst
        (λ x.
          find (λ y. capability_reference y == capability_reference x) (d ∷ capabilities) ≡ some x)
        (sym e) (rw (test_self (capability_reference d)) refl)
  find-listed seen index (d ∷ capabilities) h {c} (Memᴰ.tail m) =
      let rest = (append-nil_inv (capability_errors library seen index d) _ h).1 in
      let new =
        later_is_new (capability_reference d ∷ seen) (index + 1) capabilities rest {c = c} m in
      let ih =
        find-listed (capability_reference d ∷ seen) (index + 1) capabilities rest {c = c} m in
      let other : (capability_reference d == capability_reference c) ≡ false = ground arith in
      rw other ih

  allowed_active :
      (phases : List ActivePhaseOwner)
      → (all (λ p. is_active_phase_owner (phase_owner_of p)) phases) ≡ true
  unfolding is_active_phase_owner phase_owner_of
  allowed_active [] = refl
  allowed_active (ActivePhaseOwner.framing ∷ phases) = allowed_active phases
  allowed_active (ActivePhaseOwner.planning ∷ phases) = allowed_active phases
  allowed_active (ActivePhaseOwner.execution ∷ phases) = allowed_active phases
  allowed_active (ActivePhaseOwner.verification ∷ phases) = allowed_active phases
  allowed_active (ActivePhaseOwner.human_review ∷ phases) = allowed_active phases

  -- In a registry without semantic errors the reference of a listed capability that is active and
  -- allowed in the phase resolves to that very capability.
  pub valid_registry-resolves :
      (registry : CapabilityRegistry) (phase : ActivePhaseOwner) (c : Capability)
      → validate_registry_semantics library registry ≡ []
      → Memᴰ c registry.capabilities
      → is_active c.status ≡ true
      → includes c.allowed_phases phase ≡ true
      → resolve_capability registry (capability_reference c) phase ≡ Resolution.resolved c
  unfolding validate_registry_semantics resolve_capability resolution_of
  valid_registry-resolves registry phase c h m active allowed =
      rw (find-listed [] 0 registry.capabilities h m)
        (rw (active, allowed_active c.allowed_phases, allowed) refl)

  -- In a registry without semantic errors two listed capabilities of one reference are the same.
  pub valid_registry_unique :
      (registry : CapabilityRegistry) (c d : Capability)
      → validate_registry_semantics library registry ≡ []
      → Memᴰ c registry.capabilities
      → Memᴰ d registry.capabilities
      → capability_reference c ≡ capability_reference d
      → c ≡ d
  unfolding validate_registry_semantics
  valid_registry_unique registry c d h m n e =
      let found = find-listed [] 0 registry.capabilities h {c = d} n in
      cc (
        find-listed [] 0 registry.capabilities h {c = c} m,
        subst (λ r. find (λ y. capability_reference y == r) registry.capabilities ≡ some d) (sym e)
            found,
      )
