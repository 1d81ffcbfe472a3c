-- ===== src/Lifecycle/Graph/Laws.antt =====
-- What a graph without validation errors guarantees (src/lifecycle.ts, `validateLifecycleGraph`).
use hyperfinite.Common.{
  ℕ, ◌+◌, String, Bool, true, false, not, ◌&&◌, ◌||◌, ◌≡◌, ◌≢◌, sym, subst, ◌⊎◌, inl, inr, reports,
  eq_of_test_ne, refl, any-none, ◌!=◌, Option, none, some, List, [], ◌∷◌, Memᴰ, arith,
  append-nil_inv, reports-nil, includes, Bool-cases, ◌==◌, string_eq, bool_eq, option_eq, ap, ◌∙◌,
  ne_of_test, is_some,
}
use hyperfinite.Types.Lifecycle.{
  LifecycleState, EventType, PhaseOwner, ActorClass, ActorClass-eq, LifecycleStateDefinition,
  LifecycleRoute, LifecycleGraph, LifecycleState-eq, PhaseOwner-eq, EventType-eq,
}
use hyperfinite.Lifecycle.{
  state_invariants, is_terminal_state, safety_destination, RouteAuthorityClass,
  classify_route_authority, is_retainable_owner, is_cost_bearing_state,
}
use hyperfinite.Lifecycle.Graph.{
  find_state, state_ids, state_checks, state_rounds, missing_states, conventional_states,
  owner_mismatch, safety_mismatch, untrusted_revalidation, is_kernel_safety, cannot_be_retained,
  route_checks, route_rounds, route_keys, ambiguous_groups, required_states,
  validate_lifecycle_graph,
}

-- A declared state with the conventional owner and flags.
pub record IsConventional (s : LifecycleStateDefinition) : Type 0 where
  pub owner : s.phase_owner ≡ (state_invariants s.id).phase_owner
  pub cost : s.cost_bearing ≡ (state_invariants s.id).cost_bearing
  pub ends : s.terminal ≡ (state_invariants s.id).terminal

-- The five parts of the validation.
pub record GraphParts (graph : LifecycleGraph) : Type 0 where
  pub states : state_rounds [] 0 graph.states ≡ []
  pub missing : missing_states (state_ids graph.states) conventional_states ≡ []
  pub routes : route_rounds graph.states [] 0 graph.routes ≡ []
  pub groups : ambiguous_groups (route_keys [] graph.routes) ≡ []
  pub required : required_states (state_ids graph.states) ≡ []

pub validate_lifecycle_graph-parts :
    (graph : LifecycleGraph) → validate_lifecycle_graph graph ≡ [] → GraphParts graph
unfolding validate_lifecycle_graph
validate_lifecycle_graph-parts graph h =
    let (a, h1) = append-nil_inv _ _ h in
    let (b, h2) = append-nil_inv _ _ h1 in
    let (c, h3) = append-nil_inv _ _ h2 in
    let (d, e) = append-nil_inv _ _ h3 in
    record { states = a; missing = b; routes = c; groups = d; required = e }

state_checks-IsConventional :
    (seen : List LifecycleState) (i : ℕ) (s : LifecycleStateDefinition)
    → reports (state_checks seen i s) ≡ []
    → IsConventional s
state_checks-IsConventional seen i s h =
    let facts = reports-nil (state_checks seen i s) h in
    record {
      owner = eq_of_test_ne facts.1.0;
      cost = eq_of_test_ne facts.1.1.0;
      ends = eq_of_test_ne facts.1.1.1.0;
    }

state_rounds-mem :
    (seen : List LifecycleState) (i : ℕ) (states : List LifecycleStateDefinition)
    {s : LifecycleStateDefinition}
    → state_rounds seen i states ≡ []
    → Memᴰ s states
    → IsConventional s
unfolding state_rounds
state_rounds-mem seen i [] h m = elim m [ ]
state_rounds-mem seen i (a ∷ states) h (Memᴰ.head e) = subst IsConventional (sym e) (
    state_checks-IsConventional seen i a
      (append-nil_inv (reports (state_checks seen i a)) (state_rounds (a.id ∷ seen) (i + 1) states)
        h).0)
state_rounds-mem seen i (a ∷ states) h (Memᴰ.tail m) =
    state_rounds-mem (a.id ∷ seen) (i + 1) states
      (append-nil_inv (reports (state_checks seen i a)) (state_rounds (a.id ∷ seen) (i + 1) states)
        h).1
      m

find_state_sound :
    (id : LifecycleState) (states : List LifecycleStateDefinition) {s : LifecycleStateDefinition}
    → find_state id states ≡ some s
    → Memᴰ s states × (s.id ≡ id)
unfolding find_state
find_state_sound id [] h = cc
find_state_sound id (a ∷ states) {s} h = elim (Bool-cases (a.id == id)) [
  | inl t ↦ (Memᴰ.head (ground arith), ground arith)
  | inr f ↦ let (m, e) = find_state_sound id states {s = s} (ground arith) in (Memᴰ.tail m, e)
]

find_state-of_included :
    (id : LifecycleState) (states : List LifecycleStateDefinition)
    → includes (state_ids states) id ≡ true
    → (s : LifecycleStateDefinition) × (find_state id states ≡ some s)
unfolding find_state state_ids
find_state-of_included id [] h = cc
find_state-of_included id (a ∷ states) h = elim (Bool-cases (a.id == id)) [
  | inl t ↦ (a, ground arith)
  | inr f ↦ let (s, e) = find_state-of_included id states (ground arith) in (s, ground arith)
]

-- In a valid graph a declared state is conventional.
pub find_state-IsConventional :
    (graph : LifecycleGraph) (id : LifecycleState) (s : LifecycleStateDefinition)
    → validate_lifecycle_graph graph ≡ []
    → find_state id graph.states ≡ some s
    → IsConventional s × (s.id ≡ id)
find_state-IsConventional graph id s valid h =
    let parts = validate_lifecycle_graph-parts graph valid in
    let (m, e) = find_state_sound id graph.states {s = s} h in
    (state_rounds-mem [] 0 graph.states parts.states m, e)

-- A self-transition of ACTIVATION_PENDING that the kernel owns and only the system or a policy takes.
pub record IsTrustedRevalidation (r : LifecycleRoute) : Type 0 where
  pub from : r.from ≡ LifecycleState.activation_pending
  pub to : r.to ≡ LifecycleState.activation_pending
  pub owner : r.phase_owner ≡ PhaseOwner.kernel
  pub actors :
      (c : ActorClass) → Memᴰ c r.actor_classes → (c ≡ ActorClass.system) ⊎ (c ≡ ActorClass.policy)

-- What the checks of a round establish of its route.
pub record IsLawful (r : LifecycleRoute) : Type 0 where
  pub leaves : is_terminal_state r.from ≡ false
  pub advances : r.to ≢ LifecycleState.captured
  pub owner : r.phase_owner ≡ (state_invariants r.to).phase_owner
  pub cost : r.cost_bearing ≡ (state_invariants r.to).cost_bearing
  pub safety : (d : LifecycleState) → safety_destination r.event ≡ some d → r.to ≡ d
  pub revalidation : r.event ≡ EventType.binding_revalidated → IsTrustedRevalidation r
  pub gate : classify_route_authority r ≡ RouteAuthorityClass.kernel_safety → r.human_gate ≡ none
  pub retains :
      (r.to ≡ LifecycleState.paused) ⊎ (r.to ≡ LifecycleState.blocked)
      → is_retainable_owner (state_invariants r.from).phase_owner ≡ true

route_rounds-mem :
    (states : List LifecycleStateDefinition) (seen : List String) (i : ℕ)
    (routes : List LifecycleRoute) {r : LifecycleRoute}
    → route_rounds states seen i routes ≡ []
    → Memᴰ r routes
    → (before : List String) × (k : ℕ) × (reports (route_checks states before k r) ≡ [])
unfolding route_rounds
route_rounds-mem states seen i [] h m = elim m [ ]
route_rounds-mem states seen i (a ∷ routes) h (Memᴰ.head e) = (
  seen,
  i,
  subst (λ x. reports (route_checks states seen i x) ≡ []) (sym e)
      (append-nil_inv (reports (route_checks states seen i a))
        (route_rounds states (a.id ∷ seen) (i + 1) routes) h).0,
)
route_rounds-mem states seen i (a ∷ routes) h (Memᴰ.tail m) =
    route_rounds-mem states (a.id ∷ seen) (i + 1) routes
      (append-nil_inv (reports (route_checks states seen i a))
        (route_rounds states (a.id ∷ seen) (i + 1) routes) h).1
      m

or-false : (a b : Bool) → (a || b) ≡ false → (a ≡ false) × (b ≡ false)
or-false a b h = ground arith

not-false : (a : Bool) → not a ≡ false → a ≡ true
not-false a h = ground arith

abbrev untrusted : ActorClass → Bool
untrusted c = c != ActorClass.system && c != ActorClass.policy

trusted_class :
    (c : ActorClass) → untrusted c ≡ false → (c ≡ ActorClass.system) ⊎ (c ≡ ActorClass.policy)
trusted_class ActorClass.system h = inl refl
trusted_class ActorClass.policy h = inr refl
trusted_class ActorClass.requester h = absurd (ground arith)
trusted_class ActorClass.reviewer h = absurd (ground arith)
trusted_class ActorClass.maintainer h = absurd (ground arith)
trusted_class ActorClass.administrator h = absurd (ground arith)

module _ (r : LifecycleRoute) where
  owner_mismatch-false :
      (o : Option LifecycleStateDefinition) {s : LifecycleStateDefinition}
      → o ≡ some s
      → owner_mismatch r o ≡ false
      → r.phase_owner ≡ s.phase_owner
  unfolding owner_mismatch
  owner_mismatch-false none p h = cc
  owner_mismatch-false (some t) p h = ground arith

  safety_mismatch-false :
      (o : Option LifecycleState) {d : LifecycleState}
      → o ≡ some d
      → safety_mismatch r o ≡ false
      → r.to ≡ d
  unfolding safety_mismatch
  safety_mismatch-false none p h = cc
  safety_mismatch-false (some t) p h = ground arith

  untrusted_revalidation-false :
      untrusted_revalidation r ≡ false
      → r.event ≡ EventType.binding_revalidated
      → IsTrustedRevalidation r
  unfolding untrusted_revalidation
  untrusted_revalidation-false h e = record {
    from = ground arith;
    to = ground arith;
    owner = ground arith;
    actors = λ c m. trusted_class c (any-none untrusted {xs = r.actor_classes} (ground arith) m);
  }

  safety_gate-false :
      (c : RouteAuthorityClass)
      → (is_kernel_safety c && is_some r.human_gate) ≡ false
      → c ≡ RouteAuthorityClass.kernel_safety
      → r.human_gate ≡ none
  safety_gate-false c h e = ground arith

  retained_source-false :
      (o : Option LifecycleStateDefinition) {s : LifecycleStateDefinition}
      → o ≡ some s
      → ((r.to == LifecycleState.paused || r.to == LifecycleState.blocked) && cannot_be_retained o)
        ≡ false
      → (r.to ≡ LifecycleState.paused) ⊎ (r.to ≡ LifecycleState.blocked)
      → is_retainable_owner s.phase_owner ≡ true
  unfolding cannot_be_retained
  retained_source-false none p h d = cc
  retained_source-false (some t) p h d = ground arith

-- Every route of a valid graph is lawful: it leaves a state that is not terminal, does not enter
-- CAPTURED, and has the owner and the cost of the state it enters. A safety event enters its state; a
-- revalidation of the binding stays in ACTIVATION_PENDING, is the kernel's and admits the system and
-- policies only; a safety route of the kernel has no human gate; and what is paused or blocked was
-- of an owner that can be retained.
pub valid_graph-IsLawful :
    (graph : LifecycleGraph) (r : LifecycleRoute)
    → validate_lifecycle_graph graph ≡ []
    → Memᴰ r graph.routes
    → IsLawful r
unfolding is_cost_bearing_state
valid_graph-IsLawful graph r valid m =
    let parts = validate_lifecycle_graph-parts graph valid in
    let (before, k, h) = route_rounds-mem graph.states [] 0 graph.routes {r = r} parts.routes m in
    let facts = reports-nil (route_checks graph.states before k r) h in
    let declared = or-false _ _ facts.1.0 in
    let (source, found_source) =
      find_state-of_included r.from graph.states (not-false _ declared.0) in
    let (target, found_target) =
      find_state-of_included r.to graph.states (not-false _ declared.1) in
    let (source_ok, source_id) = find_state-IsConventional graph r.from source valid found_source in
    let (target_ok, target_id) = find_state-IsConventional graph r.to target valid found_target in
    record {
      leaves = (or-false _ _ facts.1.1.1.1.1.1.1.1.1.0).0;
      advances = ne_of_test facts.1.1.0;
      owner =
          owner_mismatch-false r _ found_target facts.1.1.1.0
          ∙ target_ok.owner
          ∙ ap (λ id. (state_invariants id).phase_owner) target_id;
      cost = eq_of_test_ne facts.1.1.1.1.0;
      safety = λ d e. safety_mismatch-false r _ e facts.1.1.1.1.1.0;
      revalidation = untrusted_revalidation-false r facts.1.1.1.1.1.1.0;
      gate = safety_gate-false r _ facts.1.1.1.1.1.1.1.0;
      retains = λ d.
          subst (λ o. is_retainable_owner o ≡ true)
            (source_ok.owner ∙ ap (λ id. (state_invariants id).phase_owner) source_id)
            (retained_source-false r _ found_source facts.1.1.1.1.1.1.1.1.0 d);
    }
