-- ===== src/Lifecycle/Graph.antt =====
-- `validateLifecycleGraph` (src/lifecycle.ts). An error is its kind and the index in its path.
pub mod Laws
use hyperfinite.Common.{
  ℕ, zero, ◌+◌, String, Bool, true, false, not, ◌&&◌, ◌||◌, Option, none, some, List, [], ◌∷◌, ◌++◌,
  is_some, any, includes, reports, ◌==◌, ◌!=◌, if◌then◌else◌, string_eq, bool_eq, option_eq,
}
use hyperfinite.Types.Lifecycle.{
  LifecycleState, PhaseOwner, ActorClass, EventType, LifecycleStateDefinition, LifecycleRoute,
  LifecycleGraph, LifecycleState-eq, PhaseOwner-eq, ActorClass-eq, EventType-eq,
}
use hyperfinite.Lifecycle.{
  state_invariants, is_terminal_state, safety_destination, RouteAuthorityClass,
  is_cost_bearing_state, classify_route_authority, is_retainable_owner,
}

pub data LifecycleGraphError : Type 0 where
  duplicate_state state_owner state_cost state_terminal : ℕ → LifecycleGraphError
  missing_state : LifecycleState → LifecycleGraphError
  duplicate_route undeclared_state captured_reentered route_owner : ℕ → LifecycleGraphError
  route_cost safety_event binding_revalidation safety_gate : ℕ → LifecycleGraphError
  retained_source terminal_source : ℕ → LifecycleGraphError
  ambiguous_routes : LifecycleState → EventType → LifecycleGraphError
  captured_required terminals_required : LifecycleGraphError

-- `states.find((state) => state.id === id)`
unfoldable pub find_state :
    LifecycleState → List LifecycleStateDefinition → Option LifecycleStateDefinition
find_state id [] = none
find_state id (s ∷ states) = if s.id == id then some s else find_state id states

-- `stateIds` when the loop over the states is done.
unfoldable pub state_ids : List LifecycleStateDefinition → List LifecycleState
state_ids [] = []
state_ids (s ∷ states) = s.id ∷ state_ids states

-- The tests of one round of `graph.states.forEach`; `seen` holds the ids of the rounds before.
abbrev pub state_checks :
    (seen : List LifecycleState) (index : ℕ)
    → LifecycleStateDefinition
    → List (Bool × LifecycleGraphError)
state_checks seen index state =
    let expected = state_invariants state.id in
    (includes seen state.id, LifecycleGraphError.duplicate_state index)
    ∷ (state.phase_owner != expected.phase_owner, LifecycleGraphError.state_owner index)
    ∷ (state.cost_bearing != expected.cost_bearing, LifecycleGraphError.state_cost index)
    ∷ (state.terminal != expected.terminal, LifecycleGraphError.state_terminal index)
    ∷ []

unfoldable pub state_rounds :
    (seen : List LifecycleState) (index : ℕ)
    → List LifecycleStateDefinition
    → List LifecycleGraphError
state_rounds seen index [] = []
state_rounds seen index (s ∷ states) =
    reports (state_checks seen index s) ++ state_rounds (s.id ∷ seen) (index + 1) states

-- The keys of STATE_INVARIANTS.
abbrev pub conventional_states : List LifecycleState
conventional_states =
    LifecycleState.captured ∷ LifecycleState.activation_pending ∷ LifecycleState.framing
    ∷ LifecycleState.planned ∷ LifecycleState.executing ∷ LifecycleState.verifying
    ∷ LifecycleState.human_review ∷ LifecycleState.completed ∷ LifecycleState.paused
    ∷ LifecycleState.blocked ∷ LifecycleState.cancelled ∷ []

unfoldable pub missing_states :
    (ids : List LifecycleState) → List LifecycleState → List LifecycleGraphError
missing_states ids [] = []
missing_states ids (s ∷ states) =
    if includes ids s
    then missing_states ids states
    else LifecycleGraphError.missing_state s ∷ missing_states ids states

-- `destination !== undefined && route.phaseOwner !== destination.phaseOwner`
unfoldable pub owner_mismatch : LifecycleRoute → Option LifecycleStateDefinition → Bool
owner_mismatch route none = false
owner_mismatch route (some destination) = route.phase_owner != destination.phase_owner

-- `safetyDestination !== undefined && route.to !== safetyDestination`
unfoldable pub safety_mismatch : LifecycleRoute → Option LifecycleState → Bool
safety_mismatch route none = false
safety_mismatch route (some destination) = route.to != destination

unfoldable pub untrusted_revalidation : LifecycleRoute → Bool
untrusted_revalidation route =
    route.event == EventType.binding_revalidated
    && (route.from != LifecycleState.activation_pending
        || route.to != LifecycleState.activation_pending
        || route.phase_owner != PhaseOwner.kernel
        || any (λ c. c != ActorClass.system && c != ActorClass.policy) route.actor_classes)

abbrev is_kernel_safety : RouteAuthorityClass → Bool
is_kernel_safety RouteAuthorityClass.kernel_safety = true
is_kernel_safety _ = false

-- `source === undefined || source.phaseOwner === "kernel" || source.phaseOwner === "intake"`
unfoldable pub cannot_be_retained : Option LifecycleStateDefinition → Bool
unfolding is_retainable_owner
cannot_be_retained none = true
cannot_be_retained (some source) = not (is_retainable_owner source.phase_owner)

-- `source?.terminal === true`
unfoldable pub is_declared_terminal : Option LifecycleStateDefinition → Bool
is_declared_terminal none = false
is_declared_terminal (some source) = source.terminal

-- The tests of one round of `graph.routes.forEach`; the grouping by key is a loop of its own.
abbrev pub route_checks :
    (states : List LifecycleStateDefinition) (seen : List String) (index : ℕ)
    → LifecycleRoute
    → List (Bool × LifecycleGraphError)
route_checks states seen index route =
    let ids = state_ids states in
    let source = find_state route.from states in
    (includes seen route.id, LifecycleGraphError.duplicate_route index)
    ∷ (
      not (includes ids route.from) || not (includes ids route.to),
      LifecycleGraphError.undeclared_state index,
    )
    ∷ (route.to == LifecycleState.captured, LifecycleGraphError.captured_reentered index)
    ∷ (owner_mismatch route (find_state route.to states), LifecycleGraphError.route_owner index)
    ∷ (route.cost_bearing != is_cost_bearing_state route.to, LifecycleGraphError.route_cost index)
    ∷ (
      safety_mismatch route (safety_destination route.event),
      LifecycleGraphError.safety_event index,
    )
    ∷ (untrusted_revalidation route, LifecycleGraphError.binding_revalidation index)
    ∷ (
      is_kernel_safety (classify_route_authority route) && is_some route.human_gate,
      LifecycleGraphError.safety_gate index,
    )
    ∷ (
      (route.to == LifecycleState.paused || route.to == LifecycleState.blocked)
          && cannot_be_retained source,
      LifecycleGraphError.retained_source index,
    )
    ∷ (
      is_terminal_state route.from || is_declared_terminal source,
      LifecycleGraphError.terminal_source index,
    )
    ∷ []

unfoldable pub route_rounds :
    (states : List LifecycleStateDefinition) (seen : List String) (index : ℕ)
    → List LifecycleRoute
    → List LifecycleGraphError
route_rounds states seen index [] = []
route_rounds states seen index (r ∷ routes) =
    reports (route_checks states seen index r)
    ++ route_rounds states (r.id ∷ seen) (index + 1) routes

-- An entry of `routeKeys`; its key `${from}:${event}` is the two names, neither of which has a colon.
pub record RouteGroup : Type 0 where
  pub from : LifecycleState
  pub event : EventType
  pub routes : List LifecycleRoute

unfoldable pub has_key : LifecycleState → EventType → RouteGroup → Bool
has_key from event group = group.from == from && group.event == event

-- `routeKeys.set(key, [...(routeKeys.get(key) ?? []), route])`; a Map keeps the order of insertion.
unfoldable pub add_route : List RouteGroup → LifecycleRoute → List RouteGroup
unfolding has_key
add_route [] route = record { from = route.from; event = route.event; routes = route ∷ [] } ∷ []
add_route (g ∷ groups) route =
    if has_key route.from route.event g
    then record g { routes = g.routes ++ route ∷ [] } ∷ groups
    else g ∷ add_route groups route

unfoldable pub route_keys : List RouteGroup → List LifecycleRoute → List RouteGroup
unfolding add_route
route_keys groups [] = groups
route_keys groups (r ∷ routes) = route_keys (add_route groups r) routes

-- The keys `startsWith` exempts: no event's name has one of these as a proper prefix.
unfoldable pub may_fork : LifecycleState → EventType → Bool
may_fork from event =
    (from == LifecycleState.paused && event == EventType.resume_requested)
    || (from == LifecycleState.blocked
        && (event == EventType.retry_requested || event == EventType.recovery_approved))

-- `routes.length > 1`
abbrev pub is_fork : List LifecycleRoute → Bool
is_fork [] = false
is_fork (r ∷ []) = false
is_fork (r ∷ s ∷ routes) = true

unfoldable pub ambiguous_groups : List RouteGroup → List LifecycleGraphError
unfolding may_fork
ambiguous_groups [] = []
ambiguous_groups (g ∷ groups) =
    if is_fork g.routes && not (may_fork g.from g.event)
    then LifecycleGraphError.ambiguous_routes g.from g.event ∷ ambiguous_groups groups
    else ambiguous_groups groups

unfoldable pub required_states : List LifecycleState → List LifecycleGraphError
required_states ids = reports (
    (not (includes ids LifecycleState.captured), LifecycleGraphError.captured_required)
    ∷ (
      not (includes ids LifecycleState.completed) || not (includes ids LifecycleState.cancelled),
      LifecycleGraphError.terminals_required,
    )
    ∷ [])

unfoldable pub validate_lifecycle_graph : LifecycleGraph → List LifecycleGraphError
unfolding state_rounds missing_states route_rounds route_keys ambiguous_groups required_states
validate_lifecycle_graph graph =
    state_rounds [] 0 graph.states
    ++ (missing_states (state_ids graph.states) conventional_states
        ++ (route_rounds graph.states [] 0 graph.routes
            ++ (ambiguous_groups (route_keys [] graph.routes)
                ++ required_states (state_ids graph.states))))
