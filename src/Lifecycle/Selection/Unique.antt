-- ===== src/Lifecycle/Selection/Unique.antt =====
-- Deterministic selection: a valid graph forks only where the source exempts it.
use mathlib.Core.List.{append-nil, append_assoc}
use hyperfinite.Common.{
  Bool, true, false, ◌≡◌, ◌≢◌, refl, sym, subst, ap, ◌∙◌, Option, List, [], ◌∷◌, ◌++◌, filter,
  arith, if◌then◌else◌, Bool-cases, inl, inr, not, ◌&&◌,
}
use hyperfinite.Types.Lifecycle.{LifecycleState, EventType, LifecycleRoute, LifecycleGraph}
use hyperfinite.Lifecycle.Graph.{
  LifecycleGraphError, RouteGroup, has_key, add_route, route_keys, may_fork, is_fork,
  ambiguous_groups, validate_lifecycle_graph,
}
use hyperfinite.Lifecycle.Graph.Laws.{validate_lifecycle_graph-parts}
use hyperfinite.Lifecycle.Selection.{
  RouteSelection, leaves_on, route_candidates, selection_of, select_route,
}

-- The routes that the map of keys holds for a key.
routes_of : LifecycleState → EventType → List RouteGroup → List LifecycleRoute
routes_of from event [] = []
routes_of from event (g ∷ groups) =
    if has_key from event g then g.routes else routes_of from event groups

routes_of-add_route :
    (from : LifecycleState) (event : EventType) (groups : List RouteGroup) (r : LifecycleRoute)
    → routes_of from event (add_route groups r) ≡ (
        if leaves_on from event r
        then routes_of from event groups ++ r ∷ []
        else routes_of from event groups)
unfolding routes_of add_route leaves_on
routes_of-add_route from event [] r = ground arith
routes_of-add_route from event (g ∷ groups) r =
    ground (arith, routes_of-add_route from event groups r)

filter-step :
    (b : Bool) (r : LifecycleRoute) (xs ys : List LifecycleRoute)
    → (if b then xs ++ r ∷ [] else xs) ++ ys ≡ xs ++ (if b then r ∷ ys else ys)
filter-step true r xs ys = append_assoc xs (r ∷ []) ys
filter-step false r xs ys = refl

routes_of-route_keys :
    (from : LifecycleState) (event : EventType) (groups : List RouteGroup)
    (routes : List LifecycleRoute)
    → routes_of from event (route_keys groups routes)
      ≡ routes_of from event groups ++ filter (leaves_on from event) routes
unfolding route_keys
routes_of-route_keys from event groups [] = sym (append-nil _)
routes_of-route_keys from event groups (r ∷ routes) =
    routes_of-route_keys from event (add_route groups r) routes
    ∙ ap (λ xs. xs ++ filter (leaves_on from event) routes)
        (routes_of-add_route from event groups r)
    ∙ filter-step (leaves_on from event r) r (routes_of from event groups)
        (filter (leaves_on from event) routes)

has_key-parts :
    (from : LifecycleState) (event : EventType) (g : RouteGroup)
    → has_key from event g ≡ true
    → (g.from ≡ from) × (g.event ≡ event)
unfolding has_key
has_key-parts from event g h = ground arith

group_unforked :
    (from : LifecycleState) (event : EventType) (g : RouteGroup)
    → has_key from event g ≡ true
    → (is_fork g.routes && not (may_fork g.from g.event)) ≡ false
    → may_fork from event ≡ false
    → is_fork g.routes ≡ false
group_unforked from event g k h f =
    let (same_from, same_event) = has_key-parts from event g k in
    let f' : may_fork g.from g.event ≡ false = cc in ground arith

report_cons :
    (b : Bool) (e : LifecycleGraphError) (rest : List LifecycleGraphError)
    → (if b then e ∷ rest else rest) ≡ []
    → (b ≡ false) × (rest ≡ [])
report_cons true e rest h = cc
report_cons false e rest h = (refl, h)

ambiguous_groups-nil :
    (from : LifecycleState) (event : EventType) (groups : List RouteGroup)
    → ambiguous_groups groups ≡ []
    → may_fork from event ≡ false
    → is_fork (routes_of from event groups) ≡ false
unfolding ambiguous_groups routes_of
ambiguous_groups-nil from event [] h f = refl
ambiguous_groups-nil from event (g ∷ groups) h f =
    let (here, rest) = report_cons _ _ (ambiguous_groups groups) h in
    elim (Bool-cases (has_key from event g)) [
      | inl k ↦ rw k (group_unforked from event g k here f)
      | inr k ↦ rw k (ambiguous_groups-nil from event groups rest f)
    ]

-- In a valid graph the routes on an event that may not fork are at most one.
pub valid_graph-IsUnique :
    (graph : LifecycleGraph) (from : LifecycleState) (event : EventType)
    → validate_lifecycle_graph graph ≡ []
    → may_fork from event ≡ false
    → is_fork (filter (leaves_on from event) graph.routes) ≡ false
unfolding routes_of
valid_graph-IsUnique graph from event valid f =
    subst (λ rs. is_fork rs ≡ false) (routes_of-route_keys from event [] graph.routes)
      (ambiguous_groups-nil from event (route_keys [] graph.routes)
        (validate_lifecycle_graph-parts graph valid).groups f)

selection_of-ambiguous :
    (routes : List LifecycleRoute)
    → is_fork routes ≡ false
    → selection_of routes ≢ RouteSelection.ambiguous
unfolding selection_of
selection_of-ambiguous [] f = cc
selection_of-ambiguous (r ∷ []) f = cc
selection_of-ambiguous (r ∷ s ∷ routes) f = cc

candidates-of_unforked :
    (routes : List LifecycleRoute) (state : LifecycleState) (event : EventType)
    (resume_state recovery_state : Option LifecycleState)
    → may_fork state event ≡ false
    → route_candidates routes state event resume_state recovery_state
      ≡ filter (leaves_on state event) routes
unfolding route_candidates may_fork
candidates-of_unforked routes state event resume_state recovery_state f = ground arith

-- In a valid graph, selection is ambiguous for no state and event, but for the resumption of a
-- paused state and the retry or recovery of a blocked one.
pub select_route-ne-ambiguous :
    (graph : LifecycleGraph) (state : LifecycleState) (event : EventType)
    (resume_state recovery_state : Option LifecycleState)
    → validate_lifecycle_graph graph ≡ []
    → may_fork state event ≡ false
    → select_route graph state event resume_state recovery_state ≢ RouteSelection.ambiguous
unfolding select_route
select_route-ne-ambiguous graph state event resume_state recovery_state valid f =
    selection_of-ambiguous _ (
      subst (λ rs. is_fork rs ≡ false)
        (sym (candidates-of_unforked graph.routes state event resume_state recovery_state f))
        (valid_graph-IsUnique graph state event valid f))
