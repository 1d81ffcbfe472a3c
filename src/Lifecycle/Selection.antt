-- ===== src/Lifecycle/Selection.antt =====
-- `selectRoute` (src/lifecycle.ts).
pub mod Laws
pub mod Unique
use hyperfinite.Common.{
  ℕ, Bool, true, false, ◌&&◌, ◌||◌, Option, none, some, List, [], ◌∷◌, filter, ◌==◌, if◌then◌else◌,
  option_eq,
}
use hyperfinite.Types.Lifecycle.{
  LifecycleState, EventType, LifecycleRoute, LifecycleGraph, LifecycleState-eq, EventType-eq,
}

-- `LifecycleRoute | null | "ambiguous"`
pub data RouteSelection : Type 0 where
  no_route ambiguous : RouteSelection
  selected : LifecycleRoute → RouteSelection

unfoldable pub leaves_on : LifecycleState → EventType → LifecycleRoute → Bool
leaves_on state event route = route.from == state && route.event == event

-- `route.to === state`, where the state may be null.
unfoldable pub enters : Option LifecycleState → LifecycleRoute → Bool
enters none route = false
enters (some state) route = route.to == state

unfoldable pub is_resume : LifecycleState → EventType → Bool
is_resume state event = state == LifecycleState.paused && event == EventType.resume_requested

unfoldable pub is_retry : LifecycleState → EventType → Bool
is_retry state event =
    state == LifecycleState.blocked
    && (event == EventType.retry_requested || event == EventType.recovery_approved)

-- The candidates after both filters.
unfoldable pub route_candidates :
    List LifecycleRoute
    → LifecycleState
    → EventType
    → (resume_state recovery_state : Option LifecycleState) → List LifecycleRoute
unfolding leaves_on is_resume is_retry enters
route_candidates routes state event resume_state recovery_state =
    let candidates = filter (leaves_on state event) routes in
    let resumed =
      if is_resume state event then filter (enters resume_state) candidates else candidates in
    if is_retry state event then filter (enters recovery_state) resumed else resumed

unfoldable pub selection_of : List LifecycleRoute → RouteSelection
selection_of [] = RouteSelection.no_route
selection_of (r ∷ []) = RouteSelection.selected r
selection_of (r ∷ s ∷ more) = RouteSelection.ambiguous

unfoldable pub select_route :
    LifecycleGraph
    → LifecycleState
    → EventType
    → (resume_state recovery_state : Option LifecycleState) → RouteSelection
unfolding route_candidates selection_of
select_route graph state event resume_state recovery_state =
    selection_of (route_candidates graph.routes state event resume_state recovery_state)
