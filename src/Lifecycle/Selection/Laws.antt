-- ===== src/Lifecycle/Selection/Laws.antt =====
-- What route selection returns (src/lifecycle.ts, `selectRoute`).
use hyperfinite.Common.{
  Bool, true, false, ◌≡◌, refl, sym, subst, ◌↔◌, Option, none, some, List, [], ◌∷◌, filter, Memᴰ,
  arith, mem-filter, mem-filter_inv, if◌then◌else◌, option_eq,
}
use hyperfinite.Types.Lifecycle.{
  LifecycleState, EventType, LifecycleRoute, LifecycleGraph, LifecycleState-eq, EventType-eq,
}
use hyperfinite.Lifecycle.Selection.{
  RouteSelection, leaves_on, enters, is_resume, is_retry, route_candidates, selection_of,
  select_route,
}

-- A route that the event may take: it leaves the state on the event, and where the state keeps the
-- one it came from, it goes back there.
pub record IsCandidate (graph : LifecycleGraph) (state : LifecycleState) (event : EventType)
    (resume_state recovery_state : Option LifecycleState) (route : LifecycleRoute) : Type 0 where
  pub listed : Memᴰ route graph.routes
  pub source : route.from ≡ state
  pub trigger : route.event ≡ event
  pub resumes : is_resume state event ≡ true → resume_state ≡ some route.to
  pub retries : is_retry state event ≡ true → recovery_state ≡ some route.to

leaves_on-parts :
    (s : LifecycleState) (e : EventType) (r : LifecycleRoute)
    → leaves_on s e r ≡ true
    → (r.from ≡ s) × (r.event ≡ e)
unfolding leaves_on
leaves_on-parts s e r h = ground arith

leaves_on-of_parts :
    (s : LifecycleState) (e : EventType) (r : LifecycleRoute)
    → r.from ≡ s
    → r.event ≡ e
    → leaves_on s e r ≡ true
unfolding leaves_on
leaves_on-of_parts s e r p q = ground arith

enters-eq : (o : Option LifecycleState) (r : LifecycleRoute) → enters o r ≡ true → o ≡ some r.to
unfolding enters
enters-eq none r h = cc
enters-eq (some s) r h = ground arith

enters-of_eq : (o : Option LifecycleState) (r : LifecycleRoute) → o ≡ some r.to → enters o r ≡ true
unfolding enters
enters-of_eq none r h = cc
enters-of_eq (some s) r h = ground arith

-- A filter that is applied only if a test holds.
module _ {A : Type 0} (test : A → Bool) (xs : List A) {x : A} where
  mem-filter_if :
      (b : Bool)
      → Memᴰ x (if b then filter test xs else xs)
      → Memᴰ x xs × (b ≡ true → test x ≡ true)
  mem-filter_if true m = let (n, t) = mem-filter_inv test xs {x = x} m in (n, λ _. t)
  mem-filter_if false m = (m, λ e. cc)

  mem-filter_if_of :
      (b : Bool)
      → Memᴰ x xs
      → (b ≡ true → test x ≡ true)
      → Memᴰ x (if b then filter test xs else xs)
  mem-filter_if_of true m h = mem-filter test xs m (h refl)
  mem-filter_if_of false m h = m

module _ (graph : LifecycleGraph) (state : LifecycleState) (event : EventType)
    (resume_state recovery_state : Option LifecycleState) where
  abbrev candidates : List LifecycleRoute
  candidates = route_candidates graph.routes state event resume_state recovery_state

  mem-candidates_inv :
      (r : LifecycleRoute)
      → Memᴰ r candidates
      → IsCandidate graph state event resume_state recovery_state r
  unfolding route_candidates
  mem-candidates_inv r m =
      let leaving = filter (leaves_on state event) graph.routes in
      let resuming = is_resume state event in
      let resumed = if resuming then filter (enters resume_state) leaving else leaving in
      let (m1, h1) =
        mem-filter_if (enters recovery_state) resumed {x = r} (is_retry state event) m in
      let (m2, h2) = mem-filter_if (enters resume_state) leaving {x = r} resuming m1 in
      let (m3, h3) = mem-filter_inv (leaves_on state event) graph.routes {x = r} m2 in
      record {
        listed = m3;
        source = (leaves_on-parts state event r h3).0;
        trigger = (leaves_on-parts state event r h3).1;
        resumes = λ b. enters-eq resume_state r (h2 b);
        retries = λ b. enters-eq recovery_state r (h1 b);
      }

  mem-candidates :
      (r : LifecycleRoute)
      → IsCandidate graph state event resume_state recovery_state r
      → Memᴰ r candidates
  unfolding route_candidates
  mem-candidates r c =
      let leaving = filter (leaves_on state event) graph.routes in
      let resuming = is_resume state event in
      let resumed = if resuming then filter (enters resume_state) leaving else leaving in
      mem-filter_if_of (enters recovery_state) resumed (is_retry state event)
        (mem-filter_if_of (enters resume_state) leaving resuming
          (mem-filter (leaves_on state event) graph.routes c.listed
            (leaves_on-of_parts state event r c.source c.trigger))
          (λ b. enters-of_eq resume_state r (c.resumes b)))
        (λ b. enters-of_eq recovery_state r (c.retries b))

  selection_of-selected :
      (routes : List LifecycleRoute) (r : LifecycleRoute)
      → selection_of routes ≡ RouteSelection.selected r
      → routes ≡ r ∷ []
  unfolding selection_of
  selection_of-selected [] r h = cc
  selection_of-selected (a ∷ []) r h = cc
  selection_of-selected (a ∷ b ∷ more) r h = cc

  mem-singleton : {r s : LifecycleRoute} → Memᴰ r (s ∷ []) → r ≡ s
  mem-singleton (Memᴰ.head e) = e
  mem-singleton (Memᴰ.tail m) = elim m [ ]

  select_route-candidates :
      (r : LifecycleRoute)
      → select_route graph state event resume_state recovery_state ≡ RouteSelection.selected r
      → candidates ≡ r ∷ []
  unfolding select_route
  select_route-candidates r h = selection_of-selected candidates r h

  -- A selected route is a candidate, and the only one.
  pub select_route-selected :
      (r : LifecycleRoute)
      → select_route graph state event resume_state recovery_state ≡ RouteSelection.selected r
      → IsCandidate graph state event resume_state recovery_state r
        × ((s : LifecycleRoute)
            → IsCandidate graph state event resume_state recovery_state s
            → s ≡ r)
  select_route-selected r h =
      let one = select_route-candidates r h in
      (
        mem-candidates_inv r (subst (Memᴰ r) (sym one) (Memᴰ.head refl)),
        λ s c. mem-singleton (subst (Memᴰ s) one (mem-candidates s c)),
      )

  selection_of-no_route :
      (routes : List LifecycleRoute) → selection_of routes ≡ RouteSelection.no_route → routes ≡ []
  unfolding selection_of
  selection_of-no_route [] h = refl
  selection_of-no_route (a ∷ []) h = cc
  selection_of-no_route (a ∷ b ∷ more) h = cc

  selection_of-empty :
      (routes : List LifecycleRoute)
      → ((r : LifecycleRoute) → ¬ Memᴰ r routes)
      → selection_of routes ≡ RouteSelection.no_route
  unfolding selection_of
  selection_of-empty [] h = refl
  selection_of-empty (a ∷ routes) h = absurd (h a (Memᴰ.head refl))

  -- No route is returned exactly when there is no candidate.
  pub select_route-no_route_iff :
      (select_route graph state event resume_state recovery_state ≡ RouteSelection.no_route)
      ↔ ((r : LifecycleRoute) → ¬ IsCandidate graph state event resume_state recovery_state r)
  unfolding select_route
  select_route-no_route_iff = (
    λ h r c.
        let none_left = selection_of-no_route candidates h in
        elim (subst (Memᴰ r) none_left (mem-candidates r c)) [ ],
    λ h. selection_of-empty candidates (λ r m. h r (mem-candidates_inv r m)),
  )
