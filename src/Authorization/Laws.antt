-- ===== src/Authorization/Laws.antt =====
-- When a human gate is authorized, and what valid evidence of a human is.
use hyperfinite.Common.{
  String, true, false, not, ◌&&◌, ◌||◌, ◌≡◌, ◌↔◌, inl, inr, refl, sym, subst, ◌∙◌, Option, none,
  some, List, [], ◌∷◌, Memᴰ, includes, ◌==◌, string_eq, option_eq, Bool-cases, Option-cases,
  mem-filter, mem-filter_inv, arith,
}
use hyperfinite.Types.Lifecycle.{LifecycleRoute, ActorClass-eq}
use hyperfinite.Types.Event.{Actor, HumanGateEvidence}
use hyperfinite.Types.Snapshot.{KernelRefusal}
use hyperfinite.Host.{Host}
use hyperfinite.Authorization.{
  GateInput, authorize_identity, is_expected_actor, is_gate_candidate, is_current_window,
  is_unbound, validate_gate_binding, validate_human_gate_evidence, first_valid,
  authorize_human_gate, authorize_actor,
}

module _ (host : Host) (input : GateInput) where
  first_valid-cons_none :
      (e : HumanGateEvidence) (es : List HumanGateEvidence) (earlier : Option KernelRefusal)
      → validate_human_gate_evidence host input e ≡ none
      → first_valid host input (e ∷ es) earlier ≡ none
  unfolding first_valid
  first_valid-cons_none e es earlier h = rw (first_valid, h)

  first_valid-cons_some :
      (e : HumanGateEvidence) (es : List HumanGateEvidence) (earlier : Option KernelRefusal)
      (r : KernelRefusal)
      → validate_human_gate_evidence host input e ≡ some r
      → first_valid host input (e ∷ es) earlier
        ≡ first_valid host input es (elim earlier [ none ↦ some r | some first ↦ some first ])
  unfolding first_valid
  first_valid-cons_some e es earlier r h = rw (first_valid, h)

  first_valid-mem :
      (es : List HumanGateEvidence) (earlier : Option KernelRefusal)
      → first_valid host input es earlier ≡ none
      → (e : HumanGateEvidence) × Memᴰ e es × (validate_human_gate_evidence host input e ≡ none)
  unfolding first_valid
  first_valid-mem [] none h = cc
  first_valid-mem [] (some r) h = cc
  first_valid-mem (e ∷ es) earlier h =
      elim (Option-cases (validate_human_gate_evidence host input e)) [
        | inl valid ↦ (e, Memᴰ.head refl, valid)
        | inr (r, invalid) ↦
            let (d, m, valid) =
              first_valid-mem es _ (sym (first_valid-cons_some e es earlier r invalid) ∙ h) in
            (d, Memᴰ.tail m, valid)
      ]

  first_valid-of_mem :
      (es : List HumanGateEvidence) (earlier : Option KernelRefusal) {e : HumanGateEvidence}
      → Memᴰ e es
      → validate_human_gate_evidence host input e ≡ none
      → first_valid host input es earlier ≡ none
  first_valid-of_mem [] earlier m valid = elim m [ ]
  first_valid-of_mem (d ∷ es) earlier (Memᴰ.head same) valid =
      first_valid-cons_none d es earlier
        (subst (λ x. validate_human_gate_evidence host input x ≡ none) same valid)
  first_valid-of_mem (d ∷ es) earlier (Memᴰ.tail m) valid =
      elim (Option-cases (validate_human_gate_evidence host input d)) [
        | inl first ↦ first_valid-cons_none d es earlier first
        | inr (r, invalid) ↦
            first_valid-cons_some d es earlier r invalid ∙ first_valid-of_mem es _ m valid
      ]

  -- A human gate is authorized exactly where some evidence for the gate, by the expected actor if
  -- one is expected, is valid: neither the order of the evidence nor invalid evidence matters.
  pub authorize_human_gate-none_iff : (authorize_human_gate host input ≡ none) ↔ (
      (e : HumanGateEvidence) × Memᴰ e input.gate_evidence
      × (is_gate_candidate input e ≡ true)
      × (validate_human_gate_evidence host input e ≡ none))
  unfolding authorize_human_gate
  authorize_human_gate-none_iff = (
    λ h.
        let (e, m, valid) = first_valid-mem _ none h in
        let (listed, candidate) = mem-filter_inv (is_gate_candidate input) input.gate_evidence m in
        (e, listed, candidate, valid),
    λ (e, listed, candidate, valid).
        first_valid-of_mem _ none
          (mem-filter (is_gate_candidate input) input.gate_evidence listed candidate) valid,
  )

-- Evidence that a gate accepts: of an identified human who is not a bot, independent where the
-- policy asks for it, observed and not expired, and bound to the accord; to the lease where the gate
-- is `activate`, and to the head where it is `approve-current-head`.
pub record IsValidEvidence (host : Host) (input : GateInput) (e : HumanGateEvidence) : Type 0 where
  pub valid : e.valid ≡ true
  pub identified : authorize_identity input.policy e.actor ≡ none
  pub human : e.actor.human ≡ true
  pub no_bot : e.actor.bot ≡ false
  pub independent :
      (includes input.policy.independent_gates input.gate && e.actor.id == input.requester_id)
      ≡ false
  pub current :
      is_current_window
        (host.parse_date e.observed_at)
        (host.parse_date e.expires_at)
        (host.parse_date input.evaluated_at)
      ≡ true
  pub accord : e.work_accord_digest ≡ input.work_accord_digest
  pub lease :
      (input.gate == "activate"
        && is_unbound input.activation_lease_digest e.activation_lease_digest)
      ≡ false
  pub head :
      (input.gate == "approve-current-head" && is_unbound input.current_head e.current_head) ≡ false

module _ (host : Host) (input : GateInput) (e : HumanGateEvidence) where
  binding-IsValid :
      validate_gate_binding host input e ≡ none
      → e.valid ≡ true
      → authorize_identity input.policy e.actor ≡ none
      → (not e.actor.human || e.actor.bot) ≡ false
      → IsValidEvidence host input e
  unfolding validate_gate_binding
  binding-IsValid h valid identified kind = record {
    valid = valid;
    identified = identified;
    human = ground arith;
    no_bot = ground arith;
    independent = ground arith;
    current = ground arith;
    accord = ground arith;
    lease = ground arith;
    head = ground arith;
  }

  -- Evidence without a refusal is marked valid, of an identified human who is no bot, independent
  -- where the policy asks for it, current, and bound as its gate asks.
  pub validate_human_gate_evidence-IsValid :
      validate_human_gate_evidence host input e ≡ none → IsValidEvidence host input e
  unfolding validate_human_gate_evidence
  validate_human_gate_evidence-IsValid h = elim (Bool-cases e.valid) [
    | inr invalid ↦ cc (rw invalid at h)
    | inl valid ↦ elim (Option-cases (authorize_identity input.policy e.actor)) [
      | inr (r, stranger) ↦ cc (rw (valid, stranger) at h)
      | inl identified ↦ elim (Bool-cases (not e.actor.human || e.actor.bot)) [
        | inl machine ↦ cc (rw (valid, identified, machine) at h)
        | inr kind ↦ binding-IsValid (rw (valid, identified, kind) at h) valid identified kind
      ]
    ]
  ]

module _ (host : Host) (actor : Actor) (route : LifecycleRoute) (input : GateInput) where
  -- What an authorized actor is: of a class that the route admits, and identified.
  pub authorize_actor-identity :
      authorize_actor host actor route input ≡ none
      → (includes route.actor_classes actor.actor_class ≡ true)
        × (authorize_identity input.policy actor ≡ none)
  unfolding authorize_actor
  authorize_actor-identity h = elim (Bool-cases (includes route.actor_classes actor.actor_class)) [
    | inr foreign ↦ cc (rw foreign at h)
    | inl admitted ↦ elim (Option-cases (authorize_identity input.policy actor)) [
      | inr (r, stranger) ↦ cc (rw (admitted, stranger) at h)
      | inl identified ↦ (admitted, identified)
    ]
  ]

  -- The gate of the route is authorized for the actor.
  authorize_actor-gate :
      (gate : String)
      → route.human_gate ≡ some gate
      → authorize_actor host actor route input ≡ none
      → authorize_human_gate host (record input { gate = gate; expected_actor = some actor }) ≡ none
  unfolding authorize_actor
  authorize_actor-gate gate gated h =
      let (admitted, identified) = authorize_actor-identity h in
      rw (admitted, identified, gated) at h

expected-same :
    (actor candidate : Actor)
    → is_expected_actor (some actor) candidate ≡ true
    → (candidate.id ≡ actor.id) × (candidate.authorization_digest ≡ actor.authorization_digest)
unfolding is_expected_actor
expected-same actor candidate h = (ground arith, ground arith)

candidate-parts :
    (input : GateInput) (e : HumanGateEvidence)
    → is_gate_candidate input e ≡ true
    → (e.gate ≡ input.gate) × (is_expected_actor input.expected_actor e.actor ≡ true)
unfolding is_gate_candidate
candidate-parts input e h = (ground arith, ground arith)

-- Evidence of the actor itself, valid for the gate.
pub record IsOwnEvidence (host : Host) (input : GateInput) (actor : Actor) (e : HumanGateEvidence)
    : Type 0 where
  pub gate : e.gate ≡ input.gate
  pub actor_id : e.actor.id ≡ actor.id
  pub authorization : e.actor.authorization_digest ≡ actor.authorization_digest
  pub valid : IsValidEvidence host input e

-- An actor who is authorized for a gated route has evidence of its own among the input's that is
-- valid for the route's gate.
pub authorize_actor-IsOwnEvidence :
    (host : Host) (actor : Actor) (route : LifecycleRoute) (input : GateInput) (gate : String)
    → route.human_gate ≡ some gate
    → authorize_actor host actor route input ≡ none
    → (e : HumanGateEvidence) × Memᴰ e input.gate_evidence
      × IsOwnEvidence host (record input { gate = gate; expected_actor = some actor }) actor e
authorize_actor-IsOwnEvidence host actor route input gate gated h =
    let asked = record input { gate = gate; expected_actor = some actor } in
    let (e, listed, candidate, valid) =
      (authorize_human_gate-none_iff host asked).0
        (authorize_actor-gate host actor route input gate gated h) in
    let (at, same) = candidate-parts asked e candidate in
    let (id, digest) = expected-same actor e.actor same in
    (
      e,
      listed,
      record {
        gate = at;
        actor_id = id;
        authorization = digest;
        valid = validate_human_gate_evidence-IsValid host asked e valid;
      },
    )
