-- ===== src/Rotation/Plan/Surge.antt =====
-- The surge state machine: exactly when each of its decisions is made.
use omni_infra_provider_true.Base.{◌≡◌, ◌↔◌, refl, true, some, ap}
use omni_infra_provider_true.Clock.{Time, Duration}
use omni_infra_provider_true.Rotation.Phase.{SurgePhaseState}
use omni_infra_provider_true.Rotation.Candidate.{Candidate, stale_requests, surge_phase}
use omni_infra_provider_true.Rotation.Decision.{
  Action, surge_up, surge_down, surge_cycle_complete, surge_aborted, new_decision,
}
use omni_infra_provider_true.Rotation.Plan.{plan, plan_surge}
use omni_infra_provider_true.Rotation.Plan.Guards.{
  is_surge_action, IsSurging, surging, plan_of_IsSurging,
}
use omni_infra_provider_true.Rotation.Plan.Legs.{
  MayStart, MayDrop, MayFinish, HasDrifted, may_start, starts, may_drop, drops, may_finish,
  finishes, may_abort, aborts,
}

module _ (now : Time) (ttl : Duration) (c : Candidate) where
  -- The decision is the state machine's own, behind the guards that every surge decision passes.
  by_machine :
      (a : Action)
      → is_surge_action a ≡ true
      → (plan now ttl (some c)).action ≡ a
      → IsSurging now ttl c
        × ((plan_surge (surge_phase c) c (stale_requests c) (new_decision (some c)) now).action ≡ a)
  by_machine a k h = let (s, e) = surging now ttl c (rw h k) in (s, cc (e, h))

  -- A cycle starts exactly when the guards pass, no phase is in flight, some request is stale, and
  -- the provisioned members, fresh and stale, are at least min-healthy.
  pub plan-surge_up_iff :
      ((plan now ttl (some c)).action ≡ surge_up)
      ↔ (IsSurging now ttl c × MayStart c (surge_phase c) (stale_requests c))
  plan-surge_up_iff = (
    λ h.
        let (s, e) = by_machine surge_up refl h in
        (s, may_start (surge_phase c) c (stale_requests c) now e),
    λ p.
        rw (plan_of_IsSurging now ttl c p.0)
          (ap (λ d. d.action) (starts c (surge_phase c) (stale_requests c) now p.1)),
  )

  -- The count is dropped exactly when the guards pass, the phase is wait-up, the count is one above
  -- the original, and the replacement has landed: the fresh provisioned members and the stale ones
  -- are together at least one more than the original count, and at least one member is fresh.
  pub plan-surge_down_iff : ((plan now ttl (some c)).action ≡ surge_down) ↔ (
      IsSurging now ttl c
      × ((p : SurgePhaseState) × MayDrop c (surge_phase c) (stale_requests c) p))
  plan-surge_down_iff = (
    λ h.
        let (s, e) = by_machine surge_down refl h in
        (s, may_drop (surge_phase c) c (stale_requests c) now e),
    λ p.
        rw (plan_of_IsSurging now ttl c p.0)
          (ap (λ d. d.action) (drops c (surge_phase c) (stale_requests c) now p.1.0 p.1.1)),
  )

  -- A cycle is complete exactly when the guards pass, the phase is wait-down, the count is the
  -- original one, and no more requests than that are left.
  pub plan-surge_cycle_complete_iff :
      ((plan now ttl (some c)).action ≡ surge_cycle_complete)
      ↔ (IsSurging now ttl c × ((p : SurgePhaseState) × MayFinish c (surge_phase c) p))
  plan-surge_cycle_complete_iff = (
    λ h.
        let (s, e) = by_machine surge_cycle_complete refl h in
        (s, may_finish (surge_phase c) c (stale_requests c) now e),
    λ p.
        rw (plan_of_IsSurging now ttl c p.0)
          (finishes c (surge_phase c) (stale_requests c) now p.1.0 p.1.1),
  )

  -- A cycle is aborted exactly when the guards pass and a phase is in flight that has no known
  -- name, or whose expected count is not the live one.
  plan-surge_aborted_iff : ((plan now ttl (some c)).action ≡ surge_aborted) ↔ (
      IsSurging now ttl c
      × ((p : SurgePhaseState) × (surge_phase c ≡ some p) × HasDrifted c p.phase p.original_count))
  plan-surge_aborted_iff = (
    λ h.
        let (s, e) = by_machine surge_aborted refl h in
        (s, may_abort (surge_phase c) c (stale_requests c) now e),
    λ p.
        rw (plan_of_IsSurging now ttl c p.0)
          (aborts (surge_phase c) c (stale_requests c) now p.1.0 p.1.1 p.1.2),
  )
