-- ===== src/Rotation/Tests.antt =====
-- Instances and tests of the theorems on node rotation.
use omni_infra_provider_true.Omni.Store.{Store}
use omni_infra_provider_true.Rotation.Phase.{wait_down}
use omni_infra_provider_true.Base.{
  inl, ap, str_eq, ◌≡◌, ◌≢◌, refl, ◌↔◌, [], ◌∷◌, some, select, count_if, arith,
}
use omni_infra_provider_true.Clock.{unix_seconds}
use omni_infra_provider_true.Text.{text_eq}
use omni_infra_provider_true.Rotation.Annotations.{surge, in_place}
use omni_infra_provider_true.Rotation.Phase.{SurgePhaseState, wait_up}
use omni_infra_provider_true.Rotation.Candidate.{
  Candidate, fresh_count, stale_requests, surge_phase, count_stale_provisioned,
}
use omni_infra_provider_true.Rotation.Decision.{
  teardown_stale, surge_up, surge_down, surge_cycle_complete,
}
use omni_infra_provider_true.Rotation.Engine.{default_lock_ttl}
use omni_infra_provider_true.Rotation.Plan.{plan, stamped_generation}
use omni_infra_provider_true.Rotation.Plan.InPlace.{
  MayTearDown, plan-teardown_iff, plan-all_stale_stuck,
}
use omni_infra_provider_true.Rotation.Plan.Guards.{IsSurging}
use omni_infra_provider_true.Rotation.Plan.Legs.{MayStart, MayDrop, MayFinish}
use omni_infra_provider_true.Rotation.Plan.Surge.{
  plan-surge_up_iff, plan-surge_down_iff, plan-surge_cycle_complete_iff,
}
use omni_infra_provider_true.Rotation.Cycle.{IsReady, Cycle}
use omni_infra_provider_true.Rotation.Cycle.Once.{Cycle-once}
use omni_infra_provider_true.Omni.{MachineSet, MachineClass, MachineRequest}
use omni_infra_provider_true.Omni.Memory.{memory}
use omni_infra_provider_true.Rotation.Engine.Execute.{execute, World}
use omni_infra_provider_true.Rotation.Engine.Execute.Ownership.{execute-foreign_request}
use omni_infra_provider_true.Rotation.Cycle.Rounds.{IsRotated, rotation_completes}
use omni_infra_provider_true.Rotation.Fixtures.{
  candidate, old_one, old_two, new_one, noon, surging, decided, home, workers_set, request,
}

-- All members are stale: min-healthy 1 blocks the in-place strategy.
plan-all_stale_stuck_example :
    (plan noon default_lock_ttl (some (candidate in_place 1 (old_one ∷ old_two ∷ [])))).action
    ≢ teardown_stale
unfolding fresh_count count_if
plan-all_stale_stuck_example =
    plan-all_stale_stuck noon default_lock_ttl (candidate in_place 1 (old_one ∷ old_two ∷ [])) refl
      (omega arith)

plan-teardown_iff_example :
    ((plan noon default_lock_ttl (some (candidate in_place 1 (old_one ∷ new_one ∷ [])))).action
      ≡ teardown_stale)
    ↔ ((victim : _) × MayTearDown noon default_lock_ttl
          (candidate in_place 1 (old_one ∷ new_one ∷ []))
          victim
        × ((plan noon default_lock_ttl
              (some (candidate in_place 1 (old_one ∷ new_one ∷ [])))).target_request_id
            ≡ victim.request.id))
plan-teardown_iff_example =
    plan-teardown_iff noon default_lock_ttl (candidate in_place 1 (old_one ∷ new_one ∷ []))

ready : IsReady (candidate surge 1 (old_one ∷ old_two ∷ []))
unfolding stamped_generation fresh_count stale_requests select count_if text_eq
    count_stale_provisioned
ready = record {
  stamped = refl;
  by_surge = refl;
  no_phase = refl;
  no_lock = refl;
  allocated = (record { name = "class"; machine_count = 2; allocation_type = _ }, refl, refl);
  below_max = omega arith;
  complete = refl;
  settled = refl;
  floor = omega arith;
}

rotation_completes_example :
    (c' : Candidate) × IsRotated noon default_lock_ttl 2
      (candidate surge 1 (old_one ∷ old_two ∷ []))
      c'
unfolding unix_seconds
rotation_completes_example =
    rotation_completes noon default_lock_ttl (λ i. new_one) (λ i. refl) (omega arith)
      (old_one ∷ old_two ∷ []) [] (candidate surge 1 (old_one ∷ old_two ∷ [])) ready refl
      (refl, (refl, tt)) tt

abbrev fleet : Candidate
fleet = candidate surge 1 (old_one ∷ old_two ∷ [])

Cycle-once_example :
    (c' : Candidate) × Cycle default_lock_ttl fleet c' (old_two ∷ []) new_one
    × IsReady c'
    × (c'.requests ≡ old_two ∷ new_one ∷ [])
    × (stale_requests fleet ≡ old_one ∷ stale_requests c')
    × (c'.machine_count ≡ 2)
unfolding unix_seconds
Cycle-once_example =
    Cycle-once fleet default_lock_ttl noon noon noon old_one new_one (old_two ∷ []) ready refl refl
      refl (omega arith)

plan-surge_up_iff_example : ((plan noon default_lock_ttl (some fleet)).action ≡ surge_up) ↔ (
    IsSurging noon default_lock_ttl fleet
    × MayStart fleet (surge_phase fleet) (stale_requests fleet))
plan-surge_up_iff_example = plan-surge_up_iff noon default_lock_ttl fleet

abbrev raised_fleet : Candidate
raised_fleet = surging wait_up 3 (old_one ∷ old_two ∷ new_one ∷ [])

plan-surge_down_iff_example :
    ((plan noon default_lock_ttl (some raised_fleet)).action ≡ surge_down) ↔ (
      IsSurging noon default_lock_ttl raised_fleet
      × ((p : SurgePhaseState) × MayDrop raised_fleet
            (surge_phase raised_fleet)
            (stale_requests raised_fleet)
            p))
plan-surge_down_iff_example = plan-surge_down_iff noon default_lock_ttl raised_fleet

abbrev dropped_fleet : Candidate
dropped_fleet = surging wait_down 2 (old_two ∷ new_one ∷ [])

plan-surge_cycle_complete_iff_example :
    ((plan noon default_lock_ttl (some dropped_fleet)).action ≡ surge_cycle_complete) ↔ (
      IsSurging noon default_lock_ttl dropped_fleet
      × ((p : SurgePhaseState) × MayFinish dropped_fleet (surge_phase dropped_fleet) p))
plan-surge_cycle_complete_iff_example =
    plan-surge_cycle_complete_iff noon default_lock_ttl dropped_fleet

abbrev sets : Store MachineSet
sets = memory MachineSet

abbrev classes : Store MachineClass
classes = memory MachineClass

abbrev requests : Store MachineRequest
requests = memory MachineRequest

abbrev world : World sets classes requests
world = home (workers_set 2)

execute-foreign_request_example :
    (execute sets classes requests "other" (decided teardown_stale) noon world).1.machine_requests
    ≡ world.machine_requests
unfolding memory
execute-foreign_request_example =
    execute-foreign_request sets classes requests "other" fleet (decided teardown_stale) noon world
      (request "old-1" noon) (λ e. absurd (cc (ap (λ s. str_eq s "") e))) refl refl refl (inl refl)
