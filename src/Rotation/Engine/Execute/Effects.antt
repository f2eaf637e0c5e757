-- ===== src/Rotation/Engine/Execute/Effects.antt =====
-- What a successful step leaves on the live MachineSet, and what no step touches.
use omni_infra_provider_true.Base.{
  ℕ, ◌+◌, ◌-◌, ◌%◌, ◌<◌, ◌≡◌, ◌⊎◌, refl, sym, ap, ◌∙◌, Option, none, some, arith, String, inl, inr,
}
use omni_infra_provider_true.Base.Int.{pos, negsuc, ◌+ℤ◌, u32_mod}
use omni_infra_provider_true.Base.Result.{Result, ok, err}
use omni_infra_provider_true.Clock.{Time}
use omni_infra_provider_true.Text.{Text}
use omni_infra_provider_true.Omni.{MachineSet, MachineClass, MachineRequest, Allocation}
use omni_infra_provider_true.Omni.Store.{Store, UpdateError}
use omni_infra_provider_true.Rotation.Annotations.{
  annotation_rotation_state, annotation_surge_phase,
}
use omni_infra_provider_true.Rotation.Lock.{format_rotation_state_annotation}
use omni_infra_provider_true.Rotation.Phase.{SurgePhaseState, format_surge_phase_annotation}
use omni_infra_provider_true.Rotation.Candidate.{Candidate}
use omni_infra_provider_true.Rotation.Decision.{
  Action, Decision, surge_up, surge_down, surge_cycle_complete, surge_aborted,
}
use omni_infra_provider_true.Rotation.Engine.{StepError, Written, surge_step, step_on, clear_set}
use omni_infra_provider_true.Rotation.Engine.Execute.{
  World, Outcome, update_set, execute, execute_on, execute_action, written, with_surge_step,
  clear_surge_and_lock,
}

-- A surge step that succeeds on a live set: its lock, its phase and its count, all three.
pub record IsStepped (generation : Text) (now : Time) (next : SurgePhaseState) (count : ℕ)
    (after : MachineSet) : Type 0 where
  pub locked :
      after.annotations annotation_rotation_state
      ≡ some (format_rotation_state_annotation generation now)
  pub phased : after.annotations annotation_surge_phase ≡ some (format_surge_phase_annotation next)
  pub counted : (a : Allocation) × (after.allocation ≡ some a) × (a.machine_count ≡ count)

up_of_step :
    (o : Option Allocation) (base after : MachineSet)
    → step_on o (pos 1) base ≡ ok (tt, after)
    → (a : Allocation) × (o ≡ some a)
      × (after ≡ record base {
        allocation = some (record a { machine_count = (a.machine_count + 1) % u32_mod });
      })
unfolding step_on ◌+ℤ◌
up_of_step none base after h = absurd (cc h)
up_of_step (some a) base after h = (a, refl, ground arith)

down_of_step :
    (o : Option Allocation) (base after : MachineSet)
    → step_on o (negsuc 0) base ≡ ok (tt, after)
    → (a : Allocation) × (o ≡ some a)
      × (0 < a.machine_count)
      × (after ≡ record base {
        allocation = some (record a { machine_count = (a.machine_count - 1) % u32_mod });
      })
unfolding step_on ◌+ℤ◌
down_of_step none base after h = absurd (cc h)
down_of_step (some a) base after h = (a, refl, ground arith, ground arith)

written_ok :
    {R : Type 0} (r : Result (UpdateError StepError) (Unit {0} × R))
    → written r ≡ ok tt
    → (a : Unit {0} × R) × (r ≡ ok a)
unfolding written
written_ok (ok a) h = (a, refl)
written_ok (err e) h = absurd (cc h)

module _ (sets : Store MachineSet) (classes : Store MachineClass) (requests : Store MachineRequest)
    (w : World sets classes requests) where
  -- An update of a set that succeeds has applied its mutator to the live set.
  update_set_ok :
      (id : String) (f : MachineSet → Written MachineSet)
      → (update_set sets classes requests id f w).0 ≡ ok tt
      → (live : MachineSet) × (after : MachineSet) × (sets.read w.machine_sets id ≡ some live)
        × (f live ≡ ok (tt, after))
        × (sets.read (update_set sets classes requests id f w).1.machine_sets id ≡ some after)
  unfolding update_set
  update_set_ok id f h =
      let ((u, after), e) = written_ok (sets.update StepError (Unit {0}) w.machine_sets id f).0 h in
      let (live, before, applied, stored) =
        sets.update_ok StepError (Unit {0}) w.machine_sets id f u after e in
      (live, after, before, applied, stored)

  module _ (provider_id : String) (c : Candidate) (d : Decision) (now : Time)
      (about : d.candidate ≡ some c) where
    abbrev run : Outcome × World sets classes requests
    run = execute sets classes requests provider_id d now w

    run_action :
        (a : Action)
        → d.action ≡ a
        → run ≡ execute_action sets classes requests a provider_id c d now w
    unfolding execute
    run_action a e =
        ap (λ o. execute_on sets classes requests o provider_id d now w) about
        ∙ ap (λ x. execute_action sets classes requests x provider_id c d now w) e

    abbrev set_after : Option MachineSet
    set_after = sets.read run.1.machine_sets c.machine_set.id

    -- A step that writes the set by a mutator, and succeeds.
    run_update :
        (f : MachineSet → Written MachineSet)
        → run ≡ update_set sets classes requests c.machine_set.id f w
        → run.0 ≡ ok tt
        → (live : MachineSet) × (after : MachineSet) × (sets.read w.machine_sets c.machine_set.id
            ≡ some live)
          × (f live ≡ ok (tt, after))
          × (set_after ≡ some after)
    run_update f e h =
        let (live, after, before, applied, stored) =
          update_set_ok c.machine_set.id f (sym (ap (λ r. r.0) e) ∙ h) in
        (
          live,
          after,
          before,
          applied,
          ap (λ r. sets.read r.1.machine_sets c.machine_set.id) e ∙ stored,
        )

    -- A surge-up that succeeds has, in one write on the live set, taken the lock, set the phase and
    -- raised the count by one (a uint32).
    execute-surge_up :
        d.action ≡ surge_up
        → run.0 ≡ ok tt
        → (live : MachineSet) × (after : MachineSet) × (a : Allocation) × (sets.read w.machine_sets
              c.machine_set.id
            ≡ some live)
          × (live.allocation ≡ some a)
          × (set_after ≡ some after)
          × IsStepped c.current_generation now d.surge_next ((a.machine_count + 1) % u32_mod) after
    unfolding with_surge_step surge_step execute_action
    execute-surge_up e h =
        let (live, after, before, applied, stored) =
          run_update (surge_step c.current_generation now d.surge_next (pos 1))
            (run_action surge_up e) h in
        let (a, allocated, result) = up_of_step live.allocation _ after applied in
        (
          live,
          after,
          a,
          before,
          allocated,
          stored,
          rw result (record { locked = refl; phased = refl; counted = (_, refl, refl) }),
        )

    -- A surge-down that succeeds found a positive count, and lowered it by one in the same write as
    -- the lock and the phase.
    execute-surge_down :
        d.action ≡ surge_down
        → run.0 ≡ ok tt
        → (live : MachineSet) × (after : MachineSet) × (a : Allocation) × (sets.read w.machine_sets
              c.machine_set.id
            ≡ some live)
          × (live.allocation ≡ some a)
          × (0 < a.machine_count)
          × (set_after ≡ some after)
          × IsStepped c.current_generation now d.surge_next ((a.machine_count - 1) % u32_mod) after
    unfolding with_surge_step surge_step execute_action
    execute-surge_down e h =
        let (live, after, before, applied, stored) =
          run_update (surge_step c.current_generation now d.surge_next (negsuc 0))
            (run_action surge_down e) h in
        let (a, allocated, positive, result) = down_of_step live.allocation _ after applied in
        (
          live,
          after,
          a,
          before,
          allocated,
          positive,
          stored,
          rw result (record { locked = refl; phased = refl; counted = (_, refl, refl) }),
        )

    -- A completed or aborted cycle that is executed with success leaves neither a lock nor a phase,
    -- and the count and labels as they were.
    execute-clear :
        (d.action ≡ surge_cycle_complete) ⊎ (d.action ≡ surge_aborted)
        → run.0 ≡ ok tt
        → (live : MachineSet) × (after : MachineSet) × (sets.read w.machine_sets c.machine_set.id
            ≡ some live)
          × (set_after ≡ some after)
          × (after.annotations annotation_rotation_state ≡ none)
          × (after.annotations annotation_surge_phase ≡ none)
          × (after.allocation ≡ live.allocation)
          × (after.labels ≡ live.labels)
    unfolding clear_surge_and_lock execute_action clear_set
    execute-clear e h =
        let by_clear : run ≡ update_set sets classes requests c.machine_set.id clear_set w =
          elim e [
            | inl x ↦ run_action surge_cycle_complete x
            | inr x ↦ run_action surge_aborted x
          ] in
        let (live, after, before, applied, stored) = run_update clear_set by_clear h in
        (live, after, before, stored, ground arith, ground arith, ground arith, ground arith)
