-- ===== src/Rotation/Engine/Execute/Frame.antt =====
-- What a step never touches: other sets, and the requests of others.
use omni_infra_provider_true.Base.{
  ◌≡◌, refl, ap, ◌∙◌, some, false, String, str_eq, inl, inr, Bool-cases,
}
use omni_infra_provider_true.Base.Int.{pos, negsuc}
use omni_infra_provider_true.Base.Result.{ok, err}
use omni_infra_provider_true.Clock.{Time}
use omni_infra_provider_true.Omni.{MachineSet, MachineClass, MachineRequest}
use omni_infra_provider_true.Omni.Store.{Store}
use omni_infra_provider_true.Rotation.Candidate.{Candidate, surge_phase}
use omni_infra_provider_true.Rotation.Decision.{
  Action, Decision, no_action, locked_by_prior_step, waiting_for_ready, waiting_for_teardown,
  min_healthy_floor, teardown_stale, surge_up, surge_down, surge_cycle_complete, surge_aborted,
  stamp_generation, refresh_lock, other_action,
}
use omni_infra_provider_true.Rotation.Plan.{is_none}
use omni_infra_provider_true.Rotation.Engine.{
  StepError, Written, lock_set, unlock_set, clear_set, surge_step,
}
use omni_infra_provider_true.Rotation.Engine.Execute.{
  World, Outcome, Step, update_set, set_lock, clear_lock, clear_surge_and_lock, stamp,
  destroy_after, teardown_request, release_after, act_locked, with_lock, with_surge_step,
  not_actionable_after, wait, execute, execute_on, execute_action,
}

module _ (sets : Store MachineSet) (classes : Store MachineClass)
    (requests : Store MachineRequest) where
  abbrev W : Type 0
  W = World sets classes requests

  module _ (j : String) (c : Candidate) (other : str_eq j c.machine_set.id ≡ false) where
    -- The set of another name is the same in two worlds.
    abbrev Same : W → W → Type 0
    Same v w = sets.read v.machine_sets j ≡ sets.read w.machine_sets j

    update-Same :
        (f : MachineSet → Written MachineSet) (w : W)
        → Same (update_set sets classes requests c.machine_set.id f w).1 w
    unfolding update_set
    update-Same f w =
        sets.update_frame StepError (Unit {0}) w.machine_sets c.machine_set.id j f other

    not_actionable-Same :
        (r : Outcome × W) → Same (not_actionable_after sets classes requests r).1 r.1
    unfolding not_actionable_after
    not_actionable-Same (err e, w) = refl
    not_actionable-Same (ok a, w) = refl

    wait-Same : (now : Time) (w : W) → Same (wait sets classes requests c now w).1 w
    unfolding wait set_lock
    wait-Same now w = elim (Bool-cases (is_none (surge_phase c))) [
      | inl idle ↦ rw idle
      | inr busy ↦ rw busy (
          not_actionable-Same (set_lock sets classes requests c now w)
          ∙ update-Same (lock_set c.current_generation now) w)
    ]

    release-Same : (r : Outcome × W) → Same (release_after sets classes requests c r).1 r.1
    unfolding release_after clear_lock
    release-Same (err e, w) = refl
    release-Same (ok a, w) = update-Same unlock_set w

    locked-Same :
        (action : Step sets classes requests)
        → ((w : W) → (action w).1.machine_sets ≡ w.machine_sets)
        → (r : Outcome × W) → Same (act_locked sets classes requests c action r).1 r.1
    unfolding act_locked
    locked-Same action keeps (err e, w) = refl
    locked-Same action keeps (ok a, w) = release-Same (action w) ∙ ap (λ s. sets.read s j) (keeps w)

  destroy_keeps_sets :
      (o : Outcome) (id : String) (w : W)
      → (destroy_after sets classes requests o id w).1.machine_sets ≡ w.machine_sets
  unfolding destroy_after
  destroy_keeps_sets (err e) id w = refl
  destroy_keeps_sets (ok a) id w = refl

  teardown_keeps_sets :
      (provider_id set_id id : String) (w : W)
      → (teardown_request sets classes requests provider_id set_id id w).1.machine_sets
        ≡ w.machine_sets
  unfolding teardown_request
  teardown_keeps_sets provider_id set_id id w = destroy_keeps_sets _ id w

  module _ (provider_id : String) (c : Candidate) (d : Decision) (now : Time) (w : W) where
    action_same :
        (j : String) (a : Action)
        → str_eq j c.machine_set.id ≡ false
        → sets.read (execute_action sets classes requests a provider_id c d now w).1.machine_sets j
          ≡ sets.read w.machine_sets j
    unfolding execute_action with_lock set_lock stamp with_surge_step clear_surge_and_lock
    action_same j no_action other = wait-Same j c other now w
    action_same j locked_by_prior_step other = wait-Same j c other now w
    action_same j waiting_for_ready other = wait-Same j c other now w
    action_same j waiting_for_teardown other = wait-Same j c other now w
    action_same j min_healthy_floor other = wait-Same j c other now w
    action_same j refresh_lock other = update-Same j c other (lock_set c.current_generation now) w
    action_same j stamp_generation other = refl
    action_same j teardown_stale other =
        locked-Same j c other
          (teardown_request sets classes requests provider_id c.machine_set.id d.target_request_id)
          (teardown_keeps_sets provider_id c.machine_set.id d.target_request_id)
          (set_lock sets classes requests c now w)
        ∙ update-Same j c other (lock_set c.current_generation now) w
    action_same j surge_up other =
        update-Same j c other (surge_step c.current_generation now d.surge_next (pos 1)) w
    action_same j surge_down other =
        update-Same j c other (surge_step c.current_generation now d.surge_next (negsuc 0)) w
    action_same j surge_cycle_complete other = update-Same j c other clear_set w
    action_same j surge_aborted other = update-Same j c other clear_set w
    action_same j (other_action s) other = refl

    -- Whatever is decided about a candidate, its execution leaves every other MachineSet as it was.
    execute_other_sets :
        (j : String)
        → d.candidate ≡ some c
        → str_eq j c.machine_set.id ≡ false
        → sets.read (execute sets classes requests provider_id d now w).1.machine_sets j
          ≡ sets.read w.machine_sets j
    unfolding execute execute_on
    execute_other_sets j about other =
        ap
          (λ o. sets.read (execute_on sets classes requests o provider_id d now w).1.machine_sets j)
          about
        ∙ action_same j d.action other
