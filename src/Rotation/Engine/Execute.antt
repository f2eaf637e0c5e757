-- ===== src/Rotation/Engine/Execute.antt =====
-- `Engine.Execute` and the operations below it, over the state client of Omni.
pub mod Effects
pub mod Frame
pub mod Ownership
pub mod Requests
use omni_infra_provider_true.Base.{
  ℕ, ◌≡◌, refl, Bool, true, false, not, Option, none, some, String, str_eq, if◌then◌else◌,
}
use omni_infra_provider_true.Base.Int.{ℤ, pos, negsuc}
use omni_infra_provider_true.Base.Result.{Result, ok, err}
use omni_infra_provider_true.Clock.{Time}
use omni_infra_provider_true.Omni.{MachineSet, MachineClass, MachineRequest}
use omni_infra_provider_true.Omni.Store.{Store, StateError, UpdateError}
use omni_infra_provider_true.Rotation.Candidate.{Candidate, surge_phase}
use omni_infra_provider_true.Rotation.Decision.{
  Action, Decision, no_action, locked_by_prior_step, waiting_for_ready, waiting_for_teardown,
  min_healthy_floor, teardown_stale, surge_up, surge_down, surge_cycle_complete, surge_aborted,
  stamp_generation, refresh_lock, other_action,
}
use omni_infra_provider_true.Rotation.Plan.{is_none}
use omni_infra_provider_true.Rotation.Engine.{
  StepError, ExecuteError, nil_candidate, not_actionable, unknown_action, foreign_provider,
  foreign_set, refetch_failed, destroy_failed, write_failed, Written, stamp_class, lock_set,
  unlock_set, clear_set, surge_step, label_or_empty,
}

-- The Omni state: one client for each type of resource.
pub record World (sets : Store MachineSet) (classes : Store MachineClass)
    (requests : Store MachineRequest) : Type 0 where
  pub machine_sets : sets.State
  pub machine_classes : classes.State
  pub machine_requests : requests.State

abbrev pub Outcome : Type 0
Outcome = Result ExecuteError (Unit {0})

written {ℓ} : {A : Type ℓ} → Result (UpdateError StepError) A → Outcome
written (ok a) = ok tt
written (err e) = err (write_failed e)

destroyed : Result StateError (Unit {0}) → Outcome
destroyed (ok a) = ok tt
destroyed (err e) = err (destroy_failed e)

-- The refetched request still belongs to this provider and to the set that `Plan` saw.
check_labels : String → String → Result StateError MachineRequest → Outcome
check_labels provider_id set_id (err e) = err (refetch_failed e)
check_labels provider_id set_id (ok mr) =
    if not (str_eq (label_or_empty mr.labels.infra_provider_id) provider_id)
    then err foreign_provider
    else if not (str_eq (label_or_empty mr.labels.machine_request_set) set_id)
    then err foreign_set
    else ok tt

module _ (sets : Store MachineSet) (classes : Store MachineClass)
    (requests : Store MachineRequest) where
  abbrev Step : Type 0
  Step = World sets classes requests → Outcome × World sets classes requests

  -- An update of a MachineSet, with the error that the caller reports.
  unfoldable pub update_set : String → (MachineSet → Written MachineSet) → Step
  unfolding written
  update_set id f w =
      let (res, after) = sets.update StepError (Unit {0}) w.machine_sets id f in
      (written res, record w { machine_sets = after })

  unfoldable pub set_lock : Candidate → Time → Step
  unfolding update_set
  set_lock c now w = update_set c.machine_set.id (lock_set c.current_generation now) w

  unfoldable pub clear_lock : Candidate → Step
  unfolding update_set
  clear_lock c w = update_set c.machine_set.id unlock_set w

  unfoldable pub clear_surge_and_lock : Candidate → Step
  unfolding update_set
  clear_surge_and_lock c w = update_set c.machine_set.id clear_set w

  unfoldable pub stamp : Candidate → Step
  unfolding written
  stamp c w =
      let (res, after) =
        classes.update StepError (Unit {0}) w.machine_classes c.machine_class.id
          (stamp_class c.current_generation) in
      (written res, record w { machine_classes = after })

  -- The destruction that follows the checks.
  destroy_after : Outcome → String → Step
  unfolding destroyed
  destroy_after (err e) request_id w = (err e, w)
  destroy_after (ok a) request_id w =
      let (res, after) = requests.destroy w.machine_requests request_id in
      (destroyed res, record w { machine_requests = after })

  -- Without a provider ID the checks are skipped.
  unfoldable pub teardown_request : String → String → String → Step
  unfolding destroy_after check_labels
  teardown_request provider_id set_id request_id w =
      destroy_after
        (if str_eq provider_id ""
          then ok tt
          else check_labels provider_id set_id (requests.get w.machine_requests request_id))
        request_id w

  -- On an error of the action the lock stays; an error of the release is only logged.
  release_after :
      Candidate → Outcome × World sets classes requests → Outcome × World sets classes requests
  unfolding clear_lock
  release_after c (err e, w) = (err e, w)
  release_after c (ok a, w) = (ok tt, (clear_lock c w).1)

  act_locked :
      Candidate
      → Step
      → Outcome × World sets classes requests
      → Outcome × World sets classes requests
  unfolding release_after
  act_locked c action (err e, w) = (err e, w)
  act_locked c action (ok a, w) = release_after c (action w)

  unfoldable pub with_lock : Candidate → Time → Step → Step
  unfolding set_lock act_locked
  with_lock c now action w = act_locked c action (set_lock c now w)

  unfoldable pub with_surge_step : Candidate → Decision → Time → ℤ → Step
  unfolding update_set
  with_surge_step c d now delta w =
      update_set c.machine_set.id (surge_step c.current_generation now d.surge_next delta) w

  -- A wait in the middle of a surge cycle keeps the lock fresh.
  not_actionable_after :
      Outcome × World sets classes requests → Outcome × World sets classes requests
  not_actionable_after (err e, w) = (err e, w)
  not_actionable_after (ok a, w) = (err not_actionable, w)

  unfoldable pub wait : Candidate → Time → Step
  unfolding set_lock not_actionable_after
  wait c now w =
      if is_none (surge_phase c)
      then (err not_actionable, w)
      else not_actionable_after (set_lock c now w)

  execute_action : Action → String → Candidate → Decision → Time → Step
  unfolding wait set_lock stamp with_lock teardown_request with_surge_step clear_surge_and_lock
  execute_action no_action provider_id c d now w = wait c now w
  execute_action locked_by_prior_step provider_id c d now w = wait c now w
  execute_action waiting_for_ready provider_id c d now w = wait c now w
  execute_action waiting_for_teardown provider_id c d now w = wait c now w
  execute_action min_healthy_floor provider_id c d now w = wait c now w
  execute_action refresh_lock provider_id c d now w = set_lock c now w
  execute_action stamp_generation provider_id c d now w = stamp c w
  execute_action teardown_stale provider_id c d now w =
      with_lock c now (teardown_request provider_id c.machine_set.id d.target_request_id) w
  execute_action surge_up provider_id c d now w = with_surge_step c d now (pos 1) w
  execute_action surge_down provider_id c d now w = with_surge_step c d now (negsuc 0) w
  execute_action surge_cycle_complete provider_id c d now w = clear_surge_and_lock c w
  execute_action surge_aborted provider_id c d now w = clear_surge_and_lock c w
  execute_action (other_action s) provider_id c d now w = (err unknown_action, w)

  execute_on : Option Candidate → String → Decision → Time → Step
  unfolding execute_action
  execute_on none provider_id d now w = (err nil_candidate, w)
  execute_on (some c) provider_id d now w = execute_action d.action provider_id c d now w

  -- `Engine.Execute`, for the engine's provider ID ("" for none) at the clock's time.
  unfoldable pub execute : String → Decision → Time → Step
  unfolding execute_on
  execute provider_id d now w = execute_on d.candidate provider_id d now w
