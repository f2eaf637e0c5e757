-- ===== src/Rotation/Engine/Execute/Requests.antt =====
-- A step that is no teardown destroys nothing.
use omni_infra_provider_true.Base.{◌≡◌, ◌≢◌, refl, ap, ◌∙◌, some, String, Bool-cases, inl, inr}
use omni_infra_provider_true.Base.Result.{ok, err}
use omni_infra_provider_true.Clock.{Time}
use omni_infra_provider_true.Omni.{MachineSet, MachineClass, MachineRequest}
use omni_infra_provider_true.Omni.Store.{Store}
use omni_infra_provider_true.Rotation.Candidate.{Candidate, surge_phase}
use omni_infra_provider_true.Rotation.Decision.{Action, Decision, teardown_stale}
use omni_infra_provider_true.Rotation.Plan.{is_none}
use omni_infra_provider_true.Rotation.Engine.Execute.{
  World, Outcome, execute, execute_on, execute_action, wait, not_actionable_after, set_lock,
}

module _ (sets : Store MachineSet) (classes : Store MachineClass) (requests : Store MachineRequest)
    (provider_id : String) (c : Candidate) (d : Decision) (now : Time)
    (w : World sets classes requests) where
  after_wait :
      (r : Outcome × World sets classes requests)
      → (not_actionable_after sets classes requests r).1.machine_requests ≡ r.1.machine_requests
  unfolding not_actionable_after
  after_wait (err e, w') = refl
  after_wait (ok a, w') = refl

  wait_keeps : (wait sets classes requests c now w).1.machine_requests ≡ w.machine_requests
  unfolding wait
  wait_keeps = elim (Bool-cases (is_none (surge_phase c))) [
    | inl e ↦ rw e refl
    | inr e ↦ rw e (after_wait (set_lock sets classes requests c now w))
  ]

  action_keeps :
      (a : Action)
      → a ≢ teardown_stale
      → (execute_action sets classes requests a provider_id c d now w).1.machine_requests
        ≡ w.machine_requests
  unfolding execute_action
  action_keeps Action.no_action other = wait_keeps
  action_keeps Action.locked_by_prior_step other = wait_keeps
  action_keeps Action.waiting_for_ready other = wait_keeps
  action_keeps Action.waiting_for_teardown other = wait_keeps
  action_keeps Action.min_healthy_floor other = wait_keeps
  action_keeps Action.teardown_stale other = absurd (other refl)
  action_keeps _ other = refl

  -- Whatever a step does to sets and classes, the requests stay, unless it is a teardown.
  pub execute_keeps_requests :
      d.candidate ≡ some c
      → d.action ≢ teardown_stale
      → (execute sets classes requests provider_id d now w).1.machine_requests ≡ w.machine_requests
  unfolding execute execute_on
  execute_keeps_requests about other =
      ap (λ o. (execute_on sets classes requests o provider_id d now w).1.machine_requests) about
      ∙ action_keeps d.action other
