-- ===== src/Rotation/Engine/Execute/Ownership.antt =====
-- A teardown destroys nothing that belongs to another provider or another set.
use omni_infra_provider_true.Base.{
  ◌≡◌, ◌≢◌, ◌⊎◌, refl, sym, ap, subst, ◌∙◌, some, arith, false, String, str_eq, eq_iff,
}
use omni_infra_provider_true.Base.Result.{Result, ok, err}
use omni_infra_provider_true.Clock.{Time}
use omni_infra_provider_true.Omni.{MachineSet, MachineClass, MachineRequest}
use omni_infra_provider_true.Omni.Store.{Store, StateError}
use omni_infra_provider_true.Rotation.Candidate.{Candidate}
use omni_infra_provider_true.Rotation.Decision.{Decision, teardown_stale}
use omni_infra_provider_true.Rotation.Engine.{label_or_empty}
use omni_infra_provider_true.Rotation.Engine.Execute.{
  World, Outcome, update_set, set_lock, clear_lock, destroy_after, teardown_request, release_after,
  act_locked, with_lock, execute, execute_on, execute_action, check_labels,
}

-- A live request that is not this provider's, or not of this set.
abbrev pub IsForeign : String → String → MachineRequest → Type 0
IsForeign provider_id set_id mr =
    (str_eq (label_or_empty mr.labels.infra_provider_id) provider_id ≡ false)
    ⊎ (str_eq (label_or_empty mr.labels.machine_request_set) set_id ≡ false)

module _ (sets : Store MachineSet) (classes : Store MachineClass)
    (requests : Store MachineRequest) where
  abbrev W : Type 0
  W = World sets classes requests

  -- The refetch of a foreign request does not pass the check.
  refused :
      (provider_id set_id : String) (mr : MachineRequest) (r : Result StateError MachineRequest)
      → IsForeign provider_id set_id mr
      → ((live : MachineRequest) → r ≡ ok live → live ≡ mr)
      → check_labels provider_id set_id r ≢ ok tt
  unfolding check_labels
  refused provider_id set_id mr (err e) foreign same = λ h. cc h
  refused provider_id set_id mr (ok live) foreign same =
      let mine : IsForeign provider_id set_id live =
        subst (IsForeign provider_id set_id) (sym (same live refl)) foreign in
      ground arith

  refused_keeps :
      (o : Outcome) (id : String) (w : W)
      → o ≢ ok tt
      → (destroy_after sets classes requests o id w).1 ≡ w
  unfolding destroy_after
  refused_keeps (err e) id w h = refl
  refused_keeps (ok a) id w h = absurd (h refl)

  teardown_keeps :
      (provider_id set_id id : String) (mr : MachineRequest) (w : W)
      → provider_id ≢ ""
      → requests.read w.machine_requests id ≡ some mr
      → IsForeign provider_id set_id mr
      → (teardown_request sets classes requests provider_id set_id id w).1 ≡ w
  unfolding teardown_request
  teardown_keeps provider_id set_id id mr w named live foreign =
      let known : str_eq provider_id "" ≡ false = ground (arith, eq_iff provider_id "") in
      rw known (
        refused_keeps (check_labels provider_id set_id (requests.get w.machine_requests id)) id w (
          refused provider_id set_id mr (requests.get w.machine_requests id) foreign
            (λ found e. cc (requests.get_ok w.machine_requests id found e, live))))

  module _ (c : Candidate) (request_id provider_id : String) (mr : MachineRequest)
      (named : provider_id ≢ "") (foreign : IsForeign provider_id c.machine_set.id mr) where
    release_keeps :
        (r : Outcome × W)
        → (release_after sets classes requests c r).1.machine_requests ≡ r.1.machine_requests
    unfolding release_after clear_lock update_set
    release_keeps (err e, w) = refl
    release_keeps (ok a, w) = refl

    locked_keeps :
        (r : Outcome × W)
        → requests.read r.1.machine_requests request_id ≡ some mr
        → (act_locked sets classes requests c
            (teardown_request sets classes requests provider_id c.machine_set.id request_id)
            r).1.machine_requests
          ≡ r.1.machine_requests
    unfolding act_locked
    locked_keeps (err e, w) live = refl
    locked_keeps (ok a, w) live =
        release_keeps
          (teardown_request sets classes requests provider_id c.machine_set.id request_id w)
        ∙ ap (λ v. v.machine_requests)
            (teardown_keeps provider_id c.machine_set.id request_id mr w named live foreign)

  -- With a provider ID configured, a request that was relabelled to another provider or another set
  -- between `Plan` and `Execute` is not destroyed: the teardown leaves all requests as they were.
  pub execute-foreign_request :
      (provider_id : String) (c : Candidate) (d : Decision) (now : Time) (w : W)
      (mr : MachineRequest)
      → provider_id ≢ ""
      → d.candidate ≡ some c
      → d.action ≡ teardown_stale
      → requests.read w.machine_requests d.target_request_id ≡ some mr
      → IsForeign provider_id c.machine_set.id mr
      → (execute sets classes requests provider_id d now w).1.machine_requests ≡ w.machine_requests
  unfolding execute execute_on execute_action with_lock set_lock update_set
  execute-foreign_request provider_id c d now w mr named about acts live foreign =
      ap (λ o. (execute_on sets classes requests o provider_id d now w).1.machine_requests) about
      ∙ ap (λ a. (execute_action sets classes requests a provider_id c d now w).1.machine_requests)
          acts
      ∙ locked_keeps c d.target_request_id provider_id mr named foreign
          (set_lock sets classes requests c now w) live
