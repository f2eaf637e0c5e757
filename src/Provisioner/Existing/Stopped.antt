-- ===== src/Provisioner/Existing/Stopped.antt =====
-- What a reconcile does with a machine that is neither running nor in ERROR.
use omni_infra_provider_true.Base.{◌≡◌, refl, true, false, [], ◌∷◌, str_eq}
use omni_infra_provider_true.Text.{Text}
use omni_infra_provider_true.Provisioner.Deprovision.{is_omni_managed_vm}
use omni_infra_provider_true.Provisioner.Existing.{
  Limits, Counters, Vm, start_vm, Start, started, no_memory, start_failed, Answers, started_again,
  handle_existing_vm,
}

restart_calls :
    (cfg : Limits) (a : Answers) (vm : Vm) (name : Text) (c : Counters) (s : Start)
    → (started_again cfg a vm name c s).1 ≡ start_vm vm.id ∷ []
unfolding started_again
restart_calls cfg a vm name c started = refl
restart_calls cfg a vm name c no_memory = refl
restart_calls cfg a vm name c start_failed = refl

-- A machine of the provider that is neither running nor in ERROR is started, and nothing else.
pub handle_existing_vm-stopped :
    (cfg : Limits) (a : Answers) (vm : Vm) (name : Text) (c : Counters)
    → is_omni_managed_vm vm.description ≡ true
    → str_eq vm.state "RUNNING" ≡ false
    → str_eq vm.state "ERROR" ≡ false
    → (handle_existing_vm cfg a vm name c).1 ≡ start_vm vm.id ∷ []
unfolding handle_existing_vm
handle_existing_vm-stopped cfg a vm name c ours off good =
    simp (ours, off, good) (restart_calls cfg a vm name c a.start)
