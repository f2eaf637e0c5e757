-- ===== src/Provisioner/Create/Machine/Unfinished.antt =====
-- What the reconcile after a failed attachment makes of the machine that was created.
use omni_infra_provider_true.Base.{
  ℕ, ◌≡◌, refl, Bool, true, false, [], ◌∷◌, none, some, select, Bool-cases, inl, inr,
}
use omni_infra_provider_true.Base.Result.{err}
use omni_infra_provider_true.Text.{Text, text_eq}
use omni_infra_provider_true.Meta.{omni_vm_description, has_prefix, after_prefix}
use omni_infra_provider_true.Provisioner.Deprovision.{is_omni_managed_vm}
use omni_infra_provider_true.Provisioner.Existing.{
  Limits, Counters, Vm, VmCall, Answers, handle_existing_vm,
}
use omni_infra_provider_true.Provisioner.Existing as Existing
use omni_infra_provider_true.Provisioner.Existing.Stopped.{handle_existing_vm-stopped}
use omni_infra_provider_true.Provisioner.Create.{
  CreateVmRequest, HostCall, create_vm, CreateHost, iso_refused, made, must, ensure, created,
  sealed_with, ensure_encrypted_zvol, ensure_zvol,
}
use omni_infra_provider_true.Provisioner.Create.Machine.{
  NetHost, Request, zvol_path, ensure_prefix, vm_request, make_vm,
}
use omni_infra_provider_true.Provisioner.Create.Machine.Trace.{is_device}

-- The machine that a call made, stopped.
abbrev pub made_machine : ℕ → CreateVmRequest → Vm
made_machine id request = record { id = id; state = "STOPPED"; description = request.description }

vm_request-managed :
    (net : NetHost) (r : Request) → is_omni_managed_vm (vm_request net r).description ≡ true
unfolding vm_request is_omni_managed_vm has_prefix after_prefix omni_vm_description
vm_request-managed net r = refl

-- A failure right after the machine is made: no device is attached yet.
module _ (sha256 : Text → ℕ → ℕ) (is_cidr : Text → Bool) (host : CreateHost) (net : NetHost)
    (r : Request) where
  -- Where every call goes through and a passphrase can be generated, but the image fails its check
  -- before the boot, the machine is left without a device; and the next reconcile, which finds it
  -- stopped under the description that it was created with, only starts it.
  pub make_vm-unfinished :
      (cfg : Limits) (a : Answers) (name : Text) (c : Counters)
      → ((call : HostCall) → host.failure call ≡ none)
      → ((place : ℕ) (path : Text) → host.dataset_failure place path ≡ none)
      → (passphrase : Text) × (host.new_passphrase (zvol_path r) ≡ some passphrase)
      → net.iso_verified ≡ false
      → ((make_vm sha256 is_cidr host net r).0 ≡ err iso_refused)
        × (select is_device (make_vm sha256 is_cidr host net r).1
            ≡ create_vm (vm_request net r) ∷ [])
        × ((handle_existing_vm cfg a (made_machine host.new_vm_id (vm_request net r)) name c).1
            ≡ Existing.start_vm host.new_vm_id ∷ [])
  unfolding make_vm must ensure made ensure_zvol ensure_encrypted_zvol sealed_with created
      ensure_prefix select is_device
  make_vm-unfinished cfg a name c all ensured sealed refused =
      let machine = made_machine host.new_vm_id (vm_request net r) in
      let restarted =
        handle_existing_vm-stopped cfg a machine name c (vm_request-managed net r) refl refl in
      let (passphrase, new) = sealed in
      elim (Bool-cases (text_eq r.provider_data.dataset_prefix [])) [
        | inl p ↦ elim (Bool-cases r.provider_data.encrypted) [
          | inl e ↦ (
            simp (p, e, all, ensured, new, refused),
            simp (p, e, all, ensured, new, refused),
            restarted,
          )
          | inr e ↦ (
            simp (p, e, all, ensured, new, refused),
            simp (p, e, all, ensured, new, refused),
            restarted,
          )
        ]
        | inr p ↦ elim (Bool-cases r.provider_data.encrypted) [
          | inl e ↦ (
            simp (p, e, all, ensured, new, refused),
            simp (p, e, all, ensured, new, refused),
            restarted,
          )
          | inr e ↦ (
            simp (p, e, all, ensured, new, refused),
            simp (p, e, all, ensured, new, refused),
            restarted,
          )
        ]
      ]
