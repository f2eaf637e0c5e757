-- ===== src/Cleanup/Machines.antt =====
-- What a cleanup cycle does with a machine that the provisioner has made, and with its volume.
use omni_infra_provider_true.Base.{
  ℕ, ◌≡◌, refl, Bool, true, false, not, ◌||◌, List, [], ◌∷◌, Option, any_of, if◌then◌else◌, arith,
}
use omni_infra_provider_true.Text.{Text, codes, text_eq, lacks}
use omni_infra_provider_true.Meta.{
  build_vm_name, omni_vm_description, parse_request_id_from_description-omni_vm_description,
}
use omni_infra_provider_true.Meta.Names.{is_alphanumeric, is_omni_vm_name-build_vm_name}
use omni_infra_provider_true.Cleanup.{
  stop_vm, delete_vm, delete_dataset, Vm, ManagedZvol, is_unknown, has_zvol, vm_reason, remove_vm,
  maybe_delete_orphan_vm, has_vm, zvol_reason, remove_zvol, maybe_delete_orphan_zvol,
}

not_empty : (s : Text) → any_of is_alphanumeric s ≡ true → text_eq s (codes "") ≡ false
unfolding any_of text_eq
not_empty [] h = absurd (cc h)
not_empty (c ∷ s) h = refl

removal :
    (zvols : List ManagedZvol) (live : Option (Text → Bool)) (n : ℕ) (id : Text)
    → remove_vm n (vm_reason zvols live id)
      ≡ (if is_unknown live id || not (has_zvol zvols id) then stop_vm n ∷ delete_vm n ∷ [] else [])
unfolding remove_vm vm_reason
removal zvols live n id = ground arith

-- A machine with the name and the description that the provisioner gives it, under any provider ID,
-- is stopped and deleted if its request is not among the live ones or no managed volume has it, and is
-- left alone otherwise. The request ID has a letter or a digit, and no closing parenthesis.
pub maybe_delete_orphan_vm-build_vm_name :
    (provider_id request_id : Text) (zvols : List ManagedZvol) (live : Option (Text → Bool)) (n : ℕ)
    → any_of is_alphanumeric request_id ≡ true
    → lacks b')' request_id ≡ true
    → maybe_delete_orphan_vm zvols live (record {
      id = n;
      name = build_vm_name provider_id request_id;
      description = omni_vm_description request_id;
    })
      ≡ (if is_unknown live request_id || not (has_zvol zvols request_id)
          then stop_vm n ∷ delete_vm n ∷ []
          else [])
unfolding maybe_delete_orphan_vm
maybe_delete_orphan_vm-build_vm_name provider_id request_id zvols live n named closed =
    rw
      (
        is_omni_vm_name-build_vm_name provider_id request_id named,
        parse_request_id_from_description-omni_vm_description request_id closed,
        not_empty request_id named,
      )
      (removal zvols live n request_id)

-- The volume of a request whose machine is listed under the name that is built for it is deleted
-- exactly when the live requests are known and it is not among them.
maybe_delete_orphan_zvol-build_vm_name :
    (provider_id : Text) (vms : List Vm) (live : Option (Text → Bool)) (z : ManagedZvol)
    → has_vm vms (build_vm_name provider_id z.request_id) ≡ true
    → maybe_delete_orphan_zvol provider_id vms live z
      ≡ (if is_unknown live z.request_id then delete_dataset z.path ∷ [] else [])
unfolding maybe_delete_orphan_zvol zvol_reason remove_zvol
maybe_delete_orphan_zvol-build_vm_name provider_id vms live z listed = ground arith
