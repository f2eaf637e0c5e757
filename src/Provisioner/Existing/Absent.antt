-- ===== src/Provisioner/Existing/Absent.antt =====
-- When the lookup of a machine lets the step go on to make one.
use omni_infra_provider_true.Base.{
  zero, suc, ◌≡◌, refl, ◌⊎◌, inl, inr, true, Option, none, some, Bool-cases,
}
use omni_infra_provider_true.Base.Int.{ℤ, pos, negsuc}
use omni_infra_provider_true.Base.Result.{Result, ok, err}
use omni_infra_provider_true.Text.{Text}
use omni_infra_provider_true.Provisioner.Deprovision.{ApiError, not_found, failed}
use omni_infra_provider_true.Provisioner.Existing.{
  Limits, Counters, Answers, MachineState, Vm, forget_vm, found, is_unset, looked_up,
  check_existing_vm,
}

-- TrueNAS has no machine of that name, and none of the recorded ID, if one is recorded.
abbrev pub IsAbsent : MachineState → Result ApiError Vm → Option (Option Vm) → Type 0
IsAbsent s get_vm find = (find ≡ some none) × ((s.vm_id ≡ pos 0) ⊎ (get_vm ≡ err not_found))

unset : (z : ℤ) → is_unset z ≡ true → z ≡ pos 0
unfolding is_unset
unset (pos zero) h = refl
unset (pos (suc n)) h = absurd (cc h)
unset (negsuc n) h = absurd (cc h)

found-none :
    (cfg : Limits) (a : Answers) (s : MachineState) (name : Text) (c : Counters)
    (find : Option (Option Vm))
    → (found cfg a s name c find).run ≡ none
    → find ≡ some none
unfolding found
found-none cfg a s name c none h = absurd (cc h)
found-none cfg a s name c (some none) h = refl
found-none cfg a s name c (some (some vm)) h = absurd (cc h)

looked_up-none :
    (cfg : Limits) (a : Answers) (s : MachineState) (name : Text) (c : Counters)
    (get_vm : Result ApiError Vm) (find : Option (Option Vm))
    → (looked_up cfg a s name c get_vm find).run ≡ none
    → (find ≡ some none) × (get_vm ≡ err not_found)
unfolding looked_up
looked_up-none cfg a s name c (ok vm) find h = absurd (cc h)
looked_up-none cfg a s name c (err failed) find h = absurd (cc h)
looked_up-none cfg a s name c (err not_found) find h =
    (found-none cfg a (forget_vm s) name c find h, refl)

pub check_existing_vm-IsAbsent :
    (cfg : Limits) (a : Answers) (s : MachineState) (name : Text) (c : Counters)
    (get_vm : Result ApiError Vm) (find : Option (Option Vm))
    → (check_existing_vm cfg a s name c get_vm find).run ≡ none
    → IsAbsent s get_vm find
unfolding check_existing_vm
check_existing_vm-IsAbsent cfg a s name c get_vm find h = elim (Bool-cases (is_unset s.vm_id)) [
  | inl e ↦ (found-none cfg a s name c find (simp (e) at h), inl (unset s.vm_id e))
  | inr e ↦
      let (gone, missing) = looked_up-none cfg a s name c get_vm find (simp (e) at h) in
      (gone, inr missing)
]
