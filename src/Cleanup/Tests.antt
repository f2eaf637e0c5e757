-- ===== src/Cleanup/Tests.antt =====
-- Instances of the theorems on a cleanup cycle.
use omni_infra_provider_true.Base.{
  ◌≡◌, refl, true, false, not, ◌||◌, List, [], ◌∷◌, any_of, none, some, str_eq, if◌then◌else◌,
}
use omni_infra_provider_true.Text.{codes, lacks}
use omni_infra_provider_true.Meta.{is_word, build_vm_name, omni_vm_description}
use omni_infra_provider_true.Meta.Names.{is_alphanumeric}
use omni_infra_provider_true.Cleanup.{
  stop_vm, delete_vm, Vm, ManagedZvol, Dataset, Answers, read, run_once, is_unknown, has_zvol,
  maybe_delete_orphan_vm,
}
use omni_infra_provider_true.Cleanup.Deletions.{expected, run_once-expected}
use omni_infra_provider_true.Cleanup.Machines.{maybe_delete_orphan_vm-build_vm_name}

abbrev volume : Dataset
volume = record {
  id = codes "tank/omni-vms/w-1";
  user_property =
      λ k. if str_eq k "org.omni:managed" then some (codes "true") else some (codes "w-1");
}

abbrev machine : Vm
machine = record {
  id = 7;
  name = build_vm_name (codes "truenas") (codes "w-1");
  description = omni_vm_description (codes "w-1");
}

abbrev answers : Answers
answers = record {
  files = some [];
  active_images = none;
  volumes = some (volume ∷ []);
  live = read (λ id. false);
  vms = some (machine ∷ []);
  vms_later = some [];
}

run_once-expected_example :
    run_once (codes "tank") (codes "truenas") answers
    ≡ expected (codes "tank") (codes "truenas") answers
run_once-expected_example = run_once-expected (codes "tank") (codes "truenas") answers

abbrev zvols : List ManagedZvol
zvols = record { path = codes "tank/omni-vms/w-1"; request_id = codes "w-1" } ∷ []

named : any_of is_alphanumeric (codes "w-1") ≡ true
unfolding any_of is_word
named = refl

closed : lacks b')' (codes "w-1") ≡ true
unfolding lacks
closed = refl

maybe_delete_orphan_vm-build_vm_name_example : maybe_delete_orphan_vm zvols none machine ≡ (
    if is_unknown none (codes "w-1") || not (has_zvol zvols (codes "w-1"))
    then stop_vm 7 ∷ delete_vm 7 ∷ []
    else [])
maybe_delete_orphan_vm-build_vm_name_example =
    maybe_delete_orphan_vm-build_vm_name (codes "truenas") (codes "w-1") zvols none 7 named closed
