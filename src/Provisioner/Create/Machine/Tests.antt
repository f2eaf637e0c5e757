-- ===== src/Provisioner/Create/Machine/Tests.antt =====
-- Instances of the theorems on the making of a machine.
use omni_infra_provider_true.Provisioner.Fixtures.{
  small_class, digest, is_cidr, fresh_host, network, limits, counters, existing_answers,
}
use omni_infra_provider_true.Base.{◌≡◌, refl, true, false, [], ◌∷◌, none, some, select}
use omni_infra_provider_true.Base.Int.{pos}
use omni_infra_provider_true.Base.Result.{err}
use omni_infra_provider_true.Text.{codes}
use omni_infra_provider_true.Provisioner.{AdditionalDisk, AdditionalNic}
use omni_infra_provider_true.Provisioner.Existing as Existing
use omni_infra_provider_true.Provisioner.Existing.{
  Limits, Counters, Answers, started, handle_existing_vm,
}
use omni_infra_provider_true.Provisioner.Create.{create_vm, already_exists, CreateHost, iso_refused}
use omni_infra_provider_true.Provisioner.Create.Machine.{Request, vm_request, make_vm}
use omni_infra_provider_true.Provisioner.Create.Machine.Trace.{is_device, IsTraced}
use omni_infra_provider_true.Provisioner.Create.Machine.Devices.{machine_calls, make_vm-IsTraced}
use omni_infra_provider_true.Provisioner.Create.Machine.Unfinished.{
  made_machine, make_vm-unfinished,
}

abbrev disk : AdditionalDisk
disk = record {
  size = pos 60;
  pool = codes "fast";
  dataset_prefix = [];
  encrypted = true;
  name = codes "longhorn";
  filesystem = [];
}

abbrev nic : AdditionalNic
nic = record { network_interface = codes "br1"; nic_type = []; mtu = pos 9000; dhcp = none }

abbrev machine : Request
machine = record {
  request_id = codes "r1";
  vm_name = codes "omni_r1";
  image_id = codes "a1";
  provider_data = record small_class {
    additional_disks = disk ∷ [];
    additional_nics = nic ∷ [];
    advertised_subnets = codes "10.0.0.0/8";
  };
}

abbrev full_host : CreateHost
full_host = record {
  failure = λ call. some already_exists;
  dataset_failure = λ place path. none;
  new_passphrase = λ path. none;
  zvol_size = λ path. some (pos 1073741824);
  stored_passphrase = λ path. some (codes "secret");
  is_locked = λ path. some true;
  new_vm_id = 7;
}

make_vm-IsTraced_example :
    IsTraced
      (make_vm digest is_cidr fresh_host (network true) machine)
      (machine_calls fresh_host digest is_cidr (network true) machine)
make_vm-IsTraced_example = make_vm-IsTraced fresh_host digest is_cidr (network true) machine

make_vm-unfinished_example :
    ((make_vm digest is_cidr fresh_host (network false) machine).0 ≡ err iso_refused)
    × (select is_device (make_vm digest is_cidr fresh_host (network false) machine).1
        ≡ create_vm (vm_request (network false) machine) ∷ [])
    × ((handle_existing_vm limits existing_answers
          (made_machine 7 (vm_request (network false) machine))
          (codes "omni_r1")
          counters).1
        ≡ Existing.start_vm 7 ∷ [])
make_vm-unfinished_example =
    make_vm-unfinished digest is_cidr fresh_host (network false) machine limits existing_answers
      (codes "omni_r1") counters (λ call. refl) (λ place path. refl) (codes "secret", refl) refl
