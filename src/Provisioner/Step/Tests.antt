-- ===== src/Provisioner/Step/Tests.antt =====
-- An instance of the theorem on the step that makes a machine.
use omni_infra_provider_true.Base.{◌≡◌, ◌⊎◌, true, false, [], none, some}
use omni_infra_provider_true.Base.Int.{pos}
use omni_infra_provider_true.Base.Result.{err}
use omni_infra_provider_true.Text.{codes}
use omni_infra_provider_true.Provisioner.{ProviderConfig}
use omni_infra_provider_true.Provisioner.Deprovision.{not_found}
use omni_infra_provider_true.Provisioner.Existing.{MachineState}
use omni_infra_provider_true.Provisioner.Create.Machine.{Request, make_vm}
use omni_infra_provider_true.Provisioner.Step.{World, defaulted, step_create_vm}
use omni_infra_provider_true.Provisioner.Step.Creation.{IsCleared, step_create_vm-IsCleared}
use omni_infra_provider_true.Provisioner.Fixtures.{
  small_class, digest, is_cidr, limits, counters, existing_answers, fresh_host, network,
}

abbrev config : ProviderConfig
config = record {
  default_pool = codes "tank";
  default_network_interface = codes "br0";
  default_boot_method = codes "UEFI";
}

abbrev request : Request
request = record {
  request_id = codes "r1";
  vm_name = codes "omni_r1";
  image_id = codes "a1";
  provider_data = small_class;
}

abbrev world : World
world = record {
  existing = existing_answers;
  get_vm = err not_found;
  found_by_name = some none;
  data_decoded = true;
  pool_free_space = λ pool. none;
  host_memory = none;
  guests = none;
  host = fresh_host;
  net = network true;
}

-- The ID of a machine that is gone.
abbrev state : MachineState
state = record { vm_id = pos 3; cdrom_device_id = pos 9 }

step_create_vm-IsCleared_example :
    ((step_create_vm digest is_cidr config limits false world state request counters).host_calls
      ≡ [])
    ⊎ (IsCleared config false world state request
        × ((step_create_vm digest is_cidr config limits false world state request
              counters).host_calls
            ≡ (make_vm digest is_cidr world.host world.net (defaulted config request)).1))
step_create_vm-IsCleared_example =
    step_create_vm-IsCleared digest is_cidr config limits false world state request counters
