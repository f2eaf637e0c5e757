-- ===== src/Provisioner/Tests.antt =====
-- Instances of the theorems on validation and on the teardown.
use omni_infra_provider_true.Base.{true, All, String, str_eq, if◌then◌else◌}
use omni_infra_provider_true.Text.{Text}
use omni_infra_provider_true.Meta.{omni_vm_description}
use omni_infra_provider_true.Provisioner.Deprovision.{Host, stopped, running, deprovision}
use omni_infra_provider_true.Provisioner.Deprovision.Ownership.{IsOurs, deprovision-IsOurs}
use omni_infra_provider_true.Base.{◌≡◌, refl, false, [], ◌∷◌, none}
use omni_infra_provider_true.Base.Int.{pos}
use omni_infra_provider_true.Base.Result.{ok}
use omni_infra_provider_true.Text.{codes, text_eq}
use omni_infra_provider_true.Text.Decimal.{format_uint}
use omni_infra_provider_true.Provisioner.{Data, ProviderConfig, apply_defaults}
use omni_infra_provider_true.Provisioner.Names.{is_safe_name, split}
use omni_infra_provider_true.Provisioner.Extensions.{
  validate_extensions, has_blank, is_path_like, is_allowed_extension,
}
use omni_infra_provider_true.Provisioner.Validation.{validate, validate_dataset_prefix_segments}
use omni_infra_provider_true.Provisioner.Validation.Checked.{IsValid, validate-IsValid}

abbrev config : ProviderConfig
config = record {
  default_pool = codes "tank";
  default_network_interface = codes "br0";
  default_boot_method = [];
}

abbrev given : Data
given = record {
  pool = [];
  network_interface = [];
  boot_method = [];
  architecture = [];
  extensions = codes "siderolabs/zfs" ∷ [];
  encrypted = false;
  cpus = pos 4;
  memory = pos 0;
  min_memory = pos 2048;
  disk_size = pos 0;
  dataset_prefix = codes "k8/lab";
  additional_disks =
      record {
        size = pos 20;
        pool = [];
        dataset_prefix = [];
        encrypted = false;
        name = [];
        filesystem = [];
      }
      ∷ [];
  additional_nics =
      record { network_interface = codes "vlan10"; nic_type = []; mtu = pos 9000; dhcp = none }
      ∷ [];
  advertised_subnets = [];
  storage_disk_size = pos 100;
}

accepted : validate false (apply_defaults config given) ≡ ok tt
unfolding validate apply_defaults validate_dataset_prefix_segments split is_safe_name text_eq
    validate_extensions has_blank is_path_like is_allowed_extension format_uint
accepted = refl

validate-IsValid_example : IsValid false (apply_defaults config given)
validate-IsValid_example = validate-IsValid false (apply_defaults config given) accepted

abbrev tags : String → Text
tags k = if str_eq k "org.omni:managed" then codes "true" else codes "w-1"

abbrev host : Host
host = record {
  get_vm = λ n. ok (omni_vm_description (codes "w-1"));
  polls = λ n. running ∷ stopped ∷ [];
  user_properties = λ path. ok tags;
  dataset_exists = λ path. ok true;
  vm_deletion = λ n. ok tt;
  dataset_deletion = λ path. ok tt;
}

deprovision-IsOurs_example :
    All
      (IsOurs host (codes "w-1"))
      (deprovision host (codes "w-1") 7 (codes "tank/w-1-data" ∷ []) (codes "tank/w-1")).1
deprovision-IsOurs_example =
    deprovision-IsOurs host (codes "w-1") 7 (codes "tank/w-1-data" ∷ []) (codes "tank/w-1")
