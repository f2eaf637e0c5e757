-- ===== src/Provisioner.antt =====
-- internal/provisioner/data.go: the configuration that a machine class gives the provisioner.
pub mod Names
pub mod Extensions
pub mod Defaults
pub mod Validation
pub mod Deprovision
pub mod Iso
pub mod Preflight
pub mod Existing
pub mod Mac
pub mod Patches
pub mod Create
pub mod Step
mod Fixtures
mod Tests
use omni_infra_provider_true.Base.{
  ℕ, zero, suc, ◌+◌, ◌≡◌, Bool, true, false, List, [], ◌∷◌, ◌++◌, Option, none, some, if◌then◌else◌,
}
use omni_infra_provider_true.Base.Int.{ℤ, pos, negsuc, ltb_ℤ}
use omni_infra_provider_true.Text.{Text, codes, text_eq}
use omni_infra_provider_true.Text.Decimal.{format_uint}

pub record ProviderConfig : Type 0 where
  pub default_pool : Text
  pub default_network_interface : Text
  pub default_boot_method : Text

pub record AdditionalNic : Type 0 where
  pub network_interface : Text
  pub nic_type : Text
  pub mtu : ℤ
  pub dhcp : Option Bool

pub record AdditionalDisk : Type 0 where
  pub size : ℤ
  pub pool : Text
  pub dataset_prefix : Text
  pub encrypted : Bool
  pub name : Text
  pub filesystem : Text

pub record Data : Type 0 where
  pub pool : Text
  pub network_interface : Text
  pub boot_method : Text
  pub architecture : Text
  pub extensions : List Text
  pub encrypted : Bool
  pub cpus : ℤ
  pub memory : ℤ
  pub min_memory : ℤ
  pub disk_size : ℤ
  pub dataset_prefix : Text
  pub additional_disks : List AdditionalDisk
  pub additional_nics : List AdditionalNic
  pub advertised_subnets : Text
  pub storage_disk_size : ℤ

-- A field keeps its value, or takes a default where it is the zero value.
unfoldable pub default_text : Text → Text → Text
default_text value default = if text_eq value [] then default else value

unfoldable pub default_int : ℤ → ℕ → ℤ
default_int (pos zero) default = pos default
default_int (pos (suc n)) default = pos (suc n)
default_int (negsuc n) default = negsuc n

-- The disk at an index takes the name data-N, N the index plus one, and xfs.
unfoldable pub default_disk : ℕ → AdditionalDisk → AdditionalDisk
unfolding default_text
default_disk i disk = record disk {
  name = default_text disk.name (codes "data-" ++ format_uint (i + 1));
  filesystem = default_text disk.filesystem (codes "xfs");
}

unfoldable pub default_disks : ℕ → List AdditionalDisk → List AdditionalDisk
unfolding default_disk
default_disks i [] = []
default_disks i (disk ∷ disks) = default_disk i disk ∷ default_disks (i + 1) disks

-- The disk that `storage_disk_size` stands for.
abbrev storage_disk : ℤ → AdditionalDisk
storage_disk size = record {
  size = size;
  pool = [];
  dataset_prefix = [];
  encrypted = false;
  name = codes "longhorn";
  filesystem = [];
}

unfoldable pub with_storage : ℤ → List AdditionalDisk → List AdditionalDisk
with_storage (pos zero) disks = disks
with_storage (pos (suc n)) disks = storage_disk (pos (suc n)) ∷ disks
with_storage (negsuc n) disks = disks

-- What is left of `storage_disk_size`.
unfoldable pub unconsumed : ℤ → ℤ
unconsumed (pos n) = pos 0
unconsumed (negsuc n) = negsuc n

-- `ApplyDefaults`.
unfoldable pub apply_defaults : ProviderConfig → Data → Data
unfolding default_text default_int default_disks with_storage unconsumed
apply_defaults cfg d = record d {
  cpus = default_int d.cpus 2;
  memory = default_int d.memory 4096;
  disk_size = default_int d.disk_size 40;
  pool = default_text d.pool cfg.default_pool;
  network_interface = default_text d.network_interface cfg.default_network_interface;
  boot_method = default_text (default_text d.boot_method cfg.default_boot_method) (codes "UEFI");
  architecture = default_text d.architecture (codes "amd64");
  additional_disks = default_disks 0 (with_storage d.storage_disk_size d.additional_disks);
  storage_disk_size = unconsumed d.storage_disk_size;
}

-- `BasePath`.
unfoldable pub base_path : Data → Text
base_path d = if text_eq d.dataset_prefix [] then d.pool else d.pool ++ b'/' ∷ d.dataset_prefix
