-- ===== src/Provisioner/Fixtures.antt =====
-- Test data of the provisioner's parts.
use omni_infra_provider_true.Base.{ℕ, Bool, false, [], none, some}
use omni_infra_provider_true.Base.Int.{pos}
use omni_infra_provider_true.Base.Result.{ok, err}
use omni_infra_provider_true.Text.{Text, codes, text_eq}
use omni_infra_provider_true.Base.{◌+◌, ◌%◌, length}
use omni_infra_provider_true.Provisioner.{Data}
use omni_infra_provider_true.Provisioner.Deprovision.{Host, not_found}
use omni_infra_provider_true.Provisioner.Existing.{Limits, Counters, Answers, started}
use omni_infra_provider_true.Provisioner.Create.{CreateHost}
use omni_infra_provider_true.Provisioner.Create.Machine.{NetHost}

-- A class with one disk and one NIC.
abbrev pub small_class : Data
small_class = record {
  pool = codes "tank";
  network_interface = codes "br0";
  boot_method = codes "UEFI";
  architecture = codes "amd64";
  extensions = [];
  encrypted = false;
  cpus = pos 2;
  memory = pos 4096;
  min_memory = pos 0;
  disk_size = pos 40;
  dataset_prefix = codes "omni";
  additional_disks = [];
  additional_nics = [];
  advertised_subnets = [];
  storage_disk_size = pos 0;
}

-- A digest that tells texts of different lengths apart, and a test for one CIDR.
abbrev pub digest : Text → ℕ → ℕ
digest s i = (length s + i) % 256

abbrev pub is_cidr : Text → Bool
is_cidr s = text_eq s (codes "10.0.0.0/8")

abbrev pub limits : Limits
limits = record { max_error_recoveries = pos 5; max_start_oom_attempts = pos 5 }

abbrev pub counters : Counters
counters = record { error_counts = λ n. 0; oom_counts = λ name. 0; active_vm_names = λ name. false }

-- A TrueNAS on which nothing is there yet and every call goes through.
abbrev pub empty_host : Host
empty_host = record {
  get_vm = λ n. err not_found;
  polls = λ n. [];
  user_properties = λ path. err not_found;
  dataset_exists = λ path. ok false;
  vm_deletion = λ n. ok tt;
  dataset_deletion = λ path. ok tt;
}

abbrev pub existing_answers : Answers
existing_answers = record {
  start = started;
  recovery = record { read_again = none; nvram_reset = false; restart = started };
  host = empty_host;
}

abbrev pub fresh_host : CreateHost
fresh_host = record {
  failure = λ call. none;
  dataset_failure = λ place path. none;
  new_passphrase = λ path. some (codes "secret");
  zvol_size = λ path. none;
  stored_passphrase = λ path. none;
  is_locked = λ path. none;
  new_vm_id = 7;
}

-- The answers about the network, for an image that passes its check or not.
abbrev pub network : Bool → NetHost
network verified = record {
  machine_uuid = codes "u1";
  iso_verified = verified;
  nic_macs_on_segment = λ interface. none;
  attached_mac = λ i. codes "02:00";
  interface_subnet = λ interface. none;
}
