-- ===== src/Provisioner/Create/Machine.antt =====
-- internal/provisioner/steps.go: stepCreateVM from the making of its root volume to the start, with
-- the attachments of its disks and NICs. SHA-256 and the test for a CIDR are parameters.
pub mod Trace
pub mod Devices
pub mod Unfinished
mod Tests
use omni_infra_provider_true.Base.{
  ℕ, suc, ◌+◌, Bool, true, false, List, [], ◌∷◌, ◌++◌, Option, none, some, any_of, ltb, ◌&&◌, not,
  if◌then◌else◌,
}
use omni_infra_provider_true.Base.Int.{ℤ, pos, ltb_ℤ}
use omni_infra_provider_true.Base.Result.{Result, ok, err}
use omni_infra_provider_true.Text.{Text, codes, text_eq}
use omni_infra_provider_true.Text.Decimal.{format_uint}
use omni_infra_provider_true.Meta.{omni_vm_description}
use omni_infra_provider_true.Provisioner.{
  Data, AdditionalDisk, AdditionalNic, base_path, default_text,
}
use omni_infra_provider_true.Provisioner.Mac.{deterministic_mac, resolve_deterministic_mac}
use omni_infra_provider_true.Provisioner.Patches.{
  PatchError, UserVolume, build_user_volume_patch, has_longhorn_disk, collect_nic_interface_configs,
  build_additional_nic_interfaces_patch, parse_advertised_subnets,
}
use omni_infra_provider_true.Provisioner.Create.{
  CreateVmRequest, HostCall, ensure, create_vm, add_cdrom, add_disk, add_nic, apply_patch, start_vm,
  data_volumes, longhorn_ops, nic_mtu, nic_interfaces, advertised_subnets, CreateHost, CreateError,
  patch_failed, iso_refused, Run, ◌>>=◌, ◌>>◌, done, stop, must, ensure_zvol,
}

-- What else is answered: the check of the image before the boot, the addresses on a segment, the
-- address that a NIC is attached with, and the subnet of an interface; none is an error. With them
-- stands the UUID that is generated for the machine.
pub record NetHost : Type 0 where
  pub machine_uuid : Text
  pub iso_verified : Bool
  pub nic_macs_on_segment : Text → Option (Text → Bool)
  pub attached_mac : ℕ → Text
  pub interface_subnet : Text → Option Text

-- What the step is called with.
pub record Request : Type 0 where
  pub request_id : Text
  pub vm_name : Text
  pub image_id : Text
  pub provider_data : Data

abbrev pub slash : Text → Text → Text
slash a b = a ++ b'/' ∷ b

-- The base path of a further disk.
unfoldable pub disk_base_path : Data → AdditionalDisk → Text
unfolding default_text
disk_base_path d disk =
    let pool = default_text disk.pool d.pool in
    let prefix = default_text disk.dataset_prefix d.dataset_prefix in
    if text_eq prefix [] then pool else slash pool prefix

-- The path of the further disk at an index.
unfoldable pub additional_zvol_path : Request → ℕ → AdditionalDisk → Text
unfolding disk_base_path
additional_zvol_path r i disk =
    slash (disk_base_path r.provider_data disk)
      (codes "omni-vms/" ++ r.request_id ++ codes "-disk-" ++ format_uint (i + 1))

-- The root disk's path.
abbrev pub zvol_path : Request → Text
zvol_path r = slash (base_path r.provider_data) (codes "omni-vms/" ++ r.request_id)

abbrev pub iso_path : Request → Text
iso_path r =
    codes "/mnt/"
    ++ slash (base_path r.provider_data) (codes "talos-iso/" ++ r.image_id ++ codes ".iso")

-- What the machine is created with.
unfoldable pub vm_request : NetHost → Request → CreateVmRequest
vm_request net r = record {
  name = r.vm_name;
  description = omni_vm_description r.request_id;
  uuid = net.machine_uuid;
  vcpus = r.provider_data.cpus;
  memory = r.provider_data.memory;
  min_memory = r.provider_data.min_memory;
  bootloader = r.provider_data.boot_method;
  autostart = true;
  cpu_mode = codes "HOST-PASSTHROUGH";
}

-- A prefix that is set is made a dataset first, at a place of the step.
ensure_prefix : CreateHost → ℕ → Text → Text → Run (Unit {0})
unfolding ensure
ensure_prefix host place prefix base = if text_eq prefix [] then done else ensure host place base

-- `attachAdditionalDisks`, from an index on.
unfoldable pub attach_additional_disks :
    CreateHost → Request → ℕ → List AdditionalDisk → Run (Unit {0})
unfolding ensure_prefix ensure must ensure_zvol disk_base_path additional_zvol_path default_text
attach_additional_disks host r i [] = done
attach_additional_disks host r i (disk ∷ disks) = do
  let base = disk_base_path r.provider_data disk
  let path = additional_zvol_path r i disk
  ensure_prefix host (2 + i + i) (default_text disk.dataset_prefix r.provider_data.dataset_prefix)
      base
  ensure host (3 + i + i) (slash base (codes "omni-vms"))
  ensure_zvol host path disk.size disk.encrypted
  must host (add_disk host.new_vm_id path (1001 + i))
  attach_additional_disks host r (i + 1) disks

-- The data-volumes patch and, for a disk named longhorn, its operational patch.
volume_patches :
    CreateHost → List AdditionalDisk → Result PatchError (List UserVolume) → Run (Unit {0})
unfolding must has_longhorn_disk
volume_patches host disks (err e) = stop (patch_failed e)
volume_patches host disks (ok volumes) = do
  must host (apply_patch data_volumes)
  if has_longhorn_disk disks then must host (apply_patch longhorn_ops) else done

apply_volume_patches : CreateHost → List AdditionalDisk → Run (Unit {0})
unfolding volume_patches build_user_volume_patch
apply_volume_patches host [] = done
apply_volume_patches host (disk ∷ disks) =
    volume_patches host (disk ∷ disks) (build_user_volume_patch (disk ∷ disks))

module _ (sha256 : Text → ℕ → ℕ) (is_cidr : Text → Bool) (host : CreateHost) (net : NetHost) where
  chosen_mac : Text → ℕ → Option (Text → Bool) → Text
  unfolding deterministic_mac resolve_deterministic_mac
  chosen_mac request_id i none = deterministic_mac sha256 request_id i
  chosen_mac request_id i (some is_taken) =
      (resolve_deterministic_mac sha256 request_id i is_taken).0

  -- The address that the NIC at an index is given on its segment.
  unfoldable pub nic_mac : Text → ℕ → Text → Text
  unfolding chosen_mac
  nic_mac request_id i network_interface =
      chosen_mac request_id i (net.nic_macs_on_segment network_interface)

  -- `attachPrimaryNIC`.
  unfoldable pub attach_primary_nic : Request → Run (Unit {0})
  unfolding must nic_mac
  attach_primary_nic r = must host (
      add_nic host.new_vm_id
        (record {
          network_interface = r.provider_data.network_interface;
          nic_type = [];
          mac = nic_mac r.request_id 0 r.provider_data.network_interface;
          mtu = pos 0;
        })
        2001)

  -- `attachAdditionalNICs`, from an index on.
  unfoldable pub attach_additional_nics : Request → ℕ → List AdditionalNic → Run (Unit {0})
  unfolding must nic_mac
  attach_additional_nics r i [] = done
  attach_additional_nics r i (nic ∷ nics) = do
    must host (
        add_nic host.new_vm_id
          (record {
            network_interface = nic.network_interface;
            nic_type = nic.nic_type;
            mac = nic_mac r.request_id (i + 1) nic.network_interface;
            mtu = nic.mtu;
          })
          (2002 + i))
    attach_additional_nics r (i + 1) nics

  -- The NICs with the addresses that they are attached with.
  attached_nics : ℕ → List AdditionalNic → List (AdditionalNic × Text)
  attached_nics i [] = []
  attached_nics i (nic ∷ nics) = (nic, net.attached_mac (i + 1)) ∷ attached_nics (i + 1) nics

  wants_mtu : AdditionalNic × Text → Bool
  wants_mtu (nic, mac) = ltb_ℤ (pos 0) nic.mtu && not (text_eq mac [])

  interface_patch : Result PatchError (List (Text × Bool)) → Run (Unit {0})
  unfolding must
  interface_patch (err e) = stop (patch_failed e)
  interface_patch (ok []) = done
  interface_patch (ok (nic ∷ nics)) = must host (apply_patch nic_interfaces)

  -- `applyNICConfigPatches`.
  unfoldable pub apply_nic_config_patches : List (AdditionalNic × Text) → Run (Unit {0})
  unfolding must wants_mtu interface_patch build_additional_nic_interfaces_patch
      collect_nic_interface_configs
  apply_nic_config_patches nics = do
    if any_of wants_mtu nics then must host (apply_patch nic_mtu) else done
    interface_patch (build_additional_nic_interfaces_patch (collect_nic_interface_configs nics))

  -- The patch of subnets that the class gives, or of one that is detected, whose errors are ignored.
  given_subnets : Result PatchError (List Text) → Run (Unit {0})
  unfolding must
  given_subnets (err e) = stop (patch_failed e)
  given_subnets (ok []) = done
  given_subnets (ok (s ∷ subnets)) = must host (apply_patch advertised_subnets)

  detected_subnets : Result PatchError (List Text) → Run (Unit {0})
  unfolding must
  detected_subnets (err e) = done
  detected_subnets (ok []) = done
  detected_subnets (ok (s ∷ subnets)) = must host (apply_patch advertised_subnets)

  detect_subnet : Option Text → Run (Unit {0})
  unfolding detected_subnets parse_advertised_subnets
  detect_subnet none = done
  detect_subnet (some subnet) = detected_subnets (parse_advertised_subnets is_cidr subnet)

  subnets_for_nics : Data → List AdditionalNic → Run (Unit {0})
  unfolding detect_subnet
  subnets_for_nics d [] = done
  subnets_for_nics d (nic ∷ nics) = detect_subnet (net.interface_subnet d.network_interface)

  -- `applyAdvertisedSubnetsConfigPatch`.
  unfoldable pub apply_advertised_subnets : Data → Run (Unit {0})
  unfolding subnets_for_nics given_subnets parse_advertised_subnets
  apply_advertised_subnets d =
      if text_eq d.advertised_subnets []
      then subnets_for_nics d d.additional_nics
      else given_subnets (parse_advertised_subnets is_cidr d.advertised_subnets)

  -- The rest of `stepCreateVM`, after its checks; the run is ok where the machine is started.
  unfoldable pub make_vm : Request → Run (Unit {0})
  unfolding ensure_prefix ensure must ensure_zvol attach_additional_disks apply_volume_patches
      attach_primary_nic attach_additional_nics apply_nic_config_patches attached_nics
      apply_advertised_subnets vm_request
  make_vm r = do
    let d = r.provider_data
    let vm = host.new_vm_id
    ensure_prefix host 0 d.dataset_prefix (base_path d)
    ensure host 1 (slash (base_path d) (codes "omni-vms"))
    ensure_zvol host (zvol_path r) d.disk_size d.encrypted
    must host (create_vm (vm_request net r))
    if net.iso_verified then done else stop iso_refused
    must host (add_cdrom vm (iso_path r))
    must host (add_disk vm (zvol_path r) 1000)
    attach_additional_disks host r 0 d.additional_disks
    apply_volume_patches host d.additional_disks
    attach_primary_nic r
    attach_additional_nics r 0 d.additional_nics
    apply_nic_config_patches (attached_nics 0 d.additional_nics)
    apply_advertised_subnets d
    must host (start_vm vm)
