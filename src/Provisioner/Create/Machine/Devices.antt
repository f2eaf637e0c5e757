-- ===== src/Provisioner/Create/Machine/Devices.antt =====
-- The devices of a machine that is made, in the order of their attachment.
use omni_infra_provider_true.Base.{
  ℕ, ◌+◌, refl, sym, subst, Bool, true, false, List, [], ◌∷◌, ◌++◌, Option, none, some, inl, inr,
  Bool-cases, select, if◌then◌else◌, any_of,
}
use omni_infra_provider_true.Base.Result.{Result, ok, err}
use omni_infra_provider_true.Text.{Text, codes, text_eq}
use omni_infra_provider_true.Base.Int.{pos}
use omni_infra_provider_true.Meta.{omni_vm_description}
use omni_infra_provider_true.Provisioner.{
  Data, AdditionalDisk, AdditionalNic, base_path, default_text,
}
use omni_infra_provider_true.Provisioner.Patches.{
  PatchError, UserVolume, has_longhorn_disk, build_user_volume_patch,
  build_additional_nic_interfaces_patch, collect_nic_interface_configs, parse_advertised_subnets,
}
use omni_infra_provider_true.Provisioner.Create.{
  CreateVmRequest, NicConfig, HostCall, create_vm, add_cdrom, add_disk, add_nic, apply_patch,
  start_vm, data_volumes, longhorn_ops, nic_mtu, nic_interfaces, advertised_subnets, CreateHost,
  patch_failed, iso_refused, done, stop,
}
use omni_infra_provider_true.Provisioner.Create.Machine.{
  NetHost, Request, disk_base_path, additional_zvol_path, zvol_path, iso_path, slash, ensure_prefix,
  attach_additional_disks, volume_patches, apply_volume_patches, nic_mac, attach_primary_nic,
  attach_additional_nics, attached_nics, wants_mtu, interface_patch, apply_nic_config_patches,
  given_subnets, detected_subnets, detect_subnet, subnets_for_nics, apply_advertised_subnets,
  vm_request, make_vm,
}
use omni_infra_provider_true.Provisioner.Create.Machine.Trace.{
  is_device, IsTraced, then-IsTraced, done-IsTraced, stop-IsTraced, ensure_zvol-IsTraced,
  optional-IsTraced, quiet_must, quiet_ensure, device_must,
}

module _ (host : CreateHost) where
  ensure_prefix-IsTraced :
      (place : ℕ) (prefix base : Text) → IsTraced (ensure_prefix host place prefix base) []
  unfolding ensure_prefix select is_device
  ensure_prefix-IsTraced place prefix base = elim (Bool-cases (text_eq prefix [])) [
    | inl e ↦ simp (e) done-IsTraced
    | inr e ↦ simp (e) (quiet_ensure host place base)
  ]

  -- The attachments of the further disks, from an index on.
  unfoldable pub disk_calls : Request → ℕ → List AdditionalDisk → List HostCall
  disk_calls r i [] = []
  disk_calls r i (disk ∷ disks) =
      add_disk host.new_vm_id (additional_zvol_path r i disk) (1001 + i)
      ∷ disk_calls r (i + 1) disks

  disks-IsTraced :
      (r : Request) (i : ℕ) (disks : List AdditionalDisk)
      → IsTraced (attach_additional_disks host r i disks) (disk_calls r i disks)
  unfolding attach_additional_disks disk_calls select is_device
  disks-IsTraced r i [] = done-IsTraced
  disks-IsTraced r i (disk ∷ disks) =
      let base = disk_base_path r.provider_data disk in
      let path = additional_zvol_path r i disk in
      let prefix = default_text disk.dataset_prefix r.provider_data.dataset_prefix in
      then-IsTraced (ensure_prefix-IsTraced (2 + i + i) prefix base) (
        then-IsTraced (quiet_ensure host (3 + i + i) (slash base (codes "omni-vms"))) (
          then-IsTraced (ensure_zvol-IsTraced host path disk.size disk.encrypted) (
            then-IsTraced (device_must host (add_disk host.new_vm_id path (1001 + i)) refl)
              (disks-IsTraced r (i + 1) disks))))

  volumes-IsTraced :
      (disks : List AdditionalDisk) (p : Result PatchError (List UserVolume))
      → IsTraced (volume_patches host disks p) []
  unfolding volume_patches select is_device
  volumes-IsTraced disks (err e) = stop-IsTraced (patch_failed e) []
  volumes-IsTraced disks (ok volumes) =
      then-IsTraced (quiet_must host (apply_patch data_volumes) refl)
        (optional-IsTraced host (has_longhorn_disk disks) (apply_patch longhorn_ops) refl)

  apply_volumes-IsTraced :
      (disks : List AdditionalDisk) → IsTraced (apply_volume_patches host disks) []
  unfolding apply_volume_patches
  apply_volumes-IsTraced [] = done-IsTraced
  apply_volumes-IsTraced (disk ∷ disks) =
      volumes-IsTraced (disk ∷ disks) (build_user_volume_patch (disk ∷ disks))

  module _ (sha256 : Text → ℕ → ℕ) (is_cidr : Text → Bool) (net : NetHost) where
    -- The attachments of the further NICs, from an index on.
    unfoldable pub nic_calls : Request → ℕ → List AdditionalNic → List HostCall
    nic_calls r i [] = []
    nic_calls r i (nic ∷ nics) =
        add_nic host.new_vm_id
          (record {
            network_interface = nic.network_interface;
            nic_type = nic.nic_type;
            mac = nic_mac sha256 is_cidr host net r.request_id (i + 1) nic.network_interface;
            mtu = nic.mtu;
          })
          (2002 + i)
        ∷ nic_calls r (i + 1) nics

    -- The machine of the class, under the name of the request and with the mark of its ID.
    abbrev pub requested_vm : Request → CreateVmRequest
    requested_vm r = record {
      name = r.vm_name;
      description = omni_vm_description r.request_id;
      uuid = net.machine_uuid;
      vcpus = r.provider_data.cpus;
      memory = r.provider_data.memory;
      min_memory = r.provider_data.min_memory;
      bootloader = r.provider_data.boot_method;
      autostart = true;
      cpu_mode = codes "HOST-PASSTHROUGH";
    }

    abbrev pub primary_nic : Request → NicConfig
    primary_nic r = record {
      network_interface = r.provider_data.network_interface;
      nic_type = [];
      mac = nic_mac sha256 is_cidr host net r.request_id 0 r.provider_data.network_interface;
      mtu = pos 0;
    }

    -- A machine is created, takes its CD-ROM, its root disk, the further disks, the primary NIC and
    -- the further NICs, and is started.
    unfoldable pub machine_calls : Request → List HostCall
    machine_calls r =
        let d = r.provider_data in
        let vm = host.new_vm_id in
        create_vm (requested_vm r)
        ∷ add_cdrom vm (iso_path r)
        ∷ add_disk vm (zvol_path r) 1000
        ∷ (disk_calls r 0 d.additional_disks
            ++ (add_nic vm (primary_nic r) 2001
                ∷ (nic_calls r 0 d.additional_nics ++ (start_vm vm ∷ []))))

    nics-IsTraced :
        (r : Request) (i : ℕ) (nics : List AdditionalNic)
        → IsTraced (attach_additional_nics sha256 is_cidr host net r i nics) (nic_calls r i nics)
    unfolding attach_additional_nics nic_calls select is_device
    nics-IsTraced r i [] = done-IsTraced
    nics-IsTraced r i (nic ∷ nics) =
        then-IsTraced
          (device_must host
            (add_nic host.new_vm_id
              (record {
                network_interface = nic.network_interface;
                nic_type = nic.nic_type;
                mac = nic_mac sha256 is_cidr host net r.request_id (i + 1) nic.network_interface;
                mtu = nic.mtu;
              })
              (2002 + i))
            refl)
          (nics-IsTraced r (i + 1) nics)

    interface-IsTraced :
        (p : Result PatchError (List (Text × Bool)))
        → IsTraced (interface_patch sha256 is_cidr host net p) []
    unfolding interface_patch select is_device
    interface-IsTraced (err e) = stop-IsTraced (patch_failed e) []
    interface-IsTraced (ok []) = done-IsTraced
    interface-IsTraced (ok (nic ∷ nics)) = quiet_must host (apply_patch nic_interfaces) refl

    nic_patches-IsTraced :
        (nics : List (AdditionalNic × Text))
        → IsTraced (apply_nic_config_patches sha256 is_cidr host net nics) []
    unfolding apply_nic_config_patches select is_device
    nic_patches-IsTraced nics =
        then-IsTraced
          (optional-IsTraced host (any_of (wants_mtu sha256 is_cidr host net) nics)
            (apply_patch nic_mtu) refl)
          (interface-IsTraced
            (build_additional_nic_interfaces_patch (collect_nic_interface_configs nics)))

    given-IsTraced :
        (p : Result PatchError (List Text)) → IsTraced (given_subnets sha256 is_cidr host net p) []
    unfolding given_subnets select is_device
    given-IsTraced (err e) = stop-IsTraced (patch_failed e) []
    given-IsTraced (ok []) = done-IsTraced
    given-IsTraced (ok (s ∷ subnets)) = quiet_must host (apply_patch advertised_subnets) refl

    detected-IsTraced :
        (p : Result PatchError (List Text))
        → IsTraced (detected_subnets sha256 is_cidr host net p) []
    unfolding detected_subnets select is_device
    detected-IsTraced (err e) = done-IsTraced
    detected-IsTraced (ok []) = done-IsTraced
    detected-IsTraced (ok (s ∷ subnets)) = quiet_must host (apply_patch advertised_subnets) refl

    detect-IsTraced : (o : Option Text) → IsTraced (detect_subnet sha256 is_cidr host net o) []
    unfolding detect_subnet
    detect-IsTraced none = done-IsTraced
    detect-IsTraced (some s) = detected-IsTraced (parse_advertised_subnets is_cidr s)

    for_nics-IsTraced :
        (d : Data) (nics : List AdditionalNic)
        → IsTraced (subnets_for_nics sha256 is_cidr host net d nics) []
    unfolding subnets_for_nics
    for_nics-IsTraced d [] = done-IsTraced
    for_nics-IsTraced d (nic ∷ nics) = detect-IsTraced (net.interface_subnet d.network_interface)

    subnets-IsTraced : (d : Data) → IsTraced (apply_advertised_subnets sha256 is_cidr host net d) []
    unfolding apply_advertised_subnets
    subnets-IsTraced d = elim (Bool-cases (text_eq d.advertised_subnets [])) [
      | inl e ↦ subst (λ m. IsTraced m []) (sym (simp (e))) (for_nics-IsTraced d d.additional_nics)
      | inr e ↦
          subst (λ m. IsTraced m []) (sym (simp (e)))
            (given-IsTraced (parse_advertised_subnets is_cidr d.advertised_subnets))
    ]

    verified-IsTraced : (b : Bool) → IsTraced (if b then done else stop iso_refused) []
    verified-IsTraced true = done-IsTraced
    verified-IsTraced false = stop-IsTraced iso_refused []

    -- Making a machine creates it with the name, the mark and the sizes of its request, attaches its
    -- CD-ROM, its root disk at boot order 1000, the further disks from 1001 on, the primary NIC and
    -- the further NICs, each with its resolved address and the MTU of its class, and starts it, in
    -- this order: a run that succeeds makes exactly these calls, and one that fails stops after the
    -- first of them, so that nothing is started before all is attached.
    pub make_vm-IsTraced :
        (r : Request) → IsTraced (make_vm sha256 is_cidr host net r) (machine_calls r)
    unfolding make_vm vm_request machine_calls select is_device attach_primary_nic
    make_vm-IsTraced r =
        let d = r.provider_data in
        let vm = host.new_vm_id in
        let wired = nics-IsTraced r 0 d.additional_nics in
        let last = device_must host (start_vm vm) refl in
        let configured =
          then-IsTraced
            (nic_patches-IsTraced (attached_nics sha256 is_cidr host net 0 d.additional_nics))
            (then-IsTraced (subnets-IsTraced d) last) in
        let primary =
          then-IsTraced (device_must host (add_nic vm (primary_nic r) 2001) refl)
            (then-IsTraced wired configured) in
        let disks =
          then-IsTraced (disks-IsTraced r 0 d.additional_disks)
            (then-IsTraced (apply_volumes-IsTraced d.additional_disks) primary) in
        let attached = then-IsTraced (verified-IsTraced net.iso_verified) (
          then-IsTraced (device_must host (add_cdrom vm (iso_path r)) refl)
            (then-IsTraced (device_must host (add_disk vm (zvol_path r) 1000) refl) disks)) in
        then-IsTraced (ensure_prefix-IsTraced 0 d.dataset_prefix (base_path d)) (
          then-IsTraced (quiet_ensure host 1 (slash (base_path d) (codes "omni-vms"))) (
            then-IsTraced (ensure_zvol-IsTraced host (zvol_path r) d.disk_size d.encrypted)
              (then-IsTraced (device_must host (create_vm (requested_vm r)) refl) attached)))
