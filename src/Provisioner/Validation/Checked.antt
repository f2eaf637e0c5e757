-- ===== src/Provisioner/Validation/Checked.antt =====
-- The configuration that the provisioner goes on with.
use omni_infra_provider_true.Base.{
  ℕ, ◌≤◌, ◌≡◌, ◌⊎◌, Bool, true, [], length, All, ltb, arith, if◌then◌else◌,
}
use omni_infra_provider_true.Base.Result.{
  Result, ok, err, ◌>>◌, then_ok, passed, if_passed, relabel, relabel_ok,
}
use omni_infra_provider_true.Text.{Text}
use omni_infra_provider_true.Provisioner.{Data}
use omni_infra_provider_true.Provisioner.Names.{is_safe_name, split}
use omni_infra_provider_true.Provisioner.Extensions.{
  IsVetted, validate_extensions, validate_extensions-IsVetted,
}
use omni_infra_provider_true.Provisioner.Validation.{
  ValidationError, pool_unsafe, network_interface_unsafe, prefix_rejected, extension_rejected,
  too_many_disks, too_many_nics, validate_cpu, validate_memory, validate_root_and_storage_disk,
  validate_dataset_prefix_segments, check_name, validate_path_names, and_name, validate_disks,
  validate_additional_disks, validate_nics, validate_additional_nics, validate,
}
use omni_infra_provider_true.Provisioner.Validation.Sound.{
  HasBounds, bounds_sound, IsSegment, prefix_sound,
}
use omni_infra_provider_true.Provisioner.Validation.Unique.{AllDistinct}
use omni_infra_provider_true.Provisioner.Validation.Disks.{volume_names, IsDisk, disks_sound}
use omni_infra_provider_true.Provisioner.Validation.Nics.{
  interfaces, IsNic, nics_sound, primary_apart,
}

pub record IsValid (bypass : Bool) (d : Data) : Type 0 where
  pub bounds : HasBounds d
  pub extensions : All (IsVetted bypass) d.extensions
  pub pool : is_safe_name d.pool ≡ true
  pub network_interface : is_safe_name d.network_interface ≡ true
  pub prefix : (d.dataset_prefix ≡ []) ⊎ All IsSegment (split b'/' d.dataset_prefix)
  pub few_disks : length d.additional_disks ≤ 16
  pub disks : All IsDisk d.additional_disks
  pub volumes_distinct : AllDistinct (volume_names d.additional_disks)
  pub few_nics : length d.additional_nics ≤ 16
  pub nics : All IsNic d.additional_nics
  pub interfaces_distinct :
      AllDistinct (and_name d.network_interface (interfaces d.additional_nics))

check_name_sound :
    (e : ValidationError) (name : Text) → check_name e name ≡ ok tt → is_safe_name name ≡ true
unfolding check_name
check_name_sound e name h = if_passed (is_safe_name name) e h

few :
    (n : ℕ) (e : ValidationError) (r : Result ValidationError (Unit {0}))
    → (if ltb 16 n then err e else r) ≡ passed
    → (n ≤ 16) × (r ≡ passed)
few n e r h = ground arith

disks_part :
    (d : Data)
    → validate_additional_disks d ≡ ok tt
    → (length d.additional_disks ≤ 16)
      × All IsDisk d.additional_disks
      × AllDistinct (volume_names d.additional_disks)
unfolding validate_additional_disks
disks_part d h =
    let (small, rest) =
      few (length d.additional_disks) too_many_disks (validate_disks 0 d.additional_disks []) h in
    let (disks, distinct, unseen) = disks_sound 0 d.additional_disks [] rest in
    (small, disks, distinct)

nics_part :
    (d : Data)
    → validate_additional_nics d ≡ ok tt
    → (length d.additional_nics ≤ 16)
      × All IsNic d.additional_nics
      × AllDistinct (and_name d.network_interface (interfaces d.additional_nics))
unfolding validate_additional_nics
nics_part d h =
    let seen = and_name d.network_interface [] in
    let (small, rest) =
      few (length d.additional_nics) too_many_nics (validate_nics 0 d.additional_nics seen) h in
    let (nics, distinct, unseen) = nics_sound 0 d.additional_nics seen rest in
    (small, nics, primary_apart d.network_interface (interfaces d.additional_nics) distinct unseen)

-- A configuration that `Validate` passes is well-formed: CPUs, memory and disks are unset or within
-- their bounds and the memory's floor is within the memory; every extension is vetted; the pool, the
-- interface and each segment of the dataset prefix are safe in a path, where no segment is empty; at
-- most sixteen further disks, each within its bounds and no two with one volume name; and at most
-- sixteen further interfaces, named, with an MTU unset or in range, all different from each other and
-- from the primary one.
pub validate-IsValid : (bypass : Bool) (d : Data) → validate bypass d ≡ ok tt → IsValid bypass d
unfolding validate validate_path_names
validate-IsValid bypass d h =
    let nics = validate_additional_nics d in
    let disks = validate_additional_disks d in
    let paths = validate_path_names d in
    let exts = relabel extension_rejected (validate_extensions bypass 0 d.extensions) in
    let roots = validate_root_and_storage_disk d in
    let prefix = relabel prefix_rejected (validate_dataset_prefix_segments d.dataset_prefix true) in
    let interface = check_name network_interface_unsafe d.network_interface in
    let (cpu, h) =
      then_ok (validate_cpu d)
        (validate_memory d >> (roots >> (exts >> (paths >> (disks >> nics))))) h in
    let (memory, h) =
      then_ok (validate_memory d) (roots >> (exts >> (paths >> (disks >> nics)))) h in
    let (root, h) = then_ok roots (exts >> (paths >> (disks >> nics))) h in
    let (ext, h) = then_ok exts (paths >> (disks >> nics)) h in
    let (path, h) = then_ok paths (disks >> nics) h in
    let (disk, nic) = then_ok disks nics h in
    let (pool, path) = then_ok (check_name pool_unsafe d.pool) (interface >> prefix) path in
    let (primary, prefixed) = then_ok interface prefix path in
    let (few_disks, all_disks, volumes) = disks_part d disk in
    let (few_nics, all_nics, different) = nics_part d nic in
    record {
      bounds = bounds_sound d cpu memory root;
      extensions =
          validate_extensions-IsVetted bypass 0 d.extensions (relabel_ok extension_rejected _ ext);
      pool = check_name_sound pool_unsafe d.pool pool;
      network_interface = check_name_sound network_interface_unsafe d.network_interface primary;
      prefix = prefix_sound d.dataset_prefix (relabel_ok prefix_rejected _ prefixed);
      few_disks = few_disks;
      disks = all_disks;
      volumes_distinct = volumes;
      few_nics = few_nics;
      nics = all_nics;
      interfaces_distinct = different;
    }
