-- ===== src/Provisioner/Validation.antt =====
-- internal/provisioner/data.go: the checks on a machine class's configuration.
pub mod Sound
pub mod Unique
pub mod Disks
pub mod Nics
pub mod Checked
use omni_infra_provider_true.Base.{
  ℕ, zero, suc, ◌+◌, ◌≡◌, refl, Bool, true, false, not, ◌&&◌, ◌||◌, List, [], ◌∷◌, length, any_of,
  ltb, ◌==◌, if◌then◌else◌,
}
use omni_infra_provider_true.Base.Int.{ℤ, pos, negsuc, ltb_ℤ}
use omni_infra_provider_true.Base.Result.{Result, ok, err, ◌>>◌, relabel}
use omni_infra_provider_true.Text.{Text, codes, text_eq}
use omni_infra_provider_true.Provisioner.{AdditionalDisk, AdditionalNic, Data}
use omni_infra_provider_true.Provisioner.Names.{is_safe_name, split}
use omni_infra_provider_true.Provisioner.Extensions.{ExtensionError, validate_extensions}

pub data PrefixError : Type 0 where
  empty_segment unsafe_segment : ℕ → PrefixError

pub data DiskError : Type 0 where
  size_too_small size_too_large disk_pool_unsafe : DiskError
  disk_prefix : PrefixError → DiskError
  name_unsafe name_collides filesystem_unknown : DiskError

pub data NicError : Type 0 where
  interface_missing interface_unsafe interface_duplicate type_unknown mtu_out_of_range : NicError

pub data ValidationError : Type 0 where
  cpus_negative cpus_too_many : ValidationError
  memory_negative memory_too_small memory_too_large : ValidationError
  min_memory_negative min_memory_too_small min_memory_above_memory : ValidationError
  disk_negative disk_too_small disk_too_large : ValidationError
  storage_negative storage_too_small storage_too_large : ValidationError
  extension_rejected : ExtensionError → ValidationError
  pool_unsafe network_interface_unsafe : ValidationError
  prefix_rejected : PrefixError → ValidationError
  too_many_disks : ValidationError
  disk_rejected : ℕ → DiskError → ValidationError
  too_many_nics : ValidationError
  nic_rejected : ℕ → NicError → ValidationError

-- `validateCPU`, at most 512.
unfoldable pub validate_cpu : Data → Result ValidationError (Unit {0})
validate_cpu d =
    if ltb_ℤ d.cpus (pos 0)
    then err cpus_negative
    else if ltb_ℤ (pos 512) d.cpus
    then err cpus_too_many
    else ok tt

-- The memory set, below 1024 MiB.
unfoldable pub is_below_floor : ℕ → ℤ → Bool
is_below_floor floor (pos zero) = false
is_below_floor floor (pos (suc n)) = ltb (suc n) floor
is_below_floor floor (negsuc n) = true

-- `validateMemory`.
unfoldable pub validate_memory : Data → Result ValidationError (Unit {0})
unfolding is_below_floor
validate_memory d =
    if ltb_ℤ d.memory (pos 0)
    then err memory_negative
    else if is_below_floor 1024 d.memory
    then err memory_too_small
    else if ltb_ℤ (pos 16777216) d.memory
    then err memory_too_large
    else if ltb_ℤ d.min_memory (pos 0)
    then err min_memory_negative
    else if is_below_floor 1024 d.min_memory
    then err min_memory_too_small
    else if ltb_ℤ d.memory d.min_memory
    then err min_memory_above_memory
    else ok tt

-- `validateRootAndStorageDisk`.
unfoldable pub validate_root_and_storage_disk : Data → Result ValidationError (Unit {0})
unfolding is_below_floor
validate_root_and_storage_disk d =
    if ltb_ℤ d.disk_size (pos 0)
    then err disk_negative
    else if is_below_floor 20 d.disk_size
    then err disk_too_small
    else if ltb_ℤ (pos 1048576) d.disk_size
    then err disk_too_large
    else if ltb_ℤ d.storage_disk_size (pos 0)
    then err storage_negative
    else if is_below_floor 5 d.storage_disk_size
    then err storage_too_small
    else if ltb_ℤ (pos 1048576) d.storage_disk_size
    then err storage_too_large
    else ok tt

unfoldable pub check_segment : Bool → ℕ → Text → Result PrefixError (Unit {0})
check_segment reject_empty i segment =
    if text_eq segment []
    then (if reject_empty then err (empty_segment i) else ok tt)
    else if is_safe_name segment
    then ok tt
    else err (unsafe_segment i)

unfoldable pub check_segments : Bool → ℕ → List Text → Result PrefixError (Unit {0})
unfolding check_segment
check_segments reject_empty i [] = ok tt
check_segments reject_empty i (segment ∷ segments) =
    check_segment reject_empty i segment >> check_segments reject_empty (i + 1) segments

-- `validateDatasetPrefixSegments`.
unfoldable pub validate_dataset_prefix_segments : Text → Bool → Result PrefixError (Unit {0})
unfolding check_segments split
validate_dataset_prefix_segments prefix reject_empty =
    if text_eq prefix [] then ok tt else check_segments reject_empty 0 (split b'/' prefix)

unfoldable pub check_name : ValidationError → Text → Result ValidationError (Unit {0})
check_name e name = if is_safe_name name then ok tt else err e

-- `validatePathNames`.
unfoldable pub validate_path_names : Data → Result ValidationError (Unit {0})
unfolding check_name
validate_path_names d =
    check_name pool_unsafe d.pool
    >> (check_name network_interface_unsafe d.network_interface
        >> relabel prefix_rejected (validate_dataset_prefix_segments d.dataset_prefix true))

-- A key of a map of names seen.
unfoldable pub seen_before : List Text → Text → Bool
unfolding any_of
seen_before seen name = any_of (text_eq name) seen

check_size : AdditionalDisk → Result DiskError (Unit {0})
check_size disk =
    if ltb_ℤ disk.size (pos 5)
    then err size_too_small
    else if ltb_ℤ (pos 1048576) disk.size
    then err size_too_large
    else if is_safe_name disk.pool
    then ok tt
    else err disk_pool_unsafe

check_volume_name : List Text → Text → Result DiskError (Unit {0})
check_volume_name seen [] = ok tt
check_volume_name seen (c ∷ name) =
    if is_safe_name (c ∷ name)
    then (if seen_before seen (c ∷ name) then err name_collides else ok tt)
    else err name_unsafe

check_filesystem : Text → Result DiskError (Unit {0})
check_filesystem fs =
    if text_eq fs [] || text_eq fs (codes "xfs") || text_eq fs (codes "ext4")
    then ok tt
    else err filesystem_unknown

-- `validateOneAdditionalDisk`, on the names seen.
unfoldable pub validate_one_additional_disk :
    AdditionalDisk → List Text → Result DiskError (Unit {0})
unfolding check_size check_volume_name check_filesystem seen_before
validate_one_additional_disk disk seen =
    check_size disk
    >> (relabel disk_prefix (validate_dataset_prefix_segments disk.dataset_prefix false)
        >> (check_volume_name seen disk.name >> check_filesystem disk.filesystem))

-- The names seen after a disk.
unfoldable pub and_name : Text → List Text → List Text
and_name [] seen = seen
and_name (c ∷ name) seen = (c ∷ name) ∷ seen

unfoldable pub validate_disks :
    ℕ → List AdditionalDisk → List Text → Result ValidationError (Unit {0})
unfolding validate_one_additional_disk and_name
validate_disks i [] seen = ok tt
validate_disks i (disk ∷ disks) seen =
    relabel (disk_rejected i) (validate_one_additional_disk disk seen)
    >> validate_disks (i + 1) disks (and_name disk.name seen)

-- `validateAdditionalDisks`.
unfoldable pub validate_additional_disks : Data → Result ValidationError (Unit {0})
unfolding validate_disks
validate_additional_disks d =
    if ltb 16 (length d.additional_disks)
    then err too_many_disks
    else validate_disks 0 d.additional_disks []

check_mtu : ℤ → Result NicError (Unit {0})
check_mtu (pos zero) = ok tt
check_mtu (pos (suc n)) =
    if ltb (suc n) 576 || ltb 9216 (suc n) then err mtu_out_of_range else ok tt
check_mtu (negsuc n) = err mtu_out_of_range

-- `validateOneAdditionalNIC`, on the interfaces seen.
unfoldable pub validate_one_additional_nic : AdditionalNic → List Text → Result NicError (Unit {0})
unfolding seen_before check_mtu
validate_one_additional_nic nic seen =
    if text_eq nic.network_interface []
    then err interface_missing
    else if not (is_safe_name nic.network_interface)
    then err interface_unsafe
    else if seen_before seen nic.network_interface
    then err interface_duplicate
    else if text_eq nic.nic_type []
        || text_eq nic.nic_type (codes "VIRTIO")
        || text_eq nic.nic_type (codes "E1000")
    then check_mtu nic.mtu
    else err type_unknown

unfoldable pub validate_nics :
    ℕ → List AdditionalNic → List Text → Result ValidationError (Unit {0})
unfolding validate_one_additional_nic
validate_nics i [] seen = ok tt
validate_nics i (nic ∷ nics) seen =
    relabel (nic_rejected i) (validate_one_additional_nic nic seen)
    >> validate_nics (i + 1) nics (nic.network_interface ∷ seen)

-- `validateAdditionalNICs`.
unfoldable pub validate_additional_nics : Data → Result ValidationError (Unit {0})
unfolding validate_nics and_name
validate_additional_nics d =
    if ltb 16 (length d.additional_nics)
    then err too_many_nics
    else validate_nics 0 d.additional_nics (and_name d.network_interface [])

-- `Validate`; the argument is whether the operator bypasses the allowlist of extensions.
unfoldable pub validate : Bool → Data → Result ValidationError (Unit {0})
unfolding validate_cpu validate_memory validate_root_and_storage_disk validate_path_names
    validate_additional_disks validate_additional_nics
validate bypass d =
    validate_cpu d
    >> (validate_memory d
        >> (validate_root_and_storage_disk d
            >> (relabel extension_rejected (validate_extensions bypass 0 d.extensions)
                >> (validate_path_names d
                    >> (validate_additional_disks d >> validate_additional_nics d)))))
