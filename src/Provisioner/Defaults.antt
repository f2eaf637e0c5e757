-- ===== src/Provisioner/Defaults.antt =====
-- What the defaults leave.
use omni_infra_provider_true.Base.{ℕ, zero, suc, ◌+◌, ◌≡◌, refl, List, [], ◌∷◌, ◌++◌}
use omni_infra_provider_true.Base.Int.{ℤ, pos, negsuc}
use omni_infra_provider_true.Text.{Text, codes, text_eq}
use omni_infra_provider_true.Text.Decimal.{format_uint}
use omni_infra_provider_true.Provisioner.{
  ProviderConfig, AdditionalDisk, Data, default_text, default_int, default_disk, default_disks,
  with_storage, unconsumed, apply_defaults,
}

default_text_again :
    (value default : Text)
    → default_text (default_text value default) default ≡ default_text value default
unfolding default_text text_eq
default_text_again [] [] = refl
default_text_again [] (c ∷ s) = refl
default_text_again (c ∷ s) default = refl

default_boot_again :
    (value given : Text) (c : ℕ) (s : Text)
    → default_text (default_text (default_text (default_text value given) (c ∷ s)) given) (c ∷ s)
      ≡ default_text (default_text value given) (c ∷ s)
unfolding default_text text_eq
default_boot_again [] [] c s = refl
default_boot_again [] (d ∷ given) c s = refl
default_boot_again (d ∷ value) given c s = refl

default_int_again : (z : ℤ) (n : ℕ) → default_int (default_int z n) n ≡ default_int z n
unfolding default_int
default_int_again (pos zero) zero = refl
default_int_again (pos zero) (suc n) = refl
default_int_again (pos (suc m)) n = refl
default_int_again (negsuc m) n = refl

default_disk_again :
    (i : ℕ) (disk : AdditionalDisk) → default_disk i (default_disk i disk) ≡ default_disk i disk
unfolding default_disk
default_disk_again i disk =
    rw
      (
        default_text_again disk.name (codes "data-" ++ format_uint (i + 1)),
        default_text_again disk.filesystem (codes "xfs"),
      )
      refl

default_disks_again :
    (i : ℕ) (disks : List AdditionalDisk)
    → default_disks i (default_disks i disks) ≡ default_disks i disks
unfolding default_disks
default_disks_again i [] = refl
default_disks_again i (disk ∷ disks) =
    rw (default_disk_again i disk, default_disks_again (i + 1) disks) refl

with_storage-unconsumed :
    (size : ℤ) (disks : List AdditionalDisk) → with_storage (unconsumed size) disks ≡ disks
unfolding with_storage unconsumed
with_storage-unconsumed (pos n) disks = refl
with_storage-unconsumed (negsuc n) disks = refl

unconsumed_again : (size : ℤ) → unconsumed (unconsumed size) ≡ unconsumed size
unfolding unconsumed
unconsumed_again (pos n) = refl
unconsumed_again (negsuc n) = refl

-- The defaults are applied once and for all: applied again they change nothing, for every
-- configuration. The disk that `storage_disk_size` stands for is not added a second time.
apply_defaults-idempotent :
    (cfg : ProviderConfig) (d : Data)
    → apply_defaults cfg (apply_defaults cfg d) ≡ apply_defaults cfg d
unfolding apply_defaults
apply_defaults-idempotent cfg d =
    rw
      (
        default_int_again d.cpus 2,
        default_int_again d.memory 4096,
        default_int_again d.disk_size 40,
        default_text_again d.pool cfg.default_pool,
        default_text_again d.network_interface cfg.default_network_interface,
        default_boot_again d.boot_method cfg.default_boot_method b'U' (codes "EFI"),
        default_text_again d.architecture (codes "amd64"),
        with_storage-unconsumed d.storage_disk_size
            (default_disks 0 (with_storage d.storage_disk_size d.additional_disks)),
        default_disks_again 0 (with_storage d.storage_disk_size d.additional_disks),
        unconsumed_again d.storage_disk_size,
      )
      refl
