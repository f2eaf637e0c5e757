-- ===== src/Provisioner/Validation/Disks.antt =====
-- The disks of a configuration that passes the checks.
use omni_infra_provider_true.Base.{
  ℕ, ◌+◌, ◌≡◌, ◌⊎◌, refl, Bool, true, false, ◌||◌, List, [], ◌∷◌, All, if◌then◌else◌, arith,
}
use omni_infra_provider_true.Base.Int.{pos, ◌≤ℤ◌}
use omni_infra_provider_true.Base.Result.{
  ok, err, ◌>>◌, then_ok, passed, if_passed, relabel, relabel_ok,
}
use omni_infra_provider_true.Text.{Text, codes, text_eq, text_eq_sound}
use omni_infra_provider_true.Provisioner.{AdditionalDisk}
use omni_infra_provider_true.Provisioner.Names.{is_safe_name}
use omni_infra_provider_true.Provisioner.Validation.{
  name_collides, name_unsafe, filesystem_unknown, disk_prefix, disk_rejected,
  validate_dataset_prefix_segments, seen_before, check_size, check_volume_name, check_filesystem,
  validate_one_additional_disk, and_name, validate_disks,
}
use omni_infra_provider_true.Provisioner.Validation.Unique.{AllDistinct, Unseen, All-Unseen_cons}

abbrev pub volume_names : List AdditionalDisk → List Text
volume_names [] = []
volume_names (disk ∷ disks) = and_name disk.name (volume_names disks)

pub record IsDisk (disk : AdditionalDisk) : Type 0 where
  pub large_enough : pos 5 ≤ℤ disk.size
  pub small_enough : disk.size ≤ℤ pos 1048576
  pub pool_safe : is_safe_name disk.pool ≡ true
  pub name_safe : is_safe_name disk.name ≡ true
  pub filesystem_known :
      (disk.filesystem ≡ []) ⊎ ((disk.filesystem ≡ codes "xfs") ⊎ (disk.filesystem ≡ codes "ext4"))

size_sound :
    (disk : AdditionalDisk)
    → check_size disk ≡ ok tt
    → (pos 5 ≤ℤ disk.size) × (disk.size ≤ℤ pos 1048576) × (is_safe_name disk.pool ≡ true)
unfolding check_size
size_sound disk h = ground arith

one_of_sound :
    (s t u : Text)
    → (text_eq s [] || text_eq s t || text_eq s u) ≡ true
    → (s ≡ []) ⊎ ((s ≡ t) ⊎ (s ≡ u))
one_of_sound s t u h = ground (arith, text_eq_sound s [], text_eq_sound s t, text_eq_sound s u)

filesystem_sound :
    (fs : Text)
    → check_filesystem fs ≡ ok tt
    → (fs ≡ []) ⊎ ((fs ≡ codes "xfs") ⊎ (fs ≡ codes "ext4"))
unfolding check_filesystem
filesystem_sound fs h = one_of_sound fs (codes "xfs") (codes "ext4") (
    if_passed (text_eq fs [] || text_eq fs (codes "xfs") || text_eq fs (codes "ext4"))
      filesystem_unknown h)

name_flags :
    (safe seen : Bool)
    → (if safe then (if seen then err name_collides else passed) else err name_unsafe) ≡ passed
    → (safe ≡ true) × (seen ≡ false)
name_flags false seen h = absurd (cc h)
name_flags true true h = absurd (cc h)
name_flags true false h = (refl, refl)

-- A name that passes is safe, and adds to the names seen one that was not among them.
volume_name_sound :
    (seen : List Text) (name : Text)
    → check_volume_name seen name ≡ ok tt
    → (is_safe_name name ≡ true) × All (Unseen seen) (and_name name [])
unfolding check_volume_name and_name is_safe_name
volume_name_sound seen [] h = (refl, tt)
volume_name_sound seen (c ∷ name) h =
    let (safe, unseen) = name_flags (is_safe_name (c ∷ name)) (seen_before seen (c ∷ name)) h in
    (safe, (unseen, tt))

validate_one_additional_disk-IsDisk :
    (disk : AdditionalDisk) (seen : List Text)
    → validate_one_additional_disk disk seen ≡ ok tt
    → IsDisk disk × All (Unseen seen) (and_name disk.name [])
unfolding validate_one_additional_disk
validate_one_additional_disk-IsDisk disk seen h =
    let prefix = relabel disk_prefix (validate_dataset_prefix_segments disk.dataset_prefix false) in
    let names = check_volume_name seen disk.name in
    let (sized, rest) =
      then_ok (check_size disk) (prefix >> (names >> check_filesystem disk.filesystem)) h in
    let (prefixed, rest) = then_ok prefix (names >> check_filesystem disk.filesystem) rest in
    let (named, formatted) = then_ok names (check_filesystem disk.filesystem) rest in
    let (large, small, pool) = size_sound disk sized in
    let (safe, unseen) = volume_name_sound seen disk.name named in
    (
      record {
        large_enough = large;
        small_enough = small;
        pool_safe = pool;
        name_safe = safe;
        filesystem_known = filesystem_sound disk.filesystem formatted;
      },
      unseen,
    )

-- The names of the disks after one, seen apart from its own.
distinct_and_name :
    (name : Text) (seen names : List Text)
    → All (Unseen seen) (and_name name [])
    → AllDistinct names
    → All (Unseen (and_name name seen)) names
    → AllDistinct (and_name name names) × All (Unseen seen) (and_name name names)
unfolding and_name
distinct_and_name [] seen names here distinct later = (distinct, later)
distinct_and_name (c ∷ name) seen names here distinct later =
    let (apart, unseen) = All-Unseen_cons (c ∷ name) seen names later in
    ((apart, distinct), (here.0, unseen))

pub disks_sound :
    (i : ℕ) (disks : List AdditionalDisk) (seen : List Text)
    → validate_disks i disks seen ≡ ok tt
    → All IsDisk disks × AllDistinct (volume_names disks) × All (Unseen seen) (volume_names disks)
unfolding validate_disks
disks_sound i [] seen h = (tt, tt, tt)
disks_sound i (disk ∷ disks) seen h =
    let one = validate_one_additional_disk disk seen in
    let (first, rest) =
      then_ok (relabel (disk_rejected i) one)
        (validate_disks (i + 1) disks (and_name disk.name seen)) h in
    let (sound, here) =
      validate_one_additional_disk-IsDisk disk seen (relabel_ok (disk_rejected i) one first) in
    let (sounds, distinct, later) = disks_sound (i + 1) disks (and_name disk.name seen) rest in
    let (apart, unseen) =
      distinct_and_name disk.name seen (volume_names disks) here distinct later in
    ((sound, sounds), apart, unseen)
