-- ===== src/Provisioner/Validation/Sound.antt =====
-- What a configuration that passes the checks is like.
use omni_infra_provider_true.Base.{
  ℕ, zero, suc, ◌+◌, ◌≡◌, ◌≢◌, ◌⊎◌, inl, inr, refl, Bool, true, false, List, [], ◌∷◌, All,
  if◌then◌else◌, arith,
}
use omni_infra_provider_true.Base.Int.{ℤ, pos, negsuc, ltb_ℤ, ◌≤ℤ◌}
use omni_infra_provider_true.Base.Result.{ok, err, then_ok, passed, if_passed}
use omni_infra_provider_true.Text.{Text, text_eq}
use omni_infra_provider_true.Provisioner.{Data}
use omni_infra_provider_true.Provisioner.Names.{is_safe_name, split}
use omni_infra_provider_true.Provisioner.Validation.{
  unsafe_segment, ValidationError, memory_negative, memory_too_small, memory_too_large,
  min_memory_negative, min_memory_too_small, min_memory_above_memory, disk_negative, disk_too_small,
  disk_too_large, storage_negative, storage_too_small, storage_too_large, validate_cpu,
  is_below_floor, validate_memory, validate_root_and_storage_disk, check_segment, check_segments,
  validate_dataset_prefix_segments,
}

-- Unset, or between two bounds.
abbrev pub InRange : ℕ → ℕ → ℤ → Type 0
InRange low high z = (z ≡ pos 0) ⊎ ((pos low ≤ℤ z) × (z ≤ℤ pos high))

pub record HasBounds (d : Data) : Type 0 where
  pub cpus : (pos 0 ≤ℤ d.cpus) × (d.cpus ≤ℤ pos 512)
  pub memory : InRange 1024 16777216 d.memory
  pub min_memory : InRange 1024 16777216 d.min_memory
  pub min_memory_fits : d.min_memory ≤ℤ d.memory
  pub disk : InRange 20 1048576 d.disk_size
  pub storage : InRange 5 1048576 d.storage_disk_size

cpu_bounds : (d : Data) → validate_cpu d ≡ ok tt → (pos 0 ≤ℤ d.cpus) × (d.cpus ≤ℤ pos 512)
unfolding validate_cpu
cpu_bounds d h = ground arith

in_range :
    (low high : ℕ) (z : ℤ)
    → ltb_ℤ z (pos 0) ≡ false
    → is_below_floor low z ≡ false
    → ltb_ℤ (pos high) z ≡ false
    → InRange low high z
unfolding is_below_floor
in_range low high (pos zero) h k l = inl refl
in_range low high (pos (suc n)) h k l = inr (ground arith)
in_range low high (negsuc n) h k l = absurd (cc k)

-- Six tests with an early return each.
none_failed :
    (a b c d e f : Bool) (p q r s t u : ValidationError)
    → (if a
        then err p
        else if b
        then err q
        else if c
        then err r
        else if d
        then err s
        else if e
        then err t
        else if f
        then err u
        else passed)
      ≡ passed
    → (a ≡ false) × (b ≡ false) × (c ≡ false) × (d ≡ false) × (e ≡ false) × (f ≡ false)
none_failed a b c d e f p q r s t u h = ground arith

memory_bounds :
    (d : Data)
    → validate_memory d ≡ ok tt
    → InRange 1024 16777216 d.memory
      × InRange 1024 16777216 d.min_memory
      × (d.min_memory ≤ℤ d.memory)
unfolding validate_memory is_below_floor
memory_bounds d h =
    let (a, b, c, e, f, g) =
      none_failed (ltb_ℤ d.memory (pos 0)) (is_below_floor 1024 d.memory)
        (ltb_ℤ (pos 16777216) d.memory) (ltb_ℤ d.min_memory (pos 0))
        (is_below_floor 1024 d.min_memory) (ltb_ℤ d.memory d.min_memory) memory_negative
        memory_too_small memory_too_large min_memory_negative min_memory_too_small
        min_memory_above_memory h in
    let top = in_range 1024 16777216 d.memory a b c in
    (top, in_range 1024 16777216 d.min_memory e f (ground arith), ground arith)

disk_bounds :
    (d : Data)
    → validate_root_and_storage_disk d ≡ ok tt
    → InRange 20 1048576 d.disk_size × InRange 5 1048576 d.storage_disk_size
unfolding validate_root_and_storage_disk is_below_floor
disk_bounds d h =
    let (a, b, c, e, f, g) =
      none_failed (ltb_ℤ d.disk_size (pos 0)) (is_below_floor 20 d.disk_size)
        (ltb_ℤ (pos 1048576) d.disk_size) (ltb_ℤ d.storage_disk_size (pos 0))
        (is_below_floor 5 d.storage_disk_size) (ltb_ℤ (pos 1048576) d.storage_disk_size)
        disk_negative disk_too_small disk_too_large storage_negative storage_too_small
        storage_too_large h in
    (in_range 20 1048576 d.disk_size a b c, in_range 5 1048576 d.storage_disk_size e f g)

-- A part of a path: not empty, so it starts with a letter or a digit.
abbrev pub IsSegment : Text → Type 0
IsSegment s = (s ≢ []) × (is_safe_name s ≡ true)

check_segment-IsSegment : (i : ℕ) (s : Text) → check_segment true i s ≡ ok tt → IsSegment s
unfolding check_segment text_eq
check_segment-IsSegment i [] h = absurd (cc h)
check_segment-IsSegment i (c ∷ s) h =
    (λ e. cc e, if_passed (is_safe_name (c ∷ s)) (unsafe_segment i) h)

segments_sound : (i : ℕ) (ss : List Text) → check_segments true i ss ≡ ok tt → All IsSegment ss
unfolding check_segments
segments_sound i [] h = tt
segments_sound i (s ∷ ss) h =
    let (here, later) = then_ok (check_segment true i s) (check_segments true (i + 1) ss) h in
    (check_segment-IsSegment i s here, segments_sound (i + 1) ss later)

pub prefix_sound :
    (prefix : Text)
    → validate_dataset_prefix_segments prefix true ≡ ok tt
    → (prefix ≡ []) ⊎ All IsSegment (split b'/' prefix)
unfolding validate_dataset_prefix_segments text_eq
prefix_sound [] h = inl refl
prefix_sound (c ∷ s) h = inr (segments_sound 0 (split b'/' (c ∷ s)) h)

pub bounds_sound :
    (d : Data)
    → validate_cpu d ≡ ok tt
    → validate_memory d ≡ ok tt
    → validate_root_and_storage_disk d ≡ ok tt
    → HasBounds d
bounds_sound d cpu memory root =
    let (top, low, fits) = memory_bounds d memory in
    let (disk, storage) = disk_bounds d root in
    record {
      cpus = cpu_bounds d cpu;
      memory = top;
      min_memory = low;
      min_memory_fits = fits;
      disk = disk;
      storage = storage;
    }
