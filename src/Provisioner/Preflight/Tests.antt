-- ===== src/Provisioner/Preflight/Tests.antt =====
-- Instances of the theorems on the checks before a machine is made.
use omni_infra_provider_true.Provisioner.Fixtures.{small_class}
use omni_infra_provider_true.Base.{
  ℕ, ◌+◌, ◌*◌, ◌/◌, ◌≤◌, ◌≡◌, ◌↔◌, ◌⊎◌, refl, false, List, [], ◌∷◌, Option, some, arith,
  if◌then◌else◌,
}
use omni_infra_provider_true.Base.Int.{ℤ, pos, ◌≤ℤ◌, ◌+ℤ◌}
use omni_infra_provider_true.Base.Result.{ok}
use omni_infra_provider_true.Int64.{wrap, scale}
use omni_infra_provider_true.Text.{Text, codes, text_eq}
use omni_infra_provider_true.Provisioner.{Data, AdditionalDisk}
use omni_infra_provider_true.Provisioner.Preflight.{
  Guest, preflight_host_memory, check_pool_space_all, pool_required_gib, check_pools,
  check_pool_space, add_disks, add_required,
}
use omni_infra_provider_true.Provisioner.Preflight.Memory.{committed, preflight_host_memory_iff}
use omni_infra_provider_true.Provisioner.Preflight.Space.{
  demand, total_gib, check_pool_space_all-bound,
}

abbrev disk : Text → ℕ → AdditionalDisk
disk pool size = record {
  size = pos size;
  pool = pool;
  dataset_prefix = [];
  encrypted = false;
  name = [];
  filesystem = [];
}

abbrev machine : Data
machine = record small_class {
  min_memory = pos 2048;
  dataset_prefix = [];
  additional_disks = disk [] 60 ∷ disk (codes "fast") 10 ∷ [];
}

abbrev guests : List Guest
guests =
    record { state = "RUNNING"; memory = pos 8192 }
    ∷ record { state = "STOPPED"; memory = pos 65536 }
    ∷ []

preflight_host_memory_iff_example :
    (preflight_host_memory machine (some (pos 17179869184)) (some guests) ≡ ok tt) ↔ (
      (100 * 4096 ≤ 80 * (17179869184 / 1048576))
      × (100 * 2048 + 90 * committed guests ≤ 90 * (17179869184 / 1048576)))
unfolding committed
preflight_host_memory_iff_example =
    preflight_host_memory_iff machine 17179869184 4096 2048 guests (refl, (refl, tt)) refl refl
      (omega arith) (omega arith) (omega arith)

-- Free space for exactly the disks on a pool.
abbrev pool_free_space : Text → Option ℤ
pool_free_space pool =
    some (if text_eq pool (codes "fast") then pos (10 * 1073741824) else pos (100 * 1073741824))

check_pool_space_all-bound_example :
    (demand (codes "tank") machine ≡ 0)
    ⊎ (pos (demand (codes "tank") machine * 1073741824) ≤ℤ pos (100 * 1073741824))
unfolding total_gib check_pool_space_all check_pools check_pool_space pool_required_gib add_disks
    add_required text_eq wrap scale ◌+ℤ◌
check_pool_space_all-bound_example =
    check_pool_space_all-bound pool_free_space machine (codes "tank") (pos (100 * 1073741824)) refl
      (refl, (refl, tt)) (omega arith) refl refl
