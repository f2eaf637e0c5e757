-- ===== src/Provisioner/Preflight.antt =====
-- internal/provisioner/steps.go and internal/client/vm.go: the checks of the pools and of the host's
-- memory before a machine is made. TrueNAS's answers are inputs; none is an error.
pub mod Memory
pub mod Space
mod Tests
use omni_infra_provider_true.Base.{
  ℕ, ◌*◌, Bool, true, false, List, [], ◌∷◌, ◌++◌, Option, none, some, String, str_eq, any_of, ◌==◌,
  if◌then◌else◌,
}
use omni_infra_provider_true.Base.Int.{ℤ, pos, ◌+ℤ◌, ◌-ℤ◌, ltb_ℤ}
use omni_infra_provider_true.Base.Result.{Result, ok, err, ◌>>◌, fail_if}
use omni_infra_provider_true.Int64.{wrap, scale, quotient}
use omni_infra_provider_true.Text.{Text, text_eq}
use omni_infra_provider_true.Provisioner.{Data, AdditionalDisk}

-- A machine as `vm.query` lists it.
pub record Guest : Type 0 where
  pub state : String
  pub memory : ℤ

pub data PreflightError : Type 0 where
  pool_unverified pool_not_found pool_is_path : PreflightError
  pool_full : Text → PreflightError
  exceeds_host host_out_of_memory : PreflightError

sum_from : ℤ → List Guest → ℤ
unfolding wrap
sum_from total [] = total
sum_from total (g ∷ gs) =
    sum_from (if str_eq g.state "RUNNING" then wrap (total +ℤ g.memory) else total) gs

-- `RunningGuestsMemoryMiB`, on what is listed.
unfoldable pub running_guests_memory_mib : List Guest → ℤ
unfolding sum_from
running_guests_memory_mib guests = sum_from (pos 0) guests

-- The memory that the host locks when the machine starts.
abbrev pub reserved_mib : Data → ℤ
reserved_mib d = if ltb_ℤ (pos 0) d.min_memory then d.min_memory else d.memory

-- The check against the memory that is left, or none where the guests cannot be listed.
check_free : Data → ℤ → Option (List Guest) → Result PreflightError (Unit {0})
unfolding running_guests_memory_mib quotient scale
check_free d host_mib none = ok tt
check_free d host_mib (some guests) =
    let free_mib = wrap (host_mib -ℤ running_guests_memory_mib guests) in
    fail_if (ltb_ℤ (quotient (scale 90 free_mib) 100) (reserved_mib d)) host_out_of_memory

-- `preflightHostMemory`, on the host's memory in bytes and its guests.
unfoldable pub preflight_host_memory :
    Data → Option ℤ → Option (List Guest) → Result PreflightError (Unit {0})
unfolding check_free quotient scale
preflight_host_memory d none guests = ok tt
preflight_host_memory d (some host_mem) guests =
    let host_mib = quotient host_mem (1024 * 1024) in
    fail_if (ltb_ℤ (quotient (scale 80 host_mib) 100) d.memory) exceeds_host
    >> check_free d host_mib guests

-- `poolRequiredGiB[pool] += size`.
unfoldable pub add_required : Text → ℤ → List (Text × ℤ) → List (Text × ℤ)
unfolding wrap
add_required pool size [] = (pool, size) ∷ []
add_required pool size ((p, n) ∷ rest) =
    let others = add_required pool size rest in
    if text_eq p pool then (p, wrap (n +ℤ size)) ∷ rest else (p, n) ∷ others

abbrev pub disk_pool : Data → AdditionalDisk → Text
disk_pool d disk = if text_eq disk.pool [] then d.pool else disk.pool

unfoldable pub add_disks : Data → List AdditionalDisk → List (Text × ℤ) → List (Text × ℤ)
unfolding add_required
add_disks d [] required = required
add_disks d (disk ∷ disks) required =
    add_disks d disks (add_required (disk_pool d disk) disk.size required)

-- The space that each pool has to have, in GiB.
unfoldable pub pool_required_gib : Data → List (Text × ℤ)
unfolding add_disks
pool_required_gib d = add_disks d d.additional_disks ((d.pool, d.disk_size) ∷ [])

check_pool_space : Text → ℤ → Option ℤ → Result PreflightError (Unit {0})
unfolding scale
check_pool_space pool required none = ok tt
check_pool_space pool required (some free) =
    fail_if (ltb_ℤ free (scale (1024 * 1024 * 1024) required)) (pool_full pool)

unfoldable pub check_pools : (Text → Option ℤ) → List (Text × ℤ) → Result PreflightError (Unit {0})
unfolding check_pool_space
check_pools pool_free_space [] = ok tt
check_pools pool_free_space ((pool, required) ∷ rest) =
    check_pool_space pool required (pool_free_space pool) >> check_pools pool_free_space rest

-- The check of the pools in `stepCreateVM`; Go visits the pools in any order.
unfoldable pub check_pool_space_all : (Text → Option ℤ) → Data → Result PreflightError (Unit {0})
unfolding check_pools pool_required_gib
check_pool_space_all pool_free_space d = check_pools pool_free_space (pool_required_gib d)

-- `validatePool`.
unfoldable pub validate_pool : Option Bool → Text → Result PreflightError (Unit {0})
validate_pool none pool = err pool_unverified
validate_pool (some true) pool = ok tt
validate_pool (some false) pool =
    if any_of (λ c. c == b'/') pool then err pool_is_path else err pool_not_found
