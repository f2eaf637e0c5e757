-- ===== src/Autoscaler/Tests.antt =====
-- Instances of the theorems on the autoscaler.
use omni_infra_provider_true.Base.{[], ◌∷◌}
use omni_infra_provider_true.Text.{cut}
use omni_infra_provider_true.Omni.{MachineClass}
use omni_infra_provider_true.Autoscaler.Lock.{rotation_lock_annotation}
use omni_infra_provider_true.Autoscaler.Discovery.{lock_blocks, classify, window, group_with}
use omni_infra_provider_true.Autoscaler.Writer.{rejected, at_or_above_max}
use omni_infra_provider_true.Autoscaler.Server.{
  Server, replied, node_group_increase_size, find_group, evaluate_capacity_gate,
}
use omni_infra_provider_true.Autoscaler.Server.Scaling.{IsScaled, node_group_increase_size-IsScaled}
use omni_infra_provider_true.Autoscaler.Server.Refusals.{increase_machine_count-classify}
use omni_infra_provider_true.Base.{
  ℕ, ◌*◌, ◌≡◌, ◌↔◌, refl, true, false, none, some, str_eq, if◌then◌else◌, arith,
}
use omni_infra_provider_true.Base.Int.{pos, ◌-ℤ◌}
use omni_infra_provider_true.Base.Result.{Result, ok, err}
use omni_infra_provider_true.Clock.{ns_per_second, time_sub, time_unix}
use omni_infra_provider_true.Text.{codes, text_eq, trim_space, to_lower}
use omni_infra_provider_true.Text.Signed.{parse_int}
use omni_infra_provider_true.Text.Decimal.{parse_uint}
use omni_infra_provider_true.Omni.{MachineSet, Annotations, static}
use omni_infra_provider_true.Omni.Store.{Store}
use omni_infra_provider_true.Omni.Memory.{memory}
use omni_infra_provider_true.Rotation.Lock.{has_active_lock}
use omni_infra_provider_true.Autoscaler.Annotations.{
  Config, soft, is_autoscale_opt_in, parse_machine_class_autoscale_config, parse_non_negative_int,
  parse_capacity_gate, parse_optional_gib_threshold, annotation_autoscale_min,
  annotation_autoscale_max,
}
use omni_infra_provider_true.Autoscaler.Capacity.{
  CapacityAnswers, check_capacity, allowed, HasRoom, check_capacity-allowed_iff, wrap_int64,
}
use omni_infra_provider_true.Autoscaler.Lock.{
  is_rotation_lock_active, is_rotation_lock_active-has_active_lock,
}
use omni_infra_provider_true.Autoscaler.Discovery.{NodeGroup}
use omni_infra_provider_true.Autoscaler.Writer.{
  IncreaseError, increase_machine_count, raise, IsRaised, increase_machine_count-IsRaised,
}

abbrev config : Config
config = record {
  min = 1;
  max = 5;
  capacity_gate = soft;
  min_pool_free_gib = 50;
  min_host_mem_gib = 8;
  pool = codes "tank";
}

abbrev answers : CapacityAnswers
answers = record { pool_free = err (codes "timeout"); host_free = ok (pos 17179869184) }

check_capacity-allowed_iff_example :
    ((check_capacity answers config).outcome ≡ allowed)
    ↔ (HasRoom 50 answers.pool_free × HasRoom 8 answers.host_free)
check_capacity-allowed_iff_example =
    check_capacity-allowed_iff answers config (omega arith) (omega arith)

abbrev noon : ℕ
noon = 1_700_000_000_000_000_000

is_rotation_lock_active-has_active_lock_example :
    is_rotation_lock_active (codes "b1:-5") (pos noon) (pos (300 * ns_per_second))
    ≡ has_active_lock (some (codes "b1:-5")) (pos noon) (pos (300 * ns_per_second))
is_rotation_lock_active-has_active_lock_example =
    is_rotation_lock_active-has_active_lock noon (300 * ns_per_second) (omega arith) (omega arith)
      (codes "b1:-5")

abbrev one_to_three : Annotations
one_to_three k =
    if str_eq k annotation_autoscale_min
    then some (codes "1")
    else if str_eq k annotation_autoscale_max
    then some (codes "3")
    else none

parsed : (cfg : Config) × (parse_machine_class_autoscale_config one_to_three ≡ ok (some cfg))
unfolding parse_machine_class_autoscale_config is_autoscale_opt_in parse_non_negative_int parse_int
    trim_space parse_uint parse_capacity_gate text_eq to_lower parse_optional_gib_threshold
parsed = (_, refl)

abbrev group : NodeGroup
group = record {
  id = "workers";
  machine_class_name = "class";
  pool = codes "tank";
  current_size = 2;
  config = some config;
}

abbrev workers : MachineSet
workers = record {
  id = "workers";
  labels = record {
    control_plane = false;
    cluster = none;
    infra_provider_id = none;
    machine_request_set = none;
  };
  annotations = λ k. none;
  allocation = some (record { name = "class"; machine_count = 2; allocation_type = static });
}

sets : Store MachineSet
sets = memory MachineSet

only_workers : sets.State
unfolding sets memory
only_workers = λ id. if str_eq id "workers" then some workers else none

abbrev raised : Result IncreaseError ℕ × sets.State
raised = increase_machine_count sets group (pos 2) (pos noon) only_workers

increase_machine_count-IsRaised_example : IsRaised sets group 2 (pos noon) only_workers raised.1 4
unfolding sets memory only_workers increase_machine_count wrap_int64 raise
increase_machine_count-IsRaised_example =
    increase_machine_count-IsRaised sets group (pos noon) only_workers 2 4 (omega arith)
      (λ cfg e. ground arith) (λ live a e f. ground arith) refl

abbrev ungated : Server
ungated = record {
  has_discoverer = true;
  has_writer = true;
  gate = none;
  default_pool = codes "tank";
}

scaled :
    (node_group_increase_size sets ungated "workers"
      (pos 2)
      (ok (group ∷ []))
      (pos noon)
      only_workers).0
    ≡ replied tt
unfolding sets memory only_workers node_group_increase_size find_group increase_machine_count
    wrap_int64 raise evaluate_capacity_gate
scaled = refl

node_group_increase_size-IsScaled_example :
    IsScaled sets ungated "workers"
      (pos 2)
      (ok (group ∷ []))
      (pos noon)
      only_workers
      (node_group_increase_size sets ungated "workers"
        (pos 2)
        (ok (group ∷ []))
        (pos noon)
        only_workers).2
node_group_increase_size-IsScaled_example =
    node_group_increase_size-IsScaled sets ungated "workers" (pos 2) (pos noon) only_workers
      (ok (group ∷ [])) scaled

chosen : find_group "workers" (group ∷ []) ≡ some group
unfolding find_group
chosen = refl

abbrev scaled_class : MachineClass
scaled_class = record { id = "class"; annotations = one_to_three; auto_provision = none }

classes : Store MachineClass
classes = memory MachineClass

only_class : classes.State
unfolding classes memory
only_class = λ id. if str_eq id "class" then some scaled_class else none

abbrev locked_workers : MachineSet
locked_workers = record workers {
  annotations =
      λ k. if str_eq k rotation_lock_annotation then some (codes "b1:1700000000") else none;
}

abbrev paused : NodeGroup
paused = record {
  id = "workers";
  machine_class_name = "class";
  pool = parsed.0.pool;
  current_size = 2;
  config = some (record parsed.0 { min = 2; max = 2 });
}

paused_found : classify classes (pos noon) locked_workers only_class ≡ ok (some paused)
unfolding classify classes memory only_class parsed group_with lock_blocks window
    is_rotation_lock_active parse_machine_class_autoscale_config is_autoscale_opt_in
    parse_non_negative_int parse_int trim_space parse_uint parse_capacity_gate text_eq to_lower
    parse_optional_gib_threshold cut time_sub ◌-ℤ◌ time_unix
paused_found = refl

locked : lock_blocks (locked_workers.annotations rotation_lock_annotation) (pos noon) ≡ true
unfolding lock_blocks is_rotation_lock_active cut time_sub ◌-ℤ◌ time_unix parse_int parse_uint
locked = refl

increase_machine_count-classify_example :
    increase_machine_count sets paused (pos 1) (pos noon) only_workers
    ≡ (err (rejected at_or_above_max), only_workers)
increase_machine_count-classify_example =
    increase_machine_count-classify sets classes only_class (pos noon) (pos noon) locked_workers
      paused 0 only_workers paused_found locked (omega arith)
