-- ===== src/Autoscaler/Server.antt =====
-- internal/autoscaler/server.go and adapter.go: the handlers of the external gRPC cloud provider.
pub mod Scaling
pub mod Refusals
use omni_infra_provider_true.Base.{
  ℕ, ◌+◌, ◌-◌, ◌%◌, ◌≡◌, Bool, true, false, List, [], ◌∷◌, map, Option, none, some, String, str_eq,
  ltb, if◌then◌else◌,
}
use omni_infra_provider_true.Base.Int.{ℤ, pos, negsuc, u32_mod, leb_ℤ}
use omni_infra_provider_true.Base.Result.{Result, ok, err}
use omni_infra_provider_true.Clock.{Time}
use omni_infra_provider_true.Text.{Text, codes, text_eq}
use omni_infra_provider_true.Omni.{MachineSet, MachineClass}
use omni_infra_provider_true.Omni.Store.{Store, StateError, UpdateError, refused, failed}
use omni_infra_provider_true.Autoscaler.Annotations.{Config}
use omni_infra_provider_true.Autoscaler.Capacity.{
  CapacityAnswers, Decision, Outcome, allowed, denied_hard, warned_soft, errored, check_capacity,
}
use omni_infra_provider_true.Autoscaler.Discovery.{NodeGroup, discover}
use omni_infra_provider_true.Autoscaler.Writer.{
  WriteError, delta_not_positive, missing_config, at_or_above_max, MutatorError, allocation_missing,
  rotation_lock_held, above_max, IncreaseError, rejected, update_failed, increase_machine_count,
}

-- The gRPC codes that the handlers answer with.
pub data Code : Type 0 where
  unimplemented invalid_argument unavailable not_found resource_exhausted failed_precondition : Code

-- The result label of the scale-up metric.
pub data ScaleResult : Type 0 where
  succeeded rejected_invalid rejected_not_found rejected_bounds : ScaleResult
  denied_capacity deferred_rotation errored_internal : ScaleResult

-- `crashed` is the dereference of a nil pointer.
pub data Reply {ℓ} (A : Type ℓ) : Type ℓ where
  replied : A → Reply A
  status : Code → Reply A
  crashed : Reply A

-- A gate is asked about a pool; the adapter below is one.
pub record Server : Type 0 where
  pub has_discoverer : Bool
  pub has_writer : Bool
  pub gate : Option (Text → CapacityAnswers)
  pub default_pool : Text

-- A pool as TrueNAS lists it.
pub record PoolInfo : Type 0 where
  pub name : Text
  pub free : ℤ
  pub healthy : Bool

unfoldable pub find_pool : Text → List PoolInfo → Result Text ℤ
find_pool pool [] = err (codes "not found on TrueNAS host")
find_pool pool (p ∷ ps) =
    let rest = find_pool pool ps in if text_eq p.name pool then ok p.free else rest

pool_free_bytes : Result Text (List PoolInfo) → Text → Result Text ℤ
unfolding find_pool
pool_free_bytes (err e) pool = err e
pool_free_bytes (ok pools) pool = find_pool pool pools

-- `TrueNASCapacityAdapter`: the query of the host's memory is not implemented.
unfoldable pub true_nas_capacity_adapter : Result Text (List PoolInfo) → Text → CapacityAnswers
unfolding pool_free_bytes
true_nas_capacity_adapter pools pool = record {
  pool_free = pool_free_bytes pools pool;
  host_free = err (codes "host free memory query not implemented yet");
}

-- A conversion to int32.
unfoldable pub to_int32 : ℕ → ℤ
to_int32 n = let r = n % u32_mod in if ltb r 2147483648 then pos r else negsuc (u32_mod - 1 - r)

pub record ProtoNodeGroup : Type 0 where
  pub id : String
  pub min_size : ℤ
  pub max_size : ℤ

proto_with : NodeGroup → Option Config → Reply ProtoNodeGroup
unfolding to_int32
proto_with g none = crashed
proto_with g (some cfg) =
    replied (record { id = g.id; min_size = to_int32 cfg.min; max_size = to_int32 cfg.max })

unfoldable pub to_proto_node_group : NodeGroup → Reply ProtoNodeGroup
unfolding proto_with
to_proto_node_group g = proto_with g g.config

proto_cons : Reply ProtoNodeGroup → Reply (List ProtoNodeGroup) → Reply (List ProtoNodeGroup)
proto_cons (replied p) (replied ps) = replied (p ∷ ps)
proto_cons (status c) rest = status c
proto_cons crashed rest = crashed
proto_cons (replied p) (status c) = status c
proto_cons (replied p) crashed = crashed

unfoldable pub to_proto_node_groups : List NodeGroup → Reply (List ProtoNodeGroup)
unfolding to_proto_node_group proto_cons
to_proto_node_groups [] = replied []
to_proto_node_groups (g ∷ gs) = proto_cons (to_proto_node_group g) (to_proto_node_groups gs)

groups_reply : Result StateError (List NodeGroup) → Reply (List ProtoNodeGroup)
unfolding to_proto_node_groups
groups_reply (err e) = status unavailable
groups_reply (ok groups) = to_proto_node_groups groups

-- `NodeGroups`, on the outcome of discovery.
unfoldable pub node_groups :
    Server → Result StateError (List NodeGroup) → Reply (List ProtoNodeGroup)
unfolding groups_reply
node_groups s found = if s.has_discoverer then groups_reply found else status unimplemented

-- The loop that breaks at the first group with the ID.
unfoldable pub find_group : String → List NodeGroup → Option NodeGroup
find_group id [] = none
find_group id (g ∷ gs) = let rest = find_group id gs in if str_eq g.id id then some g else rest

size_of : Option NodeGroup → Reply ℤ
unfolding to_int32
size_of none = status not_found
size_of (some g) = replied (to_int32 g.current_size)

size_in : String → Result StateError (List NodeGroup) → Reply ℤ
unfolding size_of find_group
size_in id (err e) = status unavailable
size_in id (ok groups) = size_of (find_group id groups)

-- `NodeGroupTargetSize`.
unfoldable pub node_group_target_size :
    Server → String → Result StateError (List NodeGroup) → Reply ℤ
unfolding size_in
node_group_target_size s id found =
    if s.has_discoverer
    then (if str_eq id "" then status invalid_argument else size_in id found)
    else status unimplemented

-- `NodeGroupForNode`: a node is never one of ours. The argument is whether the request has a node.
unfoldable pub node_group_for_node : Server → Bool → Reply (Option ProtoNodeGroup)
node_group_for_node s has_node =
    if s.has_discoverer
    then (if has_node then replied none else status invalid_argument)
    else status unimplemented

-- `NodeGroupDecreaseTargetSize` and `NodeGroupDeleteNodes`.
unfoldable pub node_group_decrease_target_size : String → ℤ → Reply (Unit {0})
node_group_decrease_target_size id delta = status unimplemented

unfoldable pub node_group_delete_nodes : String → List Text → Reply (Unit {0})
node_group_delete_nodes id nodes = status unimplemented

-- `mapWriterError`.
unfoldable pub map_writer_error : IncreaseError → ScaleResult × Code
map_writer_error (rejected at_or_above_max) = (rejected_bounds, resource_exhausted)
map_writer_error (rejected delta_not_positive) = (errored_internal, unavailable)
map_writer_error (rejected missing_config) = (errored_internal, unavailable)
map_writer_error (update_failed (refused above_max)) = (rejected_bounds, resource_exhausted)
map_writer_error (update_failed (refused rotation_lock_held)) =
    (deferred_rotation, failed_precondition)
map_writer_error (update_failed (refused allocation_missing)) = (errored_internal, unavailable)
map_writer_error (update_failed (failed e)) = (errored_internal, unavailable)

gate_status : Outcome → Option (ScaleResult × Code)
gate_status denied_hard = some (denied_capacity, resource_exhausted)
gate_status errored = some (errored_internal, unavailable)
gate_status warned_soft = none
gate_status allowed = none

-- The group's pool, or the server's default.
unfoldable pub pool_or_default : Text → Text → Text
pool_or_default default pool = if text_eq pool (codes "") then default else pool

gate_with :
    Server → (Text → CapacityAnswers) → Text → Option Config → Reply (Option (ScaleResult × Code))
unfolding gate_status
gate_with s ask pool none = crashed
gate_with s ask pool (some cfg) =
    replied (gate_status (check_capacity (ask (pool_or_default s.default_pool pool)) cfg).outcome)

gate_on : Server → Option (Text → CapacityAnswers) → NodeGroup → Reply (Option (ScaleResult × Code))
unfolding gate_with
gate_on s none g = replied none
gate_on s (some ask) g = gate_with s ask g.pool g.config

-- `evaluateCapacityGate`: nothing is a pass.
unfoldable pub evaluate_capacity_gate : Server → NodeGroup → Reply (Option (ScaleResult × Code))
unfolding gate_on
evaluate_capacity_gate s g = gate_on s s.gate g

module _ (sets : Store MachineSet) where
  -- The reply, the metric's label, and Omni's sets after it.
  abbrev pub Answer : Type 0
  Answer = Reply (Unit {0}) × ScaleResult × sets.State

  abbrev refusal : ScaleResult × Code → sets.State → Answer
  refusal (label, code) w = (status code, label, w)

  written : Result IncreaseError ℕ × sets.State → Answer
  written (err e, w) = refusal (map_writer_error e) w
  written (ok size, w) = (replied tt, succeeded, w)

  write_after : Reply (Option (ScaleResult × Code)) → NodeGroup → ℤ → Time → sets.State → Answer
  unfolding written
  write_after (replied none) g delta now w = written (increase_machine_count sets g delta now w)
  write_after (replied (some why)) g delta now w = refusal why w
  write_after (status code) g delta now w = (status code, errored_internal, w)
  write_after crashed g delta now w = (crashed, errored_internal, w)

  increase_found : Server → Option NodeGroup → ℤ → Time → sets.State → Answer
  unfolding write_after
  increase_found s none delta now w = (status not_found, rejected_not_found, w)
  increase_found s (some g) delta now w = write_after (evaluate_capacity_gate s g) g delta now w

  increase_in :
      Server → String → ℤ → Result StateError (List NodeGroup) → Time → sets.State → Answer
  unfolding increase_found
  increase_in s id delta (err e) now w = (status unavailable, errored_internal, w)
  increase_in s id delta (ok groups) now w = increase_found s (find_group id groups) delta now w

  -- `NodeGroupIncreaseSize`, on the outcome of discovery and the clock of the write.
  unfoldable pub node_group_increase_size :
      Server → String → ℤ → Result StateError (List NodeGroup) → Time → sets.State → Answer
  unfolding increase_in
  node_group_increase_size s id delta found now w =
      if s.has_discoverer
      then (if s.has_writer
          then (if str_eq id ""
              then (status invalid_argument, rejected_invalid, w)
              else if leb_ℤ delta (pos 0)
              then (status invalid_argument, rejected_invalid, w)
              else increase_in s id delta found now w)
          else (status unimplemented, errored_internal, w))
      else (status unimplemented, errored_internal, w)
