-- ===== src/Autoscaler/Discovery.antt =====
-- internal/autoscaler/discovery.go: the node groups of a cluster.
pub mod Window
use omni_infra_provider_true.Base.{
  ℕ, ◌≡◌, Bool, true, false, List, [], ◌∷◌, Option, none, some, String, if◌then◌else◌,
}
use omni_infra_provider_true.Base.Result.{Result, ok, err}
use omni_infra_provider_true.Clock.{Time}
use omni_infra_provider_true.Text.{Text}
use omni_infra_provider_true.Omni.{
  MachineSet, MachineClass, Allocation, AllocationType, static, unlimited,
}
use omni_infra_provider_true.Omni.Store.{Store, StateError}
use omni_infra_provider_true.Autoscaler.Annotations.{
  Config, ConfigError, parse_machine_class_autoscale_config,
}
use omni_infra_provider_true.Autoscaler.Lock.{
  rotation_lock_annotation, rotation_lock_ttl, is_rotation_lock_active,
}

-- `config` is a pointer in the source.
pub record NodeGroup : Type 0 where
  pub id : String
  pub machine_class_name : String
  pub pool : Text
  pub current_size : ℕ
  pub config : Option Config

pub data ClassifyError : Type 0 where
  not_static : ClassifyError
  class_failed : StateError → ClassifyError
  annotations_invalid : ConfigError → ClassifyError

-- Whether the annotation's value, if there is one, holds a lock.
unfoldable pub lock_blocks : Option Text → Time → Bool
lock_blocks none now = false
lock_blocks (some raw) now = is_rotation_lock_active raw now rotation_lock_ttl

-- While a rotation step holds the lock, the window is the current size.
unfoldable pub window : Bool → ℕ → Config → Config
window paused current cfg = if paused then record cfg { min = current; max = current } else cfg

unfoldable pub group_with : Time → MachineSet → Allocation → Config → NodeGroup
unfolding lock_blocks window
group_with now ms a cfg = record {
  id = ms.id;
  machine_class_name = a.name;
  pool = cfg.pool;
  current_size = a.machine_count;
  config =
      some (window (lock_blocks (ms.annotations rotation_lock_annotation) now) a.machine_count cfg);
}

classify_config :
    Time
    → MachineSet
    → Allocation
    → Result ConfigError (Option Config)
    → Result ClassifyError (Option NodeGroup)
unfolding group_with
classify_config now ms a (err e) = err (annotations_invalid e)
classify_config now ms a (ok none) = ok none
classify_config now ms a (ok (some cfg)) = ok (some (group_with now ms a cfg))

classify_class :
    Time
    → MachineSet
    → Allocation
    → Result StateError MachineClass
    → Result ClassifyError (Option NodeGroup)
unfolding classify_config
classify_class now ms a (err e) = err (class_failed e)
classify_class now ms a (ok mc) =
    classify_config now ms a (parse_machine_class_autoscale_config mc.annotations)

module _ (classes : Store MachineClass) where
  classify_typed :
      Time
      → MachineSet
      → Allocation
      → AllocationType
      → classes.State
      → Result ClassifyError (Option NodeGroup)
  unfolding classify_class
  classify_typed now ms a unlimited s = err not_static
  classify_typed now ms a static s = classify_class now ms a (classes.get s a.name)

  classify_allocated :
      Time
      → MachineSet
      → Option Allocation
      → classes.State
      → Result ClassifyError (Option NodeGroup)
  unfolding classify_typed
  classify_allocated now ms none s = ok none
  classify_allocated now ms (some a) s = classify_typed now ms a a.allocation_type s

  -- `ok none` is a set that is not autoscaled.
  unfoldable pub classify :
      Time → MachineSet → classes.State → Result ClassifyError (Option NodeGroup)
  unfolding classify_allocated
  classify now ms s =
      if ms.labels.control_plane then ok none else classify_allocated now ms ms.allocation s

  -- An append of what a set was classified as: a set that fails is skipped.
  keep : Result ClassifyError (Option NodeGroup) → List NodeGroup → List NodeGroup
  keep (err e) groups = groups
  keep (ok none) groups = groups
  keep (ok (some g)) groups = g ∷ groups

  unfoldable pub node_groups_of : Time → List MachineSet → classes.State → List NodeGroup
  unfolding classify keep
  node_groups_of now [] s = []
  node_groups_of now (ms ∷ sets) s = keep (classify now ms s) (node_groups_of now sets s)

  -- `Discover`, on the sets that the client lists for the cluster's label.
  unfoldable pub discover :
      Time
      → Result StateError (List MachineSet)
      → classes.State
      → Result StateError (List NodeGroup)
  unfolding node_groups_of
  discover now (err e) s = err e
  discover now (ok sets) s = ok (node_groups_of now sets s)
