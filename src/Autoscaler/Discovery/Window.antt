-- ===== src/Autoscaler/Discovery/Window.antt =====
-- What a discovered node group stands on, and the window that it is given.
use omni_infra_provider_true.Base.{◌≡◌, inl, inr, refl, false, Option, none, some, Bool-cases}
use omni_infra_provider_true.Base.Result.{Result, ok, err}
use omni_infra_provider_true.Clock.{Time}
use omni_infra_provider_true.Omni.{
  MachineSet, MachineClass, Allocation, AllocationType, static, unlimited,
}
use omni_infra_provider_true.Omni.Store.{Store, StateError}
use omni_infra_provider_true.Autoscaler.Annotations.{
  Config, ConfigError, parse_machine_class_autoscale_config,
}
use omni_infra_provider_true.Autoscaler.Discovery.{
  NodeGroup, group_with, classify_config, classify_class, classify_typed, classify_allocated,
  classify,
}

-- A class that the client gave for a set's allocation, with its policy.
pub record IsManaged (classes : Store MachineClass) (s : classes.State) (a : Allocation)
    (cfg : Config) : Type 0 where
  pub class : MachineClass
  pub stored : classes.read s a.name ≡ some class
  pub parsed : parse_machine_class_autoscale_config class.annotations ≡ ok (some cfg)

pub record IsNodeGroup (classes : Store MachineClass) (s : classes.State) (now : Time)
    (ms : MachineSet) (g : NodeGroup) : Type 0 where
  pub worker : ms.labels.control_plane ≡ false
  pub a : Allocation
  pub allocated : ms.allocation ≡ some a
  pub typed : a.allocation_type ≡ static
  pub cfg : Config
  pub managed : IsManaged classes s a cfg
  pub made : g ≡ group_with now ms a cfg

module _ (classes : Store MachineClass) (s : classes.State) (now : Time) (ms : MachineSet) where
  config_made :
      (a : Allocation) (r : Result ConfigError (Option Config)) (g : NodeGroup)
      → classify_config now ms a r ≡ ok (some g)
      → (cfg : Config) × (r ≡ ok (some cfg)) × (g ≡ group_with now ms a cfg)
  unfolding classify_config
  config_made a (err e) g h = absurd (cc h)
  config_made a (ok none) g h = absurd (cc h)
  config_made a (ok (some cfg)) g h = (cfg, refl, cc h)

  class_made :
      (a : Allocation) (r : Result StateError MachineClass) (g : NodeGroup)
      → classes.get s a.name ≡ r
      → classify_class now ms a r ≡ ok (some g)
      → (cfg : Config) × IsManaged classes s a cfg × (g ≡ group_with now ms a cfg)
  unfolding classify_class
  class_made a (err e) g got h = absurd (cc h)
  class_made a (ok mc) g got h =
      let (cfg, parsed, made) =
        config_made a (parse_machine_class_autoscale_config mc.annotations) g h in
      (cfg, record { class = mc; stored = classes.get_ok s a.name mc got; parsed = parsed }, made)

  typed_made :
      (a : Allocation) (t : AllocationType) (g : NodeGroup)
      → classify_typed classes now ms a t s ≡ ok (some g)
      → (t ≡ static) × ((cfg : Config) × IsManaged classes s a cfg × (g ≡ group_with now ms a cfg))
  unfolding classify_typed
  typed_made a unlimited g h = absurd (cc h)
  typed_made a static g h = (refl, class_made a (classes.get s a.name) g refl h)

  allocated-IsNodeGroup :
      (o : Option Allocation) (g : NodeGroup)
      → ms.labels.control_plane ≡ false
      → ms.allocation ≡ o
      → classify_allocated classes now ms o s ≡ ok (some g)
      → IsNodeGroup classes s now ms g
  unfolding classify_allocated
  allocated-IsNodeGroup none g worker p h = absurd (cc h)
  allocated-IsNodeGroup (some a) g worker p h =
      let (typed, (cfg, managed, made)) = typed_made a a.allocation_type g h in
      record {
        worker = worker;
        a = a;
        allocated = p;
        typed = typed;
        cfg = cfg;
        managed = managed;
        made = made;
      }

  -- A set becomes a node group only if it has no control-plane label, a static allocation and a class
  -- in the store whose policy parses. The group carries the set's count as its size and the class's
  -- policy, narrowed to that size while a rotation step holds the lock.
  pub classify-IsNodeGroup :
      (g : NodeGroup) → classify classes now ms s ≡ ok (some g) → IsNodeGroup classes s now ms g
  unfolding classify
  classify-IsNodeGroup g h = elim (Bool-cases ms.labels.control_plane) [
    | inl e ↦ absurd (cc (rw e at h))
    | inr e ↦ allocated-IsNodeGroup ms.allocation g e refl (rw e at h)
  ]
