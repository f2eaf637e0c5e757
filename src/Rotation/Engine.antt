-- ===== src/Rotation/Engine.antt =====
-- internal/noderotation/engine.go: one step of a rotation, as writes on the Omni state. Here are the
-- mutators that each step applies to the live resource; `Execute` is in the child.
pub mod Execute
pub mod Steps
use omni_infra_provider_true.Base.{
  ℕ, ◌%◌, ◌≡◌, refl, Bool, true, false, not, Option, none, some, String, str_eq, if◌then◌else◌,
}
use omni_infra_provider_true.Base.Int.{ℤ, pos, negsuc, ◌+ℤ◌, ltb_ℤ, u32_mod}
use omni_infra_provider_true.Base.Result.{Result, ok, err}
use omni_infra_provider_true.Clock.{Time, Duration, ns_per_second}
use omni_infra_provider_true.Text.{Text}
use omni_infra_provider_true.Omni.{
  MachineSet, MachineClass, MachineRequest, Allocation, set_annotation, delete_annotation,
}
use omni_infra_provider_true.Omni.Store.{Store, StateError, UpdateError}
use omni_infra_provider_true.Rotation.Annotations.{
  annotation_class_generation, annotation_rotation_state, annotation_surge_phase,
}
use omni_infra_provider_true.Rotation.Lock.{format_rotation_state_annotation}
use omni_infra_provider_true.Rotation.Phase.{SurgePhaseState, format_surge_phase_annotation}
use omni_infra_provider_true.Rotation.Candidate.{Candidate, surge_phase}
use omni_infra_provider_true.Rotation.Decision.{
  Action, Decision, no_action, locked_by_prior_step, waiting_for_ready, waiting_for_teardown,
  min_healthy_floor, teardown_stale, surge_up, surge_down, surge_cycle_complete, surge_aborted,
  stamp_generation, refresh_lock, other_action,
}

abbrev pub default_lock_ttl : Duration
default_lock_ttl = pos 300_000_000_000

abbrev pub min_lock_ttl : Duration
min_lock_ttl = pos 30_000_000_000

-- `WithLockTTL`: an operator's value is raised to the floor.
unfoldable pub with_lock_ttl : Duration → Duration
with_lock_ttl ttl = if ltb_ℤ ttl min_lock_ttl then min_lock_ttl else ttl

-- Why a mutator refuses to write.
pub data StepError : Type 0 where
  no_allocation below_zero : StepError

pub data ExecuteError : Type 0 where
  nil_candidate not_actionable unknown_action foreign_provider foreign_set : ExecuteError
  refetch_failed destroy_failed : StateError → ExecuteError
  write_failed : UpdateError StepError → ExecuteError

abbrev pub Written : Type 0 → Type 0
Written R = Result StepError (Unit {0} × R)

-- The mutators, each applied to the live resource.
unfoldable pub stamp_class : Text → MachineClass → Written MachineClass
stamp_class generation mc = ok (
  tt,
  record mc { annotations = set_annotation annotation_class_generation generation mc.annotations },
)

unfoldable pub lock_set : Text → Time → MachineSet → Written MachineSet
lock_set generation now ms = ok (
  tt,
  record ms {
    annotations =
        set_annotation annotation_rotation_state (format_rotation_state_annotation generation now)
          ms.annotations;
  },
)

unfoldable pub unlock_set : MachineSet → Written MachineSet
unlock_set ms =
    ok (tt, record ms { annotations = delete_annotation annotation_rotation_state ms.annotations })

unfoldable pub clear_set : MachineSet → Written MachineSet
clear_set ms = ok (
  tt,
  record ms {
    annotations =
        delete_annotation annotation_rotation_state
          (delete_annotation annotation_surge_phase ms.annotations);
  },
)

-- The count after a step, unless it falls below zero.
next_count : Allocation → ℤ → MachineSet → Written MachineSet
next_count alloc (negsuc n) ms = err below_zero
next_count alloc (pos n) ms =
    ok (tt, record ms { allocation = some (record alloc { machine_count = n % u32_mod }) })

step_on : Option Allocation → ℤ → MachineSet → Written MachineSet
unfolding next_count
step_on none delta ms = err no_allocation
step_on (some alloc) delta ms = next_count alloc (pos alloc.machine_count +ℤ delta) ms

-- The lock, the phase and the count, in one write.
unfoldable pub surge_step : Text → Time → SurgePhaseState → ℤ → MachineSet → Written MachineSet
unfolding step_on
surge_step generation now next delta ms = step_on ms.allocation delta (record ms {
  annotations = set_annotation annotation_surge_phase (format_surge_phase_annotation next) (
      set_annotation annotation_rotation_state (format_rotation_state_annotation generation now)
        ms.annotations);
})

-- The label that a request carries, or the empty string.
abbrev pub label_or_empty : Option String → String
label_or_empty none = ""
label_or_empty (some s) = s
