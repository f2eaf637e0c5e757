-- ===== src/Rotation/Engine/Steps.antt =====
-- What a surge step writes on the live MachineSet.
use omni_infra_provider_true.Base.{ℕ, suc, ◌<◌, ◌≡◌, some, arith}
use omni_infra_provider_true.Base.Int.{pos, negsuc, ◌+ℤ◌, u32_mod}
use omni_infra_provider_true.Base.Result.{ok}
use omni_infra_provider_true.Clock.{Time}
use omni_infra_provider_true.Text.{Text}
use omni_infra_provider_true.Omni.{MachineSet, Allocation, set_annotation}
use omni_infra_provider_true.Rotation.Annotations.{
  annotation_rotation_state, annotation_surge_phase,
}
use omni_infra_provider_true.Rotation.Lock.{format_rotation_state_annotation}
use omni_infra_provider_true.Rotation.Phase.{SurgePhaseState, format_surge_phase_annotation}
use omni_infra_provider_true.Rotation.Engine.{surge_step}

-- The set after a step: the lock, the phase and the new count.
abbrev pub stepped : Text → Time → SurgePhaseState → MachineSet → Allocation → ℕ → MachineSet
stepped generation now next ms a count = record ms {
  annotations = set_annotation annotation_surge_phase (format_surge_phase_annotation next) (
      set_annotation annotation_rotation_state (format_rotation_state_annotation generation now)
        ms.annotations);
  allocation = some (record a { machine_count = count });
}

module _ (generation : Text) (now : Time) (next : SurgePhaseState) (ms : MachineSet)
    (a : Allocation) (allocated : ms.allocation ≡ some a) where
  pub surge_step-up :
      suc a.machine_count < u32_mod
      → surge_step generation now next (pos 1) ms
        ≡ ok (tt, stepped generation now next ms a (suc a.machine_count))
  unfolding surge_step ◌+ℤ◌
  surge_step-up h = ground arith

  pub surge_step-down :
      (n : ℕ)
      → n < u32_mod
      → a.machine_count ≡ suc n
      → surge_step generation now next (negsuc 0) ms ≡ ok (tt, stepped generation now next ms a n)
  unfolding surge_step ◌+ℤ◌
  surge_step-down n h e = ground arith
