-- ===== src/Rotation/Candidate.antt =====
-- internal/noderotation/discovery.go: what discovery hands to the engine for one MachineSet.
pub mod Sorting
use omni_infra_provider_true.Base.{
  ℕ, ◌≡◌, refl, Bool, true, false, not, ◌&&◌, List, Option, none, some, String, select, count_if,
  any_of,
}
use omni_infra_provider_true.Clock.{Time, Duration}
use omni_infra_provider_true.Text.{Text}
use omni_infra_provider_true.Omni.{
  MachineSet, MachineClass, MachineRequest, Stage, is_provisioned, is_provisioning,
}
use omni_infra_provider_true.Rotation.Annotations.{
  Config, annotation_rotation_state, annotation_surge_phase,
}
use omni_infra_provider_true.Rotation.Lock
use omni_infra_provider_true.Rotation.Phase.{SurgePhaseState, parse_surge_phase_annotation}

-- One MachineRequest's classification.
pub record RequestStatus : Type 0 where
  pub request : MachineRequest
  pub generation : Text
  pub stale : Bool
  pub stage : Stage
  pub created_at : Time

pub record Candidate : Type 0 where
  pub machine_set : MachineSet
  pub machine_class : MachineClass
  pub config : Config
  pub current_generation : Text
  pub machine_count : ℕ
  pub requests : List RequestStatus

abbrev pub is_fresh_provisioned : RequestStatus → Bool
is_fresh_provisioned r = not r.stale && is_provisioned r.stage

-- `FreshCount`.
unfoldable pub fresh_count : Candidate → ℕ
fresh_count c = count_if is_fresh_provisioned c.requests

-- `StaleRequests`.
unfoldable pub stale_requests : Candidate → List RequestStatus
stale_requests c = select (λ r. r.stale) c.requests

-- `HasActiveLock`.
unfoldable pub has_active_lock : Candidate → Time → Duration → Bool
has_active_lock c now ttl =
    Lock.has_active_lock (c.machine_set.annotations annotation_rotation_state) now ttl

phase_in : Option Text → Option SurgePhaseState
phase_in none = none
phase_in (some raw) = parse_surge_phase_annotation raw

-- `SurgePhase`.
unfoldable pub surge_phase : Candidate → Option SurgePhaseState
unfolding phase_in
surge_phase c = phase_in (c.machine_set.annotations annotation_surge_phase)

-- `hasInFlightProvisioning` and `countStaleProvisioned` of internal/noderotation/plan.go.
unfoldable pub has_in_flight_provisioning : List RequestStatus → Bool
has_in_flight_provisioning reqs = any_of (λ r. is_provisioning r.stage) reqs

unfoldable pub count_stale_provisioned : List RequestStatus → ℕ
count_stale_provisioned stale = count_if (λ r. is_provisioned r.stage) stale
