-- ===== src/Rotation/Cycle.antt =====
-- Whole surge cycles: `Plan`, the write of each step on the live MachineSet, and the next discovery,
-- while the MachineRequestSet controller (no part of this repository) adds one provisioned machine
-- at the raised count and removes the oldest one at the lowered count.
pub mod Members
pub mod Once
pub mod Rounds
use omni_infra_provider_true.Base.{
  ℕ, zero, suc, ◌+◌, ◌-◌, ◌%◌, ◌≤◌, ◌<◌, ◌≡◌, ◌≢◌, refl, ap, ◌∙◌, sym, Bool, true, false, not, ◌&&◌,
  List, [], ◌∷◌, ◌++◌, Option, none, some, length, select, count_if, count_if-append, select-append,
  length-append, arith, if◌then◌else◌,
}
use omni_infra_provider_true.Base.Int.{pos, negsuc, ◌+ℤ◌, u32_mod}
use omni_infra_provider_true.Base.Result.{ok}
use omni_infra_provider_true.Clock.{
  Time, Duration, IsInt64, time_unix, unix_seconds, unix_seconds-time_unix,
}
use omni_infra_provider_true.Text.{text_eq}
use omni_infra_provider_true.Omni.{MachineSet, Allocation, is_provisioned}
use omni_infra_provider_true.Rotation.Annotations.{
  surge, annotation_rotation_state, annotation_surge_phase,
}
use omni_infra_provider_true.Rotation.Phase.{
  SurgePhaseState, wait_up, wait_down, parse-format_surge_phase,
}
use omni_infra_provider_true.Rotation.Candidate.{
  Candidate, RequestStatus, is_fresh_provisioned, fresh_count, stale_requests, has_active_lock,
  surge_phase, count_stale_provisioned,
}
use omni_infra_provider_true.Rotation.Decision.{
  Decision, no_action, surge_up, surge_down, surge_cycle_complete,
}
use omni_infra_provider_true.Rotation.Plan.{plan, stamped_generation}
use omni_infra_provider_true.Rotation.Plan.Guards.{IsSurging}
use omni_infra_provider_true.Rotation.Plan.Legs.{MayStart, MayDrop, MayFinish}
use omni_infra_provider_true.Rotation.Plan.Surge.{plan-surge_up_iff}
use omni_infra_provider_true.Rotation.Engine.{surge_step, clear_set}

abbrev pub count_in : Option Allocation → ℕ
count_in none = 0
count_in (some a) = a.machine_count

-- The next discovery of the same set: its live resource, its count, and its requests.
abbrev pub observe : Candidate → MachineSet → List RequestStatus → Candidate
observe c ms reqs = record c {
  machine_set = ms;
  machine_count = count_in ms.allocation;
  requests = reqs;
}

-- Between two cycles: nothing in flight, as many requests as the count, every fresh one provisioned,
-- and the floor of min-healthy kept.
pub record IsReady (c : Candidate) : Type 0 where
  pub stamped : text_eq (stamped_generation c) c.current_generation ≡ true
  pub by_surge : c.config.strategy ≡ surge
  pub no_phase : c.machine_set.annotations annotation_surge_phase ≡ none
  pub no_lock : c.machine_set.annotations annotation_rotation_state ≡ none
  pub allocated :
      (a : Allocation) × (c.machine_set.allocation ≡ some a) × (a.machine_count ≡ c.machine_count)
  pub below_max : suc c.machine_count < u32_mod
  pub complete : length c.requests ≡ c.machine_count
  pub settled : fresh_count c + length (stale_requests c) ≡ length c.requests
  pub floor : c.config.min_healthy ≤ fresh_count c + count_stale_provisioned (stale_requests c)

-- One cycle: three ticks, each planned on what the one before left. After the first a provisioned
-- fresh member comes, after the second the oldest member leaves.
pub record Cycle (ttl : Duration) (c c' : Candidate) (rest : List RequestStatus)
    (replacement : RequestStatus) : Type 0 where
  pub oldest : RequestStatus
  pub leaves : c.requests ≡ oldest ∷ rest
  pub comes : is_fresh_provisioned replacement ≡ true
  pub t₁ : Time
  pub t₂ : Time
  pub t₃ : Time
  pub raised : MachineSet
  pub dropped : MachineSet
  pub cleared : MachineSet
  pub up : (plan t₁ ttl (some c)).action ≡ surge_up
  pub up_write :
      surge_step c.current_generation t₁ (plan t₁ ttl (some c)).surge_next (pos 1) c.machine_set
      ≡ ok (tt, raised)
  pub down :
      (plan t₂ ttl (some (observe c raised (c.requests ++ replacement ∷ [])))).action ≡ surge_down
  pub down_write :
      surge_step c.current_generation t₂
        (plan t₂ ttl (some (observe c raised (c.requests ++ replacement ∷ [])))).surge_next
        (negsuc 0)
        raised
      ≡ ok (tt, dropped)
  pub done :
      (plan t₃ ttl (some (observe c dropped (rest ++ replacement ∷ [])))).action
      ≡ surge_cycle_complete
  pub done_write : clear_set dropped ≡ ok (tt, cleared)
  pub result : c' ≡ observe c cleared (rest ++ replacement ∷ [])
