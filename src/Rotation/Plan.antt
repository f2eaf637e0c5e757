-- ===== src/Rotation/Plan.antt =====
-- internal/noderotation/plan.go: what to do about a candidate in this tick. A pure function of the
-- candidate and the clock.
pub mod About
pub mod InPlace
pub mod Guards
pub mod Legs
pub mod Surge
use omni_infra_provider_true.Base.{
  ℕ, suc, ◌+◌, ◌-◌, ◌≡◌, refl, Bool, true, false, not, ◌&&◌, List, [], ◌∷◌, Option, none, some,
  length, ltb, ◌==◌, if◌then◌else◌,
}
use omni_infra_provider_true.Clock.{Time, Duration}
use omni_infra_provider_true.Text.{Text, text_eq}
use omni_infra_provider_true.Omni.{value_or_empty, is_provisioned}
use omni_infra_provider_true.Rotation.Annotations.{
  Strategy, surge, in_place, annotation_class_generation,
}
use omni_infra_provider_true.Rotation.Phase.{SurgePhase, SurgePhaseState, wait_up, wait_down}
use omni_infra_provider_true.Rotation.Candidate.{
  Candidate, RequestStatus, fresh_count, stale_requests, has_active_lock, surge_phase,
  has_in_flight_provisioning, count_stale_provisioned,
}
use omni_infra_provider_true.Rotation.Decision.{
  Decision, new_decision, no_action, locked_by_prior_step, waiting_for_ready, waiting_for_teardown,
  min_healthy_floor, teardown_stale, surge_up, surge_down, surge_cycle_complete, surge_aborted,
  stamp_generation, count_drift_wait_up, count_drift_wait_down, unknown_phase,
}

-- The members left healthy by the teardown of a victim, as the source counts them.
unfoldable pub healthy_after : ℕ → RequestStatus → ℕ
healthy_after fresh victim = if is_provisioned victim.stage then fresh + 1 - 1 else fresh

unfoldable pub plan_in_place : Candidate → List RequestStatus → Decision → Decision
unfolding healthy_after
plan_in_place c [] d = record d { action = no_action }
plan_in_place c (victim ∷ stale) d =
    if has_in_flight_provisioning c.requests
    then record d { action = waiting_for_ready }
    else if ltb (healthy_after (fresh_count c) victim) c.config.min_healthy
    then record d { action = min_healthy_floor }
    else record d { action = teardown_stale; target_request_id = victim.request.id }

-- No cycle in flight.
unfoldable pub plan_idle : Candidate → List RequestStatus → Decision → Time → Decision
plan_idle c [] d now = record d { action = no_action }
plan_idle c (oldest ∷ stale) d now =
    if ltb (fresh_count c + count_stale_provisioned (oldest ∷ stale)) c.config.min_healthy
    then record d { action = min_healthy_floor }
    else record d {
      action = surge_up;
      surge_next = record {
        phase = wait_up;
        original_count = c.machine_count;
        cycle_started_at = now;
      };
    }

-- The fresh members to wait for: `original - len(stale) + 1`, and at least 1.
unfoldable pub expected_fresh : ℕ → ℕ → ℕ
expected_fresh original stale = let n = original + 1 - stale in if ltb n 1 then 1 else n

-- The count was raised by one: wait for the replacement.
unfoldable pub plan_wait_up : Candidate → List RequestStatus → Decision → SurgePhaseState → Decision
unfolding expected_fresh
plan_wait_up c stale d phase =
    if not (c.machine_count == phase.original_count + 1)
    then record d {
      action = surge_aborted;
      abort_kind = count_drift_wait_up;
      live_count = c.machine_count;
      expected_count = phase.original_count + 1;
    }
    else if ltb (fresh_count c) (expected_fresh phase.original_count (length stale))
    then record d { action = waiting_for_ready }
    else record d { action = surge_down; surge_next = record phase { phase = wait_down } }

-- The count is back: wait for the teardown.
unfoldable pub plan_wait_down : Candidate → Decision → SurgePhaseState → Decision
plan_wait_down c d phase =
    if not (c.machine_count == phase.original_count)
    then record d {
      action = surge_aborted;
      abort_kind = count_drift_wait_down;
      live_count = c.machine_count;
      expected_count = phase.original_count;
    }
    else if ltb phase.original_count (length c.requests)
    then record d { action = waiting_for_teardown }
    else record d { action = surge_cycle_complete; clear_surge = true }

plan_leg : SurgePhase → Candidate → List RequestStatus → Decision → SurgePhaseState → Decision
unfolding plan_wait_up plan_wait_down
plan_leg wait_up c stale d phase = plan_wait_up c stale d phase
plan_leg wait_down c stale d phase = plan_wait_down c d phase
plan_leg (SurgePhase.other s) c stale d phase = record d {
  action = surge_aborted;
  abort_kind = unknown_phase;
}

unfoldable pub plan_surge :
    Option SurgePhaseState → Candidate → List RequestStatus → Decision → Time → Decision
unfolding plan_idle plan_leg
plan_surge none c stale d now = plan_idle c stale d now
plan_surge (some phase) c stale d now = plan_leg phase.phase c stale d phase

plan_by : Strategy → Candidate → List RequestStatus → Decision → Time → Decision
unfolding plan_in_place plan_surge
plan_by in_place c stale d now = plan_in_place c stale d
plan_by surge c stale d now = plan_surge (surge_phase c) c stale d now
plan_by (Strategy.other s) c stale d now = record d { action = no_action }

abbrev pub is_none {ℓ} : {A : Type ℓ} → Option A → Bool
is_none none = true
is_none (some a) = false

-- The generation stamped on the class.
unfoldable pub stamped_generation : Candidate → Text
stamped_generation c = value_or_empty (c.machine_class.annotations annotation_class_generation)

plan_candidate : Time → Duration → Candidate → Decision
unfolding plan_by stamped_generation
plan_candidate now lock_ttl c =
    let d = new_decision (some c) in
    if not (text_eq (stamped_generation c) c.current_generation)
    then record d { action = stamp_generation; previous_generation = stamped_generation c }
    else if has_active_lock c now lock_ttl && is_none (surge_phase c)
    then record d { action = locked_by_prior_step }
    else plan_by c.config.strategy c (stale_requests c) d now

-- `Engine.Plan`.
unfoldable pub plan : Time → Duration → Option Candidate → Decision
unfolding plan_candidate
plan now lock_ttl none = new_decision none
plan now lock_ttl (some c) = plan_candidate now lock_ttl c
