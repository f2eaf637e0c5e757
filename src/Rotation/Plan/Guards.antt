-- ===== src/Rotation/Plan/Guards.antt =====
-- What every decision of the surge strategy goes through before its state machine.
use omni_infra_provider_true.Base.{◌≡◌, refl, Bool, true, false, ◌&&◌, List, [], ◌∷◌, some, arith}
use omni_infra_provider_true.Clock.{Time, Duration}
use omni_infra_provider_true.Text.{text_eq}
use omni_infra_provider_true.Rotation.Annotations.{Strategy, surge, in_place}
use omni_infra_provider_true.Rotation.Candidate.{
  Candidate, RequestStatus, stale_requests, has_active_lock, surge_phase,
}
use omni_infra_provider_true.Rotation.Decision.{
  Decision, Action, surge_up, surge_down, surge_cycle_complete, surge_aborted, new_decision,
}
use omni_infra_provider_true.Rotation.Plan.{
  plan, plan_candidate, plan_by, plan_in_place, plan_surge, stamped_generation, is_none,
}

-- The decisions of the surge strategy that write.
abbrev pub is_surge_action : Action → Bool
is_surge_action surge_up = true
is_surge_action surge_down = true
is_surge_action surge_cycle_complete = true
is_surge_action surge_aborted = true
is_surge_action _ = false

-- What every such decision goes through before the state machine.
pub record IsSurging (now : Time) (ttl : Duration) (c : Candidate) : Type 0 where
  pub stamped : text_eq (stamped_generation c) c.current_generation ≡ true
  pub unlocked : (has_active_lock c now ttl && is_none (surge_phase c)) ≡ false
  pub by_surge : c.config.strategy ≡ surge

plan_in_place-is_surge_action :
    (c : Candidate) (stale : List RequestStatus)
    → is_surge_action (plan_in_place c stale (new_decision (some c))).action ≡ false
unfolding plan_in_place
plan_in_place-is_surge_action c [] = refl
plan_in_place-is_surge_action c (v ∷ stale) = ground arith

module _ (now : Time) (ttl : Duration) (c : Candidate) where
  abbrev pub start : Decision
  start = new_decision (some c)

  abbrev pub machine : Decision
  machine = plan_surge (surge_phase c) c (stale_requests c) start now

  by_strategy :
      (s : Strategy)
      → is_surge_action (plan_by s c (stale_requests c) start now).action ≡ true
      → (s ≡ surge) × (plan_by s c (stale_requests c) start now ≡ machine)
  unfolding plan_by
  by_strategy surge h = (refl, refl)
  by_strategy in_place h = absurd (cc (plan_in_place-is_surge_action c (stale_requests c)))
  by_strategy (Strategy.other t) h = absurd (cc h)

  guards :
      is_surge_action (plan now ttl (some c)).action ≡ true
      → (text_eq (stamped_generation c) c.current_generation ≡ true)
        × ((has_active_lock c now ttl && is_none (surge_phase c)) ≡ false)
        × (plan now ttl (some c) ≡ plan_by c.config.strategy c (stale_requests c) start now)
  unfolding plan plan_candidate
  guards h = (ground arith, ground arith, ground arith)

  pub surging :
      is_surge_action (plan now ttl (some c)).action ≡ true
      → IsSurging now ttl c × (plan now ttl (some c) ≡ machine)
  surging h =
      let (stamped, unlocked, e) = guards h in
      let (strategy, e') = by_strategy c.config.strategy (rw e at h) in
      (record { stamped = stamped; unlocked = unlocked; by_surge = strategy }, cc (e, e'))

  pub plan_of_IsSurging : IsSurging now ttl c → plan now ttl (some c) ≡ machine
  unfolding plan plan_candidate plan_by
  plan_of_IsSurging s = ground arith
