-- ===== src/Rotation/Plan/About.antt =====
-- Every decision is about the candidate that `Plan` was given.
use omni_infra_provider_true.Base.{
  ◌≡◌, refl, List, [], ◌∷◌, Option, none, some, arith, ◌&&◌, Bool-cases, inl, inr,
}
use omni_infra_provider_true.Clock.{Time, Duration}
use omni_infra_provider_true.Text.{text_eq}
use omni_infra_provider_true.Rotation.Annotations.{Strategy, surge, in_place}
use omni_infra_provider_true.Rotation.Phase.{SurgePhase, SurgePhaseState, wait_up, wait_down}
use omni_infra_provider_true.Rotation.Candidate.{
  Candidate, RequestStatus, stale_requests, has_active_lock, surge_phase,
}
use omni_infra_provider_true.Rotation.Decision.{Decision, new_decision}
use omni_infra_provider_true.Rotation.Plan.{
  plan, plan_candidate, plan_by, plan_in_place, plan_surge, plan_idle, plan_leg, plan_wait_up,
  plan_wait_down, stamped_generation, is_none,
}

module _ (c : Candidate) (d : Decision) where
  in_place_about : (stale : List RequestStatus) → (plan_in_place c stale d).candidate ≡ d.candidate
  unfolding plan_in_place
  in_place_about [] = refl
  in_place_about (v ∷ stale) = ground arith

  idle_about :
      (stale : List RequestStatus) (now : Time) → (plan_idle c stale d now).candidate ≡ d.candidate
  unfolding plan_idle
  idle_about [] now = refl
  idle_about (v ∷ stale) now = ground arith

  leg_about :
      (q : SurgePhase) (stale : List RequestStatus) (p : SurgePhaseState)
      → (plan_leg q c stale d p).candidate ≡ d.candidate
  unfolding plan_leg plan_wait_up plan_wait_down
  leg_about wait_up stale p = ground arith
  leg_about wait_down stale p = ground arith
  leg_about (SurgePhase.other s) stale p = refl

  surge_about :
      (o : Option SurgePhaseState) (stale : List RequestStatus) (now : Time)
      → (plan_surge o c stale d now).candidate ≡ d.candidate
  unfolding plan_surge
  surge_about none stale now = idle_about stale now
  surge_about (some p) stale now = leg_about p.phase stale p

  by_about :
      (s : Strategy) (stale : List RequestStatus) (now : Time)
      → (plan_by s c stale d now).candidate ≡ d.candidate
  unfolding plan_by
  by_about in_place stale now = in_place_about stale
  by_about surge stale now = surge_about (surge_phase c) stale now
  by_about (Strategy.other t) stale now = refl

pub candidate-plan :
    (now : Time) (ttl : Duration) (c : Candidate) → (plan now ttl (some c)).candidate ≡ some c
unfolding plan plan_candidate
candidate-plan now ttl c = elim (Bool-cases (text_eq (stamped_generation c) c.current_generation)) [
  | inl e ↦ elim (Bool-cases (has_active_lock c now ttl && is_none (surge_phase c))) [
    | inl k ↦ rw e (rw k refl)
    | inr k ↦
        rw e (rw k (by_about c (new_decision (some c)) c.config.strategy (stale_requests c) now))
  ]
  | inr e ↦ rw e refl
]
