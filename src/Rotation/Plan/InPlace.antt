-- ===== src/Rotation/Plan/InPlace.antt =====
-- When `Plan` tears a machine down, and when it cannot.
use omni_infra_provider_true.Base.{
  ◌≤◌, ◌≡◌, ◌≢◌, ◌↔◌, refl, true, false, ◌&&◌, List, [], ◌∷◌, Option, none, some, arith,
}
use omni_infra_provider_true.Clock.{Time, Duration}
use omni_infra_provider_true.Text.{text_eq}
use omni_infra_provider_true.Rotation.Annotations.{Strategy, surge, in_place}
use omni_infra_provider_true.Rotation.Candidate.{
  Candidate, RequestStatus, fresh_count, stale_requests, has_active_lock, surge_phase,
  has_in_flight_provisioning,
}
use omni_infra_provider_true.Rotation.Decision.{Decision, Action, teardown_stale, new_decision}
use omni_infra_provider_true.Rotation.Plan.{
  plan, plan_candidate, plan_by, plan_in_place, plan_surge, stamped_generation, is_none, plan_leg,
}
use omni_infra_provider_true.Rotation.Phase.{SurgePhase, SurgePhaseState, wait_up, wait_down}

plan_leg-ne-teardown :
    (q : SurgePhase) (c : Candidate) (stale : List RequestStatus) (d : Decision)
    (p : SurgePhaseState)
    → (plan_leg q c stale d p).action ≢ teardown_stale
unfolding plan_leg
plan_leg-ne-teardown wait_up c stale d p = ground arith
plan_leg-ne-teardown wait_down c stale d p = ground arith
plan_leg-ne-teardown (SurgePhase.other s) c stale d p = ground arith

-- No surge decision destroys a request directly.
plan_surge-ne-teardown :
    (o : Option SurgePhaseState) (c : Candidate) (stale : List RequestStatus) (d : Decision)
    (now : Time)
    → (plan_surge o c stale d now).action ≢ teardown_stale
unfolding plan_surge
plan_surge-ne-teardown none c [] d now = ground arith
plan_surge-ne-teardown none c (r ∷ stale) d now = ground arith
plan_surge-ne-teardown (some p) c stale d now = plan_leg-ne-teardown p.phase c stale d p

-- The victim is the oldest stale request, and everything allows the step.
pub record MayTearDown (now : Time) (ttl : Duration) (c : Candidate) (victim : RequestStatus)
    : Type 0 where
  pub stamped : text_eq (stamped_generation c) c.current_generation ≡ true
  pub unlocked : (has_active_lock c now ttl && is_none (surge_phase c)) ≡ false
  pub by_in_place : c.config.strategy ≡ in_place
  pub settled : has_in_flight_provisioning c.requests ≡ false
  pub floor : c.config.min_healthy ≤ fresh_count c
  pub oldest : (rest : List RequestStatus) × (stale_requests c ≡ victim ∷ rest)

module _ (now : Time) (ttl : Duration) (c : Candidate) where
  plan_in_place-teardown :
      (stale : List RequestStatus) (d : Decision)
      → (plan_in_place c stale d).action ≡ teardown_stale
      → d.action ≡ Action.no_action
      → (victim : RequestStatus) × (rest : List RequestStatus) × (stale ≡ victim ∷ rest)
        × (has_in_flight_provisioning c.requests ≡ false)
        × (c.config.min_healthy ≤ fresh_count c)
        × ((plan_in_place c stale d).target_request_id ≡ victim.request.id)
  unfolding plan_in_place
  plan_in_place-teardown [] d h k = absurd (ground arith)
  plan_in_place-teardown (v ∷ stale) d h k =
      (v, stale, refl, ground arith, ground arith, ground arith)

  plan_by-teardown :
      (s : Strategy) (d : Decision)
      → (plan_by s c (stale_requests c) d now).action ≡ teardown_stale
      → (s ≡ in_place)
        × (plan_by s c (stale_requests c) d now ≡ plan_in_place c (stale_requests c) d)
  unfolding plan_by
  plan_by-teardown surge d h =
      absurd (plan_surge-ne-teardown (surge_phase c) c (stale_requests c) d now h)
  plan_by-teardown in_place d h = (refl, refl)
  plan_by-teardown (Strategy.other t) d h = absurd (cc h)

  -- A teardown goes through both guards to the decision of the strategy.
  guards_of_teardown :
      (plan now ttl (some c)).action ≡ teardown_stale
      → (text_eq (stamped_generation c) c.current_generation ≡ true)
        × ((has_active_lock c now ttl && is_none (surge_phase c)) ≡ false)
        × (plan now ttl (some c)
            ≡ plan_by c.config.strategy c (stale_requests c) (new_decision (some c)) now)
  unfolding plan plan_candidate
  guards_of_teardown h = (ground arith, ground arith, ground arith)

  may_tear_down :
      (plan now ttl (some c)).action ≡ teardown_stale
      → (victim : RequestStatus) × MayTearDown now ttl c victim
        × ((plan now ttl (some c)).target_request_id ≡ victim.request.id)
  may_tear_down h =
      let (stamped, unlocked, e) = guards_of_teardown h in
      let d : Decision = new_decision (some c) in
      let (strategy, e') = plan_by-teardown c.config.strategy d (rw e at h) in
      let (v, rest, oldest, settled, floor, target) =
        plan_in_place-teardown (stale_requests c) d (cc (e, e')) refl in
      (
        v,
        record {
          stamped = stamped;
          unlocked = unlocked;
          by_in_place = strategy;
          settled = settled;
          floor = floor;
          oldest = (rest, oldest);
        },
        cc (e, e', target),
      )

  tears_down :
      (victim : RequestStatus)
      → MayTearDown now ttl c victim
      → (plan now ttl (some c)).action ≡ teardown_stale
  unfolding plan plan_candidate plan_by plan_in_place
  tears_down v m = ground (arith, m.oldest.1)

  -- `Plan` tears a machine down exactly when the generation is stamped, no foreign lock is held, the
  -- strategy is in-place, no request is being provisioned, the provisioned fresh members are at
  -- least min-healthy, and there is a stale request; the target is the first stale one.
  pub plan-teardown_iff : ((plan now ttl (some c)).action ≡ teardown_stale) ↔ (
      (victim : RequestStatus) × MayTearDown now ttl c victim
      × ((plan now ttl (some c)).target_request_id ≡ victim.request.id))
  plan-teardown_iff = (may_tear_down, λ p. tears_down p.0 p.1)

  -- While no fresh member is provisioned and min-healthy is at least 1, which is the default, an
  -- in-place rotation tears nothing down: it never starts on a set whose members are all stale.
  pub plan-all_stale_stuck :
      fresh_count c ≡ 0 → 1 ≤ c.config.min_healthy → (plan now ttl (some c)).action ≢ teardown_stale
  plan-all_stale_stuck none_fresh floor h =
      let (v, m, target) = may_tear_down h in omega (arith, m.floor)
