-- ===== src/Rotation/Reconciler.antt =====
-- internal/noderotation/reconciler.go: one tick of the loop, from discovery to the writes.
pub mod Ownership
use omni_infra_provider_true.Base.{
  ℕ, suc, ◌*◌, ◌≡◌, Bool, true, false, List, [], ◌∷◌, Option, none, some, String, if◌then◌else◌,
}
use omni_infra_provider_true.Base.Int.{ℤ, pos, ltb_ℤ}
use omni_infra_provider_true.Base.Result.{Result, ok, err}
use omni_infra_provider_true.Clock.{Time, Duration, ns_per_second}
use omni_infra_provider_true.Omni.{MachineSet, MachineClass, MachineRequest}
use omni_infra_provider_true.Omni.Store.{Store, StateError}
use omni_infra_provider_true.Rotation.Candidate.{Candidate}
use omni_infra_provider_true.Rotation.Decision.{
  Action, Decision, no_action, locked_by_prior_step, waiting_for_ready, waiting_for_teardown,
  min_healthy_floor, surge_aborted,
}
use omni_infra_provider_true.Rotation.Plan.{plan}
use omni_infra_provider_true.Rotation.Engine.Execute.{World, Outcome, execute}
use omni_infra_provider_true.Rotation.Generation.{Digest}
use omni_infra_provider_true.Rotation.Discovery.{Discoverer, Listing, discover}

-- 30 seconds.
abbrev pub default_refresh_interval : Duration
default_refresh_interval = pos (30 * ns_per_second)

-- `NewReconciler`'s lower bound on the interval.
unfoldable pub clamp_interval : Duration → Duration
clamp_interval interval =
    if ltb_ℤ interval (pos ns_per_second) then default_refresh_interval else interval

pub data Level : Type 0 where
  debug info warn : Level

unfoldable pub decision_level : Action → Level
decision_level no_action = debug
decision_level locked_by_prior_step = debug
decision_level waiting_for_ready = debug
decision_level waiting_for_teardown = debug
decision_level min_healthy_floor = warn
decision_level surge_aborted = warn
decision_level _ = info

module _ (sets : Store MachineSet) (classes : Store MachineClass)
    (requests : Store MachineRequest) where
  -- One candidate's turn: `Plan` and `Execute` read the clock once each.
  unfoldable pub act :
      String
      → Duration
      → Time × Time
      → Candidate
      → World sets classes requests
      → Outcome × World sets classes requests
  act provider_id lock_ttl (planned, executed) c w =
      execute sets classes requests provider_id (plan planned lock_ttl (some c)) executed w

  -- The loop over the candidates: an error of one does not stop the others.
  unfoldable pub act_all :
      String
      → Duration
      → (ℕ → Time × Time)
      → List Candidate
      → World sets classes requests
      → List Outcome × World sets classes requests
  unfolding act
  act_all provider_id lock_ttl clock [] w = ([], w)
  act_all provider_id lock_ttl clock (c ∷ cs) w =
      let (outcome, w') = act provider_id lock_ttl (clock 0) c w in
      let (outcomes, w'') = act_all provider_id lock_ttl (λ i. clock (suc i)) cs w' in
      (outcome ∷ outcomes, w'')

  tick_on :
      String
      → Duration
      → (ℕ → Time × Time)
      → Result StateError (List Candidate)
      → World sets classes requests
      → List Outcome × World sets classes requests
  unfolding act_all
  tick_on provider_id lock_ttl clock (err e) w = ([], w)
  tick_on provider_id lock_ttl clock (ok cs) w = act_all provider_id lock_ttl clock cs w

  -- `tick`: a pass that fails is skipped.
  unfoldable pub tick :
      Digest
      → Discoverer
      → Listing
      → Duration
      → (ℕ → Time × Time)
      → World sets classes requests
      → List Outcome × World sets classes requests
  unfolding tick_on
  tick digest d listing lock_ttl clock w =
      tick_on d.provider_id lock_ttl clock (discover digest d listing) w
