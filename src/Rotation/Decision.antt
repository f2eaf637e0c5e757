-- ===== src/Rotation/Decision.antt =====
-- internal/noderotation/actions.go: the outcome of one evaluation of a candidate.
use omni_infra_provider_true.Base.{ℕ, ◌-◌, Bool, false, [], Option, String}
use omni_infra_provider_true.Base.Int.{negsuc}
use omni_infra_provider_true.Clock.{unix_to_internal, time_unix}
use omni_infra_provider_true.Text.{Text}
use omni_infra_provider_true.Rotation.Candidate.{Candidate}
use omni_infra_provider_true.Rotation.Phase.{SurgePhaseState, other}

pub data AbortKind : Type 0 where
  none_kind count_drift_wait_up count_drift_wait_down unknown_phase : AbortKind

-- An action is a string in the source: `other_action` stands for any but those that it names.
pub data Action : Type 0 where
  no_action locked_by_prior_step waiting_for_ready waiting_for_teardown : Action
  min_healthy_floor teardown_stale surge_up surge_down surge_cycle_complete : Action
  surge_aborted stamp_generation refresh_lock : Action
  other_action : Text → Action

-- The human-readable reason is left out.
pub record Decision : Type 0 where
  pub candidate : Option Candidate
  pub action : Action
  pub target_request_id : String
  pub previous_generation : Text
  pub abort_kind : AbortKind
  pub live_count : ℕ
  pub expected_count : ℕ
  pub surge_next : SurgePhaseState
  pub clear_surge : Bool

-- Go's zero value of a `SurgePhaseState`.
abbrev pub zero_phase : SurgePhaseState
zero_phase = record {
  phase = other [];
  original_count = 0;
  cycle_started_at = time_unix (negsuc (unix_to_internal - 1));
}

-- `Decision{Candidate: c}`, every other field at its zero value.
abbrev pub new_decision : Option Candidate → Decision
new_decision c = record {
  candidate = c;
  action = no_action;
  target_request_id = "";
  previous_generation = [];
  abort_kind = none_kind;
  live_count = 0;
  expected_count = 0;
  surge_next = zero_phase;
  clear_surge = false;
}
