-- ===== src/Rotation/Fixtures.antt =====
-- Test data for the rotation of nodes.
use omni_infra_provider_true.Base.{
  ℕ, Bool, true, false, List, [], ◌∷◌, none, some, String, str_eq, if◌then◌else◌,
}
use omni_infra_provider_true.Base.Int.{pos}
use omni_infra_provider_true.Clock.{Time}
use omni_infra_provider_true.Text.{codes}
use omni_infra_provider_true.Omni.{
  Annotations, Labels, MachineSet, MachineClass, MachineRequest, ProvisionSpec, Stage, static,
}
use omni_infra_provider_true.Rotation.Annotations.{
  Strategy, worker, surge, annotation_class_generation, annotation_surge_phase,
}
use omni_infra_provider_true.Omni.Memory.{memory}
use omni_infra_provider_true.Rotation.Phase.{
  SurgePhase, SurgePhaseState, wait_up, format_surge_phase_annotation,
}
use omni_infra_provider_true.Rotation.Decision.{Action, Decision, new_decision}
use omni_infra_provider_true.Rotation.Engine.Execute.{World}
use omni_infra_provider_true.Rotation.Candidate.{Candidate, RequestStatus}

abbrev pub no_annotations : Annotations
no_annotations k = none

abbrev pub worker_labels : Labels
worker_labels = record {
  control_plane = false;
  cluster = some "home";
  infra_provider_id = some "truenas";
  machine_request_set = some "workers";
}

abbrev pub spec : ProvisionSpec
spec = record {
  provider_data = codes "cpus: 2";
  grpc_tunnel = codes "UNSET";
  kernel_args = [];
  meta_values = [];
}

abbrev pub request : String → Time → MachineRequest
request id created = record { id = id; labels = worker_labels; created = created; spec = spec }

abbrev pub member : String → Bool → Stage → RequestStatus
member id stale stage = record {
  request = request id (pos 0);
  generation = if stale then codes "a0" else codes "b1";
  stale = stale;
  stage = stage;
  created_at = pos 0;
}

abbrev pub workers_set : ℕ → MachineSet
workers_set n = record {
  id = "workers";
  labels = worker_labels;
  annotations = no_annotations;
  allocation = some (record { name = "class"; machine_count = n; allocation_type = static });
}

abbrev pub stamped_class : MachineClass
stamped_class = record {
  id = "class";
  annotations = λ k. if str_eq k annotation_class_generation then some (codes "b1") else none;
  auto_provision = some spec;
}

abbrev pub candidate : Strategy → ℕ → List RequestStatus → Candidate
candidate strategy floor requests = record {
  machine_set = workers_set 2;
  machine_class = stamped_class;
  config = record { role = worker; strategy = strategy; min_healthy = floor };
  current_generation = codes "b1";
  machine_count = 2;
  requests = requests;
}

abbrev pub old_one : RequestStatus
old_one = member "old-1" true Stage.provisioned

abbrev pub old_two : RequestStatus
old_two = member "old-2" true Stage.provisioned

abbrev pub new_one : RequestStatus
new_one = member "new-1" false Stage.provisioned

-- Noon of a day in 2023, in nanoseconds.
abbrev pub noon : Time
noon = pos 1_700_000_000_000_000_000

-- A store in memory with one MachineSet, its class and one request.
abbrev pub home :
    MachineSet → World (memory MachineSet) (memory MachineClass) (memory MachineRequest)
unfolding memory
home ms = record {
  machine_sets = λ id. if str_eq id "workers" then some ms else none;
  machine_classes = λ id. some stamped_class;
  machine_requests = λ id. some (request "old-1" noon);
}

abbrev pub waiting : SurgePhaseState
waiting = record { phase = wait_up; original_count = 2; cycle_started_at = noon }

abbrev pub decided : Action → Decision
decided action = record (new_decision (some (candidate surge 1 (old_one ∷ old_two ∷ [])))) {
  action = action;
  target_request_id = "old-1";
  surge_next = waiting;
}

-- A set in the middle of a surge cycle: its annotation, its count and its members.
abbrev pub surging : SurgePhase → ℕ → List RequestStatus → Candidate
surging phase count requests = record (candidate surge 1 requests) {
  machine_set = record (workers_set count) {
    annotations = λ k.
        if str_eq k annotation_surge_phase
        then some (format_surge_phase_annotation (record waiting { phase = phase }))
        else none;
  };
  machine_count = count;
}
