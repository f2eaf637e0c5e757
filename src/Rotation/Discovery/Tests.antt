-- ===== src/Rotation/Discovery/Tests.antt =====
-- Instances of the theorems on the scan and on a tick's turns.
use omni_infra_provider_true.Base.{
  ◌≡◌, refl, true, false, [], ◌∷◌, ◌++◌, All, none, some, str_eq, if◌then◌else◌,
}
use omni_infra_provider_true.Base.Result.{ok}
use omni_infra_provider_true.Text.{codes, text_eq, trim_space, to_lower}
use omni_infra_provider_true.Omni.{
  Annotations, MachineSet, MachineClass, MachineRequest, Stage, static,
}
use omni_infra_provider_true.Omni.Store.{Store}
use omni_infra_provider_true.Omni.Memory.{memory}
use omni_infra_provider_true.Rotation.Fixtures.{spec, request, noon, no_annotations, home}
use omni_infra_provider_true.Rotation.Annotations.{
  control_plane, surge, annotation_enabled, annotation_role, annotation_strategy,
  parse_machine_class_rotation_config, is_rotation_opt_in, parse_role, parse_strategy,
  parse_min_healthy,
}
use omni_infra_provider_true.Rotation.Generation.{
  Digest, generation_from_machine_class, generation_from_machine_request,
}
use omni_infra_provider_true.Rotation.Candidate.{Candidate}
use omni_infra_provider_true.Rotation.Candidate.Sorting.{sort_requests_by_created_at}
use omni_infra_provider_true.Rotation.Engine.{default_lock_ttl}
use omni_infra_provider_true.Rotation.Engine.Execute.{World}
use omni_infra_provider_true.Rotation.Discovery.{
  Discoverer, Listing, discover, opt_in, index_classes, find_class, check_role_mismatch, stage_of,
  statuses, classify_requests, candidate_of, candidates,
}
use omni_infra_provider_true.Rotation.Discovery.Sound.{IsCandidate, discover-IsCandidate}
use omni_infra_provider_true.Rotation.Reconciler.{act}
use omni_infra_provider_true.Rotation.Reconciler.Ownership.{act-control_plane}

-- A hash that tells inputs apart by their provider data.
abbrev digest : Digest
digest inputs = ok (codes "b1" ++ inputs.provider_data)

abbrev discoverer : Discoverer
discoverer = record { cluster = "home"; provider_id = "truenas"; trust_declared_role = false }

abbrev opted_in : Annotations
opted_in k =
    if str_eq k annotation_enabled
    then some (codes "true")
    else if str_eq k annotation_role
    then some (codes "controlplane")
    else if str_eq k annotation_strategy
    then some (codes "surge")
    else none

abbrev class : MachineClass
class = record { id = "class"; annotations = opted_in; auto_provision = some spec }

abbrev control_planes : MachineSet
control_planes = record {
  id = "control-planes";
  labels = record {
    control_plane = true;
    cluster = some "home";
    infra_provider_id = none;
    machine_request_set = none;
  };
  annotations = no_annotations;
  allocation = some (record { name = "class"; machine_count = 1; allocation_type = static });
}

abbrev old_request : MachineRequest
old_request = record (request "old-1" noon) {
  spec = record spec { provider_data = codes "cpus: 1" };
}

abbrev listing : Listing
listing = record {
  classes = ok (class ∷ []);
  sets = λ cluster. ok (control_planes ∷ []);
  stages = λ provider. ok (("old-1", Stage.provisioned) ∷ []);
  requests = λ set provider. ok (old_request ∷ []);
}

abbrev c : Candidate
c = record {
  machine_set = control_planes;
  machine_class = class;
  config = record { role = control_plane; strategy = surge; min_healthy = 2 };
  current_generation = codes "b1cpus: 2";
  machine_count = 1;
  requests =
      record {
        request = old_request;
        generation = codes "b1cpus: 1";
        stale = true;
        stage = Stage.provisioned;
        created_at = noon;
      }
      ∷ [];
}

found : discover digest discoverer listing ≡ ok (c ∷ [])
unfolding discover opt_in index_classes find_class check_role_mismatch stage_of statuses
    classify_requests candidate_of candidates sort_requests_by_created_at
    parse_machine_class_rotation_config is_rotation_opt_in parse_role parse_strategy
    parse_min_healthy text_eq trim_space to_lower generation_from_machine_class
    generation_from_machine_request
found = refl

discover-IsCandidate_example : All (IsCandidate digest discoverer listing) (c ∷ [])
discover-IsCandidate_example = discover-IsCandidate digest discoverer listing (c ∷ []) found

abbrev sets : Store MachineSet
sets = memory MachineSet

abbrev classes : Store MachineClass
classes = memory MachineClass

abbrev requests : Store MachineRequest
requests = memory MachineRequest

world : World sets classes requests
unfolding memory
world = home control_planes

act-control_plane_example :
    (act sets classes requests "truenas" default_lock_ttl (noon, noon) c world).1.machine_requests
    ≡ world.machine_requests
act-control_plane_example =
    act-control_plane digest discoverer listing [] [] c sets classes requests default_lock_ttl noon
      noon world refl found refl
