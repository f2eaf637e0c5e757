-- ===== src/Rotation/Discovery.antt =====
-- internal/noderotation/discovery.go: the scan of Omni for the MachineSets that may rotate.
pub mod Index
pub mod Sound
mod Tests
use omni_infra_provider_true.Base.{
  ℕ, ◌≡◌, Bool, true, false, not, ◌&&◌, List, [], ◌∷◌, Option, none, some, String, str_eq,
  if◌then◌else◌,
}
use omni_infra_provider_true.Base.Result.{Result, ok, err}
use omni_infra_provider_true.Text.{Text, codes, text_eq}
use omni_infra_provider_true.Omni.{MachineSet, MachineClass, MachineRequest, Allocation, Stage}
use omni_infra_provider_true.Omni.Store.{StateError}
use omni_infra_provider_true.Rotation.Annotations.{
  Role, control_plane, worker, Config, ConfigError, parse_machine_class_rotation_config,
}
use omni_infra_provider_true.Rotation.Generation.{
  Digest, generation_from_machine_class, generation_from_machine_request,
}
use omni_infra_provider_true.Rotation.Candidate.{Candidate, RequestStatus}
use omni_infra_provider_true.Rotation.Candidate.Sorting.{sort_requests_by_created_at}

pub record Discoverer : Type 0 where
  pub cluster : String
  pub provider_id : String
  pub trust_declared_role : Bool

-- What the state client lists during one pass: all classes, the sets with a cluster's label, the
-- request stages with a provider's label, and the requests with a set's and a provider's label.
pub record Listing : Type 0 where
  pub classes : Result StateError (List MachineClass)
  pub sets : String → Result StateError (List MachineSet)
  pub stages : String → Result StateError (List (String × Stage))
  pub requests : String → String → Result StateError (List MachineRequest)

-- A class that has opted in, with its parsed policy and its generation.
pub record OptedIn : Type 0 where
  pub machine_class : MachineClass
  pub config : Config
  pub generation : Text

-- A class whose hash fails, or which does not provision, is skipped.
opted_generation : MachineClass → Config → Result Text Text → Option OptedIn
opted_generation mc cfg (err e) = none
opted_generation mc cfg (ok gen) =
    if text_eq gen (codes "")
    then none
    else some (record { machine_class = mc; config = cfg; generation = gen })

opted_config : Digest → MachineClass → Result ConfigError (Option Config) → Option OptedIn
unfolding opted_generation
opted_config digest mc (err e) = none
opted_config digest mc (ok none) = none
opted_config digest mc (ok (some cfg)) =
    opted_generation mc cfg (generation_from_machine_class digest mc)

-- The body of the loop over the classes.
unfoldable pub opt_in : Digest → MachineClass → Option OptedIn
unfolding opted_config
opt_in digest mc = opted_config digest mc (parse_machine_class_rotation_config mc.annotations)

-- An append under an `if`.
unfoldable pub prepend {ℓ} : {A : Type ℓ} → Option A → List A → List A
prepend none xs = xs
prepend (some x) xs = x ∷ xs

-- The index of opted-in classes, the last listed first.
unfoldable pub index_classes : Digest → List OptedIn → List MachineClass → List OptedIn
unfolding opt_in prepend
index_classes digest index [] = index
index_classes digest index (mc ∷ mcs) = index_classes digest (prepend (opt_in digest mc) index) mcs

unfoldable pub find_class : String → List OptedIn → Option OptedIn
find_class name [] = none
find_class name (o ∷ os) =
    let rest = find_class name os in if str_eq o.machine_class.id name then some o else rest

-- `checkRoleMismatch`: whether the set may go on.
unfoldable pub check_role_mismatch : Bool → MachineSet → Role → Bool
check_role_mismatch trust ms control_plane = true
check_role_mismatch trust ms worker = if ms.labels.control_plane then trust else true

later_stage : Option Stage → Option Stage → Option Stage
later_stage none earlier = earlier
later_stage (some s) earlier = some s

-- The stage in a map that was filled in the order of the list.
find_stage : String → List (String × Stage) → Option Stage
unfolding later_stage
find_stage id [] = none
find_stage id ((j, s) ∷ stages) =
    later_stage (find_stage id stages) (if str_eq j id then some s else none)

stage_or_unknown : Option Stage → Stage
stage_or_unknown none = Stage.unknown
stage_or_unknown (some s) = s

-- A failed listing leaves every request unknown.
unfoldable pub stage_of : Result StateError (List (String × Stage)) → String → Stage
unfolding find_stage stage_or_unknown
stage_of (err e) id = Stage.unknown
stage_of (ok stages) id = stage_or_unknown (find_stage id stages)

status_of : Result Text Text → Text → (String → Stage) → MachineRequest → Option RequestStatus
status_of (err e) current stage mr = none
status_of (ok gen) current stage mr = some (record {
  request = mr;
  generation = gen;
  stale = not (text_eq gen current);
  stage = stage mr.id;
  created_at = mr.created;
})

-- The loop over the requests: one whose hash fails is skipped.
unfoldable pub statuses :
    Digest → Text → (String → Stage) → List MachineRequest → List RequestStatus
unfolding status_of prepend
statuses digest current stage [] = []
statuses digest current stage (mr ∷ mrs) =
    prepend (status_of (generation_from_machine_request digest mr) current stage mr)
      (statuses digest current stage mrs)

classified :
    Digest
    → Text
    → (String → Stage)
    → Result StateError (List MachineRequest)
    → Result StateError (List RequestStatus)
unfolding statuses
classified digest current stage (err e) = err e
classified digest current stage (ok mrs) =
    ok (sort_requests_by_created_at (statuses digest current stage mrs))

unfoldable pub classify_requests :
    Digest
    → Discoverer
    → Listing
    → (String → Stage)
    → String
    → Text
    → Result StateError (List RequestStatus)
unfolding classified
classify_requests digest d listing stage set_id current =
    classified digest current stage (listing.requests set_id d.provider_id)

candidate_with :
    MachineSet → ℕ → OptedIn → Result StateError (List RequestStatus) → Option Candidate
candidate_with ms count o (err e) = none
candidate_with ms count o (ok reqs) = some (record {
  machine_set = ms;
  machine_class = o.machine_class;
  config = o.config;
  current_generation = o.generation;
  machine_count = count;
  requests = reqs;
})

candidate_in :
    Digest
    → Discoverer
    → Listing
    → (String → Stage)
    → MachineSet
    → ℕ
    → Option OptedIn
    → Option Candidate
unfolding candidate_with classify_requests
candidate_in digest d listing stage ms count none = none
candidate_in digest d listing stage ms count (some o) =
    if check_role_mismatch d.trust_declared_role ms o.config.role
    then candidate_with ms count o (classify_requests digest d listing stage ms.id o.generation)
    else none

candidate_for :
    Digest
    → Discoverer
    → Listing
    → (String → Stage)
    → List OptedIn
    → MachineSet
    → Option Allocation
    → Option Candidate
unfolding candidate_in
candidate_for digest d listing stage index ms none = none
candidate_for digest d listing stage index ms (some a) =
    candidate_in digest d listing stage ms a.machine_count (find_class a.name index)

-- The body of the loop over the sets.
unfoldable pub candidate_of :
    Digest → Discoverer → Listing → (String → Stage) → List OptedIn → MachineSet → Option Candidate
unfolding candidate_for
candidate_of digest d listing stage index ms =
    candidate_for digest d listing stage index ms ms.allocation

unfoldable pub candidates :
    Digest
    → Discoverer
    → Listing
    → (String → Stage)
    → List OptedIn
    → List MachineSet
    → List Candidate
unfolding candidate_of prepend
candidates digest d listing stage index [] = []
candidates digest d listing stage index (ms ∷ sets) =
    prepend (candidate_of digest d listing stage index ms)
      (candidates digest d listing stage index sets)

discover_sets :
    Digest
    → Discoverer
    → Listing
    → List OptedIn
    → Result StateError (List MachineSet)
    → Result StateError (List Candidate)
unfolding candidates
discover_sets digest d listing index (err e) = err e
discover_sets digest d listing index (ok sets) =
    ok (candidates digest d listing (stage_of (listing.stages d.provider_id)) index sets)

-- With no class opted in, the sets are not listed.
discover_with : Digest → Discoverer → Listing → List OptedIn → Result StateError (List Candidate)
unfolding discover_sets
discover_with digest d listing [] = ok []
discover_with digest d listing (o ∷ index) =
    discover_sets digest d listing (o ∷ index) (listing.sets d.cluster)

discover_classes :
    Digest
    → Discoverer
    → Listing
    → Result StateError (List MachineClass)
    → Result StateError (List Candidate)
unfolding discover_with index_classes
discover_classes digest d listing (err e) = err e
discover_classes digest d listing (ok mcs) =
    discover_with digest d listing (index_classes digest [] mcs)

unfoldable pub discover : Digest → Discoverer → Listing → Result StateError (List Candidate)
unfolding discover_classes
discover digest d listing = discover_classes digest d listing listing.classes
