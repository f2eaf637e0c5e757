-- ===== src/Cleanup.antt =====
-- internal/cleanup/cleanup.go, with the listing of internal/client/storage.go: the periodic removal of
-- images, machines and volumes that nothing needs. The answers of TrueNAS and Omni are inputs, and a
-- cycle is the list of the changing calls that it makes: the answers to those are only logged.
pub mod Deletions
pub mod Machines
mod Tests
use omni_infra_provider_true.Base.{
  ℕ, ◌+◌, ◌≡◌, refl, Bool, true, false, not, ◌&&◌, ◌||◌, List, [], ◌∷◌, ◌++◌, map, Option, none,
  some, String, length, count_if, any_of, ltb, ◌==◌, if◌then◌else◌,
}
use mathlib.Core.List.{reverse}
use omni_infra_provider_true.Text.{Text, codes, text_eq}
use omni_infra_provider_true.Meta.{
  after_prefix, is_omni_vm_name, build_vm_name, underscore, omni_prefix,
  parse_request_id_from_description,
}

-- The calls that change the host.
pub data Call : Type 0 where
  stop_vm delete_vm : ℕ → Call
  delete_dataset recreate_dataset : Text → Call

pub record Vm : Type 0 where
  pub id : ℕ
  pub name : Text
  pub description : Text

pub record ManagedZvol : Type 0 where
  pub path : Text
  pub request_id : Text

-- A volume as TrueNAS lists it.
pub record Dataset : Type 0 where
  pub id : Text
  pub user_property : String → Option Text

pub record File : Type 0 where
  pub name : Text
  pub is_file : Bool

-- The callback for the live requests: it may be absent, or fail.
pub data LiveAnswer : Type 0 where
  no_callback : LiveAnswer
  read_failed : LiveAnswer
  read : (Text → Bool) → LiveAnswer

-- What a cycle is told; `none` is a query that failed, or for the images a nil map. The machines are
-- listed twice.
pub record Answers : Type 0 where
  pub files : Option (List File)
  pub active_images : Option (Text → Bool)
  pub volumes : Option (List Dataset)
  pub live : LiveAnswer
  pub vms : Option (List Vm)
  pub vms_later : Option (List Vm)

keep_zvol : Text → Option Text → Option Text → List ManagedZvol → List ManagedZvol
keep_zvol path none request_id rest = rest
keep_zvol path (some managed) none rest = rest
keep_zvol path (some managed) (some request_id) rest =
    if text_eq managed (codes "true") && not (text_eq request_id (codes ""))
    then record { path = path; request_id = request_id } ∷ rest
    else rest

-- `ListManagedZvols`, on the volumes of the answer.
unfoldable pub list_managed_zvols : List Dataset → List ManagedZvol
unfolding keep_zvol
list_managed_zvols [] = []
list_managed_zvols (d ∷ ds) =
    keep_zvol d.id (d.user_property "org.omni:managed") (d.user_property "org.omni:request-id")
      (list_managed_zvols ds)

image_of : Option Text → Option Text
image_of none = none
image_of (some rest) = some (reverse rest)

-- The image ID of a file that is an ISO: `strings.HasSuffix` and `strings.TrimSuffix`.
unfoldable pub iso_image_id : File → Option Text
unfolding after_prefix image_of
iso_image_id f =
    if f.is_file then image_of (after_prefix (reverse (codes ".iso")) (reverse f.name)) else none

counts_total : Option Text → Bool
counts_total none = false
counts_total (some image) = true

counts_stale : (Text → Bool) → Option Text → Bool
counts_stale active none = false
counts_stale active (some image) = not (active image)

unfoldable pub iso_calls : Text → (Text → Bool) → List File → List Call
unfolding count_if iso_image_id counts_total counts_stale
iso_calls pool active files =
    let total = count_if (λ f. counts_total (iso_image_id f)) files in
    let stale = count_if (λ f. counts_stale active (iso_image_id f)) files in
    if stale == 0
    then []
    else if ltb stale total
    then []
    else recreate_dataset (pool ++ codes "/talos-iso") ∷ []

-- `cleanupISOs`.
unfoldable pub cleanup_isos : Text → Option (List File) → Option (Text → Bool) → List Call
unfolding iso_calls
cleanup_isos pool none active = []
cleanup_isos pool (some files) none = []
cleanup_isos pool (some files) (some active) = iso_calls pool active files

-- Why a machine or a volume is removed.
pub data Reason : Type 0 where
  no_machine_request backing_zvol_missing vm_deleted : Reason

-- `liveRequests != nil && !liveRequests[id]`.
unfoldable pub is_unknown : Option (Text → Bool) → Text → Bool
is_unknown none id = false
is_unknown (some live) id = not (live id)

-- `managedRequestIDs[id]`.
unfoldable pub has_zvol : List ManagedZvol → Text → Bool
unfolding any_of
has_zvol zvols id = any_of (λ (z : ManagedZvol). text_eq z.request_id id) zvols

unfoldable pub vm_reason : List ManagedZvol → Option (Text → Bool) → Text → Option Reason
unfolding is_unknown has_zvol
vm_reason zvols live id =
    if is_unknown live id
    then some no_machine_request
    else if has_zvol zvols id
    then none
    else some backing_zvol_missing

remove_vm : ℕ → Option Reason → List Call
remove_vm n none = []
remove_vm n (some why) = stop_vm n ∷ delete_vm n ∷ []

-- `maybeDeleteOrphanVM`.
unfoldable pub maybe_delete_orphan_vm : List ManagedZvol → Option (Text → Bool) → Vm → List Call
unfolding vm_reason remove_vm
maybe_delete_orphan_vm zvols live vm =
    let id = parse_request_id_from_description vm.description in
    if is_omni_vm_name vm.name
    then (if text_eq id (codes "") then [] else remove_vm vm.id (vm_reason zvols live id))
    else []

vm_calls : List ManagedZvol → Option (Text → Bool) → List Vm → List Call
unfolding maybe_delete_orphan_vm
vm_calls zvols live [] = []
vm_calls zvols live (vm ∷ vms) = maybe_delete_orphan_vm zvols live vm ++ vm_calls zvols live vms

unfoldable pub cleanup_orphan_vms :
    List ManagedZvol → Option (Text → Bool) → Option (List Vm) → List Call
unfolding vm_calls
cleanup_orphan_vms zvols live none = []
cleanup_orphan_vms zvols live (some vms) = vm_calls zvols live vms

-- `vmNames[name]`.
unfoldable pub has_vm : List Vm → Text → Bool
unfolding any_of
has_vm vms name = any_of (λ (vm : Vm). text_eq vm.name name) vms

-- The name of a machine of version 0.14.
unfoldable pub legacy_vm_name : Text → Text
unfolding underscore
legacy_vm_name request_id = omni_prefix ++ underscore request_id

unfoldable pub zvol_reason : Text → List Vm → Option (Text → Bool) → Text → Option Reason
unfolding is_unknown has_vm legacy_vm_name
zvol_reason provider_id vms live id =
    if is_unknown live id
    then some no_machine_request
    else if has_vm vms (build_vm_name provider_id id) || has_vm vms (legacy_vm_name id)
    then none
    else some vm_deleted

remove_zvol : Text → Option Reason → List Call
remove_zvol path none = []
remove_zvol path (some why) = delete_dataset path ∷ []

-- A round of the loop over the volumes.
unfoldable pub maybe_delete_orphan_zvol :
    Text → List Vm → Option (Text → Bool) → ManagedZvol → List Call
unfolding zvol_reason remove_zvol
maybe_delete_orphan_zvol provider_id vms live z =
    remove_zvol z.path (zvol_reason provider_id vms live z.request_id)

zvol_calls : Text → List Vm → Option (Text → Bool) → List ManagedZvol → List Call
unfolding maybe_delete_orphan_zvol
zvol_calls provider_id vms live [] = []
zvol_calls provider_id vms live (z ∷ zs) =
    maybe_delete_orphan_zvol provider_id vms live z ++ zvol_calls provider_id vms live zs

unfoldable pub cleanup_orphan_zvols :
    Text → Option (List Vm) → Option (Text → Bool) → List ManagedZvol → List Call
unfolding zvol_calls
cleanup_orphan_zvols provider_id vms live [] = []
cleanup_orphan_zvols provider_id none live (z ∷ zs) = []
cleanup_orphan_zvols provider_id (some vms) live (z ∷ zs) = zvol_calls provider_id vms live (z ∷ zs)

-- The live requests, where a read that failed counts as none given.
unfoldable pub live_set : LiveAnswer → Option (Text → Bool)
live_set no_callback = none
live_set read_failed = none
live_set (read live) = some live

orphan_calls : Text → Option (List Dataset) → Answers → List Call
unfolding list_managed_zvols cleanup_orphan_vms cleanup_orphan_zvols live_set
orphan_calls provider_id none a = []
orphan_calls provider_id (some volumes) a =
    let zvols = list_managed_zvols volumes in
    cleanup_orphan_vms zvols (live_set a.live) a.vms
    ++ cleanup_orphan_zvols provider_id a.vms_later (live_set a.live) zvols

-- `runOnce`, with the pool of the configuration and `meta.ProviderID`.
unfoldable pub run_once : Text → Text → Answers → List Call
unfolding cleanup_isos orphan_calls
run_once pool provider_id a =
    cleanup_isos pool a.files a.active_images ++ orphan_calls provider_id a.volumes a
