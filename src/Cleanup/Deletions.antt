-- ===== src/Cleanup/Deletions.antt =====
-- What a cleanup cycle removes, stated by predicates on what it is told.
use omni_infra_provider_true.Base.{
  ℕ, suc, ◌+◌, ◌≡◌, refl, ◌∙◌, Bool, false, not, ◌&&◌, ◌||◌, List, [], ◌∷◌, ◌++◌, map, select,
  Option, none, some, count_if, any_of, ltb, ◌==◌, if◌then◌else◌, arith,
}
use omni_infra_provider_true.Text.{Text, codes, text_eq}
use omni_infra_provider_true.Meta.{
  is_omni_vm_name, build_vm_name, parse_request_id_from_description,
}
use omni_infra_provider_true.Cleanup.{
  Call, stop_vm, delete_vm, delete_dataset, recreate_dataset, Vm, ManagedZvol, Dataset, File,
  Answers, list_managed_zvols, iso_image_id, counts_total, counts_stale, iso_calls, cleanup_isos,
  is_unknown, has_zvol, vm_reason, remove_vm, maybe_delete_orphan_vm, vm_calls, cleanup_orphan_vms,
  has_vm, legacy_vm_name, zvol_reason, remove_zvol, maybe_delete_orphan_zvol, zvol_calls,
  cleanup_orphan_zvols, live_set, orphan_calls, run_once,
}

-- A machine with the provider's name prefix and a request ID that Omni does not know, or that no
-- managed volume has.
is_orphan_vm : List ManagedZvol → Option (Text → Bool) → Vm → Bool
is_orphan_vm zvols live vm =
    let id = parse_request_id_from_description vm.description in
    is_omni_vm_name vm.name
    && not (text_eq id (codes ""))
    && (is_unknown live id || not (has_zvol zvols id))

-- A managed volume with a request ID that Omni does not know, or with no machine under its new or its
-- old name.
is_orphan_zvol : Text → List Vm → Option (Text → Bool) → ManagedZvol → Bool
is_orphan_zvol provider_id vms live z =
    is_unknown live z.request_id
    || not (has_vm vms (build_vm_name provider_id z.request_id))
      && not (has_vm vms (legacy_vm_name z.request_id))

is_used : (Text → Bool) → Option Text → Bool
is_used active none = false
is_used active (some image) = active image

-- There is an image, and none is in use.
all_stale : Option (List File) → Option (Text → Bool) → Bool
unfolding is_used
all_stale none active = false
all_stale (some files) none = false
all_stale (some files) (some active) =
    any_of (λ f. counts_total (iso_image_id f)) files
    && not (any_of (λ f. is_used active (iso_image_id f)) files)

-- What is removed: nothing where a listing has failed.
orphan_vms : Option (List Dataset) → Option (List Vm) → Option (Text → Bool) → List Vm
unfolding is_orphan_vm select
orphan_vms none vms live = []
orphan_vms (some volumes) none live = []
orphan_vms (some volumes) (some vms) live =
    select (is_orphan_vm (list_managed_zvols volumes) live) vms

orphan_zvols :
    Text → Option (List Dataset) → Option (List Vm) → Option (Text → Bool) → List ManagedZvol
unfolding is_orphan_zvol select
orphan_zvols provider_id none vms live = []
orphan_zvols provider_id (some volumes) none live = []
orphan_zvols provider_id (some volumes) (some vms) live =
    select (is_orphan_zvol provider_id vms live) (list_managed_zvols volumes)

vm_removals : List Vm → List Call
vm_removals [] = []
vm_removals (vm ∷ vms) = stop_vm vm.id ∷ delete_vm vm.id ∷ vm_removals vms

zvol_removals : List ManagedZvol → List Call
zvol_removals zvols = map (λ (z : ManagedZvol). delete_dataset z.path) zvols

image_removals : Text → Bool → List Call
image_removals pool stale = if stale then recreate_dataset (pool ++ codes "/talos-iso") ∷ [] else []

-- The specification of a cycle: the images if all are stale, then the orphaned machines and volumes.
pub expected : Text → Text → Answers → List Call
unfolding all_stale orphan_vms orphan_zvols vm_removals zvol_removals image_removals
expected pool provider_id a =
    image_removals pool (all_stale a.files a.active_images)
    ++ (vm_removals (orphan_vms a.volumes a.vms (live_set a.live))
        ++ zvol_removals (orphan_zvols provider_id a.volumes a.vms_later (live_set a.live)))

vm_calls-removals :
    (zvols : List ManagedZvol) (live : Option (Text → Bool)) (vms : List Vm)
    → vm_calls zvols live vms ≡ vm_removals (select (is_orphan_vm zvols live) vms)
unfolding vm_calls vm_removals select is_orphan_vm maybe_delete_orphan_vm vm_reason remove_vm
vm_calls-removals zvols live [] = refl
vm_calls-removals zvols live (vm ∷ vms) = ground (arith, vm_calls-removals zvols live vms)

zvol_calls-removals :
    (provider_id : Text) (vms : List Vm) (live : Option (Text → Bool)) (zvols : List ManagedZvol)
    → zvol_calls provider_id vms live zvols
      ≡ zvol_removals (select (is_orphan_zvol provider_id vms live) zvols)
unfolding zvol_calls zvol_removals select is_orphan_zvol maybe_delete_orphan_zvol zvol_reason
    remove_zvol
zvol_calls-removals provider_id vms live [] = refl
zvol_calls-removals provider_id vms live (z ∷ zvols) =
    ground (arith, zvol_calls-removals provider_id vms live zvols)

split_one :
    (active : Text → Bool) (o : Option Text) (total stale used : ℕ)
    → total ≡ stale + used
    → (if counts_total o then suc total else total)
      ≡ (if counts_stale active o then suc stale else stale)
        + (if is_used active o then suc used else used)
unfolding counts_total counts_stale is_used
split_one active none total stale used h = h
split_one active (some image) total stale used h = ground arith

count_if-split :
    (active : Text → Bool) (files : List File)
    → count_if (λ f. counts_total (iso_image_id f)) files
      ≡ count_if (λ f. counts_stale active (iso_image_id f)) files
        + count_if (λ f. is_used active (iso_image_id f)) files
unfolding count_if
count_if-split active [] = omega arith
count_if-split active (f ∷ files) =
    split_one active (iso_image_id f) _ _ _ (count_if-split active files)

any_of-count_if {ℓ} :
    {A : Type ℓ} (p : A → Bool) (xs : List A) → any_of p xs ≡ not (count_if p xs == 0)
unfolding any_of count_if
any_of-count_if p [] = refl
any_of-count_if p (x ∷ xs) = ground (arith, any_of-count_if p xs)

all_or_nothing :
    (calls : List Call) (total stale used : ℕ)
    → total ≡ stale + used
    → (if stale == 0 then [] else if ltb stale total then [] else calls)
      ≡ (if not (total == 0) && not (not (used == 0)) then calls else [])
all_or_nothing calls total stale used h = ground arith

iso_calls-removals :
    (pool : Text) (active : Text → Bool) (files : List File)
    → iso_calls pool active files ≡ image_removals pool (all_stale (some files) (some active))
unfolding iso_calls image_removals all_stale
iso_calls-removals pool active files =
    let is_iso : File → Bool = λ f. counts_total (iso_image_id f) in
    let is_in_use : File → Bool = λ f. is_used active (iso_image_id f) in
    let stale = count_if (λ f. counts_stale active (iso_image_id f)) files in
    rw (any_of-count_if is_iso files, any_of-count_if is_in_use files)
      (all_or_nothing (recreate_dataset (pool ++ codes "/talos-iso") ∷ []) (count_if is_iso files)
        stale (count_if is_in_use files) (count_if-split active files))

cleanup_isos-removals :
    (pool : Text) (files : Option (List File)) (active : Option (Text → Bool))
    → cleanup_isos pool files active ≡ image_removals pool (all_stale files active)
unfolding cleanup_isos image_removals all_stale
cleanup_isos-removals pool none active = refl
cleanup_isos-removals pool (some files) none = refl
cleanup_isos-removals pool (some files) (some active) = iso_calls-removals pool active files

cleanup_orphan_zvols-calls :
    (provider_id : Text) (vms : List Vm) (live : Option (Text → Bool)) (zvols : List ManagedZvol)
    → cleanup_orphan_zvols provider_id (some vms) live zvols ≡ zvol_calls provider_id vms live zvols
unfolding cleanup_orphan_zvols
cleanup_orphan_zvols-calls provider_id vms live [] = refl
cleanup_orphan_zvols-calls provider_id vms live (z ∷ zvols) = refl

vms_part :
    (volumes : List Dataset) (vms : Option (List Vm)) (live : Option (Text → Bool))
    → cleanup_orphan_vms (list_managed_zvols volumes) live vms
      ≡ vm_removals (orphan_vms (some volumes) vms live)
unfolding cleanup_orphan_vms orphan_vms vm_removals
vms_part volumes none live = refl
vms_part volumes (some vms) live = vm_calls-removals (list_managed_zvols volumes) live vms

without_vms :
    (provider_id : Text) (live : Option (Text → Bool)) (zvols : List ManagedZvol)
    → cleanup_orphan_zvols provider_id none live zvols ≡ []
unfolding cleanup_orphan_zvols
without_vms provider_id live [] = refl
without_vms provider_id live (z ∷ zvols) = refl

zvols_part :
    (provider_id : Text) (volumes : List Dataset) (vms : Option (List Vm))
    (live : Option (Text → Bool))
    → cleanup_orphan_zvols provider_id vms live (list_managed_zvols volumes)
      ≡ zvol_removals (orphan_zvols provider_id (some volumes) vms live)
unfolding orphan_zvols zvol_removals
zvols_part provider_id volumes none live = without_vms provider_id live (list_managed_zvols volumes)
zvols_part provider_id volumes (some vms) live =
    let zvols = list_managed_zvols volumes in
    cleanup_orphan_zvols-calls provider_id vms live zvols
    ∙ zvol_calls-removals provider_id vms live zvols

orphans_part :
    (provider_id : Text) (volumes : Option (List Dataset)) (a : Answers)
    → orphan_calls provider_id volumes a
      ≡ vm_removals (orphan_vms volumes a.vms (live_set a.live))
        ++ zvol_removals (orphan_zvols provider_id volumes a.vms_later (live_set a.live))
unfolding orphan_calls orphan_vms orphan_zvols vm_removals zvol_removals
orphans_part provider_id none a = refl
orphans_part provider_id (some volumes) a =
    rw
      (
        vms_part volumes a.vms (live_set a.live),
        zvols_part provider_id volumes a.vms_later (live_set a.live),
      )
      refl

-- A cleanup cycle makes exactly the changes of its specification, in that order, whatever it is told:
-- the image dataset is made anew if there is an image and none is in use; then each machine is
-- stopped and deleted that has the provider's prefix and a request ID that Omni does not know or no
-- managed volume has; then each managed volume is deleted whose request ID Omni does not know or
-- that has no machine under its new or old name. A failed listing removes nothing that hangs on it,
-- and a failed read of the live requests leaves only the rules on the partner.
pub run_once-expected :
    (pool provider_id : Text) (a : Answers)
    → run_once pool provider_id a ≡ expected pool provider_id a
unfolding run_once expected
run_once-expected pool provider_id a =
    rw (cleanup_isos-removals pool a.files a.active_images, orphans_part provider_id a.volumes a)
      refl
