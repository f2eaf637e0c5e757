-- ===== src/Provisioner/Deprovision.antt =====
-- internal/provisioner/deprovision.go, with the ownership checks of ownership.go: the teardown of a
-- machine and its disks. What TrueNAS answers in a run is an input, by machine and by path.
pub mod Ownership
pub mod Forgotten
pub mod Calls
use omni_infra_provider_true.Base.{
  ℕ, zero, suc, ◌*◌, Bool, true, false, List, [], ◌∷◌, ◌++◌, String, ◌==◌, not, ◌&&◌, if◌then◌else◌,
}
use omni_infra_provider_true.Base.Int.{ℤ, pos, negsuc}
use omni_infra_provider_true.Base.Result.{Result, ok, err}
use omni_infra_provider_true.Clock.{Duration, ns_per_second}
use omni_infra_provider_true.Text.{Text, codes, text_eq}
use omni_infra_provider_true.Meta.{has_prefix, omni_vm_description_prefix}

-- An error of the client: TrueNAS has no such object, or anything else.
pub data ApiError : Type 0 where
  not_found failed : ApiError

-- What a poll of a stopping machine finds.
pub data Poll : Type 0 where
  stopped gone unreadable running : Poll

-- The answers of TrueNAS: a machine's description, the polls of a machine up to the deadline or the
-- end of the context, a volume's user properties with the empty text for a missing one, whether a
-- volume exists, and the outcomes of the deletions.
pub record Host : Type 0 where
  pub get_vm : ℕ → Result ApiError Text
  pub polls : ℕ → List Poll
  pub user_properties : Text → Result ApiError (String → Text)
  pub dataset_exists : Text → Result ApiError Bool
  pub vm_deletion : ℕ → Result ApiError (Unit {0})
  pub dataset_deletion : Text → Result ApiError (Unit {0})

-- A call that changes the host; a stop is forced or not.
pub data Call : Type 0 where
  stop_vm : ℕ → Bool → Call
  delete_vm : ℕ → Call
  delete_dataset : Text → Call

pub data OwnershipError : Type 0 where
  path_empty unreadable_properties not_tagged other_request : OwnershipError

pub data DeprovisionError : Type 0 where
  vm_unreadable vm_not_managed vm_not_deleted : ℕ → DeprovisionError
  zvol_refused : Text → OwnershipError → DeprovisionError
  zvol_not_deleted : Text → DeprovisionError

-- An error, if there is one, and the calls that were made.
abbrev pub Run : Type 0
Run = Result DeprovisionError (Unit {0}) × List Call

-- `isOmniManagedVM`, on the machine's description.
unfoldable pub is_omni_managed_vm : Text → Bool
unfolding has_prefix
is_omni_managed_vm description = has_prefix omni_vm_description_prefix description

check_tags : (String → Text) → Text → Result OwnershipError (Unit {0})
check_tags props request_id =
    if not (text_eq (props "org.omni:managed") (codes "true"))
    then err not_tagged
    else if text_eq request_id []
    then ok tt
    else if not (text_eq (props "org.omni:request-id") [])
        && not (text_eq (props "org.omni:request-id") request_id)
    then err other_request
    else ok tt

check_properties : Result ApiError (String → Text) → Text → Result OwnershipError (Unit {0})
unfolding check_tags
check_properties (err e) request_id = err unreadable_properties
check_properties (ok props) request_id = check_tags props request_id

-- `verifyZvolOwnership`.
unfoldable pub verify_zvol_ownership : Host → Text → Text → Result OwnershipError (Unit {0})
unfolding check_properties
verify_zvol_ownership host path request_id =
    if text_eq path []
    then err path_empty
    else check_properties (host.user_properties path) request_id

-- How long a graceful stop may take: the configured time, or 30 seconds.
unfoldable pub graceful_timeout : Duration → Duration
graceful_timeout (pos zero) = pos (30 * ns_per_second)
graceful_timeout (pos (suc n)) = pos (suc n)
graceful_timeout (negsuc n) = pos (30 * ns_per_second)

-- `waitForGracefulStop`, on the polls up to its end.
unfoldable pub wait_for_graceful_stop : List Poll → Bool
wait_for_graceful_stop [] = false
wait_for_graceful_stop (stopped ∷ polls) = true
wait_for_graceful_stop (gone ∷ polls) = true
wait_for_graceful_stop (unreadable ∷ polls) = false
wait_for_graceful_stop (running ∷ polls) = wait_for_graceful_stop polls

-- The outcome of a deletion, where an object that is not there counts as deleted.
deleted : DeprovisionError → Result ApiError (Unit {0}) → Result DeprovisionError (Unit {0})
deleted e (ok u) = ok tt
deleted e (err not_found) = ok tt
deleted e (err failed) = err e

stop_calls : ℕ → Bool → List Call
stop_calls n true = stop_vm n false ∷ []
stop_calls n false = stop_vm n false ∷ stop_vm n true ∷ []

remove_vm : Host → ℕ → Run
unfolding stop_calls wait_for_graceful_stop deleted
remove_vm host n = (
  deleted (vm_not_deleted n) (host.vm_deletion n),
  stop_calls n (wait_for_graceful_stop (host.polls n)) ++ delete_vm n ∷ [],
)

cleanup_fetched : Host → ℕ → Result ApiError Text → Run
unfolding remove_vm
cleanup_fetched host n (err not_found) = (ok tt, [])
cleanup_fetched host n (err failed) = (err (vm_unreadable n), [])
cleanup_fetched host n (ok description) =
    if is_omni_managed_vm description then remove_vm host n else (err (vm_not_managed n), [])

-- `cleanupVM`, with `fetchOwnedVM` and `gracefullyStopVM`.
unfoldable pub cleanup_vm : Host → ℕ → Run
unfolding cleanup_fetched
cleanup_vm host n = if n == 0 then (ok tt, []) else cleanup_fetched host n (host.get_vm n)

refusal : Text → OwnershipError → Result ApiError Bool → Run
refusal path e (ok false) = (ok tt, [])
refusal path e (ok true) = (err (zvol_refused path e), [])
refusal path e (err f) = (err (zvol_refused path e), [])

cleanup_checked : Host → Text → Result OwnershipError (Unit {0}) → Run
unfolding refusal deleted
cleanup_checked host path (err e) = refusal path e (host.dataset_exists path)
cleanup_checked host path (ok u) =
    (deleted (zvol_not_deleted path) (host.dataset_deletion path), delete_dataset path ∷ [])

-- `cleanupZvol`.
unfoldable pub cleanup_zvol : Host → Text → Text → Run
unfolding cleanup_checked
cleanup_zvol host request_id path =
    if text_eq path []
    then (ok tt, [])
    else cleanup_checked host path (verify_zvol_ownership host path request_id)

-- An early return of an error.
and_then : Run → Run → Run
and_then (err e, calls) next = (err e, calls)
and_then (ok u, calls) (r, more) = (r, calls ++ more)

cleanup_zvols : Host → Text → List Text → Run
unfolding and_then cleanup_zvol
cleanup_zvols host request_id [] = (ok tt, [])
cleanup_zvols host request_id (path ∷ paths) =
    and_then (cleanup_zvol host request_id path) (cleanup_zvols host request_id paths)

-- `Deprovision`: the machine, the further disks, the root disk. The request ID is empty where there
-- is no request.
unfoldable pub deprovision : Host → Text → ℕ → List Text → Text → Run
unfolding and_then cleanup_vm cleanup_zvols cleanup_zvol
deprovision host request_id vm_id additional_zvol_paths zvol_path =
    and_then (cleanup_vm host vm_id) (
      and_then (cleanup_zvols host request_id additional_zvol_paths)
        (cleanup_zvol host request_id zvol_path))
