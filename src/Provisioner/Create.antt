-- ===== src/Provisioner/Create.antt =====
-- internal/provisioner/steps.go: making a machine, as its outcome and the calls that it makes. What
-- TrueNAS answers is an input.
pub mod Disks
pub mod Machine
use omni_infra_provider_true.Base.{
  ℕ, suc, ◌+◌, Bool, true, false, List, [], ◌∷◌, ◌++◌, Option, none, some, not, ltb, if◌then◌else◌,
}
use omni_infra_provider_true.Base.Int.{ℤ, pos, ltb_ℤ, leb_ℤ}
use omni_infra_provider_true.Base.Result.{Result, ok, err}
use omni_infra_provider_true.Int64.{scale}
use omni_infra_provider_true.Text.{Text, codes, text_eq}
use omni_infra_provider_true.Text.Decimal.{format_uint}
use omni_infra_provider_true.Provisioner.Patches.{PatchError}
use omni_infra_provider_true.Provisioner.{Data, AdditionalDisk, AdditionalNic, base_path}

-- How a call fails: the object exists already, the host has no memory for the guest, or otherwise.
pub data Failure : Type 0 where
  already_exists no_memory failed : Failure

-- A patch of the machine's configuration, by its kind.
pub data PatchKind : Type 0 where
  data_volumes longhorn_ops nic_mtu nic_interfaces advertised_subnets : PatchKind

-- `CreateVMRequest`, with the sizes in MiB.
pub record CreateVmRequest : Type 0 where
  pub name : Text
  pub description : Text
  pub uuid : Text
  pub vcpus : ℤ
  pub memory : ℤ
  pub min_memory : ℤ
  pub bootloader : Text
  pub autostart : Bool
  pub cpu_mode : Text

-- `NICConfig`, less the trust in guest filters, which the step never sets.
pub record NicConfig : Type 0 where
  pub network_interface : Text
  pub nic_type : Text
  pub mac : Text
  pub mtu : ℤ

-- The calls that change TrueNAS or the request.
pub data HostCall : Type 0 where
  ensure_dataset : Text → HostCall
  create_zvol resize_zvol : Text → ℤ → HostCall
  create_encrypted_zvol : Text → ℤ → Text → HostCall
  unlock_dataset : Text → Text → HostCall
  create_vm : CreateVmRequest → HostCall
  add_cdrom : ℕ → Text → HostCall
  add_disk : ℕ → Text → ℕ → HostCall
  add_nic : ℕ → NicConfig → ℕ → HostCall
  apply_patch : PatchKind → HostCall
  start_vm : ℕ → HostCall

-- The answers: how each call fails, if it does, and what is read; and the passphrase that is
-- generated for a new volume, none where that fails. The calls that ensure a dataset may be repeated,
-- and are answered by their place in the step too.
pub record CreateHost : Type 0 where
  pub dataset_failure : ℕ → Text → Option Failure
  pub failure : HostCall → Option Failure
  pub new_passphrase : Text → Option Text
  pub zvol_size : Text → Option ℤ
  pub stored_passphrase : Text → Option Text
  pub is_locked : Text → Option Bool
  pub new_vm_id : ℕ

pub data CreateError : Type 0 where
  call_failed : HostCall → CreateError
  passphrase_not_generated passphrase_unreadable passphrase_missing : Text → CreateError
  patch_failed : PatchError → CreateError
  iso_refused : CreateError

-- An outcome and the calls that were made, in their order.
abbrev pub Run : Type 0 → Type 0
Run A = Result CreateError A × List HostCall

infixl 5 ◌>>=◌ ◌>>◌
abbrev pub ◌>>=◌ : {A B : Type 0} → Run A → (A → Run B) → Run B
(ok a, calls) >>= f = ((f a).0, calls ++ (f a).1)
(err e, calls) >>= f = (err e, calls)

abbrev pub ◌>>◌ : {B : Type 0} → Run (Unit {0}) → Run B → Run B
m >> k = m >>= λ _. k

abbrev pub done : Run (Unit {0})
done = (ok tt, [])

abbrev pub stop : {A : Type 0} → CreateError → Run A
stop e = (err e, [])

made : HostCall → Option Failure → Run (Unit {0})
made call none = (ok tt, call ∷ [])
made call (some e) = (err (call_failed call), call ∷ [])

-- A call whose failure ends the step.
unfoldable pub must : CreateHost → HostCall → Run (Unit {0})
unfolding made
must host call = made call (host.failure call)

-- `EnsureDataset`, at its place in the step.
unfoldable pub ensure : CreateHost → ℕ → Text → Run (Unit {0})
unfolding made
ensure host place path = made (ensure_dataset path) (host.dataset_failure place path)

resize_from : CreateHost → Text → ℤ → Option ℤ → Run (Unit {0})
unfolding must scale
resize_from host path size none = done
resize_from host path size (some current) =
    if leb_ℤ (scale 1073741824 size) current then done else must host (resize_zvol path size)

-- `maybeResizeZvol`.
unfoldable pub maybe_resize_zvol : CreateHost → Text → ℤ → Run (Unit {0})
unfolding resize_from
maybe_resize_zvol host path size = resize_from host path size (host.zvol_size path)

unlock : CreateHost → Text → Text → Option Bool → Run (Unit {0})
unfolding must
unlock host path passphrase none = done
unlock host path passphrase (some false) = done
unlock host path passphrase (some true) = must host (unlock_dataset path passphrase)

reopen : CreateHost → Text → ℤ → Option Text → Run (Unit {0})
unfolding unlock maybe_resize_zvol
reopen host path size none = stop (passphrase_unreadable path)
reopen host path size (some passphrase) =
    if text_eq passphrase []
    then stop (passphrase_missing path)
    else (unlock host path passphrase (host.is_locked path) >> maybe_resize_zvol host path size)

-- A creation that went through, failed because the volume is there, or failed otherwise.
created : HostCall → Option Failure → Run (Unit {0}) → Run (Unit {0})
created call none existing = (ok tt, call ∷ [])
created call (some already_exists) existing = ((existing).0, call ∷ (existing).1)
created call (some no_memory) existing = (err (call_failed call), call ∷ [])
created call (some failed) existing = (err (call_failed call), call ∷ [])

sealed_with : CreateHost → Text → ℤ → Option Text → Run (Unit {0})
unfolding created reopen
sealed_with host path size none = stop (passphrase_not_generated path)
sealed_with host path size (some passphrase) =
    let call = create_encrypted_zvol path size passphrase in
    created call (host.failure call) (reopen host path size (host.stored_passphrase path))

-- `ensureEncryptedZvol`.
unfoldable pub ensure_encrypted_zvol : CreateHost → Text → ℤ → Run (Unit {0})
unfolding sealed_with
ensure_encrypted_zvol host path size = sealed_with host path size (host.new_passphrase path)

-- `ensureZvol`.
unfoldable pub ensure_zvol : CreateHost → Text → ℤ → Bool → Run (Unit {0})
unfolding created ensure_encrypted_zvol maybe_resize_zvol
ensure_zvol host path size encrypted =
    let call = create_zvol path size in
    let plain = created call (host.failure call) (maybe_resize_zvol host path size) in
    let sealed = ensure_encrypted_zvol host path size in if encrypted then sealed else plain
