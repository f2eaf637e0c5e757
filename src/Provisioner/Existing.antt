-- ===== src/Provisioner/Existing.antt =====
-- internal/provisioner/steps.go: what a reconcile does with a machine that is
-- there already, and the two counters that end its retries. TrueNAS's answers are inputs.
pub mod Retries
pub mod Streak
pub mod Replaced
pub mod Stopped
pub mod Absent
mod Tests
use omni_infra_provider_true.Base.{
  ℕ, zero, suc, ◌+◌, ◌-◌, ◌%◌, Bool, true, false, List, [], ◌∷◌, map, Option, none, some, String,
  str_eq, ltb, ◌==◌, ◌&&◌, not, if◌then◌else◌,
}
use omni_infra_provider_true.Base.Int.{ℤ, pos, negsuc, ltb_ℤ, u32_mod}
use omni_infra_provider_true.Base.Result.{Result, ok, err}
use omni_infra_provider_true.Text.{Text, text_eq}
use omni_infra_provider_true.Autoscaler.Server.{to_int32}
pub use omni_infra_provider_true.Provisioner.Existing.Retries.{Limits, Counters}
unfoldable pub use omni_infra_provider_true.Provisioner.Existing.Retries.{
  record_vm_error, clear_vm_errors, record_oom_attempt, clear_oom_attempts,
}
use omni_infra_provider_true.Provisioner.Existing.Retries.{track_vm_name}
use omni_infra_provider_true.Provisioner.Deprovision.{
  Call, ApiError, not_found, failed, Host, is_omni_managed_vm, cleanup_vm,
}

-- A machine as TrueNAS tells it.
pub record Vm : Type 0 where
  pub id : ℕ
  pub state : String
  pub description : Text

-- The outcome of a start: done, refused for want of memory, or failed otherwise.
pub data Start : Type 0 where
  started no_memory start_failed : Start

-- The calls that change the host.
pub data VmCall : Type 0 where
  start_vm reset_vm_nvram : ℕ → VmCall
  teardown : Call → VmCall

pub data StepError : Type 0 where
  not_managed vm_unreadable vm_unsearchable not_started : StepError
  out_of_memory out_of_memory_permanent : ℕ → StepError

-- The end of a step: a nil error, a retry after some seconds, or an error.
pub data Ending : Type 0 where
  finished : Ending
  retry_after : ℕ → Ending
  failing : StepError → Ending

-- The answers while a machine in ERROR is recovered: its state read again, none where that fails,
-- whether the NVRAM is reset, and the start after it.
pub record Recovery : Type 0 where
  pub read_again : Option String
  pub nvram_reset : Bool
  pub restart : Start

-- The answers of a reconcile: a start, a recovery and a teardown.
pub record Answers : Type 0 where
  pub start : Start
  pub recovery : Recovery
  pub host : Host

abbrev pub Run : Type 0
Run = Ending × List VmCall × Counters

-- A positive limit is exceeded.
unfoldable pub exceeds : ℤ → ℕ → Bool
exceeds limit count = ltb_ℤ (pos 0) limit && ltb_ℤ limit (pos count)

-- `translateStartError`.
unfoldable pub translate_start_error : Limits → Text → Start → Counters → Ending × Counters
unfolding record_oom_attempt exceeds
translate_start_error cfg name started c = (failing not_started, c)
translate_start_error cfg name start_failed c = (failing not_started, c)
translate_start_error cfg name no_memory c =
    let counted = record_oom_attempt name c in
    let count = counted.oom_counts name in
    (
      if exceeds cfg.max_start_oom_attempts count
          then failing (out_of_memory_permanent count)
          else failing (out_of_memory count),
      counted,
    )

restarted : Start → Text → Counters → Counters
restarted started name c = c
restarted no_memory name c = record_oom_attempt name c
restarted start_failed name c = c

reset_in_error : Recovery → ℕ → Text → Counters → List VmCall × Counters
unfolding restarted
reset_in_error r id name c =
    if r.nvram_reset
    then (reset_vm_nvram id ∷ start_vm id ∷ [], restarted r.restart name c)
    else (reset_vm_nvram id ∷ [], c)

reset_read : Option String → Recovery → ℕ → Text → Counters → List VmCall × Counters
unfolding reset_in_error
reset_read none r id name c = ([], c)
reset_read (some state) r id name c =
    if str_eq state "ERROR" then reset_in_error r id name c else ([], c)

-- `resetNVRAMIfNeeded`.
unfoldable pub reset_nvram_if_needed : Recovery → ℕ → Text → Counters → List VmCall × Counters
unfolding reset_read
reset_nvram_if_needed r id name c = reset_read r.read_again r id name c

recovered : List VmCall × Counters → Run
recovered (calls, c) = (retry_after 30, calls, c)

started_again : Limits → Answers → Vm → Text → Counters → Start → Run
unfolding translate_start_error clear_oom_attempts
started_again cfg a vm name c started =
    (retry_after 10, start_vm vm.id ∷ [], clear_oom_attempts name c)
started_again cfg a vm name c no_memory =
    let (ending, counted) = translate_start_error cfg name no_memory c in
    (ending, start_vm vm.id ∷ [], counted)
started_again cfg a vm name c start_failed =
    let (ending, counted) = translate_start_error cfg name start_failed c in
    (ending, start_vm vm.id ∷ [], counted)

-- A machine in ERROR, whose count is up to date: it is replaced beyond the limit, or recovered.
pub in_error : Limits → Answers → Vm → Text → Counters → Run
unfolding recovered reset_nvram_if_needed clear_vm_errors exceeds cleanup_vm
in_error cfg a vm name c =
    let recover = recovered (reset_nvram_if_needed a.recovery vm.id name c) in
    if exceeds cfg.max_error_recoveries (c.error_counts vm.id)
    then (retry_after 5, map teardown (cleanup_vm a.host vm.id).1, clear_vm_errors vm.id c)
    else recover

-- `handleExistingVM`.
unfoldable pub handle_existing_vm : Limits → Answers → Vm → Text → Counters → Run
unfolding in_error started_again record_vm_error clear_vm_errors is_omni_managed_vm
handle_existing_vm cfg a vm name c =
    if not (is_omni_managed_vm vm.description)
    then (failing not_managed, [], c)
    else if str_eq vm.state "RUNNING"
    then (finished, [], clear_vm_errors vm.id (track_vm_name name c))
    else if str_eq vm.state "ERROR"
    then in_error cfg a vm name (record_vm_error vm.id c)
    else started_again cfg a vm name c a.start

-- The identity of the machine in the state of the request.
pub record MachineState : Type 0 where
  pub vm_id : ℤ
  pub cdrom_device_id : ℤ

-- A run that may go on to make the machine, with the state that it leaves.
pub record Checked : Type 0 where
  pub run : Option Run
  pub state : MachineState

-- The lookup by name, none where it fails; a machine that is found gives the state its ID, as an int32.
found : Limits → Answers → MachineState → Text → Counters → Option (Option Vm) → Checked
unfolding handle_existing_vm to_int32
found cfg a s name c none = record { run = some (failing vm_unsearchable, [], c); state = s }
found cfg a s name c (some none) = record { run = none; state = s }
found cfg a s name c (some (some vm)) = record {
  run = some (handle_existing_vm cfg a vm name c);
  state = record s { vm_id = to_int32 vm.id };
}

abbrev forget_vm : MachineState → MachineState
forget_vm s = record s { vm_id = pos 0; cdrom_device_id = pos 0 }

looked_up :
    Limits
    → Answers
    → MachineState
    → Text
    → Counters
    → Result ApiError Vm
    → Option (Option Vm)
    → Checked
unfolding found handle_existing_vm
looked_up cfg a s name c (ok vm) find = record {
  run = some (handle_existing_vm cfg a vm name c);
  state = s;
}
looked_up cfg a s name c (err failed) find = record {
  run = some (failing vm_unreadable, [], c);
  state = s;
}
looked_up cfg a s name c (err not_found) find = found cfg a (forget_vm s) name c find

is_unset : ℤ → Bool
is_unset (pos zero) = true
is_unset (pos (suc n)) = false
is_unset (negsuc n) = false

-- `checkExistingVM`, on the answers to the lookup by ID and by name.
unfoldable pub check_existing_vm :
    Limits
    → Answers
    → MachineState
    → Text
    → Counters
    → Result ApiError Vm
    → Option (Option Vm)
    → Checked
unfolding looked_up found is_unset
check_existing_vm cfg a s name c get_vm find =
    if is_unset s.vm_id then found cfg a s name c find else looked_up cfg a s name c get_vm find

-- `verifyVMExists`.
unfoldable pub verify_vm_exists :
    Result ApiError Vm → MachineState → Result StepError (Unit {0}) × MachineState
verify_vm_exists (ok vm) s = (ok tt, s)
verify_vm_exists (err failed) s = (err vm_unreadable, s)
verify_vm_exists (err not_found) s = (ok tt, forget_vm s)

verified : Result StepError (Unit {0}) × MachineState → Ending × MachineState
unfolding is_unset
verified (err e, s) = (failing e, s)
verified (ok u, s) = (if is_unset s.vm_id then retry_after 5 else finished, s)

-- `stepHealthCheck`.
unfoldable pub step_health_check : Result ApiError Vm → MachineState → Ending × MachineState
unfolding verified verify_vm_exists is_unset
step_health_check get_vm s =
    if is_unset s.vm_id then (finished, s) else verified (verify_vm_exists get_vm s)
