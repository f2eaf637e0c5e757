-- ===== src/Provisioner/Step.antt =====
-- internal/provisioner/steps.go: stepCreateVM as a whole, which joins the lookup of a machine, the
-- checks and the making of one.
pub mod Creation
mod Tests
use omni_infra_provider_true.Base.{ℕ, Bool, List, [], ◌∷◌, Option, none, some, if◌then◌else◌}
use omni_infra_provider_true.Base.Int.{ℤ}
use omni_infra_provider_true.Base.Result.{Result, ok, err}
use omni_infra_provider_true.Text.{Text}
use omni_infra_provider_true.Provisioner.{ProviderConfig, Data, apply_defaults}
use omni_infra_provider_true.Provisioner.Validation.{ValidationError, validate}
use omni_infra_provider_true.Provisioner.Deprovision.{ApiError}
use omni_infra_provider_true.Provisioner.Preflight.{
  PreflightError, Guest, check_pool_space_all, preflight_host_memory,
}
use omni_infra_provider_true.Provisioner.Existing as Existing
use omni_infra_provider_true.Provisioner.Existing.{
  Limits, Counters, MachineState, Vm, VmCall, Ending, retry_after, Start, no_memory, start_failed,
  Checked, check_existing_vm, translate_start_error, clear_oom_attempts,
}
use omni_infra_provider_true.Provisioner.Create.{
  Failure, HostCall, start_vm, CreateHost, CreateError, call_failed, Run,
}
use omni_infra_provider_true.Provisioner.Create.Machine.{NetHost, Request, make_vm}

-- What is answered in a run of the step, and whether the class's data can be decoded.
pub record World : Type 0 where
  pub existing : Existing.Answers
  pub get_vm : Result ApiError Vm
  pub found_by_name : Option (Option Vm)
  pub data_decoded : Bool
  pub pool_free_space : Text → Option ℤ
  pub host_memory : Option ℤ
  pub guests : Option (List Guest)
  pub host : CreateHost
  pub net : NetHost

pub data StepEnd : Type 0 where
  ended : Ending → StepEnd
  class_unreadable : StepEnd
  class_invalid : ValidationError → StepEnd
  host_refused : PreflightError → StepEnd
  not_made : CreateError → StepEnd

-- The end of a run, its calls on a machine that is there and to make one, and the counters.
pub record Outcome : Type 0 where
  pub end : StepEnd
  pub vm_calls : List VmCall
  pub host_calls : List HostCall
  pub counters : Counters

-- How a start that failed is counted and reported.
start_of : Option Failure → Start
start_of none = start_failed
start_of (some Failure.no_memory) = no_memory
start_of (some Failure.already_exists) = start_failed
start_of (some Failure.failed) = start_failed

after_error : Limits → World → Text → Counters → CreateError → StepEnd × Counters
unfolding start_of
after_error cfg w name c (call_failed (start_vm id)) =
    let (ending, counted) =
      translate_start_error cfg name (start_of (w.host.failure (start_vm id))) c in
    (ended ending, counted)
after_error cfg w name c e = (not_made e, c)

-- The request with the defaults in its data.
abbrev pub defaulted : ProviderConfig → Request → Request
defaulted config r = record r { provider_data = apply_defaults config r.provider_data }

module _ (sha256 : Text → ℕ → ℕ) (is_cidr : Text → Bool) (config : ProviderConfig) (cfg : Limits)
    (bypass : Bool) where
  made_or_not : World → Request → Counters → Run (Unit {0}) → Outcome
  unfolding after_error clear_oom_attempts
  made_or_not w r c (ok u, calls) = record {
    end = ended (retry_after 15);
    vm_calls = [];
    host_calls = calls;
    counters = clear_oom_attempts r.vm_name c;
  }
  made_or_not w r c (err e, calls) =
      let (end, counted) = after_error cfg w r.vm_name c e in
      record { end = end; vm_calls = []; host_calls = calls; counters = counted }

  abbrev refused : StepEnd → Counters → Outcome
  refused end c = record { end = end; vm_calls = []; host_calls = []; counters = c }

  with_memory : World → Request → Counters → Result PreflightError (Unit {0}) → Outcome
  unfolding made_or_not make_vm
  with_memory w r c (err e) = refused (host_refused e) c
  with_memory w r c (ok u) = made_or_not w r c (make_vm sha256 is_cidr w.host w.net r)

  with_space : World → Request → Counters → Result PreflightError (Unit {0}) → Outcome
  unfolding with_memory preflight_host_memory
  with_space w r c (err e) = refused (host_refused e) c
  with_space w r c (ok u) =
      with_memory w r c (preflight_host_memory r.provider_data w.host_memory w.guests)

  with_class : World → Request → Counters → Result ValidationError (Unit {0}) → Outcome
  unfolding with_space check_pool_space_all
  with_class w r c (err e) = refused (class_invalid e) c
  with_class w r c (ok u) =
      with_space w r c (check_pool_space_all w.pool_free_space r.provider_data)

  looked_for : World → Request → Counters → Option Existing.Run → Outcome
  unfolding with_class validate
  looked_for w r c (some (ending, calls, counted)) = record {
    end = ended ending;
    vm_calls = calls;
    host_calls = [];
    counters = counted;
  }
  looked_for w r c none =
      let run =
        with_class w (defaulted config r) c (validate bypass (defaulted config r).provider_data) in
      if w.data_decoded then run else refused class_unreadable c

  -- `stepCreateVM`.
  unfoldable pub step_create_vm : World → MachineState → Request → Counters → Outcome
  unfolding looked_for check_existing_vm
  step_create_vm w s r c =
      looked_for w r c (check_existing_vm cfg w.existing s r.vm_name c w.get_vm w.found_by_name).run
