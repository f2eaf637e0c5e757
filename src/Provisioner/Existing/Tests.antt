-- ===== src/Provisioner/Existing/Tests.antt =====
-- An instance of the theorem on the replacement of a machine in ERROR.
use omni_infra_provider_true.Provisioner.Fixtures.{counters}
use omni_infra_provider_true.Base.{◌≤◌, ◌<◌, ◌↔◌, refl, true, false, List, [], ◌∷◌, some, String}
use omni_infra_provider_true.Base.Int.{pos}
use omni_infra_provider_true.Base.Result.{ok, err}
use omni_infra_provider_true.Text.{codes}
use omni_infra_provider_true.Meta.{has_prefix, after_prefix, omni_vm_description}
use omni_infra_provider_true.Provisioner.Deprovision.{Host, not_found, is_omni_managed_vm}
use omni_infra_provider_true.Provisioner.Existing.{
  Limits, Vm, started, no_memory, Answers, Run, handle_existing_vm,
}
use omni_infra_provider_true.Provisioner.Existing.Streak.{seen, observe_all, streak}
use omni_infra_provider_true.Provisioner.Existing.Replaced.{
  IsReplaced, IsRecovered, handle_existing_vm-IsReplaced_iff,
}

abbrev host : Host
host = record {
  get_vm = λ n. ok (omni_vm_description (codes "r1"));
  polls = λ n. [];
  user_properties = λ path. err not_found;
  dataset_exists = λ path. ok false;
  vm_deletion = λ n. ok tt;
  dataset_deletion = λ path. ok tt;
}

abbrev answers : Answers
answers = record {
  start = started;
  recovery = record { read_again = some "ERROR"; nvram_reset = true; restart = no_memory };
  host = host;
}

abbrev machine : Vm
machine = record { id = 7; state = "STOPPED"; description = omni_vm_description (codes "r1") }

abbrev limits : Limits
limits = record { max_error_recoveries = pos 2; max_start_oom_attempts = pos 5 }

abbrev history : List (String × Answers)
history = ("ERROR", answers) ∷ ("STOPPED", answers) ∷ ("ERROR", answers) ∷ []

-- The reconcile that sees the machine in ERROR once more.
abbrev last_run : Run
last_run =
    handle_existing_vm limits answers (seen machine "ERROR") (codes "omni_vm")
      (observe_all limits machine (codes "omni_vm") history counters)

handle_existing_vm-IsReplaced_iff_example :
    (IsReplaced answers 7 last_run ↔ (2 ≤ streak 2 0 history))
    × (IsRecovered answers 7 (streak 2 0 history) last_run ↔ (streak 2 0 history < 2))
unfolding is_omni_managed_vm has_prefix after_prefix omni_vm_description
handle_existing_vm-IsReplaced_iff_example =
    handle_existing_vm-IsReplaced_iff limits machine (codes "omni_vm") 1 refl refl history counters
      answers refl
