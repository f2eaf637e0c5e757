-- ===== src/Provisioner/Existing/Replaced.antt =====
-- When a machine in ERROR is replaced and when it is recovered, over any history of it.
use omni_infra_provider_true.Base.{
  ℕ, suc, ◌≤◌, ◌<◌, ◌≡◌, ◌↔◌, refl, ap, ◌∙◌, Bool, true, false, List, [], ◌∷◌, map, Option, none,
  some, String, str_eq, ltb, arith, if◌then◌else◌, Bool-cases, inl, inr,
}
use omni_infra_provider_true.Base.Int.{pos}
use omni_infra_provider_true.Text.{Text}
use omni_infra_provider_true.Provisioner.Deprovision.{is_omni_managed_vm}
use omni_infra_provider_true.Provisioner.Deprovision.Calls.{teardown_calls, cleanup_vm-calls}
use omni_infra_provider_true.Provisioner.Existing.{
  Limits, Counters, Vm, VmCall, start_vm, reset_vm_nvram, teardown, Answers, Recovery, Run,
  retry_after, record_vm_error, exceeds, reset_in_error, reset_read, reset_nvram_if_needed,
  recovered, in_error, handle_existing_vm,
}
use omni_infra_provider_true.Provisioner.Existing.Streak.{
  seen, observe_all, streak, in_error-count, exceeds-limit, observe_all-streak, same_id,
}

-- The machine is torn down, its count starts again, and the retry is after 5 seconds.
pub record IsReplaced (a : Answers) (id : ℕ) (run : Run) : Type 0 where
  pub ending : run.0 ≡ retry_after 5
  pub calls : run.1 ≡ map teardown (teardown_calls a.host id)
  pub count : run.2.error_counts id ≡ 0

-- The NVRAM is reset if the machine is still in ERROR, and the machine is started after a reset that
-- went through.
abbrev pub recovery_for : Option String → Recovery → ℕ → List VmCall
recovery_for none r id = []
recovery_for (some state) r id =
    if str_eq state "ERROR"
    then (if r.nvram_reset then reset_vm_nvram id ∷ start_vm id ∷ [] else reset_vm_nvram id ∷ [])
    else []

abbrev pub recovery_calls : Recovery → ℕ → List VmCall
recovery_calls r id = recovery_for r.read_again r id

-- The machine is recovered, one more error is counted, and the retry is after 30 seconds.
pub record IsRecovered (a : Answers) (id n : ℕ) (run : Run) : Type 0 where
  pub ending : run.0 ≡ retry_after 30
  pub calls : run.1 ≡ recovery_calls a.recovery id
  pub count : run.2.error_counts id ≡ suc n

module _ (cfg : Limits) (vm : Vm) (name : Text) where
  reset-calls :
      (o : Option String) (r : Recovery) (id : ℕ) (c : Counters)
      → (reset_read o r id name c).0 ≡ recovery_for o r id
  unfolding reset_read reset_in_error
  reset-calls none r id c = refl
  reset-calls (some state) r id c = elim (Bool-cases (str_eq state "ERROR")) [
    | inl bad ↦ elim (Bool-cases r.nvram_reset) [
      | inl done ↦ simp (bad, done)
      | inr failed ↦ simp (bad, failed)
    ]
    | inr good ↦ simp (good)
  ]

  recovered-calls : (r : List VmCall × Counters) → (recovered r).1 ≡ r.0
  unfolding recovered
  recovered-calls (calls, c) = refl

  in_error-calls :
      (a : Answers) (vm : Vm) (c : Counters)
      → (in_error cfg a vm name c).1 ≡ (
          if exceeds cfg.max_error_recoveries (c.error_counts vm.id)
          then map teardown (teardown_calls a.host vm.id)
          else recovery_calls a.recovery vm.id)
  unfolding in_error reset_nvram_if_needed recovered
  in_error-calls a vm c =
      elim (Bool-cases (exceeds cfg.max_error_recoveries (c.error_counts vm.id))) [
        | inl e ↦ simp (e) (ap (map teardown) (cleanup_vm-calls a.host vm.id))
        | inr e ↦ simp (e) (
            recovered-calls (reset_nvram_if_needed a.recovery vm.id name c)
            ∙ reset-calls a.recovery.read_again a.recovery vm.id c)
      ]

  module _ (m : ℕ) (limit : cfg.max_error_recoveries ≡ pos (suc m))
      (ours : is_omni_managed_vm vm.description ≡ true) (history : List (String × Answers))
      (c : Counters) (a : Answers) (fresh : c.error_counts vm.id ≡ 0) where
    abbrev run_now : Run
    run_now = handle_existing_vm cfg a (seen vm "ERROR") name (observe_all cfg vm name history c)

    abbrev counted : Counters
    counted = record_vm_error vm.id (observe_all cfg vm name history c)

    run_in_error : run_now ≡ in_error cfg a (seen vm "ERROR") name counted
    unfolding handle_existing_vm
    run_in_error = simp (ours)

    count_now : counted.error_counts vm.id ≡ suc (streak (suc m) 0 history)
    unfolding record_vm_error
    count_now = simp (same_id cfg vm name vm.id) (
        ap suc (
          observe_all-streak cfg vm name m limit ours history c
          ∙ ap (λ k. streak (suc m) k history) fresh))

    full :
        exceeds cfg.max_error_recoveries (counted.error_counts vm.id)
        ≡ ltb (suc m) (suc (streak (suc m) 0 history))
    full =
        exceeds-limit cfg vm name m limit ours (counted.error_counts vm.id)
        ∙ ap (ltb (suc m)) count_now

    -- The outcome, on whether the limit is exceeded.
    outcome :
        (b : Bool)
        → ltb (suc m) (suc (streak (suc m) 0 history)) ≡ b
        → (run_now.0 ≡ (if b then retry_after 5 else retry_after 30))
          × (run_now.1 ≡ (
              if b
              then map teardown (teardown_calls a.host vm.id)
              else recovery_calls a.recovery vm.id))
          × (run_now.2.error_counts vm.id ≡ (if b then 0 else counted.error_counts vm.id))
    outcome b e =
        let sick = seen vm "ERROR" in
        let big = full ∙ e in
        let (count, ending) = in_error-count cfg vm name a sick counted in
        (
          ap (λ r. r.0) run_in_error
              ∙ ending
              ∙ ap (λ b. if b then retry_after 5 else retry_after 30) big,
          ap (λ r. r.1) run_in_error
              ∙ in_error-calls a sick counted
              ∙ ap
                  (λ b.
                    if b
                    then map teardown (teardown_calls a.host vm.id)
                    else recovery_calls a.recovery vm.id)
                  big,
          ap (λ r. r.2.error_counts vm.id) run_in_error
              ∙ count
              ∙ ap (λ b. if b then 0 else counted.error_counts vm.id) big,
        )

    replaced : suc m ≤ streak (suc m) 0 history → IsReplaced a vm.id run_now
    replaced h =
        let (ending, calls, count) = outcome true (ground arith) in
        record { ending = ending; calls = calls; count = count }

    recovers :
        streak (suc m) 0 history < suc m → IsRecovered a vm.id (streak (suc m) 0 history) run_now
    recovers h =
        let (ending, calls, count) = outcome false (ground arith) in
        record { ending = ending; calls = calls; count = count ∙ count_now }

    -- The circuit breaker of a machine of the provider, under a positive limit and from a count of 0,
    -- on a further observation in ERROR after any history of observations, whatever TrueNAS answered.
    -- If ERROR was seen as many times as the limit, or more, since the machine ran or was torn down
    -- last, and only then, the run makes the calls of a teardown: for a machine that is there with
    -- the provider's mark a stop, a forced stop if that is not enough, and the deletion; the count
    -- starts again, and the retry is after 5 seconds. Otherwise, and only then, the run counts one
    -- error more, resets the NVRAM if the machine is found in ERROR still, starts it if the reset
    -- goes through, and the retry is after 30 seconds. States other than RUNNING and ERROR do not
    -- count and do not reset the count.
    pub handle_existing_vm-IsReplaced_iff :
        (IsReplaced a vm.id run_now ↔ (suc m ≤ streak (suc m) 0 history))
        × (IsRecovered a vm.id (streak (suc m) 0 history) run_now
            ↔ (streak (suc m) 0 history < suc m))
    handle_existing_vm-IsReplaced_iff =
        elim (Bool-cases (ltb (suc m) (suc (streak (suc m) 0 history)))) [
          | inl e ↦
              let big : suc m ≤ streak (suc m) 0 history = ground arith in
              let done = replaced big in ((λ h. big, λ h. done), (λ h. absurd cc, recovers))
          | inr e ↦
              let small : streak (suc m) 0 history < suc m = ground arith in
              let done = recovers small in ((λ h. absurd cc, replaced), (λ h. small, λ h. done))
        ]
