-- ===== src/Provisioner/Existing/Streak.antt =====
-- The count of errors of a machine, over any history of what was seen of it.
use omni_infra_provider_true.Base.{
  ℕ, suc, ◌≡◌, refl, sym, ap, ◌∙◌, true, List, [], ◌∷◌, Option, none, some, String, str_eq, ltb,
  ◌==◌, arith, if◌then◌else◌, Bool-cases, inl, inr,
}
use omni_infra_provider_true.Base.Int.{pos}
use omni_infra_provider_true.Text.{Text}
use omni_infra_provider_true.Provisioner.Deprovision.{is_omni_managed_vm}
use omni_infra_provider_true.Provisioner.Existing.{
  Limits, Counters, Vm, VmCall, Start, started, no_memory, start_failed, Answers, Recovery,
  retry_after, record_vm_error, clear_vm_errors, record_oom_attempt, clear_oom_attempts, exceeds,
  translate_start_error, restarted, reset_in_error, reset_read, reset_nvram_if_needed, recovered,
  started_again, in_error, handle_existing_vm,
}

-- The machine as it is seen in a state.
abbrev pub seen : Vm → String → Vm
seen vm state = record vm { state = state }

-- The counters after a history of states, each with the answers of its reconcile.
unfoldable pub observe_all : Limits → Vm → Text → List (String × Answers) → Counters → Counters
unfolding handle_existing_vm
observe_all cfg vm name [] c = c
observe_all cfg vm name ((state, a) ∷ history) c =
    observe_all cfg vm name history (handle_existing_vm cfg a (seen vm state) name c).2

-- How many times ERROR was seen since the machine ran or was replaced last, from a count on.
unfoldable pub streak : ℕ → ℕ → List (String × Answers) → ℕ
streak limit n [] = n
streak limit n ((state, a) ∷ history) =
    if str_eq state "RUNNING"
    then streak limit 0 history
    else if str_eq state "ERROR"
    then (if ltb limit (suc n) then streak limit 0 history else streak limit (suc n) history)
    else streak limit n history

module _ (cfg : Limits) (vm : Vm) (name : Text) where
  restarted-errors : (r : Start) (c : Counters) → (restarted r name c).error_counts ≡ c.error_counts
  unfolding restarted record_oom_attempt
  restarted-errors started c = refl
  restarted-errors no_memory c = refl
  restarted-errors start_failed c = refl

  reset-errors :
      (o : Option String) (r : Recovery) (id : ℕ) (c : Counters)
      → (reset_read o r id name c).1.error_counts ≡ c.error_counts
  unfolding reset_read reset_in_error
  reset-errors none r id c = refl
  reset-errors (some state) r id c = elim (Bool-cases (str_eq state "ERROR")) [
    | inl bad ↦ elim (Bool-cases r.nvram_reset) [
      | inl done ↦ simp (bad, done) (restarted-errors r.restart c)
      | inr failed ↦ simp (bad, failed)
    ]
    | inr good ↦ simp (good)
  ]

  recovered-errors : (r : List VmCall × Counters) → (recovered r).2 ≡ r.1
  unfolding recovered
  recovered-errors (calls, c) = refl

  started_again-errors :
      (a : Answers) (vm : Vm) (c : Counters) (s : Start)
      → (started_again cfg a vm name c s).2.error_counts ≡ c.error_counts
  unfolding started_again translate_start_error clear_oom_attempts record_oom_attempt
  started_again-errors a vm c started = refl
  started_again-errors a vm c no_memory = refl
  started_again-errors a vm c start_failed = refl

  pub same_id : (n : ℕ) → (n == n) ≡ true
  same_id n = ground arith

  -- The count that ERROR leaves, and the end of that reconcile.
  pub in_error-count :
      (a : Answers) (vm : Vm) (c : Counters)
      → ((in_error cfg a vm name c).2.error_counts vm.id ≡ (
          if exceeds cfg.max_error_recoveries (c.error_counts vm.id)
          then 0
          else c.error_counts vm.id))
        × ((in_error cfg a vm name c).0 ≡ (
            if exceeds cfg.max_error_recoveries (c.error_counts vm.id)
            then retry_after 5
            else retry_after 30))
  unfolding in_error clear_vm_errors reset_nvram_if_needed recovered
  in_error-count a vm c =
      elim (Bool-cases (exceeds cfg.max_error_recoveries (c.error_counts vm.id))) [
        | inl e ↦ (simp (e, same_id vm.id), simp (e))
        | inr e ↦ (
          simp (e) (
              ap (λ c. c.error_counts vm.id)
                (recovered-errors (reset_nvram_if_needed a.recovery vm.id name c))
              ∙ ap (λ f. f vm.id) (reset-errors a.recovery.read_again a.recovery vm.id c)),
          simp (e) refl,
        )
      ]

  module _ (m : ℕ) (limit : cfg.max_error_recoveries ≡ pos (suc m))
      (ours : is_omni_managed_vm vm.description ≡ true) where
    pub exceeds-limit : (n : ℕ) → exceeds cfg.max_error_recoveries n ≡ ltb (suc m) n
    unfolding exceeds
    exceeds-limit n = simp (limit) (ground arith)

    -- One more observation.
    observed-streak :
        (a : Answers) (state : String) (c : Counters)
        → (handle_existing_vm cfg a (seen vm state) name c).2.error_counts vm.id
          ≡ streak (suc m) (c.error_counts vm.id) ((state, a) ∷ [])
    unfolding handle_existing_vm streak clear_vm_errors record_vm_error
    observed-streak a state c = elim (Bool-cases (str_eq state "RUNNING")) [
      | inl run ↦ simp (ours, run, same_id vm.id)
      | inr off ↦ elim (Bool-cases (str_eq state "ERROR")) [
        | inl bad ↦
            simp (ours, off, bad)
              ((in_error-count a (seen vm state) (record_vm_error vm.id c)).0
                ∙ simp (same_id vm.id, exceeds-limit (suc (c.error_counts vm.id))))
        | inr good ↦
            simp (ours, off, good)
              (ap (λ f. f vm.id) (started_again-errors a (seen vm state) c a.start))
      ]
    ]

    streak-cons :
        (n : ℕ) (o : String × Answers) (history : List (String × Answers))
        → streak (suc m) n (o ∷ history) ≡ streak (suc m) (streak (suc m) n (o ∷ [])) history
    unfolding streak
    streak-cons n (state, a) history = ground arith

    pub observe_all-streak :
        (history : List (String × Answers)) (c : Counters)
        → (observe_all cfg vm name history c).error_counts vm.id
          ≡ streak (suc m) (c.error_counts vm.id) history
    unfolding observe_all streak
    observe_all-streak [] c = refl
    observe_all-streak ((state, a) ∷ history) c =
        observe_all-streak history (handle_existing_vm cfg a (seen vm state) name c).2
        ∙ ap (λ n. streak (suc m) n history) (observed-streak a state c)
        ∙ sym (streak-cons (c.error_counts vm.id) (state, a) history)
