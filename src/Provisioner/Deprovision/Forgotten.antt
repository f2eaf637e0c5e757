-- ===== src/Provisioner/Deprovision/Forgotten.antt =====
-- internal/provisioner/deprovision.go: the end of `Deprovision`, which clears what the provider keeps
-- in memory for the machine.
use omni_infra_provider_true.Base.{ℕ, ◌≡◌, ◌≢◌, refl, false, List, [], if◌then◌else◌, arith}
use omni_infra_provider_true.Base.Result.{ok, err}
use omni_infra_provider_true.Text.{Text, text_eq, text_eq_refl}
use omni_infra_provider_true.Meta.{build_vm_name}
use omni_infra_provider_true.Provisioner.Existing.Retries.{
  Counters, clear_vm_errors, clear_oom_attempts, untrack_vm_name,
}
use omni_infra_provider_true.Provisioner.Deprovision.{Host, Run, deprovision}

-- What a teardown without an error does to the counters.
unfoldable forget : Text → Text → ℕ → Counters → Counters
forget provider_id request_id vm_id c = untrack_vm_name (build_vm_name provider_id request_id) (
    clear_vm_errors vm_id (
      if text_eq request_id []
      then c
      else clear_oom_attempts (build_vm_name provider_id request_id) c))

after_run : Text → Text → ℕ → Run → Counters → Run × Counters
unfolding forget
after_run provider_id request_id vm_id (err e, calls) c = ((err e, calls), c)
after_run provider_id request_id vm_id (ok u, calls) c =
    ((ok u, calls), forget provider_id request_id vm_id c)

-- `Deprovision` with the counters.
unfoldable deprovision_counted :
    Text → Host → Text → ℕ → List Text → Text → Counters → Run × Counters
unfolding after_run
deprovision_counted provider_id host request_id vm_id paths path c =
    after_run provider_id request_id vm_id (deprovision host request_id vm_id paths path) c

module _ (provider_id request_id : Text) (vm_id : ℕ) (c : Counters) where
  abbrev vm_name : Text
  vm_name = build_vm_name provider_id request_id

  forget-error_counts : (forget provider_id request_id vm_id c).error_counts vm_id ≡ 0
  unfolding forget clear_vm_errors
  forget-error_counts = ground arith

  forget-oom_counts :
      text_eq request_id [] ≡ false → (forget provider_id request_id vm_id c).oom_counts vm_name ≡ 0
  unfolding forget clear_vm_errors clear_oom_attempts
  forget-oom_counts named = rw (named, text_eq_refl vm_name) refl

  forget-active_vm_names : (forget provider_id request_id vm_id c).active_vm_names vm_name ≡ false
  unfolding forget
  forget-active_vm_names = rw (text_eq_refl vm_name) refl

  forget-others :
      (n : ℕ)
      → n ≢ vm_id
      → (forget provider_id request_id vm_id c).error_counts n ≡ c.error_counts n
  unfolding forget clear_vm_errors clear_oom_attempts
  forget-others n other = ground arith

-- Nothing is kept of a machine, and the counts of errors of the others are as they were.
record IsForgotten (name : Text) (vm_id : ℕ) (c c' : Counters) : Type 0 where
  pub no_errors : c'.error_counts vm_id ≡ 0
  pub no_attempts : c'.oom_counts name ≡ 0
  pub untracked : c'.active_vm_names name ≡ false
  pub others : (n : ℕ) → n ≢ vm_id → c'.error_counts n ≡ c.error_counts n

-- An error leaves the counters as they are; without one, nothing is kept.
abbrev IsCleaned : Text → ℕ → Counters → Run × Counters → Type 0
IsCleaned name vm_id c ((err e, calls), c') = c' ≡ c
IsCleaned name vm_id c ((ok u, calls), c') = IsForgotten name vm_id c c'

after_run-IsCleaned :
    (provider_id request_id : Text) (vm_id : ℕ) (c : Counters)
    → text_eq request_id [] ≡ false
    → (r : Run)
    → ((after_run provider_id request_id vm_id r c).0 ≡ r)
      × IsCleaned
          (build_vm_name provider_id request_id)
          vm_id
          c
          (after_run provider_id request_id vm_id r c)
unfolding after_run
after_run-IsCleaned provider_id request_id vm_id c named (err e, calls) = (refl, refl)
after_run-IsCleaned provider_id request_id vm_id c named (ok u, calls) = (
  refl,
  record {
    no_errors = forget-error_counts provider_id request_id vm_id c;
    no_attempts = forget-oom_counts provider_id request_id vm_id c named;
    untracked = forget-active_vm_names provider_id request_id vm_id c;
    others = forget-others provider_id request_id vm_id c;
  },
)

-- A teardown of a named request has the outcome and the calls of `deprovision`. Either it ends with
-- an error and leaves the counters as they are, or both counters of the machine are 0, its name is
-- no longer tracked, and the counts of errors of the other machines are as they were.
deprovision_counted-IsCleaned :
    (provider_id : Text) (host : Host) (request_id : Text) (vm_id : ℕ) (paths : List Text)
    (path : Text) (c : Counters)
    → text_eq request_id [] ≡ false
    → ((deprovision_counted provider_id host request_id vm_id paths path c).0
        ≡ deprovision host request_id vm_id paths path)
      × IsCleaned
          (build_vm_name provider_id request_id)
          vm_id
          c
          (deprovision_counted provider_id host request_id vm_id paths path c)
unfolding deprovision_counted
deprovision_counted-IsCleaned provider_id host request_id vm_id paths path c named =
    after_run-IsCleaned provider_id request_id vm_id c named
      (deprovision host request_id vm_id paths path)
