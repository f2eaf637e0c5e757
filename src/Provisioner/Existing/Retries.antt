-- ===== src/Provisioner/Existing/Retries.antt =====
-- internal/provisioner/provisioner.go: the limits on the retries, and the counters that a provider
-- keeps in memory for its machines.
use omni_infra_provider_true.Base.{ℕ, zero, suc, Bool, true, false, ◌==◌, if◌then◌else◌}
use omni_infra_provider_true.Base.Int.{ℤ, pos, negsuc}
use omni_infra_provider_true.Text.{Text, text_eq}

-- The limits of `ProviderConfig`.
pub record Limits : Type 0 where
  pub max_error_recoveries : ℤ
  pub max_start_oom_attempts : ℤ

limit_or_default : ℤ → ℤ
limit_or_default (pos zero) = pos 5
limit_or_default (pos (suc n)) = pos (suc n)
limit_or_default (negsuc n) = negsuc n

-- The limits that `NewProvisioner` keeps.
unfoldable pub new_limits : Limits → Limits
unfolding limit_or_default
new_limits cfg = record {
  max_error_recoveries = limit_or_default cfg.max_error_recoveries;
  max_start_oom_attempts = limit_or_default cfg.max_start_oom_attempts;
}

-- The counters, 0 where the map has no entry, and the names that are tracked.
pub record Counters : Type 0 where
  pub error_counts : ℕ → ℕ
  pub oom_counts : Text → ℕ
  pub active_vm_names : Text → Bool

unfoldable pub record_vm_error : ℕ → Counters → Counters
record_vm_error id c = record c {
  error_counts = λ n. if n == id then suc (c.error_counts n) else c.error_counts n;
}

unfoldable pub clear_vm_errors : ℕ → Counters → Counters
clear_vm_errors id c = record c { error_counts = λ n. if n == id then 0 else c.error_counts n }

unfoldable pub record_oom_attempt : Text → Counters → Counters
record_oom_attempt name c = record c {
  oom_counts = λ n. if text_eq n name then suc (c.oom_counts n) else c.oom_counts n;
}

unfoldable pub clear_oom_attempts : Text → Counters → Counters
clear_oom_attempts name c = record c {
  oom_counts = λ n. if text_eq n name then 0 else c.oom_counts n;
}

abbrev pub track_vm_name : Text → Counters → Counters
track_vm_name name c = record c {
  active_vm_names = λ n. if text_eq n name then true else c.active_vm_names n;
}

abbrev pub untrack_vm_name : Text → Counters → Counters
untrack_vm_name name c = record c {
  active_vm_names = λ n. if text_eq n name then false else c.active_vm_names n;
}
