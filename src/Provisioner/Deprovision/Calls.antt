-- ===== src/Provisioner/Deprovision/Calls.antt =====
-- The calls of the teardown of a machine, by what TrueNAS tells of it.
use omni_infra_provider_true.Base.{
  ℕ, ◌≡◌, refl, Bool, true, false, List, [], ◌∷◌, ◌==◌, if◌then◌else◌, Bool-cases, inl, inr,
}
use omni_infra_provider_true.Base.Result.{Result, ok, err}
use omni_infra_provider_true.Text.{Text}
use omni_infra_provider_true.Provisioner.Deprovision.{
  ApiError, not_found, failed, Host, Call, stop_vm, delete_vm, is_omni_managed_vm,
  wait_for_graceful_stop, stop_calls, remove_vm, cleanup_fetched, cleanup_vm,
}

-- A stop, a forced one where that is not enough, and the deletion.
abbrev pub removal_calls : Bool → ℕ → List Call
removal_calls graceful n =
    if graceful
    then stop_vm n false ∷ delete_vm n ∷ []
    else stop_vm n false ∷ stop_vm n true ∷ delete_vm n ∷ []

-- Only a machine that is there, and carries the provider's mark, is removed.
abbrev pub calls_for : Result ApiError Text → Bool → ℕ → List Call
calls_for (err e) graceful n = []
calls_for (ok description) graceful n =
    if is_omni_managed_vm description then removal_calls graceful n else []

abbrev pub teardown_calls : Host → ℕ → List Call
teardown_calls host n =
    if n == 0 then [] else calls_for (host.get_vm n) (wait_for_graceful_stop (host.polls n)) n

remove-calls :
    (host : Host) (n : ℕ) (b : Bool)
    → wait_for_graceful_stop (host.polls n) ≡ b
    → (remove_vm host n).1 ≡ removal_calls b n
unfolding remove_vm stop_calls
remove-calls host n true e = simp (e)
remove-calls host n false e = simp (e)

fetched-calls :
    (host : Host) (n : ℕ) (r : Result ApiError Text)
    → (cleanup_fetched host n r).1 ≡ calls_for r (wait_for_graceful_stop (host.polls n)) n
unfolding cleanup_fetched
fetched-calls host n (err not_found) = refl
fetched-calls host n (err failed) = refl
fetched-calls host n (ok description) = elim (Bool-cases (is_omni_managed_vm description)) [
  | inl ours ↦ simp (ours) (remove-calls host n (wait_for_graceful_stop (host.polls n)) refl)
  | inr other ↦ simp (other)
]

pub cleanup_vm-calls : (host : Host) (n : ℕ) → (cleanup_vm host n).1 ≡ teardown_calls host n
unfolding cleanup_vm
cleanup_vm-calls host n = elim (Bool-cases (n == 0)) [
  | inl none ↦ simp (none)
  | inr some ↦ simp (some) (fetched-calls host n (host.get_vm n))
]
