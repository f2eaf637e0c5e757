-- ===== src/Provisioner/Step/Creation.antt =====
-- When a run of the step makes a machine.
use omni_infra_provider_true.Base.{
  ℕ, ◌≡◌, refl, ◌⊎◌, inl, inr, Bool, true, [], Bool-cases, Option, none, some,
}
use omni_infra_provider_true.Base.Result.{Result, ok, err}
use omni_infra_provider_true.Text.{Text}
use omni_infra_provider_true.Provisioner.{ProviderConfig}
use omni_infra_provider_true.Provisioner.Validation.{ValidationError, validate}
use omni_infra_provider_true.Provisioner.Preflight.{
  PreflightError, check_pool_space_all, preflight_host_memory,
}
use omni_infra_provider_true.Provisioner.Existing as Existing
use omni_infra_provider_true.Provisioner.Existing.{
  Limits, Counters, MachineState, check_existing_vm,
}
use omni_infra_provider_true.Provisioner.Existing.Absent.{IsAbsent, check_existing_vm-IsAbsent}
use omni_infra_provider_true.Provisioner.Create.{Run}
use omni_infra_provider_true.Provisioner.Create.Machine.{Request, make_vm}
use omni_infra_provider_true.Provisioner.Step.{
  World, made_or_not, with_memory, with_space, with_class, defaulted, looked_for, step_create_vm,
}

-- What has been checked when the first call to make a machine is made: no machine is there, the class
-- can be decoded and is valid with its defaults, and the pools and the host's memory are not found too small.
abbrev pub IsCleared : ProviderConfig → Bool → World → MachineState → Request → Type 0
IsCleared config bypass w s r =
    IsAbsent s w.get_vm w.found_by_name
    × (w.data_decoded ≡ true)
    × (validate bypass (defaulted config r).provider_data ≡ ok tt)
    × (check_pool_space_all w.pool_free_space (defaulted config r).provider_data ≡ ok tt)
    × (preflight_host_memory (defaulted config r).provider_data w.host_memory w.guests ≡ ok tt)

module _ (sha256 : Text → ℕ → ℕ) (is_cidr : Text → Bool) (config : ProviderConfig) (cfg : Limits)
    (bypass : Bool) where
  made_calls :
      (w : World) (r : Request) (c : Counters) (m : Run (Unit {0}))
      → (made_or_not sha256 is_cidr config cfg bypass w r c m).host_calls ≡ m.1
  unfolding made_or_not
  made_calls w r c (ok u, calls) = refl
  made_calls w r c (err e, calls) = refl

  with_memory-calls :
      (w : World) (r : Request) (c : Counters) (p : Result PreflightError (Unit {0}))
      → ((with_memory sha256 is_cidr config cfg bypass w r c p).host_calls ≡ [])
        ⊎ ((p ≡ ok tt)
            × ((with_memory sha256 is_cidr config cfg bypass w r c p).host_calls
                ≡ (make_vm sha256 is_cidr w.host w.net r).1))
  unfolding with_memory
  with_memory-calls w r c (err e) = inl refl
  with_memory-calls w r c (ok u) =
      inr (refl, made_calls w r c (make_vm sha256 is_cidr w.host w.net r))

  with_space-calls :
      (w : World) (r : Request) (c : Counters) (p : Result PreflightError (Unit {0}))
      → ((with_space sha256 is_cidr config cfg bypass w r c p).host_calls ≡ [])
        ⊎ ((p ≡ ok tt)
            × (preflight_host_memory r.provider_data w.host_memory w.guests ≡ ok tt)
            × ((with_space sha256 is_cidr config cfg bypass w r c p).host_calls
                ≡ (make_vm sha256 is_cidr w.host w.net r).1))
  unfolding with_space
  with_space-calls w r c (err e) = inl refl
  with_space-calls w r c (ok u) =
      elim (with_memory-calls w r c
        (preflight_host_memory r.provider_data w.host_memory w.guests)) [
          | inl h ↦ inl h
          | inr (h, calls) ↦ inr (refl, h, calls)
        ]

  with_class-calls :
      (w : World) (r : Request) (c : Counters) (p : Result ValidationError (Unit {0}))
      → ((with_class sha256 is_cidr config cfg bypass w r c p).host_calls ≡ [])
        ⊎ ((p ≡ ok tt)
            × (check_pool_space_all w.pool_free_space r.provider_data ≡ ok tt)
            × (preflight_host_memory r.provider_data w.host_memory w.guests ≡ ok tt)
            × ((with_class sha256 is_cidr config cfg bypass w r c p).host_calls
                ≡ (make_vm sha256 is_cidr w.host w.net r).1))
  unfolding with_class
  with_class-calls w r c (err e) = inl refl
  with_class-calls w r c (ok u) =
      elim (with_space-calls w r c (check_pool_space_all w.pool_free_space r.provider_data)) [
        | inl h ↦ inl h
        | inr (h, g, calls) ↦ inr (refl, h, g, calls)
      ]

  looked_for-calls :
      (w : World) (r : Request) (c : Counters) (o : Option Existing.Run)
      → ((looked_for sha256 is_cidr config cfg bypass w r c o).host_calls ≡ [])
        ⊎ ((o ≡ none)
            × (w.data_decoded ≡ true)
            × (validate bypass (defaulted config r).provider_data ≡ ok tt)
            × (check_pool_space_all w.pool_free_space (defaulted config r).provider_data ≡ ok tt)
            × (preflight_host_memory (defaulted config r).provider_data w.host_memory w.guests
                ≡ ok tt)
            × ((looked_for sha256 is_cidr config cfg bypass w r c o).host_calls
                ≡ (make_vm sha256 is_cidr w.host w.net (defaulted config r)).1))
  unfolding looked_for
  looked_for-calls w r c (some (ending, calls, counted)) = inl refl
  looked_for-calls w r c none = elim (Bool-cases w.data_decoded) [
    | inr e ↦ inl (simp (e))
    | inl e ↦
        elim (with_class-calls w (defaulted config r) c
          (validate bypass (defaulted config r).provider_data)) [
            | inl h ↦ inl (simp (e) h)
            | inr (v, h, g, calls) ↦ inr (refl, e, v, h, g, simp (e) calls)
          ]
  ]

  -- A run of the step makes no call to make a machine unless TrueNAS has neither a machine of its name
  -- nor one of the recorded ID, the class can be decoded and is valid with its defaults, and the checks of the pools and
  -- of the memory have passed; then its calls are those of the making, with the defaults in place.
  pub step_create_vm-IsCleared :
      (w : World) (s : MachineState) (r : Request) (c : Counters)
      → ((step_create_vm sha256 is_cidr config cfg bypass w s r c).host_calls ≡ [])
        ⊎ (IsCleared config bypass w s r
            × ((step_create_vm sha256 is_cidr config cfg bypass w s r c).host_calls
                ≡ (make_vm sha256 is_cidr w.host w.net (defaulted config r)).1))
  unfolding step_create_vm
  step_create_vm-IsCleared w s r c =
      let checked = check_existing_vm cfg w.existing s r.vm_name c w.get_vm w.found_by_name in
      elim (looked_for-calls w r c checked.run) [
        | inl h ↦ inl h
        | inr (gone, d, v, h, g, calls) ↦ inr (
          (
            check_existing_vm-IsAbsent cfg w.existing s r.vm_name c w.get_vm w.found_by_name gone,
            d,
            v,
            h,
            g,
          ),
          calls,
        )
      ]
