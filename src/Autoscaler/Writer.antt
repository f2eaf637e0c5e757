-- ===== src/Autoscaler/Writer.antt =====
-- internal/autoscaler/writer.go: the write that raises a set's machine count.
use omni_infra_provider_true.Base.{
  ℕ, zero, suc, ◌+◌, ◌%◌, ◌≤◌, ◌<◌, ◌≡◌, refl, sym, ap, ◌∙◌, false, Option, none, some, String,
  if◌then◌else◌, arith, Bool-cases, inl, inr,
}
use omni_infra_provider_true.Base.Int.{ℤ, pos, negsuc, ltb_ℤ, int64_bound, u32_mod}
use omni_infra_provider_true.Base.Result.{Result, ok, err}
use omni_infra_provider_true.Clock.{Time}
use omni_infra_provider_true.Omni.{MachineSet, Allocation}
use omni_infra_provider_true.Omni.Store.{Store, UpdateError}
use omni_infra_provider_true.Autoscaler.Annotations.{Config}
use omni_infra_provider_true.Autoscaler.Capacity.{wrap_int64}
use omni_infra_provider_true.Autoscaler.Discovery.{NodeGroup, lock_blocks}
use omni_infra_provider_true.Autoscaler.Lock.{rotation_lock_annotation}

pub data WriteError : Type 0 where
  delta_not_positive missing_config at_or_above_max : WriteError

pub data MutatorError : Type 0 where
  allocation_missing rotation_lock_held above_max : MutatorError

pub data IncreaseError : Type 0 where
  rejected : WriteError → IncreaseError
  update_failed : UpdateError MutatorError → IncreaseError

raise_allocation :
    Option Allocation → ℕ → ℕ → Time → MachineSet → Result MutatorError (Unit {0} × MachineSet)
unfolding lock_blocks
raise_allocation none max delta now ms = err allocation_missing
raise_allocation (some a) max delta now ms =
    let live_new = wrap_int64 (a.machine_count + delta) in
    if lock_blocks (ms.annotations rotation_lock_annotation) now
    then err rotation_lock_held
    else if ltb_ℤ (pos max) live_new
    then err above_max
    else ok (
      tt,
      record ms {
        allocation = some (record a { machine_count = (a.machine_count + delta) % u32_mod });
      },
    )

-- The mutator: the lock and the bound are checked again on the live set.
unfoldable pub raise : ℕ → ℕ → Time → MachineSet → Result MutatorError (Unit {0} × MachineSet)
unfolding raise_allocation
raise max delta now ms = raise_allocation ms.allocation max delta now ms

count_of : Option Allocation → ℕ
count_of none = 0
count_of (some a) = a.machine_count

update_answer : Result (UpdateError MutatorError) (Unit {0} × MachineSet) → Result IncreaseError ℕ
unfolding count_of
update_answer (ok (u, ms)) = ok (count_of ms.allocation)
update_answer (err e) = err (update_failed e)

module _ (sets : Store MachineSet) where
  write_raise : ℕ → ℕ → Time → String → sets.State → Result IncreaseError ℕ × sets.State
  unfolding update_answer
  write_raise max delta now id s =
      let (answer, s') = sets.update MutatorError (Unit {0}) s id (raise max delta now) in
      (update_answer answer, s')

  increase_within :
      Option Config → ℕ → Time → NodeGroup → sets.State → Result IncreaseError ℕ × sets.State
  unfolding write_raise
  increase_within none delta now group s = (err (rejected missing_config), s)
  increase_within (some cfg) delta now group s =
      let written = write_raise cfg.max delta now group.id s in
      if ltb_ℤ (pos cfg.max) (wrap_int64 (group.current_size + delta))
      then (err (rejected at_or_above_max), s)
      else written

  unfoldable pub increase_machine_count :
      NodeGroup → ℤ → Time → sets.State → Result IncreaseError ℕ × sets.State
  unfolding increase_within
  increase_machine_count group (negsuc n) now s = (err (rejected delta_not_positive), s)
  increase_machine_count group (pos zero) now s = (err (rejected delta_not_positive), s)
  increase_machine_count group (pos (suc n)) now s =
      increase_within group.config (suc n) now group s

  -- What a successful increase has done.
  pub record IsRaised (group : NodeGroup) (delta : ℕ) (now : Time) (s s' : sets.State) (size : ℕ)
      : Type 0 where
    pub live : MachineSet
    pub after : MachineSet
    pub cfg : Config
    pub a : Allocation
    pub configured : group.config ≡ some cfg
    pub before : sets.read s group.id ≡ some live
    pub stored : sets.read s' group.id ≡ some after
    pub allocated : live.allocation ≡ some a
    pub unlocked : lock_blocks (live.annotations rotation_lock_annotation) now ≡ false
    pub raised :
        after
        ≡ record live { allocation = some (record a { machine_count = a.machine_count + delta }) }
    pub counted : size ≡ a.machine_count + delta
    pub bounded : size ≤ cfg.max

raised_of :
    (o : Option Allocation) (max delta : ℕ) (now : Time) (ms after : MachineSet)
    → max < u32_mod
    → ((a : Allocation) → o ≡ some a → a.machine_count + delta < int64_bound)
    → raise_allocation o max delta now ms ≡ ok (tt, after)
    → (a : Allocation) × (o ≡ some a)
      × (lock_blocks (ms.annotations rotation_lock_annotation) now ≡ false)
      × (a.machine_count + delta ≤ max)
      × (after
          ≡ record ms { allocation = some (record a { machine_count = a.machine_count + delta }) })
unfolding raise_allocation wrap_int64
raised_of none max delta now ms after small fits h = absurd (cc h)
raised_of (some a) max delta now ms after small fits h =
    let fit = fits a refl in (a, refl, ground arith, ground arith, ground arith)

answer_of :
    (r : Result (UpdateError MutatorError) (Unit {0} × MachineSet)) (size : ℕ)
    → update_answer r ≡ ok size
    → (ms : MachineSet) × (r ≡ ok (tt, ms)) × (count_of ms.allocation ≡ size)
unfolding update_answer
answer_of (ok (u, ms)) size h = (ms, refl, ground arith)
answer_of (err e) size h = absurd (cc h)

module _ (sets : Store MachineSet) (group : NodeGroup) (now : Time) (s : sets.State) where
  within_of :
      (o : Option Config) (delta size : ℕ)
      → (increase_within sets o delta now group s).0 ≡ ok size
      → (cfg : Config) × (o ≡ some cfg)
        × (increase_within sets o delta now group s ≡ write_raise sets cfg.max delta now group.id s)
        × ((write_raise sets cfg.max delta now group.id s).0 ≡ ok size)
  unfolding increase_within
  within_of none delta size h = absurd (cc h)
  within_of (some cfg) delta size h =
      elim (Bool-cases (ltb_ℤ (pos cfg.max) (wrap_int64 (group.current_size + delta)))) [
        | inl over ↦ absurd (cc (rw over at h))
        | inr fits ↦ (cfg, refl, rw fits refl, rw fits at h)
      ]

  over_max :
      (o : Option Config) (cfg : Config) (delta : ℕ)
      → o ≡ some cfg
      → cfg.max < group.current_size + delta
      → group.current_size + delta < int64_bound
      → increase_within sets o delta now group s ≡ (err (rejected at_or_above_max), s)
  unfolding increase_within wrap_int64
  over_max none cfg delta e over fits = absurd (cc e)
  over_max (some cfg') cfg delta e over fits = let same : cfg'.max ≡ cfg.max = cc e in ground arith

  -- A delta that would pass the group's own maximum is refused before the write.
  pub increase_machine_count-over_max :
      (cfg : Config) (n : ℕ)
      → group.config ≡ some cfg
      → cfg.max < group.current_size + suc n
      → group.current_size + suc n < int64_bound
      → increase_machine_count sets group (pos (suc n)) now s ≡ (err (rejected at_or_above_max), s)
  unfolding increase_machine_count
  increase_machine_count-over_max cfg n configured over fits =
      over_max group.config cfg (suc n) configured over fits

  -- An increase that succeeds has raised the count of the live set by exactly the delta, no higher
  -- than the group's maximum, while no rotation held its lock on the live set, has changed nothing
  -- else there, and returns the count that is stored. The delta is a positive int32, the maximum and
  -- the live count are below 2 ^ 32.
  pub increase_machine_count-IsRaised :
      (delta size : ℕ)
      → delta < 2147483648
      → ((cfg : Config) → group.config ≡ some cfg → cfg.max < u32_mod)
      → ((live : MachineSet) (a : Allocation)
          → sets.read s group.id ≡ some live
          → live.allocation ≡ some a
          → a.machine_count < u32_mod)
      → (increase_machine_count sets group (pos delta) now s).0 ≡ ok size
      → IsRaised sets group delta now s (increase_machine_count sets group (pos delta) now s).1 size
  unfolding increase_machine_count raise_allocation raise
  increase_machine_count-IsRaised zero size small max_small counts h = absurd (cc h)
  increase_machine_count-IsRaised (suc n) size small max_small counts h =
      let (cfg, configured, same, answered) = within_of group.config (suc n) size h in
      let (after, e, counted) =
        answer_of (sets.update MutatorError (Unit {0}) s group.id (raise cfg.max (suc n) now)).0
          size answered in
      let (live, before, accepted, stored) =
        sets.update_ok MutatorError (Unit {0}) s group.id (raise cfg.max (suc n) now) tt after e in
      let (a, allocated, unlocked, bounded, raised) =
        raised_of live.allocation cfg.max (suc n) now live after (max_small cfg configured)
          (λ a q. let c = counts live a before q in omega arith) accepted in
      let sized : size ≡ a.machine_count + suc n =
        sym counted ∙ ap (λ (m : MachineSet). count_of m.allocation) raised in
      record {
        live = live;
        after = after;
        cfg = cfg;
        a = a;
        configured = configured;
        before = before;
        stored = ap (λ p. sets.read p.1 group.id) same ∙ stored;
        allocated = allocated;
        unlocked = unlocked;
        raised = raised;
        counted = sized;
        bounded = omega arith;
      }
