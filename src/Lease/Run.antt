-- ===== src/Lease/Run.antt =====
-- `Run`: the refresh loop, and its count of consecutive failures.
use omni_infra_provider_true.Base.{
  ℕ, ◌+◌, ◌≡◌, refl, List, [], ◌∷◌, Option, none, some, Bool, true, false, ◌||◌, leb, if◌then◌else◌,
  arith,
}
use omni_infra_provider_true.Base.Result.{ok, err}
use omni_infra_provider_true.Clock.{Time}
use omni_infra_provider_true.Omni.{ProviderStatus}
use omni_infra_provider_true.Omni.Store.{StateError}
use omni_infra_provider_true.Lease.{Rfc3339, Lease, max_consecutive_refresh_errors}
use omni_infra_provider_true.Lease.Claim.{refresh}

-- What one tick of the loop comes to.
pub data Tick : Type 0 where
  refreshed stolen : Tick
  failed : StateError → Tick

-- How `Run` returns: nil, `ErrLeaseHeld`, or the error of the last refresh with the count.
pub data RunEnd : Type 0 where
  cancelled lease_held : RunEnd
  refresh_failed : ℕ → StateError → RunEnd

-- `refresh` on the views that its update hands the mutator, and the client's answer.
unfoldable pub refresh_tick :
    Rfc3339 → Lease → List (Time × ProviderStatus) → Option StateError → Tick
refresh_tick rfc l [] none = refreshed
refresh_tick rfc l [] (some e) = failed e
refresh_tick rfc l ((now, res) ∷ views) answer =
    let rest = refresh_tick rfc l views answer in
    elim (refresh rfc l now res) [ err why ↦ stolen | ok res' ↦ rest ]

-- The loop on the ticks until the context is done, from a count of consecutive errors.
unfoldable pub run_from : ℕ → List Tick → RunEnd
run_from errors [] = cancelled
run_from errors (refreshed ∷ ticks) = run_from 0 ticks
run_from errors (stolen ∷ ticks) = lease_held
run_from errors (failed e ∷ ticks) =
    let rest = run_from (errors + 1) ticks in
    if leb max_consecutive_refresh_errors (errors + 1) then refresh_failed (errors + 1) e else rest

unfoldable pub run : List Tick → RunEnd
unfolding run_from
run ticks = run_from 0 ticks

-- Whether `markLost` closes the channel on the way out.
unfoldable pub marks_lost : RunEnd → Bool
marks_lost cancelled = false
marks_lost _ = true

is_stolen : Tick → Bool
is_stolen stolen = true
is_stolen _ = false

-- Three failures next to each other, anywhere.
unfoldable pub three_failures : List Tick → Bool
three_failures [] = false
three_failures (refreshed ∷ ticks) = three_failures ticks
three_failures (stolen ∷ ticks) = three_failures ticks
three_failures (failed e ∷ []) = false
three_failures (failed e ∷ refreshed ∷ ticks) = three_failures ticks
three_failures (failed e ∷ stolen ∷ ticks) = three_failures ticks
three_failures (failed e ∷ failed e' ∷ []) = false
three_failures (failed e ∷ failed e' ∷ refreshed ∷ ticks) = three_failures ticks
three_failures (failed e ∷ failed e' ∷ stolen ∷ ticks) = three_failures ticks
three_failures (failed e ∷ failed e' ∷ failed e'' ∷ ticks) = true

unfoldable pub any_stolen : List Tick → Bool
unfolding is_stolen
any_stolen [] = false
any_stolen (t ∷ ticks) = is_stolen t || any_stolen ticks

-- The loop gives up the lease exactly when some tick finds it stolen or three ticks in a row fail;
-- else it returns nil when the context is done. Failures that a success separates never add up.
pub run-marks_lost :
    (ticks : List Tick) → marks_lost (run ticks) ≡ (any_stolen ticks || three_failures ticks)
unfolding run marks_lost any_stolen three_failures
run-marks_lost [] = refl
run-marks_lost (refreshed ∷ ticks) = run-marks_lost ticks
run-marks_lost (stolen ∷ ticks) = refl
run-marks_lost (failed e ∷ []) = refl
run-marks_lost (failed e ∷ refreshed ∷ ticks) = run-marks_lost ticks
run-marks_lost (failed e ∷ stolen ∷ ticks) = refl
run-marks_lost (failed e ∷ failed e' ∷ []) = refl
run-marks_lost (failed e ∷ failed e' ∷ refreshed ∷ ticks) = run-marks_lost ticks
run-marks_lost (failed e ∷ failed e' ∷ stolen ∷ ticks) = refl
run-marks_lost (failed e ∷ failed e' ∷ failed e'' ∷ ticks) = ground (arith)
