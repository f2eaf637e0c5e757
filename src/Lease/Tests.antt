-- ===== src/Lease/Tests.antt =====
-- Instances of the theorems on the lease.
use omni_infra_provider_true.Base.{
  ℕ, zero, suc, ◌*◌, ◌≡◌, ◌↔◌, refl, true, false, ◌||◌, [], ◌∷◌, Option, none, some, String, str_eq,
  if◌then◌else◌, arith,
}
use omni_infra_provider_true.Base.Int.{pos, negsuc}
use omni_infra_provider_true.Base.Result.{ok}
use omni_infra_provider_true.Clock.{Time, ns_per_second}
use omni_infra_provider_true.Text.{Text, codes, text_eq}
use omni_infra_provider_true.Text.Decimal.{format_uint}
use omni_infra_provider_true.Omni.{ProviderStatus}
use omni_infra_provider_true.Omni.Store.{not_found, conflict, unavailable}
use omni_infra_provider_true.Lease.{
  Rfc3339, Config, Lease, new, annotation_instance_id, annotation_heartbeat, annotation_epoch,
  read_epoch_annotation,
}
use omni_infra_provider_true.Lease.Claim.{LeaseHeld, decide, claim, refresh, release}
use omni_infra_provider_true.Lease.Acquire.{Attempt, acquire}
use omni_infra_provider_true.Lease.Acquire.Attempts.{HasAcquired, acquire_iff}
use omni_infra_provider_true.Lease.Run.{
  refreshed, failed, run, marks_lost, any_stolen, three_failures, run-marks_lost,
}
use omni_infra_provider_true.Lease.Exclusion.{
  IsHeld, OtherWrite, OtherWrites, OtherWrites-unchanged,
}
use omni_infra_provider_true.Lease.Renewal.{claim-release}

-- A clock's text as one code point.
read_point : Text → Option Time
read_point (n ∷ []) = some (pos n)
read_point _ = none

write_point : Time → Text
write_point (pos n) = n ∷ []
write_point (negsuc n) = []

in_nanoseconds : Rfc3339
unfolding read_point write_point
in_nanoseconds = record { format = write_point; parse = read_point; parse_format = λ n h. refl }

abbrev config : String → Config
config id = record {
  provider_id = codes "truenas";
  instance_id = codes id;
  refresh_interval = pos (15 * ns_per_second);
  stale_after = pos (45 * ns_per_second);
}

abbrev lease : String → ℕ → Lease
lease id epoch = record { cfg = config id; was_takeover = false; epoch = epoch; lost = false }

abbrev noon : ℕ
noon = 1_700_000_000_000_000_000

abbrev held_by : String → ℕ → ProviderStatus
held_by id epoch = record {
  annotations = λ k.
      if str_eq k annotation_instance_id
      then some (codes id)
      else if str_eq k annotation_heartbeat
      then some (in_nanoseconds.format (pos noon))
      else if str_eq k annotation_epoch
      then some (format_uint epoch)
      else none;
  updated = none;
}

abbrev unclaimed : ProviderStatus
unclaimed = record { annotations = λ k. none; updated = none }

fresh : (l : Lease) × (new (codes "uuid") (config "") ≡ ok l)
unfolding new text_eq
fresh = (_, refl)

run-marks_lost_example :
    marks_lost (run (failed unavailable ∷ refreshed ∷ failed unavailable ∷ [])) ≡ (
      any_stolen (failed unavailable ∷ refreshed ∷ failed unavailable ∷ [])
      || three_failures (failed unavailable ∷ refreshed ∷ failed unavailable ∷ []))
run-marks_lost_example = run-marks_lost (failed unavailable ∷ refreshed ∷ failed unavailable ∷ [])

abbrev refusal : LeaseHeld
refusal = record { other_instance_id = codes "a"; heartbeat_age = pos ns_per_second }

a_holds : IsHeld in_nanoseconds (codes "a") (pos noon) (held_by "a" 4)
a_holds = record {
  owned = refl;
  text = in_nanoseconds.format (pos noon);
  beaten = refl;
  read_back = in_nanoseconds.parse_format noon (omega arith);
}

-- Another instance releases what it does not hold, and then refreshes nothing.
b_releases :
    OtherWrites in_nanoseconds
      (codes "a")
      (pos noon)
      (held_by "a" 4)
      (release (lease "b" 0) (held_by "a" 4))
unfolding text_eq
b_releases =
    OtherWrites.step (held_by "a" 4) (release (lease "b" 0) (held_by "a" 4)) _
      (OtherWrite.releases (lease "b" 0) (held_by "a" 4) refl) (OtherWrites.done _)

OtherWrites-unchanged_example : release (lease "b" 0) (held_by "a" 4) ≡ held_by "a" 4
OtherWrites-unchanged_example =
    OtherWrites-unchanged in_nanoseconds (codes "a") (pos noon) (held_by "a" 4)
      (release (lease "b" 0) (held_by "a" 4)) a_holds b_releases

first :
    (p : Lease × ProviderStatus) × (claim in_nanoseconds (lease "b" 0) (pos noon) unclaimed ≡ ok p)
unfolding claim
first = (_, refl)

renewed :
    (res : ProviderStatus) × (refresh in_nanoseconds (lease "a" 4) (pos noon) unclaimed ≡ ok res)
unfolding refresh read_epoch_annotation
renewed = (_, refl)

claim-release_example :
    decide in_nanoseconds (lease "b" 0) (pos noon) (release (lease "a" 4) (held_by "a" 4))
    ≡ ok (record (lease "b" 0) { was_takeover = true; epoch = 1 })
claim-release_example =
    claim-release in_nanoseconds (lease "a" 4) (lease "b" 0) (pos noon) (held_by "a" 4) refl

-- Another process creates the resource first and takes it away again; then it is found unclaimed.
abbrev beaten : Attempt
beaten = record {
  get = some not_found;
  create = some conflict;
  views = (pos noon, unclaimed) ∷ [];
  update = some not_found;
}

abbrev unopposed : Attempt
unopposed = record { get = none; create = none; views = (pos noon, unclaimed) ∷ []; update = none }

abbrev contest : ℕ → Attempt
contest zero = beaten
contest (suc n) = unopposed

abbrev winner : Lease
winner = record (lease "b" 0) { was_takeover = true; epoch = 1 }

acquire_iff_example :
    (acquire in_nanoseconds (lease "b" 0) contest ≡ (ok tt, winner))
    ↔ HasAcquired in_nanoseconds 3 (lease "b" 0) contest winner
acquire_iff_example = acquire_iff in_nanoseconds (lease "b" 0) winner contest

-- The second attempt of the contest wins.
contest_won : acquire in_nanoseconds (lease "b" 0) contest ≡ (ok tt, winner)
unfolding acquire in_nanoseconds decide read_epoch_annotation
contest_won = refl
