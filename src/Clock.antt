-- ===== src/Clock.antt =====
-- Go's `time` on 64 bits: an instant is its nanoseconds since the Unix epoch, a duration its
-- nanoseconds.
use omni_infra_provider_true.Base.{
  ℕ, zero, suc, ◌+◌, ◌-◌, ◌*◌, ◌/◌, ◌≤◌, ◌<◌, ◌≡◌, refl, Bool, false, arith, ltb, if◌then◌else◌, ap,
  Bool-cases, inl, inr,
}
use omni_infra_provider_true.Base.Int.{ℤ, pos, negsuc, ◌-ℤ◌, ltb_ℤ, int64_bound, u64_mod}

abbrev pub Time : Type 0
Time = ℤ

abbrev pub Duration : Type 0
Duration = ℤ

abbrev pub ns_per_second : ℕ
ns_per_second = 1000000000

-- Seconds between year 1, from which `time.Time` counts, and the Unix epoch.
abbrev pub unix_to_internal : ℕ
unix_to_internal = 62135596800

-- The instant so many seconds before the epoch.
seconds_before : ℕ → Time
seconds_before zero = pos 0
seconds_before (suc n) = negsuc (suc n * ns_per_second - 1)

-- `time.Unix(secs, 0)`: the count from year 1 wraps around on int64.
unfoldable pub time_unix : ℤ → Time
unfolding seconds_before
time_unix (pos s) =
    if ltb (s + unix_to_internal) int64_bound
    then pos (s * ns_per_second)
    else seconds_before (u64_mod - s)
time_unix (negsuc n) = seconds_before (suc n)

-- So many seconds before the epoch, wrapped around on int64.
wrap_seconds : ℕ → ℤ
wrap_seconds n = if ltb n int64_bound then negsuc n else pos (u64_mod - 1 - n)

-- `t.Unix()`: whole seconds, rounded down.
unfoldable pub unix_seconds : Time → ℤ
unfolding wrap_seconds
unix_seconds (pos n) = pos (n / ns_per_second)
unix_seconds (negsuc n) = wrap_seconds (n / ns_per_second)

-- The range of an int64.
abbrev pub IsInt64 : ℤ → Type 0
IsInt64 (pos n) = n < int64_bound
IsInt64 (negsuc n) = n < int64_bound

seconds_before-unix : (n : ℕ) → 0 < n → unix_seconds (seconds_before n) ≡ wrap_seconds (n - 1)
unfolding unix_seconds seconds_before
seconds_before-unix zero h = absurd (omega arith)
seconds_before-unix (suc n) h = ap wrap_seconds (omega arith)

-- Every int64 is read back from the instant that it stands for.
pub unix_seconds-time_unix : (z : ℤ) → IsInt64 z → unix_seconds (time_unix z) ≡ z
unfolding time_unix wrap_seconds
unix_seconds-time_unix (pos s) h = elim (Bool-cases (ltb (s + unix_to_internal) int64_bound)) [
  | inl early ↦ rw early (unfold unix_seconds in ap pos (omega arith))
  | inr late ↦ rw late (ground (arith, seconds_before-unix (u64_mod - s)))
]
unix_seconds-time_unix (negsuc n) h = ground (arith, seconds_before-unix (suc n))

-- A difference held within the range of a Duration.
saturate : ℤ → Duration
saturate (pos n) = if ltb n int64_bound then pos n else pos (int64_bound - 1)
saturate (negsuc n) = if ltb n int64_bound then negsuc n else negsuc (int64_bound - 1)

-- `t.Sub(u)`.
unfoldable pub time_sub : Time → Time → Duration
unfolding saturate
time_sub t u = saturate (t -ℤ u)

-- `t.Before(u)` and `t.Equal(u)`.
abbrev pub time_before : Time → Time → Bool
time_before t u = ltb_ℤ t u

-- Seconds before the epoch stand for an instant before it, whose age is at least `now`'s.
pub time_unix-negsuc : (k : ℕ) → (x : ℕ) × (time_unix (negsuc k) ≡ negsuc x)
unfolding time_unix seconds_before
time_unix-negsuc k = (suc k * ns_per_second - 1, refl)

pub time_sub-negsuc :
    (m x t : ℕ) → t ≤ m → t < int64_bound → ltb_ℤ (time_sub (pos m) (negsuc x)) (pos t) ≡ false
unfolding time_sub saturate ◌-ℤ◌
time_sub-negsuc m x t le small = ground arith
