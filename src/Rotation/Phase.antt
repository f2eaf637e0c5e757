-- ===== src/Rotation/Phase.antt =====
-- The surge-phase annotation of internal/noderotation/discovery.go:
-- "<phase>:<original count>:<unix seconds of the cycle's start>".
use omni_infra_provider_true.Base.{
  ℕ, ◌≡◌, refl, subst, ◌<◌, true, ◌++◌, ◌∷◌, Option, none, some, arith, if◌then◌else◌,
}
use omni_infra_provider_true.Base.Int.{ℤ, pos, negsuc, int64_bound}
use omni_infra_provider_true.Clock.{Time, IsInt64, time_unix, unix_seconds}
use omni_infra_provider_true.Text.{Text, codes, text_eq, cut, lacks, cut-append}
use omni_infra_provider_true.Text.Fields.{lacks-format_int}
use omni_infra_provider_true.Text.Signed.{format_int, parse_int, parse_int-format_int}

-- A `SurgePhase` is a string in the source: `other` stands for any but the two that it names.
pub data SurgePhase : Type 0 where
  wait_up wait_down : SurgePhase
  other : Text → SurgePhase

pub record SurgePhaseState : Type 0 where
  pub phase : SurgePhase
  pub original_count : ℕ
  pub cycle_started_at : Time

unfoldable pub phase_text : SurgePhase → Text
phase_text wait_up = codes "wait-up"
phase_text wait_down = codes "wait-down"
phase_text (other s) = s

phase_of : Text → Option SurgePhase
phase_of s =
    if text_eq s (codes "wait-up")
    then some wait_up
    else if text_eq s (codes "wait-down")
    then some wait_down
    else none

count_of : Option ℤ → Option ℕ
count_of none = none
count_of (some (negsuc n)) = none
count_of (some (pos n)) = some n

assemble : Option SurgePhase → Option ℕ → Option ℤ → Option SurgePhaseState
assemble none count secs = none
assemble (some p) none secs = none
assemble (some p) (some count) none = none
assemble (some p) (some count) (some secs) =
    some (record { phase = p; original_count = count; cycle_started_at = time_unix secs })

second_cut : Text → Option (Text × Text) → Option SurgePhaseState
unfolding assemble phase_of count_of
second_cut p none = none
second_cut p (some (count, secs)) =
    assemble (phase_of p) (count_of (parse_int count)) (parse_int secs)

first_cut : Option (Text × Text) → Option SurgePhaseState
unfolding second_cut
first_cut none = none
first_cut (some (p, rest)) = second_cut p (cut b':' rest)

-- `SplitN(raw, ":", 3)` is two cuts, one after the other.
unfoldable pub parse_surge_phase_annotation : Text → Option SurgePhaseState
unfolding first_cut
parse_surge_phase_annotation raw = first_cut (cut b':' raw)

unfoldable pub format_surge_phase_annotation : SurgePhaseState → Text
unfolding phase_text
format_surge_phase_annotation s =
    phase_text s.phase
    ++ b':'
      ∷ (format_int (pos s.original_count) ++ b':' ∷ format_int (unix_seconds s.cycle_started_at))

-- A phase that the source names, as opposed to any other string.
abbrev pub IsKnown : SurgePhase → Type 0
IsKnown wait_up = Unit {0}
IsKnown wait_down = Unit {0}
IsKnown (other s) = ⊥

-- A state that the program can persist: a named phase, and numbers within 64 bits.
pub record IsPersistable (s : SurgePhaseState) : Type 0 where
  pub known : IsKnown s.phase
  pub count_fits : s.original_count < int64_bound
  pub start_fits : IsInt64 (unix_seconds s.cycle_started_at)

phase_of-phase_text :
    (p : SurgePhase)
    → IsKnown p
    → (phase_of (phase_text p) ≡ some p) × (lacks b':' (phase_text p) ≡ true)
unfolding phase_of phase_text text_eq lacks
phase_of-phase_text wait_up h = (refl, refl)
phase_of-phase_text wait_down h = (refl, refl)
phase_of-phase_text (other s) h = elim h [ ]

-- What a surge step persists is read back, its start rounded down to a whole second.
pub parse-format_surge_phase :
    (s : SurgePhaseState)
    → IsPersistable s
    → parse_surge_phase_annotation (format_surge_phase_annotation s)
      ≡ some (record s { cycle_started_at = time_unix (unix_seconds s.cycle_started_at) })
unfolding parse_surge_phase_annotation format_surge_phase_annotation assemble count_of
parse-format_surge_phase s h =
    let count : Text = format_int (pos s.original_count) in
    let start : Text = format_int (unix_seconds s.cycle_started_at) in
    ground (
      arith,
      phase_of-phase_text s.phase h.known,
      cut-append b':' (phase_text s.phase) (count ++ b':' ∷ start),
      cut-append b':' count start,
      lacks-format_int b':' (pos s.original_count),
      parse_int-format_int (pos s.original_count),
      parse_int-format_int (unix_seconds s.cycle_started_at),
    )

phase_of-IsKnown : (s : Text) (p : SurgePhase) → phase_of s ≡ some p → IsKnown p
unfolding phase_of
phase_of-IsKnown s wait_up h = tt
phase_of-IsKnown s wait_down h = tt
phase_of-IsKnown s (other t) h = ground arith

assemble-IsKnown :
    (o : Option SurgePhase) (c : Option ℕ) (t : Option ℤ) (s : SurgePhaseState)
    → ((p : SurgePhase) → o ≡ some p → IsKnown p)
    → assemble o c t ≡ some s
    → IsKnown s.phase
unfolding assemble
assemble-IsKnown none c t s k h = absurd (cc h)
assemble-IsKnown (some p) none t s k h = absurd (cc h)
assemble-IsKnown (some p) (some n) none s k h = absurd (cc h)
assemble-IsKnown (some p) (some n) (some secs) s k h =
    let e : p ≡ s.phase = ground arith in subst IsKnown e (k p refl)

second_cut-IsKnown :
    (p : Text) (o : Option (Text × Text)) (s : SurgePhaseState)
    → second_cut p o ≡ some s
    → IsKnown s.phase
unfolding second_cut
second_cut-IsKnown p none s h = absurd (cc h)
second_cut-IsKnown p (some (count, secs)) s h =
    assemble-IsKnown (phase_of p) (count_of (parse_int count)) (parse_int secs) s
      (phase_of-IsKnown p) h

first_cut-IsKnown :
    (o : Option (Text × Text)) (s : SurgePhaseState) → first_cut o ≡ some s → IsKnown s.phase
unfolding first_cut
first_cut-IsKnown none s h = absurd (cc h)
first_cut-IsKnown (some (p, rest)) s h = second_cut-IsKnown p (cut b':' rest) s h

-- Whatever the annotation holds, no phase is read but the two that the source names.
parse_surge_phase-IsKnown :
    (raw : Text) (s : SurgePhaseState) → parse_surge_phase_annotation raw ≡ some s → IsKnown s.phase
unfolding parse_surge_phase_annotation
parse_surge_phase-IsKnown raw s h = first_cut-IsKnown (cut b':' raw) s h
