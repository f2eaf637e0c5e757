-- ===== src/Rotation/Lock.antt =====
-- The rotation-state annotation of internal/noderotation/discovery.go: "<generation>:<unix seconds>".
use omni_infra_provider_true.Base.{◌≡◌, Bool, true, false, ◌++◌, ◌∷◌, Option, none, some, arith}
use omni_infra_provider_true.Base.Int.{ℤ, ltb_ℤ}
use omni_infra_provider_true.Clock.{Time, IsInt64, Duration, time_unix, time_sub, unix_seconds}
use omni_infra_provider_true.Text.{Text, cut, lacks, cut-append}
use omni_infra_provider_true.Text.Signed.{format_int, parse_int, parse_int-format_int}

unfoldable pub stamp : Text → Option ℤ → Option (Text × Time)
stamp gen none = none
stamp gen (some secs) = some (gen, time_unix secs)

unfoldable pub parts : Option (Text × Text) → Option (Text × Time)
unfolding stamp
parts none = none
parts (some (gen, secs)) = stamp gen (parse_int secs)

unfoldable pub parse_rotation_state_annotation : Text → Option (Text × Time)
unfolding parts
parse_rotation_state_annotation raw = parts (cut b':' raw)

unfoldable pub format_rotation_state_annotation : Text → Time → Text
format_rotation_state_annotation generation ts = generation ++ b':' ∷ format_int (unix_seconds ts)

unfoldable pub within : Time → Duration → Option (Text × Time) → Bool
within now ttl none = false
within now ttl (some (gen, ts)) = ltb_ℤ (time_sub now ts) ttl

-- `HasActiveLock` on the annotation's value, if there is one.
unfoldable pub has_active_lock : Option Text → Time → Duration → Bool
unfolding within
has_active_lock none now ttl = false
has_active_lock (some raw) now ttl = within now ttl (parse_rotation_state_annotation raw)

-- What a step writes is read back: the generation as it was, and the time in whole seconds. The
-- generation holds no colon (it is a hexadecimal hash).
parse-format_rotation_state :
    (gen : Text) (ts : Time)
    → lacks b':' gen ≡ true
    → IsInt64 (unix_seconds ts)
    → parse_rotation_state_annotation (format_rotation_state_annotation gen ts)
      ≡ some (gen, time_unix (unix_seconds ts))
unfolding parse_rotation_state_annotation format_rotation_state_annotation
parse-format_rotation_state gen ts hex fits = ground (
  arith,
  cut-append b':' gen (format_int (unix_seconds ts)),
  parse_int-format_int (unix_seconds ts),
)
