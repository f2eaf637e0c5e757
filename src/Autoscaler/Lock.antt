-- ===== src/Autoscaler/Lock.antt =====
-- internal/autoscaler/rotation_lock.go: the autoscaler's reading of the rotation engine's lock.
use omni_infra_provider_true.Base.{
  ℕ, ◌*◌, ◌≤◌, ◌<◌, ◌≡◌, refl, Bool, false, Option, none, some, ap, ◌∙◌, sym, String,
}
use omni_infra_provider_true.Base.Int.{ℤ, pos, negsuc, ltb_ℤ, int64_bound}
use omni_infra_provider_true.Clock.{
  Time, Duration, time_unix, time_sub, time_unix-negsuc, time_sub-negsuc, ns_per_second,
}
use omni_infra_provider_true.Text.{Text, cut}
use omni_infra_provider_true.Text.Signed.{parse_int}
use omni_infra_provider_true.Rotation.Lock.{
  has_active_lock, parse_rotation_state_annotation, within, stamp, parts,
}

abbrev pub rotation_lock_annotation : String
rotation_lock_annotation = "node-rotation.omni/rotation-state"

-- 5 minutes.
abbrev pub rotation_lock_ttl : Duration
rotation_lock_ttl = pos (300 * ns_per_second)

active_at : Time → Duration → Option ℤ → Bool
active_at now ttl none = false
active_at now ttl (some (negsuc n)) = false
active_at now ttl (some (pos n)) = ltb_ℤ (time_sub now (time_unix (pos n))) ttl

active_parts : Time → Duration → Option (Text × Text) → Bool
unfolding active_at
active_parts now ttl none = false
active_parts now ttl (some (gen, secs)) = active_at now ttl (parse_int secs)

unfoldable pub is_rotation_lock_active : Text → Time → Duration → Bool
unfolding active_parts
is_rotation_lock_active raw now ttl = active_parts now ttl (cut b':' raw)

module _ (m t : ℕ) (old : t ≤ m) (small : t < int64_bound) where
  agree_at :
      (gen : Text) (o : Option ℤ)
      → active_at (pos m) (pos t) o ≡ within (pos m) (pos t) (stamp gen o)
  unfolding active_at within stamp
  agree_at gen none = refl
  agree_at gen (some (pos n)) = refl
  agree_at gen (some (negsuc n)) =
      let (x, e) = time_unix-negsuc n in
      sym (ap (λ ts. ltb_ℤ (time_sub (pos m) ts) (pos t)) e ∙ time_sub-negsuc m x t old small)

  agree_parts :
      (o : Option (Text × Text)) → active_parts (pos m) (pos t) o ≡ within (pos m) (pos t) (parts o)
  unfolding active_parts within parts
  agree_parts none = refl
  agree_parts (some (gen, secs)) = agree_at gen (parse_int secs)

  -- The autoscaler and the rotation engine agree on whether an annotation's value holds a lock, for
  -- every text, although one takes negative seconds for malformed and the other for an instant before
  -- 1970. The clock is past 1970 by at least the lifetime of a lock.
  pub is_rotation_lock_active-has_active_lock :
      (raw : Text)
      → is_rotation_lock_active raw (pos m) (pos t) ≡ has_active_lock (some raw) (pos m) (pos t)
  unfolding is_rotation_lock_active has_active_lock parse_rotation_state_annotation
  is_rotation_lock_active-has_active_lock raw = agree_parts (cut b':' raw)
