-- ===== src/Provisioner/Iso.antt =====
-- internal/provisioner/iso_tofu.go, with the ISO download of internal/provisioner/steps.go: the
-- image cached on TrueNAS and the baseline (hash, size, mtime) that its dataset keeps as user
-- properties. What TrueNAS and the image factory answer in a run is an input.
pub mod Download
pub mod Keys
use omni_infra_provider_true.Base.{
  ℕ, zero, suc, Bool, true, false, ◌++◌, Option, none, some, [], ◌&&◌, if◌then◌else◌,
}
use omni_infra_provider_true.Base.Int.{ℤ, leb_ℤ}
use omni_infra_provider_true.Base.Result.{Result, ok, err}
use omni_infra_provider_true.Text.{Text, codes, text_eq}
use omni_infra_provider_true.Text.Signed.{format_int, parse_int}
use omni_infra_provider_true.Meta.{has_prefix}

-- A float64 as the code uses it: `formatISOMtime`, `parseISOMtime` and `==`, of Go's library.
pub record MtimeText (M : Type 0) : Type 0 where
  pub format_iso_mtime : M → Text
  pub parse_iso_mtime : Text → Option M
  pub same_mtime : M → M → Bool

-- What a stat tells.
pub record FileInfo (M : Type 0) : Type 0 where
  pub size : ℤ
  pub mtime : M

-- A cached file, with the SHA-256 of its bytes, which only a download computes.
pub record File (M : Type 0) : Type 0 where
  pub info : FileInfo M
  pub digest : Text

-- The cached file and the user properties of its dataset; a missing property is empty.
pub record Store (M : Type 0) : Type 0 where
  pub file : Option (File M)
  pub properties : Text → Text

-- `isoCacheRef` as `newISOCacheRef` builds it.
pub record IsoCacheRef : Type 0 where
  pub hash_prop : Text
  pub size_prop : Text
  pub mtime_prop : Text

abbrev pub new_iso_cache_ref : Text → IsoCacheRef
new_iso_cache_ref image_id = record {
  hash_prop = codes "org.omni:iso-sha256-" ++ image_id;
  size_prop = codes "org.omni:iso-size-" ++ image_id;
  mtime_prop = codes "org.omni:iso-mtime-" ++ image_id;
}

pub data TofuResult : Type 0 where
  tofu_first_use tofu_match tofu_mismatch tofu_poisoned : TofuResult

abbrev pub poisoned_prefix : Text
poisoned_prefix = codes "POISONED-"

-- `cachedISOPoisoned`.
unfoldable pub cached_iso_poisoned : Text → Bool
unfolding has_prefix
cached_iso_poisoned stored = has_prefix poisoned_prefix stored

-- `classifyTOFU`.
unfoldable pub classify_tofu : Text → Text → TofuResult
classify_tofu stored downloaded =
    if cached_iso_poisoned stored
    then tofu_poisoned
    else if text_eq stored []
    then tofu_first_use
    else if text_eq stored downloaded
    then tofu_match
    else tofu_mismatch

-- `poisonMarker`.
abbrev pub poison_marker : Text → Text
poison_marker bad_hash = poisoned_prefix ++ bad_hash

pub data MetadataError : Type 0 where
  disappeared size_unreadable size_drift mtime_unreadable mtime_drift : MetadataError

eq_ℤ : ℤ → ℤ → Bool
eq_ℤ a b = leb_ℤ a b && leb_ℤ b a

-- How a write of a property ends: acknowledged, not done, or done without an acknowledgement.
pub data Write : Type 0 where
  applied refused unanswered : Write

-- A write of the marker, and whether the context has ended by the next attempt.
pub record Attempt : Type 0 where
  pub write : Write
  pub cancelled : Bool

unfoldable pub put : Text → Text → (Text → Text) → Text → Text
put key value properties k = if text_eq k key then value else properties k

-- `SetDatasetUserProperty`, and `recordTOFUProperty`, which ignores its error.
unfoldable pub record_tofu_property : Write → Text → Text → (Text → Text) → Text → Text
unfolding put
record_tofu_property applied key value properties = put key value properties
record_tofu_property refused key value properties = properties
record_tofu_property unanswered key value properties = put key value properties

unfoldable pub acknowledged : Write → Bool
acknowledged applied = true
acknowledged refused = false
acknowledged unanswered = false

abbrev pub poison_retry_attempts : ℕ
poison_retry_attempts = 3

-- `setIfPoisonable`, on the attempts that are left: whether the marker is persisted.
unfoldable pub set_if_poisonable :
    ℕ → (ℕ → Attempt) → Text → Text → (Text → Text) → Bool × (Text → Text)
unfolding record_tofu_property acknowledged
set_if_poisonable zero attempts key marker properties = (false, properties)
set_if_poisonable (suc n) attempts key marker properties =
    let written = record_tofu_property (attempts n).write key marker properties in
    let rest = set_if_poisonable n attempts key marker written in
    if acknowledged (attempts n).write
    then (true, written)
    else if (attempts n).cancelled
    then (false, written)
    else rest

pub data IsoError : Type 0 where
  stat_failed baseline_unreadable poisoned vanished : IsoError
  metadata_drift : Option MetadataError → Bool → IsoError
  prefix_failed dataset_failed unreachable bad_status declared_over_cap : IsoError
  upload_failed over_cap : IsoError
  hash_mismatch : Bool → IsoError

-- The answers about a cached file: the properties that cannot be read, the writes of the size, the
-- mtime and the marker.
pub record CacheAnswers : Type 0 where
  pub properties_fail : Bool
  pub size_write : Write
  pub mtime_write : Write
  pub poison_attempts : ℕ → Attempt

module _ {M : Type 0} (f : MtimeText M) where
  compare_mtime : Option M → M → TofuResult × Option MetadataError
  compare_mtime none actual = (tofu_mismatch, some mtime_unreadable)
  compare_mtime (some want) actual =
      if f.same_mtime want actual then (tofu_match, none) else (tofu_mismatch, some mtime_drift)

  compare_size : Option ℤ → Text → FileInfo M → TofuResult × Option MetadataError
  unfolding compare_mtime eq_ℤ
  compare_size none mtime actual = (tofu_mismatch, some size_unreadable)
  compare_size (some want) mtime actual =
      if eq_ℤ want actual.size
      then compare_mtime (f.parse_iso_mtime mtime) actual.mtime
      else (tofu_mismatch, some size_drift)

  -- `verifyISOMetadata`.
  unfoldable pub verify_iso_metadata :
      Text → Text → Option (FileInfo M) → TofuResult × Option MetadataError
  unfolding compare_size
  verify_iso_metadata stored_size stored_mtime none =
      if text_eq stored_size [] && text_eq stored_mtime []
      then (tofu_first_use, none)
      else (tofu_mismatch, some disappeared)
  verify_iso_metadata stored_size stored_mtime (some actual) =
      if text_eq stored_size [] && text_eq stored_mtime []
      then (tofu_first_use, none)
      else compare_size (parse_int stored_size) stored_mtime actual

  -- The size and the mtime of a stat, written one after the other.
  unfoldable pub record_metadata :
      Write → Write → IsoCacheRef → FileInfo M → (Text → Text) → Text → Text
  unfolding record_tofu_property
  record_metadata size_write mtime_write ref stat properties =
      record_tofu_property mtime_write ref.mtime_prop (f.format_iso_mtime stat.mtime)
        (record_tofu_property size_write ref.size_prop (format_int stat.size) properties)

  marked : Option MetadataError → Bool × (Text → Text) → Result IsoError (Unit {0}) × (Text → Text)
  marked e (persisted, properties) = (err (metadata_drift e persisted), properties)

  judge :
      CacheAnswers
      → IsoCacheRef
      → FileInfo M
      → (Text → Text)
      → TofuResult × Option MetadataError
      → Result IsoError (Unit {0}) × (Text → Text)
  unfolding marked set_if_poisonable record_metadata
  judge a ref stat properties (tofu_match, e) = (ok tt, properties)
  judge a ref stat properties (tofu_first_use, e) =
      (ok tt, record_metadata a.size_write a.mtime_write ref stat properties)
  judge a ref stat properties (tofu_mismatch, e) = marked e (
      set_if_poisonable poison_retry_attempts a.poison_attempts ref.hash_prop
        (poison_marker (properties ref.hash_prop)) properties)
  judge a ref stat properties (tofu_poisoned, e) = (err poisoned, properties)

  -- `verifyCachedISO`.
  unfoldable pub verify_cached_iso :
      CacheAnswers
      → IsoCacheRef
      → FileInfo M
      → (Text → Text)
      → Result IsoError (Unit {0}) × (Text → Text)
  unfolding judge cached_iso_poisoned verify_iso_metadata
  verify_cached_iso a ref stat properties =
      if a.properties_fail
      then (err baseline_unreadable, properties)
      else if cached_iso_poisoned (properties ref.hash_prop)
      then (err poisoned, properties)
      else if text_eq (properties ref.hash_prop) []
      then (ok tt, properties)
      else judge a ref stat properties
          (verify_iso_metadata (properties ref.size_prop) (properties ref.mtime_prop) (some stat))
