-- ===== src/Provisioner/Iso/Download.antt =====
-- internal/provisioner/steps.go: downloadOrReuseISO with its helpers, and reverifyISOBeforeAttach of
-- iso_tofu.go, as transitions of the cached file and its baseline.
pub mod Baseline
pub mod Poison
pub mod Verified
pub mod Fresh
pub mod Next
pub mod Overrun
mod Tests
use omni_infra_provider_true.Base.{
  ℕ, ◌*◌, Bool, true, false, Option, none, some, [], not, ltb, ◌==◌, if◌then◌else◌,
}
use omni_infra_provider_true.Base.Int.{ℤ, pos, negsuc}
use omni_infra_provider_true.Base.Result.{Result, ok, err, ◌>>◌, fail_if}
use omni_infra_provider_true.Text.{Text, text_eq}
use omni_infra_provider_true.Provisioner.{Data}
use omni_infra_provider_true.Provisioner.Iso.{
  MtimeText, FileInfo, File, Store, IsoCacheRef, TofuResult, tofu_first_use, tofu_match,
  tofu_mismatch, tofu_poisoned, classify_tofu, cached_iso_poisoned, poison_marker, Write, Attempt,
  record_tofu_property, set_if_poisonable, poison_retry_attempts, IsoError, stat_failed,
  baseline_unreadable, poisoned, vanished, prefix_failed, dataset_failed, unreachable, bad_status,
  declared_over_cap, upload_failed, over_cap, hash_mismatch, CacheAnswers, record_metadata,
  verify_cached_iso,
}

-- `maxISODownloadBytes`.
abbrev pub max_iso_download_bytes : ℕ
max_iso_download_bytes = 2 * 1024 * 1024 * 1024

-- The end of an upload: the stored file's stat, or what a failed upload leaves.
pub data Upload (M : Type 0) : Type 0 where
  complete : FileInfo M → Upload M
  broken : Option (File M) → Upload M

-- The factory's response: its status, the length it declares, the length of its body, the SHA-256 of
-- the bytes that the upload reads, and how the upload of those bytes ends.
pub record Response (M : Type 0) : Type 0 where
  pub status : ℕ
  pub content_length : ℤ
  pub body_length : ℕ
  pub digest : Text
  pub upload : Upload M

-- What is answered in a run; `response` is none where the request fails.
pub record Answers (M : Type 0) : Type 0 where
  pub stat_fails : Bool
  pub cache : CacheAnswers
  pub prefix_fails : Bool
  pub dataset_fails : Bool
  pub baseline_fails : Bool
  pub response : Option (Response M)
  pub second_stat_fails : Bool
  pub hash_write : Write

abbrev pub Run : Type 0 → Type 0
Run M = Result IsoError (Unit {0}) × Store M

declares_too_much : ℤ → Bool
declares_too_much (pos n) = ltb max_iso_download_bytes n
declares_too_much (negsuc n) = false

module _ {M : Type 0} where
  -- The body is read up to one byte past the cap, which leaves nothing of the limit.
  uploaded : Response M → Upload M → Result IsoError Text × Option (File M)
  uploaded r (complete stat) = (
    if ltb max_iso_download_bytes r.body_length then err over_cap else ok r.digest,
    some (record { info = stat; digest = r.digest }),
  )
  uploaded r (broken left) = (err upload_failed, left)

  -- `downloadAndUploadISO`: the digest, and the file that it leaves.
  unfoldable pub download_and_upload_iso :
      Option (Response M) → Option (File M) → Result IsoError Text × Option (File M)
  unfolding declares_too_much uploaded
  download_and_upload_iso none file = (err unreachable, file)
  download_and_upload_iso (some r) file =
      if not (r.status == 200)
      then (err bad_status, file)
      else if declares_too_much r.content_length
      then (err declared_over_cap, file)
      else uploaded r r.upload

  -- `ensureISODatasets`.
  unfoldable pub ensure_iso_datasets : Answers M → Data → Result IsoError (Unit {0})
  ensure_iso_datasets a d =
      (if text_eq d.dataset_prefix [] then ok tt else fail_if a.prefix_fails prefix_failed)
      >> fail_if a.dataset_fails dataset_failed

  mismatched : Store M → Bool × (Text → Text) → Run M
  mismatched s (persisted, properties) =
      (err (hash_mismatch persisted), record s { properties = properties })

  -- `handleISOHashMismatch`.
  unfoldable pub handle_iso_hash_mismatch : Answers M → IsoCacheRef → Text → Store M → Run M
  unfolding mismatched set_if_poisonable
  handle_iso_hash_mismatch a ref downloaded s = mismatched s (
      set_if_poisonable poison_retry_attempts a.cache.poison_attempts ref.hash_prop
        (poison_marker downloaded) s.properties)

module _ {M : Type 0} (f : MtimeText M) where
  record_stat : Answers M → IsoCacheRef → Option (File M) → (Text → Text) → Text → Text
  unfolding record_metadata
  record_stat a ref none properties = properties
  record_stat a ref (some file) properties =
      record_metadata f a.cache.size_write a.cache.mtime_write ref file.info properties

  -- What a completed download records: the hash, and the stat where it can be read.
  unfoldable pub record_baseline : Answers M → IsoCacheRef → Text → Store M → Store M
  unfolding record_stat record_tofu_property
  record_baseline a ref downloaded s =
      let hashed = record_tofu_property a.hash_write ref.hash_prop downloaded s.properties in
      record s {
        properties = if a.second_stat_fails then hashed else record_stat a ref s.file hashed;
      }

  settle : Answers M → IsoCacheRef → Text → Store M → TofuResult → Run M
  unfolding handle_iso_hash_mismatch record_baseline
  settle a ref downloaded s tofu_mismatch = handle_iso_hash_mismatch a ref downloaded s
  settle a ref downloaded s tofu_first_use = (ok tt, record_baseline a ref downloaded s)
  settle a ref downloaded s tofu_match = (ok tt, record_baseline a ref downloaded s)
  settle a ref downloaded s tofu_poisoned = (ok tt, record_baseline a ref downloaded s)

  fetched : Answers M → IsoCacheRef → Store M → Result IsoError Text × Option (File M) → Run M
  unfolding settle classify_tofu
  fetched a ref s (err e, file) = (err e, record s { file = file })
  fetched a ref s (ok downloaded, file) =
      settle a ref downloaded (record s { file = file })
        (classify_tofu (s.properties ref.hash_prop) downloaded)

  ensured : Answers M → IsoCacheRef → Store M → Result IsoError (Unit {0}) → Run M
  unfolding fetched download_and_upload_iso
  ensured a ref s (err e) = (err e, s)
  ensured a ref s (ok u) =
      if a.baseline_fails
      then (err baseline_unreadable, s)
      else if cached_iso_poisoned (s.properties ref.hash_prop)
      then (err poisoned, s)
      else fetched a ref s (download_and_upload_iso a.response s.file)

  kept : Store M → Result IsoError (Unit {0}) × (Text → Text) → Run M
  kept s (r, properties) = (r, record s { properties = properties })

  reuse_or_download : Answers M → Data → IsoCacheRef → Store M → Option (File M) → Run M
  unfolding kept ensured
  reuse_or_download a d ref s (some file) =
      kept s (verify_cached_iso f a.cache ref file.info s.properties)
  reuse_or_download a d ref s none = ensured a ref s (ensure_iso_datasets a d)

  -- `downloadOrReuseISO`.
  unfoldable pub download_or_reuse_iso : Answers M → Data → IsoCacheRef → Store M → Run M
  unfolding reuse_or_download
  download_or_reuse_iso a d ref s =
      if a.stat_fails then (err stat_failed, s) else reuse_or_download a d ref s s.file

  recheck : CacheAnswers → IsoCacheRef → Store M → Option (File M) → Run M
  unfolding kept
  recheck a ref s none = (err vanished, s)
  recheck a ref s (some file) = kept s (verify_cached_iso f a ref file.info s.properties)

  -- `reverifyISOBeforeAttach`, where the flag tells whether its stat fails.
  unfoldable pub reverify_iso_before_attach : Bool → CacheAnswers → IsoCacheRef → Store M → Run M
  unfolding recheck
  reverify_iso_before_attach stat_fails a ref s =
      if stat_fails then (err stat_failed, s) else recheck a ref s s.file
