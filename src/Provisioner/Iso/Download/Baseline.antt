-- ===== src/Provisioner/Iso/Download/Baseline.antt =====
-- The recorded hash over any sequence of runs, of checks before a boot, and of foreign changes to the
-- file.
use omni_infra_provider_true.Base.{
  ◌≡◌, refl, sym, ◌∙◌, ◌⊎◌, inl, inr, Bool, true, false, Option, none, some, [], Bool-cases,
}
use omni_infra_provider_true.Base.Result.{Result, ok, err}
use omni_infra_provider_true.Text.{Text, text_eq, text_eq_sound}
use omni_infra_provider_true.Meta.{has_prefix, after_prefix}
use omni_infra_provider_true.Provisioner.{Data}
use omni_infra_provider_true.Provisioner.Iso.{
  MtimeText, FileInfo, File, Store, new_iso_cache_ref, TofuResult, tofu_first_use, tofu_match,
  tofu_mismatch, tofu_poisoned, classify_tofu, cached_iso_poisoned, poison_marker, MetadataError,
  record_tofu_property, poison_retry_attempts, CacheAnswers, judge, marked, verify_cached_iso,
  verify_iso_metadata, IsoError,
}
use omni_infra_provider_true.Provisioner.Iso.Download.{
  Answers, download_and_upload_iso, ensure_iso_datasets, handle_iso_hash_mismatch, mismatched,
  record_stat, record_baseline, settle, fetched, ensured, kept, reuse_or_download,
  download_or_reuse_iso, recheck, reverify_iso_before_attach,
}
use omni_infra_provider_true.Provisioner.Iso.Keys.{
  record_tofu_property-holds, set_if_poisonable-holds, record_metadata-hash,
}

poison_marker-cached_iso_poisoned : (h : Text) → cached_iso_poisoned (poison_marker h) ≡ true
unfolding cached_iso_poisoned has_prefix after_prefix
poison_marker-cached_iso_poisoned h = refl

module _ {M : Type 0} (f : MtimeText M) (d : Data) (id : Text) where
  -- The hash that is recorded for the image.
  abbrev pub baseline : Store M → Text
  baseline s = s.properties (new_iso_cache_ref id).hash_prop

  -- What can happen to the cache: runs of the provisioner, its checks before a boot, and changes of
  -- the file by others, who do not write the properties.
  pub data Steps (s : Store M) : Store M → Type 0 where
    start : Steps s s
    provision :
        {t : Store M}
        → Steps s t
        → (a : Answers M) → Steps s (download_or_reuse_iso f a d (new_iso_cache_ref id) t).1
    attach :
        {t : Store M}
        → Steps s t
        → (stat_fails : Bool) (a : CacheAnswers)
        → Steps s (reverify_iso_before_attach f stat_fails a (new_iso_cache_ref id) t).1
    foreign :
        {t : Store M} → Steps s t → (file : Option (File M)) → Steps s (record t { file = file })

  -- The recorded hash is the first one, or carries the mark of a mismatch.
  abbrev pub IsPinned : Text → Text → Type 0
  IsPinned h stored = (stored ≡ h) ⊎ (cached_iso_poisoned stored ≡ true)

  module _ (h : Text) (recorded : text_eq h [] ≡ false) where
    judge-IsPinned :
        (a : CacheAnswers) (stat : FileInfo M) (properties : Text → Text)
        (v : TofuResult × Option MetadataError)
        → IsPinned h (properties (new_iso_cache_ref id).hash_prop)
        → IsPinned h (
            (judge f a (new_iso_cache_ref id) stat properties v).1 (new_iso_cache_ref id).hash_prop)
    unfolding judge marked
    judge-IsPinned a stat properties (tofu_match, e) p = p
    judge-IsPinned a stat properties (tofu_first_use, e) p =
        rw (record_metadata-hash f a.size_write a.mtime_write id stat properties) p
    judge-IsPinned a stat properties (tofu_mismatch, e) p =
        set_if_poisonable-holds (IsPinned h) poison_retry_attempts a.poison_attempts
          (new_iso_cache_ref id).hash_prop
          (poison_marker (properties (new_iso_cache_ref id).hash_prop)) properties p
          (inr (poison_marker-cached_iso_poisoned (properties (new_iso_cache_ref id).hash_prop)))
    judge-IsPinned a stat properties (tofu_poisoned, e) p = p

    verify-IsPinned :
        (a : CacheAnswers) (stat : FileInfo M) (properties : Text → Text)
        → IsPinned h (properties (new_iso_cache_ref id).hash_prop)
        → IsPinned h (
            (verify_cached_iso f a (new_iso_cache_ref id) stat properties).1
              (new_iso_cache_ref id).hash_prop)
    unfolding verify_cached_iso
    verify-IsPinned a stat properties p =
        let ref = new_iso_cache_ref id in
        elim (Bool-cases a.properties_fail) [
          | inl e ↦ rw e p
          | inr e ↦ elim (Bool-cases (cached_iso_poisoned (properties ref.hash_prop))) [
            | inl c ↦ rw (e, c) p
            | inr c ↦ elim (Bool-cases (text_eq (properties ref.hash_prop) [])) [
              | inl n ↦ rw (e, c, n) p
              | inr n ↦
                  rw (e, c, n)
                    (judge-IsPinned a stat properties
                      (verify_iso_metadata f (properties ref.size_prop) (properties ref.mtime_prop)
                        (some stat))
                      p)
            ]
          ]
        ]

    record_stat-hash :
        (a : Answers M) (file : Option (File M)) (properties : Text → Text)
        → record_stat f a (new_iso_cache_ref id) file properties (new_iso_cache_ref id).hash_prop
          ≡ properties (new_iso_cache_ref id).hash_prop
    unfolding record_stat
    record_stat-hash a none properties = refl
    record_stat-hash a (some file) properties =
        record_metadata-hash f a.cache.size_write a.cache.mtime_write id file.info properties

    record_baseline-IsPinned :
        (a : Answers M) (downloaded : Text) (s : Store M)
        → IsPinned h (baseline s)
        → downloaded ≡ h
        → IsPinned h (baseline (record_baseline f a (new_iso_cache_ref id) downloaded s))
    unfolding record_baseline
    record_baseline-IsPinned a downloaded s p e =
        let ref = new_iso_cache_ref id in
        let hashed = record_tofu_property a.hash_write ref.hash_prop downloaded s.properties in
        let written =
          record_tofu_property-holds (IsPinned h) a.hash_write ref.hash_prop downloaded s.properties
            p (inl e) in
        elim (Bool-cases a.second_stat_fails) [
          | inl c ↦ rw c written
          | inr c ↦ rw (c, record_stat-hash a s.file hashed) written
        ]

    -- The digest of an accepted download is the recorded hash.
    pub classify-pinned :
        (stored downloaded : Text)
        → cached_iso_poisoned stored ≡ false
        → IsPinned h stored
        → (classify_tofu stored downloaded ≡ tofu_mismatch)
          ⊎ ((classify_tofu stored downloaded ≡ tofu_match) × (downloaded ≡ h))
    unfolding classify_tofu
    classify-pinned stored downloaded c (inr q) = absurd (cc (q, c))
    classify-pinned stored downloaded c (inl e) = elim (Bool-cases (text_eq stored downloaded)) [
      | inl q ↦
          inr (rw (c, e, recorded, rw e at q) refl, sym (text_eq_sound stored downloaded q) ∙ e)
      | inr q ↦ inl (rw (c, e, recorded, rw e at q) refl)
    ]

    settle-IsPinned :
        (a : Answers M) (downloaded : Text) (s : Store M)
        → cached_iso_poisoned (baseline s) ≡ false
        → IsPinned h (baseline s)
        → IsPinned h (
            baseline
              (settle f a
                (new_iso_cache_ref id)
                downloaded
                s
                (classify_tofu (baseline s) downloaded)).1)
    unfolding settle handle_iso_hash_mismatch mismatched
    settle-IsPinned a downloaded s c p = elim (classify-pinned (baseline s) downloaded c p) [
      | inl e ↦ rw e (
          set_if_poisonable-holds (IsPinned h) poison_retry_attempts a.cache.poison_attempts
            (new_iso_cache_ref id).hash_prop (poison_marker downloaded) s.properties p
            (inr (poison_marker-cached_iso_poisoned downloaded)))
      | inr (e, q) ↦ rw e (record_baseline-IsPinned a downloaded s p q)
    ]

    fetched-IsPinned :
        (a : Answers M) (s : Store M) (r : Result IsoError Text × Option (File M))
        → cached_iso_poisoned (baseline s) ≡ false
        → IsPinned h (baseline s)
        → IsPinned h (baseline (fetched f a (new_iso_cache_ref id) s r).1)
    unfolding fetched
    fetched-IsPinned a s (err e, file) c p = p
    fetched-IsPinned a s (ok downloaded, file) c p =
        settle-IsPinned a downloaded (record s { file = file }) c p

    ensured-IsPinned :
        (a : Answers M) (s : Store M) (r : Result IsoError (Unit {0}))
        → IsPinned h (baseline s)
        → IsPinned h (baseline (ensured f a (new_iso_cache_ref id) s r).1)
    unfolding ensured
    ensured-IsPinned a s (err e) p = p
    ensured-IsPinned a s (ok u) p = elim (Bool-cases a.baseline_fails) [
      | inl b ↦ rw b p
      | inr b ↦ elim (Bool-cases (cached_iso_poisoned (baseline s))) [
        | inl c ↦ rw (b, c) p
        | inr c ↦ rw (b, c) (fetched-IsPinned a s (download_and_upload_iso a.response s.file) c p)
      ]
    ]

    reuse_or_download-IsPinned :
        (a : Answers M) (s : Store M) (file : Option (File M))
        → IsPinned h (baseline s)
        → IsPinned h (baseline (reuse_or_download f a d (new_iso_cache_ref id) s file).1)
    unfolding reuse_or_download kept
    reuse_or_download-IsPinned a s none p = ensured-IsPinned a s (ensure_iso_datasets a d) p
    reuse_or_download-IsPinned a s (some file) p = verify-IsPinned a.cache file.info s.properties p

    recheck-IsPinned :
        (a : CacheAnswers) (s : Store M) (file : Option (File M))
        → IsPinned h (baseline s)
        → IsPinned h (baseline (recheck f a (new_iso_cache_ref id) s file).1)
    unfolding recheck kept
    recheck-IsPinned a s none p = p
    recheck-IsPinned a s (some file) p = verify-IsPinned a file.info s.properties p

    -- Once an image has a hash on record, no sequence of runs, of checks before a boot and of foreign
    -- changes to the file, whatever TrueNAS and the factory answer, replaces it by another one: the
    -- record stays that hash, or it carries the mark of a mismatch.
    pub Steps-IsPinned :
        (s t : Store M) → Steps s t → IsPinned h (baseline s) → IsPinned h (baseline t)
    unfolding download_or_reuse_iso reverify_iso_before_attach ensure_iso_datasets
    Steps-IsPinned s t start p = p
    Steps-IsPinned s t (provision {t = u} steps a) p =
        let q = Steps-IsPinned s u steps p in
        elim (Bool-cases a.stat_fails) [
          | inl e ↦ rw e q
          | inr e ↦ rw e (reuse_or_download-IsPinned a u u.file q)
        ]
    Steps-IsPinned s t (attach {t = u} steps stat_fails a) p =
        let q = Steps-IsPinned s u steps p in
        elim (Bool-cases stat_fails) [
          | inl e ↦ rw e q
          | inr e ↦ rw e (recheck-IsPinned a u u.file q)
        ]
    Steps-IsPinned s t (foreign {t = u} steps file) p = Steps-IsPinned s u steps p
