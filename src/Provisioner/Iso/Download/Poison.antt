-- ===== src/Provisioner/Iso/Download/Poison.antt =====
-- The mark of a mismatch is final for the provisioner.
use omni_infra_provider_true.Base.{
  ◌≡◌, refl, Bool, true, false, Option, none, some, inl, inr, Bool-cases,
}
use omni_infra_provider_true.Base.Result.{Result, ok, err}
use omni_infra_provider_true.Provisioner.{Data}
use omni_infra_provider_true.Text.{Text}
use omni_infra_provider_true.Provisioner.Iso.{
  MtimeText, FileInfo, File, Store, new_iso_cache_ref, cached_iso_poisoned, CacheAnswers,
  verify_cached_iso, IsoError, poisoned, baseline_unreadable, vanished, stat_failed,
}
use omni_infra_provider_true.Provisioner.Iso.Download.{
  Answers, Run, ensure_iso_datasets, ensured, kept, reuse_or_download, download_or_reuse_iso,
  recheck, reverify_iso_before_attach,
}
use omni_infra_provider_true.Provisioner.Iso.Download.Baseline.{
  baseline, Steps, start, provision, attach, foreign,
}

-- A run that fails and leaves the file and the properties as they are.
abbrev pub IsRefused : {M : Type 0} → Run M → Store M → Type 0
IsRefused r s = (e : IsoError) × (r ≡ (err e, s))

module _ {M : Type 0} (f : MtimeText M) (d : Data) (id : Text) where
  verify-IsRefused :
      (a : CacheAnswers) (stat : FileInfo M) (s : Store M)
      → cached_iso_poisoned (baseline f d id s) ≡ true
      → IsRefused (kept f s (verify_cached_iso f a (new_iso_cache_ref id) stat s.properties)) s
  unfolding verify_cached_iso kept
  verify-IsRefused a stat s c = elim (Bool-cases a.properties_fail) [
    | inl e ↦ (baseline_unreadable, rw e refl)
    | inr e ↦ (poisoned, rw (e, c) refl)
  ]

  ensured-IsRefused :
      (a : Answers M) (s : Store M) (r : Result IsoError (Unit {0}))
      → cached_iso_poisoned (baseline f d id s) ≡ true
      → IsRefused (ensured f a (new_iso_cache_ref id) s r) s
  unfolding ensured
  ensured-IsRefused a s (err e) c = (e, refl)
  ensured-IsRefused a s (ok u) c = elim (Bool-cases a.baseline_fails) [
    | inl b ↦ (baseline_unreadable, rw b refl)
    | inr b ↦ (poisoned, rw (b, c) refl)
  ]

  reuse_or_download-IsRefused :
      (a : Answers M) (s : Store M) (file : Option (File M))
      → cached_iso_poisoned (baseline f d id s) ≡ true
      → IsRefused (reuse_or_download f a d (new_iso_cache_ref id) s file) s
  unfolding reuse_or_download
  reuse_or_download-IsRefused a s none c = ensured-IsRefused a s (ensure_iso_datasets a d) c
  reuse_or_download-IsRefused a s (some file) c = verify-IsRefused a.cache file.info s c

  recheck-IsRefused :
      (a : CacheAnswers) (s : Store M) (file : Option (File M))
      → cached_iso_poisoned (baseline f d id s) ≡ true
      → IsRefused (recheck f a (new_iso_cache_ref id) s file) s
  unfolding recheck
  recheck-IsRefused a s none c = (vanished, refl)
  recheck-IsRefused a s (some file) c = verify-IsRefused a file.info s c

  download-IsRefused :
      (a : Answers M) (s : Store M)
      → cached_iso_poisoned (baseline f d id s) ≡ true
      → IsRefused (download_or_reuse_iso f a d (new_iso_cache_ref id) s) s
  unfolding download_or_reuse_iso
  download-IsRefused a s c = elim (Bool-cases a.stat_fails) [
    | inl e ↦ (stat_failed, simp (e))
    | inr e ↦ let (x, q) = reuse_or_download-IsRefused a s s.file c in (x, simp (e, q))
  ]

  reverify-IsRefused :
      (stat_fails : Bool) (a : CacheAnswers) (s : Store M)
      → cached_iso_poisoned (baseline f d id s) ≡ true
      → IsRefused (reverify_iso_before_attach f stat_fails a (new_iso_cache_ref id) s) s
  unfolding reverify_iso_before_attach
  reverify-IsRefused true a s c = (stat_failed, refl)
  reverify-IsRefused false a s c = recheck-IsRefused a s s.file c

  Steps-marked :
      (s t : Store M)
      → Steps f d id s t
      → cached_iso_poisoned (baseline f d id s) ≡ true
      → cached_iso_poisoned (baseline f d id t) ≡ true
  Steps-marked s t start c = c
  Steps-marked s t (provision {t = u} steps a) c =
      let marked = Steps-marked s u steps c in
      let (e, q) = download-IsRefused a u marked in rw q marked
  Steps-marked s t (attach {t = u} steps stat_fails a) c =
      let marked = Steps-marked s u steps c in
      let (e, q) = reverify-IsRefused stat_fails a u marked in rw q marked
  Steps-marked s t (foreign {t = u} steps file) c = Steps-marked s u steps c

  -- Once the mark of a mismatch is on record, every later run of the provisioner and every check
  -- before a boot fails and changes neither the file nor a property, whatever TrueNAS and the factory
  -- answer and however others change the file in between.
  pub Steps-IsRefused :
      (s t : Store M)
      → Steps f d id s t
      → cached_iso_poisoned (baseline f d id s) ≡ true
      → ((a : Answers M) → IsRefused (download_or_reuse_iso f a d (new_iso_cache_ref id) t) t)
        × ((stat_fails : Bool) (a : CacheAnswers)
            → IsRefused (reverify_iso_before_attach f stat_fails a (new_iso_cache_ref id) t) t)
  Steps-IsRefused s t steps c =
      let marked = Steps-marked s t steps c in
      (λ a. download-IsRefused a t marked, λ b a. reverify-IsRefused b a t marked)
