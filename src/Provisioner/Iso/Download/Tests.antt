-- ===== src/Provisioner/Iso/Download/Tests.antt =====
-- Instances of the theorems on the image cache, with whole seconds for a float64.
use omni_infra_provider_true.Provisioner.Fixtures.{small_class}
use omni_infra_provider_true.Base.{
  ℕ, ◌≡◌, ◌↔◌, refl, inl, ◌⊎◌, Bool, true, false, none, some, [], arith, ◌==◌,
}
use omni_infra_provider_true.Base.Int.{pos, negsuc}
use omni_infra_provider_true.Base.Result.{ok, err}
use omni_infra_provider_true.Meta.{has_prefix, after_prefix}
use omni_infra_provider_true.Text.{Text, codes, text_eq}
use omni_infra_provider_true.Text.Decimal.{format_uint, parse_uint, parse_uint-format_uint}
use omni_infra_provider_true.Provisioner.Iso.{
  MtimeText, FileInfo, Store, new_iso_cache_ref, applied, refused, CacheAnswers, classify_tofu,
  cached_iso_poisoned, poison_marker, put, verify_cached_iso, over_cap,
}
use omni_infra_provider_true.Provisioner.Iso.Download.{
  Answers, Response, complete, uploaded, declares_too_much, download_and_upload_iso,
  ensure_iso_datasets, record_baseline, settle, fetched, ensured, reuse_or_download,
  download_or_reuse_iso, reverify_iso_before_attach,
}
use omni_infra_provider_true.Provisioner.Iso.Download.Baseline.{
  IsPinned, Steps, start, provision, foreign, baseline, Steps-IsPinned,
}
use omni_infra_provider_true.Provisioner.Iso.Download.Poison.{IsRefused, Steps-IsRefused}
use omni_infra_provider_true.Provisioner.Iso.Download.Fresh.{stored_file, download-digest}
use omni_infra_provider_true.Provisioner.Iso.Download.Verified.{IsAcceptable, verify_cached_iso_iff}
use omni_infra_provider_true.Provisioner.Iso.Download.Next.{next_run_iff}
use omni_infra_provider_true.Provisioner.Iso.Download.Overrun.{over_cap_reused}

abbrev seconds : MtimeText ℕ
seconds = record {
  format_iso_mtime = format_uint;
  parse_iso_mtime = parse_uint;
  same_mtime = λ a b. a == b;
}

abbrev cache_answers : CacheAnswers
cache_answers = record {
  properties_fail = false;
  size_write = applied;
  mtime_write = applied;
  poison_attempts = λ n. record { write = refused; cancelled = false };
}

abbrev stat : FileInfo ℕ
stat = record { size = pos 300; mtime = 77 }

abbrev response : ℕ → Response ℕ
response length = record {
  status = 200;
  content_length = negsuc 0;
  body_length = length;
  digest = codes "ab12";
  upload = complete stat;
}

abbrev answers : ℕ → Answers ℕ
answers length = record {
  stat_fails = false;
  cache = cache_answers;
  prefix_fails = false;
  dataset_fails = false;
  baseline_fails = false;
  response = some (response length);
  second_stat_fails = false;
  hash_write = applied;
}

-- No file, and a recorded hash.
abbrev with_hash : Text → Store ℕ
with_hash hash = record {
  file = none;
  properties = put (new_iso_cache_ref (codes "a1")).hash_prop hash (λ k. []);
}

over_cap_reused_example :
    ((download_or_reuse_iso seconds
        (answers 2147483649)
        small_class
        (new_iso_cache_ref (codes "a1"))
        (with_hash [])).0
      ≡ err over_cap)
    × ((download_or_reuse_iso seconds
          (answers 0)
          small_class
          (new_iso_cache_ref (codes "a1"))
          (download_or_reuse_iso seconds
            (answers 2147483649)
            small_class
            (new_iso_cache_ref (codes "a1"))
            (with_hash [])).1).0
        ≡ ok tt)
unfolding put text_eq ensure_iso_datasets
over_cap_reused_example =
    over_cap_reused seconds small_class (codes "a1") (answers 2147483649) (answers 0)
      (response 2147483649) stat (with_hash []) refl refl refl refl refl refl refl refl
      (omega arith) refl (refl, refl)

next_run_iff_example :
    ((download_or_reuse_iso seconds
        (answers 0)
        small_class
        (new_iso_cache_ref (codes "a1"))
        (record (download_or_reuse_iso seconds
          (answers 300)
          small_class
          (new_iso_cache_ref (codes "a1"))
          (with_hash [])).1 {
            file = some (stored_file (record { size = pos 301; mtime = 77 }) (codes "ab13"));
          })).0
      ≡ ok tt)
    ↔ ((pos 301 ≡ pos 300) × ((77 == 77) ≡ true))
unfolding put text_eq ensure_iso_datasets download_or_reuse_iso reuse_or_download ensured fetched
    settle classify_tofu cached_iso_poisoned has_prefix after_prefix download_and_upload_iso
    declares_too_much uploaded record_baseline
next_run_iff_example =
    next_run_iff seconds small_class (codes "a1") (answers 300) (answers 0) (with_hash [])
      (stored_file stat (codes "ab12"))
      (stored_file (record { size = pos 301; mtime = 77 }) (codes "ab13")) refl refl refl
      (refl, refl, refl, refl) (refl, refl) refl refl (omega arith)
      (parse_uint-format_uint 77 (omega arith))

verify_cached_iso_iff_example :
    ((verify_cached_iso seconds cache_answers
        (new_iso_cache_ref (codes "a1"))
        stat
        (with_hash (codes "ab12")).properties).0
      ≡ ok tt)
    ↔ ((false ≡ false)
        × (cached_iso_poisoned
              ((with_hash (codes "ab12")).properties (new_iso_cache_ref (codes "a1")).hash_prop)
            ≡ false)
        × (((with_hash (codes "ab12")).properties (new_iso_cache_ref (codes "a1")).hash_prop ≡ [])
            ⊎ IsAcceptable seconds
                ((with_hash (codes "ab12")).properties (new_iso_cache_ref (codes "a1")).size_prop)
                ((with_hash (codes "ab12")).properties (new_iso_cache_ref (codes "a1")).mtime_prop)
                stat))
verify_cached_iso_iff_example =
    verify_cached_iso_iff seconds cache_answers (new_iso_cache_ref (codes "a1")) stat
      (with_hash (codes "ab12")).properties

download-digest_example :
    (left : FileInfo ℕ) × ((download_or_reuse_iso seconds
        (answers 300)
        small_class
        (new_iso_cache_ref (codes "a1"))
        (with_hash (codes "ab12"))).1.file
      ≡ some (stored_file left (codes "ab12")))
unfolding put text_eq ensure_iso_datasets download_or_reuse_iso reuse_or_download ensured fetched
    settle classify_tofu cached_iso_poisoned has_prefix after_prefix download_and_upload_iso
    declares_too_much uploaded record_baseline
download-digest_example =
    download-digest seconds (codes "a1") (answers 300) small_class (codes "ab12")
      (with_hash (codes "ab12")) refl refl refl refl

-- A run that downloads, and a foreign change to the file.
abbrev later : Text → Store ℕ
later hash =
    record (download_or_reuse_iso seconds (answers 300) small_class (new_iso_cache_ref (codes "a1"))
      (with_hash hash)).1 { file = none }

abbrev steps : (hash : Text) → Steps seconds small_class (codes "a1") (with_hash hash) (later hash)
steps hash = foreign (provision start (answers 300)) none

Steps-IsPinned_example :
    IsPinned seconds small_class
      (codes "a1")
      (codes "cd34")
      (baseline seconds small_class (codes "a1") (later (codes "cd34")))
unfolding put text_eq
Steps-IsPinned_example =
    Steps-IsPinned seconds small_class (codes "a1") (codes "cd34") refl (with_hash (codes "cd34"))
      (later (codes "cd34")) (steps (codes "cd34")) (inl refl)

Steps-IsRefused_example :
    ((a : Answers ℕ)
      → IsRefused
          (download_or_reuse_iso seconds a small_class
            (new_iso_cache_ref (codes "a1"))
            (later (poison_marker (codes "ab12"))))
          (later (poison_marker (codes "ab12"))))
    × ((stat_fails : Bool) (a : CacheAnswers)
        → IsRefused
            (reverify_iso_before_attach seconds stat_fails a
              (new_iso_cache_ref (codes "a1"))
              (later (poison_marker (codes "ab12"))))
            (later (poison_marker (codes "ab12"))))
unfolding put text_eq cached_iso_poisoned has_prefix after_prefix
Steps-IsRefused_example =
    Steps-IsRefused seconds small_class (codes "a1") (with_hash (poison_marker (codes "ab12")))
      (later (poison_marker (codes "ab12"))) (steps (poison_marker (codes "ab12"))) refl
