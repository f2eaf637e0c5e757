-- ===== src/Provisioner/Iso/Download/Overrun.antt =====
-- What a run makes of a response that is longer than the cap.
use omni_infra_provider_true.Base.{◌≡◌, ◌<◌, lt→ltb, refl, ◌∙◌, ap, inl, false, none, some, []}
use omni_infra_provider_true.Base.Int.{negsuc}
use omni_infra_provider_true.Base.Result.{ok, err}
use omni_infra_provider_true.Provisioner.{Data}
use omni_infra_provider_true.Text.{Text}
use omni_infra_provider_true.Meta.{has_prefix, after_prefix}
use omni_infra_provider_true.Provisioner.Iso.{
  MtimeText, FileInfo, Store, new_iso_cache_ref, cached_iso_poisoned, over_cap,
}
use omni_infra_provider_true.Provisioner.Iso.Download.{
  Answers, Response, complete, max_iso_download_bytes, declares_too_much, uploaded,
  download_and_upload_iso, ensure_iso_datasets, fetched, ensured, reuse_or_download,
  download_or_reuse_iso,
}
use omni_infra_provider_true.Provisioner.Iso.Download.Fresh.{stored_file}
use omni_infra_provider_true.Provisioner.Iso.Download.Verified.{verify_cached_iso_iff}
use omni_infra_provider_true.Provisioner.Iso.Download.Next.{IsReadable, cached-outcome}

module _ {M : Type 0} (f : MtimeText M) (d : Data) (id : Text) where
  -- An image with no hash on record, of which the factory sends more than the cap without saying so:
  -- the run fails after the upload, and the next one, which can read the stat and the properties,
  -- accepts the file that it left, unchecked.
  pub over_cap_reused :
      (a b : Answers M) (r : Response M) (stat : FileInfo M) (s : Store M)
      → s.file ≡ none
      → s.properties (new_iso_cache_ref id).hash_prop ≡ []
      → a.stat_fails ≡ false
      → ensure_iso_datasets a d ≡ ok tt
      → a.baseline_fails ≡ false
      → a.response ≡ some r
      → r.status ≡ 200
      → r.content_length ≡ negsuc 0
      → max_iso_download_bytes < r.body_length
      → r.upload ≡ complete stat
      → IsReadable b
      → ((download_or_reuse_iso f a d (new_iso_cache_ref id) s).0 ≡ err over_cap)
        × ((download_or_reuse_iso f b d
              (new_iso_cache_ref id)
              (download_or_reuse_iso f a d (new_iso_cache_ref id) s).1).0
            ≡ ok tt)
  unfolding download_or_reuse_iso reuse_or_download ensured fetched download_and_upload_iso uploaded
      declares_too_much cached_iso_poisoned has_prefix after_prefix
  over_cap_reused a b r stat s missing no_hash seen ensured_ok read got status length over upload
        readable =
      let ref = new_iso_cache_ref id in
      let left = record s { file = some (stored_file stat r.digest) } in
      let run : download_or_reuse_iso f a d ref s ≡ (err over_cap, left) = simp (
        seen,
        missing,
        ensured_ok,
        read,
        no_hash,
        got,
        status,
        length,
        lt→ltb max_iso_download_bytes r.body_length over,
        upload,
      ) in
      (
        ap (λ q. q.0) run,
        ap (λ q. (download_or_reuse_iso f b d ref q.1).0) run
            ∙ cached-outcome f d id b left (stored_file stat r.digest) readable.0 refl
            ∙ (verify_cached_iso_iff f b.cache ref stat s.properties).1
                (readable.1, ap cached_iso_poisoned no_hash, inl no_hash),
      )
