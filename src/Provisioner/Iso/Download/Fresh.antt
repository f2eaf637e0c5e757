-- ===== src/Provisioner/Iso/Download/Fresh.antt =====
-- What an accepted download leaves: the file with the digest of its bytes, and its baseline.
use omni_infra_provider_true.Base.{
  ◌≡◌, ◌≢◌, refl, sym, ◌∙◌, ap, subst, false, Option, none, some, [], inl, inr, ltb, ◌==◌, not,
  Bool-cases,
}
use omni_infra_provider_true.Base.Result.{Result, ok, err}
use omni_infra_provider_true.Provisioner.{Data}
use omni_infra_provider_true.Text.{Text, text_eq}
use omni_infra_provider_true.Provisioner.Iso.{
  MtimeText, FileInfo, File, Store, IsoCacheRef, new_iso_cache_ref, TofuResult, tofu_first_use,
  tofu_match, tofu_mismatch, tofu_poisoned, classify_tofu, cached_iso_poisoned, IsoError,
}
use omni_infra_provider_true.Provisioner.Iso.Download.{
  Answers, Run, Response, Upload, complete, broken, max_iso_download_bytes, declares_too_much,
  uploaded, download_and_upload_iso, ensure_iso_datasets, handle_iso_hash_mismatch, mismatched,
  record_baseline, settle, fetched, ensured, reuse_or_download, download_or_reuse_iso,
}
use omni_infra_provider_true.Provisioner.Iso.Download.Baseline.{classify-pinned}

abbrev pub stored_file : {M : Type 0} → FileInfo M → Text → File M
stored_file stat digest = record { info = stat; digest = digest }

module _ {M : Type 0} where
  uploaded-ok :
      (r : Response M) (u : Upload M) (x : Text) (file : Option (File M))
      → uploaded r u ≡ (ok x, file)
      → (stat : FileInfo M) × (file ≡ some (stored_file stat x))
  unfolding uploaded
  uploaded-ok r (complete stat) x file h =
      elim (Bool-cases (ltb max_iso_download_bytes r.body_length)) [
        | inl e ↦ absurd (cc (rw e at h))
        | inr e ↦ (stat, cc (rw e at h))
      ]
  uploaded-ok r (broken left) x file h = absurd (cc h)

  download-ok :
      (r : Option (Response M)) (old : Option (File M)) (x : Text) (file : Option (File M))
      → download_and_upload_iso r old ≡ (ok x, file)
      → (stat : FileInfo M) × (file ≡ some (stored_file stat x))
  unfolding download_and_upload_iso
  download-ok none old x file h = absurd (cc h)
  download-ok (some r) old x file h = elim (Bool-cases (not (r.status == 200))) [
    | inl e ↦ absurd (cc (rw e at h))
    | inr e ↦ elim (Bool-cases (declares_too_much r.content_length)) [
      | inl c ↦ absurd (cc (rw (e, c) at h))
      | inr c ↦ uploaded-ok r r.upload x file (rw (e, c) at h)
    ]
  ]

module _ {M : Type 0} (f : MtimeText M) (ref : IsoCacheRef) (a : Answers M) where
  -- A run that accepted a fresh download, and what it left.
  abbrev pub IsFresh : Store M → Run M → Type 0
  IsFresh s r =
      (stat : FileInfo M) × (x : Text) × (r.1
        ≡ record_baseline f a ref x (record s { file = some (stored_file stat x) }))
      × (cached_iso_poisoned (s.properties ref.hash_prop) ≡ false)
      × (classify_tofu (s.properties ref.hash_prop) x ≢ tofu_mismatch)

  settle-accepts :
      (x : Text) (s : Store M) (v : TofuResult)
      → (settle f a ref x s v).0 ≡ ok tt
      → ((settle f a ref x s v).1 ≡ record_baseline f a ref x s) × (v ≢ tofu_mismatch)
  unfolding settle handle_iso_hash_mismatch mismatched
  settle-accepts x s tofu_mismatch h = absurd (cc h)
  settle-accepts x s tofu_match h = (refl, λ e. cc e)
  settle-accepts x s tofu_first_use h = (refl, λ e. cc e)
  settle-accepts x s tofu_poisoned h = (refl, λ e. cc e)

  fetched-IsFresh :
      (s : Store M) (r : Result IsoError Text × Option (File M))
      → download_and_upload_iso a.response s.file ≡ r
      → cached_iso_poisoned (s.properties ref.hash_prop) ≡ false
      → (fetched f a ref s r).0 ≡ ok tt
      → IsFresh s (fetched f a ref s r)
  unfolding fetched
  fetched-IsFresh s (err e, file) q c h = absurd (cc h)
  fetched-IsFresh s (ok x, file) q c h =
      let (stat, e) = download-ok a.response s.file x file q in
      let verdict = classify_tofu (s.properties ref.hash_prop) x in
      let (left, fine) = settle-accepts x (record s { file = file }) verdict h in
      (stat, x, left ∙ ap (λ o. record_baseline f a ref x (record s { file = o })) e, c, fine)

  ensured-ok :
      (s : Store M) (r : Result IsoError (Unit {0}))
      → (ensured f a ref s r).0 ≡ ok tt
      → (ensured f a ref s r ≡ fetched f a ref s (download_and_upload_iso a.response s.file))
        × (cached_iso_poisoned (s.properties ref.hash_prop) ≡ false)
  unfolding ensured
  ensured-ok s (err e) h = absurd (cc h)
  ensured-ok s (ok u) h = elim (Bool-cases a.baseline_fails) [
    | inl b ↦ absurd (cc (simp (b) at h))
    | inr b ↦ elim (Bool-cases (cached_iso_poisoned (s.properties ref.hash_prop))) [
      | inl c ↦ absurd (cc (simp (b, c) at h))
      | inr c ↦ (simp (b, c), c)
    ]
  ]

  ensured-IsFresh :
      (s : Store M) (r : Result IsoError (Unit {0}))
      → (ensured f a ref s r).0 ≡ ok tt
      → IsFresh s (ensured f a ref s r)
  ensured-IsFresh s r h =
      let (q, c) = ensured-ok s r h in
      let response = download_and_upload_iso a.response s.file in
      subst (IsFresh s) (sym q) (fetched-IsFresh s response refl c (sym (ap (λ r. r.0) q) ∙ h))

  missing-ok :
      (d : Data) (s : Store M)
      → s.file ≡ none
      → (download_or_reuse_iso f a d ref s).0 ≡ ok tt
      → download_or_reuse_iso f a d ref s ≡ ensured f a ref s (ensure_iso_datasets a d)
  unfolding download_or_reuse_iso reuse_or_download
  missing-ok d s missing h = elim (Bool-cases a.stat_fails) [
    | inl e ↦ absurd (cc (simp (e) at h))
    | inr e ↦ simp (e, missing)
  ]

  -- An accepted run on a missing file.
  pub download-IsFresh :
      (d : Data) (s : Store M)
      → s.file ≡ none
      → (download_or_reuse_iso f a d ref s).0 ≡ ok tt
      → IsFresh s (download_or_reuse_iso f a d ref s)
  download-IsFresh d s missing h =
      let q = missing-ok d s missing h in
      subst (IsFresh s) (sym q)
        (ensured-IsFresh s (ensure_iso_datasets a d) (sym (ap (λ r. r.0) q) ∙ h))

module _ {M : Type 0} (f : MtimeText M) (id : Text) (a : Answers M) where
  -- Where an image has a hash on record, a run that finds no file and succeeds leaves a file whose
  -- bytes have exactly that hash.
  pub download-digest :
      (d : Data) (h : Text) (s : Store M)
      → text_eq h [] ≡ false
      → s.properties (new_iso_cache_ref id).hash_prop ≡ h
      → s.file ≡ none
      → (download_or_reuse_iso f a d (new_iso_cache_ref id) s).0 ≡ ok tt
      → (stat : FileInfo M) × ((download_or_reuse_iso f a d (new_iso_cache_ref id) s).1.file
          ≡ some (stored_file stat h))
  unfolding record_baseline
  download-digest d h s recorded e missing accepted =
      let ref = new_iso_cache_ref id in
      let (stat, x, left, c, fine) = download-IsFresh f ref a d s missing accepted in
      elim (classify-pinned f d id h recorded (s.properties ref.hash_prop) x c (inl e)) [
        | inl bad ↦ absurd (fine bad)
        | inr (good, same) ↦ (stat, rw (left, same) refl)
      ]
