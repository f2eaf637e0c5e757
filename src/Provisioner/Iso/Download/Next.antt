-- ===== src/Provisioner/Iso/Download/Next.antt =====
-- Two runs in a row: what the second makes of the file and the record that the first one left.
use omni_infra_provider_true.Base.{
  ◌≡◌, ◌↔◌, refl, sym, ◌∙◌, ap, inl, inr, true, false, none, some, [],
}
use omni_infra_provider_true.Base.Result.{Result, ok}
use omni_infra_provider_true.Clock.{IsInt64}
use omni_infra_provider_true.Provisioner.{Data}
use omni_infra_provider_true.Text.{Text, text_eq}
use omni_infra_provider_true.Text.Signed.{parse_int, format_int, parse_int-format_int}
use omni_infra_provider_true.Provisioner.Iso.{
  MtimeText, FileInfo, File, Store, new_iso_cache_ref, cached_iso_poisoned, applied,
  record_tofu_property, record_metadata, verify_cached_iso, IsoError,
}
use omni_infra_provider_true.Provisioner.Iso.Keys.{
  record_tofu_property-other, record_tofu_property-applied, record_metadata-hash, size-mtime,
}
use omni_infra_provider_true.Provisioner.Iso.Download.{
  Answers, record_stat, record_baseline, kept, reuse_or_download, download_or_reuse_iso,
}
use omni_infra_provider_true.Provisioner.Iso.Download.Fresh.{stored_file, download-IsFresh}
use omni_infra_provider_true.Provisioner.Iso.Download.Verified.{IsSameFile, verify_cached_iso_iff}

-- The stat of the stored file is read and every write of a property is acknowledged.
abbrev pub IsRecorded : {M : Type 0} → Answers M → Type 0
IsRecorded a =
    (a.second_stat_fails ≡ false)
    × (a.hash_write ≡ applied)
    × (a.cache.size_write ≡ applied)
    × (a.cache.mtime_write ≡ applied)

-- The cached file's stat and the properties can be read.
abbrev pub IsReadable : {M : Type 0} → Answers M → Type 0
IsReadable b = (b.stat_fails ≡ false) × (b.cache.properties_fail ≡ false)

module _ {M : Type 0} (f : MtimeText M) (d : Data) (id : Text) where
  recorded_properties :
      (a : Answers M) (x : Text) (stat : FileInfo M) (s : Store M)
      → IsRecorded a
      → (t : Store M)
      → t
        ≡ record_baseline f a
            (new_iso_cache_ref id)
            x
            (record s { file = some (stored_file stat x) })
      → (t.properties (new_iso_cache_ref id).hash_prop ≡ x)
        × (t.properties (new_iso_cache_ref id).size_prop ≡ format_int stat.size)
        × (t.properties (new_iso_cache_ref id).mtime_prop ≡ f.format_iso_mtime stat.mtime)
  unfolding record_baseline record_stat record_metadata text_eq
  recorded_properties a x stat s (seen, hash, size, mtime) t e =
      let ref = new_iso_cache_ref id in
      let hashed = record_tofu_property applied ref.hash_prop x s.properties in
      let sized = record_tofu_property applied ref.size_prop (format_int stat.size) hashed in
      (
        ap (λ t. t.properties ref.hash_prop) e
            ∙ simp (
              seen,
              hash,
              size,
              mtime,
              record_metadata-hash f applied applied id stat hashed,
              record_tofu_property-applied ref.hash_prop x s.properties,
            ),
        ap (λ t. t.properties ref.size_prop) e
            ∙ simp (
              seen,
              hash,
              size,
              mtime,
              record_tofu_property-other applied ref.mtime_prop (f.format_iso_mtime stat.mtime)
                  sized ref.size_prop (size-mtime id id),
              record_tofu_property-applied ref.size_prop (format_int stat.size) hashed,
            ),
        ap (λ t. t.properties ref.mtime_prop) e
            ∙ simp (
              seen,
              hash,
              size,
              mtime,
              record_tofu_property-applied ref.mtime_prop (f.format_iso_mtime stat.mtime) sized,
            ),
      )

  kept-outcome :
      (s : Store M) (r : Result IsoError (Unit {0}) × (Text → Text)) → (kept f s r).0 ≡ r.0
  unfolding kept
  kept-outcome s (r, properties) = refl

  -- A run on a readable file ends as its verification does.
  pub cached-outcome :
      (b : Answers M) (s : Store M) (file : File M)
      → b.stat_fails ≡ false
      → s.file ≡ some file
      → (download_or_reuse_iso f b d (new_iso_cache_ref id) s).0
        ≡ (verify_cached_iso f b.cache (new_iso_cache_ref id) file.info s.properties).0
  unfolding download_or_reuse_iso reuse_or_download
  cached-outcome b s file e c = simp (
    e,
    c,
    kept-outcome s (verify_cached_iso f b.cache (new_iso_cache_ref id) file.info s.properties),
  )

  some-injective : {A : Type 0} (a b : A) → some a ≡ some b → a ≡ b
  some-injective a b h = cc h

  stored_as :
      (a : Answers M) (x : Text) (stat : FileInfo M) (s t : Store M) (file : File M)
      → t
        ≡ record_baseline f a
            (new_iso_cache_ref id)
            x
            (record s { file = some (stored_file stat x) })
      → t.file ≡ some file
      → stored_file stat x ≡ file
  unfolding record_baseline
  stored_as a x stat s t file e c =
      some-injective (stored_file stat x) file (sym (ap (λ t. t.file) e) ∙ c)

  IsSameFile-iff :
      (size mtime : Text) (old new : FileInfo M)
      → size ≡ format_int old.size
      → mtime ≡ f.format_iso_mtime old.mtime
      → IsInt64 old.size
      → f.parse_iso_mtime (f.format_iso_mtime old.mtime) ≡ some old.mtime
      → IsSameFile f size mtime new
        ↔ ((new.size ≡ old.size) × (f.same_mtime old.mtime new.mtime ≡ true))
  IsSameFile-iff size mtime old new e g int64 round =
      let parsed = ap parse_int e ∙ parse_int-format_int old.size int64 in
      let read = ap f.parse_iso_mtime g ∙ round in
      (
        λ p. (
          some-injective new.size old.size (sym p.0 ∙ parsed),
          ap (λ m. f.same_mtime m new.mtime) (some-injective old.mtime p.1.0 (sym read ∙ p.1.1))
              ∙ p.1.2,
        ),
        λ p. (parsed ∙ ap some (sym p.0), (old.mtime, read, p.1)),
      )

  module _ (a b : Answers M) (s : Store M) (file : File M) where
    -- After a download that succeeds and whose record is written in full, the next run, which can
    -- read the file's stat and the properties, accepts whatever file it finds exactly if its size and
    -- its mtime are those of the downloaded one. The digest is neither empty nor marked, the size is
    -- an int64 and the float's text is read back.
    pub next_run_iff :
        (changed : File M)
        → s.file ≡ none
        → (download_or_reuse_iso f a d (new_iso_cache_ref id) s).0 ≡ ok tt
        → (download_or_reuse_iso f a d (new_iso_cache_ref id) s).1.file ≡ some file
        → IsRecorded a
        → IsReadable b
        → text_eq file.digest [] ≡ false
        → cached_iso_poisoned file.digest ≡ false
        → IsInt64 file.info.size
        → f.parse_iso_mtime (f.format_iso_mtime file.info.mtime) ≡ some file.info.mtime
        → ((download_or_reuse_iso f b d
              (new_iso_cache_ref id)
              (record (download_or_reuse_iso f a d (new_iso_cache_ref id) s).1 {
                file = some changed;
              })).0
            ≡ ok tt)
          ↔ ((changed.info.size ≡ file.info.size)
              × (f.same_mtime file.info.mtime changed.info.mtime ≡ true))
    unfolding text_eq parse_int
    next_run_iff changed missing accepted c written readable nonempty unmarked int64 round =
        let ref = new_iso_cache_ref id in
        let (stat, x, left, safe, fine) = download-IsFresh f ref a d s missing accepted in
        let t = (download_or_reuse_iso f a d ref s).1 in
        let same = stored_as a x stat s t file left c in
        let (hash, size, mtime) = recorded_properties a x stat s written t left in
        let digest = hash ∙ ap (λ file. file.digest) same in
        let cached = cached-outcome b (record t { file = some changed }) changed readable.0 refl in
        let verdict = verify_cached_iso_iff f b.cache ref changed.info t.properties in
        let sizes = size ∙ ap (λ file. format_int file.info.size) same in
        let files =
          IsSameFile-iff (t.properties ref.size_prop) (t.properties ref.mtime_prop) file.info
            changed.info sizes (mtime ∙ ap (λ file. f.format_iso_mtime file.info.mtime) same) int64
            round in
        (
          λ h. elim (verdict.0 (sym cached ∙ h)).2 [
            | inl none_recorded ↦ absurd (cc (rw (sym digest ∙ none_recorded) at nonempty))
            | inr (inl (no_size, no_mtime)) ↦ absurd (
                cc (
                  sym (parse_int-format_int file.info.size int64)
                  ∙ ap parse_int (sym sizes ∙ no_size)))
            | inr (inr p) ↦ files.0 p
          ],
          λ p.
              cached
              ∙ verdict.1
                  (readable.1, ap cached_iso_poisoned digest ∙ unmarked, inr (inr (files.1 p))),
        )
