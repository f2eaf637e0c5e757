-- ===== src/Provisioner/Iso/Keys.antt =====
-- What a write of one user property leaves of the others, and of a predicate on its own value.
use omni_infra_provider_true.Base.{ℕ, zero, suc, ◌≡◌, refl, false, ◌∙◌, inl, inr, Bool-cases}
use omni_infra_provider_true.Text.{Text, text_eq, text_eq_refl}
use omni_infra_provider_true.Text.Signed.{format_int}
use omni_infra_provider_true.Provisioner.Iso.{
  MtimeText, FileInfo, new_iso_cache_ref, Write, applied, refused, unanswered, Attempt, put,
  record_tofu_property, acknowledged, set_if_poisonable, record_metadata,
}

pub record_tofu_property-other :
    (w : Write) (key value : Text) (properties : Text → Text) (k : Text)
    → text_eq k key ≡ false
    → record_tofu_property w key value properties k ≡ properties k
unfolding record_tofu_property put
record_tofu_property-other applied key value properties k h = rw h refl
record_tofu_property-other refused key value properties k h = refl
record_tofu_property-other unanswered key value properties k h = rw h refl

pub record_tofu_property-applied :
    (key value : Text) (properties : Text → Text)
    → record_tofu_property applied key value properties key ≡ value
unfolding record_tofu_property put
record_tofu_property-applied key value properties = rw (text_eq_refl key) refl

module _ (P : Text → Type 0) where
  pub record_tofu_property-holds :
      (w : Write) (key value : Text) (properties : Text → Text)
      → P (properties key)
      → P value
      → P (record_tofu_property w key value properties key)
  unfolding record_tofu_property put
  record_tofu_property-holds applied key value properties h k = rw (text_eq_refl key) k
  record_tofu_property-holds refused key value properties h k = h
  record_tofu_property-holds unanswered key value properties h k = rw (text_eq_refl key) k

  pub set_if_poisonable-holds :
      (n : ℕ) (attempts : ℕ → Attempt) (key marker : Text) (properties : Text → Text)
      → P (properties key)
      → P marker
      → P ((set_if_poisonable n attempts key marker properties).1 key)
  unfolding set_if_poisonable
  set_if_poisonable-holds zero attempts key marker properties h m = h
  set_if_poisonable-holds (suc n) attempts key marker properties h m =
      let w = (attempts n).write in
      let written = record_tofu_property w key marker properties in
      let now = record_tofu_property-holds w key marker properties h m in
      elim (Bool-cases (acknowledged w)) [
        | inl e ↦ rw e now
        | inr e ↦ elim (Bool-cases (attempts n).cancelled) [
          | inl c ↦ rw (e, c) now
          | inr c ↦ rw (e, c) (set_if_poisonable-holds n attempts key marker written now m)
        ]
      ]

-- Keys of two kinds differ, whatever the images are.
hash-size :
    (a b : Text) → text_eq (new_iso_cache_ref a).hash_prop (new_iso_cache_ref b).size_prop ≡ false
unfolding text_eq
hash-size a b = refl

hash-mtime :
    (a b : Text) → text_eq (new_iso_cache_ref a).hash_prop (new_iso_cache_ref b).mtime_prop ≡ false
unfolding text_eq
hash-mtime a b = refl

pub size-mtime :
    (a b : Text) → text_eq (new_iso_cache_ref a).size_prop (new_iso_cache_ref b).mtime_prop ≡ false
unfolding text_eq
size-mtime a b = refl

pub record_metadata-hash :
    {M : Type 0} (f : MtimeText M) (v w : Write) (id : Text) (stat : FileInfo M)
    (properties : Text → Text)
    → record_metadata f v w (new_iso_cache_ref id) stat properties (new_iso_cache_ref id).hash_prop
      ≡ properties (new_iso_cache_ref id).hash_prop
unfolding record_metadata
record_metadata-hash f v w id stat properties =
    let ref = new_iso_cache_ref id in
    let sized = record_tofu_property v ref.size_prop (format_int stat.size) properties in
    record_tofu_property-other w ref.mtime_prop (f.format_iso_mtime stat.mtime) sized ref.hash_prop
      (hash-mtime id id)
    ∙ record_tofu_property-other v ref.size_prop (format_int stat.size) properties ref.hash_prop
        (hash-size id id)
