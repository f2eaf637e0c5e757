-- ===== src/Provisioner/Iso/Download/Verified.antt =====
-- When a cached file is accepted, and the record that a download leaves for the next run.
use omni_infra_provider_true.Base.{
  ◌≡◌, ◌≢◌, ◌↔◌, refl, ap, ◌⊎◌, inl, inr, true, false, Option, none, some, [], ◌&&◌, arith,
  Bool-cases, &&-true,
}
use omni_infra_provider_true.Base.Int.{ℤ, eq_of_parts}
use omni_infra_provider_true.Base.Result.{ok}
use omni_infra_provider_true.Text.{Text, text_eq, text_eq_sound}
use omni_infra_provider_true.Text.Signed.{parse_int}
use omni_infra_provider_true.Provisioner.Iso.{
  MtimeText, FileInfo, IsoCacheRef, TofuResult, tofu_first_use, tofu_match, tofu_mismatch,
  tofu_poisoned, cached_iso_poisoned, MetadataError, eq_ℤ, compare_mtime, compare_size,
  CacheAnswers, marked, judge, verify_iso_metadata, verify_cached_iso,
}

eq_ℤ-sound : (a b : ℤ) → eq_ℤ a b ≡ true → a ≡ b
unfolding eq_ℤ
eq_ℤ-sound a b h = eq_of_parts a b (ground (arith))

eq_ℤ-refl : (a : ℤ) → eq_ℤ a a ≡ true
unfolding eq_ℤ
eq_ℤ-refl a = ground arith

module _ {M : Type 0} (f : MtimeText M) where
  -- The recorded size and mtime are those of the stat.
  abbrev pub IsSameFile : Text → Text → FileInfo M → Type 0
  IsSameFile stored_size stored_mtime stat =
      (parse_int stored_size ≡ some stat.size)
      × ((m : M) × (f.parse_iso_mtime stored_mtime ≡ some m) × (f.same_mtime m stat.mtime ≡ true))

  -- The verdict of `verifyISOMetadata` that lets a file pass, said without the code.
  abbrev pub IsAcceptable : Text → Text → FileInfo M → Type 0
  IsAcceptable stored_size stored_mtime stat =
      ((stored_size ≡ []) × (stored_mtime ≡ [])) ⊎ IsSameFile stored_size stored_mtime stat

  mtime_iff :
      (o : Option M) (actual : M)
      → ((compare_mtime f o actual).0 ≡ tofu_match)
        ↔ ((m : M) × (o ≡ some m) × (f.same_mtime m actual ≡ true))
  unfolding compare_mtime
  mtime_iff none actual = (λ h. absurd (cc h), λ p. absurd (cc p.1))
  mtime_iff (some want) actual = elim (Bool-cases (f.same_mtime want actual)) [
    | inl e ↦ (λ h. (want, refl, e), λ p. simp (e))
    | inr e ↦ (λ h. absurd (cc (simp (e) at h)), λ p. absurd (cc (p.1, p.2, e)))
  ]

  size_iff :
      (o : Option ℤ) (mtime : Text) (actual : FileInfo M)
      → ((compare_size f o mtime actual).0 ≡ tofu_match) ↔ (
          (o ≡ some actual.size)
          × ((m : M) × (f.parse_iso_mtime mtime ≡ some m) × (f.same_mtime m actual.mtime ≡ true)))
  unfolding compare_size
  size_iff none mtime actual = (λ h. absurd (cc h), λ p. absurd (cc p.0))
  size_iff (some want) mtime actual = elim (Bool-cases (eq_ℤ want actual.size)) [
    | inl e ↦ (
      λ h. (
        ap some (eq_ℤ-sound want actual.size e),
        (mtime_iff (f.parse_iso_mtime mtime) actual.mtime).0 (simp (e) at h),
      ),
      λ p. simp (e, (mtime_iff (f.parse_iso_mtime mtime) actual.mtime).1 p.1),
    )
    | inr e ↦ (λ h. absurd (cc (simp (e) at h)), λ p. absurd (cc (p.0, e, eq_ℤ-refl actual.size)))
  ]

  mtime-verdict :
      (o : Option M) (actual : M)
      → ((compare_mtime f o actual).0 ≡ tofu_match) ⊎ ((compare_mtime f o actual).0 ≡ tofu_mismatch)
  unfolding compare_mtime
  mtime-verdict none actual = inr refl
  mtime-verdict (some want) actual = elim (Bool-cases (f.same_mtime want actual)) [
    | inl e ↦ inl (simp (e))
    | inr e ↦ inr (simp (e))
  ]

  size-verdict :
      (o : Option ℤ) (mtime : Text) (actual : FileInfo M)
      → ((compare_size f o mtime actual).0 ≡ tofu_match)
        ⊎ ((compare_size f o mtime actual).0 ≡ tofu_mismatch)
  unfolding compare_size
  size-verdict none mtime actual = inr refl
  size-verdict (some want) mtime actual = elim (Bool-cases (eq_ℤ want actual.size)) [
    | inl e ↦ elim (mtime-verdict (f.parse_iso_mtime mtime) actual.mtime) [
      | inl v ↦ inl (simp (e, v))
      | inr v ↦ inr (simp (e, v))
    ]
    | inr e ↦ inr (simp (e))
  ]

  module _ (a : CacheAnswers) (ref : IsoCacheRef) (stat : FileInfo M)
      (properties : Text → Text) where
    judge-match :
        (v : TofuResult × Option MetadataError)
        → v.0 ≡ tofu_match
        → (judge f a ref stat properties v).0 ≡ ok tt
    unfolding judge
    judge-match (tofu_match, e) h = refl
    judge-match (tofu_first_use, e) h = refl
    judge-match (tofu_mismatch, e) h = absurd (cc h)
    judge-match (tofu_poisoned, e) h = absurd (cc h)

    judge-mismatch :
        (v : TofuResult × Option MetadataError)
        → v.0 ≡ tofu_mismatch
        → (judge f a ref stat properties v).0 ≢ ok tt
    unfolding judge marked
    judge-mismatch (tofu_match, e) h = λ q. cc h
    judge-mismatch (tofu_first_use, e) h = λ q. cc h
    judge-mismatch (tofu_mismatch, e) h = λ q. cc q
    judge-mismatch (tofu_poisoned, e) h = λ q. cc h

    judge_iff :
        ((judge f a ref stat properties (
            verify_iso_metadata f
              (properties ref.size_prop)
              (properties ref.mtime_prop)
              (some stat))).0
          ≡ ok tt)
        ↔ IsAcceptable (properties ref.size_prop) (properties ref.mtime_prop) stat
    unfolding verify_iso_metadata judge text_eq
    judge_iff =
        let size = properties ref.size_prop in
        let mtime = properties ref.mtime_prop in
        let verdict = compare_size f (parse_int size) mtime stat in
        elim (Bool-cases (text_eq size [] && text_eq mtime [])) [
          | inl e ↦ (
            λ h. inl (
              text_eq_sound size [] (&&-true (text_eq size []) (text_eq mtime []) e).0,
              text_eq_sound mtime [] (&&-true (text_eq size []) (text_eq mtime []) e).1,
            ),
            λ p. simp (e),
          )
          | inr e ↦ (
            λ h. elim (size-verdict (parse_int size) mtime stat) [
              | inl v ↦ inr ((size_iff (parse_int size) mtime stat).0 v)
              | inr v ↦ absurd (judge-mismatch verdict v (simp (e) at h))
            ],
            λ p. elim p [
              | inl q ↦ absurd (cc (rw (q.0, q.1) at e))
              | inr q ↦ simp (e, judge-match verdict ((size_iff (parse_int size) mtime stat).1 q))
            ],
          )
        ]

    -- A cached file is accepted exactly if the properties can be read, the record carries no mark of
    -- a mismatch, and either no hash is on record, or neither a size nor an mtime is, or both are
    -- and are those of the file.
    pub verify_cached_iso_iff : ((verify_cached_iso f a ref stat properties).0 ≡ ok tt) ↔ (
        (a.properties_fail ≡ false)
        × (cached_iso_poisoned (properties ref.hash_prop) ≡ false)
        × ((properties ref.hash_prop ≡ [])
            ⊎ IsAcceptable (properties ref.size_prop) (properties ref.mtime_prop) stat))
    unfolding verify_cached_iso text_eq
    verify_cached_iso_iff = elim (Bool-cases a.properties_fail) [
      | inl e ↦ (λ h. absurd (cc (simp (e) at h)), λ p. absurd (cc (e, p.0)))
      | inr e ↦ elim (Bool-cases (cached_iso_poisoned (properties ref.hash_prop))) [
        | inl c ↦ (λ h. absurd (cc (simp (e, c) at h)), λ p. absurd (cc (c, p.1)))
        | inr c ↦ elim (Bool-cases (text_eq (properties ref.hash_prop) [])) [
          | inl n ↦ (
            λ h. (e, c, inl (text_eq_sound (properties ref.hash_prop) [] n)),
            λ p. simp (e, c, n),
          )
          | inr n ↦ (
            λ h. (e, c, inr (judge_iff.0 (simp (e, c, n) at h))),
            λ p. elim p.2 [
              | inl q ↦ absurd (cc (rw q at n))
              | inr q ↦ simp (e, c, n, judge_iff.1 q)
            ],
          )
        ]
      ]
    ]
