-- ===== src/Provisioner/Preflight/Space.antt =====
-- What the admitted disks need of their pools.
use omni_infra_provider_true.Base.{
  ℕ, ◌+◌, ◌*◌, ◌≤◌, ◌<◌, ◌≡◌, refl, sym, ap, ◌∙◌, ◌⊎◌, inl, inr, false, List, [], ◌∷◌, Option, some,
  All, arith, if◌then◌else◌, Bool-cases,
}
use omni_infra_provider_true.Base.Int.{ℤ, pos, pos_part, ◌+ℤ◌, ◌≤ℤ◌, ltb_ℤ, int64_bound}
use omni_infra_provider_true.Base.Result.{ok, fail_if_ok, then_ok}
use omni_infra_provider_true.Int64.{wrap, scale, wrap-sum, scale-pos}
use omni_infra_provider_true.Text.{Text, text_eq, text_eq_sound, text_eq_refl}
use omni_infra_provider_true.Provisioner.{Data, AdditionalDisk}
use omni_infra_provider_true.Provisioner.Preflight.{
  add_required, disk_pool, add_disks, pool_required_gib, check_pool_space, check_pools,
  check_pool_space_all, pool_full,
}

-- A disk's size is not negative.
abbrev pub IsSized : ℤ → Type 0
IsSized size = size ≡ pos (pos_part size)

-- The sizes of all further disks, and of those on one pool, as sums without a bound.
unfoldable pub total_gib : List AdditionalDisk → ℕ
total_gib [] = 0
total_gib (disk ∷ disks) = pos_part disk.size + total_gib disks

unfoldable pub on_pool : Text → Data → List AdditionalDisk → ℕ
on_pool pool d [] = 0
on_pool pool d (disk ∷ disks) =
    let rest = on_pool pool d disks in
    if text_eq (disk_pool d disk) pool then pos_part disk.size + rest else rest

-- The disks of a machine on a pool, the root disk with them.
abbrev pub demand : Text → Data → ℕ
demand pool d =
    if text_eq d.pool pool
    then pos_part d.disk_size + on_pool pool d d.additional_disks
    else on_pool pool d d.additional_disks

-- What a list of requirements has for a pool, 0 where it names the pool nowhere.
required : Text → List (Text × ℤ) → ℤ
required pool [] = pos 0
required pool ((p, n) ∷ rest) = if text_eq p pool then n else required pool rest

pos-injective : (a b : ℕ) → pos a ≡ pos b → a ≡ b
pos-injective a b h = cc h

not_below : (free : ℤ) (n : ℕ) → ltb_ℤ free (pos n) ≡ false → pos n ≤ℤ free
not_below free n h = ground arith

required-add :
    (pool p : Text) (v k : ℕ) (size : ℤ) (rs : List (Text × ℤ))
    → size ≡ pos k
    → required pool rs ≡ pos v
    → v + k < int64_bound
    → required pool (add_required p size rs) ≡ pos (if text_eq p pool then v + k else v)
unfolding required add_required
required-add pool p v k size [] e q b = elim (Bool-cases (text_eq p pool)) [
  | inl h ↦ simp (h) (e ∙ ap pos (omega (arith, pos-injective 0 v q)))
  | inr h ↦ simp (h) q
]
required-add pool p v k size ((p', n) ∷ rs) e q b = elim (Bool-cases (text_eq p' p)) [
  | inl same ↦ elim (Bool-cases (text_eq p pool)) [
    | inl h ↦
        let h' = ap (λ t. text_eq t pool) (text_eq_sound p' p same) ∙ h in
        simp (same, h, h')
          (ap (λ z. wrap (z +ℤ size)) (simp (h') at q)
            ∙ ap (λ z. wrap (pos v +ℤ z)) e
            ∙ wrap-sum v k b)
    | inr h ↦
        let h' = ap (λ t. text_eq t pool) (text_eq_sound p' p same) ∙ h in
        simp (same, h, h') (simp (h') at q)
  ]
  | inr other ↦ elim (Bool-cases (text_eq p' pool)) [
    | inl h ↦
        let apart : text_eq p pool ≡ false = elim (Bool-cases (text_eq p pool)) [
          | inl g ↦ absurd (
              cc (
                sym other
                ∙ ap (λ t. text_eq t p) (text_eq_sound p' pool h)
                ∙ ap (text_eq pool) (text_eq_sound p pool g)
                ∙ text_eq_refl pool))
          | inr g ↦ g
        ] in
        simp (other, h, apart) (simp (h) at q)
    | inr h ↦ simp (other, h) (required-add pool p v k size rs e (simp (h) at q) b)
  ]
]

required-disks :
    (pool : Text) (d : Data) (v : ℕ) (disks : List AdditionalDisk) (rs : List (Text × ℤ))
    → All (λ disk. IsSized disk.size) disks
    → required pool rs ≡ pos v
    → v + total_gib disks < int64_bound
    → required pool (add_disks d disks rs) ≡ pos (v + on_pool pool d disks)
unfolding add_disks total_gib on_pool
required-disks pool d v [] rs h q b = q ∙ ap pos (omega arith)
required-disks pool d v (disk ∷ disks) rs (h, hs) q b =
    let k = pos_part disk.size in
    let next = add_required (disk_pool d disk) disk.size rs in
    let added = required-add pool (disk_pool d disk) v k disk.size rs h q (omega (arith, b)) in
    elim (Bool-cases (text_eq (disk_pool d disk) pool)) [
      | inl e ↦
          required-disks pool d (v + k) disks next hs (simp (e) at added) (omega (arith, b))
          ∙ ap pos (simp (e) (omega arith))
      | inr e ↦
          required-disks pool d v disks next hs (simp (e) at added) (omega (arith, b))
          ∙ ap pos (simp (e) (omega arith))
    ]

required-bound :
    (pool : Text) (pool_free_space : Text → Option ℤ) (free : ℤ) (v : ℕ) (rs : List (Text × ℤ))
    → check_pools pool_free_space rs ≡ ok tt
    → pool_free_space pool ≡ some free
    → required pool rs ≡ pos v
    → v < 8589934592
    → (v ≡ 0) ⊎ (pos (v * 1073741824) ≤ℤ free)
unfolding check_pools check_pool_space required
required-bound pool pool_free_space free v [] h e q b = inl (omega (arith, pos-injective 0 v q))
required-bound pool pool_free_space free v ((p, n) ∷ rs) h e q b =
    let (first, rest) =
      then_ok (check_pool_space p n (pool_free_space p)) (check_pools pool_free_space rs) h in
    elim (Bool-cases (text_eq p pool)) [
      | inl same ↦ inr (
          let there = ap pool_free_space (text_eq_sound p pool same) ∙ e in
          let checked =
            fail_if_ok (ltb_ℤ free (scale (1024 * 1024 * 1024) n)) (pool_full p) tt
              (simp (there) at first) in
          let scaled =
            ap (scale 1073741824) (simp (same) at q) ∙ scale-pos 1073741824 v (omega (arith, b)) in
          not_below free (v * 1073741824) (sym (ap (ltb_ℤ free) scaled) ∙ checked))
      | inr other ↦ required-bound pool pool_free_space free v rs rest e (simp (other) at q) b
    ]

on_pool-total :
    (pool : Text) (d : Data) (disks : List AdditionalDisk) → on_pool pool d disks ≤ total_gib disks
unfolding on_pool total_gib
on_pool-total pool d [] = omega arith
on_pool-total pool d (disk ∷ disks) = ground (arith, on_pool-total pool d disks)

-- Where the check of the pools passes, every pool whose free space can be read has room for all of
-- the machine's disks that lie on it, the root disk with them; no size is negative and together they
-- are below 2 ^ 33 GiB, so that no sum wraps around.
pub check_pool_space_all-bound :
    (pool_free_space : Text → Option ℤ) (d : Data) (pool : Text) (free : ℤ)
    → IsSized d.disk_size
    → All (λ disk. IsSized disk.size) d.additional_disks
    → pos_part d.disk_size + total_gib d.additional_disks < 8589934592
    → check_pool_space_all pool_free_space d ≡ ok tt
    → pool_free_space pool ≡ some free
    → (demand pool d ≡ 0) ⊎ (pos (demand pool d * 1073741824) ≤ℤ free)
unfolding check_pool_space_all pool_required_gib required
check_pool_space_all-bound pool_free_space d pool free h hs b passes e =
    let root = pos_part d.disk_size in
    let further = on_pool pool d d.additional_disks in
    let within = on_pool-total pool d d.additional_disks in
    let rs = pool_required_gib d in
    let start : List (Text × ℤ) = (d.pool, d.disk_size) ∷ [] in
    let limit = required-bound pool pool_free_space free in
    elim (Bool-cases (text_eq d.pool pool)) [
      | inl same ↦
          let first : required pool start ≡ pos root = simp (same) h in
          let q = required-disks pool d root d.additional_disks start hs first (omega (arith, b)) in
          simp (same) (limit (root + further) rs passes e q (omega (arith, b, within)))
      | inr other ↦
          let first : required pool start ≡ pos 0 = simp (other) refl in
          let q = required-disks pool d 0 d.additional_disks start hs first (omega (arith, b)) in
          simp (other)
            (limit further rs passes e (q ∙ ap pos (omega arith)) (omega (arith, b, within)))
    ]
