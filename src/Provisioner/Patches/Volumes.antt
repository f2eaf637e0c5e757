-- ===== src/Provisioner/Patches/Volumes.antt =====
-- Which volumes a document's selector claims.
use omni_infra_provider_true.Base.{
  ℕ, suc, ◌+◌, ◌*◌, ◌<◌, ◌≡◌, ◌↔◌, refl, sym, ap, ◌∙◌, [], Bool-cases, inl, inr, arith, ◌-◌,
}
use omni_infra_provider_true.Base.Int.{pos, ◌+ℤ◌, ◌-ℤ◌, leb_ℤ, ◌≤ℤ◌}
use omni_infra_provider_true.Base.Result.{Result, ok}
use omni_infra_provider_true.Int64.{wrap, scale, scale-pos, wrap-sum, wrap-difference}
use omni_infra_provider_true.Text.{codes, text_eq}
use omni_infra_provider_true.Provisioner.{AdditionalDisk, default_text}
use omni_infra_provider_true.Provisioner.Patches.{
  PatchError, UserVolume, user_volume, gibi_byte, disk_size_tolerance,
}

-- A document's selector admits a volume of so many bytes.
abbrev pub Claims : UserVolume → ℕ → Type 0
Claims v bytes = (v.low ≤ℤ pos bytes) × (pos bytes ≤ℤ v.high)

one_value : (r : Result PatchError UserVolume) (a b : UserVolume) → r ≡ ok a → r ≡ ok b → a ≡ b
one_value r a b h k = cc (h, k)

built : AdditionalDisk → UserVolume
built disk = record {
  name = disk.name;
  low = wrap (scale gibi_byte disk.size -ℤ pos disk_size_tolerance);
  high = wrap (scale gibi_byte disk.size +ℤ pos disk_size_tolerance);
  filesystem = default_text disk.filesystem (codes "xfs");
}

window :
    (disk : AdditionalDisk) (v : UserVolume) (n : ℕ)
    → disk.size ≡ pos (suc n)
    → n < 4294967296
    → user_volume disk ≡ ok v
    → (v.low ≡ pos (suc n * gibi_byte - disk_size_tolerance))
      × (v.high ≡ pos (suc n * gibi_byte + disk_size_tolerance))
unfolding user_volume built
window disk v n e small h =
    let scaled = ap (scale gibi_byte) e ∙ scale-pos gibi_byte (suc n) (omega arith) in
    let bytes = suc n * gibi_byte in
    elim (Bool-cases (text_eq disk.name [])) [
      | inl bad ↦ absurd (cc (simp (bad) at h))
      | inr named ↦ elim (Bool-cases (leb_ℤ disk.size (pos 0))) [
        | inl bad ↦ absurd (cc (simp (named, bad) at h))
        | inr sized ↦
            let q = one_value (ok (built disk)) (built disk) v refl (simp (named, sized) at h) in
            (
              sym (ap (λ v. v.low) q)
                  ∙ ap (λ z. wrap (z -ℤ pos disk_size_tolerance)) scaled
                  ∙ wrap-difference bytes disk_size_tolerance (omega arith) (omega arith),
              sym (ap (λ v. v.high) q)
                  ∙ ap (λ z. wrap (z +ℤ pos disk_size_tolerance)) scaled
                  ∙ wrap-sum bytes disk_size_tolerance (omega arith),
            )
      ]
    ]

-- The selector of a disk's document admits a volume of so many GiB exactly if that is the disk's own
-- size; the size is positive and below 2 ^ 32 GiB.
user_volume-Claims_iff :
    (disk : AdditionalDisk) (v : UserVolume) (n other : ℕ)
    → disk.size ≡ pos (suc n)
    → n < 4294967296
    → user_volume disk ≡ ok v
    → Claims v (other * gibi_byte) ↔ (other ≡ suc n)
user_volume-Claims_iff disk v n other e small h =
    let (low, high) = window disk v n e small h in simp (low, high) (omega arith)
