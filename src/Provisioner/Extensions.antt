-- ===== src/Provisioner/Extensions.antt =====
-- internal/provisioner/extensions.go: the Talos extensions that a machine class may ask for.
use omni_infra_provider_true.Base.{
  ℕ, ◌+◌, ◌≡◌, ◌⊎◌, inl, inr, refl, Bool, true, false, ◌&&◌, ◌||◌, List, [], ◌∷◌, any_of, All, ◌==◌,
  if◌then◌else◌,
}
use omni_infra_provider_true.Base.Result.{Result, ok, err, ◌>>◌, then_ok}
use omni_infra_provider_true.Text.{Text, codes, text_eq, to_lower}

pub data ExtensionError : Type 0 where
  extension_empty extension_whitespace extension_path extension_not_allowed : ℕ → ExtensionError

-- `allowedExtensions`.
unfoldable pub allowed_extensions : List Text
allowed_extensions =
    codes "siderolabs/gvisor"
    ∷ codes "siderolabs/kata-containers"
    ∷ codes "siderolabs/spin"
    ∷ codes "siderolabs/wasmedge"
    ∷ codes "siderolabs/amd-ucode"
    ∷ codes "siderolabs/amdgpu-firmware"
    ∷ codes "siderolabs/bnx2-bnx2x"
    ∷ codes "siderolabs/chelsio-firmware"
    ∷ codes "siderolabs/dell-firmware"
    ∷ codes "siderolabs/i915-ucode"
    ∷ codes "siderolabs/intel-ucode"
    ∷ codes "siderolabs/mei-firmware"
    ∷ codes "siderolabs/mellanox-firmware"
    ∷ codes "siderolabs/rtl8169-firmware"
    ∷ codes "siderolabs/xe-firmware"
    ∷ codes "siderolabs/gasket-driver"
    ∷ codes "siderolabs/nonfree-kmod-nvidia"
    ∷ codes "siderolabs/nvidia-container-toolkit"
    ∷ codes "siderolabs/nvidia-fabric-manager"
    ∷ codes "siderolabs/nvidia-open-gpu-kernel-modules"
    ∷ codes "siderolabs/binfmt-misc"
    ∷ codes "siderolabs/drbd"
    ∷ codes "siderolabs/iscsi-tools"
    ∷ codes "siderolabs/mdadm"
    ∷ codes "siderolabs/nfs-utils"
    ∷ codes "siderolabs/nut-client"
    ∷ codes "siderolabs/zfs"
    ∷ codes "siderolabs/bind-tools"
    ∷ codes "siderolabs/btrfs-progs"
    ∷ codes "siderolabs/cifs-utils"
    ∷ codes "siderolabs/glibc"
    ∷ codes "siderolabs/kernel-samepage-merging"
    ∷ codes "siderolabs/lldpd"
    ∷ codes "siderolabs/qemu-guest-agent"
    ∷ codes "siderolabs/tailscale"
    ∷ codes "siderolabs/thunderbolt"
    ∷ codes "siderolabs/util-linux-tools"
    ∷ codes "siderolabs/v4l-uvc-drivers"
    ∷ codes "siderolabs/vmtoolsd-guest-agent"
    ∷ codes "siderolabs/xen-guest-agent"
    ∷ codes "siderolabs/zerotier"
    ∷ []

unfoldable pub is_allowed_extension : Text → Bool
unfolding any_of allowed_extensions
is_allowed_extension ext = any_of (text_eq ext) allowed_extensions

-- `allowUnsignedExtensions`, on the environment's value.
unfoldable pub allow_unsigned_extensions : Text → Bool
unfolding to_lower
allow_unsigned_extensions value =
    let v = to_lower value in
    text_eq v (codes "true") || text_eq v (codes "1") || text_eq v (codes "yes")

-- `strings.ContainsAny(ext, " \t\r\n")`.
unfoldable pub has_blank : Text → Bool
unfolding any_of
has_blank ext = any_of (λ c. c == 32 || c == 9 || c == 13 || c == 10) ext

-- `strings.Contains`, of one code point twice.
unfoldable pub has_twice : ℕ → Text → Bool
has_twice c [] = false
has_twice c (x ∷ []) = false
has_twice c (x ∷ y ∷ s) = (x == c && y == c) || has_twice c (y ∷ s)

starts_with : ℕ → Text → Bool
starts_with c [] = false
starts_with c (x ∷ s) = x == c

unfoldable pub is_path_like : Text → Bool
unfolding has_twice starts_with
is_path_like ext = has_twice b'.' ext || starts_with b'/' ext || has_twice b'/' ext

check_flags : (is_empty blank path bypass allowed : Bool) → ℕ → Result ExtensionError (Unit {0})
check_flags is_empty blank path bypass allowed i =
    if is_empty
    then err (extension_empty i)
    else if blank
    then err (extension_whitespace i)
    else if path
    then err (extension_path i)
    else if bypass
    then ok tt
    else if allowed
    then ok tt
    else err (extension_not_allowed i)

unfoldable pub check_extension : Bool → ℕ → Text → Result ExtensionError (Unit {0})
unfolding check_flags
check_extension bypass i ext =
    check_flags (text_eq ext []) (has_blank ext) (is_path_like ext) bypass
      (is_allowed_extension ext) i

-- The loop of `validateExtensions`, from an index.
unfoldable pub validate_extensions : Bool → ℕ → List Text → Result ExtensionError (Unit {0})
unfolding check_extension
validate_extensions bypass i [] = ok tt
validate_extensions bypass i (ext ∷ exts) =
    check_extension bypass i ext >> validate_extensions bypass (i + 1) exts

-- An extension that can be baked into an image.
abbrev pub IsVetted : Bool → Text → Type 0
IsVetted bypass ext =
    (has_blank ext ≡ false)
    × (is_path_like ext ≡ false)
    × ((bypass ≡ true) ⊎ (is_allowed_extension ext ≡ true))

vetted :
    (is_empty blank path bypass allowed : Bool) (i : ℕ)
    → check_flags is_empty blank path bypass allowed i ≡ ok tt
    → (blank ≡ false) × (path ≡ false) × ((bypass ≡ true) ⊎ (allowed ≡ true))
unfolding check_flags
vetted true blank path bypass allowed i h = absurd (cc h)
vetted false true path bypass allowed i h = absurd (cc h)
vetted false false true bypass allowed i h = absurd (cc h)
vetted false false false true allowed i h = (refl, refl, inl refl)
vetted false false false false true i h = (refl, refl, inr refl)
vetted false false false false false i h = absurd (cc h)

check_extension-IsVetted :
    (bypass : Bool) (i : ℕ) (ext : Text)
    → check_extension bypass i ext ≡ ok tt
    → IsVetted bypass ext
unfolding check_extension
check_extension-IsVetted bypass i ext h =
    vetted (text_eq ext []) (has_blank ext) (is_path_like ext) bypass (is_allowed_extension ext) i h

-- Extensions that pass are vetted, every one: no blank, no path trick, also under the operator's
-- bypass, and on the allowlist without it.
pub validate_extensions-IsVetted :
    (bypass : Bool) (i : ℕ) (exts : List Text)
    → validate_extensions bypass i exts ≡ ok tt
    → All (IsVetted bypass) exts
unfolding validate_extensions
validate_extensions-IsVetted bypass i [] h = tt
validate_extensions-IsVetted bypass i (ext ∷ exts) h =
    let (here, later) =
      then_ok (check_extension bypass i ext) (validate_extensions bypass (i + 1) exts) h in
    (
      check_extension-IsVetted bypass i ext here,
      validate_extensions-IsVetted bypass (i + 1) exts later,
    )
