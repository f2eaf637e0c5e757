-- ===== src/Provisioner/Validation/Nics.antt =====
-- The interfaces of a configuration that passes the checks.
use omni_infra_provider_true.Base.{
  ℕ, zero, suc, ◌+◌, ◌≡◌, ◌≢◌, ◌⊎◌, inl, inr, refl, ap, ◌∙◌, Bool, true, false, not, ◌||◌, List, [],
  ◌∷◌, All, if◌then◌else◌, arith,
}
use omni_infra_provider_true.Base.Int.{ℤ, pos, negsuc, ◌≤ℤ◌}
use omni_infra_provider_true.Base.Result.{ok, err, then_ok, passed, relabel, relabel_ok}
use omni_infra_provider_true.Text.{Text, codes, text_eq, text_eq_refl}
use omni_infra_provider_true.Provisioner.{AdditionalNic}
use omni_infra_provider_true.Provisioner.Names.{is_safe_name}
use omni_infra_provider_true.Provisioner.Validation.{
  interface_missing, interface_unsafe, interface_duplicate, type_unknown, nic_rejected, seen_before,
  and_name, check_mtu, validate_one_additional_nic, validate_nics,
}
use omni_infra_provider_true.Provisioner.Validation.Unique.{AllDistinct, Unseen, All-Unseen_cons}

abbrev pub interfaces : List AdditionalNic → List Text
interfaces [] = []
interfaces (nic ∷ nics) = nic.network_interface ∷ interfaces nics

pub record IsNic (nic : AdditionalNic) : Type 0 where
  pub named : nic.network_interface ≢ []
  pub name_safe : is_safe_name nic.network_interface ≡ true
  pub mtu_in_range : (nic.mtu ≡ pos 0) ⊎ ((pos 576 ≤ℤ nic.mtu) × (nic.mtu ≤ℤ pos 9216))

mtu_sound :
    (mtu : ℤ) → check_mtu mtu ≡ ok tt → (mtu ≡ pos 0) ⊎ ((pos 576 ≤ℤ mtu) × (mtu ≤ℤ pos 9216))
unfolding check_mtu
mtu_sound (pos zero) h = inl refl
mtu_sound (pos (suc n)) h = inr (ground arith)
mtu_sound (negsuc n) h = absurd (cc h)

nic_flags :
    (is_empty safe seen known : Bool) (mtu : ℤ)
    → (if is_empty
        then err interface_missing
        else if not safe
        then err interface_unsafe
        else if seen
        then err interface_duplicate
        else if known
        then check_mtu mtu
        else err type_unknown)
      ≡ passed
    → (is_empty ≡ false) × (safe ≡ true) × (seen ≡ false) × (check_mtu mtu ≡ passed)
nic_flags true safe seen known mtu h = absurd (cc h)
nic_flags false false seen known mtu h = absurd (cc h)
nic_flags false true true known mtu h = absurd (cc h)
nic_flags false true false true mtu h = (refl, refl, refl, h)
nic_flags false true false false mtu h = absurd (cc h)

validate_one_additional_nic-IsNic :
    (nic : AdditionalNic) (seen : List Text)
    → validate_one_additional_nic nic seen ≡ ok tt
    → IsNic nic × Unseen seen nic.network_interface
unfolding validate_one_additional_nic
validate_one_additional_nic-IsNic nic seen h =
    let (named, safe, unseen, mtu) =
      nic_flags (text_eq nic.network_interface []) (is_safe_name nic.network_interface)
        (seen_before seen nic.network_interface)
        (text_eq nic.nic_type []
          || text_eq nic.nic_type (codes "VIRTIO")
          || text_eq nic.nic_type (codes "E1000"))
        nic.mtu h in
    (
      record {
        named = λ e. cc (named, ap (λ s. text_eq s []) e ∙ text_eq_refl []);
        name_safe = safe;
        mtu_in_range = mtu_sound nic.mtu mtu;
      },
      unseen,
    )

pub nics_sound :
    (i : ℕ) (nics : List AdditionalNic) (seen : List Text)
    → validate_nics i nics seen ≡ ok tt
    → All IsNic nics × AllDistinct (interfaces nics) × All (Unseen seen) (interfaces nics)
unfolding validate_nics
nics_sound i [] seen h = (tt, tt, tt)
nics_sound i (nic ∷ nics) seen h =
    let one = validate_one_additional_nic nic seen in
    let (first, rest) =
      then_ok (relabel (nic_rejected i) one)
        (validate_nics (i + 1) nics (nic.network_interface ∷ seen)) h in
    let (sound, here) =
      validate_one_additional_nic-IsNic nic seen (relabel_ok (nic_rejected i) one first) in
    let (sounds, distinct, later) = nics_sound (i + 1) nics (nic.network_interface ∷ seen) rest in
    let (apart, unseen) = All-Unseen_cons nic.network_interface seen (interfaces nics) later in
    ((sound, sounds), (apart, distinct), (here, unseen))

-- Interfaces that were checked with the primary one seen differ from it.
pub primary_apart :
    (primary : Text) (names : List Text)
    → AllDistinct names
    → All (Unseen (and_name primary [])) names
    → AllDistinct (and_name primary names)
unfolding and_name
primary_apart [] names distinct unseen = distinct
primary_apart (c ∷ s) names distinct unseen =
    let (apart, nothing) = All-Unseen_cons (c ∷ s) [] names unseen in (apart, distinct)
