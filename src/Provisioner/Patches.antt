-- ===== src/Provisioner/Patches.antt =====
-- internal/provisioner/user_volume.go and config_patch.go: the Talos patches of a machine, as the
-- documents that are encoded. Whether a text is a CIDR is a parameter.
pub mod Volumes
use omni_infra_provider_true.Base.{
  ℕ, suc, ◌+◌, ◌*◌, Bool, true, false, List, [], ◌∷◌, ◌++◌, Option, none, some, any_of, leb, ◌&&◌,
  not, if◌then◌else◌,
}
use omni_infra_provider_true.Base.Int.{ℤ, pos, ◌+ℤ◌, ◌-ℤ◌, leb_ℤ}
use omni_infra_provider_true.Base.Result.{Result, ok, err, ◌>>=◌}
use omni_infra_provider_true.Int64.{wrap, scale}
use omni_infra_provider_true.Text.{Text, codes, text_eq, trim_space}
use omni_infra_provider_true.Meta.{has_prefix}
use omni_infra_provider_true.Provisioner.{AdditionalDisk, AdditionalNic, default_text}
use omni_infra_provider_true.Provisioner.Names.{split}
use mathlib.Core.List.{reverse}

-- A UserVolumeConfig: it claims a disk that is not the system disk and whose size in bytes is within
-- the two bounds.
pub record UserVolume : Type 0 where
  pub name : Text
  pub low : ℤ
  pub high : ℤ
  pub filesystem : Text

pub data PatchError : Type 0 where
  volume_name_empty volume_size_invalid duplicate_mac not_cidr : PatchError

abbrev pub gibi_byte : ℕ
gibi_byte = 1073741824

abbrev pub disk_size_tolerance : ℕ
disk_size_tolerance = 1048576

unfoldable pub user_volume : AdditionalDisk → Result PatchError UserVolume
unfolding wrap scale default_text
user_volume disk =
    if text_eq disk.name []
    then err volume_name_empty
    else if leb_ℤ disk.size (pos 0)
    then err volume_size_invalid
    else ok (record {
      name = disk.name;
      low = wrap (scale gibi_byte disk.size -ℤ pos disk_size_tolerance);
      high = wrap (scale gibi_byte disk.size +ℤ pos disk_size_tolerance);
      filesystem = default_text disk.filesystem (codes "xfs");
    })

-- `buildUserVolumePatch`: a document for each disk.
unfoldable pub build_user_volume_patch : List AdditionalDisk → Result PatchError (List UserVolume)
unfolding user_volume
build_user_volume_patch [] = ok []
build_user_volume_patch (disk ∷ disks) = do
  volume ← user_volume disk
  volumes ← build_user_volume_patch disks
  ok (volume ∷ volumes)

-- `hasLonghornDisk`.
unfoldable pub has_longhorn_disk : List AdditionalDisk → Bool
has_longhorn_disk disks = any_of (λ disk. text_eq disk.name (codes "longhorn")) disks

-- `resolveNICDHCP`.
unfoldable pub resolve_nic_dhcp : AdditionalNic → Bool
resolve_nic_dhcp nic = elim nic.dhcp [ none ↦ true | some dhcp ↦ dhcp ]

-- `collectNICInterfaceConfigs`, on the NICs with their addresses, empty where TrueNAS gave none.
unfoldable pub collect_nic_interface_configs : List (AdditionalNic × Text) → List (Text × Bool)
unfolding resolve_nic_dhcp
collect_nic_interface_configs [] = []
collect_nic_interface_configs ((nic, mac) ∷ nics) =
    let rest = collect_nic_interface_configs nics in
    if text_eq mac [] then rest else (mac, resolve_nic_dhcp nic) ∷ rest

has_duplicate : List (Text × Bool) → Bool
has_duplicate [] = false
has_duplicate ((mac, dhcp) ∷ nics) =
    let rest = has_duplicate nics in
    if not (text_eq mac []) && any_of (λ nic. text_eq nic.0 mac) nics then true else rest

with_mac : List (Text × Bool) → List (Text × Bool)
with_mac [] = []
with_mac ((mac, dhcp) ∷ nics) =
    let rest = with_mac nics in if text_eq mac [] then rest else (mac, dhcp) ∷ rest

-- `buildAdditionalNICInterfacesPatch`: the interfaces by their addresses; none is no patch.
unfoldable pub build_additional_nic_interfaces_patch :
    List (Text × Bool) → Result PatchError (List (Text × Bool))
unfolding has_duplicate with_mac
build_additional_nic_interfaces_patch nics =
    if has_duplicate nics then err duplicate_mac else ok (with_mac nics)

subnets_of : (Text → Bool) → List Text → Result PatchError (List Text)
subnets_of is_cidr [] = ok []
subnets_of is_cidr (part ∷ parts) =
    let rest = subnets_of is_cidr parts in
    let s = trim_space part in
    if text_eq s []
    then rest
    else if not (is_cidr s)
    then err not_cidr
    else (rest >>= λ subnets. ok (s ∷ subnets))

-- `parseAdvertisedSubnets`.
unfoldable pub parse_advertised_subnets : (Text → Bool) → Text → Result PatchError (List Text)
unfolding subnets_of split
parse_advertised_subnets is_cidr s =
    if text_eq s [] then ok [] else subnets_of is_cidr (split b',' s)

-- The suffix that `isControlPlaneRequest` looks for in the label of the request set, none where there
-- is no label.
unfoldable pub is_control_plane_request : Option Text → Bool
unfolding has_prefix
is_control_plane_request none = false
is_control_plane_request (some set_id) =
    has_prefix (reverse (codes "-control-planes")) (reverse set_id)

-- `patchName`.
unfoldable pub patch_name : Text → Text → Text
patch_name kind request_id = kind ++ b'-' ∷ request_id
