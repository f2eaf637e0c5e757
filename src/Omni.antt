-- ===== src/Omni.antt =====
-- What the program reads of Omni's resources, and their annotations and labels.
pub mod Store
pub mod Memory
use omni_infra_provider_true.Base.{
  ℕ, ◌≡◌, refl, Bool, true, false, List, Option, none, some, String, str_eq, if◌then◌else◌,
}
use omni_infra_provider_true.Clock.{Time}
use omni_infra_provider_true.Text.{Text}

abbrev pub Annotations : Type 0
Annotations = String → Option Text

-- The labels that the program reads, each under its own key of the Omni API.
pub record Labels : Type 0 where
  pub control_plane : Bool
  pub cluster : Option String
  pub infra_provider_id : Option String
  pub machine_request_set : Option String

-- `Annotations().Set` and `Annotations().Delete`.
abbrev pub set_annotation : String → Text → Annotations → Annotations
set_annotation k v m j = if str_eq j k then some v else m j

abbrev pub delete_annotation : String → Annotations → Annotations
delete_annotation k m j = if str_eq j k then none else m j

-- Go's `m[k]` on a map of strings: the empty string for a missing key.
abbrev pub value_or_empty : Option Text → Text
value_or_empty none = List.[]
value_or_empty (some v) = v

pub data AllocationType : Type 0 where
  static unlimited : AllocationType

-- `MachineSetSpec.MachineAllocation`; the count is a uint32.
pub record Allocation : Type 0 where
  pub name : String
  pub machine_count : ℕ
  pub allocation_type : AllocationType

pub record MachineSet : Type 0 where
  pub id : String
  pub labels : Labels
  pub annotations : Annotations
  pub allocation : Option Allocation

-- The inputs that a machine is built from, in a class's `AutoProvision` and in a request.
pub record ProvisionSpec : Type 0 where
  pub provider_data : Text
  pub grpc_tunnel : Text
  pub kernel_args : List Text
  pub meta_values : List (ℕ × Text)

pub record MachineClass : Type 0 where
  pub id : String
  pub annotations : Annotations
  pub auto_provision : Option ProvisionSpec

pub record MachineRequest : Type 0 where
  pub id : String
  pub labels : Labels
  pub created : Time
  pub spec : ProvisionSpec

pub record ProviderStatus : Type 0 where
  pub annotations : Annotations
  pub updated : Option Time

-- `MachineRequestStatusSpec_Stage`.
pub data Stage : Type 0 where
  unknown provisioning provisioned failed : Stage

abbrev pub is_provisioned : Stage → Bool
is_provisioned provisioned = true
is_provisioned _ = false

abbrev pub is_provisioning : Stage → Bool
is_provisioning provisioning = true
is_provisioning _ = false
