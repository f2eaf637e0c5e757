-- ===== src/Rotation/Generation.antt =====
-- internal/noderotation/generation.go, with the functions of discovery.go that feed it: the hash of
-- what a machine is built from. JSON and SHA-256 are Go's library, one parameter here.
use omni_infra_provider_true.Base.{ℕ, List, [], ◌∷◌, ◌++◌, map, Option, none, some, if◌then◌else◌}
use omni_infra_provider_true.Base.Result.{Result, ok}
use omni_infra_provider_true.Text.{Text}
use omni_infra_provider_true.Text.Decimal.{format_uint}
use omni_infra_provider_true.Text.Order.{text_leb}
use omni_infra_provider_true.Omni.{ProvisionSpec, MachineClass, MachineRequest}

-- `generationInputs`: the fields that are hashed.
pub record GenerationInputs : Type 0 where
  pub provider_data : Text
  pub kernel_args : List Text
  pub meta_values : List Text
  pub grpc_tunnel : Text

-- The first 16 hexadecimal digits of the SHA-256 of the inputs' JSON, or the encoder's error.
abbrev pub Digest : Type 0
Digest = GenerationInputs → Result Text Text

-- `sort.Strings`, whose result any stable sort gives.
unfoldable pub insert_text : Text → List Text → List Text
insert_text s [] = s ∷ []
insert_text s (t ∷ ts) =
    let rest = t ∷ insert_text s ts in if text_leb s t then s ∷ t ∷ ts else rest

unfoldable pub sort_texts : List Text → List Text
unfolding insert_text
sort_texts [] = []
sort_texts (s ∷ ss) = insert_text s (sort_texts ss)

meta_value_text : ℕ × Text → Text
meta_value_text (key, value) = format_uint key ++ b'=' ∷ value

unfoldable pub meta_values_to_string_slice : List (ℕ × Text) → List Text
unfolding meta_value_text sort_texts
meta_values_to_string_slice values = sort_texts (map meta_value_text values)

unfoldable pub generation_of_spec : Digest → ProvisionSpec → Result Text Text
unfolding meta_values_to_string_slice
generation_of_spec digest spec = digest (record {
  provider_data = spec.provider_data;
  kernel_args = spec.kernel_args;
  meta_values = meta_values_to_string_slice spec.meta_values;
  grpc_tunnel = spec.grpc_tunnel;
})

generation_if : Digest → Option ProvisionSpec → Result Text Text
unfolding generation_of_spec
generation_if digest none = ok []
generation_if digest (some spec) = generation_of_spec digest spec

-- The empty text for a class with no AutoProvision block.
unfoldable pub generation_from_machine_class : Digest → MachineClass → Result Text Text
unfolding generation_if
generation_from_machine_class digest mc = generation_if digest mc.auto_provision

unfoldable pub generation_from_machine_request : Digest → MachineRequest → Result Text Text
unfolding generation_of_spec
generation_from_machine_request digest mr = generation_of_spec digest mr.spec
