-- ===== src/Provisioner/Mac/Tests.antt =====
-- An instance of the theorem on the address of a NIC, with a digest that tells the texts apart.
use omni_infra_provider_true.Provisioner.Fixtures.{digest}
use omni_infra_provider_true.Base.{Bool}
use omni_infra_provider_true.Text.{Text, codes, text_eq}
use omni_infra_provider_true.Provisioner.Mac.{
  max_collision_retries, deterministic_mac, resolve_deterministic_mac, IsResolved,
  resolve_deterministic_mac-IsResolved,
}

-- The first candidate is taken.
abbrev is_taken : Text → Bool
is_taken mac = text_eq mac (deterministic_mac digest (codes "r1") 0)

resolve_deterministic_mac-IsResolved_example :
    IsResolved digest
      (codes "r1")
      0
      is_taken
      0
      max_collision_retries
      (resolve_deterministic_mac digest (codes "r1") 0 is_taken)
resolve_deterministic_mac-IsResolved_example =
    resolve_deterministic_mac-IsResolved digest (codes "r1") 0 is_taken
