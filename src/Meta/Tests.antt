-- ===== src/Meta/Tests.antt =====
-- Instances of the theorem on the loop over underscores, and names that the code builds.
use omni_infra_provider_true.Base.{◌≡◌, refl, false, length, arith}
use omni_infra_provider_true.Text.{Text, codes}
use omni_infra_provider_true.Meta.{
  has_pair, collapse, build_vm_name, joined, mask, underscore, trim_underscore, replace_pairs,
}
use omni_infra_provider_true.Meta.Squeeze.{squeeze, collapse-ends}

abbrev run : Text
run = codes "omni____a__b_"

collapse-ends_example :
    (has_pair (collapse (length run) run) ≡ false) × (collapse (length run) run ≡ squeeze false run)
collapse-ends_example = collapse-ends (length run) run (omega arith)

collapsed : collapse (length run) run ≡ codes "omni_a_b_"
unfolding collapse has_pair replace_pairs
collapsed = refl

-- Two providers' requests can have the same name.
same_name : build_vm_name (codes "a") (codes "b-c") ≡ build_vm_name (codes "a-b") (codes "c")
unfolding build_vm_name joined mask underscore trim_underscore collapse has_pair replace_pairs
same_name = refl
