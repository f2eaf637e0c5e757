-- ===== src/Autoscaler/Annotations.antt =====
-- internal/autoscaler/annotations.go: the bounds and the gating policy on a MachineClass.
use omni_infra_provider_true.Base.{
  ℕ, ◌≤◌, ◌≡◌, refl, Bool, true, false, not, ◌||◌, Option, none, some, String, ltb, if◌then◌else◌,
  arith,
}
use omni_infra_provider_true.Base.Int.{ℤ, pos, negsuc}
use omni_infra_provider_true.Base.Result.{Result, ok, err, ◌>>=◌, fail_if, bind_ok, fail_if_ok}
use omni_infra_provider_true.Text.{Text, codes, text_eq, trim_space, to_lower}
use omni_infra_provider_true.Text.Signed.{parse_int}
use omni_infra_provider_true.Omni.{Annotations, value_or_empty}

abbrev pub annotation_autoscale_min : String
annotation_autoscale_min = "bearbinary.com/autoscale-min"

abbrev pub annotation_autoscale_max : String
annotation_autoscale_max = "bearbinary.com/autoscale-max"

abbrev pub annotation_autoscale_capacity_gate : String
annotation_autoscale_capacity_gate = "bearbinary.com/autoscale-capacity-gate"

abbrev pub annotation_autoscale_min_pool_free_gib : String
annotation_autoscale_min_pool_free_gib = "bearbinary.com/autoscale-min-pool-free-gib"

abbrev pub annotation_autoscale_min_host_mem_gib : String
annotation_autoscale_min_host_mem_gib = "bearbinary.com/autoscale-min-host-mem-gib"

abbrev pub annotation_autoscale_pool : String
annotation_autoscale_pool = "bearbinary.com/autoscale-pool"

pub data CapacityGate : Type 0 where
  hard soft : CapacityGate

abbrev pub default_min_pool_free_gib : ℕ
default_min_pool_free_gib = 50

abbrev pub default_min_host_mem_gib : ℕ
default_min_host_mem_gib = 8

-- The fields are Go `int`s that the parser has found to be no less than 0.
pub record Config : Type 0 where
  pub min : ℕ
  pub max : ℕ
  pub capacity_gate : CapacityGate
  pub min_pool_free_gib : ℕ
  pub min_host_mem_gib : ℕ
  pub pool : Text

pub data ConfigError : Type 0 where
  min_required max_required max_below_min gate_invalid : ConfigError
  number_syntax number_negative : String → ConfigError

abbrev pub is_set : Option Text → Bool
is_set none = false
is_set (some v) = true

unfoldable pub is_autoscale_opt_in : Annotations → Bool
is_autoscale_opt_in annotations =
    is_set (annotations annotation_autoscale_min) || is_set (annotations annotation_autoscale_max)

number_of : String → Option ℤ → Result ConfigError ℕ
number_of annotation none = err (number_syntax annotation)
number_of annotation (some (negsuc n)) = err (number_negative annotation)
number_of annotation (some (pos n)) = ok n

unfoldable pub parse_non_negative_int : String → Text → Result ConfigError ℕ
unfolding number_of
parse_non_negative_int annotation raw = number_of annotation (parse_int (trim_space raw))

unfoldable pub parse_capacity_gate : Text → Result ConfigError CapacityGate
parse_capacity_gate raw =
    let word = trim_space (to_lower raw) in
    if text_eq word (codes "")
    then ok hard
    else if text_eq word (codes "hard")
    then ok hard
    else if text_eq word (codes "soft")
    then ok soft
    else err gate_invalid

-- `parseOptionalGiBThreshold` on the annotation's value, if there is one.
unfoldable pub parse_optional_gib_threshold : String → Option Text → ℕ → Result ConfigError ℕ
unfolding parse_non_negative_int
parse_optional_gib_threshold annotation none fallback = ok fallback
parse_optional_gib_threshold annotation (some raw) fallback = parse_non_negative_int annotation raw

required : ConfigError → Option Text → Result ConfigError Text
required e none = err e
required e (some v) = ok v

-- `ok none` is a class that has not opted in.
unfoldable pub parse_machine_class_autoscale_config :
    Annotations → Result ConfigError (Option Config)
unfolding required
parse_machine_class_autoscale_config annotations =
    if not (is_autoscale_opt_in annotations) then ok none else do
      min_str ← required min_required (annotations annotation_autoscale_min)
      max_str ← required max_required (annotations annotation_autoscale_max)
      min_val ← parse_non_negative_int annotation_autoscale_min min_str
      max_val ← parse_non_negative_int annotation_autoscale_max max_str
      _ ← fail_if (ltb max_val min_val) max_below_min
      gate ← parse_capacity_gate (value_or_empty (annotations annotation_autoscale_capacity_gate))
      pool_free ←
          parse_optional_gib_threshold annotation_autoscale_min_pool_free_gib
            (annotations annotation_autoscale_min_pool_free_gib) default_min_pool_free_gib
      host_mem ←
          parse_optional_gib_threshold annotation_autoscale_min_host_mem_gib
            (annotations annotation_autoscale_min_host_mem_gib) default_min_host_mem_gib
      ok (
          some (record {
            min = min_val;
            max = max_val;
            capacity_gate = gate;
            min_pool_free_gib = pool_free;
            min_host_mem_gib = host_mem;
            pool = trim_space (value_or_empty (annotations annotation_autoscale_pool));
          }))

opted :
    (b : Bool) (r : Result ConfigError (Option Config)) (cfg : Config)
    → (if b then ok none else r) ≡ ok (some cfg)
    → (b ≡ false) × (r ≡ ok (some cfg))
opted true r cfg h = absurd (cc h)
opted false r cfg h = (refl, h)

-- A class that parses has opted in, and its minimum is no more than its maximum.
parse_machine_class_autoscale_config-bounds :
    (annotations : Annotations) (cfg : Config)
    → parse_machine_class_autoscale_config annotations ≡ ok (some cfg)
    → (is_autoscale_opt_in annotations ≡ true) × (cfg.min ≤ cfg.max)
unfolding parse_machine_class_autoscale_config
parse_machine_class_autoscale_config-bounds annotations cfg h =
    let (opt_in, h) = opted (not (is_autoscale_opt_in annotations)) _ cfg h in
    let (min_str, e₁, h) =
      bind_ok _ (required min_required (annotations annotation_autoscale_min)) (some cfg) h in
    let (max_str, e₂, h) =
      bind_ok _ (required max_required (annotations annotation_autoscale_max)) (some cfg) h in
    let (min_val, e₃, h) =
      bind_ok _ (parse_non_negative_int annotation_autoscale_min min_str) (some cfg) h in
    let (max_val, e₄, h) =
      bind_ok _ (parse_non_negative_int annotation_autoscale_max max_str) (some cfg) h in
    let (u, below, h) = bind_ok _ (fail_if (ltb max_val min_val) max_below_min) (some cfg) h in
    let (gate, e₅, h) =
      bind_ok _
        (parse_capacity_gate (value_or_empty (annotations annotation_autoscale_capacity_gate)))
        (some cfg) h in
    let (pool_free, e₆, h) =
      bind_ok _
        (parse_optional_gib_threshold annotation_autoscale_min_pool_free_gib
          (annotations annotation_autoscale_min_pool_free_gib) default_min_pool_free_gib)
        (some cfg) h in
    let (host_mem, e₇, h) =
      bind_ok _
        (parse_optional_gib_threshold annotation_autoscale_min_host_mem_gib
          (annotations annotation_autoscale_min_host_mem_gib) default_min_host_mem_gib)
        (some cfg) h in
    let order = fail_if_ok (ltb max_val min_val) max_below_min u below in
    (ground arith, ground arith)
