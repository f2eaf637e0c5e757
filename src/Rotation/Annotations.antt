-- ===== src/Rotation/Annotations.antt =====
-- internal/noderotation/annotations.go: the rotation policy on a MachineClass.
use omni_infra_provider_true.Base.{
  ℕ, ◌≡◌, ◌≢◌, refl, Bool, true, false, not, Option, none, some, String, arith, if◌then◌else◌, ◌⊎◌,
  inl, inr,
}
use omni_infra_provider_true.Base.Int.{ℤ, pos, negsuc}
use omni_infra_provider_true.Base.Result.{Result, ok, err, ◌>>=◌, bind_ok}
use omni_infra_provider_true.Text.{Text, codes, text_eq, trim_space, to_lower}
use omni_infra_provider_true.Text.Signed.{parse_int}
use omni_infra_provider_true.Omni.{Annotations, value_or_empty}

abbrev pub annotation_enabled : String
annotation_enabled = "node-rotation.omni/enabled"

abbrev pub annotation_role : String
annotation_role = "node-rotation.omni/role"

abbrev pub annotation_strategy : String
annotation_strategy = "node-rotation.omni/strategy"

abbrev pub annotation_min_healthy : String
annotation_min_healthy = "node-rotation.omni/min-healthy"

abbrev pub annotation_class_generation : String
annotation_class_generation = "node-rotation.omni/class-generation"

abbrev pub annotation_rotation_state : String
annotation_rotation_state = "node-rotation.omni/rotation-state"

abbrev pub annotation_surge_phase : String
annotation_surge_phase = "node-rotation.omni/surge-phase"

pub data Role : Type 0 where
  control_plane worker : Role

-- A `Strategy` is a string in the source: `other` stands for any but the two that it names.
pub data Strategy : Type 0 where
  surge in_place : Strategy
  other : Text → Strategy

abbrev pub default_min_healthy_control_plane : ℕ
default_min_healthy_control_plane = 2

abbrev pub default_min_healthy_worker : ℕ
default_min_healthy_worker = 1

pub record Config : Type 0 where
  pub role : Role
  pub strategy : Strategy
  pub min_healthy : ℕ

pub data ConfigError : Type 0 where
  role_required role_invalid strategy_required strategy_invalid : ConfigError
  in_place_control_plane min_healthy_syntax min_healthy_negative : ConfigError

-- `strings.EqualFold(strings.TrimSpace(v), "true")`: no other code point folds to these letters.
is_true : Option Text → Bool
is_true none = false
is_true (some v) = text_eq (to_lower (trim_space v)) (codes "true")

unfoldable pub is_rotation_opt_in : Annotations → Bool
unfolding is_true
is_rotation_opt_in annotations = is_true (annotations annotation_enabled)

unfoldable pub parse_role : Text → Result ConfigError Role
parse_role raw =
    let word = trim_space (to_lower raw) in
    if text_eq word (codes "")
    then err role_required
    else if text_eq word (codes "controlplane")
    then ok control_plane
    else if text_eq word (codes "worker")
    then ok worker
    else err role_invalid

unfoldable pub parse_strategy : Text → Result ConfigError Strategy
parse_strategy raw =
    let word = trim_space (to_lower raw) in
    if text_eq word (codes "")
    then err strategy_required
    else if text_eq word (codes "surge")
    then ok surge
    else if text_eq word (codes "in-place")
    then ok in_place
    else err strategy_invalid

default_min_healthy : Role → ℕ
default_min_healthy control_plane = default_min_healthy_control_plane
default_min_healthy worker = default_min_healthy_worker

min_healthy_of : Option ℤ → Result ConfigError ℕ
min_healthy_of none = err min_healthy_syntax
min_healthy_of (some (negsuc n)) = err min_healthy_negative
min_healthy_of (some (pos n)) = ok n

unfoldable pub parse_min_healthy : Option Text → Role → Result ConfigError ℕ
unfolding default_min_healthy min_healthy_of
parse_min_healthy none role = ok (default_min_healthy role)
parse_min_healthy (some raw) role = min_healthy_of (parse_int (trim_space raw))

-- In-place rotation of a control plane is refused.
refuse_in_place : Role → Strategy → Result ConfigError (Unit {0})
refuse_in_place control_plane in_place = err in_place_control_plane
refuse_in_place _ _ = ok tt

-- `ok none` is a class that has not opted in.
unfoldable pub parse_machine_class_rotation_config :
    Annotations → Result ConfigError (Option Config)
unfolding refuse_in_place
parse_machine_class_rotation_config annotations =
    if not (is_rotation_opt_in annotations) then ok none else do
      role ← parse_role (value_or_empty (annotations annotation_role))
      strategy ← parse_strategy (value_or_empty (annotations annotation_strategy))
      _ ← refuse_in_place role strategy
      min_healthy ← parse_min_healthy (annotations annotation_min_healthy) role
      ok (some (record { role = role; strategy = strategy; min_healthy = min_healthy }))

opted :
    (b : Bool) (r : Result ConfigError (Option Config)) (cfg : Config)
    → (if b then ok none else r) ≡ ok (some cfg)
    → (b ≡ false) × (r ≡ ok (some cfg))
opted true r cfg h = absurd (cc h)
opted false r cfg h = (refl, h)

-- A role and a strategy that are not refused are no control plane in place.
allowed_pair :
    (role : Role) (strategy : Strategy) (u : Unit {0})
    → refuse_in_place role strategy ≡ ok u
    → (role ≡ worker) ⊎ (strategy ≢ in_place)
unfolding refuse_in_place
allowed_pair control_plane surge u h = inr (λ e. cc e)
allowed_pair control_plane in_place u h = absurd (cc h)
allowed_pair control_plane (Strategy.other t) u h = inr (λ e. cc e)
allowed_pair worker strategy u h = inl refl

made : Role → Strategy → ℕ → Result ConfigError (Option Config)
made role strategy n = ok (some (record { role = role; strategy = strategy; min_healthy = n }))

pair_of :
    (role : Role) (strategy : Strategy) (n : ℕ) (cfg : Config)
    → made role strategy n ≡ ok (some cfg)
    → (role ≡ worker) ⊎ (strategy ≢ in_place)
    → (cfg.role ≡ worker) ⊎ (cfg.strategy ≢ in_place)
unfolding made
pair_of role strategy n cfg h (inl w) = inl (ground arith)
pair_of role strategy n cfg h (inr k) = inr (λ e. k (ground arith))

-- A class that parses has opted in, and rotates in place only if its role is worker.
pub parse_machine_class_rotation_config-roles :
    (annotations : Annotations) (cfg : Config)
    → parse_machine_class_rotation_config annotations ≡ ok (some cfg)
    → (is_rotation_opt_in annotations ≡ true) × ((cfg.role ≡ worker) ⊎ (cfg.strategy ≢ in_place))
unfolding parse_machine_class_rotation_config made
parse_machine_class_rotation_config-roles annotations cfg h =
    let (opt_in, h) = opted (not (is_rotation_opt_in annotations)) _ cfg h in
    let (role, e₁, h) =
      bind_ok _ (parse_role (value_or_empty (annotations annotation_role))) (some cfg) h in
    let (strategy, e₂, h) =
      bind_ok _ (parse_strategy (value_or_empty (annotations annotation_strategy))) (some cfg) h in
    let (u, e₃, h) = bind_ok _ (refuse_in_place role strategy) (some cfg) h in
    let (min_healthy, e₄, h) =
      bind_ok _ (parse_min_healthy (annotations annotation_min_healthy) role) (some cfg) h in
    let pair = allowed_pair role strategy u e₃ in
    (ground arith, pair_of role strategy min_healthy cfg h pair)
